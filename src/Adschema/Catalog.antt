-- ===== src/Adschema/Catalog.antt =====
-- internal/adschema/resolve.go, Resolve and AllStructural, over the closure of one class. The map that
-- Resolve returns is a list with one entry for each name.
use go_adpwsh.Prelude.{◌==◌, Bool, false, none, some, List, [], ◌∷◌, map, if◌then◌else◌}
use go_adpwsh.Prelude.Text.{Bytes, to_lower, bytes_eq}
use go_adpwsh.Prelude.Sort.{sort_strings}
use go_adpwsh.Adschema.Resolve.{
  RawClass, Raw, find_class, Contributions, find_contribution, resolved, partial_fetch, out_of_fuel,
  closure,
}

-- schema.Class of go-adcore: what Resolve writes into it.
pub record Class : Type 0 where
  pub structural : Bool
  pub mandatory : List Bytes
  pub optional : List Bytes
  pub via : List (Bytes × Bytes)

-- maps.Keys(contrib)
abbrev pub keys : Contributions → List Bytes
keys contrib = map (λ e. e.0) contrib

-- contrib[attr].mandatory
unfoldable pub is_mandatory : Contributions → Bytes → Bool
unfolding find_contribution
is_mandatory contrib attr = elim (find_contribution attr contrib) [
  | some c ↦ c.mandatory
  | none ↦ false
]

-- contrib[attr].class
unfoldable pub class_of : Contributions → Bytes → Bytes
unfolding find_contribution
class_of contrib attr = elim (find_contribution attr contrib) [ some c ↦ c.class | none ↦ [] ]

-- The loop over the attributes, which appends each to one of two slices.
unfoldable pub divide : Contributions → List Bytes → List Bytes × List Bytes
unfolding is_mandatory
divide contrib [] = ([], [])
divide contrib (attr ∷ attrs) =
    let rest = divide contrib attrs in
    if is_mandatory contrib attr then (attr ∷ rest.0, rest.1) else (rest.0, attr ∷ rest.1)

unfoldable pub catalog_class : RawClass → Contributions → Class
unfolding sort_strings divide class_of
catalog_class cl contrib =
    let attrs = sort_strings (keys contrib) in
    let parts = divide contrib attrs in
    record {
      structural = cl.category == 1;
      mandatory = sort_strings parts.0;
      optional = sort_strings parts.1;
      via = map (λ attr. (attr, class_of contrib attr)) attrs;
    }

-- out[name] = c
unfoldable pub put_class : Bytes → Class → List (Bytes × Class) → List (Bytes × Class)
unfolding bytes_eq
put_class name c [] = (name, c) ∷ []
put_class name c ((n, d) ∷ out) =
    if bytes_eq n name then (n, c) ∷ out else (n, d) ∷ put_class name c out

pub data Resolution : Type 0 where
  classes : List (Bytes × Class) → Resolution
  no_class : Bytes → Resolution
  incomplete : Bytes → Resolution
  stuck : Resolution

-- Resolve
unfoldable pub resolve_classes : Raw → List Bytes → List (Bytes × Class) → Resolution
unfolding find_class to_lower closure catalog_class put_class
resolve_classes raw [] out = classes out
resolve_classes raw (want ∷ names) out = elim (find_class (to_lower want) raw.classes) [
  | none ↦ no_class want
  | some cl ↦ elim (closure raw cl) [
    | resolved contrib ↦
        resolve_classes raw names (put_class cl.name (catalog_class cl contrib) out)
    | partial_fetch ↦ incomplete cl.name
    | out_of_fuel ↦ stuck
  ]
]

unfoldable pub structural_names : List RawClass → List Bytes
structural_names [] = []
structural_names (cl ∷ cls) =
    let rest = structural_names cls in if cl.category == 1 then cl.name ∷ rest else rest

-- AllStructural
unfoldable pub all_structural : Raw → List Bytes
unfolding sort_strings structural_names
all_structural raw = sort_strings (structural_names raw.classes)
