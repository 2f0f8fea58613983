-- ===== src/Adschema/Recorded.antt =====
-- internal/adschema/resolve.go: what record keeps of an attribute that some class demands.
use mathlib.Core.List.{Memᴰ}
use go_adpwsh.Prelude.{
  ℕ, ◌≡◌, refl, sym, ap, ◌∙◌, subst, Bool, true, false, Option, none, some, List, [], ◌∷◌, arith,
  Bool-cases, Option-cases, inl, inr, ◌⊎◌, ◌>>=◌,
}
use go_adpwsh.Prelude.Text.{Bytes, to_lower, bytes_eq, bytes_eq_refl}
use go_adpwsh.Adschema.Resolve.{
  RawClass, Raw, Contribution, Contributions, merge, record_attr, find_contribution, find_attr,
  record_group, record_class,
}
use go_adpwsh.Adschema.Catalog.{is_mandatory}

-- An attribute of the schema that is one of these names, with letters compared without case.
abbrev pub Names : Raw → List Bytes → Bytes → Type 0
Names raw names attr =
    (name : Bytes) × Memᴰ name names × (find_attr (to_lower name) raw.attributes ≡ some attr)

-- A class demands an attribute in one of its two lists.
abbrev pub Demands : Raw → RawClass → Bytes → Type 0
Demands raw c attr = Names raw c.must_contain attr ⊎ Names raw c.system_must_contain attr

merge-sets : (d : ℕ) (cl : Bytes) (c : Contribution) → (merge d cl true c).mandatory ≡ true
unfolding merge
merge-sets d cl c = ground arith

merge-keeps :
    (d : ℕ) (cl : Bytes) (m : Bool) (c : Contribution)
    → c.mandatory ≡ true
    → (merge d cl m c).mandatory ≡ true
unfolding merge
merge-keeps d cl true c h = merge-sets d cl c
merge-keeps d cl false c h = ground (arith, h)

record_attr-sets :
    (attr : Bytes) (d : ℕ) (cl : Bytes) (into : Contributions)
    → is_mandatory (record_attr attr d cl true into) attr ≡ true
unfolding record_attr is_mandatory find_contribution
record_attr-sets attr d cl [] = rw (is_mandatory, bytes_eq_refl attr) refl
record_attr-sets attr d cl ((a, c) ∷ into) = elim (Bool-cases (bytes_eq a attr)) [
  | inl same ↦ rw (same, record_attr, is_mandatory, same, find_contribution) (merge-sets d cl c)
  | inr other ↦
      rw (other, record_attr, is_mandatory, other, find_contribution)
        (record_attr-sets attr d cl into)
]

record_attr-keeps :
    (b attr : Bytes) (d : ℕ) (cl : Bytes) (m : Bool) (into : Contributions)
    → is_mandatory into b ≡ true
    → is_mandatory (record_attr attr d cl m into) b ≡ true
unfolding record_attr is_mandatory find_contribution
record_attr-keeps b attr d cl m [] h = cc
record_attr-keeps b attr d cl m ((a, c) ∷ into) h = elim (Bool-cases (bytes_eq a attr)) [
  | inl same ↦ elim (Bool-cases (bytes_eq a b)) [
    | inl this ↦
        let was : c.mandatory ≡ true = ground (arith, h, this) in
        rw (same, record_attr, is_mandatory, this, find_contribution) (merge-keeps d cl m c was)
    | inr that ↦ ground (arith, h, same, that)
  ]
  | inr other ↦ elim (Bool-cases (bytes_eq a b)) [
    | inl this ↦ ground (arith, h, other, this)
    | inr that ↦
        let rest = record_attr-keeps b attr d cl m into (ground (arith, h, that)) in
        rw (other, record_attr, is_mandatory, that, find_contribution) rest
  ]
]

record_group-keeps :
    (raw : Raw) (d : ℕ) (cl : Bytes) (m : Bool) (names : List Bytes) (into out : Contributions)
    (b : Bytes)
    → record_group raw d cl m names into ≡ some out
    → is_mandatory into b ≡ true
    → is_mandatory out b ≡ true
unfolding record_group
record_group-keeps raw d cl m [] into out b e h =
    let same : into ≡ out = cc in subst (λ x. is_mandatory x b ≡ true) same h
record_group-keeps raw d cl m (n ∷ names) into out b e h =
    elim (Option-cases (find_attr (to_lower n) raw.attributes)) [
      | inl missing ↦ absurd (ground (arith, e, missing))
      | inr (attr, found) ↦
          record_group-keeps raw d cl m names (record_attr attr d cl m into) out b
            (rw (found, record_group) at e) (record_attr-keeps b attr d cl m into h)
    ]

record_group-sets :
    (raw : Raw) (d : ℕ) (cl : Bytes) (names : List Bytes) (into out : Contributions) (attr : Bytes)
    → record_group raw d cl true names into ≡ some out
    → Names raw names attr
    → is_mandatory out attr ≡ true
unfolding record_group
record_group-sets raw d cl [] into out attr e (name, m, found) = elim m [ ]
record_group-sets raw d cl (n ∷ names) into out attr e (name, Memᴰ.head same, found) =
    let here : find_attr (to_lower n) raw.attributes ≡ some attr =
      ap (λ x. find_attr (to_lower x) raw.attributes) (sym same) ∙ found in
    record_group-keeps raw d cl true names (record_attr attr d cl true into) out attr
      (rw (here, record_group) at e) (record_attr-sets attr d cl into)
record_group-sets raw d cl (n ∷ names) into out attr e (name, Memᴰ.tail m, found) =
    elim (Option-cases (find_attr (to_lower n) raw.attributes)) [
      | inl missing ↦ absurd (ground (arith, e, missing))
      | inr (other, there) ↦
          record_group-sets raw d cl names (record_attr other d cl true into) out attr
            (rw (there, record_group) at e) (name, m, found)
    ]

bind-some :
    {A B : Type 0} (o : Option A) (f : A → Option B) (y : B)
    → (o >>= f) ≡ some y
    → (x : A) × (o ≡ some x) × (f x ≡ some y)
bind-some none f y h = absurd (cc h)
bind-some (some x) f y h = (x, refl, h)

module _ (raw : Raw) (d : ℕ) (c : RawClass) (into out : Contributions)
    (done : record_class raw d c into ≡ some out) where
  -- The contributions after each of the four groups.
  abbrev Groups : Type 0
  Groups =
      (x : Contributions) × (y : Contributions) × (z : Contributions) × (record_group raw d c.name
          true c.must_contain into
        ≡ some x)
      × (record_group raw d c.name true c.system_must_contain x ≡ some y)
      × (record_group raw d c.name false c.may_contain y ≡ some z)
      × (record_group raw d c.name false c.system_may_contain z ≡ some out)

  groups : Groups
  unfolding record_class
  groups =
      let (x, ex, rx) = bind-some _ _ out done in
      let (y, ey, ry) = bind-some _ _ out rx in
      let (z, ez, rz) = bind-some _ _ out ry in (x, y, z, ex, ey, ez, rz)

  pub record_class-keeps : (b : Bytes) → is_mandatory into b ≡ true → is_mandatory out b ≡ true
  record_class-keeps b h =
      let (x, y, z, ex, ey, ez, eo) = groups in
      record_group-keeps raw d c.name false _ z out b eo (
        record_group-keeps raw d c.name false _ y z b ez (
          record_group-keeps raw d c.name true _ x y b ey
            (record_group-keeps raw d c.name true _ into x b ex h)))

  pub record_class-sets : (attr : Bytes) → Demands raw c attr → is_mandatory out attr ≡ true
  record_class-sets attr (inl must) =
      let (x, y, z, ex, ey, ez, eo) = groups in
      record_group-keeps raw d c.name false _ z out attr eo (
        record_group-keeps raw d c.name false _ y z attr ez (
          record_group-keeps raw d c.name true _ x y attr ey
            (record_group-sets raw d c.name _ into x attr ex must)))
  record_class-sets attr (inr must) =
      let (x, y, z, ex, ey, ez, eo) = groups in
      record_group-keeps raw d c.name false _ z out attr eo (
        record_group-keeps raw d c.name false _ y z attr ez
          (record_group-sets raw d c.name _ x y attr ey must))
