-- ===== src/Adschema/Effective.antt =====
-- What Resolve makes of the closures of the classes.
use go_adpwsh.Prelude.{
  suc, ◌+◌, ◌≡◌, ◌≢◌, refl, ap, true, false, List, [], ◌∷◌, length, All, arith, Bool-cases,
  Option-cases, inl, inr, ◌⊎◌,
}
use go_adpwsh.Prelude.Text.{Bytes, to_lower}
use go_adpwsh.Prelude.Sort.{sort_strings, length-sort, sort-All, bytes_lt}
use go_adpwsh.Adschema.Resolve.{
  RawClass, Raw, find_class, Contributions, Closure, resolved, partial_fetch, out_of_fuel, closure,
}
use go_adpwsh.Adschema.Termination.{closure-ne-out_of_fuel}
use go_adpwsh.Adschema.Catalog.{
  Class, keys, is_mandatory, divide, catalog_class, stuck, resolve_classes, put_class,
}

module _ (contrib : Contributions) where
  divide-All :
      (attrs : List Bytes)
      → All (λ a. is_mandatory contrib a ≡ true) (divide contrib attrs).0
        × All (λ a. is_mandatory contrib a ≡ false) (divide contrib attrs).1
  unfolding divide
  divide-All [] = (tt, tt)
  divide-All (attr ∷ attrs) =
      let rest = divide-All attrs in
      elim (Bool-cases (is_mandatory contrib attr)) [
        | inl must ↦ rw (must, divide) ((must, rest.0), rest.1)
        | inr may ↦ rw (may, divide) (rest.0, (may, rest.1))
      ]

  length-divide :
      (attrs : List Bytes)
      → length (divide contrib attrs).0 + length (divide contrib attrs).1 ≡ length attrs
  unfolding divide
  length-divide [] = refl
  length-divide (attr ∷ attrs) = elim (Bool-cases (is_mandatory contrib attr)) [
    | inl must ↦ rw (must, divide) (omega (arith, length-divide attrs))
    | inr may ↦ rw (may, divide) (omega (arith, length-divide attrs))
  ]

  length-keys : (cs : Contributions) → length (keys cs) ≡ length cs
  length-keys [] = refl
  length-keys (c ∷ cs) = ap suc (length-keys cs)

  -- The two lists of a class in the catalog have together as many attributes as its contributions;
  -- those of the one are marked as mandatory there, and those of the other are not.
  pub catalog_class-All :
      (cl : RawClass)
      → (length (catalog_class cl contrib).mandatory + length (catalog_class cl contrib).optional
          ≡ length contrib)
        × All (λ a. is_mandatory contrib a ≡ true) (catalog_class cl contrib).mandatory
        × All (λ a. is_mandatory contrib a ≡ false) (catalog_class cl contrib).optional
  unfolding catalog_class sort_strings
  catalog_class-All cl =
      let attrs = sort_strings (keys contrib) in
      let parts = divide-All attrs in
      (
        omega (
          arith,
          length-sort bytes_lt (divide contrib attrs).0,
          length-sort bytes_lt (divide contrib attrs).1,
          length-divide attrs,
          length-sort bytes_lt (keys contrib),
          length-keys contrib,
        ),
        sort-All bytes_lt (λ a. is_mandatory contrib a ≡ true) (divide contrib attrs).0 parts.0,
        sort-All bytes_lt (λ a. is_mandatory contrib a ≡ false) (divide contrib attrs).1 parts.1,
      )

Closure-cases :
    (c : Closure)
    → (c ≡ out_of_fuel)
      ⊎ ((c ≡ partial_fetch) ⊎ ((contrib : Contributions) × (c ≡ resolved contrib)))
Closure-cases (resolved contrib) = inr (inr (contrib, refl))
Closure-cases partial_fetch = inr (inl refl)
Closure-cases out_of_fuel = inl refl

-- Resolve ends on every schema, with any number of classes and whatever they name as their parents:
-- with the classes, or with the error of a name or of a fetch that was partial.
pub resolve_classes-ne-stuck :
    (raw : Raw) (names : List Bytes) (out : List (Bytes × Class))
    → resolve_classes raw names out ≢ stuck
unfolding resolve_classes
resolve_classes-ne-stuck raw [] out = λ h. cc
resolve_classes-ne-stuck raw (want ∷ names) out =
    elim (Option-cases (find_class (to_lower want) raw.classes)) [
      | inl missing ↦ rw (missing, resolve_classes) (λ h. cc)
      | inr (cl, found) ↦ elim (Closure-cases (closure raw cl)) [
        | inl endless ↦ elim (closure-ne-out_of_fuel raw cl endless) [ ]
        | inr (inl short) ↦ rw (found, short, resolve_classes) (λ h. cc)
        | inr (inr (contrib, done)) ↦
            rw (found, done, resolve_classes)
              (resolve_classes-ne-stuck raw names
                (put_class cl.name (catalog_class cl contrib) out))
      ]
    ]
