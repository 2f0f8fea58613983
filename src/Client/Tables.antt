-- ===== src/Client/Tables.antt =====
-- The tables of SchemaClient.Resolve: what its loops leave for a ref.
use go_adpwsh.Prelude.{
  ◌≡◌, ◌≢◌, refl, sym, ap, ◌∙◌, ◌⊎◌, inl, inr, String, Bool, true, false, ◌||◌, Option, none, some,
  List, [], ◌∷◌, str_eq, arith, Bool-cases, Option-cases, eq_iff, eq_refl, &&-eq-true,
}
use go_adpwsh.Client.Schema.{
  RefKind, ref_class, ref_attribute, ref_extended_right, SchemaRef, same_kind, same_ref, Table,
  lookup_ref, well_known_guid, misses, known, resolved_guid, write_resolved,
}

same_kind_refl : (k : RefKind) → same_kind k k ≡ true
same_kind_refl ref_class = refl
same_kind_refl ref_attribute = refl
same_kind_refl ref_extended_right = refl

eq_of_same_kind : (j k : RefKind) → same_kind j k ≡ true → j ≡ k
eq_of_same_kind ref_class ref_class h = refl
eq_of_same_kind ref_class ref_attribute h = cc
eq_of_same_kind ref_class ref_extended_right h = cc
eq_of_same_kind ref_attribute ref_class h = cc
eq_of_same_kind ref_attribute ref_attribute h = refl
eq_of_same_kind ref_attribute ref_extended_right h = cc
eq_of_same_kind ref_extended_right ref_class h = cc
eq_of_same_kind ref_extended_right ref_attribute h = cc
eq_of_same_kind ref_extended_right ref_extended_right h = refl

same_ref_refl : (r : SchemaRef) → same_ref r r ≡ true
unfolding same_ref
same_ref_refl r = rw (same_kind_refl r.kind) (eq_refl r.name)

eq_of_same_ref : (a b : SchemaRef) → same_ref a b ≡ true → a ≡ b
unfolding same_ref
eq_of_same_ref a b h =
    let both = &&-eq-true (same_kind a.kind b.kind) (str_eq a.name b.name) h in
    let kinds = eq_of_same_kind a.kind b.kind both.0 in
    let texts = (eq_iff a.name b.name).0 both.1 in λ i. record { kind = kinds i; name = texts i }

-- Whether a ref is among those asked for.
unfoldable pub has_ref : SchemaRef → List SchemaRef → Bool
unfolding same_ref
has_ref ref [] = false
has_ref ref (r ∷ rs) = same_ref r ref || has_ref ref rs

-- A ref that is to come, or is already written, stays so behind another one.
pass_on :
    (ref r : SchemaRef) (rs : List SchemaRef) (found found' : Option String) (g : String)
    → same_ref r ref ≡ false
    → found' ≡ found
    → (has_ref ref (r ∷ rs) ≡ true) ⊎ (found ≡ some g)
    → (has_ref ref rs ≡ true) ⊎ (found' ≡ some g)
unfolding has_ref
pass_on ref r rs found found' g other same (inl h) = inl (ground (arith, other, h))
pass_on ref r rs found found' g other same (inr h) = inr (same ∙ h)

lookup_ref-other :
    (ref r : SchemaRef) (g : String) (out : Table)
    → same_ref r ref ≡ false
    → lookup_ref ref ((r, g) ∷ out) ≡ lookup_ref ref out
unfolding lookup_ref
lookup_ref-other ref r g out other = rw (other, lookup_ref)

pub lookup_ref-well_known :
    (ref : SchemaRef) (guid : String) (refs : List SchemaRef) (out : Table)
    → well_known_guid ref ≡ some guid
    → (has_ref ref refs ≡ true) ⊎ (lookup_ref ref out ≡ some guid)
    → lookup_ref ref (known refs out) ≡ some guid
unfolding known has_ref lookup_ref
lookup_ref-well_known ref guid [] out w (inl h) = cc
lookup_ref-well_known ref guid [] out w (inr h) = h
lookup_ref-well_known ref guid (r ∷ rs) out w h = elim (Bool-cases (same_ref r ref)) [
  | inl same ↦
      let it : well_known_guid r ≡ some guid = ap well_known_guid (eq_of_same_ref r ref same) ∙ w in
      let ih =
        lookup_ref-well_known ref guid rs ((r, guid) ∷ out) w (inr (rw (same, lookup_ref))) in
      ground (arith, it, ih)
  | inr other ↦ elim (Option-cases (well_known_guid r)) [
    | inl missing ↦
        let ih =
          lookup_ref-well_known ref guid rs out w
            (pass_on ref r rs (lookup_ref ref out) (lookup_ref ref out) guid other refl h) in
        ground (arith, missing, ih)
    | inr (g, it) ↦
        let ih = lookup_ref-well_known ref guid rs ((r, g) ∷ out) w (
          pass_on ref r rs (lookup_ref ref out) (lookup_ref ref ((r, g) ∷ out)) guid other
            (lookup_ref-other ref r g out other) h) in
        ground (arith, it, ih)
  ]
]

differs :
    (ref r : SchemaRef) (g : String)
    → well_known_guid ref ≡ some g
    → well_known_guid r ≡ none
    → same_ref r ref ≡ false
differs ref r g w missing = elim (Bool-cases (same_ref r ref)) [
  | inr other ↦ other
  | inl same ↦
      let it : well_known_guid r ≡ some g = ap well_known_guid (eq_of_same_ref r ref same) ∙ w in cc
]

-- Writing the reply leaves what another ref was given.
pub write_resolved-others :
    (resolved : List (String × String)) (ref : SchemaRef) (g : String) (rs : List SchemaRef)
    (out : Table)
    → well_known_guid ref ≡ some g
    → lookup_ref ref out ≡ some g
    → lookup_ref ref (write_resolved resolved (misses rs) out) ≡ some g
unfolding write_resolved misses lookup_ref
write_resolved-others resolved ref g [] out w h = h
write_resolved-others resolved ref g (r ∷ rs) out w h = elim (Option-cases (well_known_guid r)) [
  | inr (g', it) ↦
      let ih = write_resolved-others resolved ref g rs out w h in ground (arith, it, ih)
  | inl missing ↦
      let out' : Table = (r, resolved_guid r.name resolved) ∷ out in
      let ih =
        write_resolved-others resolved ref g rs out' w
          (lookup_ref-other ref r _ out (differs ref r g w missing) ∙ h) in
      ground (arith, missing, ih)
]

pub write_resolved-lookup :
    (resolved : List (String × String)) (ref : SchemaRef) (rs : List SchemaRef) (out : Table)
    → well_known_guid ref ≡ none
    → (has_ref ref rs ≡ true) ⊎ (lookup_ref ref out ≡ some (resolved_guid ref.name resolved))
    → lookup_ref ref (write_resolved resolved (misses rs) out)
      ≡ some (resolved_guid ref.name resolved)
unfolding write_resolved misses has_ref lookup_ref
write_resolved-lookup resolved ref [] out w (inl h) = cc
write_resolved-lookup resolved ref [] out w (inr h) = h
write_resolved-lookup resolved ref (r ∷ rs) out w h = elim (Bool-cases (same_ref r ref)) [
  | inl same ↦
      let it : well_known_guid r ≡ none = ap well_known_guid (eq_of_same_ref r ref same) ∙ w in
      let out' : Table = (r, resolved_guid r.name resolved) ∷ out in
      let ih = write_resolved-lookup resolved ref rs out' w (
        inr (
          rw (same, lookup_ref)
            (ap (λ x. some (resolved_guid x.name resolved)) (eq_of_same_ref r ref same)))) in
      ground (arith, it, ih)
  | inr other ↦ elim (Option-cases (well_known_guid r)) [
    | inl missing ↦
        let out' : Table = (r, resolved_guid r.name resolved) ∷ out in
        let ih = write_resolved-lookup resolved ref rs out' w (
          pass_on ref r rs (lookup_ref ref out) (lookup_ref ref out') _ other
            (lookup_ref-other ref r _ out other) h) in
        ground (arith, missing, ih)
    | inr (g, it) ↦
        let ih =
          write_resolved-lookup resolved ref rs out w
            (pass_on ref r rs (lookup_ref ref out) (lookup_ref ref out) _ other refl h) in
        ground (arith, it, ih)
  ]
]

same_ref-sym : (a b : SchemaRef) → same_ref a b ≡ same_ref b a
same_ref-sym a b = elim (Bool-cases (same_ref a b)) [
  | inl same ↦ let e = eq_of_same_ref a b same in ap (same_ref a) (sym e) ∙ ap (λ x. same_ref x a) e
  | inr other ↦ elim (Bool-cases (same_ref b a)) [
    | inr converse ↦ other ∙ sym converse
    | inl same ↦
        let e = eq_of_same_ref b a same in ap (same_ref a) e ∙ ap (λ x. same_ref x a) (sym e)
  ]
]

-- A ref that the table does not know is asked for.
pub misses-ne-nil :
    (ref : SchemaRef) (rs : List SchemaRef)
    → well_known_guid ref ≡ none
    → has_ref ref rs ≡ true
    → misses rs ≢ []
unfolding misses has_ref
misses-ne-nil ref [] w h = cc
misses-ne-nil ref (r ∷ rs) w h = elim (Option-cases (well_known_guid r)) [
  | inl missing ↦ ground (arith, missing)
  | inr (g, it) ↦
      ground (arith, it, h, misses-ne-nil ref rs w, differs r ref g it w, same_ref-sym ref r)
]
