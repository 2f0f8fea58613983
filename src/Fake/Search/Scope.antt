-- ===== src/Fake/Search/Scope.antt =====
-- transport/fake/directory.go: what inScope and parentOf decide, by relations of their own.
use go_adpwsh.Prelude.{
  ℕ, ◌≡◌, ◌≢◌, ◌↔◌, ◌⊎◌, inl, inr, refl, sym, ap, ◌∙◌, subst, ◌==◌, Bool, true, false, ◌&&◌, ◌||◌,
  not, [], ◌∷◌, ◌++◌, arith, Bool-cases, if◌then◌else◌,
}
use go_adpwsh.Prelude.Text.{
  Bytes, codes, bytes_eq, bytes_eq_refl, eq_of_bytes_eq, equal_fold, to_lower, has_suffix,
}
use go_adpwsh.Fake.Wildcard.Globs.{has_suffix-append, has_suffix-split}
use go_adpwsh.Fake.Search.{parent_from, parent_of, in_scope}

-- What follows the first comma of a distinguished name without a backslash in front of it; the number
-- is the byte before the name.
pub data HasParent : ℕ → Bytes → Bytes → Type 0 where
  no_comma : {b : ℕ} → HasParent b [] []
  at_comma : {b : ℕ} {parent : Bytes} → b ≢ b'\\' → HasParent b (b',' ∷ parent) parent
  past :
      {b c : ℕ} {dn parent : Bytes}
      → (c ≢ b',') ⊎ (b ≡ b'\\')
      → HasParent c dn parent
      → HasParent b (c ∷ dn) parent

HasParent-parent_from :
    (b : ℕ) (dn parent : Bytes) → HasParent b dn parent → parent_from b dn ≡ parent
unfolding parent_from
HasParent-parent_from b [] parent no_comma = refl
HasParent-parent_from b (c ∷ dn) parent (at_comma plain) = ground (arith, plain)
HasParent-parent_from b (c ∷ dn) parent (past (inl other) h) =
    let ih = HasParent-parent_from c dn parent h in ground (arith, other, ih)
HasParent-parent_from b (c ∷ dn) parent (past (inr escaped) h) =
    let ih = HasParent-parent_from c dn parent h in ground (arith, escaped, ih)

escaped_or_other : (b c : ℕ) → (c == b',' && not (b == b'\\')) ≡ false → (c ≢ b',') ⊎ (b ≡ b'\\')
escaped_or_other b c h = elim (Bool-cases (c == b',')) [
  | inl comma ↦ inr (ground (arith, h, comma))
  | inr other ↦ inl (ground (arith, other))
]

HasParent-step :
    (b c : ℕ) (dn : Bytes) (t : Bool)
    → (c == b',' && not (b == b'\\')) ≡ t
    → HasParent c dn (parent_from c dn)
    → HasParent b (c ∷ dn) (if t then dn else parent_from c dn)
HasParent-step b c dn true h rest =
    let comma : b',' ≡ c = ground (arith, h) in
    let plain : b ≢ b'\\' = ground (arith, h) in
    subst (λ x. HasParent b (x ∷ dn) dn) comma (at_comma plain)
HasParent-step b c dn false h rest = past (escaped_or_other b c h) rest

parent_from-HasParent : (b : ℕ) (dn : Bytes) → HasParent b dn (parent_from b dn)
unfolding parent_from
parent_from-HasParent b [] = no_comma
parent_from-HasParent b (c ∷ dn) =
    HasParent-step b c dn (c == b',' && not (b == b'\\')) refl (parent_from-HasParent c dn)

-- Where a search with a base looks, by the value of its scope.
abbrev pub LiesIn : Bytes → Bytes → Bytes → Type 0
LiesIn scope base dn =
    ((scope ≡ codes "Base") × (to_lower dn ≡ to_lower base))
    ⊎ (((scope ≡ codes "OneLevel")
          × ((parent : Bytes) × HasParent 0 dn parent × (to_lower parent ≡ to_lower base)))
        ⊎ ((scope ≢ codes "Base")
            × (scope ≢ codes "OneLevel")
            × ((to_lower dn ≡ to_lower base)
                ⊎ ((above : Bytes) × (to_lower dn ≡ above ++ to_lower (b',' ∷ base))))))

bytes_eq_iff : (s t : Bytes) → (bytes_eq s t ≡ true) ↔ (s ≡ t)
bytes_eq_iff s t = (eq_of_bytes_eq s t, λ e. subst (λ x. bytes_eq s x ≡ true) e (bytes_eq_refl s))

equal_fold_iff : (s t : Bytes) → (equal_fold s t ≡ true) ↔ (to_lower s ≡ to_lower t)
unfolding equal_fold
equal_fold_iff s t = bytes_eq_iff (to_lower s) (to_lower t)

ne_of_bytes_eq : (s t : Bytes) → bytes_eq s t ≡ false → s ≢ t
ne_of_bytes_eq s t h e = let same = (bytes_eq_iff s t).1 e in cc

pub in_scope-LiesIn : (dn base scope : Bytes) → in_scope dn base scope ≡ true → LiesIn scope base dn
unfolding in_scope parent_of
in_scope-LiesIn dn base scope h = elim (Bool-cases (bytes_eq scope (codes "Base"))) [
  | inl at ↦ inl (eq_of_bytes_eq scope _ at, (equal_fold_iff dn base).0 (ground (arith, h, at)))
  | inr no_base ↦ elim (Bool-cases (bytes_eq scope (codes "OneLevel"))) [
    | inl one ↦ inr (
        inl (
          eq_of_bytes_eq scope _ one,
          (
            parent_of dn,
            parent_from-HasParent 0 dn,
            (equal_fold_iff (parent_of dn) base).0 (ground (arith, h, no_base, one)),
          ),
        ))
    | inr no_one ↦ inr (
        inr (
          ne_of_bytes_eq scope _ no_base,
          ne_of_bytes_eq scope _ no_one,
          elim (Bool-cases (equal_fold dn base)) [
            | inl same ↦ inl ((equal_fold_iff dn base).0 same)
            | inr other ↦ inr (
                has_suffix-split (to_lower dn) (to_lower (b',' ∷ base))
                  (ground (arith, h, no_base, no_one, other)))
          ],
        ))
  ]
]

in_scope-base :
    (dn base scope : Bytes) → scope ≡ codes "Base" → in_scope dn base scope ≡ equal_fold dn base
unfolding in_scope
in_scope-base dn base scope e = rw (e, in_scope) refl

in_scope-one :
    (dn base scope : Bytes)
    → scope ≡ codes "OneLevel"
    → in_scope dn base scope ≡ equal_fold (parent_of dn) base
unfolding in_scope
in_scope-one dn base scope e = rw (e, in_scope) refl

bytes_eq-ne : (s t : Bytes) → s ≢ t → bytes_eq s t ≡ false
bytes_eq-ne s t h = elim (Bool-cases (bytes_eq s t)) [
  | inl same ↦ absurd (h (eq_of_bytes_eq s t same))
  | inr other ↦ other
]

in_scope-sub :
    (dn base scope : Bytes)
    → bytes_eq scope (codes "Base") ≡ false
    → bytes_eq scope (codes "OneLevel") ≡ false
    → in_scope dn base scope
      ≡ (equal_fold dn base || has_suffix (to_lower dn) (to_lower (b',' ∷ base)))
unfolding in_scope
in_scope-sub dn base scope no_base no_one = rw (no_base, no_one, in_scope) refl

below_iff :
    (dn base : Bytes)
    → (to_lower dn ≡ to_lower base)
      ⊎ ((above : Bytes) × (to_lower dn ≡ above ++ to_lower (b',' ∷ base)))
    → (equal_fold dn base || has_suffix (to_lower dn) (to_lower (b',' ∷ base))) ≡ true
below_iff dn base (inl same) = rw ((equal_fold_iff dn base).1 same) refl
below_iff dn base (inr (above, e)) =
    let ends =
      subst (λ x. has_suffix x (to_lower (b',' ∷ base)) ≡ true) (sym e)
        (has_suffix-append above (to_lower (b',' ∷ base))) in
    elim (Bool-cases (equal_fold dn base)) [ inl same ↦ rw same refl | inr other ↦ rw other ends ]

pub LiesIn-in_scope : (dn base scope : Bytes) → LiesIn scope base dn → in_scope dn base scope ≡ true
unfolding in_scope parent_of
LiesIn-in_scope dn base scope (inl (at, same)) =
    in_scope-base dn base scope at ∙ (equal_fold_iff dn base).1 same
LiesIn-in_scope dn base scope (inr (inl (one, (parent, has, same)))) =
    in_scope-one dn base scope one
    ∙ ap (λ x. equal_fold x base) (HasParent-parent_from 0 dn parent has)
    ∙ (equal_fold_iff parent base).1 same
LiesIn-in_scope dn base scope (inr (inr (no_base, no_one, below))) =
    in_scope-sub dn base scope (bytes_eq-ne scope _ no_base) (bytes_eq-ne scope _ no_one)
    ∙ below_iff dn base below
