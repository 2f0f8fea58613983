-- ===== src/Fake/Filter/Answers.antt =====
-- transport/fake/filter.go: matchFilter answers what a query asks for.
use mathlib.Core.List.{reverse, reverse-append, reverse-reverse}
use go_adpwsh.Prelude.{
  ℕ, zero, suc, ◌+◌, ◌-◌, ◌≤◌, ◌≡◌, refl, sym, ap, ◌∙◌, Bool, true, false, ◌&&◌, ◌||◌, none, some,
  List, [], ◌∷◌, ◌++◌, length, take, drop, take-append, length-append, if◌then◌else◌, arith,
}
use go_adpwsh.Prelude.Text.{Bytes, codes, trim_space, trim_left, is_space, has_prefix, has_suffix}
use go_adpwsh.Fake.Objects.{DirectoryObject}
use go_adpwsh.Fake.Filter.{
  malformed, Verdict, verdict, fault, Operator, every, any, match_item, unbalanced, split_filters,
  junction, negation, item, shape_of, after_part, match_parts, negate, match_filter,
}
use go_adpwsh.Fake.Filter.Queries.{
  Query, all_of, not_of, one_of, Queries, done, more, operator_byte, inner, parens, print,
  print_all, prints, holds, holds_all, holds_any, IsAnswered, AreAnswered,
}
use go_adpwsh.Fake.Filter.Splitting.{split_filters-print}

-- A text in parentheses has no space around it, and is taken apart to what is inside.
trim_space-parens : (s : Bytes) → trim_space (parens s) ≡ parens s
unfolding trim_space trim_left is_space
trim_space-parens s =
    let back : reverse (parens s) ≡ b')' ∷ reverse (b'(' ∷ s) =
      reverse-append (b'(' ∷ s) (b')' ∷ []) in
    ap (λ x. reverse (trim_left x)) back ∙ ap reverse (sym back) ∙ reverse-reverse (parens s)

has_suffix-parens : (s : Bytes) → has_suffix (parens s) (codes ")") ≡ true
unfolding has_suffix has_prefix
has_suffix-parens s = ap (λ x. has_prefix x (codes ")")) (reverse-append (b'(' ∷ s) (b')' ∷ []))

length-parens : (s : Bytes) → length (parens s) ≡ length s + 2
length-parens s = omega (arith, length-append s (b')' ∷ []))

take-parens : (s : Bytes) → take (length (parens s) - 2) (drop 1 (parens s)) ≡ s
take-parens s =
    let n : length (parens s) - 2 ≡ length s = omega (arith, length-parens s) in
    ap (λ k. take k (s ++ b')' ∷ [])) n ∙ take-append s (b')' ∷ [])

-- What matchFilter does with what is inside the parentheses.
abbrev opened : ℕ → DirectoryObject → Bytes → Verdict
opened n o s = elim (shape_of s) [
  | junction op t ↦ elim (split_filters t) [
    | none ↦ fault (unbalanced t)
    | some parts ↦ match_parts op (λ p. match_filter n o p) parts
  ]
  | negation t ↦ negate (match_filter n o t)
  | item t ↦ match_item o t
]

match_filter-parens :
    (n : ℕ) (o : DirectoryObject) (s : Bytes) → match_filter (suc n) o (parens s) ≡ opened n o s
unfolding match_filter has_prefix
match_filter-parens n o s =
    ap
      (λ f.
        if has_prefix f (codes "(") && has_suffix f (codes ")")
        then opened n o (take (length f - 2) (drop 1 f))
        else fault (malformed (parens s)))
      (trim_space-parens s)
    ∙ ap
        (λ b.
          if b
          then opened n o (take (length (parens s) - 2) (drop 1 (parens s)))
          else fault (malformed (parens s)))
        (has_suffix-parens s)
    ∙ ap (opened n o) (take-parens s)

match_filter-junction :
    (n : ℕ) (o : DirectoryObject) (op : Operator) (s : Bytes) (ps : List Bytes)
    → split_filters s ≡ some ps
    → match_filter (suc n) o (parens (operator_byte op ∷ s))
      ≡ match_parts op (λ p. match_filter n o p) ps
unfolding shape_of
match_filter-junction n o every s ps e =
    match_filter-parens n o (b'&' ∷ s)
    ∙ ap
        (λ r. elim r [
          | none ↦ fault (unbalanced s)
          | some parts ↦ match_parts every (λ p. match_filter n o p) parts
        ])
        e
match_filter-junction n o any s ps e =
    match_filter-parens n o (b'|' ∷ s)
    ∙ ap
        (λ r. elim r [
          | none ↦ fault (unbalanced s)
          | some parts ↦ match_parts any (λ p. match_filter n o p) parts
        ])
        e

match_filter-negation :
    (n : ℕ) (o : DirectoryObject) (s : Bytes)
    → match_filter (suc n) o (parens (b'!' ∷ s)) ≡ negate (match_filter n o s)
unfolding shape_of
match_filter-negation n o s = match_filter-parens n o (b'!' ∷ s)

match_filter-item :
    (n : ℕ) (o : DirectoryObject) (s : Bytes)
    → shape_of s ≡ item s
    → match_filter (suc n) o (parens s) ≡ match_item o s
match_filter-item n o s h =
    match_filter-parens n o s
    ∙ ap
        (λ x. elim x [
          | junction op t ↦ elim (split_filters t) [
            | none ↦ fault (unbalanced t)
            | some parts ↦ match_parts op (λ p. match_filter n o p) parts
          ]
          | negation t ↦ negate (match_filter n o t)
          | item t ↦ match_item o t
        ])
        h

module _ (test : Bytes → Verdict) (p : Bytes) (ps : List Bytes) where
  match_parts-every :
      (a b : Bool)
      → test p ≡ verdict a
      → match_parts every test ps ≡ verdict b
      → match_parts every test (p ∷ ps) ≡ verdict (a && b)
  unfolding match_parts after_part
  match_parts-every true b h e = rw (match_parts, h) e
  match_parts-every false b h e = rw (match_parts, h) refl

  match_parts-either :
      (a b : Bool)
      → test p ≡ verdict a
      → match_parts any test ps ≡ verdict b
      → match_parts any test (p ∷ ps) ≡ verdict (a || b)
  unfolding match_parts after_part
  match_parts-either true b h e = rw (match_parts, h) refl
  match_parts-either false b h e = rw (match_parts, h) e

module _ (o : DirectoryObject) (test : Bytes → Bool) where
  mutual
    unfolding inner holds IsAnswered match_parts negate

    match_filter-query :
        (q : Query) (n : ℕ)
        → IsAnswered o test q
        → length (print q) ≤ n
        → match_filter n o (print q) ≡ verdict (holds test q)
    match_filter-query q zero h fits = absurd (omega (arith, fits, length-parens (inner q)))
    match_filter-query (all_of every q qs) (suc n) h fits =
        match_filter-junction n o every (print q ++ print_all qs) (print q ∷ prints qs)
          (split_filters-print o test q qs h.0 h.1)
        ∙ match_parts-every (λ p. match_filter n o p) (print q) (prints qs) (holds test q)
            (holds_all test qs)
            (match_filter-query q n h.0 (
              omega (
                arith,
                fits,
                length-append (print q) (print_all qs),
                length-parens (inner (all_of every q qs)),
              )))
            (match_parts-all qs n h.1 (
              omega (
                arith,
                fits,
                length-append (print q) (print_all qs),
                length-parens (inner (all_of every q qs)),
              )))
    match_filter-query (all_of any q qs) (suc n) h fits =
        match_filter-junction n o any (print q ++ print_all qs) (print q ∷ prints qs)
          (split_filters-print o test q qs h.0 h.1)
        ∙ match_parts-either (λ p. match_filter n o p) (print q) (prints qs) (holds test q)
            (holds_any test qs)
            (match_filter-query q n h.0 (
              omega (
                arith,
                fits,
                length-append (print q) (print_all qs),
                length-parens (inner (all_of any q qs)),
              )))
            (match_parts-any qs n h.1 (
              omega (
                arith,
                fits,
                length-append (print q) (print_all qs),
                length-parens (inner (all_of any q qs)),
              )))
    match_filter-query (not_of q) (suc n) h fits =
        match_filter-negation n o (print q)
        ∙ ap negate
            (match_filter-query q n h (omega (arith, fits, length-parens (inner (not_of q)))))
    match_filter-query (one_of s) (suc n) h fits = match_filter-item n o s h.0 ∙ h.2

    match_parts-all :
        (qs : Queries) (n : ℕ)
        → AreAnswered o test qs
        → length (print_all qs) ≤ n
        → match_parts every (λ p. match_filter n o p) (prints qs) ≡ verdict (holds_all test qs)
    match_parts-all done n h fits = refl
    match_parts-all (more q qs) n h fits =
        match_parts-every (λ p. match_filter n o p) (print q) (prints qs) (holds test q)
          (holds_all test qs)
          (match_filter-query q n h.0 (omega (arith, fits, length-append (print q) (print_all qs))))
          (match_parts-all qs n h.1 (omega (arith, fits, length-append (print q) (print_all qs))))

    match_parts-any :
        (qs : Queries) (n : ℕ)
        → AreAnswered o test qs
        → length (print_all qs) ≤ n
        → match_parts any (λ p. match_filter n o p) (prints qs) ≡ verdict (holds_any test qs)
    match_parts-any done n h fits = refl
    match_parts-any (more q qs) n h fits =
        match_parts-either (λ p. match_filter n o p) (print q) (prints qs) (holds test q)
          (holds_any test qs)
          (match_filter-query q n h.0 (omega (arith, fits, length-append (print q) (print_all qs))))
          (match_parts-any qs n h.1 (omega (arith, fits, length-append (print q) (print_all qs))))

  -- For every query whose items matchItem answers, matchFilter applied to the text of the query
  -- answers whether the object has what the query asks for, by the truth tables of its operators.
  -- The length of the text is fuel enough.
  pub match_filter-print :
      (q : Query) (n : ℕ)
      → IsAnswered o test q
      → length (print q) ≤ n
      → match_filter n o (print q) ≡ verdict (holds test q)
  match_filter-print = match_filter-query
