-- ===== src/Fake/Filter/Splitting.antt =====
-- transport/fake/filter.go: splitFilters divides the texts of queries that follow each other.
use go_adpwsh.Prelude.{
  ℕ, suc, ◌≡◌, refl, sym, ap, ◌∙◌, ◌==◌, Bool, false, some, List, [], ◌∷◌, ◌++◌, if◌then◌else◌,
  arith, append_assoc, append-nil, All,
}
use go_adpwsh.Prelude.Text.{Bytes}
use go_adpwsh.Fake.Objects.{DirectoryObject}
use go_adpwsh.Fake.Filter.{every, any, go_on, turn, split_loop, split_filters}
use go_adpwsh.Fake.Filter.Queries.{
  Query, all_of, not_of, one_of, Queries, done, more, inner, print, print_all, prints, IsPlain,
  IsAnswered, AreAnswered,
}

-- A text that the loop passes inside parentheses, whatever follows it.
abbrev IsInert : Bytes → Type 0
IsInert t =
    (depth : ℕ) (since rest : Bytes)
    → split_loop (suc depth) since (t ++ rest) ≡ split_loop (suc depth) (since ++ t) rest

turn-plain :
    (c : ℕ) → IsPlain c → (d : ℕ) (since : Bytes) → turn d since c ≡ go_on d (since ++ c ∷ [])
unfolding turn
turn-plain c h d since = ground (arith, h)

IsInert-nil : IsInert []
IsInert-nil depth since rest = ap (λ x. split_loop (suc depth) x rest) (sym (append-nil since))

IsInert-byte : (c : ℕ) → IsPlain c → IsInert (c ∷ [])
unfolding split_loop
IsInert-byte c h depth since rest = rw (split_loop, turn-plain c h (suc depth) since) refl

IsInert-append : (s t : Bytes) → IsInert s → IsInert t → IsInert (s ++ t)
IsInert-append s t hs ht depth since rest =
    ap (split_loop (suc depth) since) (append_assoc s t rest)
    ∙ hs depth since (t ++ rest)
    ∙ ht depth (since ++ s) rest
    ∙ ap (λ x. split_loop (suc depth) x rest) (append_assoc since s t)

IsInert-plain : (s : Bytes) → All IsPlain s → IsInert s
IsInert-plain [] h = IsInert-nil
IsInert-plain (c ∷ s) h = IsInert-append (c ∷ []) s (IsInert-byte c h.0) (IsInert-plain s h.1)

-- Both parentheses are passed together.
split_loop-open :
    (d : ℕ) (since rest : Bytes)
    → split_loop (suc d) since (b'(' ∷ rest) ≡ split_loop (suc (suc d)) (since ++ b'(' ∷ []) rest
unfolding split_loop turn
split_loop-open d since rest =
    let deep : (suc d == 0) ≡ false = ground arith in
    ap (λ b. split_loop (suc (suc d)) (if b then b'(' ∷ [] else since ++ b'(' ∷ []) rest) deep

IsInert-parens : (t : Bytes) → IsInert t → IsInert (b'(' ∷ t ++ b')' ∷ [])
unfolding split_loop turn
IsInert-parens t h depth since rest =
    split_loop-open depth since ((t ++ b')' ∷ []) ++ rest)
    ∙ ap (split_loop (suc (suc depth)) (since ++ b'(' ∷ [])) (append_assoc t (b')' ∷ []) rest)
    ∙ h (suc depth) (since ++ b'(' ∷ []) (b')' ∷ rest)
    ∙ ap (λ x. split_loop (suc depth) x rest)
        (append_assoc (since ++ b'(' ∷ []) t (b')' ∷ [])
          ∙ append_assoc since (b'(' ∷ []) (t ++ b')' ∷ []))

module _ (o : DirectoryObject) (test : Bytes → Bool) where
  mutual
    unfolding inner IsAnswered

    inner-IsInert : (q : Query) → IsAnswered o test q → IsInert (inner q)
    inner-IsInert (all_of every q qs) h =
        IsInert-append (b'&' ∷ []) (print q ++ print_all qs) (IsInert-byte b'&' (ground arith)) (
          IsInert-append (print q) (print_all qs) (IsInert-parens (inner q) (inner-IsInert q h.0))
            (print_all-IsInert qs h.1))
    inner-IsInert (all_of any q qs) h =
        IsInert-append (b'|' ∷ []) (print q ++ print_all qs) (IsInert-byte b'|' (ground arith)) (
          IsInert-append (print q) (print_all qs) (IsInert-parens (inner q) (inner-IsInert q h.0))
            (print_all-IsInert qs h.1))
    inner-IsInert (not_of q) h =
        IsInert-append (b'!' ∷ []) (print q) (IsInert-byte b'!' (ground arith))
          (IsInert-parens (inner q) (inner-IsInert q h))
    inner-IsInert (one_of s) h = IsInert-plain s h.1

    print_all-IsInert : (qs : Queries) → AreAnswered o test qs → IsInert (print_all qs)
    print_all-IsInert done h = IsInert-nil
    print_all-IsInert (more q qs) h =
        IsInert-append (print q) (print_all qs) (IsInert-parens (inner q) (inner-IsInert q h.0))
          (print_all-IsInert qs h.1)

  -- The text of a query at the front is one part.
  split_loop-print :
      (q : Query) (ps : List Bytes) (since rest : Bytes)
      → IsAnswered o test q
      → split_loop 0 (print q) rest ≡ some ps
      → split_loop 0 since (print q ++ rest) ≡ some (print q ∷ ps)
  unfolding split_loop turn inner
  split_loop-print q ps since rest h e =
      ap (split_loop 1 (b'(' ∷ [])) (append_assoc (inner q) (b')' ∷ []) rest)
      ∙ inner-IsInert q h 0 (b'(' ∷ []) (b')' ∷ rest)
      ∙ rw e refl

  split_loop-print_all :
      (qs : Queries) (since : Bytes)
      → AreAnswered o test qs
      → split_loop 0 since (print_all qs) ≡ some (prints qs)
  unfolding split_loop inner IsAnswered
  split_loop-print_all done since h = refl
  split_loop-print_all (more q qs) since h =
      split_loop-print q (prints qs) since (print_all qs) h.0
        (split_loop-print_all qs (print q) h.1)

  pub split_filters-print :
      (q : Query) (qs : Queries)
      → IsAnswered o test q
      → AreAnswered o test qs
      → split_filters (print q ++ print_all qs) ≡ some (print q ∷ prints qs)
  unfolding split_filters
  split_filters-print q qs h hs =
      rw
        (
          split_loop-print q (prints qs) [] (print_all qs) h (split_loop-print_all qs (print q) hs),
          split_filters,
        )
        refl
