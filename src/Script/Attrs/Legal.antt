-- ===== src/Script/Attrs/Legal.antt =====
-- Which attribute operations Apply accepts.
use go_adpwsh.Prelude.{
  String, ◌+◌, ◌≤◌, ◌≡◌, refl, sym, ap, ◌∙◌, ◌++◌, ◌==◌, if◌then◌else◌, length-append, subst, ◌↔◌,
  leb_of_le, ◌⊎◌, inl, inr, true, none, some, List, [], ◌∷◌, map, arith, ltb, length, All,
  Bool-cases, Option-cases,
}
use go_adpwsh.Prelude.Text.{Bytes, codes, to_lower, bytes_eq, eq_of_bytes_eq}
use go_adpwsh.Prelude.Sort.{length-sort, of_sort-All, sort_strings}
use go_adpwsh.Core.Mask.{Entries}
use go_adpwsh.Script.Attrs.Counts.{
  times_added, times_removed, times_replaced, times_cleared, copies, ops_of-notes, notes-IsKeyed,
  tally, tally-append, tally-copies, length-copies,
}
use go_adpwsh.Script.Attrs.Order.{sort_ops-copies}
use go_adpwsh.Script.Attrs.{
  fold, AttrOp, rank, op_add, op_clear, op_remove, op_replace, AttrOps, Note, notes, ops_of,
  sort_ops, is_legal, is_set_diff, ConflictError, find_conflict, written, refused, apply,
  write_splat,
}

-- What one attribute may be named in: at most one operation, or one addition and one removal.
abbrev pub IsLegal : List AttrOp → Type 0
IsLegal seen =
    (length seen ≤ 1) ⊎ ((seen ≡ op_add ∷ op_remove ∷ []) ⊎ (seen ≡ op_remove ∷ op_add ∷ []))

pair-IsLegal : (a b : AttrOp) → is_legal (a ∷ b ∷ []) ≡ true → IsLegal (a ∷ b ∷ [])
unfolding is_legal
pair-IsLegal op_add op_remove h = inr (inl refl)
pair-IsLegal op_remove op_add h = inr (inr refl)
pair-IsLegal op_add op_add h = cc
pair-IsLegal op_add op_clear h = cc
pair-IsLegal op_add op_replace h = cc
pair-IsLegal op_clear op_add h = cc
pair-IsLegal op_clear op_clear h = cc
pair-IsLegal op_clear op_remove h = cc
pair-IsLegal op_clear op_replace h = cc
pair-IsLegal op_remove op_clear h = cc
pair-IsLegal op_remove op_remove h = cc
pair-IsLegal op_remove op_replace h = cc
pair-IsLegal op_replace op_add h = cc
pair-IsLegal op_replace op_clear h = cc
pair-IsLegal op_replace op_remove h = cc
pair-IsLegal op_replace op_replace h = cc

length-is_set_diff : (xs : List AttrOp) → is_set_diff xs ≡ true → length xs ≡ 2
unfolding is_set_diff
length-is_set_diff (op_add ∷ op_remove ∷ []) h = refl
length-is_set_diff xs h = absurd (ground arith)

length-sort_ops : (xs : List AttrOp) → length (sort_ops xs) ≡ length xs
unfolding sort_ops
length-sort_ops xs = length-sort (λ a b. ltb (rank a) (rank b)) xs

too_many : (a b c : AttrOp) (xs : List AttrOp) → is_legal (a ∷ b ∷ c ∷ xs) ≡ true → ⊥
unfolding is_legal
too_many a b c xs h =
    let sorted = length-sort_ops (a ∷ b ∷ c ∷ xs) in
    let two = length-is_set_diff (sort_ops (a ∷ b ∷ c ∷ xs)) (ground arith) in
    omega (arith, sorted, two)

of_is_legal : (xs : List AttrOp) → is_legal xs ≡ true → IsLegal xs
of_is_legal [] h = inl (omega arith)
of_is_legal (a ∷ []) h = inl (omega arith)
of_is_legal (a ∷ b ∷ []) h = pair-IsLegal a b h
of_is_legal (a ∷ b ∷ c ∷ xs) h = absurd (too_many a b c xs h)

to_is_legal : (xs : List AttrOp) → IsLegal xs → is_legal xs ≡ true
unfolding is_legal
to_is_legal xs (inl h) = rw (leb_of_le (length xs) 1 h)
to_is_legal xs (inr (inl e)) = rw e
to_is_legal xs (inr (inr e)) = rw e

All-names :
    (P : Bytes → Type 0) (k : Bytes) (ns : List Note)
    → All P (map (λ n. n.0) ns)
    → (ops_of k ns ≡ []) ⊎ P k
unfolding ops_of
All-names P k [] h = inl refl
All-names P k ((n, op) ∷ ns) h = elim (Bool-cases (bytes_eq n k)) [
  | inl e ↦ inr (subst P (eq_of_bytes_eq n k e) h.0)
  | inr e ↦ rw e (All-names P k ns h.1)
]

none-find_conflict :
    (seen : List Note) (names : List Bytes)
    → find_conflict seen names ≡ none
    → All (λ n. is_legal (ops_of n seen) ≡ true) names
unfolding find_conflict
none-find_conflict seen [] h = tt
none-find_conflict seen (n ∷ names) h = elim (Bool-cases (is_legal (ops_of n seen))) [
  | inl e ↦ (e, none-find_conflict seen names (rw e at h))
  | inr e ↦ absurd (ground arith)
]

find_conflict-none :
    (seen : List Note) (names : List Bytes)
    → ((k : Bytes) → IsLegal (ops_of k seen))
    → find_conflict seen names ≡ none
unfolding find_conflict
find_conflict-none seen [] h = refl
find_conflict-none seen (n ∷ names) h = rw (to_is_legal _ (h n)) (find_conflict-none seen names h)

find_conflict-some :
    (seen : List Note) (names : List Bytes) (c : ConflictError)
    → find_conflict seen names ≡ some c
    → (¬ IsLegal (ops_of c.attribute seen)) × (c.ops ≡ sort_ops (ops_of c.attribute seen))
unfolding find_conflict
find_conflict-some seen [] c h = cc
find_conflict-some seen (n ∷ names) c h = elim (Bool-cases (is_legal (ops_of n seen))) [
  | inl e ↦ find_conflict-some seen names c (rw e at h)
  | inr e ↦
      let h' : some (record { attribute = n; ops = sort_ops (ops_of n seen) }) ≡ some c =
        rw e at h in
      let same : n ≡ c.attribute = cc in
      (subst (λ k. ¬ IsLegal (ops_of k seen)) same (λ l. cc (to_is_legal _ l)), ground arith)
]

apply-IsLegal :
    (o : AttrOps) (splat : Entries)
    → (apply o splat ≡ written (write_splat o splat)) ↔ ((k : Bytes) → IsLegal (ops_of k (notes o)))
unfolding apply sort_strings
apply-IsLegal o splat = (forth, λ legal. rw (find_conflict-none (notes o) _ legal, apply))
  where
    forth :
        apply o splat ≡ written (write_splat o splat) → (k : Bytes) → IsLegal (ops_of k (notes o))
    forth h k =
        elim (Option-cases (find_conflict (notes o) (sort_strings (map (λ n. n.0) (notes o))))) [
          | inl clean ↦
              elim (All-names _ k (notes o)
                (of_sort-All _ _ _ (none-find_conflict (notes o) _ clean))) [
                  | inl absent ↦ rw absent (inl (omega arith))
                  | inr legal ↦ of_is_legal _ legal
                ]
          | inr (c, bad) ↦ let h' = rw (bad, apply) at h in cc
        ]

apply-IsRefused :
    (o : AttrOps) (splat : Entries) (c : ConflictError)
    → apply o splat ≡ refused c
    → (¬ IsLegal (ops_of c.attribute (notes o))) × (c.ops ≡ sort_ops (ops_of c.attribute (notes o)))
unfolding apply
apply-IsRefused o splat c h =
    elim (Option-cases (find_conflict (notes o) (sort_strings (map (λ n. n.0) (notes o))))) [
      | inl clean ↦ let h' = rw (clean, apply) at h in absurd (cc)
      | inr (d, bad) ↦
          let h' : refused d ≡ refused c = rw (bad, apply) at h in
          let same : d ≡ c = cc in
          find_conflict-some (notes o) _ c (
            subst (λ x. find_conflict (notes o) (sort_strings (map (λ n. n.0) (notes o))) ≡ some x)
              same bad)
    ]

module _ (o : AttrOps) (k : String) where
  -- The operations name an attribute once at most, or it is named in one addition and in one removal.
  abbrev pub Once : Type 0
  Once =
      (times_added o k + times_removed o k + times_replaced o k + times_cleared o k ≤ 1)
      ⊎ ((times_added o k ≡ 1)
          × (times_removed o k ≡ 1)
          × (times_replaced o k ≡ 0)
          × (times_cleared o k ≡ 0))

  abbrev said : List AttrOp
  said =
      copies (times_added o k) op_add
      ++ (copies (times_removed o k) op_remove
          ++ (copies (times_replaced o k) op_replace ++ copies (times_cleared o k) op_clear))

  length-said :
      length said ≡ times_added o k + times_removed o k + times_replaced o k + times_cleared o k
  length-said = omega (
    arith,
    length-append (copies (times_added o k) op_add) (
        copies (times_removed o k) op_remove
        ++ (copies (times_replaced o k) op_replace ++ copies (times_cleared o k) op_clear)),
    length-append (copies (times_removed o k) op_remove)
        (copies (times_replaced o k) op_replace ++ copies (times_cleared o k) op_clear),
    length-append (copies (times_replaced o k) op_replace) (copies (times_cleared o k) op_clear),
    length-copies (times_added o k) op_add,
    length-copies (times_removed o k) op_remove,
    length-copies (times_replaced o k) op_replace,
    length-copies (times_cleared o k) op_clear,
  )

  tally-said :
      (op : AttrOp)
      → tally op said
        ≡ (if rank op_add == rank op then times_added o k else 0)
          + ((if rank op_remove == rank op then times_removed o k else 0)
              + ((if rank op_replace == rank op then times_replaced o k else 0)
                  + (if rank op_clear == rank op then times_cleared o k else 0)))
  tally-said op =
      rw
        (
          tally-append op (copies (times_added o k) op_add) _,
          tally-append op (copies (times_removed o k) op_remove) _,
          tally-append op (copies (times_replaced o k) op_replace)
              (copies (times_cleared o k) op_clear),
          tally-copies op op_add (times_added o k),
          tally-copies op op_remove (times_removed o k),
          tally-copies op op_replace (times_replaced o k),
          tally-copies op op_clear (times_cleared o k),
        )
        refl

  pair-Once :
      (xs : List AttrOp)
      → said ≡ xs
      → tally op_add xs ≡ 1
      → tally op_remove xs ≡ 1
      → tally op_replace xs ≡ 0
      → tally op_clear xs ≡ 0
      → Once
  pair-Once xs e a r p c = inr (
    omega (arith, tally-said op_add, ap (tally op_add) e, a),
    omega (arith, tally-said op_remove, ap (tally op_remove) e, r),
    omega (arith, tally-said op_replace, ap (tally op_replace) e, p),
    omega (arith, tally-said op_clear, ap (tally op_clear) e, c),
  )

  IsLegal-Once : IsLegal said → Once
  unfolding tally
  IsLegal-Once (inl short) = inl (omega (arith, short, length-said))
  IsLegal-Once (inr (inl e)) = pair-Once (op_add ∷ op_remove ∷ []) e refl refl refl refl
  IsLegal-Once (inr (inr e)) = pair-Once (op_remove ∷ op_add ∷ []) e refl refl refl refl

  Once-IsLegal : Once → IsLegal said
  Once-IsLegal (inl short) = inl (omega (arith, short, length-said))
  Once-IsLegal (inr (a, r, p, c)) = inr (inl (rw (a, r, p, c) refl))

-- Apply writes the splat exactly when every attribute, its name compared without case, is named once
-- at most by the operations, counting each name in the list of those to clear, or is named in one
-- addition and one removal and in nothing else.
pub apply-written :
    (o : AttrOps) (splat : Entries)
    → (apply o splat ≡ written (write_splat o splat)) ↔ ((k : String) → Once o k)
apply-written o splat =
    let legal = apply-IsLegal o splat in
    (
      λ h k. IsLegal-Once o k (subst IsLegal (ops_of-notes o k) (legal.0 h (fold k))),
      λ once. legal.1 (λ k. elim (notes-IsKeyed o k) [
        | inl none' ↦ rw none' (inl (omega arith))
        | inr (n, e) ↦ rw e (subst IsLegal (sym (ops_of-notes o n)) (Once-IsLegal o n (once n)))
      ]),
    )

-- A refusal names, in lower case, an attribute that the operations name more than once and not just in
-- one addition and one removal, and lists them by name, each as often as it names the attribute.
pub apply-refused :
    (o : AttrOps) (splat : Entries) (c : ConflictError)
    → apply o splat ≡ refused c
    → (k : String) × (c.attribute ≡ to_lower (codes k))
      × (¬ Once o k)
      × (c.ops
          ≡ copies (times_added o k) op_add
            ++ (copies (times_cleared o k) op_clear
                ++ (copies (times_removed o k) op_remove
                    ++ copies (times_replaced o k) op_replace)))
apply-refused o splat c h =
    let bad = apply-IsRefused o splat c h in
    elim (notes-IsKeyed o c.attribute) [
      | inl none' ↦ absurd (bad.0 (rw none' (inl (omega arith))))
      | inr (k, e) ↦
          let same = ap (λ b. ops_of b (notes o)) e ∙ ops_of-notes o k in
          (
            k,
            e,
            λ once. bad.0 (subst IsLegal (sym same) (Once-IsLegal o k once)),
            bad.1
                ∙ ap sort_ops same
                ∙ sort_ops-copies (times_added o k) (times_removed o k) (times_replaced o k)
                    (times_cleared o k),
          )
    ]
