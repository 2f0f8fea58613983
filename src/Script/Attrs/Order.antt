-- ===== src/Script/Attrs/Order.antt =====
-- The order in which a refusal of Apply lists the operations.
use go_adpwsh.Prelude.{
  ℕ, zero, suc, ◌≡◌, refl, sym, ap, ◌∙◌, Bool, true, false, List, [], ◌∷◌, ◌++◌, ltb, All,
  All-append, append-nil,
}
use go_adpwsh.Prelude.Sort.{insert, sort}
use go_adpwsh.Script.Attrs.{AttrOp, rank, op_add, op_clear, op_remove, op_replace, sort_ops}
use go_adpwsh.Script.Attrs.Counts.{copies}

abbrev before : AttrOp → AttrOp → Bool
before a b = ltb (rank a) (rank b)

insert-behind :
    (x y : AttrOp) (n : ℕ) (zs : List AttrOp)
    → before y x ≡ true
    → insert before x (copies n y ++ zs) ≡ copies n y ++ insert before x zs
unfolding insert
insert-behind x y zero zs h = refl
insert-behind x y (suc n) zs h = rw (h, insert) (ap (◌∷◌ y) (insert-behind x y n zs h))

-- No operation of a list comes in front of this one.
abbrev IsFirst : AttrOp → List AttrOp → Type 0
IsFirst x = All (λ y. before y x ≡ false)

insert-front : (x : AttrOp) (zs : List AttrOp) → IsFirst x zs → insert before x zs ≡ x ∷ zs
unfolding insert
insert-front x [] h = refl
insert-front x (z ∷ zs) h = rw (h.0, insert) refl

copies-IsFirst : (x y : AttrOp) (n : ℕ) → before y x ≡ false → IsFirst x (copies n y)
copies-IsFirst x y zero h = tt
copies-IsFirst x y (suc n) h = (h, copies-IsFirst x y n h)

IsFirst-append :
    (x y : AttrOp) (n : ℕ) (zs : List AttrOp)
    → before y x ≡ false
    → IsFirst x zs
    → IsFirst x (copies n y ++ zs)
IsFirst-append x y n zs h rest =
    All-append (λ z. before z x ≡ false) (copies n y) zs (copies-IsFirst x y n h) rest

-- Operations of one kind, put in front of sorted ones behind those that come before them.
sort-copies :
    (x y : AttrOp) (n m : ℕ) (xs zs : List AttrOp)
    → before y x ≡ true
    → before x x ≡ false
    → IsFirst x zs
    → sort before xs ≡ copies m y ++ zs
    → sort before (copies n x ++ xs) ≡ copies m y ++ (copies n x ++ zs)
unfolding sort
sort-copies x y zero m xs zs behind same first e = e
sort-copies x y (suc n) m xs zs behind same first e =
    ap (insert before x) (sort-copies x y n m xs zs behind same first e)
    ∙ insert-behind x y m (copies n x ++ zs) behind
    ∙ ap (λ w. copies m y ++ w)
        (insert-front x (copies n x ++ zs) (IsFirst-append x x n zs same first))

-- The same for the kind that comes first of all.
sort-least :
    (x : AttrOp) (n : ℕ) (xs zs : List AttrOp)
    → before x x ≡ false
    → IsFirst x zs
    → sort before xs ≡ zs
    → sort before (copies n x ++ xs) ≡ copies n x ++ zs
unfolding sort
sort-least x zero xs zs same first e = e
sort-least x (suc n) xs zs same first e =
    ap (insert before x) (sort-least x n xs zs same first e)
    ∙ insert-front x (copies n x ++ zs) (IsFirst-append x x n zs same first)

pub sort_ops-copies :
    (a r p c : ℕ)
    → sort_ops
        (copies a op_add ++ (copies r op_remove ++ (copies p op_replace ++ copies c op_clear)))
      ≡ copies a op_add ++ (copies c op_clear ++ (copies r op_remove ++ copies p op_replace))
unfolding sort_ops sort
sort_ops-copies a r p c =
    let clears : sort before (copies c op_clear) ≡ copies c op_clear ++ [] =
      ap (sort before) (sym (append-nil (copies c op_clear)))
      ∙ sort-least op_clear c [] [] refl tt refl in
    let replaces = sort-copies op_replace op_clear p c (copies c op_clear) [] refl refl tt clears in
    let replaces' : sort before (copies p op_replace ++ copies c op_clear)
        ≡ copies c op_clear ++ copies p op_replace =
      replaces ∙ ap (λ w. copies c op_clear ++ w) (append-nil (copies p op_replace)) in
    let removes =
      sort-copies op_remove op_clear r c (copies p op_replace ++ copies c op_clear)
        (copies p op_replace) refl refl (copies-IsFirst op_remove op_replace p refl) replaces' in
    sort-least op_add a _ _ refl
      (IsFirst-append op_add op_clear c _ refl (
        IsFirst-append op_add op_remove r (copies p op_replace) refl
          (copies-IsFirst op_add op_replace p refl)))
      removes
