-- ===== src/Prelude/Sort.antt =====
-- sort.Strings and its like: insertion sort by a Boolean order. Go's sort is another algorithm with
-- the same result, since equal elements are not told apart here.
use Prim.Native.Nat.{suc}
use mathlib.Core.Path.{◌≡◌, refl, ap, ◌∙◌}
use mathlib.Core.Bool.{Bool, true, false}
use mathlib.Core.List.{List, [], ◌∷◌}
use mathlib.Core.Logic.{inl, inr}
use native.Mathlib.Omega.{arith}
use go_adpwsh.Prelude.Tests.{ltb, if◌then◌else◌, Bool-cases}
use go_adpwsh.Prelude.Lists.{length, All}
use go_adpwsh.Prelude.Text.{Bytes}

module _ {ℓ} {A : Type ℓ} (before : A → A → Bool) where
  -- `before y x` asks whether y must stand in front of x.
  unfoldable pub insert : A → List A → List A
  insert x [] = x ∷ []
  insert x (y ∷ ys) = if before y x then y ∷ insert x ys else x ∷ y ∷ ys

  unfoldable pub sort : List A → List A
  unfolding insert
  sort [] = []
  sort (x ∷ xs) = insert x (sort xs)

  length-insert : (x : A) (ys : List A) → length (insert x ys) ≡ suc (length ys)
  unfolding insert
  length-insert x [] = refl
  length-insert x (y ∷ ys) = ground (arith, length-insert x ys)

  pub length-sort : (xs : List A) → length (sort xs) ≡ length xs
  unfolding sort
  length-sort [] = refl
  length-sort (x ∷ xs) = length-insert x (sort xs) ∙ ap suc (length-sort xs)

  insert-All {κ} : (P : A → Type κ) (x : A) (ys : List A) → P x → All P ys → All P (insert x ys)
  unfolding insert
  insert-All P x [] p h = (p, tt)
  insert-All P x (y ∷ ys) p h = elim (Bool-cases (before y x)) [
    | inl e ↦ rw e (h.0, insert-All P x ys p h.1)
    | inr e ↦ rw e (p, h)
  ]

  pub sort-All {κ} : (P : A → Type κ) (xs : List A) → All P xs → All P (sort xs)
  unfolding sort
  sort-All P [] h = tt
  sort-All P (x ∷ xs) h = insert-All P x (sort xs) h.0 (sort-All P xs h.1)

  of_insert-All {κ} : (P : A → Type κ) (x : A) (ys : List A) → All P (insert x ys) → P x × All P ys
  unfolding insert
  of_insert-All P x [] h = h
  of_insert-All P x (y ∷ ys) h = elim (Bool-cases (before y x)) [
    | inl e ↦
        let h' : P y × All P (insert x ys) = rw e at h in
        let (p, rest) = of_insert-All P x ys h'.1 in (p, (h'.0, rest))
    | inr e ↦ rw e at h
  ]

  pub of_sort-All {κ} : (P : A → Type κ) (xs : List A) → All P (sort xs) → All P xs
  unfolding sort
  of_sort-All P [] h = tt
  of_sort-All P (x ∷ xs) h =
      let (p, rest) = of_insert-All P x (sort xs) h in (p, of_sort-All P xs rest)

-- s < t on Go strings: byte by byte.
unfoldable pub bytes_lt : Bytes → Bytes → Bool
bytes_lt s [] = false
bytes_lt [] (b ∷ t) = true
bytes_lt (a ∷ s) (b ∷ t) = if ltb a b then true else if ltb b a then false else bytes_lt s t

unfoldable pub sort_strings : List Bytes → List Bytes
unfolding sort bytes_lt
sort_strings = sort bytes_lt
