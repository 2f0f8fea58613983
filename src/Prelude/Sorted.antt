-- ===== src/Prelude/Sorted.antt =====
-- What sorting gives: the same elements, each not in front of the one before it.
use mathlib.Core.List.{Memᴰ}
use mathlib.Core.Path.{◌≡◌, refl}
use mathlib.Core.Logic.{◌⊎◌, inl, inr}
use mathlib.Core.Bool.{Bool, true, false}
use mathlib.Core.List.{List, [], ◌∷◌}
use native.Mathlib.Omega.{arith}
use go_adpwsh.Prelude.Tests.{Bool-cases}
use go_adpwsh.Prelude.Text.{Bytes}
use go_adpwsh.Prelude.Sort.{insert, sort, bytes_lt}

module _ {A : Type 0} (before : A → A → Bool) where
  -- No element must stand in front of the one before it.
  abbrev pub IsSorted : List A → Type 0
  IsSorted [] = Unit
  IsSorted (x ∷ []) = Unit
  IsSorted (x ∷ y ∷ zs) = (before y x ≡ false) × IsSorted (y ∷ zs)

  insert-Mem : (o x : A) (ys : List A) → Memᴰ o (insert before x ys) → (o ≡ x) ⊎ Memᴰ o ys
  unfolding insert
  insert-Mem o x [] (Memᴰ.head e) = inl e
  insert-Mem o x [] (Memᴰ.tail m) = elim m [ ]
  insert-Mem o x (y ∷ ys) h = elim (Bool-cases (before y x)) [
    | inl front ↦ insert-Mem-step o x y ys (insert-Mem o x ys) (rw front at h)
    | inr back ↦ insert-Mem-front o x (y ∷ ys) (rw back at h)
  ]
    where
      insert-Mem-front : (o x : A) (ys : List A) → Memᴰ o (x ∷ ys) → (o ≡ x) ⊎ Memᴰ o ys
      insert-Mem-front o x ys (Memᴰ.head e) = inl e
      insert-Mem-front o x ys (Memᴰ.tail m) = inr m

      insert-Mem-step :
          (o x y : A) (ys : List A)
          → (Memᴰ o (insert before x ys) → (o ≡ x) ⊎ Memᴰ o ys)
          → Memᴰ o (y ∷ insert before x ys)
          → (o ≡ x) ⊎ Memᴰ o (y ∷ ys)
      insert-Mem-step o x y ys ih (Memᴰ.head e) = inr (Memᴰ.head e)
      insert-Mem-step o x y ys ih (Memᴰ.tail m) = elim (ih m) [
        | inl e ↦ inl e
        | inr there ↦ inr (Memᴰ.tail there)
      ]

  Mem-insert : (o x : A) (ys : List A) → (o ≡ x) ⊎ Memᴰ o ys → Memᴰ o (insert before x ys)
  unfolding insert
  Mem-insert o x [] (inl e) = Memᴰ.head e
  Mem-insert o x [] (inr m) = elim m [ ]
  Mem-insert o x (y ∷ ys) h = elim (Bool-cases (before y x)) [
    | inl front ↦ rw (front, insert) (Mem-step o x y ys (Mem-insert o x ys) h)
    | inr back ↦ rw (back, insert) (Mem-front o x (y ∷ ys) h)
  ]
    where
      Mem-front : (o x : A) (ys : List A) → (o ≡ x) ⊎ Memᴰ o ys → Memᴰ o (x ∷ ys)
      Mem-front o x ys (inl e) = Memᴰ.head e
      Mem-front o x ys (inr m) = Memᴰ.tail m

      Mem-step :
          (o x y : A) (ys : List A)
          → ((o ≡ x) ⊎ Memᴰ o ys → Memᴰ o (insert before x ys))
          → (o ≡ x) ⊎ Memᴰ o (y ∷ ys)
          → Memᴰ o (y ∷ insert before x ys)
      Mem-step o x y ys ih (inl e) = Memᴰ.tail (ih (inl e))
      Mem-step o x y ys ih (inr (Memᴰ.head e)) = Memᴰ.head e
      Mem-step o x y ys ih (inr (Memᴰ.tail m)) = Memᴰ.tail (ih (inr m))

  pub sort-Mem : (o : A) (xs : List A) → Memᴰ o (sort before xs) → Memᴰ o xs
  unfolding sort
  sort-Mem o [] h = elim h [ ]
  sort-Mem o (x ∷ xs) h = elim (insert-Mem o x (sort before xs) h) [
    | inl e ↦ Memᴰ.head e
    | inr m ↦ Memᴰ.tail (sort-Mem o xs m)
  ]

  pub Mem-sort : (o : A) (xs : List A) → Memᴰ o xs → Memᴰ o (sort before xs)
  unfolding sort
  Mem-sort o [] h = elim h [ ]
  Mem-sort o (x ∷ xs) (Memᴰ.head e) = Mem-insert o x (sort before xs) (inl e)
  Mem-sort o (x ∷ xs) (Memᴰ.tail m) = Mem-insert o x (sort before xs) (inr (Mem-sort o xs m))

  module _ (asym : (x y : A) → before x y ≡ true → before y x ≡ false) where
    insert-IsSorted : (x : A) (ys : List A) → IsSorted ys → IsSorted (insert before x ys)
    unfolding insert
    insert-IsSorted x [] h = tt
    insert-IsSorted x (y ∷ []) h = elim (Bool-cases (before y x)) [
      | inl front ↦ rw (front, insert) (asym y x front, tt)
      | inr back ↦ rw (back, insert) (back, tt)
    ]
    insert-IsSorted x (y ∷ z ∷ zs) h = elim (Bool-cases (before y x)) [
      | inr back ↦ rw (back, insert) (back, h)
      | inl front ↦ elim (Bool-cases (before z x)) [
        | inl further ↦
            let ih = insert-IsSorted x (z ∷ zs) h.1 in
            rw (front, further, insert) (h.0, rw further at ih)
        | inr here ↦ rw (front, here, insert) (asym y x front, (here, h.1))
      ]
    ]

    pub sort-IsSorted : (xs : List A) → IsSorted (sort before xs)
    unfolding sort
    sort-IsSorted [] = tt
    sort-IsSorted (x ∷ xs) = insert-IsSorted x (sort before xs) (sort-IsSorted xs)

pub bytes_lt-asym : (s t : Bytes) → bytes_lt s t ≡ true → bytes_lt t s ≡ false
unfolding bytes_lt
bytes_lt-asym s [] h = cc
bytes_lt-asym [] (b ∷ t) h = refl
bytes_lt-asym (a ∷ s) (b ∷ t) h = ground (arith, bytes_lt-asym s t)
