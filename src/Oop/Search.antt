-- ===== src/Oop/Search.antt =====
-- What a search finds does not depend on what follows.
use go_adpwsh.Prelude.{
  ℕ, zero, suc, ◌+◌, ◌≤◌, ◌<◌, ◌≡◌, refl, ap, ◌∙◌, true, false, ◌&&◌, none, some, [], ◌∷◌, ◌++◌,
  ◌==◌, length, drop, take, arith, Bool-cases, Option-cases, inl, inr, ◌⊎◌,
}
use go_adpwsh.Prelude.Text.{Bytes, has_prefix, index}

pub has_prefix-short :
    (s p t : Bytes) → length p ≤ length s → has_prefix (s ++ t) p ≡ has_prefix s p
unfolding has_prefix
has_prefix-short s [] t h = refl
has_prefix-short [] (p ∷ ps) t h = ground arith
has_prefix-short (c ∷ s) (p ∷ ps) t h =
    ap (λ b. (c == p) && b) (has_prefix-short s ps t (omega arith))

pub has_prefix-le-length : (s p : Bytes) → has_prefix s p ≡ true → length p ≤ length s
unfolding has_prefix
has_prefix-le-length s [] h = omega arith
has_prefix-le-length [] (p ∷ ps) h = cc
has_prefix-le-length (c ∷ s) (p ∷ ps) h =
    omega (arith, has_prefix-le-length s ps (ground (arith, h)))

pub has_prefix-append : (s p t : Bytes) → has_prefix s p ≡ true → has_prefix (s ++ t) p ≡ true
has_prefix-append s p t h = has_prefix-short s p t (has_prefix-le-length s p h) ∙ h

-- Where the search finds an occurrence at the front.
pub index-here : (s sub : Bytes) → has_prefix s sub ≡ true → index s sub ≡ some 0
unfolding index
index-here [] sub h = rw (h, index) refl
index-here (c ∷ s) sub h = rw (h, index) refl

-- The cases of a search that succeeds.
index-cases :
    (c : ℕ) (s sub : Bytes) (i : ℕ)
    → index (c ∷ s) sub ≡ some i
    → ((has_prefix (c ∷ s) sub ≡ true) × (i ≡ 0))
      ⊎ ((has_prefix (c ∷ s) sub ≡ false) × (j : ℕ) × (i ≡ suc j) × (index s sub ≡ some j))
unfolding index
index-cases c s sub i h = elim (Bool-cases (has_prefix (c ∷ s) sub)) [
  | inl here ↦ inl (here, ground arith)
  | inr away ↦ elim (Option-cases (index s sub)) [
    | inl missing ↦ ground (arith, away, missing)
    | inr (j, found) ↦ inr (away, j, ground (arith, away, found), found)
  ]
]

-- An occurrence that is found lies in the text.
pub index_fits : (s sub : Bytes) (i : ℕ) → index s sub ≡ some i → i + length sub ≤ length s
unfolding index
index_fits [] [] i h = ground arith
index_fits [] (p ∷ ps) i h = cc
index_fits (c ∷ s) sub i h = elim (index-cases c s sub i h) [
  | inl (here, at) ↦ omega (arith, at, has_prefix-le-length (c ∷ s) sub here)
  | inr (away, j, at, found) ↦ omega (arith, at, index_fits s sub j found)
]

-- It is found also in front of more text.
pub index-append : (s sub t : Bytes) (i : ℕ) → index s sub ≡ some i → index (s ++ t) sub ≡ some i
unfolding index
index-append [] [] t i h = index-here t [] refl ∙ h
index-append [] (p ∷ ps) t i h = cc
index-append (c ∷ s) sub t i h = elim (index-cases c s sub i h) [
  | inl (here, at) ↦ rw at (
      index-here (c ∷ s ++ t) sub
        (has_prefix-short (c ∷ s) sub t (has_prefix-le-length (c ∷ s) sub here) ∙ here))
  | inr (away, j, at, found) ↦
      let fits = index_fits s sub j found in
      let off = has_prefix-short (c ∷ s) sub t (omega (arith, fits)) ∙ away in
      rw (at, off, index-append s sub t j found) refl
]

-- A byte that is not found is found later in front of more text, if at all.
pub index-late :
    (s : Bytes) (x : ℕ) (t : Bytes) (j : ℕ)
    → index s (x ∷ []) ≡ none
    → index (s ++ t) (x ∷ []) ≡ some j
    → length s ≤ j
unfolding index has_prefix
index-late [] x t j missing found = omega arith
index-late (c ∷ s) x t j missing found = elim (index-cases c (s ++ t) (x ∷ []) j found) [
  | inl (here, at) ↦ ground (arith, missing, here)
  | inr (away, i, at, later) ↦ elim (Option-cases (index s (x ∷ []))) [
    | inl none' ↦ omega (arith, at, index-late s x t i none' later)
    | inr (k, some') ↦ ground (arith, missing, some')
  ]
]

pub take-short : (n : ℕ) (s t : Bytes) → n ≤ length s → take n (s ++ t) ≡ take n s
take-short zero s t h = refl
take-short (suc n) [] t h = ground arith
take-short (suc n) (c ∷ s) t h = ap (◌∷◌ c) (take-short n s t (omega arith))

pub drop-short : (n : ℕ) (s t : Bytes) → n ≤ length s → drop n (s ++ t) ≡ drop n s ++ t
drop-short zero s t h = refl
drop-short (suc n) [] t h = ground arith
drop-short (suc n) (c ∷ s) t h = drop-short n s t (omega arith)

-- The front of a text that becomes longer.
pub take-grows : (n : ℕ) (s t : Bytes) → (u : Bytes) × (take n (s ++ t) ≡ take n s ++ u)
take-grows zero s t = ([], refl)
take-grows (suc n) [] t = (take (suc n) t, refl)
take-grows (suc n) (c ∷ s) t = let rest = take-grows n s t in (rest.0, ap (◌∷◌ c) rest.1)

pub length-drop-lt : (n : ℕ) (s : Bytes) → 0 < n → n ≤ length s → length (drop n s) < length s
length-drop-lt zero s positive h = ground arith
length-drop-lt (suc zero) (c ∷ s) positive h = omega arith
length-drop-lt (suc (suc n)) (c ∷ s) positive h =
    omega (arith, length-drop-lt (suc n) s (omega arith) (omega arith))
length-drop-lt (suc n) [] positive h = ground arith

pub length-take-le : (n : ℕ) (s : Bytes) → length (take n s) ≤ length s
length-take-le zero s = omega arith
length-take-le (suc n) [] = omega arith
length-take-le (suc n) (c ∷ s) = omega (arith, length-take-le n s)

pub length-drop-le : (n : ℕ) (s : Bytes) → length (drop n s) ≤ length s
length-drop-le zero s = omega arith
length-drop-le (suc n) [] = omega arith
length-drop-le (suc n) (c ∷ s) = omega (arith, length-drop-le n s)
