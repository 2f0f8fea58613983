-- ===== src/Prelude/Search.antt =====
-- Laws of `index` and `has_prefix` when text is put before or behind what is searched.
use mathlib.Core.Option
use go_adpwsh.Prelude.Tests.{leb_of_le, ◌==◌}
use go_adpwsh.Prelude.Lists.{length, All, length-append, drop-append, take-append}
use go_adpwsh.Prelude.Text.{Bytes, slice, has_prefix, index, index_tail, index-has_prefix}
use Prim.Native.Nat.{ℕ, zero, suc, ◌+◌, ◌-◌, ◌≤◌}
use mathlib.Core.Path.{◌≡◌, refl, ap, ◌∙◌}
use mathlib.Core.Logic.{◌≢◌}
use mathlib.Core.Bool.{true, false, ◌&&◌}
use mathlib.Core.Option.{some}
use mathlib.Core.List.{[], ◌∷◌, ◌++◌}
use native.Mathlib.Omega.{arith}

pub length-has_prefix : (s p : Bytes) → has_prefix s p ≡ true → length p ≤ length s
unfolding has_prefix
length-has_prefix s [] h = omega arith
length-has_prefix [] (p ∷ ps) h = cc
length-has_prefix (c ∷ s) (p ∷ ps) h = omega (arith, length-has_prefix s ps (ground arith))

pub has_prefix-extend :
    (s p rest : Bytes) → length p ≤ length s → has_prefix (s ++ rest) p ≡ has_prefix s p
unfolding has_prefix
has_prefix-extend s [] rest h = refl
has_prefix-extend [] (p ∷ ps) rest h = absurd (omega arith)
has_prefix-extend (c ∷ s) (p ∷ ps) rest h =
    ap (◌&&◌ (c == p)) (has_prefix-extend s ps rest (omega arith))

-- An occurrence lies in the text with all of its bytes.
pub length-of_index : (s sub : Bytes) (i : ℕ) → index s sub ≡ some i → i + length sub ≤ length s
unfolding index
length-of_index [] sub zero h = omega (arith, length-has_prefix [] sub (ground arith))
length-of_index [] sub (suc i) h = ground arith
length-of_index (c ∷ s) sub zero h =
    omega (arith, length-has_prefix (c ∷ s) sub (index-has_prefix (c ∷ s) sub zero h))
length-of_index (c ∷ s) sub (suc i) h =
    let tail = length-of_index s sub i (index_tail c s sub i h) in omega (arith, tail)

pub index_zero : (s sub : Bytes) → has_prefix s sub ≡ true → index s sub ≡ some 0
unfolding index
index_zero [] sub h = rw h
index_zero (c ∷ s) sub h = rw h

index_miss :
    (c : ℕ) (s sub : Bytes) (i : ℕ)
    → index (c ∷ s) sub ≡ some (suc i)
    → has_prefix (c ∷ s) sub ≡ false
unfolding index
index_miss c s sub i h = ground arith

index_step :
    (c : ℕ) (s sub : Bytes)
    → has_prefix (c ∷ s) sub ≡ false
    → index (c ∷ s) sub ≡ Option.map suc (index s sub)
unfolding index
index_step c s sub h = rw h

-- What is found stays found when more text follows.
pub index-extend :
    (s sub rest : Bytes) (i : ℕ) → index s sub ≡ some i → index (s ++ rest) sub ≡ some i
index-extend [] sub rest zero h =
    let found = index-has_prefix [] sub zero h in
    index_zero rest sub (rw (has_prefix-extend [] sub rest (length-has_prefix [] sub found)) found)
index-extend [] sub rest (suc i) h = unfold index in ground arith
index-extend (c ∷ s) sub rest zero h =
    let found = index-has_prefix (c ∷ s) sub zero h in
    index_zero (c ∷ s ++ rest) sub
      (rw (has_prefix-extend (c ∷ s) sub rest (length-has_prefix (c ∷ s) sub found)) found)
index-extend (c ∷ s) sub rest (suc i) h =
    let tail = index_tail c s sub i h in
    let fits = length-of_index s sub i tail in
    rw (
      index_step c (s ++ rest) sub
          (has_prefix-extend (c ∷ s) sub rest (omega (arith, fits)) ∙ index_miss c s sub i h),
      index-extend s sub rest i tail,
    )

-- Text without the first byte of the marker is skipped.
pub index-skip :
    (noise : Bytes) (p : ℕ) (ps s : Bytes) (i : ℕ)
    → All (λ c. c ≢ p) noise
    → index s (p ∷ ps) ≡ some i
    → index (noise ++ s) (p ∷ ps) ≡ some (length noise + i)
unfolding index has_prefix
index-skip [] p ps s i h e = rw e (ap some (omega arith))
index-skip (c ∷ noise) p ps s i h e = ground (arith, index-skip noise p ps s i h.1 e)

pub slice_middle : (a b c : Bytes) → slice (a ++ (b ++ c)) (length a) (length a + length b) ≡ some b
unfolding slice
slice_middle a b c = rw (
  leb_of_le (length a) (length a + length b) (omega arith),
  leb_of_le (length a + length b) (length (a ++ (b ++ c)))
      (omega (arith, length-append a (b ++ c), length-append b c)),
  drop-append a (b ++ c),
  width,
  take-append b c,
)
  where
    width : length a + length b - length a ≡ length b
    width = omega arith
