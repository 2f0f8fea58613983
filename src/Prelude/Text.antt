-- ===== src/Prelude/Text.antt =====
-- Byte texts. Go's `string` and `[]byte` are lists of byte values where the code walks them, and
-- the native `String` where it only compares whole keys; `codes` leads from the second to the
-- first. The functions are those of Go's `strings` and `bytes` that the sources call.
use Prim.Native.Char.{code}
use Prim.Native.String.{String}
use Prim.Native.Nat.{ℕ, zero, suc, ◌+◌, ◌-◌, ◌≤◌}
use mathlib.Core.Path.{◌≡◌, refl}
use mathlib.Core.Bool.{Bool, true, false, ◌&&◌, ◌||◌}
use mathlib.Core.Option.{Option, none, some}
use mathlib.Core.Option
use mathlib.Core.List.{List, [], ◌∷◌, ◌++◌, map, reverse}
use native.Mathlib.Omega.{arith}
use go_adpwsh.Prelude.Tests.{leb, ◌==◌, if◌then◌else◌}
use go_adpwsh.Prelude.Lists.{length, drop, take}

abbrev pub Bytes : Type 0
Bytes = List ℕ

-- The code points of a text: its bytes, if it is ASCII.
abbrev pub codes : String → Bytes
codes String.[] = []
codes (String.◌∷◌ c s) = code c ∷ codes s

-- a == b on byte strings
unfoldable pub bytes_eq : Bytes → Bytes → Bool
bytes_eq [] [] = true
bytes_eq [] (b ∷ t) = false
bytes_eq (a ∷ s) [] = false
bytes_eq (a ∷ s) (b ∷ t) = (a == b) && bytes_eq s t

pub bytes_eq_refl : (s : Bytes) → bytes_eq s s ≡ true
unfolding bytes_eq
bytes_eq_refl [] = refl
bytes_eq_refl (a ∷ s) = ground (arith, bytes_eq_refl s)

pub eq_of_bytes_eq : (s t : Bytes) → bytes_eq s t ≡ true → s ≡ t
unfolding bytes_eq
eq_of_bytes_eq [] [] h = refl
eq_of_bytes_eq [] (b ∷ t) h = cc
eq_of_bytes_eq (a ∷ s) [] h = cc
eq_of_bytes_eq (a ∷ s) (b ∷ t) h = ground (arith, eq_of_bytes_eq s t)

-- strings.ToLower on one byte: the letters of ASCII.
unfoldable pub lower : ℕ → ℕ
lower c = if leb b'A' c && leb c b'Z' then c + 32 else c

unfoldable pub to_lower : Bytes → Bytes
unfolding lower
to_lower s = map lower s

-- strings.EqualFold
unfoldable pub equal_fold : Bytes → Bytes → Bool
unfolding bytes_eq to_lower
equal_fold s t = bytes_eq (to_lower s) (to_lower t)

-- strings.HasPrefix(s, p)
unfoldable pub has_prefix : Bytes → Bytes → Bool
has_prefix s [] = true
has_prefix [] (p ∷ ps) = false
has_prefix (c ∷ s) (p ∷ ps) = (c == p) && has_prefix s ps

-- strings.HasSuffix(s, p)
unfoldable pub has_suffix : Bytes → Bytes → Bool
unfolding has_prefix
has_suffix s p = has_prefix (reverse s) (reverse p)

-- strings.Index(s, sub); `none` is Go's -1.
unfoldable pub index : Bytes → Bytes → Option ℕ
unfolding has_prefix
index [] sub = if has_prefix [] sub then some 0 else none
index (c ∷ s) sub = if has_prefix (c ∷ s) sub then some 0 else Option.map suc (index s sub)

-- unicode.IsSpace, on a byte of ASCII
unfoldable pub is_space : ℕ → Bool
is_space c = c == 32 || leb 9 c && leb c 13

unfoldable pub trim_left : Bytes → Bytes
unfolding is_space
trim_left [] = []
trim_left (c ∷ s) = if is_space c then trim_left s else c ∷ s

-- strings.TrimSpace
unfoldable pub trim_space : Bytes → Bytes
unfolding trim_left
trim_space s = reverse (trim_left (reverse (trim_left s)))

-- s[lo:hi]; `none` is the panic of a slice that is out of range.
unfoldable pub slice : Bytes → ℕ → ℕ → Option Bytes
slice s lo hi = if leb lo hi && leb hi (length s) then some (take (hi - lo) (drop lo s)) else none

pub has_prefix-append : (p rest : Bytes) → has_prefix (p ++ rest) p ≡ true
unfolding has_prefix
has_prefix-append [] rest = refl
has_prefix-append (c ∷ p) rest = ground (arith, has_prefix-append p rest)

pub has_prefix-split : (s p : Bytes) → has_prefix s p ≡ true → s ≡ p ++ drop (length p) s
unfolding has_prefix
has_prefix-split s [] h = refl
has_prefix-split [] (p ∷ ps) h = cc
has_prefix-split (c ∷ s) (p ∷ ps) h = ground (arith, has_prefix-split s ps)

pub index_tail :
    (c : ℕ) (s sub : Bytes) (i : ℕ) → index (c ∷ s) sub ≡ some (suc i) → index s sub ≡ some i
unfolding index
index_tail c s sub i h = ground arith

-- What `index` finds is an occurrence, and lies in the text.
pub index-has_prefix :
    (s sub : Bytes) (i : ℕ) → index s sub ≡ some i → has_prefix (drop i s) sub ≡ true
unfolding index
index-has_prefix [] sub zero h = ground arith
index-has_prefix [] sub (suc i) h = ground arith
index-has_prefix (c ∷ s) sub zero h = ground arith
index-has_prefix (c ∷ s) sub (suc i) h = index-has_prefix s sub i (ground arith)

pub index-le-length : (s sub : Bytes) (i : ℕ) → index s sub ≡ some i → i ≤ length s
unfolding index
index-le-length [] sub i h = ground arith
index-le-length (c ∷ s) sub zero h = omega arith
index-le-length (c ∷ s) sub (suc i) h = omega (arith, index-le-length s sub i (ground arith))
