-- ===== src/Fake/Wildcard.antt =====
-- transport/fake/filter.go (unescapeFilterValue, matchWildcard). What follows a position of a Go loop
-- is that loop's argument here.
pub mod Segments
pub mod Globs
use go_adpwsh.Prelude.{
  ℕ, ◌+◌, ◌-◌, ◌*◌, ◌==◌, leb, Bool, true, false, ◌&&◌, not, Option, none, some, List, [], ◌∷◌,
  length, drop, if◌then◌else◌,
}
use go_adpwsh.Prelude.Text.{Bytes, to_lower, has_suffix, index}

-- fromHex; `none` is its -1
unfoldable pub from_hex : ℕ → Option ℕ
from_hex c =
    if leb b'0' c && leb c b'9'
    then some (c - b'0')
    else if leb b'a' c && leb c b'f'
    then some (c - b'a' + 10)
    else if leb b'A' c && leb c b'F'
    then some (c - b'A' + 10)
    else none

-- The byte that a backslash and the two bytes behind it stand for.
unfoldable pub escaped : ℕ → ℕ → ℕ → Option ℕ
unfolding from_hex
escaped c hi lo =
    if c == b'\\'
    then elim (from_hex hi) [
      | none ↦ none
      | some h ↦ elim (from_hex lo) [ none ↦ none | some l ↦ some (h * 16 + l) ]
    ]
    else none

-- unescapeFilterValue
unfoldable pub unescape_filter_value : Bytes → Bytes
unfolding escaped
unescape_filter_value [] = []
unescape_filter_value (a ∷ []) = a ∷ []
unescape_filter_value (a ∷ b ∷ []) = a ∷ b ∷ []
unescape_filter_value (a ∷ b ∷ c ∷ s) = elim (escaped a b c) [
  | some x ↦ x ∷ unescape_filter_value s
  | none ↦ a ∷ unescape_filter_value (b ∷ c ∷ s)
]

-- strings.Split(s, "*"): the first segment, and the others
unfoldable pub split_star : Bytes → Bytes × List Bytes
split_star [] = ([], [])
split_star (c ∷ s) =
    let rest = split_star s in if c == b'*' then ([], rest.0 ∷ rest.1) else (c ∷ rest.0, rest.1)

-- The loop of matchWildcard over the segments, from the first one or a later one on value[pos:].
unfoldable pub match_segments : Bool → Bytes → List Bytes → Bool
unfolding index
match_segments first rest [] = true
match_segments first rest ([] ∷ segs) = match_segments false rest segs
match_segments first rest ((c ∷ seg) ∷ segs) = elim (index rest (c ∷ seg)) [
  | none ↦ false
  | some i ↦
      let tail = match_segments false (drop (i + length (c ∷ seg)) rest) segs in
      if first && not (i == 0) then false else tail
]

-- segs[len(segs)-1]
unfoldable pub last_segment : Bytes → List Bytes → Bytes
last_segment seg [] = seg
last_segment seg (next ∷ segs) = last_segment next segs

-- matchWildcard; every text ends with the empty one.
unfoldable pub match_wildcard : Bytes → Bytes → Bool
unfolding to_lower split_star match_segments last_segment has_suffix
match_wildcard value pattern =
    let folded = to_lower value in
    let segs = split_star (to_lower pattern) in
    if match_segments true folded (segs.0 ∷ segs.1)
    then has_suffix folded (last_segment segs.0 segs.1)
    else false
