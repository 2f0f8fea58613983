-- ===== src/Fake/Filter.antt =====
-- transport/fake/filter.go (matchFilter, splitFilters, matchItem).
pub mod Queries
pub mod Splitting
pub mod Answers
use go_adpwsh.Prelude.{
  ℕ, zero, suc, ◌-◌, ◌==◌, Bool, true, false, ◌&&◌, ◌||◌, not, Option, none, some, List, [], ◌∷◌,
  ◌++◌, length, take, drop, if◌then◌else◌,
}
use go_adpwsh.Prelude.Text.{
  Bytes, codes, bytes_eq, equal_fold, has_prefix, has_suffix, index, trim_space,
}
use go_adpwsh.Fake.Objects.{DirectoryObject, fake_attr}
use go_adpwsh.Fake.Wildcard.{unescape_filter_value, match_wildcard}

-- The errors, with the text that their messages quote.
pub data Fault : Type 0 where
  malformed : Bytes → Fault
  unbalanced : Bytes → Fault
  unsupported_assertion : Bytes → Fault
  unsupported_operator : Bytes → Fault

-- What matchFilter returns; `stuck` is a call that has run out of fuel.
pub data Verdict : Type 0 where
  verdict : Bool → Verdict
  fault : Fault → Verdict
  stuck : Verdict

-- item[eq-1] is one of ~ > < :
unfoldable pub is_operator : ℕ → Bool
is_operator c = c == b'~' || c == b'>' || c == b'<' || c == b':'

unfoldable pub last_byte : Bytes → ℕ
last_byte [] = 0
last_byte (c ∷ []) = c
last_byte (c ∷ d ∷ s) = last_byte (d ∷ s)

-- The assertion of an attribute and a pattern.
unfoldable pub assert_attr : DirectoryObject → Bytes → Bytes → Bool
unfolding fake_attr bytes_eq index equal_fold match_wildcard
assert_attr o attr pattern =
    let found = fake_attr o attr in
    if bytes_eq pattern (codes "*")
    then found.1
    else if not found.1
    then false
    else elim (index pattern (codes "*")) [
      | none ↦ equal_fold found.0 pattern
      | some i ↦ match_wildcard found.0 pattern
    ]

-- matchItem
unfoldable pub match_item : DirectoryObject → Bytes → Verdict
unfolding index last_byte is_operator unescape_filter_value assert_attr
match_item o item = elim (index item (codes "=")) [
  | none ↦ fault (unsupported_assertion item)
  | some zero ↦ fault (unsupported_assertion item)
  | some (suc n) ↦
      if is_operator (last_byte (take (suc n) item))
      then fault (unsupported_operator item)
      else verdict
          (assert_attr o (take (suc n) item) (unescape_filter_value (drop (suc (suc n)) item)))
]

-- One turn of the loop of splitFilters, on the depth, the text since `start` and the next byte.
pub data Turn : Type 0 where
  go_on : ℕ → Bytes → Turn
  part : Bytes → Turn
  negative : Turn

unfoldable pub turn : ℕ → Bytes → ℕ → Turn
turn depth since c =
    if c == b'('
    then go_on (suc depth) (if depth == 0 then c ∷ [] else since ++ c ∷ [])
    else if c == b')'
    then elim depth [
      | zero ↦ negative
      | suc zero ↦ part (since ++ c ∷ [])
      | suc (suc d) ↦ go_on (suc d) (since ++ c ∷ [])
    ]
    else go_on depth (since ++ c ∷ [])

-- The loop of splitFilters; `none` is an unbalanced run.
unfoldable pub split_loop : ℕ → Bytes → Bytes → Option (List Bytes)
unfolding turn
split_loop zero since [] = some []
split_loop (suc depth) since [] = none
split_loop depth since (c ∷ s) = elim (turn depth since c) [
  | negative ↦ none
  | go_on d t ↦ split_loop d t s
  | part p ↦ elim (split_loop 0 p s) [ none ↦ none | some ps ↦ some (p ∷ ps) ]
]

-- splitFilters
unfoldable pub split_filters : Bytes → Option (List Bytes)
unfolding split_loop
split_filters s = elim (split_loop 0 [] s) [
  | none ↦ none
  | some [] ↦ none
  | some (p ∷ ps) ↦ some (p ∷ ps)
]

-- inner[0] == '&', for an operator that is one of the two
pub data Operator : Type 0 where
  every : Operator
  any : Operator

-- The branch of the switch that what is inside the parentheses takes.
pub data Shape : Type 0 where
  junction : Operator → Bytes → Shape
  negation : Bytes → Shape
  item : Bytes → Shape

unfoldable pub shape_of : Bytes → Shape
shape_of [] = item []
shape_of (c ∷ s) =
    if c == b'&'
    then junction every s
    else if c == b'|'
    then junction any s
    else if c == b'!'
    then negation s
    else item (c ∷ s)

-- What the loop over the parts returns when the verdict of one part is known.
unfoldable pub after_part : Operator → Bool → Verdict → Verdict
after_part every true rest = rest
after_part every false rest = verdict false
after_part any true rest = verdict true
after_part any false rest = rest

-- The loop over the parts, with matchFilter on a part.
unfoldable pub match_parts : Operator → (Bytes → Verdict) → List Bytes → Verdict
unfolding after_part
match_parts every test [] = verdict true
match_parts any test [] = verdict false
match_parts op test (p ∷ ps) =
    let rest = match_parts op test ps in
    elim (test p) [ verdict m ↦ after_part op m rest | fault e ↦ fault e | stuck ↦ stuck ]

unfoldable pub negate : Verdict → Verdict
negate (verdict m) = verdict (not m)
negate (fault e) = fault e
negate stuck = stuck

-- matchFilter, on fuel
unfoldable pub match_filter : ℕ → DirectoryObject → Bytes → Verdict
unfolding trim_space has_prefix has_suffix shape_of split_filters match_parts negate match_item
match_filter zero o filter = stuck
match_filter (suc n) o filter =
    let f = trim_space filter in
    if has_prefix f (codes "(") && has_suffix f (codes ")")
    then elim (shape_of (take (length f - 2) (drop 1 f))) [
      | junction op s ↦ elim (split_filters s) [
        | none ↦ fault (unbalanced s)
        | some parts ↦ match_parts op (λ p. match_filter n o p) parts
      ]
      | negation s ↦ negate (match_filter n o s)
      | item s ↦ match_item o s
    ]
    else fault (malformed filter)
