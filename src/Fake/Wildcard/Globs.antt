-- ===== src/Fake/Wildcard/Globs.antt =====
-- transport/fake/filter.go: matchWildcard decides whether a pattern describes a value.
use mathlib.Core.List.{reverse, reverse-append, reverse-reverse}
use go_adpwsh.Prelude.{
  ℕ, zero, suc, ◌+◌, ◌≡◌, ◌↔◌, refl, sym, ap, ◌∙◌, subst, ◌==◌, Bool, true, false, some, List, [],
  ◌∷◌, ◌++◌, length, drop, drop-append, if◌then◌else◌, arith, Bool-cases, Option-cases, inl, inr,
  append_assoc,
}
use go_adpwsh.Prelude.Text.{
  Bytes, codes, to_lower, lower, has_prefix, has_suffix, has_prefix-append, has_prefix-split, index,
}
use go_adpwsh.Prelude.Search.{index_zero}
use go_adpwsh.Fake.Wildcard.{match_segments, last_segment, split_star, match_wildcard}
use go_adpwsh.Fake.Wildcard.Segments.{
  Divides, Divides-Found, match_segments-Found, Found-match_segments, Divides-last, Found-Divides,
  Found-length, ends-behind, index_split, Found,
}

-- What one byte of a pattern leaves of a value: a star passes any text, another byte passes itself.
unfoldable pub GlobBy : Bool → ℕ → (Bytes → Type 0) → Bytes → Type 0
GlobBy true c Rest v = (u : Bytes) × (w : Bytes) × (v ≡ u ++ w) × Rest w
GlobBy false c Rest v = (w : Bytes) × (v ≡ c ∷ w) × Rest w

-- The values that a pattern describes, byte by byte.
unfoldable pub Globs : Bytes → Bytes → Type 0
unfolding GlobBy
Globs [] v = v ≡ []
Globs (c ∷ p) v = GlobBy (c == b'*') c (Globs p) v

-- The same by segments: the first one is at the front.
abbrev Anchored : Bytes × List Bytes → Bytes → Type 0
Anchored segs v = (w : Bytes) × (v ≡ segs.0 ++ w) × Divides segs.1 w

abbrev extend : Bool → ℕ → Bytes × List Bytes → Bytes × List Bytes
extend b c segs = if b then ([], segs.0 ∷ segs.1) else (c ∷ segs.0, segs.1)

module _ (c : ℕ) (segs : Bytes × List Bytes) (Rest : Bytes → Type 0) where
  GlobBy-Anchored :
      (b : Bool) (v : Bytes)
      → ((w : Bytes) → Rest w → Anchored segs w)
      → GlobBy b c Rest v
      → Anchored (extend b c segs) v
  unfolding GlobBy
  GlobBy-Anchored true v f (u, w, e, g) =
      let a = f w g in (v, refl, (u, a.0, e ∙ ap (λ x. u ++ x) a.1, a.2))
  GlobBy-Anchored false v f (w, e, g) = let a = f w g in (a.0, e ∙ ap (λ x. c ∷ x) a.1, a.2)

  Anchored-GlobBy :
      (b : Bool) (v : Bytes)
      → ((w : Bytes) → Anchored segs w → Rest w)
      → Anchored (extend b c segs) v
      → GlobBy b c Rest v
  unfolding GlobBy
  Anchored-GlobBy true v f (x, e, (u, w, e', d)) =
      (u, segs.0 ++ w, e ∙ e', f (segs.0 ++ w) (w, refl, d))
  Anchored-GlobBy false v f (w, e, d) = (segs.0 ++ w, e, f (segs.0 ++ w) (w, refl, d))

Globs-Anchored : (p v : Bytes) → Globs p v → Anchored (split_star p) v
unfolding Globs split_star
Globs-Anchored [] v g = (v, refl, g)
Globs-Anchored (c ∷ p) v g =
    GlobBy-Anchored c (split_star p) (Globs p) (c == b'*') v (Globs-Anchored p) g

Anchored-Globs : (p v : Bytes) → Anchored (split_star p) v → Globs p v
unfolding Globs split_star
Anchored-Globs [] v (w, e, d) = e ∙ d
Anchored-Globs (c ∷ p) v a =
    Anchored-GlobBy c (split_star p) (Globs p) (c == b'*') v (Anchored-Globs p) a

pub has_suffix-append : (x l : Bytes) → has_suffix (x ++ l) l ≡ true
unfolding has_suffix
has_suffix-append x l = rw (reverse-append x l) (has_prefix-append (reverse l) (reverse x))

pub has_suffix-split : (v l : Bytes) → has_suffix v l ≡ true → (x : Bytes) × (v ≡ x ++ l)
unfolding has_suffix
has_suffix-split v l h =
    let e = has_prefix-split (reverse v) (reverse l) h in
    (
      reverse (drop (length (reverse l)) (reverse v)),
      sym (reverse-reverse v)
          ∙ ap reverse e
          ∙ reverse-append (reverse l) (drop (length (reverse l)) (reverse v))
          ∙ ap (λ x. reverse (drop (length (reverse l)) (reverse v)) ++ x) (reverse-reverse l),
    )

-- The first segment is looked for at the front only.
match_first-Found :
    (v s : Bytes) (segs : List Bytes)
    → match_segments true v (s ∷ segs) ≡ true
    → (w : Bytes) × (v ≡ s ++ w) × Found segs w
unfolding match_segments
match_first-Found v [] segs h = (v, refl, match_segments-Found v segs h)
match_first-Found v (c ∷ s) segs h = elim (Option-cases (index v (c ∷ s))) [
  | inl missing ↦ ground (arith, missing)
  | inr (zero, found) ↦ (
    drop (0 + length (c ∷ s)) v,
    index_split v (c ∷ s) 0 found,
    match_segments-Found (drop (0 + length (c ∷ s)) v) segs (ground (arith, found)),
  )
  | inr (suc i, found) ↦ ground (arith, found)
]

match_first-here :
    (v : Bytes) (c : ℕ) (s : Bytes) (segs : List Bytes)
    → index v (c ∷ s) ≡ some 0
    → match_segments false (drop (0 + length (c ∷ s)) v) segs ≡ true
    → match_segments true v ((c ∷ s) ∷ segs) ≡ true
unfolding match_segments
match_first-here v c s segs found h = rw (found, match_segments) h

Found-match_first :
    (w s : Bytes) (segs : List Bytes)
    → Found segs w
    → match_segments true (s ++ w) (s ∷ segs) ≡ true
unfolding match_segments
Found-match_first w [] segs f = Found-match_segments w segs f
Found-match_first w (c ∷ s) segs f =
    let n : length (c ∷ s) ≡ 0 + length (c ∷ s) = omega arith in
    let left : w ≡ drop (0 + length (c ∷ s)) (c ∷ s ++ w) =
      sym (drop-append (c ∷ s) w) ∙ ap (λ k. drop k (c ∷ s ++ w)) n in
    match_first-here (c ∷ s ++ w) c s segs
      (index_zero (c ∷ s ++ w) (c ∷ s) (has_prefix-append (c ∷ s) w))
      (Found-match_segments (drop (0 + length (c ∷ s)) (c ∷ s ++ w)) segs
        (subst (Found segs) left f))

lower-star : (c : ℕ) → (lower c == b'*') ≡ (c == b'*')
unfolding lower
lower-star c = ground arith

-- A pattern with a star has two segments or more.
split_star-more :
    (s : Bytes) (i : ℕ)
    → index s (codes "*") ≡ some i
    → (t : Bytes) × (ts : List Bytes) × ((split_star (to_lower s)).1 ≡ t ∷ ts)
unfolding index has_prefix split_star to_lower
split_star-more [] i h = absurd (cc h)
split_star-more (c ∷ s) i h =
    let rest = split_star (to_lower s) in
    let same = lower-star c in
    elim (Bool-cases (c == b'*')) [
      | inl star ↦ (rest.0, rest.1, ap (λ b. (extend b (lower c) rest).1) (same ∙ star))
      | inr plain ↦ elim (Option-cases (index s (codes "*"))) [
        | inl missing ↦ absurd (ground (arith, h, plain, missing))
        | inr (j, found) ↦
            let more = split_star-more s j found in
            (more.0, more.1, ap (λ b. (extend b (lower c) rest).1) (same ∙ plain) ∙ more.2)
      ]
    ]

-- What matchWildcard computes from the folded value and the segments.
abbrev judged : Bytes → Bytes × List Bytes → Bool
judged v segs =
    if match_segments true v (segs.0 ∷ segs.1)
    then has_suffix v (last_segment segs.0 segs.1)
    else false

judged-Anchored :
    (v s t : Bytes) (ts : List Bytes) → judged v (s, t ∷ ts) ≡ true → Anchored (s, t ∷ ts) v
unfolding last_segment
judged-Anchored v s t ts h = elim (Bool-cases (match_segments true v (s ∷ t ∷ ts))) [
  | inl matched ↦
      let first = match_first-Found v s (t ∷ ts) matched in
      let end = has_suffix-split v (last_segment t ts) (ground (arith, h, matched)) in
      let behind =
        ends-behind s first.0 end.0 (last_segment t ts) (sym first.1 ∙ end.1)
          (Found-length t ts first.0 first.2) in
      (first.0, first.1, Found-Divides t ts first.0 behind.0 first.2 behind.1)
  | inr failed ↦ absurd (ground (arith, h, failed))
]

Anchored-judged :
    (v s t : Bytes) (ts : List Bytes) → Anchored (s, t ∷ ts) v → judged v (s, t ∷ ts) ≡ true
unfolding last_segment
Anchored-judged v s t ts (w, e, d) =
    let found = Found-match_first w s (t ∷ ts) (Divides-Found (t ∷ ts) w d) in
    let end = Divides-last w t ts d in
    let ends : v ≡ (s ++ end.0) ++ last_segment t ts =
      e ∙ ap (λ x. s ++ x) end.1 ∙ sym (append_assoc s end.0 (last_segment t ts)) in
    let suffix =
      subst (λ x. has_suffix x (last_segment t ts) ≡ true) (sym ends)
        (has_suffix-append (s ++ end.0) (last_segment t ts)) in
    let first = subst (λ x. match_segments true x (s ∷ t ∷ ts) ≡ true) (sym e) found in
    ap (λ b. if b then has_suffix v (last_segment t ts) else false) first ∙ suffix

judged_iff :
    (v t : Bytes) (ts : List Bytes) (segs : Bytes × List Bytes)
    → segs.1 ≡ t ∷ ts
    → (judged v segs ≡ true) ↔ Anchored segs v
judged_iff v t ts segs e =
    subst (λ ss. (judged v (segs.0, ss) ≡ true) ↔ Anchored (segs.0, ss) v) (sym e)
      (judged-Anchored v segs.0 t ts, Anchored-judged v segs.0 t ts)

-- matchWildcard answers yes exactly for the values that the pattern describes, where both are
-- folded to lower case, a star stands for any text and every other byte for itself. The pattern
-- has a star, as it has where matchItem calls the function.
pub match_wildcard-Globs :
    (value pattern : Bytes) (i : ℕ)
    → index pattern (codes "*") ≡ some i
    → (match_wildcard value pattern ≡ true) ↔ Globs (to_lower pattern) (to_lower value)
unfolding match_wildcard
match_wildcard-Globs value pattern i h =
    let more = split_star-more pattern i h in
    let v = to_lower value in
    let p = to_lower pattern in
    let judge = judged_iff v more.0 more.1 (split_star p) more.2 in
    (λ h. Anchored-Globs p v (judge.0 h), λ g. judge.1 (Globs-Anchored p v g))
