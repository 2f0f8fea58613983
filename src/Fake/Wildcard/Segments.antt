-- ===== src/Fake/Wildcard/Segments.antt =====
-- transport/fake/filter.go: what the loop of matchWildcard finds, as a division of the value.
use go_adpwsh.Prelude.{
  ℕ, zero, suc, ◌+◌, ◌≤◌, ◌≡◌, refl, sym, ap, ◌∙◌, subst, true, false, some, List, [], ◌∷◌, ◌++◌,
  length, take, drop, take-append-drop, arith, Bool-cases, Option-cases, inl, inr, append_assoc,
  length-append, append-nil,
}
use go_adpwsh.Prelude.Text.{
  Bytes, has_prefix, has_prefix-append, has_prefix-split, index, index-has_prefix,
}
use go_adpwsh.Prelude.Search.{index_zero}
use go_adpwsh.Fake.Wildcard.{match_segments, last_segment}

-- The segments stand in the text in this order, without overlapping.
abbrev pub Found : List Bytes → Bytes → Type 0
Found [] v = Unit
Found (s ∷ segs) v = (u : Bytes) × (w : Bytes) × (v ≡ u ++ (s ++ w)) × Found segs w

-- They do, and nothing follows the last one.
abbrev pub Divides : List Bytes → Bytes → Type 0
Divides [] v = v ≡ []
Divides (s ∷ segs) v = (u : Bytes) × (w : Bytes) × (v ≡ u ++ (s ++ w)) × Divides segs w

pub Divides-Found : (segs : List Bytes) (v : Bytes) → Divides segs v → Found segs v
Divides-Found [] v d = tt
Divides-Found (s ∷ segs) v (u, w, e, d) = (u, w, e, Divides-Found segs w d)

Found-more : (segs : List Bytes) (y v : Bytes) → Found segs v → Found segs (y ++ v)
Found-more [] y v f = tt
Found-more (s ∷ segs) y v (u, w, e, f) =
    (y ++ u, w, ap (λ x. y ++ x) e ∙ sym (append_assoc y u (s ++ w)), f)

-- The first occurrence is not behind another one.
index-first : (u s w : Bytes) → (i : ℕ) × (index (u ++ (s ++ w)) s ≡ some i) × (i ≤ length u)
unfolding index
index-first [] s w = (0, index_zero (s ++ w) s (has_prefix-append s w), omega arith)
index-first (c ∷ u) s w = elim (Bool-cases (has_prefix (c ∷ u ++ (s ++ w)) s)) [
  | inl here ↦ (0, rw (here, index) refl, omega arith)
  | inr away ↦
      let rest = index-first u s w in
      (suc rest.0, rw (away, rest.1, index) refl, omega (arith, rest.2))
]

drop-middle :
    (u x w : Bytes) (n : ℕ)
    → n ≤ length u + length x
    → (y : Bytes) × (drop n (u ++ (x ++ w)) ≡ y ++ w)
drop-middle u x w zero h = (u ++ x, sym (append_assoc u x w))
drop-middle [] [] w (suc n) h = absurd (omega arith)
drop-middle [] (c ∷ x) w (suc n) h = drop-middle [] x w n (omega arith)
drop-middle (c ∷ u) x w (suc n) h = drop-middle u x w n (omega arith)

drop-drop : (n m : ℕ) (v : Bytes) → drop m (drop n v) ≡ drop (n + m) v
drop-drop zero m v = let k : m ≡ 0 + m = omega arith in ap (λ n. drop n v) k
drop-drop (suc n) zero [] = let k : suc n ≡ suc n + 0 = omega arith in ap (λ n. drop n []) k
drop-drop (suc n) (suc m) [] =
    let k : suc (n + suc m) ≡ suc n + suc m = omega arith in ap (λ n. drop n []) k
drop-drop (suc n) m (c ∷ v) =
    let k : suc (n + m) ≡ suc n + m = omega arith in drop-drop n m v ∙ ap (λ n. drop n (c ∷ v)) k

pub index_split :
    (v s : Bytes) (i : ℕ) → index v s ≡ some i → v ≡ take i v ++ (s ++ drop (i + length s) v)
index_split v s i h =
    sym (take-append-drop i v)
    ∙ ap (λ x. take i v ++ x)
        (has_prefix-split (drop i v) s (index-has_prefix v s i h)
          ∙ ap (λ x. s ++ x) (drop-drop i (length s) v))

pub match_segments-Found :
    (v : Bytes) (segs : List Bytes) → match_segments false v segs ≡ true → Found segs v
unfolding match_segments
match_segments-Found v [] h = tt
match_segments-Found v ([] ∷ segs) h = ([], v, refl, match_segments-Found v segs h)
match_segments-Found v ((c ∷ s) ∷ segs) h = elim (Option-cases (index v (c ∷ s))) [
  | inl missing ↦ ground (arith, missing)
  | inr (i, found) ↦ (
    take i v,
    drop (i + length (c ∷ s)) v,
    index_split v (c ∷ s) i found,
    match_segments-Found (drop (i + length (c ∷ s)) v) segs (ground (arith, found)),
  )
]

match_segments-at :
    (v : Bytes) (c : ℕ) (s : Bytes) (segs : List Bytes) (i : ℕ)
    → index v (c ∷ s) ≡ some i
    → match_segments false (drop (i + length (c ∷ s)) v) segs ≡ true
    → match_segments false v ((c ∷ s) ∷ segs) ≡ true
unfolding match_segments
match_segments-at v c s segs i found h = rw (found, match_segments) h

pub Found-match_segments :
    (v : Bytes) (segs : List Bytes) → Found segs v → match_segments false v segs ≡ true
unfolding match_segments
Found-match_segments v [] f = refl
Found-match_segments v ([] ∷ segs) (u, w, e, f) =
    Found-match_segments v segs (subst (Found segs) (sym e) (Found-more segs u w f))
Found-match_segments v ((c ∷ s) ∷ segs) (u, w, e, f) =
    let at = index-first u (c ∷ s) w in
    let left = drop-middle u (c ∷ s) w (at.0 + length (c ∷ s)) (omega (arith, at.2)) in
    let later : Found segs (drop (at.0 + length (c ∷ s)) (u ++ (c ∷ s ++ w))) =
      subst (Found segs) (sym left.1) (Found-more segs left.0 w f) in
    let v_at = subst (λ x. index x (c ∷ s) ≡ some at.0) (sym e) at.1 in
    let v_later = subst (λ x. Found segs (drop (at.0 + length (c ∷ s)) x)) (sym e) later in
    match_segments-at v c s segs at.0 v_at
      (Found-match_segments (drop (at.0 + length (c ∷ s)) v) segs v_later)

pub Divides-last :
    (v s : Bytes) (segs : List Bytes)
    → Divides (s ∷ segs) v
    → (x : Bytes) × (v ≡ x ++ last_segment s segs)
unfolding last_segment
Divides-last v s [] (u, w, e, d) =
    (u, e ∙ ap (λ x. u ++ (s ++ x)) d ∙ ap (λ x. u ++ x) (append-nil s))
Divides-last v s (t ∷ segs) (u, w, e, d) =
    let rest = Divides-last w t segs d in
    (
      u ++ (s ++ rest.0),
      e
          ∙ ap (λ x. u ++ (s ++ x)) rest.1
          ∙ ap (λ x. u ++ x) (sym (append_assoc s rest.0 (last_segment t segs)))
          ∙ sym (append_assoc u (s ++ rest.0) (last_segment t segs)),
    )

-- A text that ends with another one, behind a part that leaves room for it.
pub ends-behind :
    (a w x l : Bytes) → a ++ w ≡ x ++ l → length l ≤ length w → (y : Bytes) × (w ≡ y ++ l)
ends-behind [] w x l e h = (x, e)
ends-behind (c ∷ a) w [] l e h = absurd (omega (arith, ap length e, length-append (c ∷ a) w))
ends-behind (c ∷ a) w (d ∷ x) l e h = ends-behind a w x l (ap (drop 1) e) h

pub Found-length :
    (s : Bytes) (segs : List Bytes) (v : Bytes)
    → Found (s ∷ segs) v
    → length (last_segment s segs) ≤ length v
unfolding last_segment
Found-length s [] v (u, w, e, f) =
    omega (arith, ap length e, length-append u (s ++ w), length-append s w)
Found-length s (t ∷ segs) v (u, w, e, f) =
    omega (arith, ap length e, length-append u (s ++ w), length-append s w, Found-length t segs w f)

-- The last segment may be taken from the end of the text.
pub Found-Divides :
    (s : Bytes) (segs : List Bytes) (v x : Bytes)
    → Found (s ∷ segs) v
    → v ≡ x ++ last_segment s segs
    → Divides (s ∷ segs) v
unfolding last_segment
Found-Divides s [] v x f e = (x, [], e ∙ ap (λ y. x ++ y) (sym (append-nil s)), refl)
Found-Divides s (t ∷ segs) v x (u, w, e', f) e =
    let end =
      ends-behind (u ++ s) w x (last_segment t segs) (append_assoc u s w ∙ sym e' ∙ e)
        (Found-length t segs w f) in
    (u, w, e', Found-Divides t segs w end.0 f end.1)
