-- ===== src/Oop/Stream.antt =====
-- splitOutOfProcPackets on a stream that is cut in two, and Framer.Read on a stream of reads.
use go_adpwsh.Prelude.{
  ℕ, zero, suc, ◌≤◌, ◌<◌, ◌≡◌, refl, sym, ap, ◌∙◌, true, none, some, [], ◌∷◌, ◌++◌, append_assoc,
  length, drop, arith, Option-cases, inl, inr, ◌⊎◌, length-append,
}
use go_adpwsh.Prelude.Text.{Bytes, index, index-has_prefix}
use go_adpwsh.Oop.Framer.{index_open, Turn, stop, packet, element, turn, split, split_packets}
use go_adpwsh.Oop.Search.{
  index-here, index_fits, index-append, drop-short, length-drop-lt, length-drop-le,
}
use go_adpwsh.Oop.Chunks.{grow, is_packet, element-grows, element-cases}

Turn-cases :
    (u : Turn)
    → ((rest : Bytes) × (u ≡ stop rest)) ⊎ ((out : Bytes) × (rest : Bytes) × (u ≡ packet out rest))
Turn-cases (stop rest) = inl (rest, refl)
Turn-cases (packet out rest) = inr (out, rest, refl)

turn-some : (d : Bytes) (k : ℕ) → index_open d ≡ some k → turn d ≡ element (drop k d)
unfolding turn
turn-some d k found = rw (found, turn) refl

turn-none : (d : Bytes) → index_open d ≡ none → turn d ≡ stop d
unfolding turn
turn-none d missing = rw (missing, turn) refl

index_open-append : (d t : Bytes) (k : ℕ) → index_open d ≡ some k → index_open (d ++ t) ≡ some k
unfolding index_open
index_open-append d t k found = index-append d (b'<' ∷ []) t k found

index_open_fits : (d : Bytes) (k : ℕ) → index_open d ≡ some k → k < length d
unfolding index_open
index_open_fits d k found = omega (arith, index_fits d (b'<' ∷ []) k found)

-- The turn on longer data is the one of the element that was found.
turn-append :
    (d t : Bytes) (k : ℕ) → index_open d ≡ some k → turn (d ++ t) ≡ element (drop k d ++ t)
turn-append d t k found =
    turn-some (d ++ t) k (index_open-append d t k found)
    ∙ ap element (drop-short k d t (omega (arith, index_open_fits d k found)))

turn-grows : (d t : Bytes) → is_packet (turn d) ≡ true → turn (d ++ t) ≡ grow t (turn d)
turn-grows d t h = elim (Option-cases (index_open d)) [
  | inl missing ↦ let ended = turn-none d missing in cc
  | inr (k, found) ↦
      let here = turn-some d k found in
      turn-append d t k found
      ∙ (element-grows (drop k d) t (ap is_packet (sym here) ∙ h) ∙ ap (grow t) (sym here))
]

element-stop : (d rest : Bytes) → element d ≡ stop rest → rest ≡ d
element-stop d rest h = elim (element-cases d) [
  | inl stays ↦ cc
  | inr (n, positive, fits, off) ↦ cc
]

-- An element starts at the front of what is left when the loop ends in front of it.
element-front : (d : Bytes) (k : ℕ) → index_open d ≡ some k → index_open (drop k d) ≡ some 0
unfolding index_open
element-front d k found = index-here (drop k d) (b'<' ∷ []) (index-has_prefix d (b'<' ∷ []) k found)

stop-injective : (d e : Bytes) → stop d ≡ stop e → d ≡ e
stop-injective d e h = cc

turn-stop : (d t rest : Bytes) → turn d ≡ stop rest → turn (d ++ t) ≡ turn (rest ++ t)
turn-stop d t rest h = elim (Option-cases (index_open d)) [
  | inl missing ↦ ap (λ r. turn (r ++ t)) (stop-injective d rest (sym (turn-none d missing) ∙ h))
  | inr (k, found) ↦
      let same = element-stop (drop k d) rest (sym (turn-some d k found) ∙ h) in
      let front = element-front d k found in
      rw same (turn-append d t k found ∙ sym (turn-append (drop k d) t 0 front))
]

abbrev rest_of : Turn → Bytes
rest_of (stop rest) = rest
rest_of (packet out rest) = rest

turn-shorter : (d out rest : Bytes) → turn d ≡ packet out rest → length rest < length d
turn-shorter d out rest h = elim (Option-cases (index_open d)) [
  | inl missing ↦ let ended = turn-none d missing in cc
  | inr (k, found) ↦ elim (element-cases (drop k d)) [
    | inl stays ↦ let here = turn-some d k found in cc
    | inr (n, positive, fits, off) ↦
        let same = ap rest_of (sym off ∙ (sym (turn-some d k found) ∙ h)) in
        omega (arith, ap length same, length-drop-lt n (drop k d) positive fits, length-drop-le k d)
  ]
]

split-stop : (n : ℕ) (d rest : Bytes) → turn d ≡ stop rest → split (suc n) d ≡ ([], rest)
unfolding split
split-stop n d rest h = rw (h, split) refl

split-packet :
    (n : ℕ) (d out rest : Bytes)
    → turn d ≡ packet out rest
    → split (suc n) d ≡ (out ++ b'\n' ∷ (split n rest).0, (split n rest).1)
unfolding split
split-packet n d out rest h = rw (h, split) refl

split-nil : (n : ℕ) → split n [] ≡ ([], [])
unfolding split turn index_open index
split-nil zero = refl
split-nil (suc n) = refl

-- Fuel beyond the length of the data changes nothing.
split-fuel : (n m : ℕ) (d : Bytes) → length d ≤ n → length d ≤ m → split n d ≡ split m d
split-fuel n m [] h h' = split-nil n ∙ sym (split-nil m)
split-fuel zero m (c ∷ d) h h' = ground arith
split-fuel (suc n) zero (c ∷ d) h h' = ground arith
split-fuel (suc n) (suc m) (c ∷ d) h h' = elim (Turn-cases (turn (c ∷ d))) [
  | inl (rest, over) ↦ split-stop n (c ∷ d) rest over ∙ sym (split-stop m (c ∷ d) rest over)
  | inr (out, rest, on) ↦
      let less = turn-shorter (c ∷ d) out rest on in
      rw
        (
          split-packet n (c ∷ d) out rest on,
          split-packet m (c ∷ d) out rest on,
          split-fuel n m rest (omega arith) (omega arith),
        )
        refl
]

-- What the loop makes of the data of one read, and then of those of the next.
abbrev pub resume : Bytes × Bytes → Bytes × Bytes → Bytes × Bytes
resume first second = (first.0 ++ second.0, second.1)

turn-stop-le : (d rest : Bytes) → turn d ≡ stop rest → length rest ≤ length d
turn-stop-le d rest h = elim (Option-cases (index_open d)) [
  | inl missing ↦
      let same = stop-injective d rest (sym (turn-none d missing) ∙ h) in
      omega (arith, ap length same)
  | inr (k, found) ↦
      let same = element-stop (drop k d) rest (sym (turn-some d k found) ∙ h) in
      omega (arith, ap length same, length-drop-le k d)
]

split-shrinks : (n : ℕ) (d : Bytes) → length (split n d).1 ≤ length d
unfolding split
split-shrinks zero d = omega arith
split-shrinks (suc n) d = elim (Turn-cases (turn d)) [
  | inl (rest, over) ↦ rw (split-stop n d rest over) (turn-stop-le d rest over)
  | inr (out, rest, on) ↦
      rw (split-packet n d out rest on)
        (omega (arith, split-shrinks n rest, turn-shorter d out rest on))
]

split-turn : (m : ℕ) (d e : Bytes) → turn d ≡ turn e → split (suc m) d ≡ split (suc m) e
unfolding split
split-turn m d e same = rw (same, split) refl

split-append :
    (n m : ℕ) (d t : Bytes)
    → length d ≤ n
    → length (d ++ t) ≤ m
    → split m (d ++ t) ≡ resume (split n d) (split m ((split n d).1 ++ t))
split-append n m [] t h h' = rw (split-nil n) refl
split-append zero m (c ∷ d) t h h' = ground arith
split-append (suc n) zero (c ∷ d) t h h' = ground arith
split-append (suc n) (suc m) (c ∷ d) t h h' = elim (Turn-cases (turn (c ∷ d))) [
  | inl (rest, over) ↦
      rw (split-stop n (c ∷ d) rest over)
        (split-turn m (c ∷ d ++ t) (rest ++ t) (turn-stop (c ∷ d) t rest over))
  | inr (out, rest, on) ↦
      let less = turn-shorter (c ∷ d) out rest on in
      let longer = turn-grows (c ∷ d) t (ap is_packet on) ∙ ap (grow t) on in
      let fits : length (rest ++ t) ≤ m = omega (arith, length-append rest t, length-append d t) in
      let fits' : length ((split n rest).1 ++ t) ≤ m = omega (
        arith,
        length-append rest t,
        length-append d t,
        split-shrinks n rest,
        length-append (split n rest).1 t,
      ) in
      rw
        (
          split-packet n (c ∷ d) out rest on,
          split-packet m (c ∷ d ++ t) out (rest ++ t) longer,
          split-fuel (suc m) m ((split n rest).1 ++ t) (omega (arith, fits')) fits',
          split-append n m rest t (omega arith) fits,
        )
        (ap (λ b. (b, (split m ((split n rest).1 ++ t)).1))
          (sym (append_assoc out (b'\n' ∷ (split n rest).0) (split m ((split n rest).1 ++ t)).0)))
]

-- The packets of a stream that is cut anywhere are those of its front and then those of what the
-- front left over with the rest of the stream behind it; what is left over is the same as well. So
-- the packets do not depend on how the stream is cut into reads.
pub split_packets-append :
    (d t : Bytes)
    → split_packets (d ++ t) ≡ resume (split_packets d) (split_packets ((split_packets d).1 ++ t))
unfolding split_packets
split_packets-append d t =
    split-append (length d) (length (d ++ t)) d t (omega arith) (omega arith)
    ∙ ap (resume (split (length d) d)) (
        split-fuel (length (d ++ t)) (length ((split (length d) d).1 ++ t)) _
          (omega (
            arith,
            length-append d t,
            length-append (split (length d) d).1 t,
            split-shrinks (length d) d,
          ))
          (omega arith))
