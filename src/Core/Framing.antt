-- ===== src/Core/Framing.antt =====
-- Where ParseEnvelope finds the envelope in the output of the process.
use go_adpwsh.Prelude.{
  ℕ, zero, suc, ◌+◌, ◌-◌, ◌≤◌, ◌<◌, ◌≡◌, ◌≢◌, refl, String, Bool, true, false, ◌&&◌, not, Option,
  none, some, [], ◌∷◌, ◌++◌, arith, ltb, length, take, drop, ltb→lt, le_of_ltb, Bool-cases,
  Option-cases, inl, inr,
}
use go_adpwsh.Prelude.Text.{
  Bytes, has_prefix, index, slice, trim_space, has_prefix-split, index_tail, index-has_prefix,
  index-le-length,
}
use go_adpwsh.Prelude.Json.{ℤ, Value}
use go_adpwsh.Core.Errors.{Kind, panic}
use go_adpwsh.Core.Envelope.{
  RunResult, sentinel_begin, sentinel_end, Envelope, decode_envelope, parse_body, between,
  read_envelope, parse_envelope, is_zero,
}

-- A decidable check of all numbers below a bound.
abbrev none_below : ℕ → (ℕ → Bool) → Bool
none_below zero p = true
none_below (suc n) p = not (p n) && none_below n p

none_below_sound : (n d : ℕ) (p : ℕ → Bool) → none_below n p ≡ true → d < n → p d ≡ false
none_below_sound zero d p h lt = absurd (omega arith)
none_below_sound (suc n) d p h lt = ground (arith, none_below_sound n d p)

-- No end marker begins inside a begin marker.
no_overlap :
    (rest : Bytes) (d : ℕ)
    → d < 16
    → has_prefix (drop d (sentinel_begin ++ rest)) sentinel_end ≡ false
unfolding has_prefix
no_overlap rest d h =
    none_below_sound 16 d (λ k. has_prefix (drop k (sentinel_begin ++ rest)) sentinel_end) refl h

-- The end of the begin marker never lies behind the end marker that the code pairs it with.
begin-le-end :
    (s : Bytes) (b e : ℕ)
    → index s sentinel_begin ≡ some b
    → index s sentinel_end ≡ some e
    → b ≤ e
    → b + 16 ≤ e
unfolding index
begin-le-end [] b e hb he le = ground arith
begin-le-end (c ∷ s) zero e hb he le = elim (Bool-cases (ltb e 16)) [
  | inl near ↦ absurd (at_start near)
  | inr far ↦ le_of_ltb e 16 far
]
  where
    found : has_prefix (c ∷ s) sentinel_begin ≡ true
    found = index-has_prefix (c ∷ s) sentinel_begin zero hb

    at_start : ltb e 16 ≡ true → ⊥
    at_start near =
        let miss : has_prefix (drop e (c ∷ s)) sentinel_end ≡ false =
          rw (has_prefix-split (c ∷ s) sentinel_begin found)
            (no_overlap (drop 16 (c ∷ s)) e (ltb→lt e 16 near)) in
        cc (miss, index-has_prefix (c ∷ s) sentinel_end e he)
begin-le-end (c ∷ s) (suc b) zero hb he le = absurd (omega arith)
begin-le-end (c ∷ s) (suc b) (suc e) hb he le =
    let rest : b + 16 ≤ e =
      begin-le-end s b e (index_tail c s _ b hb) (index_tail c s _ e he) (omega arith) in
    omega (arith, rest)

slice-defined :
    (s : Bytes) (lo hi : ℕ)
    → lo ≤ hi
    → hi ≤ length s
    → slice s lo hi ≡ some (take (hi - lo) (drop lo s))
unfolding slice
slice-defined s lo hi h k = ground arith

module _ (json : Bytes → Option Value) (classify_code : ℤ → Option Kind) where
  read_envelope-ne-panic :
      (op : String) (e : Envelope) → read_envelope json classify_code op e ≢ panic
  unfolding read_envelope
  read_envelope-ne-panic op e = ground arith

  parse_body-ne-panic :
      (op : String) (text : Bytes) → parse_body json classify_code op (some text) ≢ panic
  unfolding parse_body
  parse_body-ne-panic op text = elim (Option-cases (json (trim_space text))) [
    | inl e ↦ rw (e, parse_body) (λ h. cc)
    | inr (v, e) ↦ elim (Option-cases (decode_envelope v)) [
      | inl bad ↦ rw (e, parse_body, bad) (λ h. cc)
      | inr (env, good) ↦ rw (e, parse_body, good) (read_envelope-ne-panic op env)
    ]
  ]

  between-ne-panic :
      (op : String) (r : RunResult) (b e : Option ℕ)
      → index r.stdout sentinel_begin ≡ b
      → index r.stdout sentinel_end ≡ e
      → between json classify_code op r b e ≢ panic
  unfolding between
  between-ne-panic op r none e hb he = ground arith
  between-ne-panic op r (some b) none hb he = ground arith
  between-ne-panic op r (some b) (some e) hb he = elim (Bool-cases (ltb e b)) [
    | inl before ↦ rw before (ground arith)
    | inr after ↦
        rw
          (
            after,
            slice-defined r.stdout (b + 16) e (begin-le-end r.stdout b e hb he (ground arith))
                (index-le-length r.stdout sentinel_end e he),
          )
          (parse_body-ne-panic op _)
  ]

  -- Whatever the process wrote, no slice expression of ParseEnvelope is out of range: the call
  -- returns data or an error.
  pub parse_envelope-ne-panic :
      (op : String) (r : RunResult) → parse_envelope json classify_code op r ≢ panic
  unfolding parse_envelope
  parse_envelope-ne-panic op r = elim (Bool-cases (is_zero r.exit_code)) [
    | inl zero_exit ↦ rw zero_exit (between-ne-panic op r _ _ refl refl)
    | inr failed ↦ rw failed (ground arith)
  ]
