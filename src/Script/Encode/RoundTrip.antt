-- ===== src/Script/Encode/RoundTrip.antt =====
-- A script that is encoded and decoded again.
use go_adpwsh.Prelude.{
  ℕ, ◌+◌, ◌*◌, ◌/◌, ◌%◌, ◌≤◌, ◌<◌, ◌≡◌, refl, ap, ◌∙◌, true, false, Option, some, List, [], ◌∷◌,
  All, ltb, arith, le_of_ltb, lt→ltb, Bool-cases, inl, inr,
}
use go_adpwsh.Prelude.Text.{Bytes}
use go_adpwsh.Script.Encode.{
  is_high, is_low, is_surrogate, high_of, low_of, joined, units_of, utf16_encode, utf16_decode,
  unit_bytes, byte_units, encode_command, decode_command,
}

-- A code point that is a character: no surrogate, and in the range of Unicode.
abbrev pub IsScalar : ℕ → Type 0
IsScalar c = (is_surrogate c ≡ false) × (c < 0x110000)

byte_units-unit_bytes : (us : List ℕ) → byte_units (unit_bytes us) ≡ some us
unfolding byte_units unit_bytes
byte_units-unit_bytes [] = refl
byte_units-unit_bytes (u ∷ us) = rw (byte_units-unit_bytes us) (ap (λ n. some (n ∷ us)) (join u))
  where
    join : (n : ℕ) → n % 256 + n / 256 * 256 ≡ n
    join n = omega arith

decode_plain :
    (c : ℕ) (us : List ℕ) → is_surrogate c ≡ false → utf16_decode (c ∷ us) ≡ c ∷ utf16_decode us
unfolding utf16_decode
decode_plain c [] plain = ground (arith, plain)
decode_plain c (u ∷ us) plain = ground (arith, plain)

decode_pair :
    (c : ℕ) (us : List ℕ)
    → 0x10000 ≤ c
    → c < 0x110000
    → utf16_decode (high_of c ∷ low_of c ∷ us) ≡ c ∷ utf16_decode us
unfolding utf16_decode
decode_pair c us above below = rw (highs, lows) (ap (λ n. n ∷ utf16_decode us) back)
  where
    highs : is_high (high_of c) ≡ true
    highs = ground (arith, above, below)

    lows : is_low (low_of c) ≡ true
    lows = ground arith

    back : joined (high_of c) (low_of c) ≡ c
    back = omega (arith, above)

utf16_decode-encode : (s : List ℕ) → All IsScalar s → utf16_decode (utf16_encode s) ≡ s
unfolding utf16_encode units_of utf16_decode
utf16_decode-encode [] h = refl
utf16_decode-encode (c ∷ s) (now, later) = elim (Bool-cases (ltb c 0x10000)) [
  | inl short ↦
      rw (now.0, short)
        (decode_plain c (utf16_encode s) now.0 ∙ ap (◌∷◌ c) (utf16_decode-encode s later))
  | inr long ↦
      rw (now.0, long, lt→ltb c 0x110000 now.1)
        (decode_pair c (utf16_encode s) (le_of_ltb c 0x10000 long) now.1
          ∙ ap (◌∷◌ c) (utf16_decode-encode s later))
]

-- DecodeCommand gives back every script of characters that EncodeCommand encoded, also those that take
-- two units of UTF-16; base64 is assumed to give back what it encoded.
pub decode_command-encode_command :
    (base64_encode : Bytes → Bytes) (base64_decode : Bytes → Option Bytes)
    → ((b : Bytes) → base64_decode (base64_encode b) ≡ some b)
    → (script : List ℕ) → All IsScalar script
    → decode_command base64_encode base64_decode (encode_command base64_encode base64_decode script)
      ≡ some script
unfolding decode_command encode_command
decode_command-encode_command base64_encode base64_decode inverse script scalars =
    rw (inverse (unit_bytes (utf16_encode script)), byte_units-unit_bytes (utf16_encode script))
      (ap some (utf16_decode-encode script scalars))
