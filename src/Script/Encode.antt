-- ===== src/Script/Encode.antt =====
-- internal/adscript/encode.go, on the code points of a script, with utf16.Encode and utf16.Decode of
-- Go's standard library. Base64 is a parameter.
pub mod RoundTrip
use go_adpwsh.Prelude.{
  ℕ, ◌+◌, ◌-◌, ◌*◌, ◌/◌, ◌%◌, Bool, ◌&&◌, Option, none, some, List, [], ◌∷◌, ◌++◌, leb, ltb,
  if◌then◌else◌, ◌>>=◌,
}
use go_adpwsh.Prelude.Text.{Bytes}

abbrev pub is_high : ℕ → Bool
is_high u = leb 0xd800 u && ltb u 0xdc00

abbrev pub is_low : ℕ → Bool
is_low u = leb 0xdc00 u && ltb u 0xe000

abbrev pub is_surrogate : ℕ → Bool
is_surrogate u = leb 0xd800 u && ltb u 0xe000

abbrev pub high_of : ℕ → ℕ
high_of c = 0xd800 + (c - 0x10000) / 1024

abbrev pub low_of : ℕ → ℕ
low_of c = 0xdc00 + (c - 0x10000) % 1024

abbrev pub joined : ℕ → ℕ → ℕ
joined u v = (u - 0xd800) * 1024 + (v - 0xdc00) + 0x10000

-- The units of one code point: itself, a pair of surrogates, or U+FFFD for what is not a character.
unfoldable pub units_of : ℕ → List ℕ
units_of c =
    if is_surrogate c
    then 0xfffd ∷ []
    else if ltb c 0x10000
    then c ∷ []
    else if ltb c 0x110000
    then high_of c ∷ low_of c ∷ []
    else 0xfffd ∷ []

-- utf16.Encode
unfoldable pub utf16_encode : List ℕ → List ℕ
unfolding units_of
utf16_encode [] = []
utf16_encode (c ∷ s) = units_of c ++ utf16_encode s

-- A unit that does not begin a pair.
abbrev pub alone : ℕ → ℕ
alone u = if is_surrogate u then 0xfffd else u

-- utf16.Decode
unfoldable pub utf16_decode : List ℕ → List ℕ
utf16_decode [] = []
utf16_decode (u ∷ []) = alone u ∷ []
utf16_decode (u ∷ v ∷ s) =
    let pair = utf16_decode s in
    let rest = utf16_decode (v ∷ s) in
    if is_high u && is_low v then joined u v ∷ pair else alone u ∷ rest

-- binary.LittleEndian.PutUint16 for each unit
unfoldable pub unit_bytes : List ℕ → Bytes
unit_bytes [] = []
unit_bytes (u ∷ us) = (u % 256) ∷ (u / 256) ∷ unit_bytes us

-- binary.LittleEndian.Uint16 for each pair of bytes; an odd number of bytes is an error.
unfoldable pub byte_units : Bytes → Option (List ℕ)
byte_units [] = some []
byte_units (b ∷ []) = none
byte_units (b ∷ c ∷ s) = do us ← byte_units s; some ((b + c * 256) ∷ us)

module _ (base64_encode : Bytes → Bytes) (base64_decode : Bytes → Option Bytes) where
  -- EncodeCommand
  unfoldable pub encode_command : List ℕ → Bytes
  unfolding utf16_encode unit_bytes
  encode_command script = base64_encode (unit_bytes (utf16_encode script))

  -- DecodeCommand
  unfoldable pub decode_command : Bytes → Option (List ℕ)
  unfolding utf16_decode byte_units
  decode_command encoded = do
    buf ← base64_decode encoded
    units ← byte_units buf
    some (utf16_decode units)
