-- ===== src/Core/Envelope.antt =====
-- envelope.go: from the raw outcome of one pwsh process to the data of the operation or a
-- classified error. The JSON decoder (`json`) and adcore.ClassifyCode are parameters.
use go_adpwsh.Prelude.{
  ℕ, ◌+◌, String, Bool, false, Option, none, some, [], ◌∷◌, ◌++◌, leb, ltb, ◌==◌, if◌then◌else◌,
  str_eq, length, take, ◌>>=◌,
}
use go_adpwsh.Prelude.Text.{Bytes, codes, index, slice, trim_space}
use go_adpwsh.Prelude.Json.{ℤ, pos, negsuc, Value, null, obj, lookup_member}
use go_adpwsh.Core.Errors.{
  Kind, transport, Error, error_of, Result, ok, err, panic, exited, no_envelope, bad_envelope,
  no_detail, nothing, classify,
}
use go_adpwsh.Core.Decode.{as_str, as_bool, as_int_ptr, as_members}

-- transport.go, Result
pub record RunResult : Type 0 where
  pub stdout : Bytes
  pub stderr : Bytes
  pub exit_code : ℤ

abbrev pub sentinel_begin : Bytes
sentinel_begin = codes "<<<TFAD:BEGIN>>>"

abbrev pub sentinel_end : Bytes
sentinel_end = codes "<<<TFAD:END>>>"

pub record EnvelopeError : Type 0 where
  pub exception_type : String
  pub message : String
  pub category : String
  pub target_name : String
  pub fqid : String
  pub error_code : Option ℤ
  pub server_error_message : String

pub record Envelope : Type 0 where
  pub succeeded : Bool
  pub payload : Option Value
  pub failure : Option EnvelopeError

unfoldable pub decode_envelope_error : Option Value → Option (Option EnvelopeError)
decode_envelope_error none = some none
decode_envelope_error (some null) = some none
decode_envelope_error (some (obj m)) = do
  exception_type ← as_str (lookup_member "type" m)
  message ← as_str (lookup_member "message" m)
  category ← as_str (lookup_member "category" m)
  target_name ← as_str (lookup_member "targetName" m)
  fqid ← as_str (lookup_member "fqid" m)
  error_code ← as_int_ptr (lookup_member "errorCode" m)
  server_error_message ← as_str (lookup_member "serverErrorMessage" m)
  some (
      some (record {
        exception_type = exception_type;
        message = message;
        category = category;
        target_name = target_name;
        fqid = fqid;
        error_code = error_code;
        server_error_message = server_error_message;
      }))
decode_envelope_error (some _) = none

unfoldable pub decode_envelope : Value → Option Envelope
unfolding decode_envelope_error
decode_envelope v = do
  m ← as_members v
  succeeded ← as_bool (lookup_member "ok" m)
  failure ← decode_envelope_error (lookup_member "error" m)
  some (record { succeeded = succeeded; payload = lookup_member "data" m; failure = failure })

unfoldable pub truncate : Bytes → ℕ → Bytes
truncate s n = if leb (length s) n then s else take n s ++ 0xe2 ∷ 0x80 ∷ 0xa6 ∷ []

abbrev pub is_zero : ℤ → Bool
is_zero (pos n) = n == 0
is_zero (negsuc n) = false

module _ (json : Bytes → Option Value) (classify_code : ℤ → Option Kind) where
  -- the part of ParseEnvelope below `e.Error == nil`
  unfoldable pub refuse : String → EnvelopeError → Error
  unfolding classify
  refuse op e =
      let code : ℤ = elim e.error_code [ none ↦ pos 0 | some c ↦ c ] in
      let message =
        if str_eq e.server_error_message "" then e.message else e.server_error_message in
      record {
        kind = classify classify_code e.exception_type code;
        op = op;
        identity = "";
        exception_type = e.exception_type;
        error_code = code;
        server_message = message;
        fqid = e.fqid;
        target = e.target_name;
        tombstoned = false;
        cause = nothing;
      }

  unfoldable pub read_envelope : String → Envelope → Result (Option Value)
  unfolding refuse
  read_envelope op e = if e.succeeded then ok e.payload else elim e.failure [
    | none ↦ err (error_of transport op no_detail)
    | some failure ↦ err (refuse op failure)
  ]

  -- the part of ParseEnvelope below the search for the sentinels; `none` is a slice out of range
  unfoldable pub parse_body : String → Option Bytes → Result (Option Value)
  unfolding read_envelope decode_envelope
  parse_body op none = panic
  parse_body op (some text) =
      let body = trim_space text in
      elim (json body) [
        | none ↦ err (error_of transport op (bad_envelope (truncate body 512)))
        | some v ↦ elim (decode_envelope v) [
          | none ↦ err (error_of transport op (bad_envelope (truncate body 512)))
          | some e ↦ read_envelope op e
        ]
      ]

  missing : String → RunResult → Result (Option Value)
  missing op r = err (
      error_of transport op
        (no_envelope (truncate r.stdout 512) (truncate (trim_space r.stderr) 512)))

  unfoldable pub between : String → RunResult → Option ℕ → Option ℕ → Result (Option Value)
  unfolding missing
  between op r none _ = missing op r
  between op r (some b) none = missing op r
  between op r (some b) (some e) =
      if ltb e b then missing op r else parse_body op (slice r.stdout (b + length sentinel_begin) e)

  unfoldable pub parse_envelope : String → RunResult → Result (Option Value)
  unfolding between
  parse_envelope op r =
      if is_zero r.exit_code
      then between op r (index r.stdout sentinel_begin) (index r.stdout sentinel_end)
      else err (error_of transport op (exited r.exit_code (trim_space r.stderr)))
