-- ===== src/Core/Exec.antt =====
-- core.go: exec and its retry loop, backoff, asError. The transport, the scripts, encoding/json and
-- go-adcore are the fields of a `Platform`.
use go_adpwsh.Prelude.{
  ℕ, zero, suc, ◌+◌, ◌-◌, ◌*◌, ◌%◌, ◌^◌, String, Bool, ◌&&◌, ◌||◌, not, Option, none, some, List,
  ◌∷◌, ltb, ◌==◌, if◌then◌else◌, str_eq,
}
use go_adpwsh.Prelude.Text.{Bytes}
use go_adpwsh.Prelude.Json.{ℤ, Value, null, str}
use go_adpwsh.Core.Errors.{
  Kind, unknown, transport, Error, error_of, Result, ok, err, panic, message, bad_payload, bad_data,
  no_script, context_done,
}
use go_adpwsh.Core.Mask.{Payload, dict, leaf, Entries, end, entry, put, mask_payload}
use go_adpwsh.Core.Envelope.{RunResult, parse_envelope}
use go_adpwsh.Script.Compose.{Files, script_for}

-- config.go, Dialect and its String
pub data Dialect : Type 0 where
  dialect_adws dialect_psopenad : Dialect

unfoldable pub dialect_name : Dialect → String
dialect_name dialect_psopenad = "psopenad"
dialect_name dialect_adws = "adws"

-- What reaches the transport: the encoded command and the payload document.
pub record Call : Type 0 where
  pub command : Bytes
  pub body : Bytes

-- An error of Transport.Run: one that carries an *Error, or any other.
pub data Fault : Type 0 where
  classified : Error → Fault
  other : String → Fault

pub data Outcome : Type 0 where
  ran : RunResult → Outcome
  failed : Fault → Outcome

-- The world below `core`. `run` and `done` may depend on every call made so far, newest first:
-- `run` is Transport.Run, and `done` says whether the context ends while the client waits.
pub record Platform : Type 0 where
  pub json : Bytes → Option Value
  pub marshal : Payload → Option Bytes
  pub classify_code : ℤ → Option Kind
  pub retryable : Kind → Bool
  pub files : Files
  pub encode_command : Bytes → Bytes
  pub constrained : Bool
  pub run : List Call → Call → Outcome
  pub done : List Call → Bool

pub record Credential : Type 0 where
  pub username : String
  pub password : String

-- RetryConfig of go-adcore; durations are numbers of nanoseconds.
pub record RetryConfig : Type 0 where
  pub max_attempts : ℕ
  pub initial_backoff : ℕ
  pub max_backoff : ℕ

pub record Core : Type 0 where
  pub server : String
  pub dnc : String
  pub credential : Option Credential
  pub retry : RetryConfig
  pub dialect : Dialect

-- What the program leaves behind: the calls of the transport, the payloads in the log, and the time
-- slept between attempts, each newest first.
pub record Session : Type 0 where
  pub calls : List Call
  pub logged : List Payload
  pub slept : List ℕ

abbrev pub M {ℓ} : Type ℓ → Type ℓ
M A = Session → Result A × Session

-- d := InitialBackoff << (attempt - 1), capped: a time.Duration is an int64, here its bit pattern.
unfoldable pub backoff_delay : RetryConfig → ℕ → ℕ
backoff_delay retry attempt =
    let d = retry.initial_backoff * 2 ^ (attempt - 1) % 2 ^ 64 in
    if ltb d (2 ^ 63) && ltb retry.max_backoff d then retry.max_backoff else d

-- What a timer of that duration waits: nothing if it is negative.
unfoldable pub timer_wait : ℕ → ℕ
timer_wait d = if ltb d (2 ^ 63) then d else 0

abbrev pub sleep : ℕ → Session → Session
sleep n s = record s { slept = n ∷ s.slept }

unfoldable pub is_acl_op : String → Bool
is_acl_op op = str_eq op "acl_read" || str_eq op "acl_grant" || str_eq op "acl_revoke"

unfoldable pub acl_clm_variant : String → String
acl_clm_variant op =
    if str_eq op "acl_read"
    then "acl_read_clm"
    else if str_eq op "acl_grant"
    then "acl_grant_clm"
    else if str_eq op "acl_revoke"
    then "acl_revoke_clm"
    else op

unfoldable pub as_error : String → Fault → Error
as_error op (classified e) = if str_eq e.op "" then record e { op = op } else e
as_error op (other m) = error_of transport op (message m)

-- The value of payload["credential"].
abbrev pub credential_payload : Credential → Payload
credential_payload cred =
    dict (
      entry "username" (leaf (str cred.username)) (entry "password" (leaf (str cred.password)) end))

-- The caller's payload with the operation and the pinned server.
unfoldable pub named_payload : String → String → Entries → Entries
unfolding put
named_payload server op payload =
    let named = put "op" (leaf (str op)) payload in
    if str_eq server "" then named else put "server" (leaf (str server)) named

-- The payload that exec sends: also with the credential.
unfoldable pub full_payload : Core → String → Entries → Entries
unfolding put named_payload
full_payload c op payload = elim c.credential [
  | none ↦ named_payload c.server op payload
  | some cred ↦ put "credential" (credential_payload cred) (named_payload c.server op payload)
]

module _ (p : Platform) where
  unfoldable pub attempt_result : String → Outcome → Result (Option Value)
  unfolding as_error
  attempt_result op (ran r) = parse_envelope p.json p.classify_code op r
  attempt_result op (failed f) = err (as_error op f)

  -- json.Unmarshal(data, out): absent data leaves `out` at its zero value, which is also what a
  -- null document leaves.
  abbrev pub finish {ℓ} : {A : Type ℓ} → (Value → Option A) → String → Option Value → Result A
  finish decode op data' = elim (decode (elim data' [ none ↦ null | some v ↦ v ])) [
    | none ↦ err (error_of transport op bad_data)
    | some a ↦ ok a
  ]

  -- c.backoff
  unfoldable pub backoff : RetryConfig → ℕ → M (Unit {0})
  unfolding backoff_delay timer_wait
  backoff retry attempt s =
      if p.done s.calls
      then (err (error_of transport "" context_done), s)
      else (ok tt, sleep (timer_wait (backoff_delay retry attempt)) s)

  -- The loop of exec. The first number is that of the attempts left.
  unfoldable pub attempts {ℓ} :
      {A : Type ℓ} → RetryConfig → String → Call → (Value → Option A) → ℕ → ℕ → Option Error → M A
  unfolding backoff attempt_result
  attempts retry op call decode zero attempt last s =
      (elim last [ none ↦ finish decode op none | some e ↦ err e ], s)
  attempts retry op call decode (suc left) attempt last s =
      let s' : Session = record s { calls = call ∷ s.calls } in
      elim (attempt_result op (p.run s.calls call)) [
        | ok v ↦ (finish decode op v, s')
        | panic ↦ (panic, s')
        | err e ↦
            if not (p.retryable e.kind) || attempt == retry.max_attempts
            then (err e, s')
            else elim ((backoff retry attempt s').0) [
              | ok u ↦
                  attempts retry op call decode left (attempt + 1) (some e)
                    (backoff retry attempt s').1
              | err stop ↦ (err stop, s')
              | panic ↦ (panic, s')
            ]
      ]

  unfoldable pub exec {ℓ} : {A : Type ℓ} → Core → (Value → Option A) → String → Entries → M A
  unfolding full_payload is_acl_op acl_clm_variant dialect_name attempts
  exec c decode op payload s =
      let full = full_payload c op payload in
      elim (p.marshal (dict full)) [
        | none ↦ (err (error_of unknown op bad_payload), s)
        | some body ↦
            let script_op = if is_acl_op op && p.constrained then acl_clm_variant op else op in
            elim (script_for p.files (dialect_name c.dialect) script_op) [
              | none ↦ (err (error_of unknown op no_script), s)
              | some script ↦
                  let call : Call = record { command = p.encode_command script; body = body } in
                  attempts c.retry op call decode c.retry.max_attempts 1 none
                    (record s { logged = mask_payload (dict full) ∷ s.logged })
            ]
      ]
