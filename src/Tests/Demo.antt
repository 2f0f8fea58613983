-- ===== src/Tests/Demo.antt =====
-- A small world for the tests: a directory that answers the second call.
use go_adpwsh.Prelude.{
  ℕ, Bool, true, false, none, some, List, [], ◌∷◌, ◌++◌, ◌||◌, ◌==◌, ◌≡◌, ◌≢◌, All, arith,
}
use go_adpwsh.Prelude.Text.{Bytes}
use go_adpwsh.Prelude.Json.{pos, Value, bool, str, obj, end, member}
use go_adpwsh.Core.Errors.{Kind, transient, error_of, message}
use go_adpwsh.Core.Envelope.{sentinel_begin, sentinel_end}
use go_adpwsh.Core.Exec.{
  Platform, Core, RetryConfig, Session, Call, Outcome, ran, failed, classified, dialect_adws,
}

abbrev pub is_transient : Kind → Bool
is_transient transient = true
is_transient _ = false

-- {"ok": true, "data": {"resolved": {"x": "1"}}}
abbrev pub reply : Value
reply = obj (
    member "ok" (bool true)
      (member "data" (obj (member "resolved" (obj (member "x" (str "1") end)) end)) end))

-- The first call fails with a transient error, each later one prints an envelope.
abbrev pub answer_second : List Call → Call → Outcome
answer_second [] call = failed (classified (error_of transient "" (message "server down")))
answer_second (c ∷ cs) call =
    ran (record { stdout = sentinel_begin ++ b'{' ∷ sentinel_end; stderr = []; exit_code = pos 0 })

abbrev pub demo : Platform
demo = record {
  json = λ b. some reply;
  marshal = λ v. some [];
  classify_code = λ code. none;
  retryable = is_transient;
  files = λ dir name. some [];
  encode_command = λ b. b;
  constrained = false;
  run = answer_second;
  done = λ cs. false;
}

abbrev pub three_attempts : RetryConfig
three_attempts = record { max_attempts = 3; initial_backoff = 500; max_backoff = 1_500 }

abbrev pub client : Core
client = record {
  server = "dc1";
  dnc = "DC=x";
  credential = none;
  retry = three_attempts;
  dialect = dialect_adws;
}

abbrev pub idle_session : Session
idle_session = record { calls = []; logged = []; slept = [] }

abbrev pub a_call : Call
a_call = record { command = b'c' ∷ []; body = b'{' ∷ [] }

abbrev pub has_byte : ℕ → Bytes → Bool
has_byte c [] = false
has_byte c (x ∷ s) = x == c || has_byte c s

pub All-has_byte : (c : ℕ) (s : Bytes) → has_byte c s ≡ false → All (λ x. x ≢ c) s
All-has_byte c [] h = tt
All-has_byte c (x ∷ s) h = (ground arith, All-has_byte c s (ground (arith, h)))

-- The data of the reply.
abbrev pub payload : Value
payload = obj (member "resolved" (obj (member "x" (str "1") end)) end)
