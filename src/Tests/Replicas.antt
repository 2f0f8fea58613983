-- ===== src/Tests/Replicas.antt =====
-- replication.go with two domain controllers of which one has no answer yet.
use go_adpwsh.Prelude.{
  ℕ, ◌+◌, ◌*◌, ◌≤◌, ◌≢◌, String, Bool, true, false, Option, none, some, List, [], ◌∷◌, All, arith,
  ◌++◌,
}
use go_adpwsh.Prelude.Json.{pos, Value, bool, str, arr, obj, cons, nil, end, member}
use go_adpwsh.Core.Envelope.{sentinel_begin, sentinel_end}
use go_adpwsh.Core.Exec.{Platform, Session, ran}
use go_adpwsh.Client.Replication.{ReplicationConfig, out_of_fuel, replicate, verify}
use go_adpwsh.Client.Waiting.{replicate-ne-out_of_fuel}
use go_adpwsh.Tests.Demo.{demo, client, idle_session}

abbrev config : ReplicationConfig
config = record {
  wait = true;
  targets = "DC1" ∷ "dc2" ∷ [];
  force_sync = false;
  timeout = pos 10;
  poll_interval = pos 5;
}

-- The time slept is all the time that passes.
abbrev total : List ℕ → ℕ
total [] = 0
total (n ∷ ns) = total ns + n

abbrev clock : Session → ℕ
clock s = total s.slept

-- The second target never has the object.
abbrev missing : Value
missing = obj (
    member "ok" (bool true) (
      member "data"
        (obj (
          member "results"
            (arr (cons (obj (member "target" (str "dc2") (member "present" (bool false) end))) nil))
            end))
        end))

abbrev steady : Platform
steady = record demo {
  json = λ b. some missing;
  run = λ cs call.
      ran
        (record { stdout = sentinel_begin ++ b'{' ∷ sentinel_end; stderr = []; exit_code = pos 0 });
}

steady_time :
    (targets : List String) (s : Session) → clock s ≤ clock (verify steady client "g" targets s).1
unfolding verify go_adpwsh.Script.Compose.script_for go_adpwsh.Core.Envelope.parse_envelope
    go_adpwsh.Prelude.Text.index go_adpwsh.Core.Envelope.parse_body go_adpwsh.Prelude.Text.slice
    go_adpwsh.Prelude.Json.lookup_member
steady_time targets s = omega arith

replicate-ne-out_of_fuel_example :
    (replicate steady clock 3 client config "g" idle_session).0 ≢ out_of_fuel
replicate-ne-out_of_fuel_example =
    replicate-ne-out_of_fuel steady clock client config "g" (λ n s. omega arith) steady_time 2
      idle_session (omega arith)
