-- ===== src/Tests/Pools.antt =====
-- internal/warm with a pool of two connections, of which the first executor is dead.
use go_adpwsh.Prelude.{◌≡◌, refl, true, false, none, some, [], ◌∷◌, ◌==◌, if◌then◌else◌}
use go_adpwsh.Prelude.Text.{codes}
use go_adpwsh.Prelude.Json.{pos}
use go_adpwsh.Core.Errors.{transport, error_of, message}
use go_adpwsh.Core.Exec.{classified, other}
use go_adpwsh.Warm.Conn.{Env, World, Conn, returned, faulted, ensure_connected, run_conn, built}
use go_adpwsh.Warm.Pool.{
  Params, Pool, new_pool, close, checkout, finish, Steps, here, next, checks_out, finishes,
}
use go_adpwsh.Warm.Retry.{executions, AtMostTwo, run_conn-AtMostTwo}
use go_adpwsh.Warm.Live.{live}
use go_adpwsh.Warm.NoLeak.{NoLeak, Steps-NoLeak, new_pool-close}

-- Executor 0 is dead; the others answer.
abbrev env : Env
env = record {
  connect = λ es i. none;
  execute = λ es i script.
      if i == 0
      then faulted (other "pipe")
      else returned (record { stdout = []; stderr = []; exit_code = pos 0 });
  build = λ es. true;
  map_error = λ f. classified (error_of transport "Run" (message "broken"));
  dead_shell = λ f. true;
  is_caller_timeout = λ f. false;
  decode_command = λ b. some b;
  wrap = λ script payload. script;
}

abbrev conn : Conn
conn = record { exec = 0; up = false; last_used = 0 }

abbrev world : World
world = record { events = []; next = 1 }

abbrev params : Params
params = record { concurrency = 1; timeout = 60; reap_after = 30 }

abbrev start : Pool
start = record { idle = conn ∷ []; busy = []; world = record { events = built 0 ∷ []; next = 1 } }

abbrev lent : Pool
lent = record { idle = []; busy = conn ∷ []; world = record { events = built 0 ∷ []; next = 1 } }

abbrev returned_pool : Pool
returned_pool = (finish env (codes "c") (codes "p") 40 conn [] lent).1

run_conn-AtMostTwo_example :
    AtMostTwo env
      (ensure_connected env conn world).2.events
      (ensure_connected env conn world).1.exec
      (executions world.events)
      (executions (run_conn env conn (codes "c") (codes "p") world).2.events)
run_conn-AtMostTwo_example = run_conn-AtMostTwo env conn (codes "c") (codes "p") world

-- A Run is lent the connection and returns it.
one_run : Steps env start returned_pool
unfolding checkout
one_run =
    next (next here (checks_out refl)) (finishes (codes "c") (codes "p") 40 [] conn [] refl refl)

Steps-NoLeak_example : NoLeak returned_pool
Steps-NoLeak_example = Steps-NoLeak env one_run (λ i alive. cc)

new_pool-close_example : live 1 (close returned_pool).world.events ≡ false
unfolding new_pool finish
new_pool-close_example = new_pool-close env params start returned_pool refl one_run refl 1
