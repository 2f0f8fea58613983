-- ===== src/Tests/Endpoints.antt =====
-- transport/winrm/failover.go on a list of two endpoints.
use go_adpwsh.Prelude.{
  ◌+◌, ◌%◌, ◌≡◌, ◌≢◌, some, none, List, [], ◌∷◌, ◌++◌, take, drop, length, arith, if◌then◌else◌,
  ◌==◌, str_eq, All, false, true, refl,
}
use go_adpwsh.Winrm.Failover.{
  Config, Network, unreachable, bound, strategy_round_robin, ordered_endpoints, candidates, connect,
}
use go_adpwsh.Winrm.Rotation.{ordered_endpoints-rotate}
use go_adpwsh.Prelude.Json.{pos}
use go_adpwsh.Winrm.Failover.{strategy_failover}
use go_adpwsh.Winrm.Settings.{Settings, resolved_endpoints, validate}
use go_adpwsh.Winrm.Defaults.{IsReachable, resolved_endpoints-IsReachable}
use go_adpwsh.Winrm.Probing.{Outcome, connect-Outcome, connect-probed}

abbrev first_host : Config
first_host = record { host = "a"; timeout = 60_000_000_000 }

abbrev second_host : Config
second_host = record { host = "b"; timeout = 60_000_000_000 }

abbrev both : List Config
both = first_host ∷ second_host ∷ []

-- The first endpoint does not answer.
abbrev net : Network
net = record {
  probe = λ seen ep budget. if str_eq ep.host "a" then unreachable "refused" else bound;
  now = λ seen. 100 + length seen;
}

ordered_endpoints-rotate_example :
    (ordered_endpoints strategy_round_robin (some 5) both
      ≡ (drop (5 % 2) both ++ take (5 % 2) both, some (5 + 1)))
    × ((5 + 1) % 2 ≡ (if 5 % 2 + 1 == 2 then 0 else 5 % 2 + 1))
ordered_endpoints-rotate_example = ordered_endpoints-rotate 5 both (omega arith) (omega arith)

connect-Outcome_example :
    Outcome net
      (length (candidates none 100 (ordered_endpoints strategy_round_robin (some 0) both).0))
      (candidates none 100 (ordered_endpoints strategy_round_robin (some 0) both).0)
      []
      (connect net strategy_round_robin (some 0) both none)
connect-Outcome_example = connect-Outcome net strategy_round_robin (some 0) both none

connect-probed_example :
    (connect net strategy_round_robin (some 0) both (some (("a", 200) ∷ ("b", 200) ∷ []))).probed
    ≢ []
connect-probed_example =
    connect-probed net strategy_round_robin (some 0) both (some (("a", 200) ∷ ("b", 200) ∷ []))
      (λ e. cc)

-- Two hosts, and no other setting.
abbrev settings : Settings
settings = record {
  host = "";
  port = pos 0;
  spn = "";
  use_tls = true;
  insecure_skip_verify = false;
  configuration_name = "";
  language_mode = "full";
  concurrency = pos 0;
  timeout = pos 0;
  idle_timeout = pos 3;
  reap_after = pos 0;
  endpoints =
      record { host = "a"; port = pos 0; spn = "" }
      ∷ record { host = "b"; port = pos 1; spn = "s" }
      ∷ [];
  strategy = strategy_failover;
}

resolved_endpoints-IsReachable_example : All IsReachable (resolved_endpoints settings)
unfolding validate
resolved_endpoints-IsReachable_example = resolved_endpoints-IsReachable settings refl
