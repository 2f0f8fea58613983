-- ===== src/Winrm/Settings.antt =====
-- transport/winrm/config.go: the settings of the transport, their defaults, their validation and the
-- endpoints they resolve to. Fields that none of these functions reads (credentials, Kerberos and
-- certificate files, PwshPath) are left out; a Go int or time.Duration is a ℤ.
use Prim.Native.String.{◌++◌ as str_append}
use go_adpwsh.Prelude.{
  ℕ, ◌+◌, String, Bool, true, false, ◌||◌, ◌&&◌, not, Option, none, some, List, [], ◌∷◌,
  if◌then◌else◌, str_eq, ltb, map, ◌==◌,
}
use go_adpwsh.Prelude.Json.{ℤ, pos, negsuc}
use go_adpwsh.Winrm.Failover.{Strategy}

pub record Endpoint : Type 0 where
  pub host : String
  pub port : ℤ
  pub spn : String

-- Config
pub record Settings : Type 0 where
  pub host : String
  pub port : ℤ
  pub spn : String
  pub use_tls : Bool
  pub insecure_skip_verify : Bool
  pub configuration_name : String
  pub language_mode : String
  pub concurrency : ℤ
  pub timeout : ℤ
  pub idle_timeout : ℤ
  pub reap_after : ℤ
  pub endpoints : List Endpoint
  pub strategy : Strategy

abbrev pub is_zero_int : ℤ → Bool
is_zero_int (pos n) = n == 0
is_zero_int (negsuc n) = false

abbrev pub is_negative : ℤ → Bool
is_negative (pos n) = false
is_negative (negsuc n) = true

-- `if d <= 0 { d = default }`
abbrev pub or_default : ℕ → ℤ → ℤ
or_default default (pos n) = if n == 0 then pos default else pos n
or_default default (negsuc n) = pos default

abbrev pub second : ℕ
second = 1_000_000_000

-- `if d < time.Second { d = time.Second }`, on a positive duration
abbrev pub floor_second : ℤ → ℤ
floor_second (pos n) = if ltb n second then pos second else pos n
floor_second (negsuc n) = pos second

unfoldable pub default_port : Bool → ℤ → ℤ
default_port use_tls port =
    if is_zero_int port then (if use_tls then pos 5986 else pos 5985) else port

unfoldable pub default_spn : String → String → String
default_spn host spn =
    if str_eq spn "" && not (str_eq host "") then str_append "HTTP/" host else spn

-- The default of two minutes, and the floor of one second, for IdleTimeout.
unfoldable pub default_idle_timeout : ℤ → ℤ
default_idle_timeout (pos n) = if n == 0 then pos 120_000_000_000 else floor_second (pos n)
default_idle_timeout (negsuc n) = pos 120_000_000_000

unfoldable pub with_defaults : Settings → Settings
unfolding default_port default_spn default_idle_timeout
with_defaults c = record c {
  port = default_port c.use_tls c.port;
  spn = default_spn c.host c.spn;
  configuration_name =
      if str_eq c.configuration_name "" then "PowerShell.7" else c.configuration_name;
  concurrency = or_default 4 c.concurrency;
  timeout = or_default 60_000_000_000 c.timeout;
  idle_timeout = default_idle_timeout c.idle_timeout;
  reap_after = or_default 30_000_000_000 c.reap_after;
}

-- One round of the loop of resolvedEndpoints.
unfoldable pub resolve_endpoint : Settings → Endpoint → Settings
unfolding with_defaults
resolve_endpoint c ep = with_defaults (record c {
  endpoints = [];
  host = ep.host;
  port = if is_zero_int ep.port then c.port else ep.port;
  spn = ep.spn;
})

unfoldable pub resolved_endpoints : Settings → List Settings
unfolding resolve_endpoint
resolved_endpoints c = elim c.endpoints [
  | [] ↦ with_defaults c ∷ []
  | ep ∷ eps ↦ map (resolve_endpoint c) (ep ∷ eps)
]

pub data Invalid : Type 0 where
  no_host host_and_endpoints skip_verify_without_tls : Invalid
  empty_endpoint : ℕ → Invalid
  negative_concurrency negative_timeout negative_idle_timeout negative_reap_after : Invalid
  bad_language_mode : String → Invalid

-- The first endpoint without a host.
unfoldable pub find_empty : ℕ → List Endpoint → Option ℕ
find_empty i [] = none
find_empty i (ep ∷ eps) = if str_eq ep.host "" then some i else find_empty (1 + i) eps

unfoldable pub validate_hosts : Settings → Option Invalid
unfolding find_empty
validate_hosts c = elim c.endpoints [
  | [] ↦ if str_eq c.host "" then some no_host else none
  | ep ∷ eps ↦
      if not (str_eq c.host "")
      then some host_and_endpoints
      else elim (find_empty 0 (ep ∷ eps)) [ none ↦ none | some i ↦ some (empty_endpoint i) ]
]

unfoldable pub validate_limits : Settings → Option Invalid
validate_limits c =
    if c.insecure_skip_verify && not c.use_tls
    then some skip_verify_without_tls
    else if is_negative c.concurrency
    then some negative_concurrency
    else if is_negative c.timeout
    then some negative_timeout
    else if is_negative c.idle_timeout
    then some negative_idle_timeout
    else if is_negative c.reap_after
    then some negative_reap_after
    else if str_eq c.language_mode ""
        || (str_eq c.language_mode "full" || str_eq c.language_mode "constrained")
    then none
    else some (bad_language_mode c.language_mode)

-- Validate; `none` is success.
unfoldable pub validate : Settings → Option Invalid
unfolding validate_hosts validate_limits
validate c = elim (validate_hosts c) [ some e ↦ some e | none ↦ validate_limits c ]

-- Constrained
unfoldable pub constrained : Settings → Bool
constrained c = str_eq c.language_mode "constrained"
