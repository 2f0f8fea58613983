-- ===== src/Winrm/Defaults.antt =====
-- What the defaults and the validation of the WinRM settings guarantee.
use go_adpwsh.Prelude.{
  ℕ, ◌+◌, ◌≤◌, ◌≡◌, ◌≢◌, refl, String, Bool, true, false, none, List, [], ◌∷◌, if◌then◌else◌,
  str_eq, eq_iff, map, arith, All, Bool-cases, Option-cases, inl, inr, ◌==◌, ltb, List-cases,
}
use go_adpwsh.Prelude.Json.{ℤ, pos, negsuc}
use go_adpwsh.Winrm.Settings.{
  Endpoint, Settings, is_zero_int, or_default, second, floor_second, default_port,
  default_idle_timeout, with_defaults, resolve_endpoint, resolved_endpoints, find_empty,
  validate_hosts, validate,
}

abbrev pub IsAtLeast : ℕ → ℤ → Type 0
IsAtLeast m (pos n) = m ≤ n
IsAtLeast m (negsuc n) = 1 ≤ 0

-- What the pool and the WSMan client rely on: a port, positive limits, and a lease of the shell that
-- does not round down to none.
abbrev pub IsReady : Settings → Type 0
IsReady c =
    (is_zero_int c.port ≡ false)
    × (c.configuration_name ≢ "")
    × IsAtLeast 1 c.concurrency
    × IsAtLeast 1 c.timeout
    × IsAtLeast second c.idle_timeout
    × IsAtLeast 1 c.reap_after

if_ind {ℓ} :
    {A : Type ℓ} (P : A → Type 0) (b : Bool) (x y : A)
    → (b ≡ true → P x)
    → (b ≡ false → P y)
    → P (if b then x else y)
if_ind P true x y f g = f refl
if_ind P false x y f g = g refl

default_port-nonzero : (tls : Bool) (port : ℤ) → is_zero_int (default_port tls port) ≡ false
unfolding default_port
default_port-nonzero true port =
    if_ind (λ n. is_zero_int n ≡ false) (is_zero_int port) (pos 5986) port (λ e. refl) (λ e. e)
default_port-nonzero false port =
    if_ind (λ n. is_zero_int n ≡ false) (is_zero_int port) (pos 5985) port (λ e. refl) (λ e. e)

or_default-IsAtLeast : (d : ℕ) (n : ℤ) → 1 ≤ d → IsAtLeast 1 (or_default d n)
or_default-IsAtLeast d (pos n) h =
    if_ind (IsAtLeast 1) (n == 0) (pos d) (pos n) (λ e. h) (λ e. ground arith)
or_default-IsAtLeast d (negsuc n) h = h

default_idle_timeout-IsAtLeast : (n : ℤ) → IsAtLeast second (default_idle_timeout n)
unfolding default_idle_timeout
default_idle_timeout-IsAtLeast (pos n) =
    if_ind (IsAtLeast second) (n == 0) (pos 120_000_000_000) (floor_second (pos n))
      (λ e. omega arith)
      (λ e.
        if_ind (IsAtLeast second) (ltb n second) (pos second) (pos n) (λ f. omega arith)
          (λ f. ground arith))
default_idle_timeout-IsAtLeast (negsuc n) = omega arith

named : (name : String) → (if str_eq name "" then "PowerShell.7" else name) ≢ ""
named name =
    if_ind (λ s. s ≢ "") (str_eq name "") "PowerShell.7" name (λ e q. cc)
      (λ e q. let hit = (eq_iff name "").1 q in cc)

with_defaults-IsReady : (c : Settings) → IsReady (with_defaults c)
unfolding with_defaults
with_defaults-IsReady c = (
  default_port-nonzero c.use_tls c.port,
  named c.configuration_name,
  or_default-IsAtLeast 4 c.concurrency (omega arith),
  or_default-IsAtLeast 60_000_000_000 c.timeout (omega arith),
  default_idle_timeout-IsAtLeast c.idle_timeout,
  or_default-IsAtLeast 30_000_000_000 c.reap_after (omega arith),
)

-- A host of its own, and ready.
abbrev pub IsReachable : Settings → Type 0
IsReachable c = (c.host ≢ "") × IsReady c

find_empty-none :
    (c : Settings) (i : ℕ) (eps : List Endpoint)
    → find_empty i eps ≡ none
    → All IsReachable (map (resolve_endpoint c) eps)
unfolding find_empty resolve_endpoint
find_empty-none c i [] h = tt
find_empty-none c i (ep ∷ eps) h = elim (Bool-cases (str_eq ep.host "")) [
  | inl empty ↦ absurd (ground (arith, h, empty))
  | inr full ↦ (
    (
      λ q. let hit = (eq_iff ep.host "").1 q in cc,
      with_defaults-IsReady (record c {
        endpoints = [];
        host = ep.host;
        port = if is_zero_int ep.port then c.port else ep.port;
        spn = ep.spn;
      }),
    ),
    find_empty-none c (1 + i) eps (ground (arith, h, full)),
  )
]

hosts : (c : Settings) → validate c ≡ none → validate_hosts c ≡ none
unfolding validate
hosts c h = elim (Option-cases (validate_hosts c)) [
  | inl fine ↦ fine
  | inr (e, bad) ↦ ground (arith, h, bad)
]

single_host : (c : Settings) → c.endpoints ≡ [] → validate_hosts c ≡ none → c.host ≢ ""
unfolding validate_hosts
single_host c single h q =
    let hit = (eq_iff c.host "").1 q in
    let h' = rw (single, validate_hosts) at h in ground (arith, hit, h')

several_hosts :
    (c : Settings) (ep : Endpoint) (eps : List Endpoint)
    → c.endpoints ≡ ep ∷ eps
    → validate_hosts c ≡ none
    → find_empty 0 (ep ∷ eps) ≡ none
unfolding validate_hosts
several_hosts c ep eps several h =
    let h' = rw (several, validate_hosts) at h in
    elim (Option-cases (find_empty 0 (ep ∷ eps))) [
      | inl fine ↦ fine
      | inr (i, bad) ↦ ground (arith, h', bad)
    ]

-- Settings that Validate accepts resolve to endpoints that each have a host, a port, a configuration
-- name, at least one connection, positive timeouts, and a shell lease of at least one second.
pub resolved_endpoints-IsReachable :
    (c : Settings) → validate c ≡ none → All IsReachable (resolved_endpoints c)
unfolding resolved_endpoints with_defaults
resolved_endpoints-IsReachable c h = elim (List-cases c.endpoints) [
  | inl single ↦
      let h' : validate_hosts c ≡ none = hosts c h in
      rw (single, resolved_endpoints) ((single_host c single h', with_defaults-IsReady c), tt)
  | inr (ep, eps, several) ↦
      let h' : validate_hosts c ≡ none = hosts c h in
      rw (several, resolved_endpoints)
        (find_empty-none c 0 (ep ∷ eps) (several_hosts c ep eps several h'))
]
