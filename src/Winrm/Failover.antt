-- ===== src/Winrm/Failover.antt =====
-- transport/winrm/failover.go: the negative cache, the order of the endpoints and Connect.
use go_adpwsh.Prelude.{
  ℕ, ◌+◌, ◌-◌, ◌/◌, ◌%◌, ◌^◌, String, Bool, true, false, ◌||◌, not, Option, none, some, List, [],
  ◌∷◌, ◌++◌, ltb, leb, if◌then◌else◌, str_eq, take, drop, length,
}

-- The fields of Config that the choice reads; durations are numbers of nanoseconds.
pub record Config : Type 0 where
  pub host : String
  pub timeout : ℕ

-- negativeCache.downUntil; `none` is the nil cache.
abbrev pub Cache : Type 0
Cache = Option (List (String × ℕ))

-- negativeCacheCooldown, 5 minutes
abbrev pub cooldown : ℕ
cooldown = 300_000_000_000

abbrev pub min_connect_budget : ℕ
min_connect_budget = 5_000_000_000

abbrev pub max_connect_budget : ℕ
max_connect_budget = 15_000_000_000

unfoldable pub down_until : String → List (String × ℕ) → Option ℕ
down_until host [] = none
down_until host ((h, t) ∷ rest) = if str_eq h host then some t else down_until host rest

unfoldable pub is_down : Cache → ℕ → String → Bool
unfolding down_until
is_down none now host = false
is_down (some m) now host = elim (down_until host m) [ none ↦ false | some t ↦ ltb now t ]

-- delete(c.downUntil, host)
unfoldable pub delete : String → List (String × ℕ) → List (String × ℕ)
delete host [] = []
delete host ((h, t) ∷ rest) =
    let kept = delete host rest in if str_eq h host then kept else (h, t) ∷ kept

unfoldable pub mark_down : ℕ → String → Cache → Cache
unfolding delete
mark_down now host none = none
mark_down now host (some m) = some ((host, now + cooldown) ∷ delete host m)

unfoldable pub clear : String → Cache → Cache
unfolding delete
clear host none = none
clear host (some m) = some (delete host m)

pub data Strategy : Type 0 where
  strategy_failover strategy_round_robin : Strategy

abbrev pub is_round_robin : Strategy → Bool
is_round_robin strategy_round_robin = true
is_round_robin strategy_failover = false

-- (atomic.AddUint64(e.rr, 1) - 1) % uint64(n), and the new value of the counter
unfoldable pub rotation_start : ℕ → ℕ → ℕ
rotation_start counter n = ((counter + 1) % 2 ^ 64 + 2 ^ 64 - 1) % 2 ^ 64 % n

abbrev pub rotate {ℓ} : {A : Type ℓ} → ℕ → List A → List A
rotate start xs = drop start xs ++ take start xs

-- orderedEndpoints; the counter is `none` where the pointer is nil.
unfoldable pub ordered_endpoints : Strategy → Option ℕ → List Config → List Config × Option ℕ
unfolding rotation_start
ordered_endpoints strategy none endpoints = (endpoints, none)
ordered_endpoints strategy (some counter) endpoints =
    if not (is_round_robin strategy) || leb (length endpoints) 1
    then (endpoints, some counter)
    else (
      rotate (rotation_start counter (length endpoints)) endpoints,
      some ((counter + 1) % 2 ^ 64),
    )

-- connectBudget
unfoldable pub connect_budget : ℕ → ℕ → ℕ
connect_budget total n =
    if leb n 1
    then total
    else let b = total / n in
      let b = if ltb max_connect_budget b then max_connect_budget else b in
      if ltb b min_connect_budget then min_connect_budget else b

-- What newExec and the executor's Connect within a budget come to.
pub data Probe : Type 0 where
  unbuildable : String → Probe
  unreachable : String → Probe
  bound : Probe

-- The answer of an endpoint within a budget, and the clock, may depend on the endpoints probed so
-- far, newest first.
pub record Network : Type 0 where
  pub probe : List Config → Config → ℕ → Probe
  pub now : List Config → ℕ

-- What Connect leaves behind: the endpoint bound or the error, the cache, the endpoints probed.
pub record Connected : Type 0 where
  pub active : Option Config
  pub errors : List (String × String)
  pub cache : Cache
  pub probed : List Config

-- The endpoints that are not cooling down.
unfoldable pub not_down : Cache → ℕ → List Config → List Config
unfolding is_down
not_down cache now [] = []
not_down cache now (ep ∷ eps) =
    let rest = not_down cache now eps in if is_down cache now ep.host then rest else ep ∷ rest

unfoldable pub candidates : Cache → ℕ → List Config → List Config
unfolding not_down
candidates cache now ordered = elim (not_down cache now ordered) [
  | [] ↦ ordered
  | ep ∷ eps ↦ ep ∷ eps
]

module _ (net : Network) where
  -- What a failed probe leaves behind.
  abbrev pub after_failure : Connected → Config → String → Connected
  after_failure s ep m = record s {
    errors = s.errors ++ (ep.host, m) ∷ [];
    cache = mark_down (net.now (ep ∷ s.probed)) ep.host s.cache;
    probed = ep ∷ s.probed;
  }

  -- The loop of Connect over the candidates, of which there are `n`.
  unfoldable pub probe_all : ℕ → List Config → Connected → Connected
  unfolding mark_down clear connect_budget
  probe_all n [] s = s
  probe_all n (ep ∷ eps) s = elim (net.probe s.probed ep (connect_budget ep.timeout n)) [
    | unbuildable m ↦ probe_all n eps (after_failure s ep m)
    | unreachable m ↦ probe_all n eps (after_failure s ep m)
    | bound ↦ record s { active = some ep; cache = clear ep.host s.cache; probed = ep ∷ s.probed }
  ]

  -- Connect, on an executor that is not bound.
  unfoldable pub connect : Strategy → Option ℕ → List Config → Cache → Connected
  unfolding ordered_endpoints candidates probe_all
  connect strategy rr endpoints cache =
      let eps = candidates cache (net.now []) (ordered_endpoints strategy rr endpoints).0 in
      probe_all (length eps) eps (record { active = none; errors = []; cache = cache; probed = [] })
