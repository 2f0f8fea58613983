-- ===== src/Winrm/Rotation.antt =====
-- Round robin: the order in which a connect probes the endpoints.
use mathlib.Core.List.{Perm, perm_append_comm}
use native.Mathlib.Nat.{
  mod-add-mod, mod-eq_of_lt, mod_self, mod-lt, le-div_iff_mul-le, div-mul-le_self,
}
use mathlib.Core.List.Perm
use go_adpwsh.Prelude.{
  ℕ, ◌+◌, ◌-◌, ◌%◌, ◌^◌, ◌*◌, ◌/◌, ◌≤◌, ◌<◌, ◌≡◌, List, arith, take, drop, ◌++◌, length,
  take-append-drop, subst, Bool-cases, inl, inr, Option, none, some, leb, not, ◌||◌, if◌then◌else◌,
  ap, ◌==◌, ==_iff,
}
use go_adpwsh.Winrm.Failover.{
  Config, Strategy, strategy_round_robin, is_round_robin, rotation_start, rotate, ordered_endpoints,
  connect_budget, min_connect_budget, max_connect_budget,
}

rotate-perm {ℓ} : {A : Type ℓ} (n : ℕ) (xs : List A) → Perm (rotate n xs) xs
rotate-perm n xs =
    subst (Perm (rotate n xs)) (take-append-drop n xs) (perm_append_comm (drop n xs) (take n xs))

-- Every connect probes the same endpoints, in an order that only rotates the configured list.
pub ordered_endpoints-perm :
    (strategy : Strategy) (rr : Option ℕ) (endpoints : List Config)
    → Perm (ordered_endpoints strategy rr endpoints).0 endpoints
unfolding ordered_endpoints
ordered_endpoints-perm strategy none endpoints = Perm.refl endpoints
ordered_endpoints-perm strategy (some counter) endpoints =
    elim (Bool-cases (not (is_round_robin strategy) || leb (length endpoints) 1)) [
      | inl plain ↦ rw plain (Perm.refl endpoints)
      | inr turn ↦ rw turn (rotate-perm _ endpoints)
    ]

-- The uint64 counter gives an index into the list.
rotation_start-eq : (counter n : ℕ) → counter < 2 ^ 64 → rotation_start counter n ≡ counter % n
unfolding rotation_start
rotation_start-eq counter n h = ap (λ c. c % n) (wrapped counter h)
  where
    wrapped : (c : ℕ) → c < 2 ^ 64 → ((c + 1) % 2 ^ 64 + 2 ^ 64 - 1) % 2 ^ 64 ≡ c
    wrapped c h = omega arith

-- Round robin over two or more endpoints probes them from the one that the pool-wide counter names, by
-- its remainder, to the end of the list and then those in front of it, and moves the counter on, so
-- that the next connect starts one place further; this as long as the counter does not wrap around.
pub ordered_endpoints-rotate :
    (counter : ℕ) (endpoints : List Config)
    → counter + 1 < 2 ^ 64
    → 2 ≤ length endpoints
    → let start = counter % length endpoints in
      (ordered_endpoints strategy_round_robin (some counter) endpoints
        ≡ (drop start endpoints ++ take start endpoints, some (counter + 1)))
      × ((counter + 1) % length endpoints
          ≡ (if start + 1 == length endpoints then 0 else start + 1))
unfolding ordered_endpoints
ordered_endpoints-rotate counter endpoints h two = (first, turn (length endpoints) two)
  where
    small : (counter + 1) % 2 ^ 64 ≡ counter + 1
    small = omega arith

    first : ordered_endpoints strategy_round_robin (some counter) endpoints ≡ (
      drop (counter % length endpoints) endpoints ++ take (counter % length endpoints) endpoints,
      some (counter + 1),
    )
    first = rw (rotation_start-eq counter (length endpoints) (omega arith), small) (ground arith)

    turn :
        (n : ℕ) → 2 ≤ n → (counter + 1) % n ≡ (if counter % n + 1 == n then 0 else counter % n + 1)
    turn n le =
        let lt : counter % n < n = mod-lt counter (omega arith) in
        rw (← mod-add-mod counter n 1) (elim (Bool-cases (counter % n + 1 == n)) [
          | inl last ↦ rw (last, (==_iff (counter % n + 1) n).0 last, mod_self n)
          | inr more ↦ rw (more, mod-eq_of_lt {n = counter % n + 1} {m = n} (ground arith))
        ])

-- With two or more candidates each probe gets between five and fifteen seconds.
pub connect_budget_bounds :
    (total n : ℕ)
    → 2 ≤ n
    → (min_connect_budget ≤ connect_budget total n) × (connect_budget total n ≤ max_connect_budget)
unfolding connect_budget
connect_budget_bounds total n h = (low, high)
  where
    low : min_connect_budget ≤ connect_budget total n
    low = ground arith

    high : connect_budget total n ≤ max_connect_budget
    high = ground arith

-- With two or more candidates and a timeout that allows five seconds for each, the probes together
-- stay within the timeout.
pub connect_budget-share :
    (total n : ℕ) → 2 ≤ n → min_connect_budget * n ≤ total → connect_budget total n * n ≤ total
unfolding connect_budget
connect_budget-share total n h enough =
    let fits : min_connect_budget ≤ total / n = (le-div_iff_mul-le (omega arith)).1 enough in
    let le : connect_budget total n ≤ total / n = ground arith in
    grind (arith, div-mul-le_self total n)
