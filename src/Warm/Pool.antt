-- ===== src/Warm/Pool.antt =====
-- internal/warm/warm.go and reap.go: the pool. A connection is in the idle channel or held by one
-- Run; `busy` lists those held. Runs interleave in any order with one another and with the reaper.
use go_adpwsh.Prelude.{
  ℕ, zero, suc, ◌/◌, ◌≡◌, false, not, ◌||◌, Option, none, some, List, [], ◌∷◌, ◌++◌, ltb,
  if◌then◌else◌,
}
use go_adpwsh.Prelude.Text.{Bytes}
use go_adpwsh.Warm.Conn.{built, closed, Env, World, Conn, Reply, note, run_conn, reap_conn_if_idle}

-- Params: what New checks. Durations are numbers of nanoseconds.
pub record Params : Type 0 where
  pub concurrency : ℕ
  pub timeout : ℕ
  pub reap_after : ℕ

pub record Pool : Type 0 where
  pub idle : List Conn
  pub busy : List Conn
  pub world : World

-- The loop of New that fills the channel; `none` is a failed Build.
unfoldable pub fill : Env → ℕ → World → Option (List Conn × World)
fill env zero w = some ([], w)
fill env (suc n) w =
    if env.build w.events
    then elim (fill env n (record { events = built w.next ∷ w.events; next = suc w.next })) [
      | none ↦ none
      | some (cs, w') ↦ some (record { exec = w.next; up = false; last_used = 0 } ∷ cs, w')
    ]
    else none

-- New; `none` is an error.
unfoldable pub new_pool : Env → Params → Option Pool
unfolding fill
new_pool env p =
    if not (ltb 0 p.concurrency) || (not (ltb 0 p.timeout) || not (ltb 0 p.reap_after))
    then none
    else elim (fill env p.concurrency (record { events = []; next = 0 })) [
      | none ↦ none
      | some (cs, w) ↦ some (record { idle = cs; busy = []; world = w })
    ]

-- reapInterval, in nanoseconds
unfoldable pub reap_interval : ℕ → ℕ
reap_interval reap_after =
    let iv = reap_after / 4 in if ltb iv 1_000_000_000 then 1_000_000_000 else iv

-- `case c = <-t.idle`
unfoldable pub checkout : Pool → Option Pool
checkout p = elim p.idle [
  | [] ↦ none
  | c ∷ rest ↦ some (record p { idle = rest; busy = c ∷ p.busy })
]

-- The rest of the Run that holds the connection in front of `busy`, with its deferred return.
unfoldable pub finish : Env → Bytes → Bytes → ℕ → Conn → List Conn → Pool → Reply × Pool
unfolding run_conn
finish env command payload now c others p =
    let (reply, c', w) = run_conn env c command payload p.world in
    (
      reply,
      record p { idle = p.idle ++ record c' { last_used = now } ∷ []; busy = others; world = w },
    )

-- reapIdle with the snapshot n of the number of idle connections
unfoldable pub reap_idle : Env → ℕ → ℕ → ℕ → Pool → Pool
unfolding reap_conn_if_idle
reap_idle env reap_after now zero p = p
reap_idle env reap_after now (suc n) p = elim p.idle [
  | [] ↦ p
  | c ∷ rest ↦ reap_idle env reap_after now n (record p {
    idle = rest ++ (reap_conn_if_idle env reap_after now c p.world).0 ∷ [];
    world = (reap_conn_if_idle env reap_after now c p.world).1;
  })
]

-- The loop of Close over the connections that it takes out of the channel.
unfoldable pub close_all : List Conn → World → World
close_all [] w = w
close_all (c ∷ cs) w = close_all cs (if c.up then note (closed c.exec) w else w)

-- Close, when no Run is in flight: every connection is idle.
unfoldable pub close : Pool → Pool
unfolding close_all
close p = record p { idle = []; world = close_all p.idle p.world }

-- What can happen to a pool. A Run that returns is any of those that hold a connection.
pub data Step (env : Env) (p : Pool) : Pool → Type 0 where
  checks_out : {q : Pool} → checkout p ≡ some q → Step env p q
  finishes :
      (command payload : Bytes) (now : ℕ) (before : List Conn) (c : Conn) (after : List Conn)
      {q : Pool}
      → p.busy ≡ before ++ c ∷ after
      → (finish env command payload now c (before ++ after) p).1 ≡ q
      → Step env p q
  sweeps : (reap_after now n : ℕ) {q : Pool} → reap_idle env reap_after now n p ≡ q → Step env p q

pub data Steps (env : Env) (p : Pool) : Pool → Type 0 where
  here : Steps env p p
  next : {q r : Pool} → Steps env p q → Step env q r → Steps env p r
