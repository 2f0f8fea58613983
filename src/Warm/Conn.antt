-- ===== src/Warm/Conn.antt =====
-- internal/warm/conn.go and the retry policy of warm.go, on one pooled connection. An executor is a
-- number; what executors do, and the transport's Classifier and Wrapper, are the fields of an `Env`.
use go_adpwsh.Prelude.{
  ℕ, suc, ◌-◌, ◌≡◌, refl, ◌⊎◌, inl, inr, Bool, true, false, ◌||◌, Option, none, some, List, ◌∷◌,
  ltb, if◌then◌else◌,
}
use go_adpwsh.Prelude.Text.{Bytes}
use go_adpwsh.Core.Errors.{Kind, transient, transport, error_of, message}
use go_adpwsh.Core.Envelope.{RunResult}
use go_adpwsh.Core.Exec.{Fault, classified, other}

-- What the pool does to executors, newest first.
pub data Event : Type 0 where
  built : ℕ → Event
  build_failed : Event
  connected : ℕ → Event
  connect_failed : ℕ → Event
  executed : ℕ → Bytes → Event
  closed : ℕ → Event

pub data Execution : Type 0 where
  returned : RunResult → Execution
  faulted : Fault → Execution

pub Execution-cases :
    (x : Execution) → ((r : RunResult) × (x ≡ returned r)) ⊎ ((f : Fault) × (x ≡ faulted f))
Execution-cases (returned r) = inl (r, refl)
Execution-cases (faulted f) = inr (f, refl)

-- What an executor does may depend on everything that happened before. `is_caller_timeout` says
-- whether context.Canceled or context.DeadlineExceeded is in the chain of a fault.
pub record Env : Type 0 where
  pub connect : List Event → ℕ → Option Fault
  pub execute : List Event → ℕ → Bytes → Execution
  pub build : List Event → Bool
  pub map_error : Fault → Fault
  pub dead_shell : Fault → Bool
  pub is_caller_timeout : Fault → Bool
  pub decode_command : Bytes → Option Bytes
  pub wrap : Bytes → Bytes → Bytes

pub record World : Type 0 where
  pub events : List Event
  pub next : ℕ

pub record Conn : Type 0 where
  pub exec : ℕ
  pub up : Bool
  pub last_used : ℕ

-- The result of Run: a result, or an error as a fault.
pub data Reply : Type 0 where
  replied : RunResult → Reply
  refused : Fault → Reply

abbrev pub note : Event → World → World
note e w = record w { events = e ∷ w.events }

-- `if fresh, err := c.build(); err == nil { c.exec = fresh }` and `c.up = false`
unfoldable pub rebuild : Env → Conn → World → Conn × World
rebuild env c w =
    if env.build w.events
    then (
      record c { exec = w.next; up = false },
      record { events = built w.next ∷ w.events; next = suc w.next },
    )
    else (record c { up = false }, note build_failed w)

unfoldable pub invalidate : Env → Conn → World → Conn × World
unfolding rebuild
invalidate env c w = rebuild env c (note (closed c.exec) w)

-- ensureConnected; `none` is success.
unfoldable pub ensure_connected : Env → Conn → World → Option Fault × Conn × World
ensure_connected env c w = if c.up then (none, c, w) else elim (env.connect w.events c.exec) [
  | none ↦ (none, record c { up = true }, note (connected c.exec) w)
  | some f ↦ (
    some (classified (error_of transport "Connect" (message "connect"))),
    c,
    note (connect_failed c.exec) w,
  )
]

abbrev pub to_reply : Env → Execution → Reply
to_reply env (returned r) = replied r
to_reply env (faulted f) = refused (env.map_error f)

unfoldable pub run_once : Env → Conn → Bytes → World → Reply × Conn × World
unfolding ensure_connected
run_once env c wrapped w =
    let (failure, c', w') = ensure_connected env c w in
    elim failure [
      | some f ↦ (refused f, c', w')
      | none ↦ (
        to_reply env (env.execute w'.events c'.exec wrapped),
        c',
        note (executed c'.exec wrapped) w',
      )
    ]

-- `!errors.As(mapped, &ae) || ae.Kind == adpwsh.KindTransient`
abbrev pub is_transient_kind : Kind → Bool
is_transient_kind transient = true
is_transient_kind _ = false

abbrev pub is_left_alone : Fault → Bool
is_left_alone (classified e) = is_transient_kind e.kind
is_left_alone (other m) = true

-- The part of Run below a failed Execute.
unfoldable pub after_fault : Env → Conn → Bytes → Fault → World → Reply × Conn × World
unfolding invalidate run_once
after_fault env c wrapped f w =
    if is_left_alone (env.map_error f) || env.is_caller_timeout f
    then (refused (env.map_error f), c, w)
    else let (c', w') = invalidate env c w in
      if env.dead_shell f then run_once env c' wrapped w' else (refused (env.map_error f), c', w')

-- The part of Run below ensureConnected.
unfoldable pub run_connected : Env → Conn → Bytes → World → Reply × Conn × World
unfolding after_fault
run_connected env c wrapped w = elim (env.execute w.events c.exec wrapped) [
  | returned r ↦ (replied r, c, note (executed c.exec wrapped) w)
  | faulted f ↦ after_fault env c wrapped f (note (executed c.exec wrapped) w)
]

-- Run on the connection that was checked out, up to the deferred return to the pool.
unfoldable pub run_conn : Env → Conn → Bytes → Bytes → World → Reply × Conn × World
unfolding ensure_connected run_connected
run_conn env c command payload w = elim (env.decode_command command) [
  | none ↦ (refused (classified (error_of transport "Run" (message "decode"))), c, w)
  | some script ↦
      let (failure, c', w') = ensure_connected env c w in
      elim failure [
        | some f ↦ (refused f, c', w')
        | none ↦ run_connected env c' (env.wrap script payload) w'
      ]
]

-- reapConnIfIdle at the time `now`; Go's time.Duration comparison on times that do not run back.
unfoldable pub reap_conn_if_idle : Env → ℕ → ℕ → Conn → World → Conn × World
unfolding rebuild
reap_conn_if_idle env reap_after now c w =
    if c.up
    then (if ltb (now - c.last_used) reap_after
        then (c, w)
        else rebuild env c (note (closed c.exec) w))
    else (c, w)
