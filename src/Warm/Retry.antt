-- ===== src/Warm/Retry.antt =====
-- How often one Run executes a script.
use go_adpwsh.Prelude.{
  ℕ, ◌+◌, ◌≤◌, ◌≡◌, ◌⊎◌, inl, inr, true, false, ◌||◌, List, [], ◌∷◌, arith, Bool-cases,
  Option-cases, subst,
}
use go_adpwsh.Prelude.Text.{Bytes}
use go_adpwsh.Core.Exec.{Fault}
use go_adpwsh.Warm.Conn.{
  Event, executed, faulted, Execution-cases, Env, World, Conn, invalidate, ensure_connected,
  run_once, is_left_alone, after_fault, run_connected, run_conn, note,
}

abbrev pub count_event : Event → ℕ
count_event (executed i s) = 1
count_event _ = 0

-- The number of scripts that were executed.
abbrev pub executions : List Event → ℕ
executions [] = 0
executions (e ∷ es) = count_event e + executions es

module _ (env : Env) where
  executions-ensure_connected :
      (c : Conn) (w : World) → executions (ensure_connected env c w).2.events ≡ executions w.events
  unfolding ensure_connected
  executions-ensure_connected c w = ground arith

  executions-invalidate :
      (c : Conn) (w : World) → executions (invalidate env c w).1.events ≡ executions w.events
  unfolding invalidate
  executions-invalidate c w = ground arith

  run_once-le :
      (c : Conn) (wrapped : Bytes) (w : World)
      → executions (run_once env c wrapped w).2.events ≤ executions w.events + 1
  unfolding run_once
  run_once-le c wrapped w = ground arith

  -- A fault that lets Run execute its script once more: a confirmed dead shell, not a transient
  -- failure and not the caller's own deadline.
  abbrev pub IsRetried : Fault → Type 0
  IsRetried f =
      (env.dead_shell f ≡ true)
      × (env.is_caller_timeout f ≡ false)
      × (is_left_alone (env.map_error f) ≡ false)

  after_fault-le :
      (c : Conn) (wrapped : Bytes) (f : Fault) (w : World)
      → (executions (after_fault env c wrapped f w).2.events ≤ executions w.events)
        ⊎ (IsRetried f
            × (executions (after_fault env c wrapped f w).2.events ≤ executions w.events + 1))
  unfolding after_fault
  after_fault-le c wrapped f w =
      elim (Bool-cases (is_left_alone (env.map_error f) || env.is_caller_timeout f)) [
        | inl alone ↦ inl (rw (alone, after_fault) (omega arith))
        | inr suspect ↦ elim (Bool-cases (env.dead_shell f)) [
          | inl dead ↦ inr (
            (dead, ground arith, ground arith),
            rw (suspect, after_fault, dead)
                (omega (
                  arith,
                  run_once-le (invalidate env c w).0 wrapped (invalidate env c w).1,
                  executions-invalidate c w,
                )),
          )
          | inr live ↦
              inl (rw (suspect, after_fault, live) (omega (arith, executions-invalidate c w)))
        ]
      ]

  -- At most one execution, or two where the first one failed with a fault that allows it.
  -- `es` and `i` say what happened before the first execution, and on which executor it is.
  abbrev pub AtMostTwo : List Event → ℕ → ℕ → ℕ → Type 0
  AtMostTwo es i before after =
      (after ≤ before + 1)
      ⊎ ((f : Fault) × (script : Bytes) × (env.execute es i script ≡ faulted f)
          × IsRetried f
          × (after ≤ before + 2))

  run_connected-AtMostTwo :
      (c : Conn) (wrapped : Bytes) (w : World)
      → AtMostTwo w.events c.exec
          (executions w.events)
          (executions (run_connected env c wrapped w).2.events)
  unfolding run_connected
  run_connected-AtMostTwo c wrapped w =
      elim (Execution-cases (env.execute w.events c.exec wrapped)) [
        | inl (r, e) ↦ inl (rw (e, run_connected) (omega arith))
        | inr (f, e) ↦ elim (after_fault-le c wrapped f (note (executed c.exec wrapped) w)) [
          | inl le ↦ inl (rw (e, run_connected) (omega (arith, le)))
          | inr (ret, le) ↦ inr (f, wrapped, e, ret, rw (e, run_connected) (omega (arith, le)))
        ]
      ]

  -- One Run, from the connection that it checked out to the one that it returns, executes a script at
  -- most once, or at most twice if the first execution, on the executor it is connected to, failed
  -- with a confirmed dead shell, a failure that is neither transient nor the caller's own timeout.
  pub run_conn-AtMostTwo :
      (c : Conn) (command payload : Bytes) (w : World)
      → AtMostTwo
          (ensure_connected env c w).2.events
          (ensure_connected env c w).1.exec
          (executions w.events)
          (executions (run_conn env c command payload w).2.events)
  unfolding run_conn
  run_conn-AtMostTwo c command payload w = elim (Option-cases (env.decode_command command)) [
    | inl bad ↦ inl (rw (bad, run_conn) (omega arith))
    | inr (script, good) ↦ elim (Option-cases (ensure_connected env c w).0) [
      | inr (f, down) ↦
          inl (rw (good, run_conn, down) (omega (arith, executions-ensure_connected c w)))
      | inl up ↦
          let (o, c', w') = ensure_connected env c w in
          let after = executions (run_connected env c' (env.wrap script payload) w').2.events in
          rw (good, run_conn, up)
            (subst (λ n. AtMostTwo w'.events c'.exec n after) (executions-ensure_connected c w)
              (run_connected-AtMostTwo c' (env.wrap script payload) w'))
    ]
  ]
