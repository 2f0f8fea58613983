-- ===== src/Warm/Live.antt =====
-- No shell is left behind: a connected executor is held by a connection of the pool until it is
-- closed.
use go_adpwsh.Prelude.{
  ℕ, ◌-◌, ◌≡◌, inl, inr, Bool, true, false, ◌&&◌, ◌||◌, List, [], ◌∷◌, arith, ltb, ◌==◌,
  if◌then◌else◌, Bool-cases, Option-cases,
}
use go_adpwsh.Prelude.Text.{Bytes}
use go_adpwsh.Core.Exec.{Fault}
use go_adpwsh.Warm.Conn.{
  Event, connected, closed, Execution-cases, Env, World, Conn, note, rebuild, ensure_connected,
  run_once, is_left_alone, after_fault, run_connected, run_conn, reap_conn_if_idle,
}

-- Whether the executor was connected and has not been closed since.
abbrev pub live : ℕ → List Event → Bool
live i [] = false
live i (connected j ∷ es) = if j == i then true else live i es
live i (closed j ∷ es) = if j == i then false else live i es
live i (_ ∷ es) = live i es

abbrev pub held : Conn → ℕ → Bool
held c i = c.up && c.exec == i

-- Whether a connection of the list knows that the executor is up.
abbrev pub holds : ℕ → List Conn → Bool
holds i [] = false
holds i (c ∷ cs) = held c i || holds i cs

-- From a state in which every live executor is held by `c` or elsewhere to one in which every live
-- executor is held by `c'` or elsewhere.
abbrev Keeps : Conn → World → Conn → World → Type 0
Keeps c w c' w' =
    (i : ℕ) (elsewhere : Bool)
    → (live i w.events ≡ true → (held c i || elsewhere) ≡ true)
    → live i w'.events ≡ true
    → (held c' i || elsewhere) ≡ true

module _ (env : Env) where
  ensure_connected-Keeps :
      (c : Conn) (w : World) → Keeps c w (ensure_connected env c w).1 (ensure_connected env c w).2
  unfolding ensure_connected
  ensure_connected-Keeps c w i elsewhere h = ground arith

  rebuild-Keeps :
      (c : Conn) (w : World)
      → Keeps c w
          (rebuild env c (note (closed c.exec) w)).0
          (rebuild env c (note (closed c.exec) w)).1
  unfolding rebuild
  rebuild-Keeps c w i elsewhere h = ground arith

  run_once-Keeps :
      (c : Conn) (wrapped : Bytes) (w : World)
      → Keeps c w (run_once env c wrapped w).1 (run_once env c wrapped w).2
  unfolding run_once
  run_once-Keeps c wrapped w i elsewhere h = elim (Option-cases (ensure_connected env c w).0) [
    | inl e ↦ rw (e, run_once) (ensure_connected-Keeps c w i elsewhere h)
    | inr (f, e) ↦ rw (e, run_once) (ensure_connected-Keeps c w i elsewhere h)
  ]

  after_fault-Keeps :
      (c : Conn) (wrapped : Bytes) (f : Fault) (w : World)
      → Keeps c w (after_fault env c wrapped f w).1 (after_fault env c wrapped f w).2
  unfolding after_fault
  after_fault-Keeps c wrapped f w i elsewhere h =
      elim (Bool-cases (is_left_alone (env.map_error f) || env.is_caller_timeout f)) [
        | inl alone ↦ rw (alone, after_fault) h
        | inr suspect ↦ elim (Bool-cases (env.dead_shell f)) [
          | inl dead ↦
              rw (suspect, after_fault, dead)
                (run_once-Keeps _ wrapped _ i elsewhere (rebuild-Keeps c w i elsewhere h))
          | inr other ↦ rw (suspect, after_fault, other) (rebuild-Keeps c w i elsewhere h)
        ]
      ]

  run_connected-Keeps :
      (c : Conn) (wrapped : Bytes) (w : World)
      → Keeps c w (run_connected env c wrapped w).1 (run_connected env c wrapped w).2
  unfolding run_connected
  run_connected-Keeps c wrapped w i elsewhere h =
      elim (Execution-cases (env.execute w.events c.exec wrapped)) [
        | inl (r, e) ↦ rw (e, run_connected) h
        | inr (f, e) ↦ rw (e, run_connected) (after_fault-Keeps c wrapped f _ i elsewhere h)
      ]

  pub run_conn-Keeps :
      (c : Conn) (command payload : Bytes) (w : World)
      → Keeps c w (run_conn env c command payload w).1 (run_conn env c command payload w).2
  unfolding run_conn
  run_conn-Keeps c command payload w i elsewhere h =
      elim (Option-cases (env.decode_command command)) [
        | inl bad ↦ rw (bad, run_conn) h
        | inr (script, good) ↦ elim (Option-cases (ensure_connected env c w).0) [
          | inl e ↦
              rw (good, run_conn, e)
                (run_connected-Keeps _ _ _ i elsewhere (ensure_connected-Keeps c w i elsewhere h))
          | inr (f, e) ↦ rw (good, run_conn, e) (ensure_connected-Keeps c w i elsewhere h)
        ]
      ]

  pub reap_conn_if_idle-Keeps :
      (reap_after now : ℕ) (c : Conn) (w : World)
      → Keeps c w
          (reap_conn_if_idle env reap_after now c w).0
          (reap_conn_if_idle env reap_after now c w).1
  unfolding reap_conn_if_idle
  reap_conn_if_idle-Keeps reap_after now c w i elsewhere h = elim (Bool-cases c.up) [
    | inr down ↦ rw (down, reap_conn_if_idle) (rw down at h)
    | inl up ↦ elim (Bool-cases (ltb (now - c.last_used) reap_after)) [
      | inl recent ↦ rw (up, reap_conn_if_idle, recent) (rw up at h)
      | inr idle ↦ rw (up, reap_conn_if_idle, idle) (rebuild-Keeps c w i elsewhere h)
    ]
  ]
