-- ===== src/Core/Retry.antt =====
-- The retry loop of exec: how often it calls the transport, and what it returns.
use go_adpwsh.Prelude.{
  ℕ, zero, suc, ◌+◌, ◌≤◌, ◌≡◌, refl, sym, ap, ◌∙◌, subst, ◌⊎◌, inl, inr, String, true, false, not,
  ◌||◌, Option, some, List, ◌∷◌, arith, ◌==◌, Bool-cases,
}
use go_adpwsh.Prelude.Json.{Value}
use go_adpwsh.Core.Errors.{transport, Error, error_of, Result, ok, err, panic, context_done}
use go_adpwsh.Core.Exec.{
  Platform, RetryConfig, Session, Call, attempt_result, finish, backoff, backoff_delay, timer_wait,
  sleep, attempts,
}

-- `n` copies of a call in front of those made before
abbrev pub calls_after : ℕ → Call → List Call → List Call
calls_after zero call cs = cs
calls_after (suc n) call cs = calls_after n call (call ∷ cs)

module _ {ℓ} {A : Type ℓ} (p : Platform) (retry : RetryConfig) (op : String) (call : Call)
    (decode : Value → Option A) where
  -- a failure that exec may try again
  abbrev pub IsRetryable : Result (Option Value) → Type 0
  IsRetryable r = (e : Error) × (r ≡ err e) × (p.retryable e.kind ≡ true)

  -- The first `k` calls after `cs` all end in failures that may be retried.
  abbrev pub AllRetryable : List Call → ℕ → Type 0
  AllRetryable cs zero = Unit
  AllRetryable cs (suc k) =
      IsRetryable (attempt_result p op (p.run cs call)) × AllRetryable (call ∷ cs) k

  -- what exec makes of the outcome of its last call
  abbrev pub conclude : Result (Option Value) → Result A
  conclude (ok v) = finish p decode op v
  conclude (err e) = err e
  conclude panic = panic

  -- `r` is the outcome of the call after `cs`, or that call could be retried and the context ended.
  abbrev pub Concludes : List Call → Result A → Type ℓ
  Concludes cs r =
      (r ≡ conclude (attempt_result p op (p.run cs call)))
      ⊎ ((p.done (call ∷ cs) ≡ true) × (r ≡ err (error_of transport "" context_done)))

  abbrev pub Outcome : ℕ → Session → Result A × Session → Type ℓ
  Outcome left s out =
      (k : ℕ) × (k ≤ left)
      × AllRetryable s.calls k
      × (out.1.calls ≡ calls_after (suc k) call s.calls)
      × Concludes (calls_after k call s.calls) out.0

  Result-cases :
      (r : Result (Option Value))
      → ((v : Option Value) × (r ≡ ok v)) ⊎ ((r ≡ panic) ⊎ ((e : Error) × (r ≡ err e)))
  Result-cases (ok v) = inl (v, refl)
  Result-cases panic = inr (inl refl)
  Result-cases (err e) = inr (inr (e, refl))

  abbrev pub called : Session → Session
  called s = record s { calls = call ∷ s.calls }

  -- One round that ends in a failure which is tried again, after the wait.
  pub attempts-again :
      (left attempt : ℕ) (last : Option Error) (s : Session) (e : Error)
      → attempt_result p op (p.run s.calls call) ≡ err e
      → (not (p.retryable e.kind) || attempt == retry.max_attempts) ≡ false
      → p.done (call ∷ s.calls) ≡ false
      → attempts p retry op call decode (suc left) attempt last s
        ≡ attempts p retry op call decode left
            (attempt + 1)
            (some e)
            (sleep (timer_wait (backoff_delay retry attempt)) (called s))
  unfolding attempts
  attempts-again left attempt last s e h again going =
      rw (h, attempts, again, going) (rw (going, backoff))

  -- One round that ends in a failure, and the context ends during the wait.
  attempts-stopped :
      (left attempt : ℕ) (last : Option Error) (s : Session) (e : Error)
      → attempt_result p op (p.run s.calls call) ≡ err e
      → (not (p.retryable e.kind) || attempt == retry.max_attempts) ≡ false
      → p.done (call ∷ s.calls) ≡ true
      → attempts p retry op call decode (suc left) attempt last s
        ≡ (err (error_of transport "" context_done), called s)
  unfolding attempts
  attempts-stopped left attempt last s e h again stop = rw (h, attempts, again, stop)

  is_retryable :
      (attempt : ℕ) (e : Error)
      → (not (p.retryable e.kind) || attempt == retry.max_attempts) ≡ false
      → p.retryable e.kind ≡ true
  is_retryable attempt e h = ground arith

  -- Either the loop ends with this round, or it goes on after the wait.
  abbrev Round : ℕ → ℕ → Session → Result A × Session → Type ℓ
  Round left attempt s out =
      Outcome left s out
      ⊎ ((e : Error) × (attempt_result p op (p.run s.calls call) ≡ err e)
          × (p.retryable e.kind ≡ true)
          × (out
              ≡ attempts p retry op call decode left (attempt + 1) (some e)
                  (sleep (timer_wait (backoff_delay retry attempt)) (called s))))

  after_error :
      (left attempt : ℕ) (last : Option Error) (s : Session) (e : Error)
      → attempt_result p op (p.run s.calls call) ≡ err e
      → Round left attempt s (attempts p retry op call decode (suc left) attempt last s)
  unfolding attempts
  after_error left attempt last s e h =
      elim (Bool-cases (not (p.retryable e.kind) || attempt == retry.max_attempts)) [
        | inl final ↦
            inl (0, omega arith, tt, rw (h, attempts, final), inl (rw (h, attempts, final)))
        | inr again ↦ elim (Bool-cases (p.done (call ∷ s.calls))) [
          | inl stop ↦
              let eq = attempts-stopped left attempt last s e h again stop in
              inl (0, omega arith, tt, ap (λ o. o.1.calls) eq, inr (stop, ap (λ o. o.0) eq))
          | inr going ↦ inr (
            e,
            h,
            is_retryable attempt e again,
            attempts-again left attempt last s e h again going,
          )
        ]
      ]

  round :
      (left attempt : ℕ) (last : Option Error) (s : Session)
      → Round left attempt s (attempts p retry op call decode (suc left) attempt last s)
  unfolding attempts
  round left attempt last s = elim (Result-cases (attempt_result p op (p.run s.calls call))) [
    | inl (v, e) ↦ inl (0, omega arith, tt, rw (e, attempts), inl (rw (e, attempts)))
    | inr (inl e) ↦ inl (0, omega arith, tt, rw (e, attempts), inl (rw (e, attempts)))
    | inr (inr (e, h)) ↦ after_error left attempt last s e h
  ]

  -- The retry loop of exec, with at least one attempt left, calls the transport at least once and at
  -- most as often as attempts are left, always with the same command and payload; each call but the
  -- last ended in a failure that go-adcore calls retryable; and the result is that of the last
  -- call, or the last call ended in an error and the context ended while waiting to retry it.
  pub attempts_lem :
      (left attempt : ℕ) (last : Option Error) (s : Session)
      → Outcome left s (attempts p retry op call decode (suc left) attempt last s)
  attempts_lem zero attempt last s = elim (round zero attempt last s) [
    | inl out ↦ out
    | inr (e, h, ret, eq) ↦ (
      0,
      omega arith,
      tt,
      rw eq (unfold attempts in refl),
      inl (rw (eq, h) (unfold attempts in refl)),
    )
  ]
  attempts_lem (suc left) attempt last s = elim (round (suc left) attempt last s) [
    | inl out ↦ out
    | inr (e, h, ret, eq) ↦
        let (k, le, all, calls, last_one) = attempts_lem left (attempt + 1) (some e) _ in
        (
          suc k,
          omega arith,
          ((e, h, ret), all),
          ap (λ o. o.1.calls) eq ∙ calls,
          subst (Concludes _) (ap (λ o. o.0) (sym eq)) last_one,
        )
  ]
