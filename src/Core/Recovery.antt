-- ===== src/Core/Recovery.antt =====
-- A transient failure that passes before the attempts are used up does not reach the caller.
use go_adpwsh.Prelude.{
  ℕ, zero, suc, ◌+◌, ◌<◌, ◌≡◌, ap, ◌∙◌, String, true, false, not, ◌||◌, Option, some, List, arith,
  ◌==◌,
}
use go_adpwsh.Prelude.Json.{Value}
use go_adpwsh.Core.Errors.{Error, ok}
use go_adpwsh.Core.Exec.{Platform, RetryConfig, Session, Call, attempt_result, finish, attempts}
use go_adpwsh.Core.Retry.{AllRetryable, calls_after, attempts-again}

module _ {ℓ} {A : Type ℓ} (p : Platform) (retry : RetryConfig) (op : String) (call : Call)
    (decode : Value → Option A) where
  goes_on :
      (attempt left : ℕ) (e : Error)
      → p.retryable e.kind ≡ true
      → attempt + suc (suc left) ≡ retry.max_attempts + 1
      → (not (p.retryable e.kind) || attempt == retry.max_attempts) ≡ false
  goes_on attempt left e h budget = ground arith

  -- If the first k calls of the retry loop of exec end in failures that may be retried, the next call
  -- succeeds, k is less than the number of attempts left, as the attempts are counted from one, and
  -- the context does not end, then the loop returns what that next call returned, decoded.
  pub attempts_recover :
      (k left attempt : ℕ) (last : Option Error) (s : Session) (v : Option Value)
      → attempt + left ≡ retry.max_attempts + 1
      → k < left
      → ((cs : List Call) → p.done cs ≡ false)
      → AllRetryable p retry op call decode s.calls k
      → attempt_result p op (p.run (calls_after k call s.calls) call) ≡ ok v
      → (attempts p retry op call decode left attempt last s).0 ≡ finish p decode op v
  unfolding attempts
  attempts_recover k zero attempt last s v budget lt going all good = absurd (omega arith)
  attempts_recover zero (suc left) attempt last s v budget lt going all good = rw (good, attempts)
  attempts_recover (suc k) (suc zero) attempt last s v budget lt going all good =
      absurd (omega arith)
  attempts_recover (suc k) (suc (suc left)) attempt last s v budget lt going ((e, h, ret), all)
        good =
      ap (λ o. o.0)
        (attempts-again p retry op call decode (suc left) attempt last s e h
          (goes_on attempt left e ret budget) (going _))
      ∙ attempts_recover k (suc left) (attempt + 1) (some e) _ v (omega arith) (omega arith) going
          all good
