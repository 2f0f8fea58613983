-- ===== src/Core/Backoff.antt =====
-- The delay between attempts: a shift of a 64-bit duration, capped.
use native.Mathlib.Nat.{pow-suc}
use go_adpwsh.Prelude.{
  ℕ, zero, suc, ◌+◌, ◌-◌, ◌*◌, ◌%◌, ◌^◌, ◌≤◌, ◌<◌, ◌≡◌, refl, arith, ltb, ◌&&◌, if◌then◌else◌,
}
use go_adpwsh.Core.Exec.{RetryConfig, backoff_delay, timer_wait}

abbrev two_64 : ℕ
two_64 = 2 ^ 64

-- The client never waits longer than the configured maximum.
pub timer_wait-backoff_delay-le :
    (retry : RetryConfig) (attempt : ℕ)
    → timer_wait (backoff_delay retry attempt) ≤ retry.max_backoff
unfolding backoff_delay timer_wait
timer_wait-backoff_delay-le retry attempt = ground arith

capped :
    (d m : ℕ)
    → d < 2 ^ 63
    → m < 2 ^ 63
    → timer_wait (if ltb d (2 ^ 63) && ltb m d then m else d) ≡ (if ltb m d then m else d)
unfolding timer_wait
capped d m h k = ground arith

-- While the shifted delay fits in a signed 64-bit duration, the client waits the initial delay
-- doubled once per attempt made, or the maximum if that is less.
pub timer_wait-backoff_delay :
    (retry : RetryConfig) (attempt : ℕ)
    → retry.initial_backoff * 2 ^ (attempt - 1) < 2 ^ 63
    → retry.max_backoff < 2 ^ 63
    → timer_wait (backoff_delay retry attempt) ≡ (
        if ltb retry.max_backoff (retry.initial_backoff * 2 ^ (attempt - 1))
        then retry.max_backoff
        else retry.initial_backoff * 2 ^ (attempt - 1))
unfolding backoff_delay
timer_wait-backoff_delay retry attempt fits cap =
    rw exact (capped (retry.initial_backoff * 2 ^ (attempt - 1)) retry.max_backoff fits cap)
  where
    exact :
        retry.initial_backoff * 2 ^ (attempt - 1) % 2 ^ 64
        ≡ retry.initial_backoff * 2 ^ (attempt - 1)
    exact = omega arith

pow_split : (n : ℕ) → 2 ^ (64 + n) ≡ two_64 * 2 ^ n
pow_split zero = refl
pow_split (suc n) =
    let e : 64 + suc n ≡ suc (64 + n) = omega arith in
    rw (e, pow-suc 2 (64 + n), pow-suc 2 n, pow_split n) (omega arith)

-- From the 65th attempt on the shift has pushed every bit out: the client retries without waiting.
pub backoff_delay-overflow : (retry : RetryConfig) (n : ℕ) → backoff_delay retry (65 + n) ≡ 0
unfolding backoff_delay
backoff_delay-overflow retry n = ground (arith, gone)
  where
    gone : retry.initial_backoff * 2 ^ (65 + n - 1) % two_64 ≡ 0
    gone = let e : 65 + n - 1 ≡ 64 + n = omega arith in rw (e, pow_split n) (omega arith)
