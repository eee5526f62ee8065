-- ===== src/Cdc/Retry/Backoff.antt =====
-- The delays of the backoff, against their closed form, and when a retry becomes due.
use native.Mathlib.Nat.{pow-suc, one-le-pow}
use pico_sdemu.Common.{
  ℕ, zero, suc, ◌+◌, ◌*◌, ◌^◌, ◌≤◌, ◌<◌, ◌≡◌, refl, ap, true, false, arith, min, ltb, leb,
  if◌then◌else◌,
}
use pico_sdemu.Common.Word.{u64_max}
use pico_sdemu.Cdc.Client.{retry_same_session}
use pico_sdemu.Cdc.Retry.{
  RetryController, wait, ready, exhausted, no_retry, backoff_loop, double_bounded, bounded_backoff,
  saturating_add, new_retry, schedule, record_failure, poll_retry, consume_retry,
}

le-mul_pow : (x n : ℕ) → x ≤ x * 2 ^ n
le-mul_pow x n = grind (arith, one-le-pow n 2)

mul_pow-suc : (x n : ℕ) → x * 2 ^ suc n ≡ x * 2 * 2 ^ n
mul_pow-suc x n = omega (arith, ap (λ (t : ℕ). x * t) (pow-suc 2 n))

loop_closed :
    (maximum delay n : ℕ)
    → delay ≤ maximum
    → backoff_loop maximum delay n ≡ min (delay * 2 ^ n) maximum
unfolding backoff_loop
loop_closed maximum delay zero h = omega arith
loop_closed maximum delay (suc n) h = ground (
  arith,
  loop_closed maximum (double_bounded maximum delay) n,
  mul_pow-suc delay n,
  le-mul_pow maximum n,
  le-mul_pow (delay * 2) n,
  le-mul_pow delay (suc n),
)

-- With an initial delay up to the maximum, the delay before retry `n` is the initial delay doubled `n`
-- times, and never more than the maximum.
pub bounded_backoff-closed :
    (initial maximum n : ℕ)
    → initial ≤ maximum
    → bounded_backoff initial maximum n ≡ min (initial * 2 ^ n) maximum
unfolding bounded_backoff
bounded_backoff-closed initial maximum n h = ground (arith, loop_closed maximum initial n h)

-- The settings that the constructor leaves: positive delays that fit 64 bits and are in order.
pub record IsConfigured (r : RetryController) : Type 0 where
  pub positive : 0 < r.initial_backoff
  pub ordered : r.initial_backoff ≤ r.maximum_backoff
  pub maximum_fits : r.maximum_backoff ≤ u64_max

pub new-IsConfigured :
    (retries initial maximum : ℕ)
    → initial ≤ u64_max
    → maximum ≤ u64_max
    → IsConfigured (new_retry retries initial maximum)
unfolding new_retry
new-IsConfigured retries initial maximum hi hm = ground arith

-- When the next retry falls due: the bounded backoff after `now`, or the last time there is.
abbrev pub due_time : RetryController → ℕ → ℕ
due_time r now =
    min (now + min (r.initial_backoff * 2 ^ r.retries_scheduled) r.maximum_backoff) u64_max

saturating_add-closed :
    (left right : ℕ) → left ≤ u64_max → saturating_add left right ≡ min (left + right) u64_max
unfolding saturating_add
saturating_add-closed left right h = ground arith

schedule_lem :
    (r : RetryController) (now : ℕ)
    → IsConfigured r
    → r.retries_scheduled < r.maximum_retries
    → now ≤ u64_max
    → schedule r now ≡ (
      record r {
        retries_scheduled = r.retries_scheduled + 1;
        retry_at = due_time r now;
        waiting = true;
      },
      wait,
    )
unfolding schedule
schedule_lem r now c h t = ground (
  arith,
  saturating_add-closed now
      (bounded_backoff r.initial_backoff r.maximum_backoff r.retries_scheduled),
  bounded_backoff-closed r.initial_backoff r.maximum_backoff r.retries_scheduled,
)

waiting_lem :
    (s : RetryController) (later : ℕ)
    → s.waiting ≡ true
    → (poll_retry s later ≡ (if ltb later s.retry_at then wait else ready))
      × ((consume_retry s later).1 ≡ leb s.retry_at later)
      × ((consume_retry (consume_retry s later).0 later).1 ≡ false)
unfolding poll_retry consume_retry
waiting_lem s later w = ground arith

-- A retryable failure, while retries are left, waits until its due time: before it polling says to wait
-- and consuming fails; from then on polling says ready, and consuming succeeds, but only once.
pub retry_schedule :
    (r : RetryController) (now later : ℕ)
    → IsConfigured r
    → r.retries_scheduled < r.maximum_retries
    → now ≤ u64_max
    → let (s, decision) = record_failure r retry_same_session now in
      (decision ≡ wait)
      × (s.retries_scheduled ≡ r.retries_scheduled + 1)
      × (s.retry_at ≡ due_time r now)
      × ((poll_retry s later ≡ (if ltb later (due_time r now) then wait else ready))
          × ((consume_retry s later).1 ≡ leb (due_time r now) later)
          × ((consume_retry (consume_retry s later).0 later).1 ≡ false))
unfolding record_failure
retry_schedule r now later c h t = rw (schedule_lem r now c h t) (
  refl,
  refl,
  refl,
  waiting_lem
      (record r {
        retries_scheduled = r.retries_scheduled + 1;
        retry_at = due_time r now;
        waiting = true;
      })
      later refl,
)

-- With no retry left a retryable failure is final: nothing is scheduled, and no later poll offers a retry.
retry_exhausted :
    (r : RetryController) (now later : ℕ)
    → r.maximum_retries ≤ r.retries_scheduled
    → let (s, decision) = record_failure r retry_same_session now in
      (decision ≡ exhausted)
      × (s.retries_scheduled ≡ r.retries_scheduled)
      × (poll_retry s later ≡ no_retry)
      × ((consume_retry s later).1 ≡ false)
unfolding record_failure schedule poll_retry consume_retry
retry_exhausted r now later h = ground arith
