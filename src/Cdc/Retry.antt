-- ===== src/Cdc/Retry.antt =====
-- shared/protocol/src/cdc_retry_controller.cpp: `CdcRetryController`, bounded exponential backoff.
-- Times are 64-bit numbers; the two additions of the code that could wrap are guarded there, and
-- `Retry.Backoff` shows that no result leaves the 64 bits.
pub mod Backoff
use pico_sdemu.Common.{
  ℕ, zero, suc, ◌+◌, ◌-◌, ◌*◌, Bool, true, false, not, ◌&&◌, ◌||◌, if◌then◌else◌, ◌==◌, ltb, leb,
}
use pico_sdemu.Common.Word.{u64_max}
use pico_sdemu.Cdc.Client.{
  RetryAdvice, do_not_retry, retry_same_session, renegotiate, media_unavailable,
}

pub data RetryDecision : Type 0 where
  no_retry wait ready exhausted renegotiates no_media_now : RetryDecision

unfoldable pub saturating_add : ℕ → ℕ → ℕ
saturating_add left right = if ltb (u64_max - left) right then u64_max else left + right

-- One round of the loop in `bounded_backoff`.
abbrev pub double_bounded : ℕ → ℕ → ℕ
double_bounded maximum delay = if ltb (maximum - delay) delay then maximum else delay * 2

-- The loop: `retry_index` rounds at most.
pub backoff_loop : ℕ → ℕ → ℕ → ℕ
backoff_loop maximum delay zero = delay
backoff_loop maximum delay (suc retry_index) =
    let more = backoff_loop maximum (double_bounded maximum delay) retry_index in
    if ltb delay maximum then more else delay

unfoldable pub bounded_backoff : ℕ → ℕ → ℕ → ℕ
unfolding backoff_loop
bounded_backoff initial maximum retry_index =
    let delay = backoff_loop maximum initial retry_index in
    if ltb maximum delay then maximum else delay

pub record RetryController : Type 0 where
  pub maximum_retries : ℕ
  pub initial_backoff : ℕ
  pub maximum_backoff : ℕ
  pub retries_scheduled : ℕ
  pub retry_at : ℕ
  pub waiting : Bool

unfoldable pub new_retry : ℕ → ℕ → ℕ → RetryController
new_retry maximum_retries initial maximum =
    let initial_backoff = if initial == 0 then 1 else initial in
    record {
      maximum_retries = maximum_retries;
      initial_backoff = initial_backoff;
      maximum_backoff = if ltb maximum initial_backoff then initial_backoff else maximum;
      retries_scheduled = 0;
      retry_at = 0;
      waiting = false;
    }

abbrev pub idle_retry : RetryController → RetryController
idle_retry r = record r { waiting = false; retry_at = 0 }

-- A failure that may be retried in the same session.
unfoldable pub schedule : RetryController → ℕ → RetryController × RetryDecision
unfolding saturating_add bounded_backoff
schedule r now = if leb r.maximum_retries r.retries_scheduled then (idle_retry r, exhausted) else (
  record r {
    retries_scheduled = r.retries_scheduled + 1;
    retry_at =
        saturating_add now
          (bounded_backoff r.initial_backoff r.maximum_backoff r.retries_scheduled);
    waiting = true;
  },
  wait,
)

unfoldable pub record_failure : RetryController → RetryAdvice → ℕ → RetryController × RetryDecision
unfolding schedule
record_failure r renegotiate now = (idle_retry r, renegotiates)
record_failure r media_unavailable now = (idle_retry r, no_media_now)
record_failure r do_not_retry now = (idle_retry r, no_retry)
record_failure r retry_same_session now = schedule r now

unfoldable pub poll_retry : RetryController → ℕ → RetryDecision
poll_retry r now = if not r.waiting then no_retry else if ltb now r.retry_at then wait else ready

abbrev is_ready : RetryDecision → Bool
is_ready ready = true
is_ready d = false

unfoldable pub consume_retry : RetryController → ℕ → RetryController × Bool
unfolding poll_retry
consume_retry r now = if not (is_ready (poll_retry r now)) then (r, false) else (idle_retry r, true)

unfoldable pub record_success : RetryController → RetryController
record_success r = record r { retries_scheduled = 0; waiting = false; retry_at = 0 }
