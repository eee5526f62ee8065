-- ===== src/Cdc/Coordinator/Retained.antt =====
-- The retained operation, and how long a command that is never answered can last.
use pico_sdemu.Common.{ℕ, zero, suc, ◌+◌, ◌-◌, ◌<◌, ◌≡◌, Bool, true, false, arith}
use pico_sdemu.Cdc.Client.{Client, retry_same_session, cancel_pending_request}
use pico_sdemu.Cdc.Retry.{record_failure, schedule, consume_retry, poll_retry}
use pico_sdemu.Cdc.Deadline.{clear_deadline, expire_if_due}
use pico_sdemu.Cdc.Coordinator.{
  Coordinator, OperationState, failed, is_awaiting, issue, start, route_failure, route_decision,
  accept, expire, poll, issue_retry, resume_after_renegotiation, resume_after_media_available,
  disconnect, cancel, reset,
}
use pico_sdemu.Cdc.Coordinator.Invariant.{
  Inv, Call, expire-Inv, issue_retry-Inv, starts, accepts, expires, polls, retries, renegotiated,
  media_back, disconnects, cancels, resets, outside, call, is_at_rest,
}

-- Where an operation is held before a call and one is held after it, it is the same operation.
pub call_keeps_operation :
    (k : Coordinator) (c : Client) (a : Call)
    → is_at_rest k.state ≡ false
    → is_at_rest (call (k, c) a).0.state ≡ false
    → (call (k, c) a).0.operation ≡ k.operation
unfolding call start accept expire poll issue_retry resume_after_renegotiation
    resume_after_media_available disconnect cancel reset issue expire_if_due route_failure
    route_decision
call_keeps_operation k c (starts o now) h h' = ground arith
call_keeps_operation k c (accepts response now) h h' = ground arith
call_keeps_operation k c (expires now) h h' = ground arith
call_keeps_operation k c (polls now) h h' = ground arith
call_keeps_operation k c (retries now) h h' = ground arith
call_keeps_operation k c (renegotiated now) h h' = ground arith
call_keeps_operation k c (media_back now) h h' = ground arith
call_keeps_operation k c (disconnects policy) h h' = ground arith
call_keeps_operation k c cancels h h' = ground arith
call_keeps_operation k c resets h h' = ground arith
call_keeps_operation k c (outside c') h h' = ground arith

-- The host's loop when nobody answers: the request expires at its deadline, and the retry is issued
-- when its backoff has passed.
unfoldable pub silent_round : Coordinator → Client → Coordinator × Client
unfolding expire issue_retry
silent_round k c =
    let (k', c') = expire k k.deadline.deadline c in
    let (k'', c'', request) = issue_retry k' k'.retry.retry_at c' in (k'', c'')

unfoldable pub silence : ℕ → Coordinator → Client → Coordinator × Client
unfolding silent_round
silence zero k c = (k, c)
silence (suc rounds) k c = let (k', c') = silent_round k c in silence rounds k' c'

abbrev pub is_failed : OperationState → Bool
is_failed failed = true
is_failed s = false

-- A round ends the operation, or uses up one of its retries.
data RoundOf (k k' : Coordinator) : Type 0 where
  gives_up : is_failed k'.state ≡ true → RoundOf k k'
  again :
      is_awaiting k'.state ≡ true
      → k.retry.retries_scheduled < k.retry.maximum_retries
      → k'.retry.retries_scheduled ≡ k.retry.retries_scheduled + 1
      → k'.retry.maximum_retries ≡ k.retry.maximum_retries
      → RoundOf k k'

expire_routes :
    (k : Coordinator) (c : Client)
    → Inv k c
    → is_awaiting k.state ≡ true
    → (expire k k.deadline.deadline c).0
      ≡ route_failure
          (record k { deadline = clear_deadline })
          retry_same_session
          k.deadline.deadline
unfolding expire expire_if_due cancel_pending_request
expire_routes k c v a = ground arith

silent-RoundOf :
    (k : Coordinator) (c : Client)
    → Inv k c
    → is_awaiting k.state ≡ true
    → RoundOf k (silent_round k c).0
unfolding silent_round issue_retry issue consume_retry poll_retry route_failure route_decision
    record_failure schedule
silent-RoundOf k c v a = ground (arith, expire_routes k c v a)

silent-Inv :
    (k : Coordinator) (c : Client) → Inv k c → Inv (silent_round k c).0 (silent_round k c).1
unfolding silent_round
silent-Inv k c v = issue_retry-Inv _ _ _ (expire-Inv k k.deadline.deadline c v)

round_stays :
    (k : Coordinator) (c : Client)
    → is_failed k.state ≡ true
    → is_failed (silent_round k c).0.state ≡ true
unfolding silent_round expire issue_retry
round_stays k c h = ground arith

silence_stays :
    (rounds : ℕ) (k : Coordinator) (c : Client)
    → is_failed k.state ≡ true
    → is_failed (silence rounds k c).0.state ≡ true
unfolding silence
silence_stays zero k c h = h
silence_stays (suc rounds) k c h = silence_stays rounds _ _ (round_stays k c h)

-- A command that is never answered ends: with the invariant, and a response awaited, one round more
-- than the retries left leaves the coordinator in its failed state.
pub silence_fails :
    (rounds : ℕ) (k : Coordinator) (c : Client)
    → Inv k c
    → is_awaiting k.state ≡ true
    → k.retry.maximum_retries - k.retry.retries_scheduled < rounds
    → is_failed (silence rounds k c).0.state ≡ true
unfolding silence
silence_fails zero k c v a h = ground arith
silence_fails (suc rounds) k c v a h = elim (silent-RoundOf k c v a) [
  | gives_up f ↦ silence_stays rounds _ _ f
  | again a' more n m ↦ silence_fails rounds _ _ (silent-Inv k c v) a' (omega arith)
]
