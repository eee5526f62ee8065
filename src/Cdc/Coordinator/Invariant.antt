-- ===== src/Cdc/Coordinator/Invariant.antt =====
-- What holds of the coordinator and its client between two calls.
use pico_sdemu.Common.{ℕ, ◌≡◌, Bool, true, false, not, ◌||◌, if◌then◌else◌, List, [], ◌∷◌, arith}
use pico_sdemu.Cdc.Numbers.{Text}
use pico_sdemu.Cdc.Client.{
  Client, RetryAdvice, retry_advice, retry_same_session, cancel_pending_request, request_pending,
  accept_response,
}
use pico_sdemu.Cdc.Client.Replies.{accept_kept}
use pico_sdemu.Cdc.Retry.{new_retry, RetryDecision, wait, record_failure, schedule}
use pico_sdemu.Cdc.Deadline.{clear_deadline, expire_if_due}
use pico_sdemu.Cdc.Operation.{Operation, is_active}
use pico_sdemu.Cdc.Coordinator.{
  Coordinator, OperationState, idle, failed, is_awaiting, is_waiting_retry, is_retry_ready,
  DisconnectPolicy, new_coordinator, issue, start, route_failure, route_decision, accept, expire,
  poll, issue_retry, resume_after_renegotiation, resume_after_media_available, disconnect, cancel,
  reset,
}

-- States that hold no operation.
abbrev pub is_at_rest : OperationState → Bool
is_at_rest idle = true
is_at_rest failed = true
is_at_rest s = false

pub record Inv (k : Coordinator) (c : Client) : Type 0 where
  pub holds : is_active k.operation ≡ not (is_at_rest k.state)
  pub sent : is_awaiting k.state ≡ true → request_pending c ≡ true
  pub timed : k.deadline.armed ≡ is_awaiting k.state
  pub backs_off : k.retry.waiting ≡ (is_waiting_retry k.state || is_retry_ready k.state)

abbrev is_wait : RetryDecision → Bool
is_wait wait = true
is_wait d = false

-- Ready to issue: an operation, no deadline and no retry.
record IsReady (k : Coordinator) : Type 0 where
  has_operation : is_active k.operation ≡ true
  no_deadline : k.deadline.armed ≡ false
  no_retry_waits : k.retry.waiting ≡ false

issue-Inv :
    (k : Coordinator) (now : ℕ) (c : Client) → IsReady k → Inv (issue k now c).0 (issue k now c).1
unfolding issue
issue-Inv k now c v = ground arith

start-Inv :
    (k : Coordinator) (o : Operation) (now : ℕ) (c : Client)
    → Inv k c
    → Inv (start k o now c).0 (start k o now c).1
unfolding start issue
start-Inv k o now c v = ground arith

failure-Inv :
    (k : Coordinator) (advice : RetryAdvice) (now : ℕ) (c : Client)
    → is_active k.operation ≡ true
    → k.deadline.armed ≡ false
    → Inv (route_failure k advice now) c
unfolding route_failure route_decision record_failure schedule
failure-Inv k advice now c a n = ground arith

accept-Inv :
    (k : Coordinator) (response : Text) (now : ℕ) (c : Client)
    → Inv k c
    → Inv (accept k response now c).0 (accept k response now c).1
unfolding accept
accept-Inv k response now c v = ground (
  arith,
  accept_kept c response,
  failure-Inv (record k { deadline = clear_deadline })
      (retry_advice (accept_response c response).0.remote) now (accept_response c response).0,
)

pub expire-Inv :
    (k : Coordinator) (now : ℕ) (c : Client) → Inv k c → Inv (expire k now c).0 (expire k now c).1
unfolding expire expire_if_due
expire-Inv k now c v = ground (
  arith,
  failure-Inv (record k { deadline = clear_deadline }) retry_same_session now
      (cancel_pending_request c).0,
)

poll-Inv : (k : Coordinator) (now : ℕ) (c : Client) → Inv k c → Inv (poll k now) c
unfolding poll
poll-Inv k now c v = ground arith

pub issue_retry-Inv :
    (k : Coordinator) (now : ℕ) (c : Client)
    → Inv k c
    → Inv (issue_retry k now c).0 (issue_retry k now c).1
unfolding issue_retry issue
issue_retry-Inv k now c v = ground arith

renegotiation-Inv :
    (k : Coordinator) (now : ℕ) (c : Client)
    → Inv k c
    → Inv (resume_after_renegotiation k now c).0 (resume_after_renegotiation k now c).1
unfolding resume_after_renegotiation issue
renegotiation-Inv k now c v = ground arith

media-Inv :
    (k : Coordinator) (now : ℕ) (c : Client)
    → Inv k c
    → Inv (resume_after_media_available k now c).0 (resume_after_media_available k now c).1
unfolding resume_after_media_available issue
media-Inv k now c v = ground arith

disconnect-Inv :
    (k : Coordinator) (c : Client) (policy : DisconnectPolicy)
    → Inv k c
    → Inv (disconnect k c policy).0 (disconnect k c policy).1
unfolding disconnect
disconnect-Inv k c policy v = ground arith

cancel-Inv : (k : Coordinator) (c : Client) → Inv k c → Inv (cancel k c).0 (cancel k c).1
unfolding cancel
cancel-Inv k c v = ground arith

reset-Inv : (k : Coordinator) (c : Client) → Inv k c → Inv (reset k c).0 (reset k c).1
unfolding reset cancel
reset-Inv k c v = ground arith

-- The calls that the host makes. `outside` is the client's own use, for a handshake: it is left in
-- any state.
pub data Call : Type 0 where
  starts : Operation → ℕ → Call
  accepts : Text → ℕ → Call
  expires polls retries renegotiated media_back : ℕ → Call
  disconnects : DisconnectPolicy → Call
  cancels resets : Call
  outside : Client → Call

-- The client is used from outside only while no response to an operation is awaited.
unfoldable pub call : Coordinator × Client → Call → Coordinator × Client
call (k, c) (starts o now) = ((start k o now c).0, (start k o now c).1)
call (k, c) (accepts response now) = accept k response now c
call (k, c) (expires now) = expire k now c
call (k, c) (polls now) = (poll k now, c)
call (k, c) (retries now) = ((issue_retry k now c).0, (issue_retry k now c).1)
call (k, c) (renegotiated now) =
    ((resume_after_renegotiation k now c).0, (resume_after_renegotiation k now c).1)
call (k, c) (media_back now) =
    ((resume_after_media_available k now c).0, (resume_after_media_available k now c).1)
call (k, c) (disconnects policy) = disconnect k c policy
call (k, c) cancels = cancel k c
call (k, c) resets = reset k c
call (k, c) (outside c') = if is_awaiting k.state then (k, c) else (k, c')

unfoldable pub calls : Coordinator × Client → List Call → Coordinator × Client
unfolding call
calls p [] = p
calls p (a ∷ rest) = calls (call p a) rest

outside-Inv :
    (k : Coordinator) (c c' : Client)
    → Inv k c
    → Inv (call (k, c) (outside c')).0 (call (k, c) (outside c')).1
unfolding call
outside-Inv k c c' v = ground arith

call-Inv :
    (k : Coordinator) (c : Client) (a : Call) → Inv k c → Inv (call (k, c) a).0 (call (k, c) a).1
unfolding call
call-Inv k c (starts o now) v = start-Inv k o now c v
call-Inv k c (accepts response now) v = accept-Inv k response now c v
call-Inv k c (expires now) v = expire-Inv k now c v
call-Inv k c (polls now) v = poll-Inv k now c v
call-Inv k c (retries now) v = issue_retry-Inv k now c v
call-Inv k c (renegotiated now) v = renegotiation-Inv k now c v
call-Inv k c (media_back now) v = media-Inv k now c v
call-Inv k c (disconnects policy) v = disconnect-Inv k c policy v
call-Inv k c cancels v = cancel-Inv k c v
call-Inv k c resets v = reset-Inv k c v
call-Inv k c (outside c') v = outside-Inv k c c' v

calls-Inv :
    (k : Coordinator) (c : Client) (rest : List Call)
    → Inv k c
    → Inv (calls (k, c) rest).0 (calls (k, c) rest).1
unfolding calls
calls-Inv k c [] v = v
calls-Inv k c (a ∷ rest) v = calls-Inv (call (k, c) a).0 (call (k, c) a).1 rest (call-Inv k c a v)

new-Inv :
    (timeout maximum_retries initial maximum : ℕ) (c : Client)
    → Inv (new_coordinator timeout maximum_retries initial maximum) c
unfolding new_coordinator new_retry
new-Inv timeout maximum_retries initial maximum c = ground arith

-- After any calls on a new coordinator: an operation is held exactly in the states that are neither
-- idle nor failed, a response is awaited only with a request pending, the deadline is armed exactly
-- while a response is awaited, and a backoff is running exactly in the two retry states.
pub calls-new-CoordinatorInv :
    (timeout maximum_retries initial maximum : ℕ) (c : Client) (rest : List Call)
    → let p = calls (new_coordinator timeout maximum_retries initial maximum, c) rest in Inv p.0 p.1
calls-new-CoordinatorInv timeout maximum_retries initial maximum c rest =
    calls-Inv _ c rest (new-Inv timeout maximum_retries initial maximum c)
