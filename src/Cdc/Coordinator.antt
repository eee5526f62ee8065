-- ===== src/Cdc/Coordinator.antt =====
-- shared/protocol/src/cdc_operation_coordinator.cpp and cdc_storage_status.cpp: `CdcOperationCoordinator`.
-- The client that the methods take by reference is an argument, and is returned.
pub mod Invariant
pub mod Retained
pub mod Finish
use pico_sdemu.Common.{ℕ, Bool, true, false, not, ◌&&◌, ◌||◌, List, if◌then◌else◌}
use pico_sdemu.Cdc.Numbers.{Text}
use pico_sdemu.Cdc.Client.{
  Client, ClientError, no_error, busy, not_negotiated, invalid_request, remote_error, Request, line,
  refused, RetryAdvice, retry_same_session, retry_advice, accept_response, cancel_pending_request,
  reset_client,
}
use pico_sdemu.Cdc.Retry.{
  RetryController, RetryDecision, no_retry, wait, ready, exhausted, renegotiates, no_media_now,
  new_retry, record_failure, poll_retry, consume_retry, record_success,
}
use pico_sdemu.Cdc.Deadline.{Deadline, clear_deadline, arm, expire_if_due}
use pico_sdemu.Cdc.Operation.{Operation, cleared, is_active, issue_operation}

pub data OperationState : Type 0 where
  idle awaiting_response waiting_retry retry_ready needs_renegotiation media_unavailable failed :
      OperationState

pub data DisconnectPolicy : Type 0 where
  cancel_operation retain_operation : DisconnectPolicy

pub record Coordinator : Type 0 where
  pub request_timeout : ℕ
  pub deadline : Deadline
  pub retry : RetryController
  pub operation : Operation
  pub state : OperationState

unfoldable pub new_coordinator : ℕ → ℕ → ℕ → ℕ → Coordinator
unfolding new_retry
new_coordinator request_timeout maximum_retries initial_backoff maximum_backoff = record {
  request_timeout = request_timeout;
  deadline = clear_deadline;
  retry = new_retry maximum_retries initial_backoff maximum_backoff;
  operation = cleared;
  state = idle;
}

abbrev pub is_idle : OperationState → Bool
is_idle idle = true
is_idle s = false

abbrev pub is_awaiting : OperationState → Bool
is_awaiting awaiting_response = true
is_awaiting s = false

abbrev pub is_waiting_retry : OperationState → Bool
is_waiting_retry waiting_retry = true
is_waiting_retry s = false

abbrev pub is_retry_ready : OperationState → Bool
is_retry_ready retry_ready = true
is_retry_ready s = false

abbrev pub is_renegotiate : OperationState → Bool
is_renegotiate needs_renegotiation = true
is_renegotiate s = false

abbrev pub is_media_unavailable : OperationState → Bool
is_media_unavailable media_unavailable = true
is_media_unavailable s = false

abbrev fail : Coordinator → Coordinator
fail k = record k { state = failed; operation = cleared }

unfoldable pub issue : Coordinator → ℕ → Client → Coordinator × Client × Request
unfolding arm cancel_pending_request
issue k now client =
    let (client', request) = issue_operation k.operation client in
    elim request [
      | refused e ↦ (fail k, client', refused e)
      | line text ↦
          let (deadline, armed) = arm k.deadline now k.request_timeout client' in
          if not armed
          then (
            fail (record k { deadline = deadline }),
            (cancel_pending_request client').0,
            refused invalid_request,
          )
          else (record k { deadline = deadline; state = awaiting_response }, client', line text)
    ]

unfoldable pub start : Coordinator → Operation → ℕ → Client → Coordinator × Client × Request
unfolding issue record_success
start k operation now client =
    if not (is_idle k.state)
    then (k, client, refused busy)
    else if not (is_active operation)
    then (k, client, refused invalid_request)
    else issue (record k { operation = operation; retry = record_success k.retry }) now client

-- `route_failure`, with the assignment of its result to the state.
unfoldable pub route_decision : Coordinator → RetryDecision → Coordinator
route_decision k wait = record k { state = waiting_retry }
route_decision k renegotiates = record k { state = needs_renegotiation }
route_decision k no_media_now = record k { state = media_unavailable }
route_decision k no_retry = record k { operation = cleared; state = failed }
route_decision k exhausted = record k { operation = cleared; state = failed }
route_decision k ready = record k { operation = cleared; state = failed }

unfoldable pub route_failure : Coordinator → RetryAdvice → ℕ → Coordinator
unfolding route_decision record_failure
route_failure k advice now =
    let (retry, decision) = record_failure k.retry advice now in
    route_decision (record k { retry = retry }) decision

unfoldable pub accept : Coordinator → Text → ℕ → Client → Coordinator × Client
unfolding route_failure record_success retry_advice
accept k response now client =
    if not (is_awaiting k.state)
    then (k, client)
    else let (client', result) = accept_response client response in
      elim result [
        | no_error ↦ (
          record k {
            deadline = clear_deadline;
            retry = record_success k.retry;
            operation = cleared;
            state = idle;
          },
          client',
        )
        | remote_error ↦ (
          route_failure (record k { deadline = clear_deadline }) (retry_advice client'.remote) now,
          client',
        )
        | _ ↦ (k, client')
      ]

unfoldable pub expire : Coordinator → ℕ → Client → Coordinator × Client
unfolding expire_if_due route_failure
expire k now client =
    if not (is_awaiting k.state)
    then (k, client)
    else let (deadline, client', expired) = expire_if_due k.deadline now client in
      if expired
      then (route_failure (record k { deadline = deadline }) retry_same_session now, client')
      else (record k { deadline = deadline }, client')

abbrev is_due : RetryDecision → Bool
is_due ready = true
is_due d = false

unfoldable pub poll : Coordinator → ℕ → Coordinator
unfolding poll_retry
poll k now =
    if is_waiting_retry k.state && is_due (poll_retry k.retry now)
    then record k { state = retry_ready }
    else k

unfoldable pub issue_retry : Coordinator → ℕ → Client → Coordinator × Client × Request
unfolding consume_retry issue
issue_retry k now client =
    if not (is_waiting_retry k.state) && not (is_retry_ready k.state)
    then (k, client, refused busy)
    else let (retry, consumed) = consume_retry k.retry now in
      if not consumed
      then (record k { retry = retry }, client, refused busy)
      else issue (record k { retry = retry }) now client

unfoldable pub resume_after_renegotiation :
    Coordinator → ℕ → Client → Coordinator × Client × Request
unfolding record_success issue
resume_after_renegotiation k now client =
    if not (is_renegotiate k.state) || not client.negotiated
    then (k, client, refused not_negotiated)
    else issue (record k { retry = record_success k.retry }) now client

unfoldable pub resume_after_media_available :
    Coordinator → ℕ → Client → Coordinator × Client × Request
unfolding record_success issue
resume_after_media_available k now client =
    if not (is_media_unavailable k.state) || not client.negotiated
    then (k, client, refused not_negotiated)
    else issue (record k { retry = record_success k.retry }) now client

abbrev is_retain : DisconnectPolicy → Bool
is_retain retain_operation = true
is_retain cancel_operation = false

unfoldable pub disconnect : Coordinator → Client → DisconnectPolicy → Coordinator × Client
unfolding record_success cancel_pending_request reset_client
disconnect k client policy =
    let settled = record k { deadline = clear_deadline; retry = record_success k.retry } in
    let client' = reset_client (cancel_pending_request client).0 in
    if is_retain policy && is_active k.operation
    then (record settled { state = needs_renegotiation }, client')
    else (record settled { operation = cleared; state = idle }, client')

unfoldable pub cancel : Coordinator → Client → Coordinator × Client
unfolding record_success cancel_pending_request
cancel k client = (
  record k {
    deadline = clear_deadline;
    retry = record_success k.retry;
    operation = cleared;
    state = idle;
  },
  (cancel_pending_request client).0,
)

unfoldable pub reset : Coordinator → Client → Coordinator × Client
unfolding cancel reset_client
reset k client = let (k', client') = cancel k client in (k', reset_client client')

pub data Availability : Type 0 where
  available is_busy reconnecting no_media has_failed : Availability

pub record StorageStatus : Type 0 where
  pub availability : Availability
  pub assert_busy : Bool
  pub retryable : Bool

unfoldable pub storage_status : OperationState → StorageStatus
storage_status idle = record { availability = available; assert_busy = false; retryable = false }
storage_status awaiting_response = record {
  availability = is_busy;
  assert_busy = true;
  retryable = true;
}
storage_status waiting_retry = record {
  availability = is_busy;
  assert_busy = true;
  retryable = true;
}
storage_status retry_ready = record { availability = is_busy; assert_busy = true; retryable = true }
storage_status needs_renegotiation = record {
  availability = reconnecting;
  assert_busy = true;
  retryable = true;
}
storage_status media_unavailable = record {
  availability = no_media;
  assert_busy = false;
  retryable = true;
}
storage_status failed = record { availability = has_failed; assert_busy = false; retryable = false }
