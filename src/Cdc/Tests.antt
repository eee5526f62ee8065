-- ===== src/Cdc/Tests.antt =====
-- The link's theorems at concrete lines, clients, coordinators and bytes.
use mathlib.Core.List.{Memᴰ}
use pico_sdemu.Common.{
  ◌+◌, ◌-◌, ◌*◌, ◌^◌, ◌≡◌, ◌≢◌, ◌<◌, refl, true, false, List, [], ◌∷◌, arith, min, some, ltb, leb,
  if◌then◌else◌,
}
use pico_sdemu.Common.Bytes.{codes}
use pico_sdemu.Cdc.Numbers.{to_string}
use pico_sdemu.Cdc.Text.{Token, parsed, parse_text_line, line_command, value_for}
use pico_sdemu.Cdc.Text.Lines.{Line, tokens_of, print_line, IsWellFormed}
use pico_sdemu.Cdc.Text.RoundTrip.{parse-print}
use pico_sdemu.Cdc.Codec.{decoded, encode_base64, decode_base64}
use pico_sdemu.Cdc.Codec.RoundTrip.{decode-encode_base64}
use pico_sdemu.Cdc.Client.{
  Client, new_client, no_error, accept_response, parse_id, retry_same_session, begin_request,
  begin_flush, request_line,
}
use pico_sdemu.Cdc.Client.Requests.{
  ClientCall, hello, give_up, asks, hears, ids_issued, Ascends, ids_issued_ascend,
}
use pico_sdemu.Cdc.Client.Replies.{is_final, final_is_correlated, reply_is_accepted}
use pico_sdemu.Cdc.Retry.{
  RetryController, new_retry, bounded_backoff, record_failure, poll_retry, consume_retry, wait,
  ready,
}
use pico_sdemu.Cdc.Retry.Backoff.{
  new-IsConfigured, due_time, bounded_backoff-closed, retry_schedule,
}
use pico_sdemu.Cdc.Operation.{retain_flush, issue_operation}
use pico_sdemu.Cdc.Coordinator.{Coordinator, new_coordinator, start, expire, is_awaiting}
use pico_sdemu.Cdc.Coordinator.Invariant.{
  Inv, Call, is_at_rest, starts, polls, retries, expires, call, calls, calls-new-CoordinatorInv,
}
use pico_sdemu.Cdc.Coordinator.Retained.{call_keeps_operation, silence, silence_fails, is_failed}

-- `OK id=7 session=A1`.
abbrev ok_fields : List (Token × Token)
ok_fields = (codes "id", codes "7") ∷ (codes "session", codes "A1") ∷ []

abbrev ok_line : Line
ok_line = record { command = codes "OK"; fields = ok_fields }

ok_IsWellFormed : IsWellFormed ok_line
ok_IsWellFormed = record {
  named = ground arith;
  printable = ground arith;
  no_equals = ground arith;
  fits = omega arith;
  keyed = ground arith;
}

parse-print_example : parse_text_line (print_line ok_line) ≡ parsed (tokens_of ok_line)
parse-print_example = parse-print ok_line ok_IsWellFormed

id_is_field : Memᴰ (codes "id", codes "7") ok_fields
id_is_field = Memᴰ.head refl

session_is_field : Memᴰ (codes "session", codes "A1") ok_fields
session_is_field = Memᴰ.tail (Memᴰ.head refl)

-- A client that waits for the response to its request 7.
abbrev asking_client : Client
asking_client = record new_client {
  next_id = 8;
  pending_id = 7;
  negotiated = true;
  session_id = codes "A1";
}

seven_prints : to_string 7 ≡ codes "7"
unfolding to_string
seven_prints = refl

id_is_printed : Memᴰ (codes "id", to_string asking_client.pending_id) ok_fields
unfolding to_string
id_is_printed = id_is_field

ok_is_accepted :
    accept_response asking_client (print_line (record { command = codes "OK"; fields = ok_fields }))
    ≡ (record asking_client { pending_id = 0; pending_handshake = false }, no_error)
ok_is_accepted =
    reply_is_accepted asking_client ok_fields ok_IsWellFormed id_is_printed session_is_field refl
      (omega arith) (omega arith)

reply_is_accepted_example :
    accept_response asking_client (print_line (record { command = codes "OK"; fields = ok_fields }))
    ≡ (record asking_client { pending_id = 0; pending_handshake = false }, no_error)
reply_is_accepted_example =
    reply_is_accepted asking_client ok_fields ok_IsWellFormed id_is_printed session_is_field refl
      (omega arith) (omega arith)

ok_is_final : is_final (accept_response asking_client (print_line ok_line)).1 ≡ true
ok_is_final = rw ok_is_accepted refl

final_is_correlated_example :
    (asking_client.pending_id ≢ 0)
    × (parse_id (value_for (tokens_of ok_line) (codes "id")) ≡ some asking_client.pending_id)
    × ((accept_response asking_client (print_line ok_line)).0.pending_id ≡ 0)
    × ((accept_response asking_client (print_line ok_line)).0.next_id ≡ asking_client.next_id)
final_is_correlated_example =
    final_is_correlated asking_client (print_line ok_line) (tokens_of ok_line)
      (parse-print ok_line ok_IsWellFormed) ok_is_final

abbrev client_script : List ClientCall
client_script = hello ∷ give_up ∷ asks (codes "FLUSH") [] ∷ hello ∷ hears (codes "OK") ∷ []

ids_issued_ascend_example : Ascends 1 (ids_issued new_client client_script)
ids_issued_ascend_example = ids_issued_ascend new_client client_script (omega arith)

decode-encode_base64_example :
    decode_base64 (encode_base64 (0 ∷ 171 ∷ 255 ∷ 9 ∷ [])) 512 ≡ decoded (0 ∷ 171 ∷ 255 ∷ 9 ∷ [])
decode-encode_base64_example =
    decode-encode_base64 (0 ∷ 171 ∷ 255 ∷ 9 ∷ []) 512 (ground arith) (omega arith)

bounded_backoff-closed_example : bounded_backoff 100 1000 3 ≡ min (100 * 2 ^ 3) 1000
bounded_backoff-closed_example = bounded_backoff-closed 100 1000 3 (omega arith)

abbrev new_controller : RetryController
new_controller = new_retry 3 100 1000

new_has_retries : new_controller.retries_scheduled < new_controller.maximum_retries
unfolding new_retry
new_has_retries = omega arith

retry_schedule_example :
    let (s, decision) = record_failure new_controller retry_same_session 50 in
    (decision ≡ wait)
    × (s.retries_scheduled ≡ new_controller.retries_scheduled + 1)
    × (s.retry_at ≡ due_time new_controller 50)
    × ((poll_retry s 90 ≡ (if ltb 90 (due_time new_controller 50) then wait else ready))
        × ((consume_retry s 90).1 ≡ leb (due_time new_controller 50) 90)
        × ((consume_retry (consume_retry s 90).0 90).1 ≡ false))
retry_schedule_example =
    retry_schedule new_controller 50 90 (new-IsConfigured 3 100 1000 (omega arith) (omega arith))
      new_has_retries (omega arith)

-- A client with a session and nothing pending, and a coordinator of at most two retries.
abbrev session_client : Client
session_client = record new_client { next_id = 8; negotiated = true; session_id = codes "A1" }

abbrev fresh : Coordinator
fresh = new_coordinator 500 2 100 1000

abbrev coordinator_script : List Call
coordinator_script = starts retain_flush 0 ∷ expires 500 ∷ polls 550 ∷ retries 600 ∷ []

calls-new-CoordinatorInv_example :
    let p = calls (fresh, session_client) coordinator_script in Inv p.0 p.1
calls-new-CoordinatorInv_example =
    calls-new-CoordinatorInv 500 2 100 1000 session_client coordinator_script

abbrev started : Coordinator × Client
started = call (fresh, session_client) (starts retain_flush 0)

started_awaits : is_awaiting started.0.state ≡ true
unfolding call start new_coordinator issue_operation begin_flush begin_request parse_text_line
    request_line to_string line_command
started_awaits = refl

started_holds : is_at_rest started.0.state ≡ false
unfolding call start new_coordinator issue_operation begin_flush begin_request parse_text_line
    request_line to_string line_command
started_holds = refl

expired_holds : is_at_rest (call started (expires 500)).0.state ≡ false
unfolding call start expire new_retry new_coordinator issue_operation begin_flush begin_request
    parse_text_line request_line to_string line_command
expired_holds = refl

call_keeps_operation_example : (call started (expires 500)).0.operation ≡ started.0.operation
call_keeps_operation_example =
    call_keeps_operation started.0 started.1 (expires 500) started_holds expired_holds

started_Inv : Inv started.0 started.1
unfolding call calls
started_Inv = calls-new-CoordinatorInv 500 2 100 1000 session_client (starts retain_flush 0 ∷ [])

two_retries : started.0.retry.maximum_retries - started.0.retry.retries_scheduled < 3
unfolding call start new_coordinator new_retry issue_operation begin_flush begin_request
    parse_text_line request_line to_string line_command
two_retries = omega arith

silence_fails_example : is_failed (silence 3 started.0 started.1).0.state ≡ true
silence_fails_example = silence_fails 3 started.0 started.1 started_Inv started_awaits two_retries
