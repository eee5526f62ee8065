-- ===== src/Firmware/Tests.antt =====
-- The firmware's theorems along a run: a handshake, a write of a block of one byte and its answer.
use pico_sdemu.Common.{ℕ, ◌≡◌, refl, true, false, some, List, [], ◌∷◌}
use pico_sdemu.Common.Bytes.{codes}
use pico_sdemu.Cdc.Numbers.{Text, to_string, parse_u64}
use pico_sdemu.Cdc.Client.{
  refused, busy, begin_handshake as client_begin_handshake,
  begin_read_block as client_begin_read_block, begin_write_block as client_begin_write_block,
  begin_request as client_begin_request, accept_response as client_accept_response, request_line,
  read_fields, write_fields, checksum_text, reserve_request, protocol_version, parse_id,
  accept_tokens, accept_ok,
}
use pico_sdemu.Cdc.Operation.{issue_type, issue_operation}
use pico_sdemu.Cdc.Deadline.{arm}
use pico_sdemu.Cdc.Retry.{new_retry, record_success}
use pico_sdemu.Cdc.Pool.{
  new_pool, choose, reserve, reserve_read, update, reserve_write, checked, complete_write,
  find_from, find_ready, invalidate_ready, copy_ready as pool_copy_ready,
}
use pico_sdemu.Cdc.Text.{
  all_printable, has_equals, field_key, after_equals, field_value, is_valid_token, has_key,
  add_token, scan_token, parse_from, parse_text_line, line_command, find_value, value_for,
}
use pico_sdemu.Cdc.Codec.{hex_digit, b64_digit, encode_base64}
use pico_sdemu.Sd.Crc.{crc32}
use pico_sdemu.Sd.Registers.{sdhc}
use pico_sdemu.Sd.State.{fault}
use pico_sdemu.Sd.Model.{CardModel, new_model, retry_pending_read}
use pico_sdemu.Firmware.SdBackend.Retry.{retried_read_faults}
use pico_sdemu.Cdc.Coordinator.{new_coordinator, failed, issue, start, accept}
use pico_sdemu.Cdc.Backend.{
  Backend, new_backend, begin_handshake, accept_handshake, ready_for_transfer,
  clear_transfer_tracking, select_generation, retain_transfer, start_read, read_selected,
  begin_read, start_write, write_selected, begin_write, begin_get_info, valid_read,
  complete_transfer, settle_response, accept_response, copy_ready,
}
use pico_sdemu.Cdc.Backend.Counters.{
  write_transfer, count_up, record_completion, record_write_busy_duration, count_completed,
}
use pico_sdemu.Cdc.Backend.Medium.{
  Disk, put, BackendCall, hello, hears_hello, writes, reads, polls, backend_call, calls,
  host_writes, written_answer, here, next,
}
use pico_sdemu.Cdc.Backend.Medium.Cache.{copy_ready_is_medium}
use pico_sdemu.Cdc.Backend.Stuck.{backend_calls, failed_is_final}
use pico_sdemu.Sd.Storage.{pending_read, failed_read, complete_read, complete}
use pico_sdemu.Firmware.Service.{
  Cdc, new_service, request_timeout_us, initial_retry_backoff_us, maximum_retry_backoff_us,
  send_request, sent_or_invalid, begin_cdc_read, copy_cdc_ready,
}
use pico_sdemu.Firmware.SdBackend.{
  SdBackend, new_sd_backend, address_valid, request_read, read, retry_write, write, cdc_storage,
}
use pico_sdemu.Firmware.SdBackend.Truth.{Serves, read_is_medium, write_is_stored}

-- A device whose state is the lines that it was given.
abbrev wire : Cdc (List Text)
wire = record { connected = λ d. true; write = λ d text. (text ∷ d, true); time = λ d. 5 }

abbrev blank : Disk
blank = λ (lba : ℕ). 0 ∷ []

abbrev fresh : Backend
fresh = new_backend 1 request_timeout_us 2 initial_retry_backoff_us maximum_retry_backoff_us

abbrev greeted : Backend
greeted =
    backend_call (backend_call fresh hello) (hears_hello (codes "OK id=1 version=0.1 session=A1"))

abbrev writing_one : Backend
writing_one = backend_call greeted (writes 0 7 (1 ∷ []) 5)

abbrev disk_after : Disk
disk_after = put writing_one.lba writing_one.coordinator.operation.block blank

abbrev written_one : Backend
written_one = (accept_response writing_one (codes "OK id=2 session=A1") 6).0

-- The card's storage over a backend, with one block of generation 7.
abbrev card_over : Backend → SdBackend (List Text)
card_over b = record (new_sd_backend (record (new_service [] 1) { backend = b })) {
  blocks = 1;
  generation = 7;
  present = true;
  read_only = false;
}

abbrev waiting : SdBackend (List Text)
waiting = record (card_over written_one) { write_pending = true; pending_write_data = 1 ∷ [] }

record IsRun : Type 0 where
  is_writing : writing_one.transfer ≡ write_transfer
  has_written : disk_after writing_one.lba ≡ writing_one.coordinator.operation.block
  is_cached : (copy_ready written_one 0 7).1 ≡ some (1 ∷ [])
  is_read : (read wire (card_over written_one) 0).1 ≡ complete_read (1 ∷ [])
  is_written : (write wire waiting 0 (1 ∷ [])).1 ≡ complete
  is_pending : (read wire (card_over greeted) 0).1 ≡ pending_read

run-IsRun : IsRun
unfolding new_backend begin_handshake accept_handshake ready_for_transfer clear_transfer_tracking
    select_generation retain_transfer start_read read_selected begin_read start_write write_selected
    begin_write valid_read complete_transfer settle_response accept_response copy_ready count_up
    record_completion record_write_busy_duration count_completed backend_call client_begin_handshake
    client_begin_read_block client_begin_write_block client_begin_request client_accept_response
    request_line read_fields write_fields checksum_text reserve_request protocol_version parse_id
    accept_tokens accept_ok new_coordinator issue start accept issue_type issue_operation arm
    new_retry record_success new_pool choose reserve reserve_read update reserve_write checked
    complete_write find_from find_ready invalidate_ready pool_copy_ready all_printable has_equals
    field_key after_equals field_value is_valid_token has_key add_token scan_token parse_from
    parse_text_line line_command find_value value_for to_string parse_u64 hex_digit b64_digit
    encode_base64 crc32 new_service send_request sent_or_invalid begin_cdc_read copy_cdc_ready
    new_sd_backend address_valid request_read read retry_write write
run-IsRun = record {
  is_writing = refl;
  has_written = refl;
  is_cached = refl;
  is_read = refl;
  is_written = refl;
  is_pending = refl;
}

run_reaches : Serves 1 blank written_one disk_after
run_reaches =
    next writing_one written_one disk_after disk_after
      (next writing_one writing_one blank disk_after
        (next greeted writing_one blank blank
          (next (backend_call fresh hello) greeted blank blank
            (next fresh (backend_call fresh hello) blank blank here (calls hello))
            (calls (hears_hello (codes "OK id=1 version=0.1 session=A1"))))
          (calls (writes 0 7 (1 ∷ []) 5)))
        (host_writes run-IsRun.is_writing))
      (written_answer (codes "OK id=2 session=A1") 6 run-IsRun.is_writing run-IsRun.has_written)

copy_ready_is_medium_example :
    ((1 ∷ []) ≡ disk_after 0)
    × (written_one.has_generation ≡ true)
    × (written_one.media_generation ≡ 7)
copy_ready_is_medium_example =
    copy_ready_is_medium 1 request_timeout_us 2 initial_retry_backoff_us maximum_retry_backoff_us
      blank disk_after written_one 0 7 (1 ∷ []) run_reaches run-IsRun.is_cached

read_is_medium_example : ((1 ∷ []) ≡ disk_after 0) × (written_one.media_generation ≡ 7)
unfolding new_sd_backend accept_response
read_is_medium_example =
    read_is_medium wire 1 blank disk_after (card_over written_one) 0 (1 ∷ []) run_reaches
      run-IsRun.is_read

write_is_stored_example : disk_after 0 ≡ (1 ∷ [])
unfolding new_sd_backend accept_response
write_is_stored_example =
    write_is_stored wire 1 blank disk_after waiting 0 (1 ∷ []) run_reaches run-IsRun.is_written

-- The card's model, waiting for a block that the storage has asked for.
abbrev reading_model : CardModel (SdBackend (List Text))
reading_model = record (new_model (cdc_storage wire) sdhc (read wire (card_over greeted) 0).0) {
  pending_read_active = true;
  pending_read_lba = 0;
}

retried_read_faults_example :
    let (m', result) = retry_pending_read (cdc_storage wire) reading_model in
    (result ≡ failed_read) × (m'.state ≡ fault) × (m'.pending_read_active ≡ false)
unfolding new_model
retried_read_faults_example =
    retried_read_faults wire reading_model (card_over greeted) refl run-IsRun.is_pending refl

abbrev given_up : Backend
given_up = record fresh { coordinator = record (new_coordinator 5 0 1 1) { state = failed } }

abbrev more_calls : List BackendCall
more_calls = hello ∷ reads 0 7 3 ∷ polls 100 ∷ []

failed_is_final_example :
    let b' = backend_calls given_up more_calls in
    (begin_read b' 0 7 200 ≡ (b', refused busy))
    × (begin_write b' 0 7 (1 ∷ []) 200 ≡ (b', refused busy))
    × (begin_get_info b' ≡ (b', refused busy))
failed_is_final_example =
    failed_is_final given_up more_calls 0 7 200 (1 ∷ []) refl (refl, (refl, (refl, tt)))
