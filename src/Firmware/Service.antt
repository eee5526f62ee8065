-- ===== src/Firmware/Service.antt =====
-- firmware/src/cdc_backend_service.cpp: the session of the firmware with the host. Its static variables
-- are a record; the USB device and the clock are a parameter with a state of its own.
use pico_sdemu.Common.{
  ℕ, ◌+◌, ◌-◌, Bool, true, false, not, ◌&&◌, ◌||◌, Option, none, some, List, [], ◌∷◌, ◌++◌,
  if◌then◌else◌, leb, eq_bytes, take,
}
use pico_sdemu.Common.Bytes.{codes}
use pico_sdemu.Common.Word.{u64}
use pico_sdemu.Cdc.Numbers.{Text}
use pico_sdemu.Cdc.Text.{is_nonempty}
use pico_sdemu.Cdc.Client.{Request, line, refused}
use pico_sdemu.Cdc.Client.Refusals.{is_no_error}
use pico_sdemu.Cdc.Coordinator.{OperationState, is_waiting_retry, is_retry_ready}
use pico_sdemu.Cdc.Responses.{MediaInfo, unknown_media}
use pico_sdemu.Cdc.Backend.{
  Backend, new_backend, begin_handshake, accept_handshake, begin_get_info, accept_get_info,
  begin_read, begin_write, accept_response, expire_if_due, poll, issue_retry, copy_ready,
  disconnect, invalidate, transfer_active,
}

-- `cdc_connected`, `write_cdc` and `time_us_64`.
pub record Cdc (D : Type 0) : Type 0 where
  pub connected : D → Bool
  pub write : D → Text → D × Bool
  pub time : D → ℕ

abbrev pub request_timeout_us : ℕ
request_timeout_us = 250000

abbrev pub initial_retry_backoff_us : ℕ
initial_retry_backoff_us = 10000

abbrev pub maximum_retry_backoff_us : ℕ
maximum_retry_backoff_us = 100000

pub record Service (D : Type 0) : Type 0 where
  pub device : D
  pub backend : Backend
  pub was_connected : Bool
  pub handshake_pending : Bool
  pub info_pending : Bool
  pub info_known : Bool
  pub started_at : ℕ
  pub media_info : MediaInfo

-- The static variables as declared, over a pool of `capacity` sectors.
unfoldable pub new_service : {D : Type 0} → D → ℕ → Service D
new_service device capacity = record {
  device = device;
  backend =
      new_backend capacity request_timeout_us 2 initial_retry_backoff_us maximum_retry_backoff_us;
  was_connected = false;
  handshake_pending = false;
  info_pending = false;
  info_known = false;
  started_at = 0;
  media_info = unknown_media;
}

unfoldable pub cdc_media_ready : {D : Type 0} → Service D → Bool
cdc_media_ready s = s.backend.client.negotiated && s.media_info.present

-- What is forgotten with the session.
abbrev pub forget_session : {D : Type 0} → Service D → Service D
forget_session s = record s {
  handshake_pending = false;
  info_pending = false;
  info_known = false;
  started_at = 0;
  media_info = unknown_media;
}

unfoldable pub initialize_cdc_backend_service : {D : Type 0} → Service D → Service D
initialize_cdc_backend_service s = record (forget_session s) { was_connected = false }

-- `line.rfind(prefix, 0) == 0` for the two kinds of responses.
unfoldable pub is_response : Text → Bool
is_response text = eq_bytes (take 3 text) (codes "OK ") || eq_bytes (take 4 text) (codes "ERR ")

abbrev pub waits_for_retry : OperationState → Bool
waits_for_retry state = is_waiting_retry state || is_retry_ready state

module _ {D : Type 0} (C : Cdc D) where
  -- The line with its terminator goes to the device.
  unfoldable pub send_request : D → Request → D × Bool
  send_request d (refused e) = (d, false)
  send_request d (line text) =
      if not (is_nonempty text) then (d, false) else C.write d (text ++ (10 ∷ []))

  -- A started transfer, by what became of its line.
  unfoldable pub sent_or_invalid : Service D → D × Bool → Service D × Bool
  sent_or_invalid s (d, true) = (record s { device = d }, true)
  sent_or_invalid s (d, false) = (record s { device = d; backend = invalidate s.backend }, false)

  unfoldable pub begin_cdc_read : Service D → ℕ → ℕ → Service D × Bool
  begin_cdc_read s lba generation =
      let (b, request) = begin_read s.backend lba generation (C.time s.device) in
      let s' = record s { backend = b } in
      elim request [
        | refused e ↦ (s', false)
        | line text ↦
            if not (is_nonempty text)
            then (s', true)
            else sent_or_invalid s' (send_request s.device (line text))
      ]

  unfoldable pub begin_cdc_write : Service D → ℕ → ℕ → List ℕ → Service D × Bool
  begin_cdc_write s lba generation block =
      let (b, request) = begin_write s.backend lba generation block (C.time s.device) in
      let s' = record s { backend = b } in
      elim request [
        | refused e ↦ (s', false)
        | line text ↦ sent_or_invalid s' (send_request s.device (line text))
      ]

  unfoldable pub copy_cdc_ready : Service D → ℕ → ℕ → Service D × Option (List ℕ)
  copy_cdc_ready s lba generation =
      let (b, block) = copy_ready s.backend lba generation in (record s { backend = b }, block)

  -- The handshake goes out, and is pending if it could be written.
  unfoldable pub start_handshake : Service D → Service D
  unfolding send_request
  start_handshake s =
      let (b, request) = begin_handshake s.backend in
      let (d, sent) = send_request s.device request in
      record s {
        device = d;
        backend = if sent then b else disconnect b;
        handshake_pending = sent;
        started_at = if sent then C.time d else 0;
      }

  unfoldable pub start_info : Service D → Service D
  unfolding send_request
  start_info s =
      let (b, request) = begin_get_info s.backend in
      let (d, sent) = send_request s.device request in
      record s {
        device = d;
        backend = if sent then b else disconnect b;
        info_pending = sent;
        started_at = if sent then C.time d else 0;
      }

  -- The timeout of a pending handshake or information request; the difference wraps.
  unfoldable pub expire_session : Service D → Service D
  expire_session s =
      if leb request_timeout_us (u64 ((C.time s.device + 18446744073709551616) - s.started_at))
      then forget_session (record s { backend = disconnect s.backend })
      else s

  -- A transfer whose backoff may have passed.
  unfoldable pub drive_retry : Service D → ℕ → Service D
  unfolding send_request
  drive_retry s now =
      let (b, state) = poll s.backend now in
      let (b', request) = issue_retry b now in
      let (d, sent) = send_request s.device request in
      if is_retry_ready state
      then record s { backend = b'; device = d }
      else record s { backend = b }

  unfoldable pub drive_transfer : Service D → Service D
  unfolding drive_retry
  drive_transfer s =
      let now = C.time s.device in
      let (b, state) = expire_if_due s.backend now in
      let s' = record s { backend = b } in if waits_for_retry state then drive_retry s' now else s'

  unfoldable pub poll_cdc_backend_service : Service D → Service D
  unfolding start_handshake start_info expire_session drive_transfer
  poll_cdc_backend_service s =
      if not (C.connected s.device)
      then forget_session (record s {
        backend = if s.was_connected then disconnect s.backend else s.backend;
        was_connected = false;
      })
      else if not s.was_connected
      then start_handshake (record s { was_connected = true })
      else if not s.backend.client.negotiated && not s.handshake_pending
      then start_handshake s
      else if s.backend.client.negotiated
          && not s.info_pending
          && not (transfer_active s.backend)
          && not s.info_known
      then start_info s
      else if s.handshake_pending || s.info_pending
      then expire_session s
      else drive_transfer s

  unfoldable pub handle_handshake : Service D → Text → Service D
  handle_handshake s text =
      let (b, result) = accept_handshake s.backend text in
      record s {
        backend = if is_no_error result then b else disconnect b;
        handshake_pending = false;
        started_at = 0;
      }

  -- The information that is known before stays where the answer is not decoded.
  abbrev pub info_or : Option MediaInfo → MediaInfo → MediaInfo
  info_or none info = info
  info_or (some new) info = new

  unfoldable pub handle_info : Service D → Text → Service D
  handle_info s text =
      let (b, result, info) = accept_get_info s.backend text in
      let ok = is_no_error result in
      record s {
        backend = if ok then b else disconnect b;
        info_pending = false;
        info_known = ok;
        started_at = 0;
        media_info = if ok then info_or info s.media_info else unknown_media;
      }

  unfoldable pub handle_cdc_backend_response : Service D → Text → Service D × Bool
  unfolding handle_handshake handle_info is_response
  handle_cdc_backend_response s text =
      if not (is_response text)
      then (s, false)
      else if s.handshake_pending
      then (handle_handshake s text, true)
      else if s.info_pending
      then (handle_info s text, true)
      else if not (transfer_active s.backend)
      then (s, false)
      else (record s { backend = (accept_response s.backend text (C.time s.device)).0 }, true)
