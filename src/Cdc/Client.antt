-- ===== src/Cdc/Client.antt =====
-- shared/protocol/src/cdc_session_client.cpp: `CdcSessionClient`, one request at a time. A method that
-- changes the client returns it; a request is its error or its line.
pub mod LineIds
pub mod Requests
pub mod Replies
pub mod Refusals
use pico_sdemu.Common.{
  ℕ, zero, suc, ◌+◌, ◌*◌, ◌/◌, ◌%◌, ◌^◌, Bool, true, false, not, ◌&&◌, ◌||◌, Option, none, some,
  List, [], ◌∷◌, ◌++◌, if◌then◌else◌, ◌==◌, ltb, eq_bytes,
}
use pico_sdemu.Common.Bytes.{codes}
use pico_sdemu.Common.Word.{u64_max}
use pico_sdemu.Sd.Crc.{crc32}
use pico_sdemu.Cdc.Numbers.{Text, to_string, parse_u64}
use pico_sdemu.Cdc.Text.{
  Token, Parsed, parsed, rejected, parse_text_line, line_command, value_for, is_nonempty,
}
use pico_sdemu.Cdc.Codec.{encode_base64, hex_digit}

pub data ClientError : Type 0 where
  no_error busy not_negotiated invalid_request invalid_response mismatched_response remote_error
        id_exhausted :
      ClientError

pub data RemoteError : Type 0 where
  no_remote_error bad_line missing_id bad_id unsupported_version stale_id handshake_required
        missing_session bad_session no_media io_error bad_range range read_only bad_data bad_crc
        unsupported unknown :
      RemoteError

pub data RetryAdvice : Type 0 where
  do_not_retry retry_same_session renegotiate media_unavailable : RetryAdvice

unfoldable pub retry_advice : RemoteError → RetryAdvice
retry_advice io_error = retry_same_session
retry_advice stale_id = renegotiate
retry_advice handshake_required = renegotiate
retry_advice missing_session = renegotiate
retry_advice bad_session = renegotiate
retry_advice no_media = media_unavailable
retry_advice _ = do_not_retry

pub data Request : Type 0 where
  line : Text → Request
  refused : ClientError → Request

pub record Client : Type 0 where
  pub next_id : ℕ
  pub pending_id : ℕ
  pub pending_handshake : Bool
  pub negotiated : Bool
  pub session_id : Text
  pub remote : RemoteError
  pub remote_code : Text

abbrev pub new_client : Client
new_client = record {
  next_id = 1;
  pending_id = 0;
  pending_handshake = false;
  negotiated = false;
  session_id = [];
  remote = no_remote_error;
  remote_code = [];
}

abbrev pub request_pending : Client → Bool
request_pending c = not (c.pending_id == 0)

-- `parse_id`: a positive number that takes the whole text.
unfoldable pub parse_id : Text → Option ℕ
parse_id text = elim (parse_u64 text) [ none ↦ none | some n ↦ if n == 0 then none else some n ]

unfoldable pub protocol_version : Text
unfolding to_string
protocol_version = to_string 0 ++ codes "." ++ to_string 1

abbrev remote_table : List (Text × RemoteError)
remote_table =
    (codes "BAD_LINE", bad_line)
    ∷ (codes "MISSING_ID", missing_id)
    ∷ (codes "BAD_ID", bad_id)
    ∷ (codes "UNSUPPORTED_VERSION", unsupported_version)
    ∷ (codes "STALE_ID", stale_id)
    ∷ (codes "HANDSHAKE_REQUIRED", handshake_required)
    ∷ (codes "MISSING_SESSION", missing_session)
    ∷ (codes "BAD_SESSION", bad_session)
    ∷ (codes "NO_MEDIA", no_media)
    ∷ (codes "IO_ERROR", io_error)
    ∷ (codes "BAD_RANGE", bad_range)
    ∷ (codes "RANGE", range)
    ∷ (codes "READ_ONLY", read_only)
    ∷ (codes "BAD_DATA", bad_data)
    ∷ (codes "BAD_CRC", bad_crc)
    ∷ (codes "UNSUPPORTED", unsupported)
    ∷ []

remote_lookup : List (Text × RemoteError) → Text → RemoteError
remote_lookup [] code = unknown
remote_lookup ((name, e) ∷ table) code = if eq_bytes code name then e else remote_lookup table code

-- The chain of comparisons of `decode_remote_error`, as a table.
unfoldable pub decode_remote_error : Text → RemoteError
unfolding remote_lookup
decode_remote_error code = remote_lookup remote_table code

-- `reserve_request`: the client, and its request.
unfoldable pub reserve_request : Client → Text → Bool → Client × Request
reserve_request c text handshake = (
  record c {
    remote = no_remote_error;
    remote_code = [];
    pending_id = c.next_id;
    pending_handshake = handshake;
    next_id = if c.next_id == u64_max then 0 else c.next_id + 1;
  },
  line text,
)

unfoldable pub begin_handshake : Client → Client × Request
unfolding reserve_request protocol_version
begin_handshake c =
    if request_pending c
    then (c, refused busy)
    else if c.negotiated
    then (c, refused invalid_request)
    else if c.next_id == 0
    then (c, refused id_exhausted)
    else reserve_request c
        (codes "HELLO id=" ++ to_string c.next_id ++ codes " version=" ++ protocol_version) true

-- Names that a request's command may not have.
abbrev pub is_reserved : Text → Bool
is_reserved command =
    eq_bytes command (codes "HELLO")
    || eq_bytes command (codes "OK")
    || eq_bytes command (codes "ERR")

unfoldable pub request_line : Client → Text → Text → Text
request_line c command fields =
    let head =
      command ++ (codes " id=" ++ (to_string c.next_id ++ (codes " session=" ++ c.session_id))) in
    if is_nonempty fields then head ++ (codes " " ++ fields) else head

-- The line parses, and its command is this one.
abbrev pub parses_as : Text → Text → Bool
parses_as text command = elim (parse_text_line text) [
  | rejected e ↦ false
  | parsed tokens ↦ eq_bytes (line_command tokens) command
]

unfoldable pub begin_request : Client → Text → Text → Client × Request
unfolding reserve_request
begin_request c command fields =
    let text = request_line c command fields in
    if request_pending c
    then (c, refused busy)
    else if not c.negotiated
    then (c, refused not_negotiated)
    else if c.next_id == 0
    then (c, refused id_exhausted)
    else if not (is_nonempty command) || is_reserved command
    then (c, refused invalid_request)
    else if not (parses_as text command)
    then (c, refused invalid_request)
    else reserve_request c text false

unfoldable pub begin_get_info : Client → Client × Request
begin_get_info c = begin_request c (codes "GET_INFO") []

unfoldable pub read_fields : ℕ → Text
read_fields lba = codes "lba=" ++ to_string lba ++ codes " count=1 encoding=BASE64"

unfoldable pub begin_read_block : Client → ℕ → Client × Request
begin_read_block c lba = begin_request c (codes "READ_BLOCKS") (read_fields lba)

-- `snprintf` with `%08X`.
unfoldable pub checksum_text : ℕ → Text
checksum_text n =
    hex_digit (n / 2 ^ 28 % 16)
    ∷ hex_digit (n / 2 ^ 24 % 16)
    ∷ hex_digit (n / 2 ^ 20 % 16)
    ∷ hex_digit (n / 2 ^ 16 % 16)
    ∷ hex_digit (n / 2 ^ 12 % 16)
    ∷ hex_digit (n / 2 ^ 8 % 16)
    ∷ hex_digit (n / 2 ^ 4 % 16)
    ∷ hex_digit (n % 16)
    ∷ []

unfoldable pub write_fields : ℕ → List ℕ → Text
write_fields lba block =
    codes "lba="
    ++ to_string lba
    ++ codes " count=1 encoding=BASE64 crc32="
    ++ checksum_text (crc32 block)
    ++ codes " data="
    ++ encode_base64 block

unfoldable pub begin_write_block : Client → ℕ → List ℕ → Client × Request
begin_write_block c lba block = begin_request c (codes "WRITE_BLOCKS") (write_fields lba block)

unfoldable pub begin_flush : Client → Client × Request
begin_flush c = begin_request c (codes "FLUSH") []

unfoldable pub begin_eject : Client → Client × Request
begin_eject c = begin_request c (codes "EJECT") []

abbrev settle : Client → Client
settle c = record c { pending_id = 0; pending_handshake = false }

-- A correlated `ERR` line.
unfoldable pub accept_error : Client → List Token → Client × ClientError
unfolding decode_remote_error
accept_error c tokens =
    let code = value_for tokens (codes "code") in
    if not (is_nonempty code)
    then (c, invalid_response)
    else (settle (record c { remote = decode_remote_error code; remote_code = code }), remote_error)

-- A correlated `OK` line.
unfoldable pub accept_ok : Client → List Token → Client × ClientError
accept_ok c tokens =
    let session = value_for tokens (codes "session") in
    if c.pending_handshake
    then if not (eq_bytes (value_for tokens (codes "version")) protocol_version)
        || not (is_nonempty session)
      then (c, invalid_response)
      else (settle (record c { session_id = session; negotiated = true }), no_error)
    else if not (eq_bytes session c.session_id)
    then (c, mismatched_response)
    else (settle c, no_error)

-- A response that parses.
unfoldable pub accept_tokens : Client → List Token → Client × ClientError
unfolding accept_error accept_ok parse_id
accept_tokens c tokens =
    let is_ok = eq_bytes (line_command tokens) (codes "OK") in
    let is_err = eq_bytes (line_command tokens) (codes "ERR") in
    if not is_ok && not is_err
    then (c, invalid_response)
    else elim (parse_id (value_for tokens (codes "id"))) [
      | none ↦ (c, invalid_response)
      | some response_id ↦
          if not (response_id == c.pending_id)
          then (c, mismatched_response)
          else if is_err
          then accept_error c tokens
          else accept_ok c tokens
    ]

unfoldable pub accept_response : Client → Text → Client × ClientError
unfolding accept_tokens
accept_response c response =
    if not (request_pending c) then (c, mismatched_response) else elim (parse_text_line response) [
      | rejected e ↦ (c, invalid_response)
      | parsed tokens ↦ accept_tokens c tokens
    ]

unfoldable pub cancel_pending_request : Client → Client × Bool
cancel_pending_request c = if not (request_pending c) then (c, false) else (settle c, true)

unfoldable pub reset_client : Client → Client
reset_client c = new_client
