-- ===== src/Host/Dispatcher.antt =====
-- host/terminal/src/session_dispatcher.cpp: `SessionDispatcher`, which answers the lines of a client
-- from an image. The image file is a parameter: its operations on a state.
-- The vector of the blocks of a request is the list of its bytes.
pub mod Safety
use pico_sdemu.Common.{
  ℕ, zero, suc, ◌+◌, ◌-◌, ◌*◌, Bool, true, false, not, ◌&&◌, ◌||◌, Option, none, some, List, [],
  ◌∷◌, ◌++◌, if◌then◌else◌, ◌==◌, ltb, leb, length, eq_bytes, take, drop,
}
use pico_sdemu.Common.Bytes.{codes}
use pico_sdemu.Sd.Crc.{crc32}
use pico_sdemu.Cdc.Numbers.{Text, to_string, parse_u64, parse_hex32}
use pico_sdemu.Cdc.Text.{
  Token, parsed, rejected, parse_text_line, line_command, value_for, is_nonempty,
}
use pico_sdemu.Cdc.Codec.{decoded, failed_decode, decode_base64, encode_base64}
use pico_sdemu.Cdc.Client.{checksum_text}

-- `ImageFile`: an operation returns the new state and its result.
pub record Image (S : Type 0) : Type 0 where
  pub block_count : S → ℕ
  pub read_block : S → ℕ → S × Option (List ℕ)
  pub write_block : S → ℕ → List ℕ → S × Bool
  pub flush : S → S × Bool

pub record Dispatcher (S : Type 0) : Type 0 where
  pub image : S
  pub card_type : Text
  pub session_id : Text
  pub writable : Bool
  pub established : Bool
  pub ejected : Bool
  pub last_request_id : ℕ

abbrev pub maximum_transfer_blocks : ℕ
maximum_transfer_blocks = 16

abbrev pub image_block_size : ℕ
image_block_size = 512

unfoldable pub error_line : Text → Text → Text
error_line id code =
    codes "ERR id=" ++ (if is_nonempty id then id else codes "0") ++ codes " code=" ++ code

unfoldable pub canonical_card_type : Text → Text
canonical_card_type card_type =
    if eq_bytes card_type (codes "sdsc")
    then codes "SDSC"
    else if eq_bytes card_type (codes "sdhc")
    then codes "SDHC"
    else card_type

unfoldable pub valid_range : ℕ → ℕ → ℕ → Bool
valid_range lba count available_blocks =
    not (count == 0)
    && leb count maximum_transfer_blocks
    && ltb lba available_blocks
    && leb count (available_blocks - lba)

unfoldable pub new_dispatcher : {S : Type 0} → S → Text → Bool → Text → Dispatcher S
new_dispatcher image card_type writable session_id = record {
  image = image;
  card_type = canonical_card_type card_type;
  session_id = session_id;
  writable = writable;
  established = false;
  ejected = false;
  last_request_id = 0;
}

-- The start of each answer to a request of the session.
unfoldable pub ok_line : Text → Text → Text
ok_line id session_id = codes "OK id=" ++ id ++ codes " session=" ++ session_id

unfoldable pub hello_line : Text → Text → Text
hello_line id session_id = codes "OK id=" ++ id ++ codes " version=0.1 session=" ++ session_id

unfoldable pub info_line : Text → Text → ℕ → Bool → Text
info_line ok card_type block_count writable =
    ok
    ++ codes " present=1 type="
    ++ card_type
    ++ codes " blocks="
    ++ to_string block_count
    ++ codes " block_size=512 max_blocks="
    ++ to_string maximum_transfer_blocks
    ++ codes " readonly="
    ++ (if writable then codes "0" else codes "1")
    ++ codes " generation=1"

unfoldable pub blocks_line : Text → ℕ → ℕ → List ℕ → Text
blocks_line ok lba count blocks =
    ok
    ++ codes " lba="
    ++ to_string lba
    ++ codes " count="
    ++ to_string count
    ++ codes " encoding=BASE64 crc32="
    ++ checksum_text (crc32 blocks)
    ++ codes " data="
    ++ encode_base64 blocks

module _ {S : Type 0} (I : Image S) where
  -- The loop of `READ_BLOCKS` with `count` blocks left; the bytes of all of them, or a failure.
  unfoldable pub read_blocks : ℕ → ℕ → S → S × Option (List ℕ)
  read_blocks zero lba s = (s, some [])
  read_blocks (suc count) lba s =
      let (s', block) = I.read_block s lba in
      let (s'', rest) = read_blocks count (lba + 1) s' in
      elim block [
        | none ↦ (s', none)
        | some b ↦ (s'', elim rest [ none ↦ none | some bs ↦ some (b ++ bs) ])
      ]

  -- The loop of `WRITE_BLOCKS` over the bytes of `count` blocks.
  unfoldable pub write_blocks : ℕ → ℕ → List ℕ → S → S × Bool
  write_blocks zero lba bytes s = (s, true)
  write_blocks (suc count) lba bytes s =
      let (s', ok) = I.write_block s lba (take image_block_size bytes) in
      let rest = write_blocks count (lba + 1) (drop image_block_size bytes) s' in
      if ok then rest else (s', false)

  unfoldable pub dispatch_hello : Dispatcher S → List Token → Text → ℕ → Dispatcher S × Text
  dispatch_hello d tokens id request_id =
      if not (eq_bytes (value_for tokens (codes "version")) (codes "0.1"))
      then (d, error_line id (codes "UNSUPPORTED_VERSION"))
      else if d.established && leb request_id d.last_request_id
      then (d, error_line id (codes "STALE_ID"))
      else (
        record d { established = true; last_request_id = request_id },
        hello_line id d.session_id,
      )

  unfoldable pub dispatch_eject : Dispatcher S → Text → Dispatcher S × Text
  dispatch_eject d id =
      let (s, flushed) = I.flush d.image in
      if not flushed
      then (record d { image = s }, error_line id (codes "IO_ERROR"))
      else (record d { image = s; ejected = true }, ok_line id d.session_id)

  unfoldable pub dispatch_flush : Dispatcher S → Text → Dispatcher S × Text
  dispatch_flush d id =
      let (s, flushed) = I.flush d.image in
      (
        record d { image = s },
        (if flushed then ok_line id d.session_id else error_line id (codes "IO_ERROR")),
      )

  -- The blocks of a range, once it is known.
  unfoldable pub answer_read : Dispatcher S → Text → ℕ → ℕ → Dispatcher S × Text
  answer_read d id lba count =
      let (s, blocks) = read_blocks count lba d.image in
      elim blocks [
        | none ↦ (record d { image = s }, error_line id (codes "IO_ERROR"))
        | some bytes ↦
            (record d { image = s }, blocks_line (ok_line id d.session_id) lba count bytes)
      ]

  unfoldable pub dispatch_read : Dispatcher S → List Token → Text → Dispatcher S × Text
  dispatch_read d tokens id = elim (parse_u64 (value_for tokens (codes "lba"))) [
    | none ↦ (d, error_line id (codes "BAD_RANGE"))
    | some lba ↦ elim (parse_u64 (value_for tokens (codes "count"))) [
      | none ↦ (d, error_line id (codes "BAD_RANGE"))
      | some count ↦
          if not (eq_bytes (value_for tokens (codes "encoding")) (codes "BASE64"))
          then (d, error_line id (codes "BAD_RANGE"))
          else if not (valid_range lba count (I.block_count d.image))
          then (d, error_line id (codes "RANGE"))
          else answer_read d id lba count
    ]
  ]

  -- The data of a range, once it is known.
  unfoldable pub answer_write : Dispatcher S → Text → ℕ → ℕ → ℕ → Text → Dispatcher S × Text
  answer_write d id lba count checksum data_text =
      elim (decode_base64 data_text (count * image_block_size)) [
        | failed_decode e ↦ (d, error_line id (codes "BAD_DATA"))
        | decoded bytes ↦
            if not (length bytes == count * image_block_size)
            then (d, error_line id (codes "BAD_DATA"))
            else if not (crc32 bytes == checksum)
            then (d, error_line id (codes "BAD_CRC"))
            else let (s, ok) = write_blocks count lba bytes d.image in
              (
                record d { image = s },
                (if ok then ok_line id d.session_id else error_line id (codes "IO_ERROR")),
              )
      ]

  unfoldable pub dispatch_write : Dispatcher S → List Token → Text → Dispatcher S × Text
  dispatch_write d tokens id =
      if not d.writable
      then (d, error_line id (codes "READ_ONLY"))
      else elim (parse_u64 (value_for tokens (codes "lba"))) [
        | none ↦ (d, error_line id (codes "BAD_RANGE"))
        | some lba ↦ elim (parse_u64 (value_for tokens (codes "count"))) [
          | none ↦ (d, error_line id (codes "BAD_RANGE"))
          | some count ↦
              if not (eq_bytes (value_for tokens (codes "encoding")) (codes "BASE64"))
              then (d, error_line id (codes "BAD_RANGE"))
              else elim (parse_hex32 (value_for tokens (codes "crc32"))) [
                | none ↦ (d, error_line id (codes "BAD_RANGE"))
                | some checksum ↦
                    if not (valid_range lba count (I.block_count d.image))
                    then (d, error_line id (codes "RANGE"))
                    else answer_write d id lba count checksum (value_for tokens (codes "data"))
              ]
        ]
      ]

  -- A request of the session with a fresh id, by its command.
  unfoldable pub dispatch_command : Dispatcher S → List Token → Text → Dispatcher S × Text
  dispatch_command d tokens id =
      let command = line_command tokens in
      if d.ejected && not (eq_bytes command (codes "EJECT"))
      then (d, error_line id (codes "NO_MEDIA"))
      else if eq_bytes command (codes "GET_INFO")
      then (d, info_line (ok_line id d.session_id) d.card_type (I.block_count d.image) d.writable)
      else if eq_bytes command (codes "FLUSH")
      then dispatch_flush d id
      else if eq_bytes command (codes "EJECT")
      then dispatch_eject d id
      else if eq_bytes command (codes "READ_BLOCKS")
      then dispatch_read d tokens id
      else if eq_bytes command (codes "WRITE_BLOCKS")
      then dispatch_write d tokens id
      else (d, error_line id (codes "UNSUPPORTED"))

  -- A request other than `HELLO`.
  unfoldable pub dispatch_session : Dispatcher S → List Token → Text → ℕ → Dispatcher S × Text
  dispatch_session d tokens id request_id =
      let session = value_for tokens (codes "session") in
      if not d.established
      then (d, error_line id (codes "HANDSHAKE_REQUIRED"))
      else if not (is_nonempty session)
      then (d, error_line id (codes "MISSING_SESSION"))
      else if not (eq_bytes session d.session_id)
      then (d, error_line id (codes "BAD_SESSION"))
      else if leb request_id d.last_request_id
      then (d, error_line id (codes "STALE_ID"))
      else dispatch_command (record d { last_request_id = request_id }) tokens id

  unfoldable pub dispatch_tokens : Dispatcher S → List Token → Dispatcher S × Text
  dispatch_tokens d tokens =
      let id = value_for tokens (codes "id") in
      if not (is_nonempty id)
      then (d, error_line [] (codes "MISSING_ID"))
      else elim (parse_u64 id) [
        | none ↦ (d, error_line id (codes "BAD_ID"))
        | some request_id ↦
            if request_id == 0
            then (d, error_line id (codes "BAD_ID"))
            else if eq_bytes (line_command tokens) (codes "HELLO")
            then dispatch_hello d tokens id request_id
            else dispatch_session d tokens id request_id
      ]

  unfoldable pub dispatch : Dispatcher S → Text → Dispatcher S × Text
  dispatch d request = elim (parse_text_line request) [
    | rejected e ↦ (d, error_line [] (codes "BAD_LINE"))
    | parsed tokens ↦ dispatch_tokens d tokens
  ]
