-- ===== src/Sd/Framers.antt =====
-- shared/protocol/src/sd_spi_command_framer.cpp and sd_spi_data_framer.cpp: byte framers. Each
-- `push_byte` returns the framer and what it hands out.
pub mod Stream
use Prim.Native.Nat.{bit_or}
use pico_sdemu.Common.{
  ℕ, ◌+◌, ◌*◌, ◌/◌, ◌%◌, ◌^◌, Bool, true, false, not, ◌&&◌, ◌||◌, Option, none, some, List, [], ◌∷◌,
  if◌then◌else◌, ◌==◌, set, replicate,
}
use pico_sdemu.Common.Word.{u8, u16}
use pico_sdemu.Sd.Storage.{block_size}
use pico_sdemu.Sd.Command.{
  CrcPolicy, DecodeResult, decode_command, start_block_token, is_multi_write_data_token,
  is_multi_write_stop_token,
}

abbrev pub command_frame_size : ℕ
command_frame_size = 6

pub record CommandFramer : Type 0 where
  pub frame : List ℕ
  pub count : ℕ

unfoldable pub new_command_framer : CommandFramer
new_command_framer = record { frame = replicate command_frame_size 0; count = 0 }

unfoldable pub reset_command : CommandFramer → CommandFramer
reset_command f = record f { count = 0 }

unfoldable pub command_receiving : CommandFramer → Bool
command_receiving f = not (f.count == 0)

-- What follows the test of the first byte.
pub accept_byte : CommandFramer → ℕ → CrcPolicy → CommandFramer × Option DecodeResult
unfolding reset_command
accept_byte f byte crc_policy =
    let stored = record f { frame = set f.frame f.count byte; count = f.count + 1 } in
    if not (stored.count == command_frame_size)
    then (stored, none)
    else (reset_command stored, some (decode_command stored.frame crc_policy))

unfoldable pub push_command_byte :
    CommandFramer → ℕ → CrcPolicy → CommandFramer × Option DecodeResult
unfolding accept_byte
push_command_byte f byte crc_policy =
    if f.count == 0 && not (byte / 64 == 1) then (f, none) else accept_byte f byte crc_policy

pub data WriteMode : Type 0 where
  single_block multi_block : WriteMode

-- `SdSpiDataEvent` by its type; a `Stop` carries no data.
pub data DataEvent : Type 0 where
  block_event : List ℕ → ℕ → DataEvent
  stop_event : DataEvent

pub data FramerState : Type 0 where
  idle waiting_for_token in_payload crc_high crc_low : FramerState

pub record DataFramer : Type 0 where
  pub state : FramerState
  pub mode : WriteMode
  pub payload : List ℕ
  pub payload_size : ℕ
  pub crc : ℕ

unfoldable pub new_data_framer : DataFramer
new_data_framer = record {
  state = idle;
  mode = single_block;
  payload = replicate block_size 0;
  payload_size = 0;
  crc = 0;
}

abbrev pub is_multi : WriteMode → Bool
is_multi multi_block = true
is_multi single_block = false

abbrev pub is_idle_framer : FramerState → Bool
is_idle_framer idle = true
is_idle_framer s = false

unfoldable pub reset_data : DataFramer → DataFramer
reset_data f = record f { state = idle; payload_size = 0; crc = 0 }

unfoldable pub begin_data : DataFramer → WriteMode → DataFramer
unfolding reset_data
begin_data f mode = record (reset_data f) { mode = mode; state = waiting_for_token }

unfoldable pub data_receiving : DataFramer → Bool
data_receiving f = not (is_idle_framer f.state)

pub push_by_state : FramerState → DataFramer → ℕ → DataFramer × Option DataEvent
unfolding is_multi_write_data_token is_multi_write_stop_token
push_by_state idle f byte = (f, none)
push_by_state waiting_for_token f byte =
    if is_multi f.mode && is_multi_write_stop_token byte
    then (record f { state = idle }, some stop_event)
    else if (not (is_multi f.mode) && (byte == start_block_token))
        || (is_multi f.mode && is_multi_write_data_token byte)
    then (record f { payload_size = 0; crc = 0; state = in_payload }, none)
    else (f, none)
push_by_state in_payload f byte =
    let stored = record f {
      payload = set f.payload f.payload_size byte;
      payload_size = f.payload_size + 1;
    } in
    if stored.payload_size == block_size
    then (record stored { state = crc_high }, none)
    else (stored, none)
push_by_state crc_high f byte = (record f { crc = u16 (byte * 2 ^ 8); state = crc_low }, none)
push_by_state crc_low f byte =
    let joined = record f { crc = bit_or f.crc byte } in
    (
      record joined { state = if is_multi f.mode then waiting_for_token else idle },
      some (block_event joined.payload joined.crc),
    )

unfoldable pub push_data_byte : DataFramer → ℕ → DataFramer × Option DataEvent
unfolding push_by_state
push_data_byte f byte = push_by_state f.state f byte
