-- ===== src/Sd/Command.antt =====
-- shared/protocol/include/picosd/protocol/sd_command.hpp and shared/protocol/src/sd_command.cpp:
-- command frames, responses and data blocks. `value & mask` with a mask of low ones is a remainder,
-- and a test of the high bits is a test of the quotient; the bytes that a command's argument is joined
-- from do not overlap, so the join is a sum.
pub mod Frames
use Prim.Native.Nat.{bit_or}
use pico_sdemu.Common.{
  ℕ, ◌+◌, ◌*◌, ◌/◌, ◌%◌, ◌^◌, Bool, true, false, not, ◌&&◌, List, [], ◌∷◌, ◌++◌, if◌then◌else◌,
  ◌==◌, get_or, take,
}
use pico_sdemu.Common.Word.{u8, u32}
use pico_sdemu.Sd.Crc.{crc7_command_byte, crc16}

abbrev pub start_block_token : ℕ
start_block_token = 0xfe

abbrev pub start_multi_write_token : ℕ
start_multi_write_token = 0xfc

abbrev pub stop_multi_write_token : ℕ
stop_multi_write_token = 0xfd

abbrev pub data_response_accepted : ℕ
data_response_accepted = 0x05

abbrev pub data_response_crc_error : ℕ
data_response_crc_error = 0x0b

abbrev pub data_response_write_error : ℕ
data_response_write_error = 0x0d

-- `SdCommandError`; `no_error` is `None`.
pub data CommandError : Type 0 where
  no_error invalid_start_bits invalid_end_bit crc_mismatch : CommandError

pub data CrcPolicy : Type 0 where
  required ignored : CrcPolicy

pub record Command : Type 0 where
  pub index : ℕ
  pub argument : ℕ
  pub crc_byte : ℕ

pub record DecodeResult : Type 0 where
  pub error : CommandError
  pub command : Command

abbrev pub no_command : Command
no_command = record { index = 0; argument = 0; crc_byte = 0 }

abbrev pub is_required : CrcPolicy → Bool
is_required required = true
is_required ignored = false

-- The command that a frame carries.
pub frame_command : List ℕ → Command
frame_command frame = record {
  index = u8 (get_or frame 0 0 % 64);
  argument =
      get_or frame 1 0 * 2 ^ 24
      + get_or frame 2 0 * 2 ^ 16
      + get_or frame 3 0 * 2 ^ 8
      + get_or frame 4 0;
  crc_byte = get_or frame 5 0;
}

unfoldable pub decode_command : List ℕ → CrcPolicy → DecodeResult
unfolding frame_command
decode_command frame crc_policy =
    if not (get_or frame 0 0 / 64 == 1)
    then record { error = invalid_start_bits; command = no_command }
    else if get_or frame 5 0 % 2 == 0
    then record { error = invalid_end_bit; command = no_command }
    else if is_required crc_policy && not (crc7_command_byte (take 5 frame) == get_or frame 5 0)
    then record { error = crc_mismatch; command = no_command }
    else record { error = no_error; command = frame_command frame }

pub data ResponseType : Type 0 where
  r1 r2 r3 r7 : ResponseType

-- The values of `SdR1` that the card model sends.
abbrev pub r1_idle : ℕ
r1_idle = 0x01

abbrev pub r1_illegal_command : ℕ
r1_illegal_command = 0x04

abbrev pub r1_com_crc_error : ℕ
r1_com_crc_error = 0x08

abbrev pub r1_address_error : ℕ
r1_address_error = 0x20

pub record Response : Type 0 where
  pub bytes : List ℕ
  pub size : ℕ
  pub kind : ResponseType

abbrev pub no_response : Response
no_response = record { bytes = 0 ∷ 0 ∷ 0 ∷ 0 ∷ 0 ∷ []; size = 0; kind = r1 }

-- The bytes that `append_u32_big_endian` stores from index 1 on.
abbrev pub u32_big_endian : ℕ → List ℕ
u32_big_endian value =
    u8 (value / 2 ^ 24) ∷ u8 (value / 2 ^ 16) ∷ u8 (value / 2 ^ 8) ∷ u8 value ∷ []

unfoldable pub make_r1 : ℕ → Response
make_r1 status = record { bytes = status ∷ 0 ∷ 0 ∷ 0 ∷ 0 ∷ []; size = 1; kind = r1 }

unfoldable pub make_r2 : ℕ → ℕ → Response
make_r2 status card_status = record {
  bytes = status ∷ card_status ∷ 0 ∷ 0 ∷ 0 ∷ [];
  size = 2;
  kind = r2;
}

unfoldable pub make_r3 : ℕ → ℕ → Response
make_r3 status ocr = record { bytes = status ∷ u32_big_endian ocr; size = 5; kind = r3 }

unfoldable pub make_r7 : ℕ → ℕ → Response
make_r7 status echo = record { bytes = status ∷ u32_big_endian echo; size = 5; kind = r7 }

unfoldable pub make_read_data_block : List ℕ → List ℕ
make_read_data_block payload =
    let checksum = crc16 payload in
    start_block_token ∷ payload ++ (u8 (checksum / 2 ^ 8) ∷ u8 checksum ∷ [])

unfoldable pub verify_data_block_crc : List ℕ → ℕ → Bool
verify_data_block_crc payload received_crc = crc16 payload == received_crc

unfoldable pub make_data_response : ℕ → ℕ
make_data_response status = u8 (bit_or (status % 32) 1)

unfoldable pub is_multi_write_data_token : ℕ → Bool
is_multi_write_data_token token = token == start_multi_write_token

unfoldable pub is_multi_write_stop_token : ℕ → Bool
is_multi_write_stop_token token = token == stop_multi_write_token
