-- ===== src/Sd/Command/Frames.antt =====
-- Command frames against an encoder of their wire format (the SD start bits, the command index, the
-- argument with its high byte first, CRC7 and the end bit).
use native.Mathlib.Omega.{arith}
use pico_sdemu.Common.{
  ℕ, ◌+◌, ◌*◌, ◌/◌, ◌%◌, ◌^◌, ◌<◌, ◌≡◌, ◌↔◌, drop, take, take-append, length, length-append, refl,
  List, [], ◌∷◌, ◌++◌, ==_refl,
}
use pico_sdemu.Sd.Crc.{crc7_command_byte, crc16}
use pico_sdemu.Sd.Crc.Residue.{crc7-command_byte, crc16-append_checksum}
use pico_sdemu.Sd.Command.{
  no_error, CrcPolicy, required, decode_command, frame_command, u32_big_endian,
  make_read_data_block, start_block_token,
}

abbrev pub frame_body : ℕ → ℕ → List ℕ
frame_body index argument = (64 + index) ∷ u32_big_endian argument

abbrev pub encode_frame : ℕ → ℕ → List ℕ
encode_frame index argument =
    frame_body index argument ++ (crc7_command_byte (frame_body index argument) ∷ [])

-- A frame built for a command decodes to that command, with its CRC byte, under either policy.
pub decode-encode :
    (index argument : ℕ) (policy : CrcPolicy)
    → index < 64
    → argument < 2 ^ 32
    → decode_command (encode_frame index argument) policy ≡ record {
      error = no_error;
      command = record {
        index = index;
        argument = argument;
        crc_byte = crc7_command_byte (frame_body index argument);
      };
    }
unfolding decode_command
decode-encode index argument policy hi ha = ground (
  arith,
  crc7-command_byte (frame_body index argument),
  ==_refl (crc7_command_byte (frame_body index argument)),
)

-- Under the required policy a frame decodes without an error exactly when its start bits are `01`, its
-- end bit is set and its last byte is the CRC byte of the five before; and it is under exactly these
-- conditions that the command of its index bits, its argument and its CRC byte is handed out.
pub decode_accepts_iff :
    (a b c d e f : ℕ)
    → let decoding = decode_command (a ∷ b ∷ c ∷ d ∷ e ∷ f ∷ []) required in
      ((decoding.error ≡ no_error)
        ↔ ((a / 64 ≡ 1) × (f % 2 ≡ 1) × (crc7_command_byte (a ∷ b ∷ c ∷ d ∷ e ∷ []) ≡ f)))
      × ((decoding ≡ record {
        error = no_error;
        command = record {
          index = a % 64;
          argument = b * 2 ^ 24 + c * 2 ^ 16 + d * 2 ^ 8 + e;
          crc_byte = f;
        };
      })
          ↔ ((a / 64 ≡ 1) × (f % 2 ≡ 1) × (crc7_command_byte (a ∷ b ∷ c ∷ d ∷ e ∷ []) ≡ f)))
unfolding decode_command frame_command
decode_accepts_iff a b c d e f =
    (((λ h. ground arith), (λ h. ground arith)), ((λ h. ground arith), (λ h. ground arith)))

-- A data block is its start token, the payload's bytes and two more, and CRC16 is 0 over all that
-- follows the token.
pub read_data_block_residue :
    (payload : List ℕ)
    → let block = make_read_data_block payload in
      (take 1 block ≡ (start_block_token ∷ []))
      × (take (length payload) (drop 1 block) ≡ payload)
      × (length block ≡ length payload + 3)
      × (crc16 (drop 1 block) ≡ 0)
unfolding make_read_data_block
read_data_block_residue payload = (
  refl,
  take-append payload _,
  omega (arith, length-append {0} payload _),
  crc16-append_checksum payload,
)
