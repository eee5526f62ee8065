-- ===== src/Sd/Crc.antt =====
-- shared/protocol/src/crc.cpp. A byte array is a list of numbers below 256; each function keeps its
-- bit loop, and every cast to a fixed width is a remainder.
pub mod Residue
use Prim.Native.Nat.{bit_xor}
use pico_sdemu.Common.{ℕ, zero, suc, ◌+◌, ◌*◌, ◌/◌, ◌%◌, ◌^◌, List, [], ◌∷◌, if◌then◌else◌, ◌==◌}
use pico_sdemu.Common.Word.{u8, u16, u32}

-- One round of the inner loop of `crc7`, for the bit with this index.
pub crc7_bit : ℕ → ℕ → ℕ → ℕ
crc7_bit value byte bit_index =
    let input_bit = byte / 2 ^ bit_index % 2 in
    let feedback = bit_xor (value / 2 ^ 6 % 2) input_bit in
    let shifted = u8 (value * 2 % 128) in
    if feedback == 0 then shifted else u8 (bit_xor shifted 0x09)

-- The rounds with indices `n - 1` down to 0.
pub crc7_bits : ℕ → ℕ → ℕ → ℕ
crc7_bits zero value byte = value
crc7_bits (suc n) value byte = crc7_bits n (crc7_bit value byte n) byte

pub crc7_from : ℕ → List ℕ → ℕ
crc7_from value [] = value
crc7_from value (byte ∷ rest) = crc7_from (crc7_bits 8 value byte) rest

unfoldable pub crc7 : List ℕ → ℕ
unfolding crc7_from crc7_bits crc7_bit
crc7 bytes = crc7_from 0 bytes

unfoldable pub crc7_command_byte : List ℕ → ℕ
unfolding crc7
crc7_command_byte bytes = u8 (crc7 bytes * 2 + 1)

pub crc16_bit : ℕ → ℕ
crc16_bit value =
    let shifted = u16 (value * 2) in
    if value / 2 ^ 15 % 2 == 0 then shifted else u16 (bit_xor shifted 0x1021)

pub crc16_bits : ℕ → ℕ → ℕ
crc16_bits zero value = value
crc16_bits (suc n) value = crc16_bits n (crc16_bit value)

pub crc16_byte : ℕ → ℕ → ℕ
crc16_byte value byte = crc16_bits 8 (u16 (bit_xor value (byte * 2 ^ 8)))

pub crc16_from : ℕ → List ℕ → ℕ
crc16_from value [] = value
crc16_from value (byte ∷ rest) = crc16_from (crc16_byte value byte) rest

unfoldable pub crc16 : List ℕ → ℕ
unfolding crc16_from crc16_byte crc16_bits crc16_bit
crc16 bytes = crc16_from 0 bytes

pub crc32_bit : ℕ → ℕ
crc32_bit value =
    let shifted = value / 2 in if value % 2 == 0 then shifted else bit_xor shifted 0xedb88320

pub crc32_bits : ℕ → ℕ → ℕ
crc32_bits zero value = value
crc32_bits (suc n) value = crc32_bits n (crc32_bit value)

pub crc32_from : ℕ → List ℕ → ℕ
crc32_from value [] = value
crc32_from value (byte ∷ rest) = crc32_from (crc32_bits 8 (bit_xor value byte)) rest

unfoldable pub crc32 : List ℕ → ℕ
unfolding crc32_from crc32_bits crc32_bit
crc32 bytes = bit_xor (crc32_from 0xffffffff bytes) 0xffffffff
