-- ===== src/Sd/Crc/Residue.antt =====
-- The ranges of the checksums, and why a receiver can check a block by running the checksum over
-- the block and its checksum together.
use Prim.Native.Nat.{bit_xor}
use native.Mathlib.Nat.{pow-suc, one-le-pow}
use pico_sdemu.Common.{
  ℕ, zero, suc, ◌*◌, ◌/◌, ◌%◌, ◌<◌, ◌^◌, ◌≡◌, refl, ◌∙◌, ap, List, [], ◌∷◌, ◌++◌, All, arith, ltb,
  true,
}
use pico_sdemu.Common.Word.{u8}
use pico_sdemu.Common.Bits.{
  bit_xor_clears_high, bit_xor_self, bit_xor-lt, all_below, all_below_sound,
}
use pico_sdemu.Sd.Crc.{
  crc7_bit, crc7_bits, crc7_from, crc7, crc7_command_byte, crc16_bit, crc16_bits, crc16_byte,
  crc16_from, crc16, crc32_bit, crc32_bits, crc32_from, crc32,
}

crc16_bit-lt : (value : ℕ) → crc16_bit value < 65536
unfolding crc16_bit
crc16_bit-lt value = ground arith

crc16_byte-lt : (value byte : ℕ) → crc16_byte value byte < 65536
unfolding crc16_byte crc16_bits
crc16_byte-lt value byte = crc16_bit-lt _

crc16_from-lt : (value : ℕ) (bytes : List ℕ) → value < 65536 → crc16_from value bytes < 65536
unfolding crc16_from
crc16_from-lt value [] h = h
crc16_from-lt value (byte ∷ rest) h =
    crc16_from-lt (crc16_byte value byte) rest (crc16_byte-lt value byte)

-- The checksum fits its 16 bits.
pub crc16-lt : (bytes : List ℕ) → crc16 bytes < 65536
unfolding crc16
crc16-lt bytes = crc16_from-lt 0 bytes (omega arith)

crc16_from-append :
    (value : ℕ) (xs ys : List ℕ) → crc16_from value (xs ++ ys) ≡ crc16_from (crc16_from value xs) ys
unfolding crc16_from
crc16_from-append value [] ys = refl
crc16_from-append value (x ∷ xs) ys = crc16_from-append (crc16_byte value x) xs ys

-- While the top bit is clear a round only shifts.
crc16_bit_small : (value : ℕ) → value < 32768 → crc16_bit value ≡ value * 2
unfolding crc16_bit
crc16_bit_small value h = ground arith

crc16_bits_small : (n value : ℕ) → value * 2 ^ n < 65536 → crc16_bits n value ≡ value * 2 ^ n
unfolding crc16_bits
crc16_bits_small zero value h = omega arith
crc16_bits_small (suc n) value h =
    rw (crc16_bit_small value (grind (arith, doubled, one-le-pow n 2)))
      (crc16_bits_small n (value * 2) (omega (arith, doubled)) ∙ omega (arith, doubled))
  where
    doubled : value * 2 ^ suc n ≡ value * 2 * 2 ^ n
    doubled = omega (arith, ap (λ (t : ℕ). value * t) (pow-suc 2 n))

crc16_byte_high : (value : ℕ) → value < 65536 → crc16_byte value (value / 256) ≡ value % 256 * 256
unfolding crc16_byte
crc16_byte_high value h =
    rw (bit_xor_clears_high value)
      (crc16_bits_small 8 (value % 256 % 65536) (omega arith) ∙ omega arith)

crc16_byte_low : (low : ℕ) → low < 256 → crc16_byte (low * 256) low ≡ 0
unfolding crc16_byte crc16_bits crc16_bit
crc16_byte_low low h = rw (bit_xor_self (low * 256))

checksum_residue :
    (value : ℕ) → value < 65536 → crc16_from value (u8 (value / 2 ^ 8) ∷ u8 value ∷ []) ≡ 0
unfolding crc16_from
checksum_residue value h =
    let high : u8 (value / 2 ^ 8) ≡ value / 256 = omega arith in
    rw (high, crc16_byte_high value h) (crc16_byte_low (value % 256) (omega arith))

-- Running the checksum over any data followed by its own checksum, high byte first, gives 0.
pub crc16-append_checksum :
    (bytes : List ℕ) → crc16 (bytes ++ (u8 (crc16 bytes / 2 ^ 8) ∷ u8 (crc16 bytes) ∷ [])) ≡ 0
unfolding crc16
crc16-append_checksum bytes =
    crc16_from-append 0 bytes _ ∙ checksum_residue (crc16_from 0 bytes) (crc16-lt bytes)

xor_nine_table : all_below 128 (λ x. ltb (bit_xor x 9) 128) ≡ true
unfolding all_below
xor_nine_table = refl

crc7_bit-lt : (value byte n : ℕ) → crc7_bit value byte n < 128
unfolding crc7_bit
crc7_bit-lt value byte n =
    ground (arith, all_below_sound 128 _ (value * 2 % 128 % 256) xor_nine_table)

crc7_bits-lt : (n value byte : ℕ) → value < 128 → crc7_bits n value byte < 128
unfolding crc7_bits
crc7_bits-lt zero value byte h = h
crc7_bits-lt (suc n) value byte h =
    crc7_bits-lt n (crc7_bit value byte n) byte (crc7_bit-lt value byte n)

crc7_from-lt : (value : ℕ) (bytes : List ℕ) → value < 128 → crc7_from value bytes < 128
unfolding crc7_from
crc7_from-lt value [] h = h
crc7_from-lt value (byte ∷ rest) h =
    crc7_from-lt (crc7_bits 8 value byte) rest (crc7_bits-lt 8 value byte h)

-- The checksum of a command has 7 bits, and its byte on the wire carries them above a set end bit.
pub crc7-command_byte :
    (bytes : List ℕ)
    → (crc7_command_byte bytes < 256)
      × (crc7_command_byte bytes / 2 ≡ crc7 bytes)
      × (crc7_command_byte bytes % 2 ≡ 1)
unfolding crc7_command_byte crc7
crc7-command_byte bytes = omega (arith, crc7_from-lt 0 bytes (omega arith))

crc32_bit-lt : (value : ℕ) → value < 2 ^ 32 → crc32_bit value < 2 ^ 32
unfolding crc32_bit
crc32_bit-lt value h =
    ground (arith, bit_xor-lt 32 (value / 2) 0xedb88320 (omega arith) (omega arith))

crc32_bits-lt : (n value : ℕ) → value < 2 ^ 32 → crc32_bits n value < 2 ^ 32
unfolding crc32_bits
crc32_bits-lt zero value h = h
crc32_bits-lt (suc n) value h = crc32_bits-lt n (crc32_bit value) (crc32_bit-lt value h)

crc32_from-lt :
    (value : ℕ) (bytes : List ℕ)
    → value < 2 ^ 32
    → All (λ b. b < 256) bytes
    → crc32_from value bytes < 2 ^ 32
unfolding crc32_from
crc32_from-lt value [] h a = h
crc32_from-lt value (byte ∷ rest) h a =
    crc32_from-lt (crc32_bits 8 (bit_xor value byte)) rest
      (crc32_bits-lt 8 (bit_xor value byte) (bit_xor-lt 32 value byte h (omega arith))) a.1

-- The checksum of bytes fits its 32 bits.
pub crc32-lt : (bytes : List ℕ) → All (λ b. b < 256) bytes → crc32 bytes < 2 ^ 32
unfolding crc32
crc32-lt bytes a =
    bit_xor-lt 32 (crc32_from 0xffffffff bytes) 0xffffffff
      (crc32_from-lt 0xffffffff bytes (omega arith) a) (omega arith)
