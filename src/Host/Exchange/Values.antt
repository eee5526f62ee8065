-- ===== src/Host/Exchange/Values.antt =====
-- The texts of checksums and of blocks are values that a field can have.
use pico_sdemu.Common.{ℕ, ◌≤◌, ◌<◌, ◌≢◌, refl, List, [], ◌∷◌, arith}
use pico_sdemu.Cdc.Text.Lines.{IsPrintable}
use pico_sdemu.Cdc.Codec.{hex_digit, b64_digit, encode_base64}
use pico_sdemu.Cdc.Client.{checksum_text}
use pico_sdemu.Host.Exchange.{IsValue}

hex_digit_printable : (n : ℕ) → n < 16 → (0x21 ≤ hex_digit n) × (hex_digit n ≤ 0x7e)
unfolding hex_digit
hex_digit_printable n h = ground arith

pub checksum_text-IsValue : (n : ℕ) → IsValue (checksum_text n)
unfolding checksum_text
checksum_text-IsValue n = record {
  nonempty = ground arith;
  printable = (
    hex_digit_printable _ (omega arith),
    (
      hex_digit_printable _ (omega arith),
      (
        hex_digit_printable _ (omega arith),
        (
          hex_digit_printable _ (omega arith),
          (
            hex_digit_printable _ (omega arith),
            (
              hex_digit_printable _ (omega arith),
              (hex_digit_printable _ (omega arith), (hex_digit_printable _ (omega arith), tt)),
            ),
          ),
        ),
      ),
    ),
  );
}

b64_digit_printable : (n : ℕ) → (0x21 ≤ b64_digit n) × (b64_digit n ≤ 0x7e)
unfolding b64_digit
b64_digit_printable n = ground arith

pad_printable : (0x21 ≤ b'=') × (b'=' ≤ 0x7e)
pad_printable = (omega arith, omega arith)

encode_base64-IsPrintable : (bytes : List ℕ) → IsPrintable (encode_base64 bytes)
unfolding encode_base64
encode_base64-IsPrintable [] = tt
encode_base64-IsPrintable (a ∷ []) =
    (b64_digit_printable _, (b64_digit_printable _, (pad_printable, (pad_printable, tt))))
encode_base64-IsPrintable (a ∷ b ∷ []) =
    (b64_digit_printable _, (b64_digit_printable _, (b64_digit_printable _, (pad_printable, tt))))
encode_base64-IsPrintable (a ∷ b ∷ c ∷ rest) = (
  b64_digit_printable _,
  (
    b64_digit_printable _,
    (b64_digit_printable _, (b64_digit_printable _, encode_base64-IsPrintable rest)),
  ),
)

encode_base64-nonempty : (bytes : List ℕ) → bytes ≢ [] → encode_base64 bytes ≢ []
unfolding encode_base64
encode_base64-nonempty [] h = absurd (h refl)
encode_base64-nonempty (a ∷ []) h = ground arith
encode_base64-nonempty (a ∷ b ∷ []) h = ground arith
encode_base64-nonempty (a ∷ b ∷ c ∷ rest) h = ground arith

pub encode_base64-IsValue : (bytes : List ℕ) → bytes ≢ [] → IsValue (encode_base64 bytes)
encode_base64-IsValue bytes h = record {
  nonempty = encode_base64-nonempty bytes h;
  printable = encode_base64-IsPrintable bytes;
}
