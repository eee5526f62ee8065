-- ===== src/Cdc/Numbers/Hexadecimal.antt =====
-- A checksum written by `snprintf` with `%08X` is read back.
use pico_sdemu.Common.{
  ℕ, zero, suc, ◌+◌, ◌*◌, ◌/◌, ◌%◌, ◌^◌, ◌<◌, ◌≡◌, refl, ap, ◌∙◌, some, [], ◌∷◌, arith, le→leb,
}
use pico_sdemu.Cdc.Numbers.{Text, parse_hex32, hex_text_value, in_range}
use pico_sdemu.Cdc.Codec.{hex_digit}
use pico_sdemu.Cdc.Codec.RoundTrip.{hex_value-hex_digit}
use pico_sdemu.Cdc.Client.{checksum_text}

digit_step :
    (value d : ℕ) (text : Text)
    → d < 16
    → hex_text_value value (hex_digit d ∷ text) ≡ hex_text_value (value * 16 + d) text
unfolding hex_text_value
digit_step value d text h = rw (hex_value-hex_digit d h, hex_text_value) refl

place :
    (high d next : ℕ) (text : Text)
    → d < 16
    → high * 16 + d ≡ next
    → hex_text_value high (hex_digit d ∷ text) ≡ hex_text_value next text
place high d next text h e = digit_step high d text h ∙ ap (λ v. hex_text_value v text) e

-- The last `k` digits that are written.
abbrev last_digits : ℕ → ℕ → Text
last_digits zero n = []
last_digits (suc zero) n = hex_digit (n % 16) ∷ []
last_digits (suc (suc k)) n = hex_digit (n / 2 ^ (4 * suc k) % 16) ∷ last_digits (suc k) n

value-checksum_text : (n : ℕ) → n < 2 ^ 32 → hex_text_value 0 (checksum_text n) ≡ some n
unfolding checksum_text hex_text_value
value-checksum_text n h =
    place 0 (n / 2 ^ 28 % 16) (n / 2 ^ 28) (last_digits 7 n) (omega arith) (omega arith)
    ∙ (place (n / 2 ^ 28) (n / 2 ^ 24 % 16) (n / 2 ^ 24) (last_digits 6 n) (omega arith)
          (omega arith)
        ∙ (place (n / 2 ^ 24) (n / 2 ^ 20 % 16) (n / 2 ^ 20) (last_digits 5 n) (omega arith)
              (omega arith)
            ∙ (place (n / 2 ^ 20) (n / 2 ^ 16 % 16) (n / 2 ^ 16) (last_digits 4 n) (omega arith)
                  (omega arith)
                ∙ (place (n / 2 ^ 16) (n / 2 ^ 12 % 16) (n / 2 ^ 12) (last_digits 3 n) (omega arith)
                      (omega arith)
                    ∙ (place (n / 2 ^ 12) (n / 2 ^ 8 % 16) (n / 2 ^ 8) (last_digits 2 n)
                          (omega arith) (omega arith)
                        ∙ (place (n / 2 ^ 8) (n / 2 ^ 4 % 16) (n / 2 ^ 4) (last_digits 1 n)
                              (omega arith) (omega arith)
                            ∙ place (n / 2 ^ 4) (n % 16) n [] (omega arith) (omega arith)))))))

-- The eight digits of a 32-bit checksum are read as that checksum.
pub parse_hex32-checksum_text : (n : ℕ) → n < 2 ^ 32 → parse_hex32 (checksum_text n) ≡ some n
unfolding checksum_text parse_hex32 in_range
parse_hex32-checksum_text n h = rw (value-checksum_text n h, le→leb n 4294967295 (omega arith)) refl
