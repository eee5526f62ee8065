-- ===== src/Cdc/Numbers.antt =====
-- The number formats of the text protocol: `std::to_string` of an unsigned 64-bit number, and
-- `std::from_chars` as the decoders use it, where the whole text must be a number in range.
-- A text is the list of its bytes.
pub mod RoundTrip
pub mod Hexadecimal
use pico_sdemu.Common.{
  ℕ, zero, suc, ◌+◌, ◌-◌, ◌*◌, ◌/◌, ◌%◌, Bool, true, false, ◌&&◌, Option, none, some, List, [], ◌∷◌,
  if◌then◌else◌, ltb, leb,
}
use pico_sdemu.Common.Word.{u64_max}
use pico_sdemu.Cdc.Codec.{hex_value}

abbrev pub Text : Type 0
Text = List ℕ

-- The decimal digits of a number in front of `rest`. Twenty rounds cover 64 bits.
pub decimal_digits : ℕ → ℕ → Text → Text
decimal_digits zero n rest = rest
decimal_digits (suc fuel) n rest =
    let more = decimal_digits fuel (n / 10) ((48 + n % 10) ∷ rest) in
    if ltb n 10 then (48 + n % 10) ∷ rest else more

unfoldable pub to_string : ℕ → Text
unfolding decimal_digits
to_string n = decimal_digits 20 n []

abbrev pub is_digit : ℕ → Bool
is_digit c = leb b'0' c && leb c b'9'

-- The value of a text of digits, behind the digits read so far.
pub decimal_value : ℕ → Text → Option ℕ
decimal_value value [] = some value
decimal_value value (c ∷ text) =
    let rest = decimal_value (value * 10 + (c - 48)) text in if is_digit c then rest else none

pub in_range : ℕ → Option ℕ → Option ℕ
in_range limit none = none
in_range limit (some n) = if leb n limit then some n else none

-- An empty text, a byte that is no digit and a value that does not fit are all refused.
unfoldable pub parse_u64 : Text → Option ℕ
unfolding decimal_value in_range
parse_u64 [] = none
parse_u64 (c ∷ text) = in_range u64_max (decimal_value 0 (c ∷ text))

-- The value of a text of hexadecimal digits, of either case, behind the digits read so far.
pub hex_text_value : ℕ → Text → Option ℕ
hex_text_value value [] = some value
hex_text_value value (c ∷ text) = elim (hex_value c) [
  | none ↦ none
  | some d ↦ hex_text_value (value * 16 + d) text
]

-- `std::from_chars` in base 16 on 32 bits, where the whole text must be a number in range.
unfoldable pub parse_hex32 : Text → Option ℕ
parse_hex32 [] = none
parse_hex32 (c ∷ text) = in_range 4294967295 (hex_text_value 0 (c ∷ text))
