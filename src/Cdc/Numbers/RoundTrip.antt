-- ===== src/Cdc/Numbers/RoundTrip.antt =====
-- Printed numbers are read back.
use native.Mathlib.Nat.{pow-suc}
use pico_sdemu.Common.{
  ℕ, zero, suc, ◌+◌, ◌/◌, ◌%◌, ◌^◌, ◌≤◌, ◌<◌, ◌≡◌, ◌≢◌, refl, ap, ◌∙◌, some, [], ◌∷◌, arith, ltb,
  Bool-cases, inl, inr, All, ltb→lt,
}
use pico_sdemu.Common.Word.{u64_max}
use pico_sdemu.Cdc.Numbers.{Text, decimal_digits, to_string, decimal_value, in_range, parse_u64}

-- Reading digits printed in front of a text continues with that text at the number printed.
decimal_value-digits :
    (fuel n : ℕ) (rest : Text)
    → n < 10 ^ fuel
    → decimal_value 0 (decimal_digits fuel n rest) ≡ decimal_value n rest
unfolding decimal_digits decimal_value
decimal_value-digits zero n rest h = ap (λ k. decimal_value k rest) (omega arith)
decimal_value-digits (suc fuel) n rest h = elim (Bool-cases (ltb n 10)) [
  | inl small ↦ rw small (ground (arith, ltb→lt n 10 small))
  | inr large ↦ rw large (
      decimal_value-digits fuel (n / 10) ((48 + n % 10) ∷ rest) (omega (arith, pow-suc 10 fuel))
      ∙ ground arith)
]

digits_nonempty : (fuel n : ℕ) (rest : Text) → rest ≢ [] → decimal_digits fuel n rest ≢ []
unfolding decimal_digits
digits_nonempty zero n rest h = h
digits_nonempty (suc fuel) n rest h =
    ground (arith, digits_nonempty fuel (n / 10) ((48 + n % 10) ∷ rest))

pub to_string-nonempty : (n : ℕ) → to_string n ≢ []
unfolding to_string
to_string-nonempty n = ground (arith, digits_nonempty 19 (n / 10) ((48 + n % 10) ∷ []))

parse_of_value :
    (text : Text) → text ≢ [] → parse_u64 text ≡ in_range u64_max (decimal_value 0 text)
unfolding parse_u64
parse_of_value [] h = absurd (h refl)
parse_of_value (c ∷ text) h = refl

-- Every unsigned 64-bit number is read back from its decimal text.
pub parse-to_string : (n : ℕ) → n ≤ u64_max → parse_u64 (to_string n) ≡ some n
unfolding to_string in_range decimal_value
parse-to_string n h =
    rw
      (
        parse_of_value (to_string n) (to_string-nonempty n),
        decimal_value-digits 20 n [] (omega arith),
      )
      (ground arith)

-- The bytes of a printed number are digits.
digits-All :
    (fuel n : ℕ) (rest : Text)
    → All (λ c. (48 ≤ c) × (c ≤ 57)) rest
    → All (λ c. (48 ≤ c) × (c ≤ 57)) (decimal_digits fuel n rest)
unfolding decimal_digits
digits-All zero n rest h = h
digits-All (suc fuel) n rest h = elim (Bool-cases (ltb n 10)) [
  | inl small ↦ rw small (omega arith, h)
  | inr large ↦ rw large (digits-All fuel (n / 10) ((48 + n % 10) ∷ rest) (omega arith, h))
]

pub to_string-All : (n : ℕ) → All (λ c. (48 ≤ c) × (c ≤ 57)) (to_string n)
unfolding to_string
to_string-All n = digits-All 20 n [] tt
