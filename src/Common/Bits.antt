-- ===== src/Common/Bits.antt =====
-- The digit recursions behind `bit_xor` and `bit_or`, and the two facts that the checksums and the
-- framers need: fields that do not overlap join by addition, and a field cancels itself.
use Prim.Native.Nat.{
  ℕ, zero, suc, ◌+◌, ◌*◌, ◌/◌, ◌%◌, ◌≤◌, ◌<◌, ◌^◌, max, bit_xor, bit_or, digits, bit_xor-bitwise,
  bit_or-bitwise, differ,
}
use mathlib.Core.Path.{◌≡◌, refl, ap, ap₂, ◌∙◌}
use mathlib.Core.Bool.{Bool, true, ◌&&◌}
use native.Mathlib.Nat.{pow-suc}
use native.Mathlib.Omega.{arith}

module _ (rest : ℕ → ℕ) (join : ℕ → ℕ → ℕ) where
  -- Any fuel that covers the first number gives the same digits.
  digits-enough :
      (a b : ℕ) (fuel : ℕ)
      → a ≤ fuel
      → (other : ℕ) → a ≤ other
      → digits rest join fuel a b ≡ digits rest join other a b
  digits-enough a b zero h zero k = refl
  digits-enough zero b zero h (suc other) k = refl
  digits-enough (suc a) b zero h (suc other) k = absurd (omega arith)
  digits-enough zero b (suc fuel) h zero k = refl
  digits-enough (suc a) b (suc fuel) h zero k = absurd (omega arith)
  digits-enough zero b (suc fuel) h (suc other) k = refl
  digits-enough (suc a) b (suc fuel) h (suc other) k =
      ap (λ t. t * 2 + join (suc a % 2) (b % 2))
        (digits-enough (suc a / 2) (b / 2) fuel (omega arith) other (omega arith))

pub bit_xor-step : (a b : ℕ) → bit_xor a b ≡ bit_xor (a / 2) (b / 2) * 2 + differ (a % 2) (b % 2)
bit_xor-step zero b = simp bit_xor-bitwise (omega arith)
bit_xor-step (suc a) b = simp bit_xor-bitwise (
    ap (λ t. t * 2 + differ (suc a % 2) (b % 2))
      (digits-enough (λ y. y) differ (suc a / 2) (b / 2) a (omega arith) (suc a / 2) (omega arith)))

pub bit_or-step : (a b : ℕ) → bit_or a b ≡ bit_or (a / 2) (b / 2) * 2 + max (a % 2) (b % 2)
bit_or-step zero b = simp bit_or-bitwise (omega arith)
bit_or-step (suc a) b = simp bit_or-bitwise (
    ap (λ t. t * 2 + max (suc a % 2) (b % 2))
      (digits-enough (λ y. y) max (suc a / 2) (b / 2) a (omega arith) (suc a / 2) (omega arith)))

differ_self : (x : ℕ) → differ x x ≡ 0
differ_self zero = refl
differ_self (suc x) = differ_self x

differ-zero : (x : ℕ) → differ x 0 ≡ x
differ-zero zero = refl
differ-zero (suc x) = refl

pub zero-bit_xor : (b : ℕ) → bit_xor 0 b ≡ b
zero-bit_xor b = bit_xor-bitwise 0 b

zero-bit_or : (b : ℕ) → bit_or 0 b ≡ b
zero-bit_or b = bit_or-bitwise 0 b

-- A number cancels itself.
bit_xor_self_fuel : (fuel a : ℕ) → a ≤ fuel → bit_xor a a ≡ 0
bit_xor_self_fuel fuel zero h = zero-bit_xor 0
bit_xor_self_fuel zero (suc a) h = absurd (omega arith)
bit_xor_self_fuel (suc fuel) (suc a) h = omega (
  arith,
  bit_xor-step (suc a) (suc a),
  bit_xor_self_fuel fuel (suc a / 2) (omega arith),
  differ_self (suc a % 2),
)

pub bit_xor_self : (a : ℕ) → bit_xor a a ≡ 0
bit_xor_self a = bit_xor_self_fuel a a (omega arith)

-- One digit, where the second number has none.
xor_digit : (x y r : ℕ) → y % 2 ≡ 0 → bit_xor (x / 2) (y / 2) ≡ r → bit_xor x y ≡ r * 2 + x % 2
xor_digit x y r e h = rw (bit_xor-step x y, h, e, differ-zero)

-- Eight digits, where the low byte of the second number is 0.
pub bit_xor-low_byte :
    (x y r : ℕ) → y % 256 ≡ 0 → bit_xor (x / 256) (y / 256) ≡ r → bit_xor x y ≡ r * 256 + x % 256
bit_xor-low_byte x y r e h =
    xor_digit (x) (y) _ (omega arith) (
      xor_digit (x / 2) (y / 2) _ (omega arith) (
        xor_digit (x / 2 / 2) (y / 2 / 2) _ (omega arith) (
          xor_digit (x / 2 / 2 / 2) (y / 2 / 2 / 2) _ (omega arith) (
            xor_digit (x / 2 / 2 / 2 / 2) (y / 2 / 2 / 2 / 2) _ (omega arith) (
              xor_digit (x / 2 / 2 / 2 / 2 / 2) (y / 2 / 2 / 2 / 2 / 2) _ (omega arith) (
                xor_digit (x / 2 / 2 / 2 / 2 / 2 / 2) (y / 2 / 2 / 2 / 2 / 2 / 2) _ (omega arith) (
                  xor_digit (x / 2 / 2 / 2 / 2 / 2 / 2 / 2) (y / 2 / 2 / 2 / 2 / 2 / 2 / 2) _
                    (omega arith) (top))))))))
    ∙ omega arith
  where
    top : bit_xor (x / 2 / 2 / 2 / 2 / 2 / 2 / 2 / 2) (y / 2 / 2 / 2 / 2 / 2 / 2 / 2 / 2) ≡ r
    top = ap₂ bit_xor (omega arith) (omega arith) ∙ h

-- `value ^ (high byte << 8)` clears the high byte.
pub bit_xor_clears_high : (x : ℕ) → bit_xor x (x / 256 * 256) ≡ x % 256
bit_xor_clears_high x =
    bit_xor-low_byte x (x / 256 * 256) 0 (omega arith) (same _ _ (omega arith)) ∙ omega arith
  where
    same : (a b : ℕ) → a ≡ b → bit_xor a b ≡ 0
    same a b e = rw e (bit_xor_self b)

-- One digit of a join, where the first number has none.
or_digit : (x y r : ℕ) → x % 2 ≡ 0 → bit_or (x / 2) (y / 2) ≡ r → bit_or x y ≡ r * 2 + y % 2
or_digit x y r e h = rw (bit_or-step x y, h, e) (omega arith)

or-zero_fuel : (fuel a : ℕ) → a ≤ fuel → bit_or a 0 ≡ a
or-zero_fuel fuel zero h = zero-bit_or 0
or-zero_fuel zero (suc a) h = absurd (omega arith)
or-zero_fuel (suc fuel) (suc a) h =
    omega (arith, bit_or-step (suc a) 0, or-zero_fuel fuel (suc a / 2) (omega arith))

pub bit_or-zero : (a : ℕ) → bit_or a 0 ≡ a
bit_or-zero a = or-zero_fuel a a (omega arith)

pub bit_or-low_byte :
    (x y r : ℕ) → x % 256 ≡ 0 → bit_or (x / 256) (y / 256) ≡ r → bit_or x y ≡ r * 256 + y % 256
bit_or-low_byte x y r e h =
    or_digit (x) (y) _ (omega arith) (
      or_digit (x / 2) (y / 2) _ (omega arith) (
        or_digit (x / 2 / 2) (y / 2 / 2) _ (omega arith) (
          or_digit (x / 2 / 2 / 2) (y / 2 / 2 / 2) _ (omega arith) (
            or_digit (x / 2 / 2 / 2 / 2) (y / 2 / 2 / 2 / 2) _ (omega arith) (
              or_digit (x / 2 / 2 / 2 / 2 / 2) (y / 2 / 2 / 2 / 2 / 2) _ (omega arith) (
                or_digit (x / 2 / 2 / 2 / 2 / 2 / 2) (y / 2 / 2 / 2 / 2 / 2 / 2) _ (omega arith) (
                  or_digit (x / 2 / 2 / 2 / 2 / 2 / 2 / 2) (y / 2 / 2 / 2 / 2 / 2 / 2 / 2) _
                    (omega arith) (top))))))))
    ∙ omega arith
  where
    top : bit_or (x / 2 / 2 / 2 / 2 / 2 / 2 / 2 / 2) (y / 2 / 2 / 2 / 2 / 2 / 2 / 2 / 2) ≡ r
    top = ap₂ bit_or (omega arith) (omega arith) ∙ h

-- `(high << 8) | low` is a sum when the low part is a byte.
pub bit_or_bytes : (high low : ℕ) → low < 256 → bit_or (high * 256) low ≡ high * 256 + low
bit_or_bytes high low h =
    bit_or-low_byte (high * 256) low high (omega arith)
      (ap₂ bit_or (omega arith) (omega arith) ∙ bit_or-zero high)
    ∙ omega arith

-- Over a small range, every value is tried.
unfoldable pub all_below : ℕ → (ℕ → Bool) → Bool
all_below zero test = true
all_below (suc n) test = test n && all_below n test

pub all_below_sound :
    (n : ℕ) (test : ℕ → Bool) (x : ℕ) → all_below n test ≡ true → x < n → test x ≡ true
unfolding all_below
all_below_sound zero test x h lt = absurd (omega arith)
all_below_sound (suc n) test x h lt = ground (arith, all_below_sound n test x)

differ-le : (x y : ℕ) → x < 2 → y < 2 → differ x y ≤ 1
differ-le zero zero h k = omega arith
differ-le zero (suc y) h k = omega arith
differ-le (suc x) zero h k = omega arith
differ-le (suc zero) (suc zero) h k = omega arith
differ-le (suc (suc x)) y h k = absurd (omega arith)
differ-le x (suc (suc y)) h k = absurd (omega arith)

-- The bits of two numbers of `n` bits differ in no other place.
pub bit_xor-lt : (n a b : ℕ) → a < 2 ^ n → b < 2 ^ n → bit_xor a b < 2 ^ n
bit_xor-lt zero zero b h k = rw (zero-bit_xor b) k
bit_xor-lt zero (suc a) b h k = absurd (omega arith)
bit_xor-lt (suc n) a b h k = omega (
  arith,
  pow-suc 2 n,
  bit_xor-step a b,
  bit_xor-lt n (a / 2) (b / 2) (omega (arith, pow-suc 2 n)) (omega (arith, pow-suc 2 n)),
  differ-le (a % 2) (b % 2) (omega arith) (omega arith),
)
