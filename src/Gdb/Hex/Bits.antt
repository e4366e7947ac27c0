-- ===== src/Gdb/Hex/Bits.antt =====
-- Setting the low four bits of a number whose low four bits are clear.
use Prim.Native.Nat.{bit_or, digits, bit_or-bitwise, max}
use dpcpp_trace.Prelude.{ℕ, zero, suc, ◌+◌, ◌*◌, ◌/◌, ◌%◌, ◌≤◌, ◌<◌, ◌≡◌, refl, arith}

abbrev or_digits : ℕ → ℕ → ℕ → ℕ
or_digits n a b = digits (λ b. b) max n a b

or_digits_fuel : (n m a b : ℕ) → a ≤ n → a ≤ m → or_digits n a b ≡ or_digits m a b
or_digits_fuel zero zero a b p q = refl
or_digits_fuel zero (suc m) zero b p q = refl
or_digits_fuel zero (suc m) (suc a) b p q = absurd (omega arith)
or_digits_fuel (suc n) zero zero b p q = refl
or_digits_fuel (suc n) zero (suc a) b p q = absurd (omega arith)
or_digits_fuel (suc n) (suc m) zero b p q = refl
or_digits_fuel (suc n) (suc m) (suc a) b p q =
    omega (arith, or_digits_fuel n m (suc a / 2) (b / 2) (omega arith) (omega arith))

zero-bit_or : (b : ℕ) → bit_or 0 b ≡ b
zero-bit_or b = bit_or-bitwise 0 b

bit_or_step : (a b : ℕ) → bit_or a b ≡ bit_or (a / 2) (b / 2) * 2 + max (a % 2) (b % 2)
bit_or_step zero b = omega (arith, zero-bit_or b, zero-bit_or (b / 2))
bit_or_step (suc a) b = omega (
  arith,
  bit_or-bitwise (suc a) b,
  bit_or-bitwise (suc a / 2) (b / 2),
  or_digits_fuel a (suc a / 2) (suc a / 2) (b / 2) (omega arith) (omega arith),
)

bit_or-zero_fuel : (n a : ℕ) → a ≤ n → bit_or a 0 ≡ a
bit_or-zero_fuel n zero h = refl
bit_or-zero_fuel zero (suc a) h = absurd (omega arith)
bit_or-zero_fuel (suc n) (suc a) h =
    omega (arith, bit_or_step (suc a) 0, bit_or-zero_fuel n (suc a / 2) (omega arith))

bit_or-zero : (a : ℕ) → bit_or a 0 ≡ a
bit_or-zero a = bit_or-zero_fuel a a (omega arith)

four_zero : (n : ℕ) → n < 16 → n / 2 / 2 / 2 / 2 ≡ 0
four_zero n h = omega arith

pub bit_or_nibble : (k n : ℕ) → n < 16 → bit_or (16 * k) n ≡ 16 * k + n
bit_or_nibble k n h =
    let a = 16 * k in
    let last : bit_or (a / 2 / 2 / 2 / 2) (n / 2 / 2 / 2 / 2) ≡ a / 2 / 2 / 2 / 2 =
      rw (four_zero n h) (bit_or-zero (a / 2 / 2 / 2 / 2)) in
    omega (
      arith,
      last,
      bit_or_step a n,
      bit_or_step (a / 2) (n / 2),
      bit_or_step (a / 2 / 2) (n / 2 / 2),
      bit_or_step (a / 2 / 2 / 2) (n / 2 / 2 / 2),
    )
