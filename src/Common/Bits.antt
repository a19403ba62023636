-- ===== src/Common/Bits.antt =====
-- Masks as arithmetic: on one byte by a table of 256 entries, checked by evaluation; for a word by
-- the recursion on binary digits.
use Prim.Native.Nat.{
  ℕ, zero, suc, ◌+◌, ◌*◌, ◌/◌, ◌%◌, ◌≤◌, ◌<◌, max, bit_and, bit_or, digits, bit_or-bitwise,
}
use mathlib.Core.Path.{◌≡◌, refl}
use mathlib.Core.Bool.{Bool, true, ◌&&◌}
use native.Mathlib.Omega.{arith}
use remote_yubikey_manager.Common.Tests.{◌==◌}

module _ (f g : ℕ → ℕ) where
  agree_below : ℕ → Bool
  agree_below zero = true
  agree_below (suc n) = (f n == g n) && agree_below n

  agree_below→eq : (n : ℕ) → agree_below n ≡ true → (i : ℕ) → i < n → f i ≡ g i
  unfolding agree_below
  agree_below→eq zero e i h = absurd (omega arith)
  agree_below→eq (suc n) e i h = ground (arith, agree_below→eq n (ground arith) i)

pub bit_and_0x80 : (b : ℕ) → b < 256 → bit_and b 0x80 ≡ b / 128 * 128
unfolding agree_below
bit_and_0x80 = agree_below→eq _ _ 256 refl

pub bit_and_0x7f : (b : ℕ) → b < 256 → bit_and b 0x7f ≡ b % 128
unfolding agree_below
bit_and_0x7f = agree_below→eq _ _ 256 refl

pub bit_and_0xf : (b : ℕ) → b < 256 → bit_and b 0xf ≡ b % 16
unfolding agree_below
bit_and_0xf = agree_below→eq _ _ 256 refl

or_digits : ℕ → ℕ → ℕ → ℕ
or_digits n a b = digits (λ rest. rest) max n a b

-- Any count of digits that `a` does not exceed gives the same result.
or_digits_enough : (n m a b : ℕ) → a ≤ n → a ≤ m → or_digits n a b ≡ or_digits m a b
unfolding or_digits
or_digits_enough zero zero a b p q = refl
or_digits_enough zero (suc m) zero b p q = refl
or_digits_enough zero (suc m) (suc a) b p q = absurd (omega arith)
or_digits_enough (suc n) zero zero b p q = refl
or_digits_enough (suc n) zero (suc a) b p q = absurd (omega arith)
or_digits_enough (suc n) (suc m) zero b p q = refl
or_digits_enough (suc n) (suc m) (suc a) b p q =
    omega (arith, or_digits_enough n m (suc a / 2) (b / 2) (omega arith) (omega arith))

zero-bit_or : (b : ℕ) → bit_or 0 b ≡ b
zero-bit_or b = bit_or-bitwise 0 b

pub bit_or_step : (a b : ℕ) → bit_or a b ≡ bit_or (a / 2) (b / 2) * 2 + max (a % 2) (b % 2)
unfolding or_digits
bit_or_step zero b = omega (arith, zero-bit_or b, zero-bit_or (b / 2))
bit_or_step (suc a) b = omega (
  arith,
  bit_or-bitwise (suc a) b,
  bit_or-bitwise (suc a / 2) (b / 2),
  or_digits_enough a (suc a / 2) (suc a / 2) (b / 2) (omega arith) (omega arith),
)

bit_or_even : (a b : ℕ) → bit_or (2 * a) b ≡ bit_or a (b / 2) * 2 + b % 2
bit_or_even a b = rw (bit_or_step (2 * a) b, half a) (omega arith)
  where
    half : (a : ℕ) → 2 * a / 2 ≡ a
    half a = omega arith

bit_or-zero_fuel : (n a : ℕ) → a ≤ n → bit_or a 0 ≡ a
bit_or-zero_fuel n zero h = zero-bit_or 0
bit_or-zero_fuel zero (suc a) h = absurd (omega arith)
bit_or-zero_fuel (suc n) (suc a) h =
    omega (arith, bit_or_step (suc a) 0, bit_or-zero_fuel n (suc a / 2) (omega arith))

pub bit_or-zero : (a : ℕ) → bit_or a 0 ≡ a
bit_or-zero a = bit_or-zero_fuel a a (omega arith)

-- `hi << 8 | lo`
pub bit_or_shifted : (hi lo : ℕ) → lo < 256 → bit_or (hi * 256) lo ≡ hi * 256 + lo
bit_or_shifted hi lo h =
    let eight : hi * 256 ≡ 2 * (2 * (2 * (2 * (2 * (2 * (2 * (2 * hi))))))) = omega arith in
    rw (eight, bit_or_even, bit_or_even, bit_or_even, bit_or_even, bit_or_even, bit_or_even)
      (rw (bit_or_even, bit_or_even)
        (let none_left : lo / 2 / 2 / 2 / 2 / 2 / 2 / 2 / 2 ≡ 0 = omega arith in
          rw (none_left, bit_or-zero) (omega arith)))

bit_or_odd : (a : ℕ) → bit_or a 1 % 2 ≡ 1
bit_or_odd a = omega (arith, bit_or_step a 1)

bit_or-double : (a b : ℕ) → bit_or a (2 * b) ≡ bit_or (a / 2) b * 2 + a % 2
bit_or-double a b =
    let half : 2 * b / 2 ≡ b = omega arith in rw (bit_or_step a (2 * b), half) (omega arith)

-- `x | 0x80` in its low eight bits.
pub bit_or_0x80 : (x : ℕ) → bit_or x 0x80 % 256 ≡ x % 128 + 128
bit_or_0x80 x = omega (
  arith,
  bit_or-double x 64,
  bit_or-double (x / 2) 32,
  bit_or-double (x / 2 / 2) 16,
  bit_or-double (x / 2 / 2 / 2) 8,
  bit_or-double (x / 2 / 2 / 2 / 2) 4,
  bit_or-double (x / 2 / 2 / 2 / 2 / 2) 2,
  bit_or-double (x / 2 / 2 / 2 / 2 / 2 / 2) 1,
  bit_or_odd (x / 2 / 2 / 2 / 2 / 2 / 2 / 2),
)
