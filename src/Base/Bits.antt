-- ===== src/Base/Bits.antt =====
-- Laws of the native bit operations at every number: each is an equation for the lowest digit
-- and an induction on the number of digits.
use Prim.Native.Nat.{
  ℕ, zero, suc, ◌+◌, ◌*◌, ◌/◌, ◌%◌, ◌^◌, ◌≤◌, ◌<◌, max, min, bit_and, bit_and-bitwise, bit_or,
  bit_xor, digits, differ, bit_or-bitwise, bit_xor-bitwise,
}
use mathlib.Core.Path.{◌≡◌, refl, ap, ◌∙◌}
use native.Mathlib.Omega.{arith}
use native.Mathlib.Nat.{pow-suc}

-- With enough digits to go, one more makes no difference.
digits_enough :
    (f : ℕ → ℕ → ℕ) (n m a b : ℕ)
    → a ≤ n
    → a ≤ m
    → digits (λ y. y) f n a b ≡ digits (λ y. y) f m a b
digits_enough f zero zero a b p q = refl
digits_enough f zero (suc m) zero b p q = refl
digits_enough f zero (suc m) (suc a) b p q = absurd (omega arith)
digits_enough f (suc n) zero zero b p q = refl
digits_enough f (suc n) zero (suc a) b p q = absurd (omega arith)
digits_enough f (suc n) (suc m) zero b p q = refl
digits_enough f (suc n) (suc m) (suc a) b p q =
    ap (λ (t : ℕ). t * 2 + f (suc a % 2) (b % 2))
      (digits_enough f n m (suc a / 2) (b / 2) (omega arith) (omega arith))

-- Of two digits.
differ_digits : (x y : ℕ) → x < 2 → y < 2 → (differ x y < 2) × (differ (differ x y) y ≡ x)
differ_digits zero zero p q = (omega arith, refl)
differ_digits zero (suc zero) p q = (omega arith, refl)
differ_digits (suc zero) zero p q = (omega arith, refl)
differ_digits (suc zero) (suc zero) p q = (omega arith, refl)
differ_digits zero (suc (suc y)) p q = absurd (omega arith)
differ_digits (suc zero) (suc (suc y)) p q = absurd (omega arith)
differ_digits (suc (suc x)) y p q = absurd (omega arith)

xor_digit : (a b : ℕ) → bit_xor a b ≡ bit_xor (a / 2) (b / 2) * 2 + differ (a % 2) (b % 2)
xor_digit zero b = omega (arith, bit_xor-bitwise 0 b, bit_xor-bitwise (0 / 2) (b / 2))
xor_digit (suc a) b = omega (
  arith,
  bit_xor-bitwise (suc a) b,
  bit_xor-bitwise (suc a / 2) (b / 2),
  digits_enough differ a (suc a / 2) (suc a / 2) (b / 2) (omega arith) (omega arith),
)

or_digit : (a b : ℕ) → bit_or a b ≡ bit_or (a / 2) (b / 2) * 2 + max (a % 2) (b % 2)
or_digit zero b = omega (arith, bit_or-bitwise 0 b, bit_or-bitwise (0 / 2) (b / 2))
or_digit (suc a) b = omega (
  arith,
  bit_or-bitwise (suc a) b,
  bit_or-bitwise (suc a / 2) (b / 2),
  digits_enough max a (suc a / 2) (suc a / 2) (b / 2) (omega arith) (omega arith),
)

xor_cancel_below : (n a b : ℕ) → a ≤ n → b ≤ n → bit_xor (bit_xor a b) b ≡ a
xor_cancel_below zero zero zero p q = refl
xor_cancel_below zero zero (suc b) p q = absurd (omega arith)
xor_cancel_below zero (suc a) b p q = absurd (omega arith)
xor_cancel_below (suc n) a b p q = ground (
  arith,
  xor_digit a b,
  xor_digit (bit_xor a b) b,
  differ_digits (a % 2) (b % 2) (omega arith) (omega arith),
  xor_cancel_below n (a / 2) (b / 2) (omega arith) (omega arith),
)

-- Exclusive or with the same number twice gives the first number back.
pub bit_xor_cancel : (a b : ℕ) → bit_xor (bit_xor a b) b ≡ a
bit_xor_cancel a b = xor_cancel_below (a + b) a b (omega arith) (omega arith)

-- Exclusive or needs no more digits than its arguments.
pub bit_xor-lt : (k a b : ℕ) → a < 2 ^ k → b < 2 ^ k → bit_xor a b < 2 ^ k
bit_xor-lt zero zero zero p q = omega arith
bit_xor-lt zero zero (suc b) p q = absurd (omega arith)
bit_xor-lt zero (suc a) b p q = absurd (omega arith)
bit_xor-lt (suc k) a b p q = ground (
  arith,
  pow-suc 2 k,
  xor_digit a b,
  differ_digits (a % 2) (b % 2) (omega arith) (omega arith),
  bit_xor-lt k (a / 2) (b / 2),
)

or_zero_below : (n a : ℕ) → a ≤ n → bit_or a 0 ≡ a
or_zero_below n zero h = refl
or_zero_below zero (suc a) h = absurd (omega arith)
or_zero_below (suc n) (suc a) h =
    omega (arith, or_digit (suc a) 0, or_zero_below n (suc a / 2) (omega arith))

pub bit_or_zero : (a : ℕ) → bit_or a 0 ≡ a
bit_or_zero a = or_zero_below a a (omega arith)

-- `(h << k) | r` is a sum where `r` has at most k digits.
pub bit_or_shift : (k h r : ℕ) → r < 2 ^ k → bit_or (h * 2 ^ k) r ≡ h * 2 ^ k + r
bit_or_shift zero h r p = ground (arith, bit_or_zero h)
bit_or_shift (suc k) h r p = ground (
  arith,
  or_digit (h * 2 ^ suc k) r,
  ap (λ (t : ℕ). h * t) (pow-suc 2 k),
  bit_or_shift k h (r / 2) (omega (arith, pow-suc 2 k)),
)

and_digits_enough :
    (n m a b : ℕ) → a ≤ n → a ≤ m → digits (λ y. 0) min n a b ≡ digits (λ y. 0) min m a b
and_digits_enough zero zero a b p q = refl
and_digits_enough zero (suc m) zero b p q = refl
and_digits_enough zero (suc m) (suc a) b p q = absurd (omega arith)
and_digits_enough (suc n) zero zero b p q = refl
and_digits_enough (suc n) zero (suc a) b p q = absurd (omega arith)
and_digits_enough (suc n) (suc m) zero b p q = refl
and_digits_enough (suc n) (suc m) (suc a) b p q =
    ap (λ (t : ℕ). t * 2 + min (suc a % 2) (b % 2))
      (and_digits_enough n m (suc a / 2) (b / 2) (omega arith) (omega arith))

and_digit : (a b : ℕ) → bit_and a b ≡ bit_and (a / 2) (b / 2) * 2 + min (a % 2) (b % 2)
and_digit zero b = omega (arith, bit_and-bitwise 0 b, bit_and-bitwise (0 / 2) (b / 2))
and_digit (suc a) b = omega (
  arith,
  bit_and-bitwise (suc a) b,
  bit_and-bitwise (suc a / 2) (b / 2),
  and_digits_enough a (suc a / 2) (suc a / 2) (b / 2) (omega arith) (omega arith),
)

-- k ones, and the k lowest digits of a number.
ones : ℕ → ℕ
ones zero = 0
ones (suc k) = ones k * 2 + 1

low_digits : ℕ → ℕ → ℕ
low_digits zero a = 0
low_digits (suc k) a = low_digits k (a / 2) * 2 + a % 2

and_zero_below : (n a : ℕ) → a ≤ n → bit_and a 0 ≡ 0
and_zero_below n zero h = refl
and_zero_below zero (suc a) h = absurd (omega arith)
and_zero_below (suc n) (suc a) h =
    omega (arith, and_digit (suc a) 0, and_zero_below n (suc a / 2) (omega arith))

bit_and-ones : (k a : ℕ) → bit_and a (ones k) ≡ low_digits k a
unfolding ones low_digits
bit_and-ones zero a = and_zero_below a a (omega arith)
bit_and-ones (suc k) a = ground (arith, and_digit a (ones k * 2 + 1), bit_and-ones k (a / 2))

-- The masks of 10 and of 12 ones.
pub bit_and_1023 : (a : ℕ) → bit_and a 0x3ff ≡ a % 1024
unfolding ones low_digits
bit_and_1023 a = bit_and-ones 10 a ∙ omega arith

pub bit_and_4095 : (a : ℕ) → bit_and a 0xfff ≡ a % 4096
unfolding ones low_digits
bit_and_4095 a = bit_and-ones 12 a ∙ omega arith
