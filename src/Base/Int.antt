-- ===== src/Base/Int.antt =====
-- Signed integers over the native numbers, and the two's complement of 64 bits: `to_uint64` is
-- the conversion `uint64(x)` and `to_int64` the conversion `int64(n)` of Go.
use Prim.Native.Nat.{ℕ, suc, ◌+◌, ◌-◌, ◌*◌, ◌/◌, ◌%◌, ◌^◌, ◌≤◌, ◌<◌}
use mathlib.Core.Path.{◌≡◌}
use mathlib.Core.Bool.{Bool}
use native.Mathlib.Omega.{arith}
use dodo_payments_backend.Base.Tests.{ltb, leb, ◌==◌, if◌then◌else◌}

-- `negsuc n` is -(n + 1).
pub data ℤ : Type 0 where
  pos : ℕ → ℤ
  negsuc : ℕ → ℤ

abbrev pub pos_part : ℤ → ℕ
pos_part (pos n) = n
pos_part (negsuc n) = 0

abbrev pub neg_part : ℤ → ℕ
neg_part (pos n) = 0
neg_part (negsuc n) = suc n

-- a - b, as an integer.
abbrev pub sub_ℕ : ℕ → ℕ → ℤ
sub_ℕ a b = if leb b a then pos (a - b) else negsuc (b - a - 1)

infixl 65 ◌+ℤ◌
infixl 70 ◌*ℤ◌
infix 50 ◌≤ℤ◌
unfoldable pub ◌+ℤ◌ : ℤ → ℤ → ℤ
a +ℤ b = sub_ℕ (pos_part a + pos_part b) (neg_part a + neg_part b)

unfoldable pub ◌*ℤ◌ : ℤ → ℤ → ℤ
a *ℤ b =
    sub_ℕ (pos_part a * pos_part b + neg_part a * neg_part b)
      (pos_part a * neg_part b + neg_part a * pos_part b)

abbrev pub ◌≤ℤ◌ : ℤ → ℤ → Type 0
a ≤ℤ b = pos_part a + neg_part b ≤ pos_part b + neg_part a

abbrev pub ltb_ℤ : ℤ → ℤ → Bool
ltb_ℤ a b = ltb (pos_part a + neg_part b) (pos_part b + neg_part a)

abbrev pub leb_ℤ : ℤ → ℤ → Bool
leb_ℤ a b = leb (pos_part a + neg_part b) (pos_part b + neg_part a)

abbrev pub eqb_ℤ : ℤ → ℤ → Bool
eqb_ℤ a b = (pos_part a + neg_part b) == (pos_part b + neg_part a)

-- Go's integer division cuts towards zero; a division by zero panics, and no caller reaches it.
unfoldable pub quot : ℤ → ℤ → ℤ
quot a b =
    sub_ℕ (pos_part a / pos_part b + neg_part a / neg_part b)
      (pos_part a / neg_part b + neg_part a / pos_part b)

-- The values that an int64 takes.
abbrev pub IsInt64 : ℤ → Type 0
IsInt64 a = (pos_part a < 2 ^ 63) × (neg_part a ≤ 2 ^ 63)

unfoldable pub to_uint64 : ℤ → ℕ
to_uint64 a = (pos_part a + (2 ^ 64 - neg_part a % 2 ^ 64)) % 2 ^ 64

unfoldable pub to_int64 : ℕ → ℤ
to_int64 n =
    if ltb (n % 2 ^ 64) (2 ^ 63) then pos (n % 2 ^ 64) else negsuc (2 ^ 64 - n % 2 ^ 64 - 1)

-- The result of an int64 operation whose exact value is `a`.
unfoldable pub wrap64 : ℤ → ℤ
unfolding to_int64 to_uint64
wrap64 a = to_int64 (to_uint64 a)

pub to_int64-to_uint64 : (a : ℤ) → IsInt64 a → to_int64 (to_uint64 a) ≡ a
unfolding to_int64 to_uint64
to_int64-to_uint64 a h = ground arith

pub to_uint64-to_int64 : (n : ℕ) → n < 2 ^ 64 → to_uint64 (to_int64 n) ≡ n
unfolding to_int64 to_uint64
to_uint64-to_int64 n h = ground arith

pub to_uint64-lt : (a : ℤ) → to_uint64 a < 2 ^ 64
unfolding to_uint64
to_uint64-lt a = omega arith

pub to_int64-IsInt64 : (n : ℕ) → IsInt64 (to_int64 n)
unfolding to_int64
to_int64-IsInt64 n = ground arith

pub wrap64_fits : (a : ℤ) → IsInt64 a → wrap64 a ≡ a
unfolding wrap64
wrap64_fits a h = to_int64-to_uint64 a h
