-- ===== src/PublicId/Base62/RoundTrip.antt =====
-- Reading what was written gives the number back (internal/publicid/publicid.go).
use mathlib.Core.List.{reverse, reverse-cons}
use mathlib.Core.Logic.{dif_pos, dif_neg}
use mathlib.Core.WellFounded.{Acc}
use native.Mathlib.Decide.{dec_lt}
use native.Mathlib.Bridge.{le_prop}
use dodo_payments_backend.Base.{
  ℕ, ◌+◌, ◌*◌, ◌/◌, ◌%◌, ◌^◌, ◌<◌, ◌≡◌, refl, ap, ◌∙◌, ◌≢◌, Bool, true, false, Option, none, some,
  [], ◌∷◌, ◌++◌, arith, ◌==◌, inl, inr, holds_below, holds_below_at, ==_iff, Option-cases,
  Bool-cases,
}
use dodo_payments_backend.Base.Order.{lt_wf}
use dodo_payments_backend.Base.Text.{Text, index_byte}
use dodo_payments_backend.PublicId.Base62.Digits.{
  base62_chars, base62_char, write_digits, to_base62, read_digits, from_base62,
}

finds : ℕ → Bool
finds d = elim (index_byte base62_chars (base62_char d)) [ none ↦ false | some i ↦ i == d ]

digits_table : holds_below 62 finds ≡ true
unfolding holds_below finds index_byte base62_char
digits_table = refl

-- The index of the d-th character is d.
index_byte-base62_char : (d : ℕ) → d < 62 → index_byte base62_chars (base62_char d) ≡ some d
unfolding finds
index_byte-base62_char d h = ground (arith, holds_below_at 62 d finds digits_table h)

extend : Option ℕ → ℕ → Option ℕ
extend none d = none
extend (some n) d = some (n * 62 + d)

-- One more character at the end is one more digit.
read_digits-snoc :
    (n d : ℕ) (s : Text)
    → d < 62
    → read_digits n (s ++ base62_char d ∷ []) ≡ extend (read_digits n s) d
unfolding read_digits extend
read_digits-snoc n d [] h = rw (index_byte-base62_char d h, read_digits)
read_digits-snoc n d (c ∷ s) h = elim (Option-cases (index_byte base62_chars c)) [
  | inl e ↦ rw (e, read_digits) refl
  | inr (i, e) ↦ rw (e, read_digits) (read_digits-snoc (n * 62 + i) d s h)
]

read_digits-write_digits :
    (n : ℕ) (w : Acc ◌<◌ n) → read_digits 0 (reverse (write_digits n w)) ≡ some n
unfolding write_digits
read_digits-write_digits n (Acc.intro _ smaller) = elim (dec_lt 0 n) [
  | yes p ↦
      let q : ℕ = n / 62 in
      let d : ℕ = n % 62 in
      let rest : Text = write_digits q (smaller q (omega arith)) in
      rw (dif_pos _ le_prop p, reverse-cons (base62_char d) rest)
        (rw (read_digits-snoc 0 d (reverse rest) (omega arith)) (
          ap (λ o. extend o d) (read_digits-write_digits q (smaller q (omega arith)))
          ∙ unfold extend in ap some (omega arith)))
  | no p ↦ rw (dif_neg _ p) (unfold read_digits in ap some (omega arith))
]

read_digits-to_base62 : (n : ℕ) → read_digits 0 (to_base62 n) ≡ some n
unfolding to_base62
read_digits-to_base62 n = elim (Bool-cases (n == 0)) [
  | inl e ↦ rw (e, (==_iff n 0).0 e) (unfold read_digits index_byte in refl)
  | inr e ↦ rw e (read_digits-write_digits n (lt_wf.apply n))
]

-- Every 64-bit number is read back from its notation.
pub from_base62-to_base62 : (n : ℕ) → n < 2 ^ 64 → from_base62 (to_base62 n) ≡ some n
unfolding from_base62
from_base62-to_base62 n h = rw (read_digits-to_base62 n, from_base62) (ground arith)

-- The notation of a number has at least one digit.
pub to_base62_some : (n : ℕ) → to_base62 n ≢ []
unfolding to_base62 read_digits
to_base62_some n e = ground (arith, read_digits-to_base62 n)

-- What is read lies below 2 ^ 64.
pub from_base62-lt : (s : Text) {n : ℕ} → from_base62 s ≡ some n → n < 2 ^ 64
unfolding from_base62
from_base62-lt s h = ground arith
