-- ===== src/PublicId/Base62/Digits.antt =====
-- The two directions of the base-62 notation (internal/publicid/publicid.go).
use mathlib.Core.List.{reverse}
use mathlib.Core.Logic.{dite}
use mathlib.Core.WellFounded.{Acc}
use native.Mathlib.Decide.{dec_lt}
use dodo_payments_backend.Base.{
  ℕ, ◌+◌, ◌-◌, ◌≡◌, refl, ◌*◌, ◌/◌, ◌%◌, ◌^◌, ◌<◌, Option, none, some, [], ◌∷◌, arith, ltb, ◌==◌,
  if◌then◌else◌, get_or,
}
use dodo_payments_backend.Base.Order.{lt_wf}
use dodo_payments_backend.Base.Text.{Text, text, index_byte}

abbrev pub base62_chars : Text
base62_chars = text "0123456789ABCDEFGHIJKLMNOPQRSTUVWXYZabcdefghijklmnopqrstuvwxyz"

-- `base62Chars[d]`; the loop reads it at remainders by 62 only.
unfoldable pub base62_char : ℕ → ℕ
base62_char d = get_or base62_chars d 0

-- The loop `for n.Cmp(zero) > 0`: the digits written, the lowest first.
unfoldable pub write_digits : (n : ℕ) → Acc ◌<◌ n → Text
write_digits n (Acc.intro _ smaller) =
    dite (dec_lt 0 n)
      (λ h. base62_char (n % 62) ∷ write_digits (n / 62) (smaller (n / 62) (omega arith))) (λ _. [])

unfoldable pub to_base62 : ℕ → Text
to_base62 num = if num == 0 then text "0" else reverse (write_digits num (lt_wf.apply num))

-- The loop over the bytes of s, from the value n read so far; `none` for an invalid character.
unfoldable pub read_digits : ℕ → Text → Option ℕ
read_digits n [] = some n
read_digits n (c ∷ s) = elim (index_byte base62_chars c) [
  | none ↦ none
  | some idx ↦ read_digits (n * 62 + idx) s
]

-- A value that needs more than 64 bits is refused.
unfoldable pub from_base62 : Text → Option ℕ
from_base62 s = elim (read_digits 0 s) [
  | none ↦ none
  | some n ↦ if ltb n (2 ^ 64) then some n else none
]

to_base62_max : to_base62 (2 ^ 64 - 1) ≡ text "LygHa16AHYF"
unfolding to_base62 write_digits base62_char dec_lt lt_wf
to_base62_max = refl

from_base62_over : from_base62 (text "LygHa16AHYG") ≡ none
unfolding from_base62 read_digits index_byte
from_base62_over = refl
