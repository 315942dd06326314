-- ===== src/Base/Hex.antt =====
-- `encoding/hex`, `binary.BigEndian` on eight bytes, and `strings.Split` at one byte.
use dodo_payments_backend.Base.{
  ℕ, ◌+◌, ◌-◌, ◌*◌, ◌/◌, ◌%◌, ◌^◌, ◌<◌, ◌≡◌, refl, ◌&&◌, Option, none, some, List, [], ◌∷◌, ◌++◌,
  arith, ltb, leb, ◌==◌, if◌then◌else◌, All, length,
}
use dodo_payments_backend.Base.Text.{Text, Lacks}

abbrev pub IsByte : ℕ → Type 0
IsByte b = b < 256

abbrev pub hex_digit : ℕ → ℕ
hex_digit n = if ltb n 10 then 48 + n else 87 + n

-- `hex.EncodeToString`: two digits for a byte, in lower case.
unfoldable pub hex_encode : Text → Text
hex_encode [] = []
hex_encode (b ∷ bs) = hex_digit (b / 16) ∷ hex_digit (b % 16) ∷ hex_encode bs

abbrev pub hex_value : ℕ → Option ℕ
hex_value c =
    if leb 48 c && leb c 57
    then some (c - 48)
    else if leb 97 c && leb c 102
    then some (c - 87)
    else if leb 65 c && leb c 70
    then some (c - 55)
    else none

abbrev hex_byte : Option ℕ → Option ℕ → Option Text → Option Text
hex_byte (some a) (some b) (some bs) = some ((a * 16 + b) ∷ bs)
hex_byte _ _ _ = none

-- `hex.DecodeString`, with an error as `none`: pairs of digits in either case.
unfoldable pub hex_decode : Text → Option Text
hex_decode [] = some []
hex_decode (a ∷ []) = none
hex_decode (a ∷ b ∷ s) = hex_byte (hex_value a) (hex_value b) (hex_decode s)

hex_value-hex_digit : (n : ℕ) → n < 16 → hex_value (hex_digit n) ≡ some n
hex_value-hex_digit n h = ground arith

-- Bytes are read back from their digits.
pub hex_decode-hex_encode : (s : Text) → All IsByte s → hex_decode (hex_encode s) ≡ some s
unfolding hex_decode hex_encode
hex_decode-hex_encode [] h = refl
hex_decode-hex_encode (b ∷ bs) h =
    let whole : b / 16 * 16 + b % 16 ≡ b = omega arith in
    rw
      (
        hex_value-hex_digit (b / 16) (omega (arith, h.0)),
        hex_value-hex_digit (b % 16) (omega arith),
        hex_decode-hex_encode bs h.1,
        whole,
      )
      refl

pub length-hex_encode : (s : Text) → length (hex_encode s) ≡ 2 * length s
unfolding hex_encode
length-hex_encode [] = refl
length-hex_encode (b ∷ bs) = omega (arith, length-hex_encode bs)

-- A digit is no underscore.
pub hex_encode-Lacks : (s : Text) → All IsByte s → Lacks 95 (hex_encode s)
unfolding hex_encode
hex_encode-Lacks [] h = tt
hex_encode-Lacks (b ∷ bs) h = (ground (arith, h.0), (ground (arith, h.0), hex_encode-Lacks bs h.1))

-- `binary.BigEndian.PutUint64` and `Uint64`.
unfoldable pub put_uint64 : ℕ → Text
put_uint64 n =
    n / 2 ^ 56 % 256
    ∷ n / 2 ^ 48 % 256
    ∷ n / 2 ^ 40 % 256
    ∷ n / 2 ^ 32 % 256
    ∷ n / 2 ^ 24 % 256
    ∷ n / 2 ^ 16 % 256
    ∷ n / 2 ^ 8 % 256
    ∷ n % 256
    ∷ []

-- The value of bytes, the first one the most significant.
unfoldable pub big_endian : ℕ → Text → ℕ
big_endian acc [] = acc
big_endian acc (b ∷ bs) = big_endian (acc * 256 + b) bs

pub big_endian-put_uint64 : (n : ℕ) → n < 2 ^ 64 → big_endian 0 (put_uint64 n) ≡ n
unfolding big_endian put_uint64
big_endian-put_uint64 n h = omega arith

pub put_uint64-IsByte : (n : ℕ) → All IsByte (put_uint64 n)
unfolding put_uint64
put_uint64-IsByte n = omega arith

-- `strings.Split` at one byte: one part more than there are separators.
abbrev onto_first : ℕ → List Text → List Text
onto_first c [] = (c ∷ []) ∷ []
onto_first c (p ∷ ps) = (c ∷ p) ∷ ps

unfoldable pub split_all : ℕ → Text → List Text
split_all sep [] = [] ∷ []
split_all sep (c ∷ s) =
    let rest = split_all sep s in if c == sep then [] ∷ rest else onto_first c rest

pub split_all-Lacks : (sep : ℕ) (s : Text) → Lacks sep s → split_all sep s ≡ s ∷ []
unfolding split_all
split_all-Lacks sep [] h = refl
split_all-Lacks sep (c ∷ s) h = ground (arith, split_all-Lacks sep s h.1)

pub split_all-append :
    (sep : ℕ) (a b : Text) → Lacks sep a → Lacks sep b → split_all sep (a ++ sep ∷ b) ≡ a ∷ b ∷ []
unfolding split_all
split_all-append sep [] b h k = ground (arith, split_all-Lacks sep b k)
split_all-append sep (c ∷ a) b h k = rw (split_all-append sep a b h.1 k) (ground (arith, h.0))
