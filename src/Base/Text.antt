-- ===== src/Base/Text.antt =====
-- Go strings as lists of bytes: equality, and the functions of package `strings` in use.
use Prim.Native.Nat.{ℕ, zero, suc, ◌+◌, ◌-◌, ◌/◌, ◌%◌}
use Prim.Native.Char.{code}
use Prim.Native.String.{String}
use mathlib.Core.Path.{◌≡◌, refl}
use mathlib.Core.Logic.{◌↔◌, ◌≢◌}
use mathlib.Core.Bool.{not, ◌||◌, ◌&&◌, Bool, true, false}
use mathlib.Core.Option.{Option, none, some}
use mathlib.Core.List.{List, [], ◌∷◌, ◌++◌, reverse}
use native.Mathlib.Omega.{arith}
use dodo_payments_backend.Base.Tests.{leb, ◌==◌, if◌then◌else◌}
use dodo_payments_backend.Base.Lists.{length, drop}

abbrev pub Text : Type 0
Text = List ℕ

-- The bytes of an ASCII literal.
abbrev pub text : String → Text
text String.[] = []
text (String.◌∷◌ c s) = code c ∷ text s

-- The characters of a text in UTF-8: every byte but those that continue one.
abbrev pub char_count : Text → ℕ
char_count [] = 0
char_count (c ∷ s) = if leb 128 c && not (leb 192 c) then char_count s else suc (char_count s)

unfoldable pub text_eq : Text → Text → Bool
text_eq [] [] = true
text_eq (a ∷ s) (b ∷ t) = if a == b then text_eq s t else false
text_eq _ _ = false

pub text_eq_iff : (s t : Text) → (text_eq s t ≡ true) ↔ (s ≡ t)
unfolding text_eq
text_eq_iff [] [] = ((λ _. refl), (λ _. refl))
text_eq_iff [] (b ∷ t) = ground arith
text_eq_iff (a ∷ s) [] = ground arith
text_eq_iff (a ∷ s) (b ∷ t) = ground (arith, text_eq_iff s t)

pub text_eq_refl : (s : Text) → text_eq s s ≡ true
text_eq_refl s = (text_eq_iff s s).1 refl

pub text_eq_ne : (s t : Text) → s ≢ t → text_eq s t ≡ false
text_eq_ne s t h = ground (arith, text_eq_iff s t)

abbrev pub is_empty : Text → Bool
is_empty [] = true
is_empty (c ∷ s) = false

-- `strings.SplitN(s, sep, 2)` for a separator of one byte: the parts before and after the first
-- separator, or `none` where there is just one part.
unfoldable pub split_n2 : ℕ → Text → Option (Text × Text)
split_n2 sep [] = none
split_n2 sep (c ∷ s) =
    if c == sep
    then some ([], s)
    else elim (split_n2 sep s) [ none ↦ none | some (a, b) ↦ some (c ∷ a, b) ]

-- `strings.IndexByte`, with -1 as `none`.
unfoldable pub index_byte : Text → ℕ → Option ℕ
index_byte [] c = none
index_byte (b ∷ s) c =
    if b == c then some 0 else elim (index_byte s c) [ none ↦ none | some i ↦ some (suc i) ]

-- `strings.Contains` of one byte.
unfoldable pub contains_byte : Text → ℕ → Bool
contains_byte [] c = false
contains_byte (b ∷ s) c = b == c || contains_byte s c

-- A byte does not occur.
abbrev pub Lacks : ℕ → Text → Type 0
Lacks c [] = Unit {0}
Lacks c (b ∷ s) = (b ≢ c) × Lacks c s

pub split_n2-append :
    (sep : ℕ) (a b : Text) → Lacks sep a → split_n2 sep (a ++ sep ∷ b) ≡ some (a, b)
unfolding split_n2
split_n2-append sep [] b h = ground arith
split_n2-append sep (c ∷ a) b h = ground (arith, split_n2-append sep a b h.1)

-- The UTF-8 bytes of the characters that `unicode.IsSpace` accepts: U+0009 to U+000D, U+0020,
-- U+0085, U+00A0, U+1680, U+2000 to U+200A, U+2028, U+2029, U+202F, U+205F and U+3000.
abbrev is_space1 : ℕ → Bool
is_space1 a = (leb 9 a && leb a 13) || a == 32

abbrev is_space2 : ℕ → ℕ → Bool
is_space2 a b = a == 0xc2 && (b == 0x85 || b == 0xa0)

abbrev is_space3 : ℕ → ℕ → ℕ → Bool
is_space3 a b c =
    (a == 0xe1 && b == 0x9a && c == 0x80)
    || (a == 0xe2
        && b == 0x80
        && ((leb 0x80 c && leb c 0x8a) || c == 0xa8 || c == 0xa9 || c == 0xaf))
    || (a == 0xe2 && b == 0x81 && c == 0x9f)
    || (a == 0xe3 && b == 0x80 && c == 0x80)

-- The number of bytes of the space at the start of a text, or 0. The text is read forwards, or,
-- with `is_space2` and `is_space3` turned round, from its end.
space_width : (ℕ → ℕ → Bool) → (ℕ → ℕ → ℕ → Bool) → Text → ℕ
space_width two three [] = 0
space_width two three (a ∷ []) = if is_space1 a then 1 else 0
space_width two three (a ∷ b ∷ []) = if is_space1 a then 1 else if two a b then 2 else 0
space_width two three (a ∷ b ∷ c ∷ s) =
    if is_space1 a then 1 else if two a b then 2 else if three a b c then 3 else 0

-- The spaces at the start go, as many as there are bytes at most.
trim_start : (Text → ℕ) → ℕ → Text → Text
trim_start width zero s = s
trim_start width (suc n) s =
    let rest = trim_start width n (drop (width s) s) in if width s == 0 then s else rest

-- `strings.TrimSpace`.
unfoldable pub trim_space : Text → Text
unfolding space_width trim_start
trim_space s =
    let front = trim_start (space_width is_space2 is_space3) (length s) s in
    reverse (
      trim_start (space_width (λ a b. is_space2 b a) (λ a b c. is_space3 c b a)) (length front)
        (reverse front))

trim_space_run : trim_space (text "  a b " ++ 0xc2 ∷ 0xa0 ∷ []) ≡ text "a b"
unfolding trim_space
trim_space_run = refl

-- `strings.ToUpper` before a comparison with an ASCII word: letters whose upper case is no ASCII
-- letter stay as they are, and two that are not ASCII have one (U+0131 and U+017F).
abbrev upper_byte : ℕ → ℕ
upper_byte c = if leb 97 c && leb c 122 then c - 32 else c

unfoldable pub to_upper : Text → Text
to_upper [] = []
to_upper (a ∷ []) = upper_byte a ∷ []
to_upper (a ∷ b ∷ s) =
    let wide = to_upper s in
    let rest = to_upper (b ∷ s) in
    if a == 0xc4 && b == 0xb1
    then 73 ∷ wide
    else if a == 0xc5 && b == 0xbf
    then 83 ∷ wide
    else upper_byte a ∷ rest

-- `%d` of a number that is not negative; the fuel, one more than the number, is enough digits.
decimal_digits : ℕ → ℕ → Text → Text
decimal_digits zero n digits = digits
decimal_digits (suc fuel) n digits =
    let more = decimal_digits fuel (n / 10) ((48 + n % 10) ∷ digits) in
    if n / 10 == 0 then (48 + n % 10) ∷ digits else more

unfoldable pub to_decimal : ℕ → Text
unfolding decimal_digits
to_decimal n = decimal_digits (suc n) n []

to_decimal_run : to_decimal 1207 ≡ text "1207"
unfolding to_decimal
to_decimal_run = refl

to_upper_run : to_upper (text "usd") ≡ text "USD"
unfolding to_upper
to_upper_run = refl
