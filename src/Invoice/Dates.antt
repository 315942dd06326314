-- ===== src/Invoice/Dates.antt =====
-- `time.Parse("2006-01-02", s)` and `Format("2006-01-02")` as internal/invoice/invoice.go uses
-- them. A date is the number year * 10000 + month * 100 + day.
use dodo_payments_backend.Base.{
  sym, ◌∙◌, ap, get_or, ◌≤◌, ◌-◌, ℕ, ◌+◌, ◌*◌, ◌/◌, ◌%◌, ◌<◌, ◌≡◌, Bool, true, false, not, ◌&&◌,
  ◌||◌, Option, none, some, List, [], ◌∷◌, ◌==◌, arith, refl, leb, if◌then◌else◌, Bool-cases, inl,
  inr,
}
use dodo_payments_backend.Base.Text.{Text, text}

abbrev is_digit : ℕ → Bool
is_digit c = leb 48 c && leb c 57

abbrev is_leap : ℕ → Bool
is_leap y = (y % 4 == 0) && (not (y % 100 == 0) || y % 400 == 0)

abbrev days_in : ℕ → ℕ → ℕ
days_in month year =
    if month == 2
    then (if is_leap year then 29 else 28)
    else if (month == 4) || (month == 6) || (month == 9) || (month == 11)
    then 30
    else 31

unfoldable pub is_date : ℕ → ℕ → ℕ → Bool
is_date y m d = leb 1 m && leb m 12 && leb 1 d && leb d (days_in m y)

unfoldable pub is_layout : Text → Bool
is_layout (y3 ∷ y2 ∷ y1 ∷ y0 ∷ dash ∷ m1 ∷ m0 ∷ dash2 ∷ d1 ∷ d0 ∷ []) =
    (is_digit y3 && is_digit y2 && is_digit y1 && is_digit y0 && dash == 45)
    && (is_digit m1 && is_digit m0 && dash2 == 45 && is_digit d1 && is_digit d0)
is_layout _ = false

abbrev digit : Text → ℕ → ℕ
digit s i = get_or s i 48 - 48

abbrev year_of : Text → ℕ
year_of s = digit s 0 * 1000 + digit s 1 * 100 + digit s 2 * 10 + digit s 3

abbrev month_of : Text → ℕ
month_of s = digit s 5 * 10 + digit s 6

abbrev day_of : Text → ℕ
day_of s = digit s 8 * 10 + digit s 9

-- Four digits, a dash, two digits, a dash, two digits, and nothing behind them.
unfoldable pub parse_date : Text → Option ℕ
parse_date s =
    if is_layout s && is_date (year_of s) (month_of s) (day_of s)
    then some (year_of s * 10000 + month_of s * 100 + day_of s)
    else none

unfoldable pub format_date : ℕ → Text
format_date n =
    let y = n / 10000 in
    let m = n / 100 % 100 in
    let d = n % 100 in
    (48 + y / 1000)
    ∷ (48 + y / 100 % 10)
    ∷ (48 + y / 10 % 10)
    ∷ (48 + y % 10)
    ∷ 45
    ∷ (48 + m / 10)
    ∷ (48 + m % 10)
    ∷ 45
    ∷ (48 + d / 10)
    ∷ (48 + d % 10)
    ∷ []

leap_day : parse_date (text "2024-02-29") ≡ some 20240229
unfolding parse_date is_layout is_date
leap_day = refl

no_leap_day : parse_date (text "2026-02-29") ≡ none
unfolding parse_date is_layout is_date
no_leap_day = refl

abbrev IsDigit : ℕ → Type 0
IsDigit c = (48 ≤ c) × (c ≤ 57)

parsed :
    (s : Text) {n : ℕ}
    → parse_date s ≡ some n
    → (is_layout s ≡ true) × (n ≡ year_of s * 10000 + month_of s * 100 + day_of s)
unfolding parse_date
parsed s h = elim (Bool-cases (is_layout s && is_date (year_of s) (month_of s) (day_of s))) [
  | inl e ↦ (ground arith, sym (some_inj (rw e at h)))
  | inr e ↦ absurd (none_some (rw e at h))
]
  where
    some_inj : {a b : ℕ} → some a ≡ some b → a ≡ b
    some_inj e = ground arith

    none_some : {b : ℕ} → none ≡ some b → ⊥
    none_some e = ground arith

cons : {x y : ℕ} {xs ys : List ℕ} → x ≡ y → xs ≡ ys → x ∷ xs ≡ y ∷ ys
cons e f i = e i ∷ f i

layout_digits :
    (y3 y2 y1 y0 dash m1 m0 dash2 d1 d0 : ℕ)
    → is_layout (y3 ∷ y2 ∷ y1 ∷ y0 ∷ dash ∷ m1 ∷ m0 ∷ dash2 ∷ d1 ∷ d0 ∷ []) ≡ true
    → (IsDigit y3 × IsDigit y2 × IsDigit y1 × IsDigit y0 × (dash ≡ 45))
      × (IsDigit m1 × IsDigit m0 × (dash2 ≡ 45) × IsDigit d1 × IsDigit d0)
unfolding is_layout
layout_digits y3 y2 y1 y0 dash m1 m0 dash2 d1 d0 h = ground arith

format_digits :
    (a b c e : ℕ) (m d : ℕ)
    → a < 10
    → b < 10
    → c < 10
    → e < 10
    → m < 100
    → d < 100
    → format_date ((a * 1000 + b * 100 + c * 10 + e) * 10000 + m * 100 + d)
      ≡ (48 + a)
        ∷ (48 + b)
        ∷ (48 + c)
        ∷ (48 + e)
        ∷ 45
        ∷ (48 + m / 10)
        ∷ (48 + m % 10)
        ∷ 45
        ∷ (48 + d / 10)
        ∷ (48 + d % 10)
        ∷ []
unfolding format_date
format_digits a b c e m d ha hb hc he hm hd =
    let n = (a * 1000 + b * 100 + c * 10 + e) * 10000 + m * 100 + d in
    let year : n / 10000 ≡ a * 1000 + b * 100 + c * 10 + e = omega arith in
    let month : n / 100 % 100 ≡ m = omega arith in
    let day : n % 100 ≡ d = omega arith in
    cons (omega (arith, year)) (
      cons (omega (arith, year)) (
        cons (omega (arith, year)) (
          cons (omega (arith, year)) (
            cons refl (
              cons (ap (λ x. 48 + x / 10) month) (
                cons (ap (λ x. 48 + x % 10) month) (
                  cons refl (
                    cons (ap (λ x. 48 + x / 10) day) (cons (ap (λ x. 48 + x % 10) day) refl)))))))))

format_layout :
    (s : Text)
    → is_layout s ≡ true
    → format_date (year_of s * 10000 + month_of s * 100 + day_of s) ≡ s
unfolding is_layout
format_layout (y3 ∷ y2 ∷ y1 ∷ y0 ∷ dash ∷ m1 ∷ m0 ∷ dash2 ∷ d1 ∷ d0 ∷ []) h =
    let (front, back) = layout_digits y3 y2 y1 y0 dash m1 m0 dash2 d1 d0 h in
    format_digits (y3 - 48) (y2 - 48) (y1 - 48) (y0 - 48) ((m1 - 48) * 10 + (m0 - 48))
      ((d1 - 48) * 10 + (d0 - 48)) (omega arith) (omega arith) (omega arith) (omega arith)
      (omega arith) (omega arith)
    ∙ cons (omega arith) (
        cons (omega arith) (
          cons (omega arith) (
            cons (omega arith) (
              cons (omega arith) (
                cons (omega arith) (
                  cons (omega arith)
                    (cons (omega arith) (cons (omega arith) (cons (omega arith) refl)))))))))
format_layout _ h = absurd (ground arith)

-- A due date that is accepted is printed in the responses as it was given (without the spaces that
-- are trimmed before).
pub format_date-parse_date : (s : Text) {n : ℕ} → parse_date s ≡ some n → format_date n ≡ s
format_date-parse_date s h =
    let (shape, value) = parsed s h in ap format_date value ∙ format_layout s shape
