-- ===== src/Base/Clock.antt =====
-- `Time.UTC().Format(time.RFC3339)` of a number of seconds since 1970-01-01 00:00:00 UTC.
use dodo_payments_backend.Base.{
  ℕ, ◌+◌, ◌-◌, ◌*◌, ◌/◌, ◌%◌, ◌≡◌, refl, [], ◌∷◌, ◌++◌, ltb, if◌then◌else◌,
}
use dodo_payments_backend.Base.Text.{Text, text}

abbrev pad2 : ℕ → Text
pad2 n = (48 + n / 10 % 10) ∷ (48 + n % 10) ∷ []

abbrev pad4 : ℕ → Text
pad4 n = pad2 (n / 100) ++ pad2 (n % 100)

-- The date of a day number, in the years counted from March.
record Civil : Type 0 where
  year : ℕ
  month : ℕ
  day : ℕ

unfoldable civil_of_days : ℕ → Civil
civil_of_days days =
    let z = days + 719468 in
    let doe = z % 146097 in
    let yoe = (doe + doe / 36524 - doe / 1460 - doe / 146096) / 365 in
    let doy = doe + yoe / 100 - 365 * yoe - yoe / 4 in
    let mp = (5 * doy + 2) / 153 in
    let month = if ltb mp 10 then mp + 3 else mp - 9 in
    record {
      year = yoe + z / 146097 * 400 + (if ltb month 3 then 1 else 0);
      month = month;
      day = doy + 1 - (153 * mp + 2) / 5;
    }

unfoldable pub format_rfc3339 : ℕ → Text
unfolding civil_of_days
format_rfc3339 seconds =
    let date = civil_of_days (seconds / 86400) in
    let clock = seconds % 86400 in
    pad4 date.year
    ++ (b'-' ∷ pad2 date.month)
    ++ (b'-' ∷ pad2 date.day)
    ++ (b'T' ∷ pad2 (clock / 3600))
    ++ (b':' ∷ pad2 (clock / 60 % 60))
    ++ (b':' ∷ pad2 (clock % 60))
    ++ (b'Z' ∷ [])

epoch_run : format_rfc3339 0 ≡ text "1970-01-01T00:00:00Z"
unfolding format_rfc3339
epoch_run = refl

leap_run : format_rfc3339 1709251199 ≡ text "2024-02-29T23:59:59Z"
unfolding format_rfc3339
leap_run = refl

new_year_run : format_rfc3339 1767225600 ≡ text "2026-01-01T00:00:00Z"
unfolding format_rfc3339
new_year_run = refl
