-- ===== src/Cron/Calendar.antt =====
-- The dates of the Gregorian calendar in UTC, as package time gives them: days are numbered from
-- 1970-01-01, and earlier ones are left out.
pub mod Dates
use simplek8s_controller.Prelude.{
  ℕ, zero, suc, ◌+◌, ◌-◌, ◌*◌, ◌/◌, ◌%◌, Bool, true, false, not, ◌&&◌, ◌||◌, List, [], ◌∷◌, ltb,
  ◌==◌, if◌then◌else◌,
}

pub record Date : Type 0 where
  pub year : ℕ
  pub month : ℕ
  pub day : ℕ

unfoldable pub is_leap : ℕ → Bool
is_leap y = (y % 4 == 0 && not (y % 100 == 0)) || y % 400 == 0

unfoldable pub year_days : ℕ → ℕ
unfolding is_leap
year_days y = if is_leap y then 366 else 365

abbrev pub month_lengths : Bool → List ℕ
month_lengths leap =
    31 ∷ (if leap then 29 else 28) ∷ 31 ∷ 30 ∷ 31 ∷ 30 ∷ 31 ∷ 31 ∷ 30 ∷ 31 ∷ 30 ∷ 31 ∷ []

-- The month, from `m`, and the day in it, of the day `n` of what is left of the year.
unfoldable pub in_months : ℕ → ℕ → ℕ → List ℕ → Date
in_months y m n [] = record { year = y; month = m; day = n + 1 }
in_months y m n (len ∷ lens) =
    let later = in_months y (m + 1) (n - len) lens in
    if ltb n len then record { year = y; month = m; day = n + 1 } else later

-- The date of the day `n` counted from the first of the year `y`, with `left` years to go.
unfoldable pub in_years : ℕ → ℕ → ℕ → Date
unfolding year_days in_months
in_years zero y n = in_months y 1 n (month_lengths (is_leap y))
in_years (suc left) y n = elim (ltb n (year_days y)) [
  | true ↦ in_months y 1 n (month_lengths (is_leap y))
  | false ↦ in_years left (y + 1) (n - year_days y)
]

-- No year is shorter than 365 days.
unfoldable pub date_of : ℕ → Date
unfolding in_years
date_of n = in_years (n / 365) 1970 n

-- 1970-01-01 was a Thursday; Sunday is 0.
unfoldable pub weekday_of : ℕ → ℕ
weekday_of n = (n + 4) % 7
