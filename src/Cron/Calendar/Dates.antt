-- ===== src/Cron/Calendar/Dates.antt =====
-- The date of a day counts back to it.
use simplek8s_controller.Prelude.{
  ℕ, zero, suc, ◌+◌, ◌-◌, ◌*◌, ◌/◌, ◌≤◌, ◌<◌, ◌≡◌, refl, sym, subst, inl, inr, Bool, true, false,
  List, [], ◌∷◌, arith, ltb, Bool-cases,
}
use simplek8s_controller.Cron.Calendar.{
  Date, is_leap, year_days, month_lengths, in_months, in_years, date_of,
}

abbrev sum : List ℕ → ℕ
sum [] = 0
sum (n ∷ ns) = n + sum ns

-- The length of the month number `k`, from 0, and the days before it.
abbrev pub length_of : ℕ → List ℕ → ℕ
length_of k [] = 0
length_of zero (n ∷ ns) = n
length_of (suc k) (n ∷ ns) = length_of k ns

abbrev pub days_before : ℕ → List ℕ → ℕ
days_before zero ns = 0
days_before (suc k) [] = 0
days_before (suc k) (n ∷ ns) = n + days_before k ns

-- The days of `k` years from the year `y`.
abbrev pub years_before : ℕ → ℕ → ℕ
years_before zero y = 0
years_before (suc k) y = year_days y + years_before k (y + 1)

-- The day `n` of a year is in its month number `k`.
record InMonth (y m n : ℕ) (lens : List ℕ) (d : Date) : Type 0 where
  k : ℕ
  year : d.year ≡ y
  month : d.month ≡ m + k
  count : n + 1 ≡ days_before k lens + d.day
  first : 1 ≤ d.day
  last : d.day ≤ length_of k lens

in_months-InMonth :
    (y m n : ℕ) (lens : List ℕ) → n < sum lens → InMonth y m n lens (in_months y m n lens)
unfolding in_months
in_months-InMonth y m n [] h = absurd (omega (arith, h))
in_months-InMonth y m n (len ∷ lens) h = elim (Bool-cases (ltb n len)) [
  | inl here ↦ rw here (record {
    k = 0;
    year = refl;
    month = omega arith;
    count = omega arith;
    first = omega arith;
    last = ground (arith, here);
  })
  | inr later ↦
      let over : len ≤ n = ground (arith, later) in
      let i = in_months-InMonth y (m + 1) (n - len) lens (omega (arith, h, over)) in
      rw later (record {
        k = suc i.k;
        year = i.year;
        month = omega (arith, i.month);
        count = omega (arith, i.count, over);
        first = i.first;
        last = i.last;
      })
]

sum-month_lengths : (y : ℕ) → sum (month_lengths (is_leap y)) ≡ year_days y
unfolding year_days
sum-month_lengths y = elim (Bool-cases (is_leap y)) [ inl e ↦ rw e refl | inr e ↦ rw e refl ]

-- The day `n` from the first of `y` is in the year `y + j`, in its month number `k`.
pub record IsDateOf (y n : ℕ) (d : Date) : Type 0 where
  pub j : ℕ
  pub k : ℕ
  pub year : d.year ≡ y + j
  pub month : d.month ≡ 1 + k
  pub count : n + 1 ≡ years_before j y + days_before k (month_lengths (is_leap d.year)) + d.day
  pub first : 1 ≤ d.day
  pub last : d.day ≤ length_of k (month_lengths (is_leap d.year))

this_year : (y n : ℕ) → n < year_days y → IsDateOf y n (in_months y 1 n (month_lengths (is_leap y)))
this_year y n h =
    let lens = month_lengths (is_leap y) in
    let d = in_months y 1 n lens in
    let i = in_months-InMonth y 1 n lens (subst (λ s. n < s) (sym (sum-month_lengths y)) h) in
    record {
      j = 0;
      k = i.k;
      year = omega (arith, i.year);
      month = i.month;
      count =
          subst (λ z. n + 1 ≡ 0 + days_before i.k (month_lengths (is_leap z)) + d.day) (sym i.year)
            (omega (arith, i.count));
      first = i.first;
      last = subst (λ z. d.day ≤ length_of i.k (month_lengths (is_leap z))) (sym i.year) i.last;
    }

year_days-ge : (y : ℕ) → 365 ≤ year_days y
unfolding year_days
year_days-ge y = ground arith

later_year :
    (y n : ℕ) (d : Date) → year_days y ≤ n → IsDateOf (y + 1) (n - year_days y) d → IsDateOf y n d
later_year y n d over i = record {
  j = suc i.j;
  k = i.k;
  year = omega (arith, i.year);
  month = i.month;
  count = omega (arith, i.count, over);
  first = i.first;
  last = i.last;
}

by_year :
    (left y n : ℕ) (b : Bool)
    → ltb n (year_days y) ≡ b
    → (year_days y ≤ n
        → IsDateOf (y + 1) (n - year_days y) (in_years left (y + 1) (n - year_days y)))
    → IsDateOf y n (elim b [
      | true ↦ in_months y 1 n (month_lengths (is_leap y))
      | false ↦ in_years left (y + 1) (n - year_days y)
    ])
by_year left y n true e next = this_year y n (ground (arith, e))
by_year left y n false e next =
    let over : year_days y ≤ n = ground (arith, e) in later_year y n _ over (next over)

in_years-IsDateOf : (left y n : ℕ) → n < 365 * left + 365 → IsDateOf y n (in_years left y n)
unfolding in_years
in_years-IsDateOf zero y n h = this_year y n (omega (arith, h, year_days-ge y))
in_years-IsDateOf (suc left) y n h = by_year left y n (ltb n (year_days y)) refl (λ over.
    in_years-IsDateOf left (y + 1) (n - year_days y) (omega (arith, h, over, year_days-ge y)))

-- The date of each day from 1970 on is a date of the calendar, and counts to that day: the days of the
-- years since 1970, of the months before it in its year, and its day in its month.
pub date_of-IsDateOf : (n : ℕ) → IsDateOf 1970 n (date_of n)
unfolding date_of
date_of-IsDateOf n = in_years-IsDateOf (n / 365) 1970 n (omega arith)
