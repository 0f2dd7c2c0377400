-- ===== src/Examples/Windows.antt =====
-- Schedules and their windows.
use simplek8s_controller.Prelude.{
  ◌*◌, ◌≡◌, ◌↔◌, ◌⊎◌, refl, true, false, none, [], ◌∷◌, All, Among, arith,
}
use simplek8s_controller.Stdlib.Text.{second}
use simplek8s_controller.Cron.{
  Schedule, contains, day_ns, last_occurrence, windows_open, newest_occurrence,
}
use simplek8s_controller.Cron.Calendar.{
  date_of, weekday_of, in_years, in_months, year_days, is_leap,
}
use simplek8s_controller.Cron.Latest.{IsParsed}
use simplek8s_controller.Cron.Windows.{LatestUpTo, last_occurrence-LatestUpTo}
use simplek8s_controller.Cron.Open.{Within, NotAfter, windows_open_iff, newest_occurrence-NotAfter}

-- "0 2 * * 6", with the months and the days written out.
abbrev pub saturdays : Schedule
saturdays = record {
  every = 0;
  minutes = 0 ∷ [];
  hours = 2 ∷ [];
  dom = 1 ∷ [];
  months = 1 ∷ 2 ∷ 3 ∷ 4 ∷ 5 ∷ 6 ∷ 7 ∷ 8 ∷ 9 ∷ 10 ∷ 11 ∷ 12 ∷ [];
  dow = 6 ∷ [];
  dom_star = true;
  dow_star = false;
}

-- "@every 6h"
abbrev pub quarters : Schedule
quarters = record saturdays { every = 21600 * second }

pub saturdays-IsParsed : IsParsed saturdays
unfolding contains
saturdays-IsParsed = record {
  hours_ascending = (λ y h. ground (arith, h), tt);
  minutes_ascending = (λ y h. ground (arith, h), tt);
  hours_below = λ y h. ground (arith, h);
  minutes_below = λ y h. ground (arith, h);
}

pub quarters-IsParsed : IsParsed quarters
unfolding contains
quarters-IsParsed = record {
  hours_ascending = (λ y h. ground (arith, h), tt);
  minutes_ascending = (λ y h. ground (arith, h), tt);
  hours_below = λ y h. ground (arith, h);
  minutes_below = λ y h. ground (arith, h);
}

last_occurrence-LatestUpTo_example :
    LatestUpTo saturdays (20000 * day_ns) (last_occurrence saturdays (20000 * day_ns))
last_occurrence-LatestUpTo_example =
    last_occurrence-LatestUpTo saturdays (20000 * day_ns) saturdays-IsParsed

windows_open_iff_example :
    (windows_open (saturdays ∷ quarters ∷ []) (3600 * second) (20000 * day_ns) ≡ true) ↔ (
      (s : Schedule) × Among s (saturdays ∷ quarters ∷ [])
      × Within (3600 * second) (20000 * day_ns) s)
windows_open_iff_example =
    windows_open_iff (saturdays ∷ quarters ∷ []) (3600 * second) (20000 * day_ns) (omega arith)
      (saturdays-IsParsed, (quarters-IsParsed, tt))

newest_occurrence-NotAfter_example :
    All
      (λ s.
        NotAfter
          (last_occurrence s (20000 * day_ns))
          (newest_occurrence (saturdays ∷ quarters ∷ []) (20000 * day_ns)))
      (saturdays ∷ quarters ∷ [])
    × ((newest_occurrence (saturdays ∷ quarters ∷ []) (20000 * day_ns) ≡ none)
        ⊎ ((s : Schedule) × Among s (saturdays ∷ quarters ∷ [])
            × (newest_occurrence (saturdays ∷ quarters ∷ []) (20000 * day_ns)
                ≡ last_occurrence s (20000 * day_ns))))
newest_occurrence-NotAfter_example =
    newest_occurrence-NotAfter (saturdays ∷ quarters ∷ []) (20000 * day_ns)

-- 2024-10-04, a Friday
day_20000 : (date_of 20000 ≡ record { year = 2024; month = 10; day = 4 }) × (weekday_of 20000 ≡ 5)
unfolding date_of weekday_of in_years in_months year_days is_leap
day_20000 = (refl, refl)
