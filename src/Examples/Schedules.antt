-- ===== src/Examples/Schedules.antt =====
-- Schedules that are parsed.
use simplek8s_controller.Prelude.{
  ℕ, ◌+◌, ◌<◌, ◌^◌, ◌≡◌, refl, String, Option, none, some, List, [], ◌∷◌, false, lookup, arith,
}
use simplek8s_controller.Stdlib.Json.{ℤ}
use simplek8s_controller.Cron.{Schedule}
use simplek8s_controller.Cron.Parse.{
  schedule, refused, wrapped, parse, mark_values, max_rounds, parse_step, parse_value, named,
  in_range, mark,
}
use simplek8s_controller.Stdlib.Strconv.{
  cut_prefix, fields, has_char, split, cut_at, parse_int, lower_eq,
}
use simplek8s_controller.Cron.Parse.Values.{Marked, mark_values-Ends}
use simplek8s_controller.Cron.Parse.Proper.{IsProper, parse-IsProper}

abbrev no_duration : String → Option ℤ
no_duration raw = none

-- "30 2 1 jan 5-7"
abbrev new_year : Schedule
new_year = record {
  every = 0;
  minutes = 30 ∷ [];
  hours = 2 ∷ [];
  dom = 1 ∷ [];
  months = 1 ∷ [];
  dow = 5 ∷ 6 ∷ 0 ∷ [];
  dom_star = false;
  dow_star = false;
}

new_year_parsed : parse no_duration "30 2 1 jan 5-7" ≡ schedule new_year
unfolding parse cut_prefix fields has_char split cut_at parse_step parse_value named in_range
    parse_int mark_values lower_eq mark
new_year_parsed = refl

parse-IsProper_example : IsProper new_year
parse-IsProper_example = parse-IsProper no_duration "30 2 1 jan 5-7" new_year new_year_parsed

mark_values-Ends_example :
    (made : List ℕ) × (mark_values max_rounds 5 50 20 [] ≡ some made)
    × (20 + 60 < 2 ^ 63 → Marked 5 50 20 [] made)
mark_values-Ends_example =
    mark_values-Ends 5 50 20 [] (omega arith) (omega arith) (omega arith) (omega arith)

-- A step near the largest int makes the value wrap.
large_step : parse no_duration "1-59/9223372036854775807 * * * *" ≡ wrapped
unfolding parse cut_prefix fields has_char split cut_at parse_step parse_value named in_range
    parse_int mark_values lower_eq mark
large_step = refl

-- An interval of more seconds than a duration holds.
large_interval : parse no_duration "@9223372037" ≡ wrapped
unfolding parse lookup cut_prefix fields has_char split cut_at parse_step parse_value named in_range
    parse_int mark_values lower_eq mark
large_interval = refl

question_mark : parse no_duration "? * * * *" ≡ refused
unfolding parse cut_prefix fields has_char split cut_at parse_step parse_value named in_range
    parse_int mark_values lower_eq mark
question_mark = refl
