-- ===== src/Cron/Parse/Proper.antt =====
-- The form of the schedules that `Parse` of internal/cron/cron.go makes.
use simplek8s_controller.Prelude.{
  ℕ, ◌*◌, ◌%◌, ◌^◌, ◌≡◌, subst, inl, inr, Bool, true, false, ◌||◌, String, Option, none, some,
  is_some, List, [], ◌∷◌, any, lookup, arith, ◌==◌, str_eq, Bool-cases, Option-cases, if◌then◌else◌,
}
use simplek8s_controller.Stdlib.Text.{second}
use simplek8s_controller.Stdlib.Json.{ℤ, pos, negsuc}
use simplek8s_controller.Stdlib.Strconv.{parse_int, cut_prefix, fields}
use simplek8s_controller.Cron.{Schedule, contains}
use simplek8s_controller.Cron.Latest.{IsAscending, Below, IsParsed}
use simplek8s_controller.Cron.Parse.{
  Parsed, schedule, refused, wrapped, parse_field, is_negative, make_schedule, parse_five, interval,
  must_fields, positive_interval, seconds_interval, parse_every, parse_seconds, parse_at,
  parse_interval, named_schedules, parse, every_second, month_names, dow_names,
}
use simplek8s_controller.Cron.Parse.Fields.{
  IsField, parse_field-IsField, IsField-Below, normalize_dow-Below,
}

-- A schedule whose fields are ascending and in their ranges.
pub record IsProper (s : Schedule) : Type 0 where
  pub parsed : IsParsed s
  pub dom_ascending : IsAscending s.dom
  pub months_ascending : IsAscending s.months
  pub dom_below : Below 32 s.dom
  pub months_below : Below 13 s.months
  pub dow_below : Below 7 s.dow

abbrev pub Result : Parsed → Type 0
Result (schedule s) = IsProper s
Result refused = Unit
Result wrapped = Unit

make_schedule-Result :
    (minutes hours dom months dow : List ℕ) (dom_star dow_star : Bool)
    → IsField 59 minutes
    → IsField 23 hours
    → IsField 31 dom
    → IsField 12 months
    → IsField 7 dow
    → Result (make_schedule minutes hours dom months dow dom_star dow_star)
unfolding make_schedule
make_schedule-Result minutes hours dom months dow dom_star dow_star a b c d e =
    elim (Bool-cases (
      any is_negative minutes
      || any is_negative hours
      || any is_negative dom
      || any is_negative months
      || any is_negative dow)) [
        | inl bad ↦ rw bad tt
        | inr clean ↦ rw clean (record {
          parsed = record {
            hours_ascending = b.ascending;
            minutes_ascending = a.ascending;
            hours_below = IsField-Below 23 hours b (ground (arith, clean));
            minutes_below = IsField-Below 59 minutes a (ground (arith, clean));
          };
          dom_ascending = c.ascending;
          months_ascending = d.ascending;
          dom_below = IsField-Below 31 dom c (ground (arith, clean));
          months_below = IsField-Below 12 months d (ground (arith, clean));
          dow_below = normalize_dow-Below false dow (IsField-Below 7 dow e (ground (arith, clean)));
        })
      ]

parse_five-Result : (fs : List String) → Result (parse_five fs)
unfolding parse_five
parse_five-Result (f0 ∷ f1 ∷ f2 ∷ f3 ∷ f4 ∷ []) = elim (Option-cases (parse_field 0 59 [] f0)) [
  | inl e ↦ rw e tt
  | inr (minutes, e0) ↦ elim (Option-cases (parse_field 0 23 [] f1)) [
    | inl e ↦ rw (e0, e) tt
    | inr (hours, e1) ↦ elim (Option-cases (parse_field 1 31 [] f2)) [
      | inl e ↦ rw (e0, e1, e) tt
      | inr (dom, e2) ↦ elim (Option-cases (parse_field 1 12 month_names f3)) [
        | inl e ↦ rw (e0, e1, e2, e) tt
        | inr (months, e3) ↦ elim (Option-cases (parse_field 0 7 dow_names f4)) [
          | inl e ↦ rw (e0, e1, e2, e3, e) tt
          | inr (dow, e4) ↦
              rw (e0, e1, e2, e3, e4)
                (make_schedule-Result minutes hours dom months dow (str_eq f2 "*") (str_eq f4 "*")
                  (parse_field-IsField 0 59 [] tt f0 minutes e0)
                  (parse_field-IsField 0 23 [] tt f1 hours e1)
                  (parse_field-IsField 1 31 [] tt f2 dom e2)
                  (parse_field-IsField 1 12 month_names (omega arith) f3 months e3)
                  (parse_field-IsField 0 7 dow_names (omega arith) f4 dow e4))
        ]
      ]
    ]
  ]
]
parse_five-Result _ = tt

pub interval-IsProper : (every : ℕ) → IsProper (interval every)
unfolding contains
interval-IsProper every = record {
  parsed = record {
    hours_ascending = tt;
    minutes_ascending = tt;
    hours_below = λ y h. absurd (ground (arith, h));
    minutes_below = λ y h. absurd (ground (arith, h));
  };
  dom_ascending = tt;
  months_ascending = tt;
  dom_below = λ y h. absurd (ground (arith, h));
  months_below = λ y h. absurd (ground (arith, h));
  dow_below = λ y h. absurd (ground (arith, h));
}

Result-if : (b : Bool) (p q : Parsed) → Result p → Result q → Result (if b then p else q)
Result-if true p q h k = h
Result-if false p q h k = k

must_fields-Result : (args : List String) (equiv : String) → Result (must_fields args equiv)
unfolding must_fields
must_fields-Result [] equiv = parse_five-Result (fields equiv)
must_fields-Result (arg ∷ args) equiv = tt

seconds_interval-Result : (o : Option ℤ) → Result (seconds_interval o)
unfolding seconds_interval
seconds_interval-Result none = tt
seconds_interval-Result (some (negsuc n)) = tt
seconds_interval-Result (some (pos n)) =
    let every = n * second % 2 ^ 64 in
    let rest = if is_negative every then wrapped else schedule (interval every) in
    Result-if (n == 0) refused rest tt (
      Result-if (is_negative every) wrapped (schedule (interval every)) tt
        (interval-IsProper every))

positive_interval-Result : (o : Option ℤ) → Result (positive_interval o)
unfolding positive_interval
positive_interval-Result none = tt
positive_interval-Result (some (negsuc n)) = tt
positive_interval-Result (some (pos n)) =
    Result-if (n == 0) refused (schedule (interval n)) tt (interval-IsProper n)

every_second-Result : (args : List String) → Result (every_second args)
every_second-Result [] = interval-IsProper second
every_second-Result (arg ∷ args) = tt

module _ (parse_duration : String → Option ℤ) where
  parse_every-Result : (args : List String) → Result (parse_every parse_duration args)
  unfolding parse_every
  parse_every-Result [] = tt
  parse_every-Result (arg ∷ []) = positive_interval-Result (parse_duration arg)
  parse_every-Result (arg ∷ more ∷ args) = tt

  parse_seconds-Result :
      (name : String) (args : List String) → Result (parse_seconds parse_duration name args)
  unfolding parse_seconds
  parse_seconds-Result name (arg ∷ args) = tt
  parse_seconds-Result name [] = elim (Option-cases (cut_prefix "@" name)) [
    | inl e ↦ rw (e, parse_seconds) tt
    | inr (digits, e) ↦ rw (e, parse_seconds) (seconds_interval-Result (parse_int digits))
  ]

  parse_interval-Result :
      (name : String) (args : List String) → Result (parse_interval parse_duration name args)
  unfolding parse_interval
  parse_interval-Result name args =
      let rest =
        if str_eq name "@every"
        then parse_every parse_duration args
        else parse_seconds parse_duration name args in
      Result-if (str_eq name "@every_second") (every_second args) rest (every_second-Result args) (
        Result-if (str_eq name "@every") (parse_every parse_duration args)
          (parse_seconds parse_duration name args) (parse_every-Result args)
          (parse_seconds-Result name args))

  parse_at-Result : (fs : List String) → Result (parse_at parse_duration fs)
  unfolding parse_at
  parse_at-Result [] = tt
  parse_at-Result (name ∷ args) = elim (Option-cases (lookup name named_schedules)) [
    | inl e ↦ rw (e, parse_at) (parse_interval-Result name args)
    | inr (equiv, e) ↦ rw (e, parse_at) (must_fields-Result args equiv)
  ]

  parse-Result : (spec : String) → Result (parse parse_duration spec)
  unfolding parse
  parse-Result spec =
      Result-if (is_some (cut_prefix "@" spec)) (parse_at parse_duration (fields spec))
        (parse_five (fields spec)) (parse_at-Result (fields spec)) (parse_five-Result (fields spec))

  -- A text that `Parse` accepts, whatever it is, gives a schedule in the form that the evaluation relies
  -- on, if no arithmetic of ints has made a negative value in it: the fields are in ascending order
  -- without repetition, minutes are below 60, hours below 24, days of the month at most 31, months at
  -- most 12 and days of the week at most 6, with 7 turned into 0.
  pub parse-IsProper :
      (spec : String) (s : Schedule) → parse parse_duration spec ≡ schedule s → IsProper s
  parse-IsProper spec s h = subst Result h (parse-Result spec)
