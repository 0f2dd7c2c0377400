-- ===== src/Cron/Parse.antt =====
-- internal/cron/cron.go: `Parse`, `parseAt`, `mustFields`, `parseField` and `parseValue`.
pub mod Values
pub mod Fields
pub mod Proper
use simplek8s_controller.Prelude.{
  ℕ, zero, suc, ◌+◌, ◌*◌, ◌%◌, ◌^◌, Bool, true, false, ◌&&◌, ◌||◌, String, Option, none, some,
  is_some, List, [], ◌∷◌, Dict, lookup, any, ltb, leb, ◌==◌, str_eq, if◌then◌else◌, ◌≡◌, refl,
}
use simplek8s_controller.Stdlib.Text.{second}
use simplek8s_controller.Stdlib.Json.{ℤ, pos, negsuc}
use simplek8s_controller.Stdlib.Strconv.{
  parse_int, cut_prefix, cut_at, split, has_char, fields, lower_eq, max_int,
}
use simplek8s_controller.Cron.{Schedule}

-- `wrapped` stands for a schedule that holds a negative number, which the evaluation does not model.
pub data Parsed : Type 0 where
  schedule : Schedule → Parsed
  refused wrapped : Parsed

infixl 5 ◌>>=◌
abbrev ◌>>=◌ {ℓ κ} : {A : Type ℓ} {B : Type κ} → Option A → (A → Option B) → Option B
none >>= f = none
some a >>= f = f a

abbrev pub month_names : Dict ℕ
month_names =
    ("jan", 1)
    ∷ ("feb", 2)
    ∷ ("mar", 3)
    ∷ ("apr", 4)
    ∷ ("may", 5)
    ∷ ("jun", 6)
    ∷ ("jul", 7)
    ∷ ("aug", 8)
    ∷ ("sep", 9)
    ∷ ("oct", 10)
    ∷ ("nov", 11)
    ∷ ("dec", 12)
    ∷ []

abbrev pub dow_names : Dict ℕ
dow_names =
    ("sun", 0) ∷ ("mon", 1) ∷ ("tue", 2) ∷ ("wed", 3) ∷ ("thu", 4) ∷ ("fri", 5) ∷ ("sat", 6) ∷ []

-- names[strings.ToLower(raw)]; nil is the empty list
unfoldable pub named : Dict ℕ → String → Option ℕ
named [] raw = none
named ((name, v) ∷ names) raw =
    let rest = named names raw in if lower_eq raw name then some v else rest

unfoldable pub in_range : ℕ → ℕ → Option ℤ → Option ℕ
in_range min max none = none
in_range min max (some (negsuc n)) = none
in_range min max (some (pos n)) = if ltb n min || ltb max n then none else some n

unfoldable pub parse_value : ℕ → ℕ → Dict ℕ → String → Option ℕ
parse_value min max names raw = elim (named names raw) [
  | some v ↦ some v
  | none ↦ in_range min max (parse_int raw)
]

-- The step behind the slash, which is 1 without one.
unfoldable pub positive_step : Option ℤ → Option ℕ
positive_step (some (pos n)) = if n == 0 then none else some n
positive_step _ = none

unfoldable pub parse_step : Option String → Option ℕ
unfolding positive_step
parse_step none = some 1
parse_step (some raw) = positive_step (parse_int raw)

abbrev ordered : ℕ → ℕ → Option (ℕ × ℕ)
ordered lo hi = if ltb hi lo then none else some (lo, hi)

unfoldable pub parse_bounds : ℕ → ℕ → Dict ℕ → String → String → Option (ℕ × ℕ)
parse_bounds min max names from to = do
  lo ← parse_value min max names from
  hi ← parse_value min max names to
  ordered lo hi

abbrev single : Bool → Option ℕ → Option (ℕ × ℕ)
single true v = none
single false none = none
single false (some v) = some (v, v)

unfoldable pub parse_dash : ℕ → ℕ → Dict ℕ → Bool → String → String × Option String → Option (ℕ × ℕ)
unfolding parse_bounds
parse_dash min max names stepped base (from, some to) = parse_bounds min max names from to
parse_dash min max names stepped base (from, none) = single stepped (parse_value min max names base)

-- The switch on the base of an item, which has a step or not.
unfoldable pub parse_range : ℕ → ℕ → Dict ℕ → Bool → String → Option (ℕ × ℕ)
unfolding parse_dash
parse_range min max names stepped base =
    if str_eq base "*"
    then some (min, max)
    else parse_dash min max names stepped base (cut_at b'-' base)

-- The set of the values, in ascending order. An int is its pattern of 64 bits.
unfoldable pub mark : ℕ → List ℕ → List ℕ
mark v [] = v ∷ []
mark v (x ∷ xs) =
    let rest = mark v xs in if v == x then x ∷ xs else if ltb v x then v ∷ x ∷ xs else x ∷ rest

-- v <= hi, for an int v and a small hi
abbrev pub at_most : ℕ → ℕ → Bool
at_most v hi = leb (2 ^ 63) v || leb v hi

-- `for v := lo; v <= hi; v += step`, with the rounds to go; `none` if they do not suffice.
unfoldable pub mark_values : ℕ → ℕ → ℕ → ℕ → List ℕ → Option (List ℕ)
mark_values zero v hi step present = none
mark_values (suc rounds) v hi step present =
    let rest = mark_values rounds ((v + step) % 2 ^ 64) hi step (mark v present) in
    if at_most v hi then rest else some present

abbrev pub max_rounds : ℕ
max_rounds = 200

unfoldable pub parse_parts : ℕ → ℕ → Dict ℕ → List ℕ → String × Option String → Option (List ℕ)
unfolding parse_range
parse_parts min max names present (base, step_text) = do
  step ← parse_step step_text
  r ← parse_range min max names (is_some step_text) base
  mark_values max_rounds r.0 r.1 step present

-- One item of the list.
unfoldable pub parse_item : ℕ → ℕ → Dict ℕ → List ℕ → String → Option (List ℕ)
unfolding parse_parts
parse_item min max names present item =
    if str_eq item "" then none else parse_parts min max names present (cut_at b'/' item)

unfoldable pub parse_items : ℕ → ℕ → Dict ℕ → List ℕ → List String → Option (List ℕ)
unfolding parse_item
parse_items min max names present [] = some present
parse_items min max names present (item ∷ items) = do
  marked ← parse_item min max names present item
  parse_items min max names marked items

-- parseField
unfoldable pub parse_field : ℕ → ℕ → Dict ℕ → String → Option (List ℕ)
unfolding parse_items
parse_field min max names field =
    if has_char b'?' field then none else parse_items min max names [] (split b',' field)

-- 7 is Sunday too, and is entered once.
unfoldable pub normalize_dow : Bool → List ℕ → List ℕ
normalize_dow seen_sun [] = []
normalize_dow seen_sun (d ∷ ds) =
    let rest = normalize_dow (seen_sun || d == 7) ds in
    if d == 7 then if seen_sun then rest else 0 ∷ rest else d ∷ rest

abbrev pub is_negative : ℕ → Bool
is_negative v = leb (2 ^ 63) v

abbrev pub fits : Schedule → Bool → Parsed
fits s bad = if bad then wrapped else schedule s

-- The schedule of five fields.
unfoldable pub make_schedule : List ℕ → List ℕ → List ℕ → List ℕ → List ℕ → Bool → Bool → Parsed
unfolding normalize_dow
make_schedule minutes hours dom months dow dom_star dow_star =
    fits
      (record {
        every = 0;
        minutes = minutes;
        hours = hours;
        dom = dom;
        months = months;
        dow = normalize_dow false dow;
        dom_star = dom_star;
        dow_star = dow_star;
      })
      (any is_negative minutes
        || any is_negative hours
        || any is_negative dom
        || any is_negative months
        || any is_negative dow)

abbrev or_refused : Option Parsed → Parsed
or_refused none = refused
or_refused (some p) = p

-- `Parse` of a text that does not start with "@", by its fields.
unfoldable pub parse_five : List String → Parsed
unfolding parse_field make_schedule
parse_five (f0 ∷ f1 ∷ f2 ∷ f3 ∷ f4 ∷ []) = or_refused (do
  minutes ← parse_field 0 59 [] f0
  hours ← parse_field 0 23 [] f1
  dom ← parse_field 1 31 [] f2
  months ← parse_field 1 12 month_names f3
  dow ← parse_field 0 7 dow_names f4
  some (make_schedule minutes hours dom months dow (str_eq f2 "*") (str_eq f4 "*")))
parse_five _ = refused

-- A schedule that recurs in intervals.
abbrev pub interval : ℕ → Schedule
interval every = record {
  every = every;
  minutes = [];
  hours = [];
  dom = [];
  months = [];
  dow = [];
  dom_star = false;
  dow_star = false;
}

-- mustFields; the built-in schedules parse
unfoldable pub must_fields : List String → String → Parsed
unfolding parse_five
must_fields [] equiv = parse_five (fields equiv)
must_fields (argument ∷ rest) equiv = refused

unfoldable pub positive_interval : Option ℤ → Parsed
positive_interval (some (pos n)) = if n == 0 then refused else schedule (interval n)
positive_interval _ = refused

-- time.Duration(n) * time.Second, in 64 bits
unfoldable pub seconds_interval : Option ℤ → Parsed
seconds_interval (some (pos n)) =
    let every = n * second % 2 ^ 64 in
    if n == 0 then refused else fits (interval every) (is_negative every)
seconds_interval _ = refused

-- The cases of `parseAt` that stand for five fields.
abbrev pub named_schedules : Dict String
named_schedules =
    ("@hourly", "0 * * * *")
    ∷ ("@daily", "0 0 * * *")
    ∷ ("@midnight", "0 0 * * *")
    ∷ ("@weekly", "0 0 * * 0")
    ∷ ("@monthly", "0 0 1 * *")
    ∷ ("@yearly", "0 0 1 1 *")
    ∷ ("@annually", "0 0 1 1 *")
    ∷ ("@every_minute", "* * * * *")
    ∷ []

abbrev pub every_second : List String → Parsed
every_second [] = schedule (interval second)
every_second (argument ∷ rest) = refused

module _ (parse_duration : String → Option ℤ) where
  unfoldable pub parse_every : List String → Parsed
  unfolding positive_interval
  parse_every (duration ∷ []) = positive_interval (parse_duration duration)
  parse_every _ = refused

  -- @<seconds>
  unfoldable pub parse_seconds : String → List String → Parsed
  unfolding seconds_interval
  parse_seconds name [] = elim (cut_prefix "@" name) [
    | none ↦ refused
    | some digits ↦ seconds_interval (parse_int digits)
  ]
  parse_seconds name _ = refused

  -- The forms that are not named schedules.
  unfoldable pub parse_interval : String → List String → Parsed
  unfolding parse_every parse_seconds
  parse_interval name args =
      if str_eq name "@every_second"
      then every_second args
      else if str_eq name "@every"
      then parse_every args
      else parse_seconds name args

  -- parseAt, by the fields
  unfoldable pub parse_at : List String → Parsed
  unfolding parse_interval must_fields
  parse_at [] = refused
  parse_at (name ∷ args) = elim (lookup name named_schedules) [
    | some equiv ↦ must_fields args equiv
    | none ↦ parse_interval name args
  ]

  -- cron.Parse
  unfoldable pub parse : String → Parsed
  unfolding parse_at parse_five
  parse spec =
      if is_some (cut_prefix "@" spec) then parse_at (fields spec) else parse_five (fields spec)
