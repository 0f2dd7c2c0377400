-- ===== src/Cron.antt =====
-- internal/cron/cron.go: the occurrences of a schedule and the windows that they open.
pub mod Calendar
pub mod Parse
pub mod Latest
pub mod Windows
pub mod Open
use simplek8s_controller.Prelude.{
  ℕ, zero, suc, ◌+◌, ◌-◌, ◌*◌, ◌/◌, ◌%◌, Bool, true, false, not, ◌&&◌, ◌||◌, String, Option, none,
  some, is_some, List, [], ◌∷◌, ltb, leb, ◌==◌, if◌then◌else◌,
}
use simplek8s_controller.Stdlib.Text.{Time, second, sub_lt, after}
use simplek8s_controller.Cron.Calendar.{date_of, weekday_of}

-- `Schedule`: `every` is 0 for the form with five fields.
pub record Schedule : Type 0 where
  pub every : ℕ
  pub minutes : List ℕ
  pub hours : List ℕ
  pub dom : List ℕ
  pub months : List ℕ
  pub dow : List ℕ
  pub dom_star : Bool
  pub dow_star : Bool

abbrev pub minute_ns : ℕ
minute_ns = 60 * second

abbrev pub day_ns : ℕ
day_ns = 1440 * minute_ns

unfoldable pub contains : List ℕ → ℕ → Bool
contains [] v = false
contains (x ∷ xs) v = x == v || contains xs v

-- s.dayMatches, of a day by its number
unfoldable pub day_matches : Schedule → ℕ → Bool
day_matches s n =
    let dom_match = contains s.dom (date_of n).day in
    let dow_match = contains s.dow (weekday_of n) in
    if s.dom_star && s.dow_star
    then true
    else if s.dom_star
    then dow_match
    else if s.dow_star
    then dom_match
    else dom_match || dow_match

unfoldable pub is_only_feb29 : List ℕ → List ℕ → Bool
is_only_feb29 (m ∷ []) (d ∷ []) = m == 2 && d == 29
is_only_feb29 _ _ = false

-- The loops over the values of a field start at the last: the last value that is at most `top`.
unfoldable pub last_at_most : List ℕ → ℕ → Option ℕ
last_at_most [] top = none
last_at_most (x ∷ xs) top = elim (last_at_most xs top) [
  | some y ↦ some y
  | none ↦ if leb x top then some x else none
]

abbrev pub pick_hour : ℕ → Option ℕ → Option (ℕ × ℕ)
pick_hour h none = none
pick_hour h (some m) = some (h, m)

-- The hour and the minute.
unfoldable pub latest_in_day : List ℕ → List ℕ → ℕ → ℕ → Option (ℕ × ℕ)
latest_in_day [] minutes max_h max_m = none
latest_in_day (h ∷ hs) minutes max_h max_m = elim (latest_in_day hs minutes max_h max_m) [
  | some hm ↦ some hm
  | none ↦ elim (ltb max_h h) [
    | true ↦ none
    | false ↦ pick_hour h (last_at_most minutes (if h == max_h then max_m else 59))
  ]
]

-- A day that the date fields select.
unfoldable pub day_selected : Schedule → ℕ → Bool
day_selected s n = contains s.months (date_of n).month && day_matches s n

abbrev pub minute_in_day : ℕ → Option (ℕ × ℕ) → Option ℕ
minute_in_day day none = none
minute_in_day day (some hm) = some (day * 1440 + (hm.0 * 60 + hm.1))

-- The body of the loop over the days: the minute of an occurrence on the day, as counted from 1970.
unfoldable pub latest_on : Schedule → ℕ → ℕ → ℕ → Option ℕ
latest_on s day max_h max_m =
    if day_selected s day
    then minute_in_day day (latest_in_day s.hours s.minutes max_h max_m)
    else none

-- The loop, back from `day`, with `left` days to go; it ends before 1970.
unfoldable pub scan : Schedule → ℕ → ℕ → ℕ → ℕ → Option ℕ
scan s zero day max_h max_m = none
scan s (suc left) day max_h max_m = elim (latest_on s day max_h max_m) [
  | some v ↦ some v
  | none ↦ elim day [ zero ↦ none | suc d ↦ scan s left d 23 59 ]
]

unfoldable pub horizon : Schedule → ℕ
unfolding is_only_feb29
horizon s = if is_only_feb29 s.months s.dom then 4 * 366 + 1 else 366

abbrev pub at_minute : Option ℕ → Option Time
at_minute none = none
at_minute (some v) = some (v * minute_ns)

-- s.lastOccurrenceAtOrBefore(t)
unfoldable pub last_occurrence : Schedule → Time → Option Time
last_occurrence s t =
    let lim = t / minute_ns in
    if s.every == 0
    then at_minute (scan s (horizon s + 1) (lim / 1440) (lim % 1440 / 60) (lim % 60))
    else some (t / day_ns * day_ns + t % day_ns / s.every * s.every)

abbrev pub is_open : Option Time → ℕ → Time → Bool
is_open none grace now = false
is_open (some o) grace now = not (ltb now o) && sub_lt now o grace

unfoldable pub any_open : List Schedule → ℕ → Time → Bool
any_open [] grace now = false
any_open (s ∷ specs) grace now =
    is_open (last_occurrence s now) grace now || any_open specs grace now

-- cron.WindowsOpen; a grace that is not positive is 0.
unfoldable pub windows_open : List Schedule → ℕ → Time → Bool
unfolding any_open
windows_open [] grace now = false
windows_open (s ∷ specs) grace now = if grace == 0 then false else any_open (s ∷ specs) grace now

abbrev pub newer : Option Time → Option Time → Option Time
newer none occ = occ
newer (some o) none = some o
newer (some o) (some occ) = if after o occ then some o else some occ

unfoldable pub newest_from : Option Time → List Schedule → Time → Option Time
newest_from occ [] now = occ
newest_from occ (s ∷ specs) now = newest_from (newer (last_occurrence s now) occ) specs now

-- cron.NewestOccurrence
unfoldable pub newest_occurrence : List Schedule → Time → Option Time
unfolding newest_from
newest_occurrence specs now = newest_from none specs now
