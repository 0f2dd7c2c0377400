-- ===== src/Cron/Latest.antt =====
-- The search for an occurrence finds the latest one.
use simplek8s_controller.Prelude.{
  ℕ, ◌+◌, ◌*◌, ◌≤◌, ◌<◌, ◌≡◌, refl, subst, ◌⊎◌, inl, inr, Bool, true, false, Option, none, some,
  List, [], ◌∷◌, arith, ltb, leb, ◌==◌, Bool-cases, if◌then◌else◌,
}
use simplek8s_controller.Cron.{
  Schedule, contains, last_at_most, latest_in_day, pick_hour, minute_in_day, day_selected,
  latest_on,
}

-- A field as it is parsed: ascending, without repetition.
abbrev pub IsAscending : List ℕ → Type 0
IsAscending [] = Unit
IsAscending (x ∷ xs) = ((y : ℕ) → contains xs y ≡ true → x < y) × IsAscending xs

-- The largest value of a field that is at most `top`.
abbrev LastAtMost : List ℕ → ℕ → Option ℕ → Type 0
LastAtMost xs top none = (y : ℕ) → contains xs y ≡ true → top < y
LastAtMost xs top (some x) =
    (contains xs x ≡ true) × (x ≤ top) × ((y : ℕ) → contains xs y ≡ true → y ≤ top → y ≤ x)

-- A value of a field is the first or among the rest.
contains-cons :
    (x : ℕ) (xs : List ℕ) (y : ℕ) → contains (x ∷ xs) y ≡ true → (x ≡ y) ⊎ (contains xs y ≡ true)
unfolding contains
contains-cons x xs y h = ground (arith, h)

contains-head : (x : ℕ) (xs : List ℕ) → contains (x ∷ xs) x ≡ true
unfolding contains
contains-head x xs = ground arith

contains-tail : (x : ℕ) (xs : List ℕ) (y : ℕ) → contains xs y ≡ true → contains (x ∷ xs) y ≡ true
unfolding contains
contains-tail x xs y h = ground (arith, h)

last_of-cons :
    (x : ℕ) (xs : List ℕ) (top : ℕ) (o : Option ℕ)
    → ((y : ℕ) → contains xs y ≡ true → x < y)
    → LastAtMost xs top o
    → LastAtMost
        (x ∷ xs)
        top
        (elim o [ some y ↦ some y | none ↦ if leb x top then some x else none ])
last_of-cons x xs top (some z) above (there, fits, most) = (
  contains-tail x xs z there,
  fits,
  λ y h low. elim (contains-cons x xs y h) [
    | inl e ↦ omega (arith, e, above z there)
    | inr rest ↦ most y rest low
  ],
)
last_of-cons x xs top none above none_fits = elim (Bool-cases (leb x top)) [
  | inl fits ↦ rw fits (
    contains-head x xs,
    ground (arith, fits),
    λ y h low. elim (contains-cons x xs y h) [
      | inl e ↦ omega (arith, e)
      | inr rest ↦ absurd (omega (arith, none_fits y rest, low))
    ],
  )
  | inr over ↦ rw over (λ y h. elim (contains-cons x xs y h) [
    | inl e ↦ ground (arith, e, over)
    | inr rest ↦ none_fits y rest
  ])
]

last_at_most-LastAtMost :
    (xs : List ℕ) (top : ℕ) → IsAscending xs → LastAtMost xs top (last_at_most xs top)
unfolding last_at_most contains
last_at_most-LastAtMost [] top a = λ y h. ground (arith, h)
last_at_most-LastAtMost (x ∷ xs) top (above, a) =
    last_of-cons x xs top (last_at_most xs top) above (last_at_most-LastAtMost xs top a)

-- The latest time of day that the hours and the minutes select, at most `top` minutes into it.
abbrev LatestInDay : List ℕ → List ℕ → ℕ → Option (ℕ × ℕ) → Type 0
LatestInDay hs ms top none =
    (h m : ℕ) → contains hs h ≡ true → contains ms m ≡ true → top < h * 60 + m
LatestInDay hs ms top (some (h0, m0)) =
    (contains hs h0 ≡ true)
    × (contains ms m0 ≡ true)
    × (h0 * 60 + m0 ≤ top)
    × ((h m : ℕ)
        → contains hs h ≡ true
        → contains ms m ≡ true
        → h * 60 + m ≤ top
        → h * 60 + m ≤ h0 * 60 + m0)

abbrev pub Below : ℕ → List ℕ → Type 0
Below n xs = (y : ℕ) → contains xs y ≡ true → y < n

module _ (h : ℕ) (hs ms : List ℕ) (max_h max_m : ℕ) (above : (y : ℕ) → contains hs y ≡ true → h < y)
    (short : Below 60 ms) (within : max_m < 60) where
  -- A later hour has an occurrence: it is the latest still.
  latest_in-later :
      (hm : ℕ × ℕ)
      → LatestInDay hs ms (max_h * 60 + max_m) (some hm)
      → LatestInDay (h ∷ hs) ms (max_h * 60 + max_m) (some hm)
  latest_in-later (h0, m0) (in_hours, in_minutes, fits, most) = (
    contains-tail h hs h0 in_hours,
    in_minutes,
    fits,
    λ h' m' a b low. elim (contains-cons h hs h' a) [
      | inl e ↦ omega (arith, e, above h0 in_hours, short m' b)
      | inr rest ↦ most h' m' rest b low
    ],
  )

  -- The hour is too late.
  latest_in-over :
      max_h < h
      → LatestInDay hs ms (max_h * 60 + max_m) none
      → LatestInDay (h ∷ hs) ms (max_h * 60 + max_m) none
  latest_in-over late rest_over h' m' a b = elim (contains-cons h hs h' a) [
    | inl e ↦ omega (arith, e, late, within)
    | inr rest ↦ rest_over h' m' rest b
  ]

  -- The hour is the last one that may serve, and no later one does.
  latest_in-here :
      (top : ℕ) (o : Option ℕ)
      → top ≡ (if h == max_h then max_m else 59)
      → h ≤ max_h
      → LatestInDay hs ms (max_h * 60 + max_m) none
      → LastAtMost ms top o
      → LatestInDay (h ∷ hs) ms (max_h * 60 + max_m) (pick_hour h o)
  latest_in-here top none e early rest_over over = λ h' m' a b. elim (contains-cons h hs h' a) [
    | inl same ↦ ground (arith, same, e, early, over m' b, short m' b)
    | inr rest ↦ rest_over h' m' rest b
  ]
  latest_in-here top (some m) e early rest_over (there, fits, most) = (
    contains-head h hs,
    there,
    ground (arith, e, early, fits),
    λ h' m' a b low. elim (contains-cons h hs h' a) [
      | inl same ↦ ground (arith, same, e, early, short m' b, short m there, most m' b, low)
      | inr rest ↦ absurd (omega (arith, rest_over h' m' rest b, low))
    ],
  )

latest_in_day-LatestInDay :
    (hs ms : List ℕ) (max_h max_m : ℕ)
    → IsAscending hs
    → IsAscending ms
    → Below 60 ms
    → max_m < 60
    → LatestInDay hs ms (max_h * 60 + max_m) (latest_in_day hs ms max_h max_m)
unfolding latest_in_day contains
latest_in_day-LatestInDay [] ms max_h max_m a b short within =
    λ h m none_there. ground (arith, none_there)
latest_in_day-LatestInDay (h ∷ hs) ms max_h max_m (above, a) b short within =
    by_rest (latest_in_day hs ms max_h max_m)
      (latest_in_day-LatestInDay hs ms max_h max_m a b short within)
  where
    at_hour :
        (late : Bool)
        → ltb max_h h ≡ late
        → LatestInDay hs ms (max_h * 60 + max_m) none
        → LatestInDay (h ∷ hs) ms (max_h * 60 + max_m) (elim late [
          | true ↦ none
          | false ↦ pick_hour h (last_at_most ms (if h == max_h then max_m else 59))
        ])
    at_hour true e rest =
        latest_in-over h hs ms max_h max_m above short within (ground (arith, e)) rest
    at_hour false e rest =
        latest_in-here h hs ms max_h max_m above short within _ _ refl (ground (arith, e)) rest
          (last_at_most-LastAtMost ms _ b)

    by_rest :
        (o : Option (ℕ × ℕ))
        → LatestInDay hs ms (max_h * 60 + max_m) o
        → LatestInDay (h ∷ hs) ms (max_h * 60 + max_m) (elim o [
          | some hm ↦ some hm
          | none ↦ elim (ltb max_h h) [
            | true ↦ none
            | false ↦ pick_hour h (last_at_most ms (if h == max_h then max_m else 59))
          ]
        ])
    by_rest none rest = at_hour (ltb max_h h) refl rest
    by_rest (some hm) found = latest_in-later h hs ms max_h max_m above short within hm found

-- An occurrence in the minute `v`, counted from 1970: its day is selected, its hour and its minute are.
pub record Occurs (s : Schedule) (v : ℕ) : Type 0 where
  pub day : ℕ
  pub hour : ℕ
  pub minute : ℕ
  pub value : v ≡ day * 1440 + (hour * 60 + minute)
  pub selected : day_selected s day ≡ true
  pub in_hours : contains s.hours hour ≡ true
  pub in_minutes : contains s.minutes minute ≡ true

-- The fields as `Parse` makes them.
pub record IsParsed (s : Schedule) : Type 0 where
  pub hours_ascending : IsAscending s.hours
  pub minutes_ascending : IsAscending s.minutes
  pub hours_below : Below 24 s.hours
  pub minutes_below : Below 60 s.minutes

-- The latest occurrence of the minutes up to `top`, of those from the minute `from` on.
abbrev pub LatestFrom : Schedule → ℕ → ℕ → Option ℕ → Type 0
LatestFrom s from top none = (v : ℕ) → Occurs s v → v ≤ top → v < from
LatestFrom s from top (some v0) =
    Occurs s v0 × (v0 ≤ top) × ((v : ℕ) → Occurs s v → v ≤ top → v ≤ v0)

clash : {b : Bool} → b ≡ true → b ≡ false → ⊥
clash h c = ground (arith, h, c)

-- The minute of an occurrence, on its day, before the day, or after it.
time_of_day-lt :
    {s : Schedule} {v : ℕ} → IsParsed s → (o : Occurs s v) → o.hour * 60 + o.minute < 1440
time_of_day-lt p o =
    omega (arith, p.hours_below o.hour o.in_hours, p.minutes_below o.minute o.in_minutes)

day-le :
    {s : Schedule} {v : ℕ} (day : ℕ)
    → IsParsed s
    → (o : Occurs s v) → v < day * 1440 + 1440
    → o.day ≤ day
day-le day p o low = omega (arith, time_of_day-lt p o, o.value, low)

latest_on_day :
    (s : Schedule) (day top : ℕ) (found : Option (ℕ × ℕ)) (selected : Bool)
    → IsParsed s
    → top < 1440
    → day_selected s day ≡ selected
    → LatestInDay s.hours s.minutes top found
    → LatestFrom s
        (day * 1440)
        (day * 1440 + top)
        (if selected then minute_in_day day found else none)
latest_on_day s day top found false p tb sel l = λ v o low.
    let early : o.day ≤ day = day-le day p o (omega (arith, low, tb)) in
    elim (Bool-cases (o.day == day)) [
      | inl same ↦
          let e : o.day ≡ day = ground (arith, same) in
          absurd (clash (subst (λ d. day_selected s d ≡ true) e o.selected) sel)
      | inr other ↦ ground (arith, other, early, o.value, time_of_day-lt p o)
    ]
latest_on_day s day top none true p tb sel l = λ v o low.
    let early : o.day ≤ day = day-le day p o (omega (arith, low, tb)) in
    let over : top < o.hour * 60 + o.minute = l o.hour o.minute o.in_hours o.in_minutes in
    ground (arith, early, over, low, o.value, time_of_day-lt p o)
latest_on_day s day top (some (h, m)) true p tb sel (in_hours, in_minutes, fits, most) = (
  record {
    day = day;
    hour = h;
    minute = m;
    value = refl;
    selected = sel;
    in_hours = in_hours;
    in_minutes = in_minutes;
  },
  omega (arith, fits),
  λ v o low. elim (Bool-cases (o.day == day)) [
    | inl same ↦ ground (arith, same, o.value, most o.hour o.minute o.in_hours o.in_minutes, low)
    | inr other ↦
        ground (arith, other, o.value, time_of_day-lt p o, day-le day p o (omega (arith, low, tb)))
  ],
)

pub latest_on-LatestFrom :
    (s : Schedule) (day max_h max_m : ℕ)
    → IsParsed s
    → max_h < 24
    → max_m < 60
    → LatestFrom s (day * 1440) (day * 1440 + (max_h * 60 + max_m)) (latest_on s day max_h max_m)
unfolding latest_on
latest_on-LatestFrom s day max_h max_m p hb mb =
    latest_on_day s day (max_h * 60 + max_m) _ (day_selected s day) p (omega (arith, hb, mb)) refl (
      latest_in_day-LatestInDay s.hours s.minutes max_h max_m p.hours_ascending p.minutes_ascending
        p.minutes_below mb)
