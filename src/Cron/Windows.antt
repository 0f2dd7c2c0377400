-- ===== src/Cron/Windows.antt =====
-- The last occurrence before a time, the windows, and the newest occurrence.
use native.Mathlib.Nat.{div-mul-le_self, le-div_iff_mul-le, mul-le-mul_right}
use simplek8s_controller.Prelude.{
  ℕ, zero, suc, ◌+◌, ◌-◌, ◌*◌, ◌/◌, ◌%◌, ◌≤◌, ◌<◌, ◌≡◌, refl, subst, inl, inr, Bool, true, false,
  Option, none, some, arith, ◌==◌, Bool-cases, if◌then◌else◌,
}
use simplek8s_controller.Stdlib.Text.{Time}
use simplek8s_controller.Cron.{
  Schedule, latest_on, scan, horizon, at_minute, last_occurrence, minute_ns, day_ns,
}
use simplek8s_controller.Cron.Latest.{Occurs, IsParsed, LatestFrom, latest_on-LatestFrom}

-- The days before, where this one has no occurrence.
scan_back :
    (s : Schedule) (left day top : ℕ) (found : Option ℕ)
    → ((d : ℕ)
        → day ≡ suc d
        → LatestFrom s ((d + 1 - left) * 1440) (d * 1440 + 1439) (scan s left d 23 59))
    → LatestFrom s (day * 1440) (day * 1440 + top) found
    → LatestFrom s ((day + 1 - suc left) * 1440) (day * 1440 + top) (elim found [
      | some v ↦ some v
      | none ↦ elim day [ zero ↦ none | suc d ↦ scan s left d 23 59 ]
    ])
scan_back s left day top (some v) back l = l
scan_back s left zero top none back l = λ v o low. absurd (omega (arith, l v o low))
scan_back s left (suc d) top none back l = widen (scan s left d 23 59) (back d refl)
  where
    widen :
        (o : Option ℕ)
        → LatestFrom s ((d + 1 - left) * 1440) (d * 1440 + 1439) o
        → LatestFrom s ((suc d + 1 - suc left) * 1440) (suc d * 1440 + top) o
    widen none e = λ v o low. ground (arith, l v o low, e v o)
    widen (some v0) (o0, fits, most) =
        (o0, omega (arith, fits), λ v o low. most v o (omega (arith, l v o low)))

scan-LatestFrom :
    (s : Schedule) (left day max_h max_m : ℕ)
    → IsParsed s
    → max_h < 24
    → max_m < 60
    → LatestFrom s
        ((day + 1 - left) * 1440)
        (day * 1440 + (max_h * 60 + max_m))
        (scan s left day max_h max_m)
unfolding scan
scan-LatestFrom s zero day max_h max_m p hb mb = λ v o low. omega (arith, low, hb, mb)
scan-LatestFrom s (suc left) day max_h max_m p hb mb =
    scan_back s left day (max_h * 60 + max_m) (latest_on s day max_h max_m)
      (λ d e. scan-LatestFrom s left d 23 59 p (ground arith) (ground arith))
      (latest_on-LatestFrom s day max_h max_m p hb mb)

-- An occurrence: of the five fields, or of `every`, which counts from midnight of each day.
pub data IsOccurrence (s : Schedule) (o : Time) : Type 0 where
  clock : s.every ≡ 0 → (v : ℕ) → o ≡ v * minute_ns → Occurs s v → IsOccurrence s o
  periodic :
      0 < s.every
      → (day k : ℕ) → o ≡ day * day_ns + k * s.every
      → k * s.every < day_ns
      → IsOccurrence s o

-- The latest occurrence up to the time `t`; there may be none, as far back as the horizon.
abbrev pub LatestUpTo : Schedule → Time → Option Time → Type 0
LatestUpTo s t none = (o : Time) → IsOccurrence s o → o ≤ t → o < (t / day_ns - horizon s) * day_ns
LatestUpTo s t (some o) =
    IsOccurrence s o × (o ≤ t) × ((o' : Time) → IsOccurrence s o' → o' ≤ t → o' ≤ o)

at_minute-LatestUpTo :
    (s : Schedule) (t : Time) (found : Option ℕ)
    → s.every ≡ 0
    → LatestFrom s ((t / minute_ns / 1440 + 1 - (horizon s + 1)) * 1440) (t / minute_ns) found
    → LatestUpTo s t (at_minute found)
at_minute-LatestUpTo s t none e l = λ o is low. elim is [
  | clock _ v same occurs ↦ omega (arith, same, low, l v occurs (omega (arith, same, low)))
  | periodic some_every day k same within ↦ absurd (omega (arith, e, some_every))
]
at_minute-LatestUpTo s t (some v0) e (o0, fits, most) = (
  clock e v0 refl o0,
  omega (arith, fits),
  λ o is low. elim is [
    | clock _ v same occurs ↦ omega (arith, same, most v occurs (omega (arith, same, low)))
    | periodic some_every day k same within ↦ absurd (omega (arith, e, some_every))
  ],
)

-- No period of the day that is not after `t` starts after the last one that is found.
periodic-le :
    (s : Schedule) (t : Time) {o : Time} (day k : ℕ)
    → 0 < s.every
    → k * s.every < day_ns
    → o ≡ day * day_ns + k * s.every
    → o ≤ t
    → o ≤ t / day_ns * day_ns + t % day_ns / s.every * s.every
periodic-le s t day k positive within same low = elim (Bool-cases (day == t / day_ns)) [
  | inl today ↦
      let e : day ≡ t / day_ns = ground (arith, today) in
      let fits : k * s.every ≤ t % day_ns = omega (arith, e, same, low) in
      let most = mul-le-mul_right s.every ((le-div_iff_mul-le positive).1 fits) in
      omega (arith, e, same, most)
  | inr other ↦
      let differs : day ≡ t / day_ns → ⊥ = λ e. ground (arith, other, e) in
      let early : day ≤ t / day_ns = omega (arith, same, low) in
      let before : suc day ≤ t / day_ns = ground (arith, differs, early) in
      omega (arith, same, within, before)
]

periodic-LatestUpTo :
    (s : Schedule) (t : Time)
    → 0 < s.every
    → LatestUpTo s t (some (t / day_ns * day_ns + t % day_ns / s.every * s.every))
periodic-LatestUpTo s t positive =
    let below = div-mul-le_self (t % day_ns) s.every in
    (
      periodic positive (t / day_ns) (t % day_ns / s.every) refl (omega (arith, below)),
      omega (arith, below),
      λ o is low. elim is [
        | clock zero_every v same occurs ↦ absurd (omega (arith, zero_every, positive))
        | periodic _ day k same within ↦ periodic-le s t day k positive within same low
      ],
    )

-- For a schedule as it is parsed, and any time: the occurrence that is found is the latest one that
-- is not after the time; if none is found, then each occurrence is before the days that were
-- searched.
pub last_occurrence-LatestUpTo :
    (s : Schedule) (t : Time) → IsParsed s → LatestUpTo s t (last_occurrence s t)
unfolding last_occurrence
last_occurrence-LatestUpTo s t p = by_form (s.every == 0) refl
  where
    whole_day :
        t / minute_ns / 1440 * 1440 + (t / minute_ns % 1440 / 60 * 60 + t / minute_ns % 60)
        ≡ t / minute_ns
    whole_day = omega arith

    by_form :
        (b : Bool)
        → (s.every == 0) ≡ b
        → LatestUpTo s t (
            if b
            then at_minute (
                scan s
                  (horizon s + 1)
                  (t / minute_ns / 1440)
                  (t / minute_ns % 1440 / 60)
                  (t / minute_ns % 60))
            else some (t / day_ns * day_ns + t % day_ns / s.every * s.every))
    by_form true e = at_minute-LatestUpTo s t _ (ground (arith, e)) (
        subst
          (λ top. LatestFrom s ((t / minute_ns / 1440 + 1 - (horizon s + 1)) * 1440) top (
            scan s (horizon s + 1) (t / minute_ns / 1440) (t / minute_ns % 1440 / 60)
              (t / minute_ns % 60)))
          whole_day
          (scan-LatestFrom s (horizon s + 1) (t / minute_ns / 1440) (t / minute_ns % 1440 / 60)
            (t / minute_ns % 60) p (omega arith) (omega arith)))
    by_form false e = periodic-LatestUpTo s t (ground (arith, e))
