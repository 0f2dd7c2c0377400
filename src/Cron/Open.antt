-- ===== src/Cron/Open.antt =====
-- When a window is open, and which occurrence is the newest.
use simplek8s_controller.Prelude.{
  ℕ, ◌+◌, ◌*◌, ◌≤◌, ◌<◌, ◌≡◌, ◌↔◌, refl, subst, ◌∙◌, ◌⊎◌, inl, inr, true, Option, none, some, List,
  [], ◌∷◌, All, Among, arith, ◌==◌, Bool-cases,
}
use simplek8s_controller.Stdlib.Text.{Time, after}
use simplek8s_controller.Cron.{
  Schedule, horizon, last_occurrence, day_ns, is_open, any_open, windows_open, newer, newest_from,
  newest_occurrence,
}
use simplek8s_controller.Cron.Latest.{IsParsed}
use simplek8s_controller.Cron.Windows.{IsOccurrence, LatestUpTo, last_occurrence-LatestUpTo}

-- An occurrence of the schedule that `now` is within `grace` of.
abbrev pub Within : ℕ → Time → Schedule → Type 0
Within grace now s = (o : Time) × IsOccurrence s o × (o ≤ now) × (now < o + grace)

horizon-ge : (s : Schedule) → 366 ≤ horizon s
unfolding horizon
horizon-ge s = ground arith

is_open_iff :
    (s : Schedule) (grace : ℕ) (now : Time) (found : Option Time)
    → grace ≤ 366 * day_ns
    → LatestUpTo s now found
    → (is_open found grace now ≡ true) ↔ Within grace now s
is_open_iff s grace now none short l = (
  λ h. ground (arith, h),
  λ (o, is, low, near). absurd (omega (arith, l o is low, low, near, short, horizon-ge s)),
)
is_open_iff s grace now (some o) short (is, low, most) = (
  λ h. (o, is, low, ground (arith, h)),
  λ (o', is', low', near). ground (arith, low, most o' is' low', near),
)

any_open_iff :
    (specs : List Schedule) (grace : ℕ) (now : Time)
    → grace ≤ 366 * day_ns
    → All IsParsed specs
    → (any_open specs grace now ≡ true) ↔ ((s : Schedule) × Among s specs × Within grace now s)
unfolding any_open
any_open_iff [] grace now short p =
    (λ h. ground (arith, h), λ (s, none_there, _). absurd none_there)
any_open_iff (s ∷ specs) grace now short p =
    let here =
      is_open_iff s grace now (last_occurrence s now) short
        (last_occurrence-LatestUpTo s now p.0) in
    let later = any_open_iff specs grace now short p.1 in
    (
      λ h. elim (Bool-cases (is_open (last_occurrence s now) grace now)) [
        | inl open_here ↦ (s, inl refl, here.0 open_here)
        | inr shut ↦
            let (s', among, within) = later.0 (ground (arith, h, shut)) in (s', inr among, within)
      ],
      λ (s', among, within). elim among [
        | inl same ↦
            let open_here = here.1 (subst (Within grace now) same within) in
            ground (arith, open_here)
        | inr rest ↦ let open_later = later.1 (s', rest, within) in ground (arith, open_later)
      ],
    )

-- For schedules as they are parsed and a grace of at most 366 days: a window is open exactly if one
-- of the schedules has an occurrence that is not after `now`, and less than the grace before it.
pub windows_open_iff :
    (specs : List Schedule) (grace : ℕ) (now : Time)
    → grace ≤ 366 * day_ns
    → All IsParsed specs
    → (windows_open specs grace now ≡ true) ↔ ((s : Schedule) × Among s specs × Within grace now s)
unfolding windows_open
windows_open_iff [] grace now short p = any_open_iff [] grace now short p
windows_open_iff (s ∷ specs) grace now short p = elim (Bool-cases (grace == 0)) [
  | inl no_grace ↦ (
    λ h. absurd (ground (arith, h, no_grace)),
    λ (s', among, (o, is, low, near)). absurd (ground (arith, no_grace, low, near)),
  )
  | inr positive ↦ rw positive (any_open_iff (s ∷ specs) grace now short p)
]

-- `none` is before every time.
abbrev pub NotAfter : Option Time → Option Time → Type 0
NotAfter none r = Unit
NotAfter (some a) none = ⊥
NotAfter (some a) (some b) = a ≤ b

NotAfter-refl : (a : Option Time) → NotAfter a a
NotAfter-refl none = tt
NotAfter-refl (some a) = omega arith

NotAfter-trans : (a b c : Option Time) → NotAfter a b → NotAfter b c → NotAfter a c
NotAfter-trans none b c h k = tt
NotAfter-trans (some a) none c h k = absurd h
NotAfter-trans (some a) (some b) none h k = absurd k
NotAfter-trans (some a) (some b) (some c) h k = omega (arith, h, k)

-- The newer of two is one of them, and neither is after it.
newer-bounds :
    (o occ : Option Time)
    → NotAfter o (newer o occ)
      × NotAfter occ (newer o occ)
      × ((newer o occ ≡ occ) ⊎ (newer o occ ≡ o))
newer-bounds none occ = (tt, NotAfter-refl occ, inl refl)
newer-bounds (some o) none = (omega arith, tt, inr refl)
newer-bounds (some o) (some occ) = elim (Bool-cases (after o occ)) [
  | inl later ↦ rw later (omega arith, ground (arith, later), inr refl)
  | inr older ↦ rw older (ground (arith, older), omega arith, inl refl)
]

-- None of the schedules found a later occurrence, and the result is the start or found by one of them.
record NewestFrom (occ : Option Time) (specs : List Schedule) (now : Time) (r : Option Time)
    : Type 0 where
  start : NotAfter occ r
  all : All (λ s. NotAfter (last_occurrence s now) r) specs
  found : (r ≡ occ) ⊎ ((s : Schedule) × Among s specs × (r ≡ last_occurrence s now))

newest_from-NewestFrom :
    (occ : Option Time) (specs : List Schedule) (now : Time)
    → NewestFrom occ specs now (newest_from occ specs now)
unfolding newest_from
newest_from-NewestFrom occ [] now = record { start = NotAfter-refl occ; all = tt; found = inl refl }
newest_from-NewestFrom occ (s ∷ specs) now =
    let next = newer (last_occurrence s now) occ in
    let (fresh, kept, which) = newer-bounds (last_occurrence s now) occ in
    let rest = newest_from-NewestFrom next specs now in
    record {
      start = NotAfter-trans occ next _ kept rest.start;
      all = (NotAfter-trans (last_occurrence s now) next _ fresh rest.start, rest.all);
      found = elim rest.found [
        | inr (s', among, same) ↦ inr (s', inr among, same)
        | inl same ↦ elim which [
          | inl old ↦ inl (same ∙ old)
          | inr new ↦ inr (s, inl refl, same ∙ new)
        ]
      ];
    }

-- Of several schedules, the newest occurrence is found by one of them, unless there is none, and no
-- schedule finds a later one.
pub newest_occurrence-NotAfter :
    (specs : List Schedule) (now : Time)
    → All (λ s. NotAfter (last_occurrence s now) (newest_occurrence specs now)) specs
      × ((newest_occurrence specs now ≡ none)
          ⊎ ((s : Schedule) × Among s specs
              × (newest_occurrence specs now ≡ last_occurrence s now)))
unfolding newest_occurrence
newest_occurrence-NotAfter specs now =
    let n = newest_from-NewestFrom none specs now in (n.all, n.found)
