-- ===== src/Cron/Parse/Fields.antt =====
-- What a schedule that parses holds.
use simplek8s_controller.Prelude.{
  ℕ, zero, suc, ◌+◌, ◌%◌, ◌^◌, ◌≤◌, ◌≡◌, inl, inr, refl, Bool, true, false, ◌||◌, String, Option,
  none, some, is_some, List, [], ◌∷◌, Dict, All, any, arith, ◌==◌, str_eq, Bool-cases, Option-cases,
}
use simplek8s_controller.Stdlib.Json.{ℤ, pos, negsuc}
use simplek8s_controller.Stdlib.Strconv.{parse_int, cut_at, has_char, split, lower_eq}
use simplek8s_controller.Cron.{contains}
use simplek8s_controller.Cron.Latest.{IsAscending, Below}
use simplek8s_controller.Cron.Parse.{
  named, in_range, parse_value, parse_bounds, parse_dash, parse_range, parse_step, mark, at_most,
  mark_values, max_rounds, parse_parts, parse_item, parse_items, parse_field, normalize_dow,
  is_negative, single,
}
use simplek8s_controller.Cron.Parse.Values.{contains-mark, mark-IsAscending}

-- A field in ascending order whose values are negative or at most `max`.
pub record IsField (max : ℕ) (xs : List ℕ) : Type 0 where
  pub ascending : IsAscending xs
  pub bounded : (y : ℕ) → contains xs y ≡ true → at_most y max ≡ true

IsField-nil : (max : ℕ) → IsField max []
unfolding contains
IsField-nil max = record { ascending = tt; bounded = λ y h. absurd (ground (arith, h)) }

mark-IsField :
    (max v hi : ℕ) (xs : List ℕ)
    → hi ≤ max
    → at_most v hi ≡ true
    → IsField max xs
    → IsField max (mark v xs)
mark-IsField max v hi xs le test f = record {
  ascending = mark-IsAscending v xs f.ascending;
  bounded = λ y h. elim (Bool-cases (v == y)) [
    | inl e ↦ ground (arith, le, test, e)
    | inr other ↦ f.bounded y (ground (arith, h, other, contains-mark v xs y))
  ];
}

mark_values-IsField :
    (rounds max v hi step : ℕ) (present made : List ℕ)
    → hi ≤ max
    → IsField max present
    → mark_values rounds v hi step present ≡ some made
    → IsField max made
unfolding mark_values
mark_values-IsField zero max v hi step present made le f ran = absurd (ground (arith, ran))
mark_values-IsField (suc rounds) max v hi step present made le f ran =
    elim (Bool-cases (at_most v hi)) [
      | inl within ↦
          mark_values-IsField rounds max ((v + step) % 2 ^ 64) hi step (mark v present) made le
            (mark-IsField max v hi present le within f) (ground (arith, ran, within))
      | inr past ↦ rw (← (let e : present ≡ made = ground (arith, ran, past) in e)) f
    ]

-- The names of a field stand for values up to `max`.
abbrev NamesBelow : ℕ → Dict ℕ → Type 0
NamesBelow max = All (λ entry. entry.1 ≤ max)

named-le :
    (max : ℕ) (names : Dict ℕ) (raw : String) (v : ℕ)
    → NamesBelow max names
    → named names raw ≡ some v
    → v ≤ max
unfolding named
named-le max [] raw v below h = absurd (ground (arith, h))
named-le max ((name, w) ∷ names) raw v (first, rest) h = elim (Bool-cases (lower_eq raw name)) [
  | inl this ↦ ground (arith, first, h, this)
  | inr other ↦ named-le max names raw v rest (ground (arith, h, other))
]

in_range-le : (min max : ℕ) (o : Option ℤ) (v : ℕ) → in_range min max o ≡ some v → v ≤ max
unfolding in_range
in_range-le min max none v h = absurd (ground (arith, h))
in_range-le min max (some (negsuc n)) v h = absurd (ground (arith, h))
in_range-le min max (some (pos n)) v h = ground (arith, h)

module _ (min max : ℕ) (names : Dict ℕ) (below : NamesBelow max names) where
  parse_value-le : (raw : String) (v : ℕ) → parse_value min max names raw ≡ some v → v ≤ max
  unfolding parse_value
  parse_value-le raw v h = elim (Option-cases (named names raw)) [
    | inl plain ↦ in_range-le min max (parse_int raw) v (ground (arith, h, plain))
    | inr (w, found) ↦ named-le max names raw v below (ground (arith, h, found))
  ]

  parse_bounds-le :
      (from to : String) (r : ℕ × ℕ) → parse_bounds min max names from to ≡ some r → r.1 ≤ max
  unfolding parse_bounds
  parse_bounds-le from to r h = ground (arith, h, parse_value-le to r.1)

  single-le :
      (stepped : Bool) (o : Option ℕ) (r : ℕ × ℕ)
      → ((v : ℕ) → o ≡ some v → v ≤ max)
      → single stepped o ≡ some r
      → r.1 ≤ max
  single-le true o r le h = absurd (ground (arith, h))
  single-le false none r le h = absurd (ground (arith, h))
  single-le false (some v) r le h = ground (arith, h, le v refl)

  parse_dash-le :
      (stepped : Bool) (base : String) (cut : String × Option String) (r : ℕ × ℕ)
      → parse_dash min max names stepped base cut ≡ some r
      → r.1 ≤ max
  unfolding parse_dash
  parse_dash-le stepped base (from, some to) r h = parse_bounds-le from to r h
  parse_dash-le stepped base (from, none) r h =
      single-le stepped (parse_value min max names base) r (parse_value-le base) h

  parse_range-le :
      (stepped : Bool) (base : String) (r : ℕ × ℕ)
      → parse_range min max names stepped base ≡ some r
      → r.1 ≤ max
  unfolding parse_range
  parse_range-le stepped base r h = elim (Bool-cases (str_eq base "*")) [
    | inl star ↦ ground (arith, h, star)
    | inr other ↦ parse_dash-le stepped base (cut_at b'-' base) r (ground (arith, h, other))
  ]

  parse_parts-IsField :
      (present : List ℕ) (cut : String × Option String) (made : List ℕ)
      → IsField max present
      → parse_parts min max names present cut ≡ some made
      → IsField max made
  unfolding parse_parts
  parse_parts-IsField present (base, step_text) made f h =
      elim (Option-cases (parse_step step_text)) [
        | inl bad ↦ absurd (ground (arith, h, bad))
        | inr (step, good) ↦
            elim (Option-cases (parse_range min max names (is_some step_text) base)) [
              | inl bad ↦ absurd (ground (arith, h, bad, good))
              | inr (r, range) ↦
                  mark_values-IsField max_rounds max r.0 r.1 step present made
                    (parse_range-le (is_some step_text) base r range) f
                    (ground (arith, h, good, range))
            ]
      ]

  parse_items-IsField :
      (items : List String) (present made : List ℕ)
      → IsField max present
      → parse_items min max names present items ≡ some made
      → IsField max made
  unfolding parse_items parse_item
  parse_items-IsField [] present made f h =
      rw (← (let e : present ≡ made = ground (arith, h) in e)) f
  parse_items-IsField (item ∷ items) present made f h = elim (Bool-cases (str_eq item "")) [
    | inl empty ↦ absurd (ground (arith, h, empty))
    | inr full ↦ elim (Option-cases (parse_parts min max names present (cut_at b'/' item))) [
      | inl bad ↦ absurd (ground (arith, h, full, bad))
      | inr (marked, good) ↦
          parse_items-IsField items marked made
            (parse_parts-IsField present (cut_at b'/' item) marked f good)
            (ground (arith, h, full, good))
    ]
  ]

  pub parse_field-IsField :
      (field : String) (made : List ℕ)
      → parse_field min max names field ≡ some made
      → IsField max made
  unfolding parse_field
  parse_field-IsField field made h = elim (Bool-cases (has_char b'?' field)) [
    | inl bad ↦ absurd (ground (arith, h, bad))
    | inr good ↦
        parse_items-IsField (split b',' field) [] made (IsField-nil max) (ground (arith, h, good))
  ]

-- With no negative value.
pub any_negative-false :
    (xs : List ℕ) (y : ℕ)
    → any is_negative xs ≡ false
    → contains xs y ≡ true
    → is_negative y ≡ false
unfolding contains
any_negative-false [] y clean h = absurd (ground (arith, h))
any_negative-false (x ∷ xs) y clean h = elim (Bool-cases (x == y)) [
  | inl e ↦ ground (arith, clean, e)
  | inr other ↦ any_negative-false xs y (ground (arith, clean)) (ground (arith, h, other))
]

pub IsField-Below :
    (max : ℕ) (xs : List ℕ) → IsField max xs → any is_negative xs ≡ false → Below (suc max) xs
IsField-Below max xs f clean y h = ground (arith, f.bounded y h, any_negative-false xs y clean h)

pub normalize_dow-Below : (seen : Bool) (xs : List ℕ) → Below 8 xs → Below 7 (normalize_dow seen xs)
unfolding normalize_dow contains
normalize_dow-Below seen [] below y h = absurd (ground (arith, h))
normalize_dow-Below seen (d ∷ ds) below y h =
    let rest = normalize_dow-Below (seen || d == 7) ds (λ z m. below z (ground (arith, m))) y in
    let first = below d (ground arith) in ground (arith, h, rest, first)
