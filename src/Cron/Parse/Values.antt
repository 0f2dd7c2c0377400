-- ===== src/Cron/Parse/Values.antt =====
-- The loop that enters the values of a range with a step.
use simplek8s_controller.Prelude.{
  ℕ, zero, suc, ◌+◌, ◌-◌, ◌*◌, ◌%◌, ◌^◌, ◌≤◌, ◌<◌, ◌≡◌, ap, ◌∙◌, ◌↔◌, ◌⊎◌, inl, inr, true, false,
  ◌||◌, some, List, [], ◌∷◌, arith, ltb, leb, ◌==◌, leb→le, Bool-cases,
}
use simplek8s_controller.Cron.{contains}
use simplek8s_controller.Cron.Latest.{IsAscending}
use simplek8s_controller.Cron.Parse.{mark, mark_values, at_most, max_rounds}

pub contains-mark :
    (v : ℕ) (xs : List ℕ) (y : ℕ) → contains (mark v xs) y ≡ (v == y || contains xs y)
unfolding contains mark
contains-mark v [] y = ground arith
contains-mark v (x ∷ xs) y = ground (arith, contains-mark v xs y)

pub mark-IsAscending : (v : ℕ) (xs : List ℕ) → IsAscending xs → IsAscending (mark v xs)
unfolding contains mark
mark-IsAscending v [] h = (λ y m. absurd (ground (arith, m)), tt)
mark-IsAscending v (x ∷ xs) (first, rest) = elim (Bool-cases (v == x)) [
  | inl there ↦ rw there (first, rest)
  | inr new ↦ elim (Bool-cases (ltb v x)) [
    | inl below ↦
        rw (new, below)
          (
            (λ y m. elim (Bool-cases (x == y)) [
              | inl e ↦ ground (arith, below, e)
              | inr other ↦ ground (arith, below, m, other, first y)
            ]),
            (first, rest),
          )
    | inr above ↦
        rw (new, above)
          (
            (λ y m. elim (Bool-cases (v == y)) [
              | inl e ↦ ground (arith, above, new, e)
              | inr other ↦ first y (ground (arith, m, other, contains-mark v xs y))
            ]),
            mark-IsAscending v xs rest,
          )
  ]
]

-- A value of the range that the steps meet.
abbrev pub Stepped : ℕ → ℕ → ℕ → ℕ → Type 0
Stepped lo hi step y = (k : ℕ) × (y ≡ lo + k * step) × (y ≤ hi)

-- What the loop makes of the set: it adds the values that the steps meet, and keeps the order.
pub record Marked (lo hi step : ℕ) (present made : List ℕ) : Type 0 where
  pub contents :
      (y : ℕ) → (contains made y ≡ true) ↔ ((contains present y ≡ true) ⊎ Stepped lo hi step y)
  pub ascending : IsAscending present → IsAscending made

Stepped-below : (lo hi step y : ℕ) → hi < lo → Stepped lo hi step y → ⊥
Stepped-below lo hi step y h (k, e, le) = grind (arith, e, le, h)

Stepped-next :
    (lo hi step y : ℕ) → lo ≤ hi → Stepped lo hi step y ↔ ((y ≡ lo) ⊎ Stepped (lo + step) hi step y)
Stepped-next lo hi step y h = (
  λ s. go s.0 s.1 s.2,
  λ m. elim m [
    | inl e ↦ (0, ground (arith, e), ground (arith, e, h))
    | inr (k, e, le) ↦ (suc k, grind (arith, e), le)
  ],
)
  where
    go : (k : ℕ) → y ≡ lo + k * step → y ≤ hi → (y ≡ lo) ⊎ Stepped (lo + step) hi step y
    go zero e le = inl (grind (arith, e))
    go (suc k) e le = inr (k, grind (arith, e), le)

-- One round of the loop, in front of those that follow.
Marked-round :
    (v hi step : ℕ) (present made : List ℕ)
    → v ≤ hi
    → Marked (v + step) hi step (mark v present) made
    → Marked v hi step present made
Marked-round v hi step present made le m = record {
  contents = λ y. (
    λ c. elim ((m.contents y).0 c) [
      | inr later ↦ inr ((Stepped-next v hi step y le).1 (inr later))
      | inl old ↦ elim (Bool-cases (v == y)) [
        | inl e ↦ inr ((Stepped-next v hi step y le).1 (inl (ground (arith, e))))
        | inr other ↦ inl (ground (arith, old, other, contains-mark v present y))
      ]
    ],
    λ c. (m.contents y).1 (elim c [
      | inl old ↦ inl (ground (arith, old, contains-mark v present y))
      | inr s ↦ elim ((Stepped-next v hi step y le).0 s) [
        | inl e ↦ inl (ground (arith, e, contains-mark v present y))
        | inr later ↦ inr later
      ]
    ]),
  );
  ascending = λ a. m.ascending (mark-IsAscending v present a);
}

Marked-none : (v hi step : ℕ) (present : List ℕ) → hi < v → Marked v hi step present present
Marked-none v hi step present h = record {
  contents = λ y.
      (λ c. inl c, λ c. elim c [ inl old ↦ old | inr s ↦ absurd (Stepped-below v hi step y h s) ]);
  ascending = λ a. a;
}

mark_values-next :
    (rounds v hi step : ℕ) (present : List ℕ)
    → at_most v hi ≡ true
    → mark_values (suc rounds) v hi step present
      ≡ mark_values rounds ((v + step) % 2 ^ 64) hi step (mark v present)
unfolding mark_values
mark_values-next rounds v hi step present h = rw h

mark_values-stop :
    (rounds v hi step : ℕ) (present : List ℕ)
    → at_most v hi ≡ false
    → mark_values (suc rounds) v hi step present ≡ some present
unfolding mark_values
mark_values-stop rounds v hi step present h = rw h

-- Without overflow the value grows in each round.
mark_values-Marked :
    (rounds v hi step : ℕ) (present : List ℕ)
    → hi < v + rounds
    → 0 < step
    → v < 2 ^ 63
    → step + hi < 2 ^ 63
    → (made : List ℕ) × (mark_values (suc rounds) v hi step present ≡ some made)
      × Marked v hi step present made
mark_values-Marked zero v hi step present enough positive small low = (
  present,
  mark_values-stop zero v hi step present (ground (arith, enough, small)),
  Marked-none v hi step present (omega arith),
)
mark_values-Marked (suc rounds) v hi step present enough positive small low =
    elim (Bool-cases (leb v hi)) [
      | inr past ↦
          let over : hi < v = ground (arith, past) in
          (
            present,
            mark_values-stop (suc rounds) v hi step present (ground (arith, over, small)),
            Marked-none v hi step present over,
          )
      | inl within ↦
          let le : v ≤ hi = ground (arith, within) in
          let (made, ran, m) =
            mark_values-Marked rounds (v + step) hi step (mark v present) (omega arith) positive
              (omega arith) low in
          let stays : (v + step) % 2 ^ 64 ≡ v + step = omega arith in
          (
            made,
            mark_values-next (suc rounds) v hi step present (ground (arith, within))
                ∙ ap (λ u. mark_values (suc rounds) u hi step (mark v present)) stays
                ∙ ran,
            Marked-round v hi step present made le m,
          )
    ]

-- A negative value near the least stop of its loop: the next value is large.
mark_values-negative :
    (rounds w hi step : ℕ) (present : List ℕ)
    → 2 ≤ rounds
    → hi < 60
    → w < 2 ^ 64
    → 2 ^ 64 ≤ w + 120
    → 2 ^ 63 ≤ step + 60
    → step < 2 ^ 63
    → (made : List ℕ) × (mark_values rounds w hi step present ≡ some made)
mark_values-negative zero w hi step present two short top near large below = absurd (omega arith)
mark_values-negative (suc zero) w hi step present two short top near large below =
    absurd (omega arith)
mark_values-negative (suc (suc rounds)) w hi step present two short top near large below =
    let last : (w + step) % 2 ^ 64 ≡ w + step - 2 ^ 64 = omega arith in
    (
      mark w present,
      mark_values-next (suc rounds) w hi step present (ground (arith, near, short))
          ∙ ap (λ u. mark_values (suc rounds) u hi step (mark w present)) last
          ∙ mark_values-stop rounds (w + step - 2 ^ 64) hi step (mark w present)
              (ground (arith, top, near, large, below, short)),
    )

-- A step so large that the sum may overflow: in two rounds the loop ends, or the value falls.
mark_values-ends :
    (rounds v hi step : ℕ) (present : List ℕ)
    → v + 4 ≤ rounds
    → v < 60
    → hi < 60
    → 2 ^ 63 ≤ step + 60
    → step < 2 ^ 63
    → (made : List ℕ) × (mark_values rounds v hi step present ≡ some made)
mark_values-ends zero v hi step present enough small short large below = absurd (omega arith)
mark_values-ends (suc zero) v hi step present enough small short large below = absurd (omega arith)
mark_values-ends (suc (suc rounds)) v hi step present enough small short large below =
    elim (Bool-cases (at_most v hi)) [
      | inr past ↦ (present, mark_values-stop (suc rounds) v hi step present past)
      | inl within ↦
          let first = mark_values-next (suc rounds) v hi step present within in
          elim (Bool-cases (at_most ((v + step) % 2 ^ 64) hi)) [
            | inr past ↦
                (mark v present, first ∙ mark_values-stop rounds _ hi step (mark v present) past)
            | inl again ↦
                let second =
                  mark_values-next rounds ((v + step) % 2 ^ 64) hi step (mark v present) again in
                let p = mark ((v + step) % 2 ^ 64) (mark v present) in
                let sum : (v + step) % 2 ^ 64 ≡ v + step = omega arith in
                elim (Bool-cases (leb (2 ^ 64) (v + step + step))) [
                  | inl falls ↦
                      let turn : ((v + step) % 2 ^ 64 + step) % 2 ^ 64 ≡ v + step + step - 2 ^ 64 =
                        omega (arith, leb→le (2 ^ 64) (v + step + step) falls) in
                      let (made, ran) =
                        mark_values-ends rounds (v + step + step - 2 ^ 64) hi step p (omega arith)
                          (omega arith) short large below in
                      (made, first ∙ second ∙ ap (λ w. mark_values rounds w hi step p) turn ∙ ran)
                  | inr stays ↦
                      let turn : ((v + step) % 2 ^ 64 + step) % 2 ^ 64 ≡ v + step + step =
                        ground (arith, stays, sum, large) in
                      let (made, ran) =
                        mark_values-negative rounds (v + step + step) hi step p (omega arith) short
                          (ground (arith, stays)) (omega arith) large below in
                      (made, first ∙ second ∙ ap (λ w. mark_values rounds w hi step p) turn ∙ ran)
                ]
          ]
    ]

-- The loop of `parseField` ends within its rounds, for every range below 60 and every step that an int
-- can be; and unless `v += step` can overflow, it adds to the set exactly the values of the range that
-- lie a multiple of the step behind its start, and keeps the set in ascending order.
pub mark_values-Ends :
    (lo hi step : ℕ) (present : List ℕ)
    → lo < 60
    → hi < 60
    → 0 < step
    → step < 2 ^ 63
    → (made : List ℕ) × (mark_values max_rounds lo hi step present ≡ some made)
      × (step + 60 < 2 ^ 63 → Marked lo hi step present made)
mark_values-Ends lo hi step present low short positive below =
    elim (Bool-cases (ltb (step + 60) (2 ^ 63))) [
      | inl fits ↦
          let (made, ran, m) =
            mark_values-Marked 199 lo hi step present (omega arith) positive (omega arith)
              (ground (arith, fits, short)) in
          (made, ran, λ h. m)
      | inr large ↦
          let (made, ran) =
            mark_values-ends max_rounds lo hi step present (omega arith) low short
              (ground (arith, large)) below in
          (made, ran, λ h. absurd (ground (arith, large, h)))
    ]
