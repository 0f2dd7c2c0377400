-- ===== src/Update/Steps/Newest.antt =====
-- internal/features/update/check.go: the version that a check finds is the newest of the flavor.
use simplek8s_controller.Prelude.{
  ◌≡◌, ◌≢◌, refl, sym, subst, ap, ◌∙◌, ◌⊎◌, inl, inr, true, false, String, Option, none, some, [],
  ◌∷◌, Dict, Among, All, str_eq, eq_iff, arith, Bool-cases, Option-cases,
}
use simplek8s_controller.Stdlib.Json.{ℤ, pos, negsuc}
use simplek8s_controller.Stdlib.Strconv.{parse_int}
use simplek8s_controller.Updatecore.Versions.{Release, parse_kernel_release, newer_ts, int_gt}
use simplek8s_controller.Update.Check.{latest_of}

-- The sums list a kernel of the version and the flavor.
pub record Listed (sums : Dict String) (version flavor : String) : Type 0 where
  pub entry : String × String
  pub there : Among entry sums
  pub release : Release
  pub parsed : parse_kernel_release entry.0 ≡ some release
  pub is_version : release.ts ≡ version
  pub own : release.flavor ≡ flavor

-- None of the kernels of the flavor that the sums list is newer.
abbrev pub IsNewest : Dict String → String → String → Type 0
IsNewest sums version flavor =
    All
      (λ entry.
        (r : Release)
        → parse_kernel_release entry.0 ≡ some r
        → r.flavor ≡ flavor
        → r.ts ≢ ""
        → newer_ts r.ts version ≡ false)
      sums

int_gt_trans : (a b c : Option ℤ) → int_gt a b ≡ true → int_gt b c ≡ true → int_gt a c ≡ true
int_gt_trans none b c h k = absurd (ground (arith, h))
int_gt_trans (some (pos a)) none c h k = absurd (ground (arith, h))
int_gt_trans (some (negsuc a)) none c h k = absurd (ground (arith, h))
int_gt_trans (some (pos a)) (some (pos b)) none h k = absurd (ground (arith, k))
int_gt_trans (some (pos a)) (some (negsuc b)) none h k = absurd (ground (arith, k))
int_gt_trans (some (negsuc a)) (some (pos b)) c h k = absurd (ground (arith, h))
int_gt_trans (some (negsuc a)) (some (negsuc b)) none h k = absurd (ground (arith, k))
int_gt_trans (some (pos a)) (some (pos b)) (some (pos c)) h k = ground (arith, h, k)
int_gt_trans (some (pos a)) (some (pos b)) (some (negsuc c)) h k = refl
int_gt_trans (some (pos a)) (some (negsuc b)) (some (pos c)) h k = absurd (ground (arith, k))
int_gt_trans (some (pos a)) (some (negsuc b)) (some (negsuc c)) h k = refl
int_gt_trans (some (negsuc a)) (some (negsuc b)) (some (pos c)) h k = absurd (ground (arith, k))
int_gt_trans (some (negsuc a)) (some (negsuc b)) (some (negsuc c)) h k = ground (arith, h, k)

newer_ts_trans : (a b c : String) → newer_ts a b ≡ true → newer_ts b c ≡ true → newer_ts a c ≡ true
unfolding newer_ts
newer_ts_trans a b c h k = int_gt_trans (parse_int a) (parse_int b) (parse_int c) h k

newer_ts_irrefl : (a : String) → newer_ts a a ≡ false
unfolding newer_ts
newer_ts_irrefl a = same (parse_int a)
  where
    same : (x : Option ℤ) → int_gt x x ≡ false
    same none = refl
    same (some (pos n)) = ground arith
    same (some (negsuc n)) = ground arith

newer_ts-ne_empty : (a b : String) → newer_ts a b ≡ true → a ≢ ""
unfolding newer_ts parse_int
newer_ts-ne_empty a b h e =
    absurd (ground (arith, subst (λ x. int_gt (parse_int x) (parse_int b) ≡ true) e h))

-- What the loop gives, from the version it starts with.
record Result (sums : Dict String) (flavor start latest : String) : Type 0 where
  later : start ≢ "" → (latest ≡ start) ⊎ (newer_ts latest start ≡ true)
  newest : IsNewest sums latest flavor
  origin : (latest ≡ start) ⊎ Listed sums latest flavor

Listed-tail :
    (e : String × String) {sums : Dict String} {v f : String}
    → Listed sums v f
    → Listed (e ∷ sums) v f
Listed-tail e l = record {
  entry = l.entry;
  there = inr l.there;
  release = l.release;
  parsed = l.parsed;
  is_version = l.is_version;
  own = l.own;
}

-- Neither is newer than what it starts with, nor the result older than that.
below :
    (t start latest : String)
    → newer_ts t start ≡ false
    → (latest ≡ start) ⊎ (newer_ts latest start ≡ true)
    → newer_ts t latest ≡ false
below t start latest h (inl same) = subst (λ x. newer_ts t x ≡ false) (sym same) h
below t start latest h (inr later) = elim (Bool-cases (newer_ts t latest)) [
  | inl above ↦ absurd (ground (arith, h, newer_ts_trans t latest start above later))
  | inr fine ↦ fine
]

-- The entry is passed over.
passed-Result :
    (e : String × String) (sums : Dict String) (flavor start latest : String)
    → ((r : Release)
        → parse_kernel_release e.0 ≡ some r
        → r.flavor ≡ flavor
        → (start ≢ "") × (newer_ts r.ts start ≡ false))
    → Result sums flavor start latest
    → Result (e ∷ sums) flavor start latest
passed-Result e sums flavor start latest h k = record {
  later = k.later;
  newest = (
    λ r parsed own there. below r.ts start latest (h r parsed own).1 (k.later (h r parsed own).0),
    k.newest,
  );
  origin = elim k.origin [ inl same ↦ inl same | inr l ↦ inr (Listed-tail e l) ];
}

-- The entry is taken.
taken-Result :
    (e : String × String) (sums : Dict String) (flavor start latest : String) (r : Release)
    → parse_kernel_release e.0 ≡ some r
    → r.flavor ≡ flavor
    → (start ≢ "" → newer_ts r.ts start ≡ true)
    → Result sums flavor r.ts latest
    → Result (e ∷ sums) flavor start latest
taken-Result e sums flavor start latest r parsed own newer k = record {
  later = λ there.
      inr (above start (k.later (newer_ts-ne_empty r.ts start (newer there))) (newer there));
  newest = (
    λ q parsed' own' there.
        let same : q ≡ r = ground (arith, parsed, parsed') in
        below q.ts r.ts latest
          (subst (λ x. newer_ts x.ts r.ts ≡ false) (sym same) (newer_ts_irrefl r.ts))
          (k.later (λ empty. there (ap (λ x. x.ts) same ∙ empty))),
    k.newest,
  );
  origin = elim k.origin [
    | inl same ↦ inr (record {
      entry = e;
      there = inl refl;
      release = r;
      parsed = parsed;
      is_version = sym same;
      own = own;
    })
    | inr l ↦ inr (Listed-tail e l)
  ];
}
  where
    above :
        (s : String)
        → (latest ≡ r.ts) ⊎ (newer_ts latest r.ts ≡ true)
        → newer_ts r.ts s ≡ true
        → newer_ts latest s ≡ true
    above s (inl same) h = subst (λ x. newer_ts x s ≡ true) (sym same) h
    above s (inr later) h = newer_ts_trans latest r.ts s later h

latest_of-Result :
    (flavor : String) (sums : Dict String) (start : String)
    → Result sums flavor start (latest_of flavor sums start)
unfolding latest_of
latest_of-Result flavor [] start = record {
  later = λ there. inl refl;
  newest = tt;
  origin = inl refl;
}
latest_of-Result flavor (e ∷ sums) start = elim (Option-cases (parse_kernel_release e.0)) [
  | inl foreign ↦ rw foreign (
      passed-Result e sums flavor start _ (λ r parsed own. absurd (ground (arith, foreign, parsed)))
        (latest_of-Result flavor sums start))
  | inr (r, parsed) ↦ elim (Bool-cases (str_eq r.flavor flavor)) [
    | inr other ↦
        rw (parsed, other)
          (passed-Result e sums flavor start _
            (λ q parsed' own.
              let same : q ≡ r = ground (arith, parsed, parsed') in
              absurd (
                ground
                  (arith, other, (eq_iff r.flavor flavor).1 (ap (λ x. x.flavor) (sym same) ∙ own))))
            (latest_of-Result flavor sums start))
    | inl own ↦ elim (Bool-cases (str_eq start "")) [
      | inl unset ↦
          rw (parsed, own, unset)
            (taken-Result e sums flavor start _ r parsed ((eq_iff r.flavor flavor).0 own)
              (λ there. absurd (there ((eq_iff start "").0 unset)))
              (latest_of-Result flavor sums r.ts))
      | inr set ↦ elim (Bool-cases (newer_ts r.ts start)) [
        | inl newer ↦
            rw (parsed, own, set, newer)
              (taken-Result e sums flavor start _ r parsed ((eq_iff r.flavor flavor).0 own)
                (λ there. newer) (latest_of-Result flavor sums r.ts))
        | inr older ↦
            rw (parsed, own, set, older)
              (passed-Result e sums flavor start _
                (λ q parsed' own'.
                  let same : q ≡ r = ground (arith, parsed, parsed') in
                  (
                    λ empty. ground (arith, set, (eq_iff start "").1 empty),
                    subst (λ x. newer_ts x.ts start ≡ false) (sym same) older,
                  ))
                (latest_of-Result flavor sums start))
      ]
    ]
  ]
]

-- A version that is found is listed, and is the newest one.
pub latest_of-IsNewest :
    (flavor : String) (sums : Dict String)
    → latest_of flavor sums "" ≢ ""
    → Listed sums (latest_of flavor sums "") flavor
      × IsNewest sums (latest_of flavor sums "") flavor
latest_of-IsNewest flavor sums there =
    let r = latest_of-Result flavor sums "" in
    (elim r.origin [ inl none_found ↦ absurd (there none_found) | inr l ↦ l ], r.newest)
