-- ===== src/Config/Valid.antt =====
-- The ranges of the configuration's values, over the reads of the engine (internal/config/config.go).
use simplek8s_controller.Prelude.{
  ℕ, ◌≤◌, ◌<◌, ◌≡◌, refl, sym, subst, ◌⊎◌, inl, inr, String, Option, none, some, List, [], ◌∷◌, All,
  arith, Option-cases,
}
use simplek8s_controller.Stdlib.Json.{ℤ, pos, negsuc}
use simplek8s_controller.Stdlib.Strconv.{parse_int}
use simplek8s_controller.Cron.{Schedule}
use simplek8s_controller.Cron.Parse.{Parsed, schedule, refused, wrapped, parse as cron_parse}
use simplek8s_controller.Cron.Parse.Proper.{IsProper, parse-IsProper, interval-IsProper}
use simplek8s_controller.Config.{
  Parsers, Config, defaults, Value, valid, invalid, unmodelled, at_least, between, parse_min_int,
  parse_range_int, parse_enum, positive_duration, one_more, Key, parse_duration, parse_schedules,
  parse_schedule_list, ConfigRead, found, not_found, read_failed, Features, load_config, parse,
}
use simplek8s_controller.Config.Resolve.{or_old, last_valid, resolve, parse-resolve}

-- Every setting is in the range of its key.
pub record IsValid (c : Config) : Type 0 where
  pub on_failure : (c.on_reboot_failure ≡ "pause") ⊎ (c.on_reboot_failure ≡ "continue")
  pub drain_timeout : 0 < c.reboot_drain_timeout
  pub issue_grace : 0 < c.reboot_issue_grace
  pub reboot_windows : All IsProper c.reboot_windows
  pub reboot_window_grace : 0 < c.reboot_window_grace
  pub preserve : 0 < c.update_preserve
  pub percent : (0 < c.update_max_percent_usage) × (c.update_max_percent_usage ≤ 100)
  pub update_windows : All IsProper c.update_windows
  pub update_window_grace : 0 < c.update_window_grace

-- What holds of the old value and of every valid one holds of the last valid one.
last_valid-All :
    {A : Type 0} (P : A → Type 0) (p : String → Value A) (given : Option String) (old : A)
    → ((raw : String) (v : A) → p raw ≡ valid v → P v)
    → P old
    → P (last_valid p given old)
last_valid-All {A} P p none old good h = h
last_valid-All {A} P p (some raw) old good h = go (p raw) (good raw)
  where
    go : (o : Value A) → ((v : A) → o ≡ valid v → P v) → P (or_old o old)
    go (valid v) g = g v refl
    go invalid g = h
    go unmodelled g = h

at_least-le : (min : ℕ) (o : Option ℤ) (v : ℕ) → at_least min o ≡ valid v → min ≤ v
at_least-le min none v h = absurd (ground (arith, h))
at_least-le min (some (negsuc n)) v h = absurd (ground (arith, h))
at_least-le min (some (pos n)) v h = ground (arith, h)

between-le :
    (min max : ℕ) (o : Option ℤ) (v : ℕ) → between min max o ≡ valid v → (min ≤ v) × (v ≤ max)
between-le min max none v h = absurd (ground (arith, h))
between-le min max (some (negsuc n)) v h = absurd (ground (arith, h))
between-le min max (some (pos n)) v h = ground (arith, h)

positive_duration-pos : (o : Option ℤ) (v : ℕ) → positive_duration o ≡ valid v → 0 < v
positive_duration-pos none v h = absurd (ground (arith, h))
positive_duration-pos (some (negsuc n)) v h = absurd (ground (arith, h))
positive_duration-pos (some (pos n)) v h = ground (arith, h)

parse_enum-eq :
    (raw v : String)
    → parse_enum ("pause" ∷ "continue" ∷ []) raw ≡ valid v
    → (v ≡ "pause") ⊎ (v ≡ "continue")
unfolding parse_enum
parse_enum-eq raw v h = ground (arith, h)

module _ (parsers : Parsers) where
  one_more-All :
      (p : Parsed) (rest : Value (List Schedule)) (ss : List Schedule)
      → ((s : Schedule) → p ≡ schedule s → IsProper s)
      → ((ss : List Schedule) → rest ≡ valid ss → All IsProper ss)
      → one_more p rest ≡ valid ss
      → All IsProper ss
  one_more-All refused rest ss f g h = absurd (ground (arith, h))
  one_more-All wrapped invalid ss f g h = absurd (ground (arith, h))
  one_more-All wrapped (valid ts) ss f g h = absurd (ground (arith, h))
  one_more-All wrapped unmodelled ss f g h = absurd (ground (arith, h))
  one_more-All (schedule s) (valid ts) ss f g h =
      let e : s ∷ ts ≡ ss = ground (arith, h) in subst (All IsProper) e (f s refl, g ts refl)
  one_more-All (schedule s) invalid ss f g h = absurd (ground (arith, h))
  one_more-All (schedule s) unmodelled ss f g h = absurd (ground (arith, h))

  parse_schedules-All :
      (specs : List String) (ss : List Schedule)
      → parse_schedules parsers specs ≡ valid ss
      → All IsProper ss
  unfolding parse_schedules
  parse_schedules-All [] ss h = subst (All IsProper) (let e : [] ≡ ss = ground (arith, h) in e) tt
  parse_schedules-All (spec ∷ specs) ss h =
      one_more-All (cron_parse parsers.parse_duration spec) (parse_schedules parsers specs) ss
        (parse-IsProper parsers.parse_duration spec) (parse_schedules-All specs) h

  parse_schedule_list-All :
      (raw : String) (ss : List Schedule)
      → parse_schedule_list parsers raw ≡ valid ss
      → All IsProper ss
  unfolding parse_schedule_list
  parse_schedule_list-All raw ss h = elim (Option-cases (parsers.string_list raw)) [
    | inl bad ↦ absurd (ground (arith, h, bad))
    | inr (specs, good) ↦ parse_schedules-All specs ss (ground (arith, h, good))
  ]

  duration-pos : (raw : String) (v : ℕ) → parse_duration parsers raw ≡ valid v → 0 < v
  unfolding parse_duration
  duration-pos raw v h = positive_duration-pos (parsers.parse_duration raw) v h

  resolve-IsValid :
      (given : Key → Option String) (base : Config)
      → IsValid base
      → IsValid (resolve parsers given base)
  unfolding resolve parse_min_int parse_range_int
  resolve-IsValid given base b = record {
    on_failure =
        last_valid-All (λ v. (v ≡ "pause") ⊎ (v ≡ "continue")) _ _ _ parse_enum-eq b.on_failure;
    drain_timeout = last_valid-All (λ v. 0 < v) _ _ _ duration-pos b.drain_timeout;
    issue_grace = last_valid-All (λ v. 0 < v) _ _ _ duration-pos b.issue_grace;
    reboot_windows = last_valid-All (All IsProper) _ _ _ parse_schedule_list-All b.reboot_windows;
    reboot_window_grace = last_valid-All (λ v. 0 < v) _ _ _ duration-pos b.reboot_window_grace;
    preserve = last_valid-All (λ v. 0 < v) _ _ _ (λ raw. at_least-le 1 (parse_int raw)) b.preserve;
    percent =
        last_valid-All (λ v. (0 < v) × (v ≤ 100)) _ _ _ (λ raw. between-le 1 100 (parse_int raw))
          b.percent;
    update_windows = last_valid-All (All IsProper) _ _ _ parse_schedule_list-All b.update_windows;
    update_window_grace = last_valid-All (λ v. 0 < v) _ _ _ duration-pos b.update_window_grace;
  }

pub defaults-IsValid : IsValid defaults
defaults-IsValid = record {
  on_failure = inl refl;
  drain_timeout = omega arith;
  issue_grace = omega arith;
  reboot_windows = tt;
  reboot_window_grace = omega arith;
  preserve = omega arith;
  percent = omega arith;
  update_windows = (interval-IsProper _, tt);
  update_window_grace = omega arith;
}

-- The engine's configuration after a list of reads.
unfoldable pub after_reads : Parsers → List ConfigRead → Features → Option Features
after_reads parsers [] f = some f
after_reads parsers (read ∷ reads) f = elim (load_config parsers read f) [
  | none ↦ none
  | some g ↦ after_reads parsers reads g
]

load_config-IsValid :
    (parsers : Parsers) (read : ConfigRead) (f g : Features)
    → IsValid f.feat
    → load_config parsers read f ≡ some g
    → IsValid g.feat
unfolding load_config
load_config-IsValid parsers (found m) f g v h = elim (Option-cases (parse parsers f.feat m)) [
  | inl e ↦ absurd (ground (arith, h, e))
  | inr (r, e) ↦
      let same : r.config ≡ g.feat = ground (arith, h, e) in
      subst IsValid same (
        subst IsValid (sym (parse-resolve parsers f.feat m r e))
          (resolve-IsValid parsers _ f.feat v))
]
load_config-IsValid parsers not_found f g v h =
    let same : defaults ≡ g.feat = ground (arith, h) in subst IsValid same defaults-IsValid
load_config-IsValid parsers read_failed f g v h =
    let same : f.feat ≡ g.feat = ground (arith, h) in subst IsValid same v

-- Whatever the ConfigMap holds at each read, whether it is there or the read fails: the
-- configuration that the engine holds stays valid, as the defaults are, where its schedules are
-- modelled. Durations are positive, at least one version is preserved, the percentage is between 1
-- and 100, the policy on a failed reboot is one of the two, and every schedule is in the form that
-- the evaluation relies on.
pub after_reads-IsValid :
    (parsers : Parsers) (reads : List ConfigRead) (f g : Features)
    → IsValid f.feat
    → after_reads parsers reads f ≡ some g
    → IsValid g.feat
unfolding after_reads
after_reads-IsValid parsers [] f g v h =
    let same : f.feat ≡ g.feat = ground (arith, h) in subst IsValid same v
after_reads-IsValid parsers (read ∷ reads) f g v h =
    elim (Option-cases (load_config parsers read f)) [
      | inl e ↦ absurd (ground (arith, h, e))
      | inr (next, e) ↦
          after_reads-IsValid parsers reads next g (load_config-IsValid parsers read f next v e)
            (ground (arith, h, e))
    ]
