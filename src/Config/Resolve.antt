-- ===== src/Config/Resolve.antt =====
-- Last-valid-wins, for each key.
use simplek8s_controller.Prelude.{
  ◌≡◌, refl, sym, subst, ap, ◌∙◌, inl, inr, Bool, true, false, ◌||◌, String, str_eq, eq_iff, Option,
  none, some, is_some, List, [], ◌∷◌, Dict, lookup, map, any, Among, All-of_among, arith,
  Bool-cases, Option-cases, if◌then◌else◌,
}
use mathlib.Core.Path.{fun_ext}
use simplek8s_controller.Config.{
  Parsers, Config, max_concurrent, on_failure, drain_timeout, issue_grace, reboot_windows,
  reboot_window_grace, url, preserve, max_percent_usage, update_windows, update_window_grace, Value,
  valid, invalid, unmodelled, parse_min_int, parse_range_int, parse_enum, Key, key_text, entry_of,
  keys, key_of, changed, insert_key, sorted_keys, Warning, unknown_key, invalid_value, Resolved,
  note, on_value, parse_duration, parse_url, parse_schedule_list, apply, raw_of, apply_keys, parse,
}

-- The value of a key after its text has been read: the old one, unless the text is valid.
abbrev pub or_old : {A : Type 0} → Value A → A → A
or_old (valid v) old = v
or_old invalid old = old
or_old unmodelled old = old

or_old-changed :
    {A : Type 0} (f : A → Config) (o : Value A) (old : A) (c : Config)
    → f old ≡ c
    → or_old (changed f o) c ≡ f (or_old o old)
or_old-changed f (valid v) old c same = refl
or_old-changed f invalid old c same = sym same
or_old-changed f unmodelled old c same = sym same

or_old-again : {A : Type 0} (o : Value A) (old : A) → or_old o (or_old o old) ≡ or_old o old
or_old-again (valid v) old = refl
or_old-again invalid old = refl
or_old-again unmodelled old = refl

-- The last valid value of a key.
abbrev pub last_valid : {A : Type 0} → (String → Value A) → Option String → A → A
last_valid p none old = old
last_valid p (some raw) old = or_old (p raw) old

last_valid-again :
    {A : Type 0} (p : String → Value A) (b : Bool) (raw : String) (old : A)
    → last_valid p (if b then some raw else none) (or_old (p raw) old) ≡ or_old (p raw) old
last_valid-again p true raw old = or_old-again (p raw) old
last_valid-again p false raw old = refl

-- The key of a text is the one that is spelled so.
lookup-Among : {A : Type 0} (k : String) (m : Dict A) (v : A) → lookup k m ≡ some v → Among (k, v) m
unfolding lookup
lookup-Among k [] v h = absurd (ground (arith, h))
lookup-Among k (entry ∷ m) v h = elim (Bool-cases (str_eq entry.0 k)) [
  | inl this ↦ inl (ground (arith, h, this, eq_iff entry.0 k))
  | inr other ↦ inr (lookup-Among k m v (ground (arith, h, other)))
]

key_of-key_text : (k : String) (key : Key) → key_of k ≡ some key → k ≡ key_text key
unfolding key_of
key_of-key_text k key h =
    All-of_among (λ (e : String × Key). e.0 ≡ key_text e.1) (map entry_of keys) (k, key)
      (refl, (refl, (refl, (refl, (refl, (refl, (refl, (refl, (refl, (refl, (refl, tt)))))))))))
      (lookup-Among k (map entry_of keys) key h)

key_of-of_key : (key : Key) → key_of (key_text key) ≡ some key
unfolding key_of lookup
key_of-of_key max_concurrent = refl
key_of-of_key key = refl

key_of-none : (k : String) (key : Key) → key_of k ≡ none → str_eq k (key_text key) ≡ false
key_of-none k key h = ground (
  arith,
  eq_iff k (key_text key),
  λ (e : k ≡ key_text key). subst (λ t. key_of t ≡ some key) (sym e) (key_of-of_key key),
  h,
)

-- The texts of the keys among `ks`.
abbrev among : Dict String → List String → Key → Option String
among m ks key =
    if any (λ k. str_eq k (key_text key)) ks then some (raw_of m (key_text key)) else none

module _ (parsers : Parsers) where
  -- The configuration with each key resolved, by the text that is given for it.
  unfoldable pub resolve : (Key → Option String) → Config → Config
  resolve given base = record {
    max_concurrent_reboots =
        last_valid (parse_min_int 0) (given max_concurrent) base.max_concurrent_reboots;
    on_reboot_failure =
        last_valid (parse_enum ("pause" ∷ "continue" ∷ [])) (given on_failure)
          base.on_reboot_failure;
    reboot_drain_timeout =
        last_valid (parse_duration parsers) (given drain_timeout) base.reboot_drain_timeout;
    reboot_issue_grace =
        last_valid (parse_duration parsers) (given issue_grace) base.reboot_issue_grace;
    reboot_windows =
        last_valid (parse_schedule_list parsers) (given reboot_windows) base.reboot_windows;
    reboot_window_grace =
        last_valid (parse_duration parsers) (given reboot_window_grace) base.reboot_window_grace;
    update_url = last_valid (parse_url parsers) (given url) base.update_url;
    update_preserve = last_valid (parse_min_int 1) (given preserve) base.update_preserve;
    update_max_percent_usage =
        last_valid (parse_range_int 1 100) (given max_percent_usage) base.update_max_percent_usage;
    update_windows =
        last_valid (parse_schedule_list parsers) (given update_windows) base.update_windows;
    update_window_grace =
        last_valid (parse_duration parsers) (given update_window_grace) base.update_window_grace;
  }

  module _ (m : Dict String) (ks : List String) (c : Config) where
    -- One key, by the field that it sets.
    one_key :
        {A : Type 0} (key : Key) (p : String → Value A) (f F : A → Config) (old : A)
        → f old ≡ c
        → ((v : A) → resolve (among m ks) (f v) ≡ F (last_valid p (among m ks key) v))
        → F (or_old (p (raw_of m (key_text key))) old) ≡ resolve (among m (key_text key ∷ ks)) c
        → resolve (among m ks) (or_old (changed f (p (raw_of m (key_text key)))) c)
          ≡ resolve (among m (key_text key ∷ ks)) c
    one_key key p f F old same through last =
        ap (resolve (among m ks)) (or_old-changed f (p (raw_of m (key_text key))) old c same)
        ∙ through _
        ∙ ap F (
            last_valid-again p (any (λ k. str_eq k (key_text key)) ks) (raw_of m (key_text key))
              old)
        ∙ last

    resolve-apply :
        (key : Key)
        → resolve (among m ks) (or_old (apply parsers key (raw_of m (key_text key)) c) c)
          ≡ resolve (among m (key_text key ∷ ks)) c
    unfolding resolve apply
    resolve-apply max_concurrent =
        one_key max_concurrent (parse_min_int 0) (λ v. record c { max_concurrent_reboots = v })
          (λ v. record (resolve (among m ks) c) { max_concurrent_reboots = v })
          c.max_concurrent_reboots refl (λ v. refl) refl
    resolve-apply on_failure =
        one_key on_failure (parse_enum ("pause" ∷ "continue" ∷ []))
          (λ v. record c { on_reboot_failure = v })
          (λ v. record (resolve (among m ks) c) { on_reboot_failure = v }) c.on_reboot_failure refl
          (λ v. refl) refl
    resolve-apply drain_timeout =
        one_key drain_timeout (parse_duration parsers) (λ v. record c { reboot_drain_timeout = v })
          (λ v. record (resolve (among m ks) c) { reboot_drain_timeout = v }) c.reboot_drain_timeout
          refl (λ v. refl) refl
    resolve-apply issue_grace =
        one_key issue_grace (parse_duration parsers) (λ v. record c { reboot_issue_grace = v })
          (λ v. record (resolve (among m ks) c) { reboot_issue_grace = v }) c.reboot_issue_grace
          refl (λ v. refl) refl
    resolve-apply reboot_windows =
        one_key reboot_windows (parse_schedule_list parsers) (λ v. record c { reboot_windows = v })
          (λ v. record (resolve (among m ks) c) { reboot_windows = v }) c.reboot_windows refl
          (λ v. refl) refl
    resolve-apply reboot_window_grace =
        one_key reboot_window_grace (parse_duration parsers)
          (λ v. record c { reboot_window_grace = v })
          (λ v. record (resolve (among m ks) c) { reboot_window_grace = v }) c.reboot_window_grace
          refl (λ v. refl) refl
    resolve-apply url =
        one_key url (parse_url parsers) (λ v. record c { update_url = v })
          (λ v. record (resolve (among m ks) c) { update_url = v }) c.update_url refl (λ v. refl)
          refl
    resolve-apply preserve =
        one_key preserve (parse_min_int 1) (λ v. record c { update_preserve = v })
          (λ v. record (resolve (among m ks) c) { update_preserve = v }) c.update_preserve refl
          (λ v. refl) refl
    resolve-apply max_percent_usage =
        one_key max_percent_usage (parse_range_int 1 100)
          (λ v. record c { update_max_percent_usage = v })
          (λ v. record (resolve (among m ks) c) { update_max_percent_usage = v })
          c.update_max_percent_usage refl (λ v. refl) refl
    resolve-apply update_windows =
        one_key update_windows (parse_schedule_list parsers) (λ v. record c { update_windows = v })
          (λ v. record (resolve (among m ks) c) { update_windows = v }) c.update_windows refl
          (λ v. refl) refl
    resolve-apply update_window_grace =
        one_key update_window_grace (parse_duration parsers)
          (λ v. record c { update_window_grace = v })
          (λ v. record (resolve (among m ks) c) { update_window_grace = v }) c.update_window_grace
          refl (λ v. refl) refl

  resolve-unknown :
      (k : String) (m : Dict String) (ks : List String) (c : Config)
      → key_of k ≡ none
      → resolve (among m ks) c ≡ resolve (among m (k ∷ ks)) c
  resolve-unknown k m ks c h =
      ap (λ g. resolve g c) (fun_ext (λ key. ground (arith, key_of-none k key h)))

  resolve-nil : (m : Dict String) (c : Config) → c ≡ resolve (among m []) c
  unfolding resolve
  resolve-nil m c = refl

  note-config :
      (w : Warning) (o : Option Resolved) (r : Resolved)
      → note w o ≡ some r
      → (rest : Resolved) × (o ≡ some rest) × (r.config ≡ rest.config)
  note-config w none r h = absurd (ground (arith, h))
  note-config w (some rest) r h = (rest, refl, ground (arith, h))

  on_value-config :
      (o : Value Config) (k : String) (c : Config) (next : Config → Option Resolved) (r : Resolved)
      → on_value o k c next ≡ some r
      → (rest : Resolved) × (next (or_old o c) ≡ some rest) × (r.config ≡ rest.config)
  on_value-config (valid c') k c next r h = (r, h, refl)
  on_value-config invalid k c next r h = note-config (invalid_value k) (next c) r h
  on_value-config unmodelled k c next r h = absurd (ground (arith, h))

  apply_keys-resolve :
      (m : Dict String) (ks : List String) (c : Config) (r : Resolved)
      → apply_keys parsers m ks c ≡ some r
      → r.config ≡ resolve (among m ks) c
  unfolding apply_keys
  apply_keys-resolve m [] c r h = ground (arith, h, resolve-nil m c)
  apply_keys-resolve m (k ∷ ks) c r h = elim (Option-cases (key_of k)) [
    | inl unknown ↦
        let (rest, ran, e) =
          note-config (unknown_key k) (apply_keys parsers m ks c) r
            (rw (unknown, apply_keys) at h) in
        e ∙ apply_keys-resolve m ks c rest ran ∙ resolve-unknown k m ks c unknown
    | inr (key, known) ↦
        let (rest, ran, e) =
          on_value-config (apply parsers key (raw_of m k) c) k c (λ c'. apply_keys parsers m ks c')
            r (rw (known, apply_keys) at h) in
        e
        ∙ apply_keys-resolve m ks (or_old (apply parsers key (raw_of m k) c) c) rest ran
        ∙ subst
            (λ t.
              resolve (among m ks) (or_old (apply parsers key (raw_of m t) c) c)
              ≡ resolve (among m (t ∷ ks)) c)
            (sym (key_of-key_text k key known)) (resolve-apply m ks c key)
  ]

any-insert_key :
    (p : String → Bool) (k : String) (js : List String)
    → any p (insert_key k js) ≡ (p k || any p js)
unfolding insert_key
any-insert_key p k [] = refl
any-insert_key p k (j ∷ js) = ground (arith, any-insert_key p k js)

any-sorted_keys :
    (t : String) (m : Dict String) → any (λ k. str_eq k t) (sorted_keys m) ≡ is_some (lookup t m)
unfolding sorted_keys lookup
any-sorted_keys t [] = refl
any-sorted_keys t (entry ∷ m) = ground (
  arith,
  any-sorted_keys t m,
  any-insert_key (λ (k : String). str_eq k t) entry.0 (sorted_keys m),
)

among-sorted_keys :
    (m : Dict String) (key : Key) → among m (sorted_keys m) key ≡ lookup (key_text key) m
among-sorted_keys m key = ground (arith, any-sorted_keys (key_text key) m)

-- The configuration that `Parse` gives, where it is modelled, holds for each of its keys the value of the
-- text that the map has for the key, if there is one and it is valid, and the value of the base
-- otherwise; the other keys and the order of the map do not matter.
pub parse-resolve :
    (parsers : Parsers) (base : Config) (m : Dict String) (r : Resolved)
    → parse parsers base m ≡ some r
    → r.config ≡ resolve parsers (λ key. lookup (key_text key) m) base
unfolding parse
parse-resolve parsers base m r h =
    apply_keys-resolve parsers m (sorted_keys m) base r h
    ∙ ap (λ given. resolve parsers given base) (fun_ext (among-sorted_keys m))
