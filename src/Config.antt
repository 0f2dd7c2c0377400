-- ===== src/Config.antt =====
-- internal/config/config.go: the feature configuration, and its reading by `loadConfig` of
-- internal/engine/engine.go.
pub mod Resolve
pub mod Valid
use simplek8s_controller.Prelude.{
  ℕ, ◌*◌, Bool, true, false, ◌&&◌, ◌||◌, String, str_eq, str_lt, Option, none, some, List, [], ◌∷◌,
  ◌++◌, Dict, lookup, map, ltb, ◌==◌, if◌then◌else◌,
}
use simplek8s_controller.Stdlib.Text.{second}
use simplek8s_controller.Stdlib.Json.{ℤ, pos, negsuc}
use simplek8s_controller.Stdlib.Strconv.{parse_int}
use simplek8s_controller.Cron.{Schedule}
use simplek8s_controller.Cron.Parse.{
  Parsed, schedule, refused, wrapped, interval, parse as cron_parse,
}

-- `url.URL`, as far as it is looked at.
pub record Url : Type 0 where
  pub scheme : String
  pub host : String

-- time.ParseDuration, url.Parse, and json.Unmarshal into a []string; `none` is an error.
pub record Parsers : Type 0 where
  pub parse_duration : String → Option ℤ
  pub parse_url : String → Option Url
  pub string_list : String → Option (List String)

pub record Config : Type 0 where
  pub max_concurrent_reboots : ℕ
  pub on_reboot_failure : String
  pub reboot_drain_timeout : ℕ
  pub reboot_issue_grace : ℕ
  pub reboot_windows : List Schedule
  pub reboot_window_grace : ℕ
  pub update_url : String
  pub update_preserve : ℕ
  pub update_max_percent_usage : ℕ
  pub update_windows : List Schedule
  pub update_window_grace : ℕ

-- The list of the schedules is that of `["@every 12h"]`.
abbrev pub defaults : Config
defaults = record {
  max_concurrent_reboots = 1;
  on_reboot_failure = "pause";
  reboot_drain_timeout = 600 * second;
  reboot_issue_grace = 900 * second;
  reboot_windows = [];
  reboot_window_grace = 300 * second;
  update_url = "https://dl.simplek8s.org/simplek8s/stable";
  update_preserve = 3;
  update_max_percent_usage = 75;
  update_windows = interval (43200 * second) ∷ [];
  update_window_grace = 300 * second;
}

-- A value of a key: valid, invalid, or valid with a schedule that is not modelled.
pub data Value {ℓ} (A : Type ℓ) : Type ℓ where
  valid : A → Value A
  invalid unmodelled : Value A

abbrev pub at_least : ℕ → Option ℤ → Value ℕ
at_least min none = invalid
at_least min (some (negsuc n)) = invalid
at_least min (some (pos n)) = if ltb n min then invalid else valid n

unfoldable pub parse_min_int : ℕ → String → Value ℕ
parse_min_int min raw = at_least min (parse_int raw)

abbrev pub between : ℕ → ℕ → Option ℤ → Value ℕ
between min max none = invalid
between min max (some (negsuc n)) = invalid
between min max (some (pos n)) = if ltb n min || ltb max n then invalid else valid n

unfoldable pub parse_range_int : ℕ → ℕ → String → Value ℕ
parse_range_int min max raw = between min max (parse_int raw)

unfoldable pub parse_enum : List String → String → Value String
parse_enum [] raw = invalid
parse_enum (allowed ∷ rest) raw =
    let others = parse_enum rest raw in if str_eq raw allowed then valid allowed else others

abbrev pub positive_duration : Option ℤ → Value ℕ
positive_duration none = invalid
positive_duration (some (negsuc n)) = invalid
positive_duration (some (pos n)) = if n == 0 then invalid else valid n

abbrev pub http_url : String → Option Url → Value String
http_url raw none = invalid
http_url raw (some u) =
    if str_eq u.host ""
    then invalid
    else if str_eq u.scheme "http" || str_eq u.scheme "https"
    then valid raw
    else invalid

-- The schedules of the list; any that is refused makes the value invalid.
abbrev pub one_more : Parsed → Value (List Schedule) → Value (List Schedule)
one_more refused rest = invalid
one_more wrapped invalid = invalid
one_more wrapped rest = unmodelled
one_more (schedule s) (valid ss) = valid (s ∷ ss)
one_more (schedule s) rest = rest

-- The keys of the configuration.
pub data Key : Type 0 where
  max_concurrent on_failure drain_timeout issue_grace reboot_windows reboot_window_grace : Key
  url preserve max_percent_usage update_windows update_window_grace : Key

abbrev pub key_text : Key → String
key_text max_concurrent = "reboots.max-concurrent"
key_text on_failure = "reboots.on-failure"
key_text drain_timeout = "reboots.drain-timeout"
key_text issue_grace = "reboots.issue-grace"
key_text reboot_windows = "reboots.windows"
key_text reboot_window_grace = "reboots.window-grace"
key_text url = "updates.url"
key_text preserve = "updates.preserve"
key_text max_percent_usage = "updates.max-percent-usage"
key_text update_windows = "updates.windows"
key_text update_window_grace = "updates.window-grace"

abbrev pub entry_of : Key → String × Key
entry_of key = (key_text key, key)

abbrev pub keys : List Key
keys =
    max_concurrent ∷ on_failure ∷ drain_timeout ∷ issue_grace ∷ reboot_windows ∷ reboot_window_grace
    ∷ url ∷ preserve ∷ max_percent_usage ∷ update_windows ∷ update_window_grace ∷ []

-- The switch on the key; `none` is the default case.
unfoldable pub key_of : String → Option Key
key_of k = lookup k (map entry_of keys)

abbrev pub changed : {A : Type 0} → (A → Config) → Value A → Value Config
changed f (valid v) = valid (f v)
changed f invalid = invalid
changed f unmodelled = unmodelled

-- sort.Strings, of distinct keys
unfoldable pub insert_key : String → List String → List String
insert_key k [] = k ∷ []
insert_key k (j ∷ js) = let rest = insert_key k js in if str_lt k j then k ∷ j ∷ js else j ∷ rest

unfoldable pub sorted_keys : Dict String → List String
unfolding insert_key
sorted_keys [] = []
sorted_keys (entry ∷ rest) = insert_key entry.0 (sorted_keys rest)

-- A warning: an unknown key, or an invalid value.
pub data Warning : Type 0 where
  unknown_key invalid_value : String → Warning

-- What the loop has made of the base.
pub record Resolved : Type 0 where
  pub config : Config
  pub warnings : List Warning

abbrev pub note : Warning → Option Resolved → Option Resolved
note w none = none
note w (some r) = some (record r { warnings = w ∷ r.warnings })

-- What follows the switch.
abbrev pub on_value : Value Config → String → Config → (Config → Option Resolved) → Option Resolved
on_value (valid c') k c next = next c'
on_value invalid k c next = note (invalid_value k) (next c)
on_value unmodelled k c next = none

-- data[k], of a key of the map
abbrev pub raw_of : Dict String → String → String
raw_of m k = elim (lookup k m) [ none ↦ "" | some raw ↦ raw ]

module _ (parsers : Parsers) where
  unfoldable pub parse_duration : String → Value ℕ
  parse_duration raw = positive_duration (parsers.parse_duration raw)

  unfoldable pub parse_url : String → Value String
  parse_url raw = http_url raw (parsers.parse_url raw)

  unfoldable pub parse_schedules : List String → Value (List Schedule)
  parse_schedules [] = valid []
  parse_schedules (spec ∷ specs) =
      one_more (cron_parse parsers.parse_duration spec) (parse_schedules specs)

  unfoldable pub parse_schedule_list : String → Value (List Schedule)
  unfolding parse_schedules
  parse_schedule_list raw = elim (parsers.string_list raw) [
    | none ↦ invalid
    | some specs ↦ parse_schedules specs
  ]

  -- The case of a key.
  unfoldable pub apply : Key → String → Config → Value Config
  apply max_concurrent raw c =
      changed (λ v. record c { max_concurrent_reboots = v }) (parse_min_int 0 raw)
  apply on_failure raw c =
      changed (λ v. record c { on_reboot_failure = v }) (parse_enum ("pause" ∷ "continue" ∷ []) raw)
  apply drain_timeout raw c =
      changed (λ v. record c { reboot_drain_timeout = v }) (parse_duration raw)
  apply issue_grace raw c = changed (λ v. record c { reboot_issue_grace = v }) (parse_duration raw)
  apply reboot_windows raw c =
      changed (λ v. record c { reboot_windows = v }) (parse_schedule_list raw)
  apply reboot_window_grace raw c =
      changed (λ v. record c { reboot_window_grace = v }) (parse_duration raw)
  apply url raw c = changed (λ v. record c { update_url = v }) (parse_url raw)
  apply preserve raw c = changed (λ v. record c { update_preserve = v }) (parse_min_int 1 raw)
  apply max_percent_usage raw c =
      changed (λ v. record c { update_max_percent_usage = v }) (parse_range_int 1 100 raw)
  apply update_windows raw c =
      changed (λ v. record c { update_windows = v }) (parse_schedule_list raw)
  apply update_window_grace raw c =
      changed (λ v. record c { update_window_grace = v }) (parse_duration raw)

  -- The loop over the sorted keys.
  unfoldable pub apply_keys : Dict String → List String → Config → Option Resolved
  unfolding key_of apply
  apply_keys m [] c = some (record { config = c; warnings = [] })
  apply_keys m (k ∷ ks) c = elim (key_of k) [
    | none ↦ note (unknown_key k) (apply_keys m ks c)
    | some key ↦ on_value (apply key (raw_of m k) c) k c (λ c'. apply_keys m ks c')
  ]

  -- config.Parse; `none` only for a schedule that is not modelled.
  unfoldable pub parse : Config → Dict String → Option Resolved
  unfolding apply_keys sorted_keys
  parse base m = apply_keys m (sorted_keys m) base

-- The reply of the read of the ConfigMap.
pub data ConfigRead : Type 0 where
  found : Dict String → ConfigRead
  not_found read_failed : ConfigRead

-- What the engine keeps of the configuration.
pub record Features : Type 0 where
  pub feat : Config
  pub feat_warnings : List Warning

abbrev pub taken : Option Resolved → Option Features
taken none = none
taken (some r) = some (record { feat = r.config; feat_warnings = r.warnings })

-- e.loadConfig
unfoldable pub load_config : Parsers → ConfigRead → Features → Option Features
unfolding parse
load_config parsers (found m) f = taken (parse parsers f.feat m)
load_config parsers not_found f = some (record { feat = defaults; feat_warnings = [] })
load_config parsers read_failed f = some f
