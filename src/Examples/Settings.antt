-- ===== src/Examples/Settings.antt =====
-- A configuration that is read.
use simplek8s_controller.Prelude.{◌≡◌, refl, String, none, some, [], ◌∷◌, lookup, Dict, str_lt}
use simplek8s_controller.Stdlib.Strconv.{parse_int}
use simplek8s_controller.Config.{
  Parsers, Config, defaults, found, not_found, read_failed, Features, key_text, parse,
  parse_min_int, load_config, Resolved, invalid_value, unknown_key,
}
use simplek8s_controller.Config.Resolve.{resolve, parse-resolve}
use simplek8s_controller.Config.Valid.{IsValid, defaults-IsValid, after_reads, after_reads-IsValid}

abbrev simple : Parsers
simple = record {
  parse_duration = λ raw. none;
  parse_url = λ raw. some (record { scheme = "https"; host = "example.org" });
  string_list = λ raw. none;
}

abbrev data_map : Dict String
data_map =
    ("updates.preserve", "5") ∷ ("reboots.max-concurrent", "-1") ∷ ("updates.colour", "red") ∷ []

abbrev with_five : Config
with_five = record defaults { update_preserve = 5 }

abbrev resolved_five : Resolved
resolved_five = record {
  config = with_five;
  warnings = invalid_value "reboots.max-concurrent" ∷ unknown_key "updates.colour" ∷ [];
}

parsed_five : parse simple defaults data_map ≡ some resolved_five
unfolding parse str_lt lookup parse_min_int parse_int
parsed_five = refl

parse-resolve_example : with_five ≡ resolve simple (λ key. lookup (key_text key) data_map) defaults
parse-resolve_example = parse-resolve simple defaults data_map resolved_five parsed_five

abbrev at_start : Features
at_start = record { feat = defaults; feat_warnings = [] }

abbrev afterwards : Features
afterwards = record { feat = with_five; feat_warnings = resolved_five.warnings }

read_twice :
    after_reads simple (not_found ∷ found data_map ∷ read_failed ∷ []) at_start ≡ some afterwards
unfolding after_reads load_config str_lt lookup parse_min_int parse_int
read_twice = refl

after_reads-IsValid_example : IsValid with_five
after_reads-IsValid_example =
    after_reads-IsValid simple (not_found ∷ found data_map ∷ read_failed ∷ []) at_start afterwards
      defaults-IsValid read_twice
