-- ===== src/Updatecore/Bootloader/Entries.antt =====
-- internal/updatecore/bootloader.go: the lines of grub.cfg and its entries.
use Prim.Native.Char.{Char, code}
use simplek8s_controller.Prelude.{
  ℕ, ◌+◌, Bool, not, ◌&&◌, ◌||◌, String, str_eq, Option, none, some, is_some, List, [], ◌∷◌, length,
  ◌==◌, if◌then◌else◌,
}
use simplek8s_controller.Stdlib.Strconv.{is_space, cut_prefix, cut_at, span}
use simplek8s_controller.Updatecore.Bootloader.Text.{
  cut_fold, is_blank, is_quote, trim, trim_right, last_char, value_behind, some_span,
}

-- The rest behind a keyword, which blanks may come before.
abbrev pub behind_keyword : String → String → Option String
behind_keyword word line = cut_fold word (span is_blank line).1

-- The rest behind at least one blank.
abbrev pub behind_blanks : Option String → Option String
behind_blanks none = none
behind_blanks (some s) = elim (some_span is_blank s) [ none ↦ none | some r ↦ some r.1 ]

-- `^\s*set\s+<name>\s*=`, and what follows
abbrev pub set_variable : String → Option String → Option String
set_variable name none = none
set_variable name (some s) = elim (cut_fold name s) [
  | none ↦ none
  | some rest ↦ cut_prefix "=" (span is_blank rest).1
]

unfoldable pub behind_set : String → String → Option String
unfolding cut_fold span some_span cut_prefix
behind_set name line = set_variable name (behind_blanks (behind_keyword "set" line))

-- reGrubDefault: its value
unfoldable pub grub_default_value : String → Option String
unfolding behind_set value_behind
grub_default_value line = elim (behind_set "default" line) [
  | none ↦ none
  | some rest ↦ value_behind 0 rest
]

abbrev pub is_grub_default : String → Bool
is_grub_default line = is_some (grub_default_value line)

abbrev pub is_kernel_opts : String → Bool
is_kernel_opts line = is_some (behind_set "kernel_opts" line)

-- `(.*)\{\s*$`
unfoldable pub ends_open : String → Bool
unfolding trim_right last_char
ends_open s = str_eq (last_char (trim_right is_blank s) "") "{"

abbrev pub titled : String × Option String → Option String
titled (title, none) = none
titled (title, some rest) =
    if str_eq title "" then none else if ends_open rest then some title else none

abbrev pub is_any_quote : Char → Bool
is_any_quote c = code c == 0x22 || code c == 0x27

-- A title in quotes of one kind, and an open brace at the end.
abbrev pub quoted_title : Option String → Option String
quoted_title none = none
quoted_title (some String.[]) = none
quoted_title (some (String.◌∷◌ c s)) = if is_any_quote c then titled (cut_at (code c) s) else none

-- reGrubMenuentr: the title of the line, as in grubEntryTitle
unfoldable pub menu_title : String → Option String
unfolding cut_fold span some_span cut_at ends_open
menu_title line = quoted_title (behind_blanks (behind_keyword "menuentry" line))

abbrev pub is_menu : String → Bool
is_menu line = is_some (menu_title line)

abbrev pub is_id_gap : Char → Bool
is_id_gap c = is_blank c || code c == b'='

abbrev pub not_blank : Char → Bool
not_blank c = not (is_blank c)

abbrev pub quoted_or : String → String × Option String → String
quoted_or plain (inner, none) = plain
quoted_or plain (inner, some rest) = if str_eq inner "" then plain else inner

unfoldable pub without_last : String → String
without_last String.[] = ""
without_last (String.◌∷◌ c String.[]) = ""
without_last (String.◌∷◌ c (String.◌∷◌ d s)) = String.◌∷◌ c (without_last (String.◌∷◌ d s))

abbrev pub unquoted : String → String
unquoted String.[] = ""
unquoted (String.◌∷◌ c s) =
    if not (str_eq s "") && is_any_quote c && str_eq (last_char s "") (String.◌∷◌ c "")
    then without_last s
    else String.◌∷◌ c s

-- stripGrubQuotes
unfoldable pub strip_grub_quotes : String → String
unfolding trim last_char without_last
strip_grub_quotes s = unquoted (trim is_space s)

-- The value of an `--id`, without its quotes.
abbrev pub id_value : String → Option String
id_value String.[] = none
id_value (String.◌∷◌ c s) =
    let plain = strip_grub_quotes (span not_blank (String.◌∷◌ c s)).0 in
    if is_any_quote c then some (quoted_or plain (cut_at (code c) s)) else some plain

abbrev pub id_behind : Option String → Option String
id_behind none = none
id_behind (some s) = elim (some_span is_id_gap s) [ none ↦ none | some r ↦ id_value r.1 ]

-- grubEntryID, of a menuentry's line, which ends in a brace: the first `--id` with a value, or "".
unfoldable pub entry_id : String → String
unfolding cut_prefix span some_span cut_at strip_grub_quotes
entry_id String.[] = ""
entry_id (String.◌∷◌ c s) =
    let later = entry_id s in
    elim (id_behind (cut_prefix "--id" (String.◌∷◌ c s))) [ some id ↦ id | none ↦ later ]

-- reGrubLinux: the path, without double quotes around it
unfoldable pub linux_of : String → Option String
unfolding cut_fold span some_span trim
linux_of line = elim (behind_blanks (behind_keyword "linux" line)) [
  | none ↦ none
  | some rest ↦ elim (some_span not_blank rest) [ none ↦ none | some r ↦ some (trim is_quote r.0) ]
]

-- reGrubClose
unfoldable pub is_close : String → Bool
unfolding trim
is_close line = str_eq (trim is_blank line) "}"

-- `grubEntry`, with its title. The lines of the entry are those from `start` to `end`.
pub record GrubEntry : Type 0 where
  pub index : ℕ
  pub id : String
  pub linux : String
  pub title : String
  pub start : ℕ
  pub end : ℕ

-- The lines up to the first closing brace, or to the next menuentry.
unfoldable pub entry_body : List String → List String
unfolding is_close menu_title
entry_body [] = []
entry_body (line ∷ lines) =
    let rest = entry_body lines in
    if is_menu line then [] else if is_close line then line ∷ [] else line ∷ rest

unfoldable pub first_linux : List String → String
unfolding linux_of
first_linux [] = ""
first_linux (line ∷ lines) = elim (linux_of line) [ some path ↦ path | none ↦ first_linux lines ]

abbrev pub entry_at : ℕ → ℕ → String → String → List String → GrubEntry
entry_at i n line title body = record {
  index = n;
  id = entry_id line;
  linux = first_linux body;
  title = title;
  start = i;
  end = i + length body;
}

-- The entries from line number `i` and entry number `n` on.
unfoldable pub entries_from : ℕ → ℕ → List String → List GrubEntry
unfolding menu_title entry_body first_linux entry_id
entries_from i n [] = []
entries_from i n (line ∷ lines) = elim (menu_title line) [
  | none ↦ entries_from (i + 1) n lines
  | some title ↦ entry_at i n line title (entry_body lines) ∷ entries_from (i + 1) (n + 1) lines
]

-- parseGrubEntries
unfoldable pub parse_grub_entries : List String → List GrubEntry
unfolding entries_from
parse_grub_entries lines = entries_from 0 0 lines
