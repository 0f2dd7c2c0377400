-- ===== src/Updatecore/Bootloader/Text.antt =====
-- What internal/updatecore/bootloader.go uses of Go's text functions: the scanner's lines, the
-- pieces of its expressions, and the base names of paths.
use Prim.Native.Char.{Char, code}
use Prim.Native.String.{◌++◌ as concat}
use simplek8s_controller.Prelude.{
  ℕ, suc, ◌+◌, Bool, true, false, ◌&&◌, ◌||◌, String, str_eq, Option, none, some, List, [], ◌∷◌,
  leb, ◌==◌, if◌then◌else◌, ◌≡◌, refl,
}
use simplek8s_controller.Stdlib.Strconv.{is_digit, is_space, span, split}
use simplek8s_controller.Updatecore.Index.{trim_cr, line_length}

-- The code of a character, for comparisons without case: of all characters only the Kelvin sign and the
-- long s fold to a letter of ASCII.
abbrev pub fold_code : ℕ → ℕ
fold_code n =
    if leb b'A' n && leb n b'Z'
    then n + 32
    else if n == 0x212a
    then b'k'
    else if n == 0x17f
    then b's'
    else n

abbrev pub same_fold : Char → Char → Bool
same_fold c d = fold_code (code c) == fold_code (code d)

-- strings.EqualFold, of texts in ASCII
unfoldable pub equal_fold : String → String → Bool
equal_fold String.[] String.[] = true
equal_fold (String.◌∷◌ c s) (String.◌∷◌ d t) = same_fold c d && equal_fold s t
equal_fold _ _ = false

-- The rest behind a prefix in any case.
unfoldable pub cut_fold : String → String → Option String
cut_fold String.[] s = some s
cut_fold (String.◌∷◌ p ps) String.[] = none
cut_fold (String.◌∷◌ p ps) (String.◌∷◌ c s) =
    let rest = cut_fold ps s in if same_fold p c then rest else none

-- \s of an expression
abbrev pub is_blank : Char → Bool
is_blank c = let n = code c in n == 9 || n == 10 || n == 12 || n == 13 || n == 0x20

-- [\w-_.] without case
abbrev pub is_word : Char → Bool
is_word c =
    let n = code c in
    (leb b'A' n && leb n b'Z')
    || (leb b'a' n && leb n b'z')
    || is_digit c
    || n == b'_'
    || n == b'-'
    || n == b'.'
    || n == 0x212a
    || n == 0x17f

-- The text without the characters of a kind at its end.
unfoldable pub trim_right : (Char → Bool) → String → String
trim_right p String.[] = ""
trim_right p (String.◌∷◌ c s) =
    let rest = trim_right p s in if p c && str_eq rest "" then "" else String.◌∷◌ c rest

unfoldable pub trim : (Char → Bool) → String → String
unfolding span trim_right
trim p s = trim_right p (span p s).1

abbrev pub is_quote : Char → Bool
is_quote c = code c == 0x22

-- strings.TrimSpace(s) == ""
unfoldable pub is_blank_line : String → Bool
is_blank_line String.[] = true
is_blank_line (String.◌∷◌ c s) = is_space c && is_blank_line s

unfoldable pub last_char : String → String → String
last_char String.[] acc = acc
last_char (String.◌∷◌ c s) acc = last_char s (String.◌∷◌ c "")

-- `\s{n,}(.+?)\s*$`: the value behind at least `n` blanks. Of blanks alone, the last is the value.
unfoldable pub value_behind : ℕ → String → Option String
unfolding span trim_right last_char line_length
value_behind n s =
    let r = span is_blank s in
    if str_eq r.1 ""
    then (if leb (suc n) (line_length r.0) then some (last_char r.0 "") else none)
    else if leb n (line_length r.0)
    then some (trim_right is_blank r.1)
    else none

-- The longest prefix of a kind, if it is not empty, with the rest.
unfoldable pub some_span : (Char → Bool) → String → Option (String × String)
unfolding span
some_span p s = let r = span p s in if str_eq r.0 "" then none else some r

-- `\s+([\w-_.]+)`, with the rest
unfoldable pub label_behind : String → Option (String × String)
unfolding some_span
label_behind s = elim (some_span is_blank s) [ none ↦ none | some r ↦ some_span is_word r.1 ]

-- A scanner's line has below 64 KiB.
abbrev pub max_token : ℕ
max_token = 65536

-- The lines of a text, where a last one is not empty.
unfoldable pub ended : List String → List String
ended [] = []
ended (line ∷ []) = if str_eq line "" then [] else line ∷ []
ended (line ∷ next ∷ rest) = line ∷ ended (next ∷ rest)

abbrev pub onto_scanned : String → List String × Bool → List String × Bool
onto_scanned line (lines, ok) = (trim_cr line ∷ lines, ok)

-- The lines before one that is too long, and whether there is none.
unfoldable pub scanned : List String → List String × Bool
unfolding trim_cr line_length
scanned [] = ([], true)
scanned (line ∷ lines) =
    let rest = scanned lines in
    if leb max_token (line_length line) then ([], false) else onto_scanned line rest

-- bufio.Scanner over a text
unfoldable pub scan : String → List String × Bool
unfolding scanned ended split
scan s = scanned (ended (split 10 s))

unfoldable pub join_lines : List String → String
join_lines [] = ""
join_lines (line ∷ []) = line
join_lines (line ∷ next ∷ rest) = concat line (concat "\n" (join_lines (next ∷ rest)))

-- Lines that are written one by one.
unfoldable pub write_lines : List String → String
write_lines [] = ""
write_lines (line ∷ lines) = concat line (concat "\n" (write_lines lines))

abbrev is_slash : Char → Bool
is_slash c = code c == b'/'

-- The text behind the last slash.
unfoldable pub behind_slash : String → String → String
behind_slash String.[] acc = acc
behind_slash (String.◌∷◌ c s) acc = if is_slash c then behind_slash s s else behind_slash s acc

-- filepath.Base
unfoldable pub base_name : String → String
unfolding behind_slash trim_right
base_name path =
    let trimmed = trim_right is_slash path in
    if str_eq path "" then "." else if str_eq trimmed "" then "/" else behind_slash trimmed trimmed

-- The text before the last dot, or all of it.
unfoldable pub before_dot : String → Option String
before_dot String.[] = none
before_dot (String.◌∷◌ c s) = elim (before_dot s) [
  | some front ↦ some (String.◌∷◌ c front)
  | none ↦ if code c == b'.' then some "" else none
]

abbrev or_whole : String → Option String → String
or_whole s none = s
or_whole s (some front) = front

-- kernelBasename
unfoldable pub kernel_basename : String → String
unfolding base_name before_dot
kernel_basename path = let base = base_name path in or_whole base (before_dot base)

base_of_kernel : kernel_basename "/simplek8s/simplek8s.2.x86-64.efi" ≡ "simplek8s.2.x86-64"
unfolding kernel_basename
base_of_kernel = refl

scanned_lines : scan "a\r\n\nb" ≡ ("a" ∷ "" ∷ "b" ∷ [], true)
unfolding scan
scanned_lines = refl
