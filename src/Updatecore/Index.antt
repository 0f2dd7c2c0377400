-- ===== src/Updatecore/Index.antt =====
-- internal/updatecore/index.go: `ParseIndex`.
use Prim.Native.Char.{Char, code}
use simplek8s_controller.Prelude.{
  ℕ, zero, suc, Bool, ◌&&◌, ◌||◌, String, Option, none, some, List, [], ◌∷◌, Dict, insert, leb,
  ◌==◌, if◌then◌else◌, ◌≡◌, refl,
}
use simplek8s_controller.Stdlib.Strconv.{is_digit, split}

abbrev is_hex : Char → Bool
is_hex c = let n = code c in is_digit c || (leb b'A' n && leb n b'F') || (leb b'a' n && leb n b'f')

-- strings.ToLower, of a hexadecimal digit
abbrev lower_hex : Char → Char
lower_hex c =
    let n = code c in
    if n == b'A'
    then "a"
    else if n == b'B'
    then "b"
    else if n == b'C'
    then "c"
    else if n == b'D'
    then "d"
    else if n == b'E'
    then "e"
    else if n == b'F'
    then "f"
    else c

abbrev onto_hex : Char → Option (String × String) → Option (String × String)
onto_hex c none = none
onto_hex c (some (hash, rest)) = some (String.◌∷◌ (lower_hex c) hash, rest)

-- The next `n` characters, if they are hexadecimal, in lower case, and the rest.
unfoldable pub take_hex : ℕ → String → Option (String × String)
take_hex zero s = some ("", s)
take_hex (suc n) String.[] = none
take_hex (suc n) (String.◌∷◌ c s) =
    let rest = take_hex n s in if is_hex c then onto_hex c rest else none

-- The file name behind the mode marker.
unfoldable pub marked_name : String → Option String
marked_name (String.◌∷◌ c (String.◌∷◌ m (String.◌∷◌ d s))) =
    if code c == 0x20 && (code m == 0x20 || code m == b'*') then some (String.◌∷◌ d s) else none
marked_name _ = none

abbrev named_sum : Option (String × String) → Option (String × String)
named_sum none = none
named_sum (some (hash, rest)) = elim (marked_name rest) [
  | none ↦ none
  | some name ↦ some (name, hash)
]

-- sha256Line, on one line: the file name and its hash
unfoldable pub parse_line : String → Option (String × String)
unfolding take_hex marked_name
parse_line line = named_sum (take_hex 64 line)

-- strings.TrimSuffix(line, "\r")
unfoldable pub trim_cr : String → String
trim_cr String.[] = ""
trim_cr (String.◌∷◌ c String.[]) = if code c == 13 then "" else String.◌∷◌ c ""
trim_cr (String.◌∷◌ c (String.◌∷◌ d s)) = String.◌∷◌ c (trim_cr (String.◌∷◌ d s))

-- A line of 1 MiB is too long for the scanner.
unfoldable pub line_length : String → ℕ
line_length String.[] = 0
line_length (String.◌∷◌ c s) = suc (line_length s)

abbrev pub max_line : ℕ
max_line = 1048576

abbrev pub enter : Option (String × String) → Dict String → Dict String
enter none out = out
enter (some (name, hash)) out = insert name hash out

-- The loop over the lines. The scanner drops one carriage return at the end of a line, the loop another.
unfoldable pub parse_lines : List String → Dict String → Option (Dict String)
unfolding parse_line trim_cr line_length
parse_lines [] out = some out
parse_lines (line ∷ lines) out =
    let rest = parse_lines lines (enter (parse_line (trim_cr (trim_cr line))) out) in
    if leb max_line (line_length line) then none else rest

-- ParseIndex
unfoldable pub parse_index : String → Option (Dict String)
unfolding parse_lines split
parse_index content = parse_lines (split 10 content) []

short_hash : parse_index "12AF  simplek8s.1.rpi5.efi.zst\n" ≡ some []
unfolding parse_index
short_hash = refl
