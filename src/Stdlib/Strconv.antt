-- ===== src/Stdlib/Strconv.antt =====
-- The functions of Go's strconv and strings that the program calls on plain strings: integers of 64 bits,
-- prefixes, fields and case.
use Prim.Native.Char.{Char, code}
use simplek8s_controller.Prelude.{
  ℕ, ◌+◌, ◌-◌, ◌*◌, ◌^◌, Bool, true, false, ◌&&◌, ◌||◌, String, Option, none, some, List, [], ◌∷◌,
  str_eq, leb, ◌==◌, if◌then◌else◌, ◌≡◌, refl,
}
use simplek8s_controller.Stdlib.Json.{ℤ, pos, negsuc}

abbrev pub is_digit : Char → Bool
is_digit c = leb b'0' (code c) && leb (code c) b'9'

-- The value of a text of digits, behind the digits that have been read.
unfoldable pub digits_value : String → ℕ → Option ℕ
digits_value String.[] acc = some acc
digits_value (String.◌∷◌ c s) acc =
    let rest = digits_value s (acc * 10 + (code c - b'0')) in if is_digit c then rest else none

unfoldable pub unsigned : String → Option ℕ
unfolding digits_value
unsigned String.[] = none
unsigned (String.◌∷◌ c s) = digits_value (String.◌∷◌ c s) 0

abbrev pub max_int : ℕ
max_int = 2 ^ 63 - 1

abbrev pub positive : Option ℕ → Option ℤ
positive none = none
positive (some n) = if leb n max_int then some (pos n) else none

abbrev pub negative : Option ℕ → Option ℤ
negative none = none
negative (some n) =
    if n == 0 then some (pos 0) else if leb n (2 ^ 63) then some (negsuc (n - 1)) else none

-- strconv.ParseInt(s, 10, 64), and strconv.Atoi(s) on a machine of 64 bits
unfoldable pub parse_int : String → Option ℤ
unfolding unsigned
parse_int String.[] = none
parse_int (String.◌∷◌ c s) =
    if code c == b'+'
    then positive (unsigned s)
    else if code c == b'-'
    then negative (unsigned s)
    else positive (unsigned (String.◌∷◌ c s))

-- The rest behind a prefix; strings.HasPrefix and strings.TrimPrefix are read off it.
unfoldable pub cut_prefix : String → String → Option String
cut_prefix String.[] s = some s
cut_prefix (String.◌∷◌ p ps) String.[] = none
cut_prefix (String.◌∷◌ p ps) (String.◌∷◌ c s) =
    let rest = cut_prefix ps s in if code p == code c then rest else none

-- The longest prefix whose characters pass, and the rest.
unfoldable pub span : (Char → Bool) → String → String × String
span p String.[] = ("", "")
span p (String.◌∷◌ c s) =
    let r = span p s in if p c then (String.◌∷◌ c r.0, r.1) else ("", String.◌∷◌ c s)

-- strings.Cut at a character: the text before its first occurrence, and the text behind it.
unfoldable pub cut_at : ℕ → String → String × Option String
cut_at sep String.[] = ("", none)
cut_at sep (String.◌∷◌ c s) =
    let r = cut_at sep s in if code c == sep then ("", some s) else (String.◌∷◌ c r.0, r.1)

abbrev pub onto_first : Char → List String → List String
onto_first c [] = String.◌∷◌ c "" ∷ []
onto_first c (t ∷ ts) = String.◌∷◌ c t ∷ ts

-- strings.Split at a character
unfoldable pub split : ℕ → String → List String
split sep String.[] = "" ∷ []
split sep (String.◌∷◌ c s) = let r = split sep s in if code c == sep then "" ∷ r else onto_first c r

unfoldable pub has_char : ℕ → String → Bool
has_char x String.[] = false
has_char x (String.◌∷◌ c s) = code c == x || has_char x s

-- unicode.IsSpace
abbrev pub is_space : Char → Bool
is_space c =
    let n = code c in
    (leb 9 n && leb n 13)
    || n == 0x20
    || n == 0x85
    || n == 0xa0
    || n == 0x1680
    || (leb 0x2000 n && leb n 0x200a)
    || n == 0x2028
    || n == 0x2029
    || n == 0x202f
    || n == 0x205f
    || n == 0x3000

abbrev drop_empty : List String → List String
drop_empty [] = []
drop_empty (t ∷ ts) = let rest = drop_empty ts in if str_eq t "" then rest else t ∷ rest

unfoldable pub split_space : String → List String
split_space String.[] = "" ∷ []
split_space (String.◌∷◌ c s) =
    let r = split_space s in if is_space c then "" ∷ r else onto_first c r

-- strings.Fields
unfoldable pub fields : String → List String
unfolding split_space
fields s = drop_empty (split_space s)

-- The code of a character in lower case. Of the characters outside ASCII only the Turkish capital I and
-- the Kelvin sign have a lower case in it; the others are left, since the program compares with ASCII.
abbrev pub lower_code : ℕ → ℕ
lower_code n =
    if leb b'A' n && leb n b'Z'
    then n + 32
    else if n == 0x130
    then b'i'
    else if n == 0x212a
    then b'k'
    else n

-- strings.ToLower(a) == b, for a text b in lower case
unfoldable pub lower_eq : String → String → Bool
lower_eq String.[] String.[] = true
lower_eq (String.◌∷◌ c s) (String.◌∷◌ d t) = lower_code (code c) == code d && lower_eq s t
lower_eq _ _ = false

parse_plus : parse_int "+042" ≡ some (pos 42)
unfolding parse_int
parse_plus = refl

parse_least : parse_int "-9223372036854775808" ≡ some (negsuc max_int)
unfolding parse_int
parse_least = refl

parse_too_large : parse_int "9223372036854775808" ≡ none
unfolding parse_int
parse_too_large = refl

fields_two : fields " a  bc" ≡ "a" ∷ "bc" ∷ []
unfolding fields
fields_two = refl
