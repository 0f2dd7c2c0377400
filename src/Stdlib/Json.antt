-- ===== src/Stdlib/Json.antt =====
-- JSON documents, as `json.Unmarshal` reads them into the program's structs: an unknown field is
-- ignored, an absent or `null` field leaves the zero value, and a value of the wrong type is an
-- error that does not stop the other fields. Keys of an object are distinct, and compared exactly.
use simplek8s_controller.Prelude.{
  ℕ, ◌≡◌, refl, Bool, true, false, not, ◌&&◌, ◌==◌, String, Option, none, some, List, [], ◌∷◌,
  str_eq, if◌then◌else◌,
}
use simplek8s_controller.Stdlib.Text.{Text, lit, empty, is_empty, text_eq}

-- A JSON integer; `negsuc n` is -(n + 1).
pub data ℤ : Type 0 where
  pos : ℕ → ℤ
  negsuc : ℕ → ℤ

mutual
  pub data Json : Type 0 where
    null : Json
    bool : Bool → Json
    num : ℤ → Json
    fraction : String → Json
    str : Text → Json
    arr : Items → Json
    obj : Fields → Json

  pub data Items : Type 0 where
    nil : Items
    item : Json → Items → Items

  pub data Fields : Type 0 where
    end : Fields
    field : String → Json → Fields → Fields

-- An annotation's value: a JSON document that is an object, an array or `null`, or any other text.
pub data Raw : Type 0 where
  text : Text → Raw
  doc : Json → Raw

abbrev pub raw_empty : Raw
raw_empty = text empty

-- raw == ""
unfoldable pub raw_is_empty : Raw → Bool
unfolding is_empty
raw_is_empty (text t) = is_empty t
raw_is_empty (doc _) = false

-- raw == s, for a plain string s
unfoldable pub raw_eq : Raw → String → Bool
unfolding text_eq
raw_eq (text t) s = text_eq t (lit s)
raw_eq (doc _) s = false

abbrev pub int_eq : ℤ → ℤ → Bool
int_eq (pos a) (pos b) = a == b
int_eq (negsuc a) (negsuc b) = a == b
int_eq _ _ = false

abbrev pub bool_eq : Bool → Bool → Bool
bool_eq true b = b
bool_eq false b = not b

unfoldable mutual
  unfolding text_eq

  pub json_eq : Json → Json → Bool
  json_eq null null = true
  json_eq (bool a) (bool b) = bool_eq a b
  json_eq (num a) (num b) = int_eq a b
  json_eq (fraction a) (fraction b) = str_eq a b
  json_eq (str a) (str b) = text_eq a b
  json_eq (arr a) (arr b) = items_eq a b
  json_eq (obj a) (obj b) = fields_eq a b
  json_eq _ _ = false

  pub items_eq : Items → Items → Bool
  items_eq nil nil = true
  items_eq (item a xs) (item b ys) = json_eq a b && items_eq xs ys
  items_eq _ _ = false

  pub fields_eq : Fields → Fields → Bool
  fields_eq end end = true
  fields_eq (field j a fs) (field k b gs) = str_eq j k && json_eq a b && fields_eq fs gs
  fields_eq _ _ = false

-- a == b, for two annotations
unfoldable pub raw_same : Raw → Raw → Bool
unfolding text_eq json_eq
raw_same (text a) (text b) = text_eq a b
raw_same (doc a) (doc b) = json_eq a b
raw_same _ _ = false

-- The fields of the object that is decoded, and whether the document is one (`null` is no error).
unfoldable pub object : Raw → Fields × Bool
object (text _) = (end, false)
object (doc null) = (end, true)
object (doc (obj fs)) = (fs, true)
object (doc _) = (end, false)

unfoldable pub get : String → Fields → Json
get k end = null
get k (field j v fs) = if str_eq j k then v else get k fs

-- A field of type string, *string, bool, *bool, int: the value, and whether the type fits.
unfoldable pub as_string : Json → Text × Bool
as_string null = (empty, true)
as_string (str t) = (t, true)
as_string _ = (empty, false)

unfoldable pub as_string_ptr : Json → Option Text × Bool
as_string_ptr null = (none, true)
as_string_ptr (str t) = (some t, true)
as_string_ptr _ = (none, false)

unfoldable pub as_bool : Json → Bool × Bool
as_bool null = (false, true)
as_bool (bool b) = (b, true)
as_bool _ = (false, false)

unfoldable pub as_bool_ptr : Json → Option Bool × Bool
as_bool_ptr null = (none, true)
as_bool_ptr (bool b) = (some b, true)
as_bool_ptr _ = (none, false)

unfoldable pub as_int : Json → ℤ × Bool
as_int null = (pos 0, true)
as_int (num n) = (n, true)
as_int _ = (pos 0, false)

-- A field of type []string; nil is `none`.
unfoldable pub strings : Items → List Text × Bool
unfolding as_string
strings nil = ([], true)
strings (item j js) =
    let (t, fits) = as_string j in let (ts, rest_fit) = strings js in (t ∷ ts, fits && rest_fit)

unfoldable pub as_strings : Json → Option (List Text) × Bool
unfolding strings
as_strings null = (none, true)
as_strings (arr js) = let (ts, fits) = strings js in (some ts, fits)
as_strings _ = (none, false)

unfoldable pub items_of : List Text → Items
items_of [] = nil
items_of (t ∷ ts) = item (str t) (items_of ts)

pub strings-items_of : (ts : List Text) → strings (items_of ts) ≡ (ts, true)
unfolding strings items_of
strings-items_of [] = refl
strings-items_of (t ∷ ts) = λ i. let (us, b) = strings-items_of ts i in (t ∷ us, b)

-- A field with `omitempty`: left out if the test says so.
unfoldable pub omit_if : Bool → String → Json → Fields → Fields
omit_if empty_value k v fs = if empty_value then fs else field k v fs
