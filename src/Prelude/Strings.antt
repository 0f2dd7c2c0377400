-- ===== src/Prelude/Strings.antt =====
-- The order of Go strings, by their characters.
use Prim.Native.Char.{code}
use Prim.Native.String.{String}
use mathlib.Core.Path.{◌≡◌, refl}
use mathlib.Core.Bool.{Bool, true, false}
use native.Mathlib.Omega.{arith}
use simplek8s_controller.Prelude.Tests.{ltb, if◌then◌else◌}

-- a < b
unfoldable pub str_lt : String → String → Bool
str_lt String.[] String.[] = false
str_lt String.[] (String.◌∷◌ d t) = true
str_lt (String.◌∷◌ c s) String.[] = false
str_lt (String.◌∷◌ c s) (String.◌∷◌ d t) =
    if ltb (code c) (code d) then true else if ltb (code d) (code c) then false else str_lt s t

pub str_lt_asymm : (a b : String) → str_lt a b ≡ true → str_lt b a ≡ false
unfolding str_lt
str_lt_asymm String.[] String.[] h = refl
str_lt_asymm String.[] (String.◌∷◌ d t) h = refl
str_lt_asymm (String.◌∷◌ c s) String.[] h = absurd (ground arith)
str_lt_asymm (String.◌∷◌ c s) (String.◌∷◌ d t) h = ground (arith, str_lt_asymm s t)

pub str_lt_trans : (a b c : String) → str_lt a b ≡ true → str_lt b c ≡ true → str_lt a c ≡ true
unfolding str_lt
str_lt_trans String.[] String.[] r h k = k
str_lt_trans String.[] (String.◌∷◌ d t) String.[] h k = absurd (ground arith)
str_lt_trans String.[] (String.◌∷◌ d t) (String.◌∷◌ e u) h k = refl
str_lt_trans (String.◌∷◌ c s) String.[] r h k = absurd (ground arith)
str_lt_trans (String.◌∷◌ c s) (String.◌∷◌ d t) String.[] h k = absurd (ground arith)
str_lt_trans (String.◌∷◌ c s) (String.◌∷◌ d t) (String.◌∷◌ e u) h k =
    ground (arith, str_lt_trans s t u)
