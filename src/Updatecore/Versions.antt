-- ===== src/Updatecore/Versions.antt =====
-- internal/updatecore/versions.go and the names of staging.go: releases, flavors, and the order of
-- versions.
use Prim.Native.Char.{Char, code}
use Prim.Native.String.{◌++◌ as concat}
use simplek8s_controller.Prelude.{
  Bool, true, false, not, ◌&&◌, ◌||◌, String, Option, none, some, List, [], ◌∷◌, any, str_eq, ltb,
  leb, ◌==◌, if◌then◌else◌, ◌≡◌, refl,
}
use simplek8s_controller.Stdlib.Json.{ℤ, pos, negsuc}
use simplek8s_controller.Stdlib.Strconv.{is_digit, parse_int, cut_prefix, span}

-- A file of a release: its version and its flavor.
pub record Release : Type 0 where
  pub ts : String
  pub flavor : String

-- [A-Za-z0-9_-]
abbrev pub is_flavor_char : Char → Bool
is_flavor_char c =
    let n = code c in
    (leb b'A' n && leb n b'Z') || (leb b'a' n && leb n b'z') || is_digit c || n == b'_' || n == b'-'

-- The flavor, if the rest behind it is one of the endings.
abbrev pub with_ending : List String → String → String × String → Option Release
with_ending endings ts (flavor, rest) =
    if not (str_eq flavor "") && any (str_eq rest) endings
    then some (record { ts = ts; flavor = flavor })
    else none

abbrev pub behind_dot : List String → String → Option String → Option Release
behind_dot endings ts none = none
behind_dot endings ts (some rest) = with_ending endings ts (span is_flavor_char rest)

abbrev pub with_ts : List String → String × String → Option Release
with_ts endings (ts, rest) =
    if str_eq ts "" then none else behind_dot endings ts (cut_prefix "." rest)

abbrev pub behind_name : List String → Option String → Option Release
behind_name endings none = none
behind_name endings (some rest) = with_ts endings (span is_digit rest)

-- `^simplek8s\.([0-9]+)\.([A-Za-z0-9_-]+)`, and one of the endings
unfoldable pub parse_release : List String → String → Option Release
unfolding cut_prefix span
parse_release endings filename = behind_name endings (cut_prefix "simplek8s." filename)

-- ParseKernelRelease
unfoldable pub parse_kernel_release : String → Option Release
unfolding parse_release
parse_kernel_release filename = parse_release (".efi.zst" ∷ ".efi.xz" ∷ []) filename

-- ParseStoredKernel; versionFromStoredKernel is its version.
unfoldable pub parse_stored_kernel : String → Option Release
unfolding parse_release
parse_stored_kernel filename = parse_release (".efi" ∷ []) filename

-- flavorSet, as IsKnownFlavor reads it
unfoldable pub is_known_flavor : String → Bool
is_known_flavor f = any (str_eq f) ("x86-64" ∷ "arm64" ∷ "rpi4" ∷ "rpi5" ∷ [])

-- The flavor of a kernel's name, if it is a known one.
unfoldable pub known_flavor : Option Release → Option String
known_flavor none = none
known_flavor (some r) = if is_known_flavor r.flavor then some r.flavor else none

-- ResolveFlavor
unfoldable pub resolve_flavor : List String → Option String
unfolding known_flavor
resolve_flavor [] = none
resolve_flavor (f ∷ files) = elim (known_flavor (parse_stored_kernel f)) [
  | some flavor ↦ some flavor
  | none ↦ resolve_flavor files
]

abbrev pub digits_of : Option String → String
digits_of none = ""
digits_of (some rest) = (span is_digit rest).0

-- The digits behind the first `simplek8s-` that has some, or "".
unfoldable pub running_version : String → String
unfolding span cut_prefix
running_version String.[] = ""
running_version (String.◌∷◌ c s) =
    let here = digits_of (cut_prefix "simplek8s-" (String.◌∷◌ c s)) in
    let later = running_version s in if str_eq here "" then later else here

abbrev pub int_gt : Option ℤ → Option ℤ → Bool
int_gt (some (pos a)) (some (pos b)) = ltb b a
int_gt (some (pos a)) (some (negsuc b)) = true
int_gt (some (negsuc a)) (some (negsuc b)) = ltb a b
int_gt _ _ = false

-- NewerTS
unfoldable pub newer_ts : String → String → Bool
newer_ts a b = int_gt (parse_int a) (parse_int b)

-- kernelStoredName
unfoldable pub kernel_stored_name : String → String → String
kernel_stored_name ts arch = concat "simplek8s." (concat ts (concat "." (concat arch ".efi")))

-- ArtifactFileName
unfoldable pub artifact_file_name : String → String → String
artifact_file_name ts arch = concat "simplek8s." (concat ts (concat "." (concat arch ".efi.zst")))

stored_x86 :
    parse_stored_kernel "simplek8s.202608291203.x86-64.efi"
    ≡ some (record { ts = "202608291203"; flavor = "x86-64" })
unfolding parse_stored_kernel
stored_x86 = refl

not_stored : parse_stored_kernel "simplek8s.202608291203.x86-64.efi.zst" ≡ none
unfolding parse_stored_kernel
not_stored = refl

running_amd : running_version "6.18.48-simplek8s-202608291203 (amd64)" ≡ "202608291203"
unfolding running_version
running_amd = refl
