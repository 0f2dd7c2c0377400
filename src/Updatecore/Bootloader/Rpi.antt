-- ===== src/Updatecore/Bootloader/Rpi.antt =====
-- internal/updatecore/bootloader.go: config.txt, `setRPIDefault` and `rpiDefault`.
use Prim.Native.Char.{Char, code}
use Prim.Native.String.{◌++◌ as concat}
use simplek8s_controller.Prelude.{
  Bool, ◌||◌, String, str_eq, Option, none, some, is_some, List, [], ◌∷◌, map, ◌==◌, if◌then◌else◌,
  ◌≡◌, refl,
}
use simplek8s_controller.Stdlib.Strconv.{span}
use simplek8s_controller.Updatecore.Bootloader.Text.{cut_fold, is_word, scan, write_lines}

unfoldable pub is_kernel_line : String → Bool
unfolding cut_fold
is_kernel_line line = is_some (cut_fold "kernel=" line)

abbrev pub rpi_line : String → String → String
rpi_line path line = if is_kernel_line line then concat "kernel=" path else line

-- setRPIDefault: the text that it writes. The error of the scanner is not looked at.
unfoldable pub set_rpi_default : String → String → String
unfolding scan write_lines is_kernel_line
set_rpi_default path text = write_lines (map (rpi_line path) (scan text).0)

-- [/\w-_.]
abbrev pub is_path_char : Char → Bool
is_path_char c = is_word c || code c == b'/'

abbrev pub whole_path : String × String → Option String
whole_path (path, rest) =
    if str_eq path "" then none else if str_eq rest "" then some path else none

abbrev pub path_behind : Option String → Option String
path_behind none = none
path_behind (some rest) = whole_path (span is_path_char rest)

-- The path of a line that is one.
unfoldable pub kernel_path_of : String → Option String
unfolding cut_fold span
kernel_path_of line = path_behind (cut_fold "kernel=" line)

abbrev pub path_or : Option String → String → String
path_or none rest = rest
path_or (some path) rest = path

unfoldable pub first_path : List String → String
first_path [] = ""
first_path (line ∷ lines) = path_or (kernel_path_of line) (first_path lines)

-- rpiDefault
unfoldable pub rpi_default : String → String
unfolding scan first_path kernel_path_of
rpi_default text = first_path (scan text).0

set_rpi :
    set_rpi_default "/simplek8s/b.efi" "arm_64bit=1\nKernel=a.img\n"
    ≡ "arm_64bit=1\nkernel=/simplek8s/b.efi\n"
unfolding set_rpi_default
set_rpi = refl

-- Without a line for the kernel, none is added.
set_rpi_without : set_rpi_default "/simplek8s/b.efi" "arm_64bit=1" ≡ "arm_64bit=1\n"
unfolding set_rpi_default
set_rpi_without = refl
