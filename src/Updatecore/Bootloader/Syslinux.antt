-- ===== src/Updatecore/Bootloader/Syslinux.antt =====
-- internal/updatecore/bootloader.go: syslinux.cfg, its default and the prune of its stale entries.
use Prim.Native.String.{◌++◌ as concat}
use simplek8s_controller.Prelude.{
  Bool, true, false, not, ◌&&◌, String, str_eq, Option, none, some, is_some, List, [], ◌∷◌, ◌++◌,
  any, map, if◌then◌else◌, ◌≡◌, refl,
}
use simplek8s_controller.Stdlib.Strconv.{span, split}
use simplek8s_controller.Updatecore.Versions.{parse_stored_kernel}
use simplek8s_controller.Updatecore.Purge.{of_flavor}
use simplek8s_controller.Updatecore.Bootloader.Text.{
  equal_fold, cut_fold, is_blank, is_quote, trim, trim_right, value_behind, label_behind, scan,
  join_lines, write_lines, base_name, kernel_basename,
}

abbrev pub is_default_line : String → Bool
is_default_line line = is_some (cut_fold "default " line)

-- `^LABEL <name>`, as the writer looks for it
abbrev pub names_label : String → String → Bool
names_label name line = is_some (cut_fold (concat "label " name) line)

abbrev pub syslinux_line : String → String → String
syslinux_line name line = if is_default_line line then concat "DEFAULT " name else line

abbrev pub initrd_line : String → String
initrd_line ucode = concat " INITRD /" ucode

-- The lines of a new entry.
abbrev pub new_entry : List String → String → String → List String
new_entry ucodes name path =
    concat "LABEL " name ∷ concat " KERNEL " path ∷ map initrd_line ucodes ++ "" ∷ []

abbrev pub is_entry_of : String → String → Bool
is_entry_of name line = not (is_default_line line) && names_label name line

-- writeNewSyslinuxConfig, with the microcode files that are at the root of the partition; `none` is the
-- error of the scanner.
unfoldable pub set_syslinux_default : List String → String → String → Option String
unfolding scan write_lines cut_fold kernel_basename
set_syslinux_default ucodes path text =
    let name = kernel_basename path in
    let (lines, ok) = scan text in
    let added = if any is_default_line lines then [] else concat "DEFAULT " name ∷ [] in
    let entry = if any (is_entry_of name) lines then [] else new_entry ucodes name path in
    if ok then some (write_lines (map (syslinux_line name) lines ++ added ++ entry)) else none

abbrev label_of : Option String → Option String
label_of none = none
label_of (some rest) = elim (label_behind rest) [ none ↦ none | some r ↦ some r.0 ]

-- syslinuxLabel: the label behind the first `DEFAULT`, or "".
unfoldable pub syslinux_label : List String → String
unfolding cut_fold label_behind
syslinux_label [] = ""
syslinux_label (line ∷ lines) = elim (label_of (cut_fold "default" line)) [
  | some label ↦ label
  | none ↦ syslinux_label lines
]

-- `^LABEL\s+([\w-_.]+)\s*$`
abbrev alone : Option (String × String) → Option String
alone none = none
alone (some (label, rest)) = if str_eq (trim_right is_blank rest) "" then some label else none

abbrev whole_label : Option String → Option String
whole_label none = none
whole_label (some rest) = alone (label_behind rest)

-- `^\s*KERNEL\s+(.+?)\s*$`
unfoldable pub kernel_of : String → Option String
unfolding cut_fold span value_behind
kernel_of line = elim (cut_fold "kernel" (span is_blank line).1) [
  | none ↦ none
  | some rest ↦ value_behind 1 rest
]

abbrev kernel_or : Bool → String → String → String
kernel_or inside line rest =
    if inside then elim (kernel_of line) [ some kernel ↦ kernel | none ↦ rest ] else rest

-- syslinuxKernelForLabel
unfoldable pub kernel_for_label : String → Bool → List String → String
unfolding cut_fold label_behind trim_right kernel_of
kernel_for_label label inside [] = ""
kernel_for_label label inside (line ∷ lines) = elim (whole_label (cut_fold "label" line)) [
  | some name ↦ kernel_for_label label (str_eq name label) lines
  | none ↦ kernel_or inside line (kernel_for_label label inside lines)
]

-- syslinuxDefault
unfoldable pub syslinux_default : String → String
unfolding scan syslinux_label kernel_for_label
syslinux_default text =
    let lines = (scan text).0 in
    let label = syslinux_label lines in
    if str_eq label "" then "" else kernel_for_label label false lines

-- A block: its label, its lines.
pub record Block : Type 0 where
  pub label : String
  pub lines : List String

-- The lines before the first label, and the blocks.
abbrev onto_blocks : String → Option String → List String × List Block → List String × List Block
onto_blocks line none (front, blocks) = (line ∷ front, blocks)
onto_blocks line (some label) (front, blocks) =
    ([], record { label = label; lines = line ∷ front } ∷ blocks)

unfoldable pub blocks_of : List String → List String × List Block
unfolding cut_fold label_behind
blocks_of [] = ([], [])
blocks_of (line ∷ lines) = onto_blocks line (label_of (cut_fold "label" line)) (blocks_of lines)

unfoldable pub first_kernel : List String → String
unfolding kernel_of
first_kernel [] = ""
first_kernel (line ∷ lines) = elim (kernel_of line) [
  | some kernel ↦ kernel
  | none ↦ first_kernel lines
]

-- The file of an entry is a kernel of the flavor and is gone.
unfoldable pub is_gone : String → (String → Bool) → String → Bool
unfolding base_name trim
is_gone flavor gone kernel =
    let base = base_name (trim is_quote kernel) in
    not (str_eq kernel "") && of_flavor flavor (parse_stored_kernel base) && gone base

unfoldable pub is_stale_block : String → String → (String → Bool) → Block → Bool
unfolding is_gone first_kernel equal_fold
is_stale_block default flavor gone b =
    not (equal_fold b.label default) && is_gone flavor gone (first_kernel b.lines)

abbrev pub kept_lines : (Block → Bool) → List Block → List String
kept_lines stale [] = []
kept_lines stale (b ∷ bs) =
    let rest = kept_lines stale bs in if stale b then rest else b.lines ++ rest

-- pruneSyslinuxEntries: the configuration, and how many blocks are pruned
unfoldable pub prune_syslinux_entries : String → String → String → (String → Bool) → String
unfolding blocks_of is_stale_block join_lines split
prune_syslinux_entries text default flavor gone =
    let (front, blocks) = blocks_of (split 10 text) in
    join_lines (front ++ kept_lines (is_stale_block default flavor gone) blocks)

abbrev old_config : String
old_config =
    "DEFAULT simplek8s.1.x86-64\nLABEL simplek8s.1.x86-64\n KERNEL /simplek8s/simplek8s.1.x86-64.efi\n"

abbrev new_config : String
new_config =
    "DEFAULT simplek8s.2.x86-64\nLABEL simplek8s.1.x86-64\n KERNEL /simplek8s/simplek8s.1.x86-64.efi\nLABEL simplek8s.2.x86-64\n KERNEL /simplek8s/simplek8s.2.x86-64.efi\n\n"

re_points : set_syslinux_default [] "/simplek8s/simplek8s.2.x86-64.efi" old_config ≡ some new_config
unfolding set_syslinux_default
re_points = refl

reads : syslinux_default new_config ≡ "/simplek8s/simplek8s.2.x86-64.efi"
unfolding syslinux_default
reads = refl

prunes :
    prune_syslinux_entries new_config "simplek8s.2.x86-64" "x86-64" (λ base. true)
    ≡ "DEFAULT simplek8s.2.x86-64\nLABEL simplek8s.2.x86-64\n KERNEL /simplek8s/simplek8s.2.x86-64.efi\n\n"
unfolding prune_syslinux_entries parse_stored_kernel
prunes = refl

-- A default that is set off by a tab is read, but not replaced.
tab_default :
    (set_syslinux_default [] "/simplek8s/simplek8s.1.x86-64.efi"
        "DEFAULT\told\nLABEL simplek8s.1.x86-64\n"
      ≡ some "DEFAULT\told\nLABEL simplek8s.1.x86-64\nDEFAULT simplek8s.1.x86-64\n")
tab_default = unfold set_syslinux_default in refl
