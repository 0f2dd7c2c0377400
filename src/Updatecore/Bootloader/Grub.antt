-- ===== src/Updatecore/Bootloader/Grub.antt =====
-- internal/updatecore/bootloader.go: the default of grub.cfg, and the prune of its stale entries.
use Prim.Native.String.{◌++◌ as concat}
use simplek8s_controller.Prelude.{
  ℕ, zero, suc, ◌+◌, Bool, true, false, not, ◌&&◌, ◌||◌, String, str_eq, Option, none, some, List,
  [], ◌∷◌, ◌++◌, any, map, leb, ◌==◌, if◌then◌else◌, ◌≡◌, refl,
}
use simplek8s_controller.Stdlib.Json.{ℤ, pos, negsuc}
use simplek8s_controller.Stdlib.Strconv.{parse_int, split}
use simplek8s_controller.Updatecore.Versions.{Release, parse_stored_kernel}
use simplek8s_controller.Updatecore.Bootloader.Text.{
  equal_fold, is_blank_line, join_lines, base_name, kernel_basename,
}
use simplek8s_controller.Updatecore.Bootloader.Syslinux.{is_gone}
use simplek8s_controller.Updatecore.Bootloader.Entries.{
  behind_set, grub_default_value, is_grub_default, is_kernel_opts, menu_title, is_menu,
  strip_grub_quotes, GrubEntry, parse_grub_entries,
}

-- The value of the first default line, or "".
unfoldable pub default_value : List String → String
unfolding grub_default_value strip_grub_quotes
default_value [] = ""
default_value (line ∷ lines) = elim (grub_default_value line) [
  | some value ↦ strip_grub_quotes value
  | none ↦ default_value lines
]

-- The path of the first entry that passes.
unfoldable pub linux_where : (GrubEntry → Bool) → List GrubEntry → Option String
linux_where p [] = none
linux_where p (e ∷ es) = let rest = linux_where p es in if p e then some e.linux else rest

abbrev or_else : Option String → String → String
or_else none rest = rest
or_else (some path) rest = path

abbrev linux_numbered : ℤ → List GrubEntry → String
linux_numbered (pos n) es = or_else (linux_where (λ e. e.index == n) es) ""
linux_numbered (negsuc n) es = ""

abbrev linux_named : String → List GrubEntry → String
linux_named name es =
    or_else (linux_where (λ e. not (str_eq e.id "") && str_eq e.id name) es)
      (or_else (linux_where (λ e. str_eq e.title name) es) "")

abbrev linux_valued : String → List GrubEntry → String
linux_valued value es =
    if str_eq value ""
    then ""
    else elim (parse_int value) [ some n ↦ linux_numbered n es | none ↦ linux_named value es ]

-- grubDefault
unfoldable pub grub_default : String → String
unfolding split parse_grub_entries default_value linux_where parse_int
grub_default text =
    let lines = split 10 text in linux_valued (default_value lines) (parse_grub_entries lines)

-- The id of an entry, or the base name of its kernel.
unfoldable pub entry_key : GrubEntry → String
unfolding kernel_basename
entry_key e = if str_eq e.id "" && not (str_eq e.linux "") then kernel_basename e.linux else e.id

abbrev titled_release : String → Option Release → String
titled_release path none = kernel_basename path
titled_release path (some r) = concat "SimpleK8s " (concat r.ts (concat " " r.flavor))

-- grubMenuTitle
unfoldable pub grub_menu_title : String → String
unfolding parse_stored_kernel base_name kernel_basename
grub_menu_title path = titled_release path (parse_stored_kernel (base_name path))

-- The lines before the first that passes, and from it on.
unfoldable pub split_at_first : (String → Bool) → List String → List String × List String
split_at_first p [] = ([], [])
split_at_first p (line ∷ lines) =
    let r = split_at_first p lines in if p line then ([], line ∷ lines) else (line ∷ r.0, r.1)

unfoldable pub ends_blank : List String → Bool
unfolding is_blank_line
ends_blank [] = true
ends_blank (line ∷ []) = is_blank_line line
ends_blank (line ∷ next ∷ rest) = ends_blank (next ∷ rest)

-- The block of a new entry.
unfoldable pub grub_block : String → String → List String
unfolding grub_menu_title
grub_block path id =
    concat "menuentry \"" (concat (grub_menu_title path) (concat "\" --id " (concat id " {")))
    ∷ concat "\tlinux " (concat path " ${kernel_opts}")
    ∷ "}"
    ∷ ""
    ∷ []

-- A new entry comes before the first one, behind a blank line.
unfoldable pub with_entry : String → String → List String → List String
unfolding grub_block split_at_first ends_blank menu_title
with_entry path id lines =
    let (front, back) = split_at_first is_menu lines in
    front ++ (if ends_blank front then [] else "" ∷ []) ++ grub_block path id ++ back

abbrev default_line : String → String → String
default_line id line = if is_grub_default line then concat "set default=" id else line

-- Before the first line that passes, or at the start if none does.
abbrev before_menu : String → List String × List String → List String
before_menu line (front, []) = line ∷ front
before_menu line (front, back) = front ++ line ∷ back

-- Every default line is replaced, or one is added before the first entry.
unfoldable pub with_default : String → List String → List String
unfolding grub_default_value split_at_first menu_title
with_default id lines =
    if any is_grub_default lines
    then map (default_line id) lines
    else before_menu (concat "set default=" id) (split_at_first is_menu lines)

abbrev before_default : List String × List String → List String
before_default (front, []) = front
before_default (front, back) = front ++ "set kernel_opts=\"\"" ∷ back

unfoldable pub with_kernel_opts : Bool → List String → List String
unfolding split_at_first grub_default_value
with_kernel_opts present lines =
    if present then lines else before_default (split_at_first is_grub_default lines)

-- setGrubDefault: the text that it writes
unfoldable pub set_grub_default : String → String → String
unfolding split parse_grub_entries entry_key with_entry with_default with_kernel_opts behind_set
    join_lines kernel_basename
set_grub_default path text =
    let lines = split 10 text in
    let id = kernel_basename path in
    let found = any (λ e. str_eq (entry_key e) id) (parse_grub_entries lines) in
    let added = if found then lines else with_entry path id lines in
    join_lines (with_kernel_opts (any is_kernel_opts added) (with_default id added))

unfoldable pub is_stale_entry : String → String → (String → Bool) → GrubEntry → Bool
unfolding entry_key equal_fold is_gone
is_stale_entry default flavor gone e =
    not (equal_fold (entry_key e) default) && is_gone flavor gone e.linux

abbrev blank_at : ℕ → List String → Bool
blank_at n [] = false
blank_at zero (line ∷ lines) = is_blank_line line
blank_at (suc n) (line ∷ lines) = blank_at n lines

-- The line belongs to the entry, with one blank line behind it.
abbrev covers_line : List String → ℕ → GrubEntry → Bool
covers_line lines i e =
    leb e.start i && (leb i e.end || (i == suc e.end && blank_at (suc e.end) lines))

unfoldable pub lines_without : (ℕ → Bool) → ℕ → List String → List String
lines_without drop i [] = []
lines_without drop i (line ∷ lines) =
    let rest = lines_without drop (i + 1) lines in if drop i then rest else line ∷ rest

-- pruneGrubEntries: the configuration that it gives
unfoldable pub prune_grub_entries : String → String → String → (String → Bool) → String
unfolding split parse_grub_entries is_stale_entry lines_without is_blank_line join_lines
prune_grub_entries text default flavor gone =
    let lines = split 10 text in
    join_lines (
      lines_without
        (λ i.
          any (λ e. is_stale_entry default flavor gone e && covers_line lines i e)
            (parse_grub_entries lines))
        0 lines)

abbrev old_menu : String
old_menu =
    "set timeout=3\nset default=0\n\nmenuentry \"One\" --id simplek8s.1.x86-64 {\n\tlinux /simplek8s/simplek8s.1.x86-64.efi\n}\n"

abbrev new_menu : String
new_menu =
    "set timeout=3\nset kernel_opts=\"\"\nset default=simplek8s.2.x86-64\n\nmenuentry \"SimpleK8s 2 x86-64\" --id simplek8s.2.x86-64 {\n\tlinux /simplek8s/simplek8s.2.x86-64.efi ${kernel_opts}\n}\n\nmenuentry \"One\" --id simplek8s.1.x86-64 {\n\tlinux /simplek8s/simplek8s.1.x86-64.efi\n}\n"

numbered : grub_default old_menu ≡ "/simplek8s/simplek8s.1.x86-64.efi"
unfolding grub_default
numbered = refl

re_points : set_grub_default "/simplek8s/simplek8s.2.x86-64.efi" old_menu ≡ new_menu
unfolding set_grub_default
re_points = refl

reads : grub_default new_menu ≡ "/simplek8s/simplek8s.2.x86-64.efi"
unfolding grub_default
reads = refl

-- An entry without an id is found by its kernel, and gets no id: the default does not name it.
abbrev plain_menu : String
plain_menu = "menuentry 'One' {\n linux /simplek8s/simplek8s.1.x86-64.efi\n}"

plain_default : grub_default (set_grub_default "/simplek8s/simplek8s.1.x86-64.efi" plain_menu) ≡ ""
unfolding grub_default set_grub_default
plain_default = refl

prunes :
    prune_grub_entries new_menu "simplek8s.2.x86-64" "x86-64" (λ base. true)
    ≡ "set timeout=3\nset kernel_opts=\"\"\nset default=simplek8s.2.x86-64\n\nmenuentry \"SimpleK8s 2 x86-64\" --id simplek8s.2.x86-64 {\n\tlinux /simplek8s/simplek8s.2.x86-64.efi ${kernel_opts}\n}\n"
unfolding prune_grub_entries parse_stored_kernel
prunes = refl
