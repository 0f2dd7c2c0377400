-- ===== src/Updatecore/Bootloader/RoundTrip.antt =====
-- config.txt: the default that is written and read back.
use Prim.Native.Char.{Char, code}
use Prim.Native.String.{◌++◌ as concat}
use mathlib.Core.Bool.{true≢false}
use simplek8s_controller.Prelude.{
  ℕ, ◌+◌, ◌<◌, ◌≡◌, refl, sym, ◌∙◌, ap, subst, Bool, true, false, ◌&&◌, ◌||◌, String, str_eq, none,
  some, is_some, List, [], ◌∷◌, map, any, all, leb, ◌==◌, arith, Bool-cases, Option-cases, inl, inr,
  if◌then◌else◌,
}
use simplek8s_controller.Stdlib.Strconv.{has_char, span}
use simplek8s_controller.Updatecore.Index.{trim_cr, line_length}
use simplek8s_controller.Updatecore.Bootloader.Text.{same_fold, cut_fold, scan, scanned, max_token}
use simplek8s_controller.Updatecore.Bootloader.Rpi.{
  is_kernel_line, rpi_line, set_rpi_default, is_path_char, whole_path, path_behind, path_or,
  kernel_path_of, first_path, rpi_default,
}
use simplek8s_controller.Updatecore.Bootloader.Lines.{
  is_line, and-left, and-right, trim_cr-id, split-write_lines, scanned-lines, scan-is_line,
  has_char-concat, line_length-concat, cut_fold-concat,
}

-- A text of the characters of a path.
unfoldable pub is_path : String → Bool
is_path String.[] = true
is_path (String.◌∷◌ c s) = is_path_char c && is_path s

cut_fold-trim_cr :
    (p s : String) → is_some (cut_fold p s) ≡ false → is_some (cut_fold p (trim_cr s)) ≡ false
unfolding trim_cr cut_fold
cut_fold-trim_cr String.[] s h = absurd (ground (arith, h))
cut_fold-trim_cr (String.◌∷◌ p ps) String.[] h = refl
cut_fold-trim_cr (String.◌∷◌ p ps) (String.◌∷◌ c String.[]) h = elim (Bool-cases (code c == 13)) [
  | inl cr ↦ rw cr refl
  | inr other ↦ rw other h
]
cut_fold-trim_cr (String.◌∷◌ p ps) (String.◌∷◌ c (String.◌∷◌ d s)) h =
    elim (Bool-cases (same_fold p c)) [
      | inl same ↦ rw same (
          cut_fold-trim_cr ps (String.◌∷◌ d s) (
            subst (λ b. is_some (if b then cut_fold ps (String.◌∷◌ d s) else none) ≡ false) same h))
      | inr other ↦ rw other refl
    ]

-- A character outside the class of a path.
abbrev path_code : ℕ → Bool
path_code n =
    (leb b'A' n && leb n b'Z')
    || (leb b'a' n && leb n b'z')
    || (leb b'0' n && leb n b'9')
    || n == b'_'
    || n == b'-'
    || n == b'.'
    || n == 0x212a
    || n == 0x17f
    || n == b'/'

path_code-other :
    (x : ℕ) (c : Char) → path_code x ≡ false → path_code (code c) ≡ true → (code c == x) ≡ false
path_code-other x c outside inside = elim (Bool-cases (code c == x)) [
  | inr other ↦ other
  | inl same ↦
      let e : code c ≡ x = ground (arith, same) in
      absurd (true≢false (sym (subst (λ n. path_code n ≡ true) e inside) ∙ outside))
]

-- A path has no character outside the class.
is_path-has_char :
    (x : ℕ) (s : String) → path_code x ≡ false → is_path s ≡ true → has_char x s ≡ false
unfolding is_path has_char
is_path-has_char x String.[] outside h = refl
is_path-has_char x (String.◌∷◌ c s) outside h =
    rw (path_code-other x c outside (and-left (is_path_char c) (is_path s) h))
      (is_path-has_char x s outside (and-right (is_path_char c) (is_path s) h))

is_path-span : (s : String) → is_path s ≡ true → span is_path_char s ≡ (s, "")
unfolding is_path span
is_path-span String.[] h = refl
is_path-span (String.◌∷◌ c s) h =
    rw
      (
        and-left (is_path_char c) (is_path s) h,
        is_path-span s (and-right (is_path_char c) (is_path s) h),
      )
      refl

module _ (path : String) (proper : is_path path ≡ true) (there : str_eq path "" ≡ false)
    (short : line_length path + 7 < max_token) where
  written-is_line : is_line (concat "kernel=" path) ≡ true
  written-is_line =
      let length : line_length (concat "kernel=" path) ≡ 7 + line_length path =
        line_length-concat "kernel=" path ∙ (unfold line_length in refl) in
      let feeds : has_char 10 (concat "kernel=" path) ≡ has_char 10 path =
        has_char-concat 10 "kernel=" path ∙ (unfold has_char in refl) in
      ground (arith, short, length, feeds, is_path-has_char 10 path refl proper)

  written-trim_cr : trim_cr (concat "kernel=" path) ≡ concat "kernel=" path
  written-trim_cr = trim_cr-id (concat "kernel=" path) (
      has_char-concat 13 "kernel=" path ∙ (unfold has_char in is_path-has_char 13 path refl proper))

  written-path : kernel_path_of (concat "kernel=" path) ≡ some path
  unfolding kernel_path_of
  written-path =
      ap path_behind (cut_fold-concat "kernel=" path)
      ∙ ap whole_path (is_path-span path proper)
      ∙ rw there refl

  rpi_lines-is_line :
      (ls : List String) → all is_line ls ≡ true → all is_line (map (rpi_line path) ls) ≡ true
  rpi_lines-is_line [] h = refl
  rpi_lines-is_line (l ∷ ls) h =
      let rest = rpi_lines-is_line ls (and-right (is_line l) (all is_line ls) h) in
      elim (Bool-cases (is_kernel_line l)) [
        | inl kernel ↦ rw (kernel, written-is_line) rest
        | inr other ↦ rw (other, and-left (is_line l) (all is_line ls) h) rest
      ]

  other-path : (l : String) → is_kernel_line l ≡ false → kernel_path_of (trim_cr l) ≡ none
  unfolding is_kernel_line kernel_path_of
  other-path l other = elim (Option-cases (cut_fold "kernel=" (trim_cr l))) [
    | inl none_there ↦ ap path_behind none_there
    | inr (rest, found) ↦
        absurd (true≢false (sym (ap is_some found) ∙ cut_fold-trim_cr "kernel=" l other))
  ]

  first_path-written :
      (ls : List String)
      → any is_kernel_line ls ≡ true
      → first_path (map trim_cr (map (rpi_line path) ls)) ≡ path
  unfolding first_path
  first_path-written [] h = absurd (ground (arith, h))
  first_path-written (l ∷ ls) h =
      let rest = map trim_cr (map (rpi_line path) ls) in
      elim (Bool-cases (is_kernel_line l)) [
        | inl kernel ↦
            ap (λ b. first_path (trim_cr (if b then concat "kernel=" path else l) ∷ rest)) kernel
            ∙ ap (λ m. first_path (m ∷ rest)) written-trim_cr
            ∙ ap (λ o. path_or o (first_path rest)) written-path
        | inr other ↦
            ap (λ b. first_path (trim_cr (if b then concat "kernel=" path else l) ∷ rest)) other
            ∙ ap (λ o. path_or o (first_path rest)) (other-path l other)
            ∙ first_path-written ls (ground (arith, h, other))
      ]

  -- config.txt: once the kernel is set, it is read back as the default, if the path consists of the
  -- characters of a path and fits a line, and some line of the text that the scanner gives sets a kernel.
  pub rpi_default-set_rpi_default :
      (text : String)
      → any is_kernel_line (scan text).0 ≡ true
      → rpi_default (set_rpi_default path text) ≡ path
  unfolding rpi_default set_rpi_default scan
  rpi_default-set_rpi_default text h =
      let ms = map (rpi_line path) (scan text).0 in
      let lines : all is_line ms ≡ true = rpi_lines-is_line (scan text).0 (scan-is_line text) in
      ap (λ ls. first_path (scanned ls).0) (split-write_lines ms lines)
      ∙ ap (λ r. first_path r.0) (scanned-lines ms lines)
      ∙ first_path-written (scan text).0 h
