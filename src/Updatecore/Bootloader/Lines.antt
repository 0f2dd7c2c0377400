-- ===== src/Updatecore/Bootloader/Lines.antt =====
-- The lines that a scanner reads from a text, and the text that is written of lines.
use Prim.Native.Char.{Char, code}
use Prim.Native.String.{◌++◌ as concat}
use Prim.Native.String.append.{nil, cons}
use simplek8s_controller.Prelude.{
  ℕ, ◌+◌, ◌≤◌, ◌≡◌, refl, ◌∙◌, ap, Bool, true, false, not, ◌&&◌, ◌||◌, String, str_eq, some, List,
  [], ◌∷◌, ◌++◌, map, all, leb, ◌==◌, arith, Bool-cases, inl, inr,
}
use simplek8s_controller.Stdlib.Strconv.{has_char, split, onto_first}
use simplek8s_controller.Updatecore.Index.{trim_cr, line_length}
use simplek8s_controller.Updatecore.Bootloader.Text.{
  same_fold, cut_fold, scan, scanned, ended, write_lines, max_token,
}

-- A line that a scanner gives back, but for a carriage return at its end.
abbrev pub is_line : String → Bool
is_line s = not (has_char 10 s) && not (leb max_token (line_length s))

pub and-left : (a b : Bool) → (a && b) ≡ true → a ≡ true
and-left false b h = h
and-left true b h = refl

pub and-right : (a b : Bool) → (a && b) ≡ true → b ≡ true
and-right false b h = absurd (ground (arith, h))
and-right true b h = h

concat-cons : (c : Char) (s t : String) → concat (String.◌∷◌ c s) t ≡ String.◌∷◌ c (concat s t)
concat-cons c s t = λ i. cons c s t i

concat-nil : (t : String) → concat "" t ≡ t
concat-nil t = λ i. nil t i

split-line :
    (s t : String) → has_char 10 s ≡ false → split 10 (concat s (concat "\n" t)) ≡ s ∷ split 10 t
unfolding split has_char
split-line String.[] t h =
    ap (split 10)
      (concat-nil (concat "\n" t) ∙ concat-cons "\n" "" t ∙ ap (String.◌∷◌ "\n") (concat-nil t))
split-line (String.◌∷◌ c s) t h = elim (Bool-cases (code c == 10)) [
  | inl bad ↦ absurd (ground (arith, h, bad))
  | inr other ↦
      ap (split 10) (concat-cons c s (concat "\n" t))
      ∙ (rw (other, split-line s t (ground (arith, h, other))) refl)
]

trim_cr-length : (s : String) → line_length (trim_cr s) ≤ line_length s
unfolding trim_cr line_length
trim_cr-length String.[] = omega arith
trim_cr-length (String.◌∷◌ c String.[]) = elim (Bool-cases (code c == 13)) [
  | inl cr ↦ rw cr (omega arith)
  | inr other ↦ rw other (omega arith)
]
trim_cr-length (String.◌∷◌ c (String.◌∷◌ d s)) = omega (arith, trim_cr-length (String.◌∷◌ d s))

trim_cr-newline : (s : String) → has_char 10 s ≡ false → has_char 10 (trim_cr s) ≡ false
unfolding trim_cr has_char
trim_cr-newline String.[] h = h
trim_cr-newline (String.◌∷◌ c String.[]) h = elim (Bool-cases (code c == 13)) [
  | inl cr ↦ rw cr refl
  | inr other ↦ rw other h
]
trim_cr-newline (String.◌∷◌ c (String.◌∷◌ d s)) h =
    ground (arith, h, trim_cr-newline (String.◌∷◌ d s) (ground (arith, h)))

pub trim_cr-id : (s : String) → has_char 13 s ≡ false → trim_cr s ≡ s
unfolding trim_cr has_char
trim_cr-id String.[] h = refl
trim_cr-id (String.◌∷◌ c String.[]) h = elim (Bool-cases (code c == 13)) [
  | inl bad ↦ absurd (ground (arith, h, bad))
  | inr other ↦ rw other refl
]
trim_cr-id (String.◌∷◌ c (String.◌∷◌ d s)) h =
    ap (λ t. String.◌∷◌ c t) (trim_cr-id (String.◌∷◌ d s) (ground (arith, h)))

split-written :
    (ms : List String) → all is_line ms ≡ true → split 10 (write_lines ms) ≡ ms ++ "" ∷ []
unfolding write_lines split
split-written [] h = refl
split-written (m ∷ ms) h =
    split-line m (write_lines ms) (ground (arith, h))
    ∙ ap (λ ls. m ∷ ls) (split-written ms (ground (arith, h)))

ended-append : (ms : List String) → ended (ms ++ "" ∷ []) ≡ ms
unfolding ended
ended-append [] = refl
ended-append (m ∷ []) = refl
ended-append (m ∷ n ∷ ms) = ap (λ ls. m ∷ ls) (ended-append (n ∷ ms))

-- The written lines are read back.
pub split-write_lines :
    (ms : List String) → all is_line ms ≡ true → ended (split 10 (write_lines ms)) ≡ ms
split-write_lines ms h = ap ended (split-written ms h) ∙ ended-append ms

pub scanned-lines : (ms : List String) → all is_line ms ≡ true → scanned ms ≡ (map trim_cr ms, true)
unfolding scanned
scanned-lines [] h = refl
scanned-lines (m ∷ ms) h = rw (scanned-lines ms (ground (arith, h))) (ground (arith, h))

-- The lines of a text are lines.
abbrev no_feed : String → Bool
no_feed s = not (has_char 10 s)

onto_first-no_feed :
    (c : Char) (ts : List String)
    → (code c == 10) ≡ false
    → all no_feed ts ≡ true
    → all no_feed (onto_first c ts) ≡ true
unfolding has_char
onto_first-no_feed c [] other h = rw other refl
onto_first-no_feed c (t ∷ ts) other h = rw other h

split-no_feed : (s : String) → all no_feed (split 10 s) ≡ true
unfolding split has_char
split-no_feed String.[] = refl
split-no_feed (String.◌∷◌ c s) = elim (Bool-cases (code c == 10)) [
  | inl feed ↦ rw feed (split-no_feed s)
  | inr other ↦ rw other (onto_first-no_feed c (split 10 s) other (split-no_feed s))
]

ended-no_feed : (ls : List String) → all no_feed ls ≡ true → all no_feed (ended ls) ≡ true
unfolding ended
ended-no_feed [] h = refl
ended-no_feed (l ∷ []) h = elim (Bool-cases (str_eq l "")) [
  | inl empty ↦ rw empty refl
  | inr other ↦ rw other h
]
ended-no_feed (l ∷ m ∷ ls) h =
    rw (and-left (no_feed l) (all no_feed (m ∷ ls)) h)
      (ended-no_feed (m ∷ ls) (and-right (no_feed l) (all no_feed (m ∷ ls)) h))

trim_cr-is_line :
    (l : String)
    → no_feed l ≡ true
    → leb max_token (line_length l) ≡ false
    → is_line (trim_cr l) ≡ true
trim_cr-is_line l h short =
    ground (arith, short, trim_cr-newline l (ground (arith, h)), trim_cr-length l)

scanned-is_line : (ls : List String) → all no_feed ls ≡ true → all is_line (scanned ls).0 ≡ true
unfolding scanned
scanned-is_line [] h = refl
scanned-is_line (l ∷ ls) h = elim (Bool-cases (leb max_token (line_length l))) [
  | inl long ↦ rw long refl
  | inr short ↦
      rw (short, trim_cr-is_line l (and-left (no_feed l) (all no_feed ls) h) short)
        (scanned-is_line ls (and-right (no_feed l) (all no_feed ls) h))
]

pub scan-is_line : (text : String) → all is_line (scan text).0 ≡ true
unfolding scan
scan-is_line text =
    scanned-is_line (ended (split 10 text)) (ended-no_feed (split 10 text) (split-no_feed text))

pub has_char-concat :
    (x : ℕ) (s t : String) → has_char x (concat s t) ≡ (has_char x s || has_char x t)
unfolding has_char
has_char-concat x String.[] t = ap (has_char x) (concat-nil t)
has_char-concat x (String.◌∷◌ c s) t =
    ap (has_char x) (concat-cons c s t) ∙ ground (arith, has_char-concat x s t)

pub line_length-concat : (s t : String) → line_length (concat s t) ≡ line_length s + line_length t
unfolding line_length
line_length-concat String.[] t = ap line_length (concat-nil t) ∙ omega arith
line_length-concat (String.◌∷◌ c s) t =
    ap line_length (concat-cons c s t) ∙ omega (arith, line_length-concat s t)

pub cut_fold-concat : (p s : String) → cut_fold p (concat p s) ≡ some s
unfolding cut_fold
cut_fold-concat String.[] s = ap some (concat-nil s)
cut_fold-concat (String.◌∷◌ p ps) s =
    ap (cut_fold (String.◌∷◌ p ps)) (concat-cons p ps s)
    ∙ (let same : same_fold p p ≡ true = ground arith in rw same (cut_fold-concat ps s))
