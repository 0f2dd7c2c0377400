-- ===== src/Stdlib/Text.antt =====
-- Go strings that may hold a time, and the clock. A `time.Time` is the number of nanoseconds since
-- 1970 in UTC. A string is kept either as its characters or, where it is an RFC 3339 time in UTC
-- with no fraction (what `Format` prints), as the second that it names.
use simplek8s_controller.Prelude.{
  ℕ, ◌+◌, ◌*◌, ◌/◌, ◌≡◌, ◌↔◌, refl, Bool, false, true, String, Option, none, some, arith, str_eq,
  eq_iff, leb, ltb, ◌==◌,
}

pub data Text : Type 0 where
  lit : String → Text
  stamp : ℕ → Text

abbrev pub empty : Text
empty = lit ""

-- s == ""
unfoldable pub is_empty : Text → Bool
is_empty (lit s) = str_eq s ""
is_empty (stamp _) = false

-- a == b
unfoldable pub text_eq : Text → Text → Bool
text_eq (lit a) (lit b) = str_eq a b
text_eq (stamp a) (stamp b) = a == b
text_eq (lit a) (stamp b) = false
text_eq (stamp a) (lit b) = false

pub text_eq_iff : (a b : Text) → (text_eq a b ≡ true) ↔ (a ≡ b)
unfolding text_eq
text_eq_iff (lit a) (lit b) = ground (arith, eq_iff a b)
text_eq_iff (stamp a) (stamp b) = ground arith
text_eq_iff (lit a) (stamp b) = ground arith
text_eq_iff (stamp a) (lit b) = ground arith

pub text_eq_refl : (a : Text) → text_eq a a ≡ true
text_eq_refl a = (text_eq_iff a a).1 refl

-- A time in nanoseconds, and a `time.Duration` that is not negative.
abbrev pub Time : Type 0
Time = ℕ

abbrev pub second : ℕ
second = 1000000000

-- t.UTC().Format(time.RFC3339): a fraction of a second is dropped.
unfoldable pub format_time : Time → Text
format_time t = stamp (t / second)

-- time.Parse(time.RFC3339, s)
unfoldable pub parse_time : Text → Option Time
parse_time (lit _) = none
parse_time (stamp s) = some (s * second)

-- Whole seconds.
abbrev pub whole : Time → Time
whole t = t / second * second

pub parse_time-format_time : (t : Time) → parse_time (format_time t) ≡ some (whole t)
unfolding parse_time format_time
parse_time-format_time t = refl

-- now.Sub(t) < d, now.Sub(t) <= d and now.Sub(t) >= d, without a subtraction that stops at 0
abbrev pub sub_lt : Time → Time → ℕ → Bool
sub_lt now t d = ltb now (t + d)

abbrev pub sub_le : Time → Time → ℕ → Bool
sub_le now t d = leb now (t + d)

abbrev pub sub_ge : Time → Time → ℕ → Bool
sub_ge now t d = leb (t + d) now

-- now.After(t)
abbrev pub after : Time → Time → Bool
after now t = ltb t now
