-- ===== src/Nodestate/RoundTrip.antt =====
-- What is written is read back: `Parse` after `StateValue`, `RequestValue`, `ExecValue` and
-- `StatusValue`. Times come back in whole seconds.
use simplek8s_controller.Prelude.{
  ◌≡◌, refl, inl, inr, Bool, true, false, not, ◌&&◌, Option, none, some, is_some, List, [], ◌∷◌,
  Bool-cases, ap, eq_iff,
}
use simplek8s_controller.Stdlib.Text.{Text, lit, stamp, Time, whole, empty, is_empty, format_time}
use simplek8s_controller.Stdlib.Json.{ℤ, items_of, strings-items_of}
use simplek8s_controller.Nodestate.State.{
  State, requested, draining, rebooting, completed, failed, unknown, StateInfo, StatusInfo,
  parse_state, parse_request, parse_exec, parse_status, map_option,
}
use simplek8s_controller.Nodestate.Values.{
  state_value, request_value, exec_value, status_value, fresh_status,
}

-- One of the five constants.
abbrev pub IsKnown : State → Type 0
IsKnown (unknown _) = ⊥
IsKnown _ = Unit

-- The view of a state that was written at `t`.
abbrev pub written_state : State → Time → StateInfo
written_state s t = record {
  present = true;
  state = s;
  since = some (whole t);
  raw = state_value s t;
  parse_error = none;
}

-- Each of the five states, written with any time, is read back with that time in whole seconds.
pub parse_state-state_value :
    (s : State) (t : Time) → IsKnown s → parse_state (state_value s t) ≡ written_state s t
unfolding parse_state state_value format_time
parse_state-state_value requested t k = refl
parse_state-state_value draining t k = refl
parse_state-state_value rebooting t k = refl
parse_state-state_value completed t k = refl
parse_state-state_value failed t k = refl
parse_state-state_value (unknown s) t k = absurd k

is_empty-eq : (t : Text) → is_empty t ≡ true → t ≡ empty
unfolding is_empty
is_empty-eq (lit s) h = ap lit ((eq_iff s "").0 h)
is_empty-eq (stamp n) h = cc

-- Every request that is written is read back as it was, an empty `by` included.
pub parse_request-request_value :
    (id by : Text) (force : Bool)
    → parse_request (request_value id by force)
      ≡ record { present = true; id = id; by = by; force = force; parse_error = none }
unfolding parse_request request_value is_empty
parse_request-request_value id by force = elim (Bool-cases (is_empty by)) [
  | inl blank ↦ rw (is_empty-eq by blank)
  | inr named ↦ rw named
]

-- Every exec record with an issue time is read back as it was written, its times in whole seconds.
pub parse_exec-exec_value :
    (t : Time) (boot uid : Text) (attempt : ℤ) (confirmed : Option Time)
    → parse_exec (
        exec_value (record {
          present = true;
          issued_at = some t;
          boot_id = boot;
          attempt = attempt;
          executor_pod_uid = uid;
          confirmed_at = confirmed;
          parse_error = none;
        }))
      ≡ record {
        present = true;
        issued_at = some (whole t);
        boot_id = boot;
        attempt = attempt;
        executor_pod_uid = uid;
        confirmed_at = map_option whole confirmed;
        parse_error = none;
      }
unfolding parse_exec exec_value format_time
parse_exec-exec_value t boot uid attempt none = refl
parse_exec-exec_value t boot uid attempt (some c) = refl

-- An empty list is written as no list.
abbrev pub drop_empty : Option (List Text) → Option (List Text)
drop_empty none = none
drop_empty (some []) = none
drop_empty (some (t ∷ ts)) = some (t ∷ ts)

-- Nothing is left to write: the annotation is deleted.
abbrev pub nothing_left : StatusInfo → Bool
nothing_left s = not (is_some s.blocked_by) && is_empty s.error && not (is_some s.cordoned_prev)

-- The view of a status that was written.
abbrev pub written_status : StatusInfo → StatusInfo
written_status s = record {
  present = not (nothing_left s);
  parse_error = none;
  blocked_by = drop_empty s.blocked_by;
  error = s.error;
  cordoned_prev = s.cordoned_prev;
}

abbrev status_of : Option (List Text) → Text → Option Bool → StatusInfo
status_of blocked error cordoned = record {
  present = true;
  parse_error = none;
  blocked_by = blocked;
  error = error;
  cordoned_prev = cordoned;
}

blank_error :
    (blocked : Option (List Text)) (cordoned : Option Bool)
    → fresh_status (status_value (status_of blocked empty cordoned))
      ≡ written_status (status_of blocked empty cordoned)
unfolding fresh_status status_value parse_status items_of is_empty
blank_error none none = refl
blank_error none (some b) = refl
blank_error (some []) none = refl
blank_error (some []) (some b) = refl
blank_error (some (t ∷ ts)) none = rw (strings-items_of ts)
blank_error (some (t ∷ ts)) (some b) = rw (strings-items_of ts)

some_error :
    (blocked : Option (List Text)) (error : Text) (cordoned : Option Bool)
    → is_empty error ≡ false
    → fresh_status (status_value (status_of blocked error cordoned))
      ≡ written_status (status_of blocked error cordoned)
unfolding fresh_status status_value parse_status items_of
some_error none error none h = rw h
some_error none error (some b) h = rw h
some_error (some []) error none h = rw h
some_error (some []) error (some b) h = rw h
some_error (some (t ∷ ts)) error none h = rw (h, strings-items_of ts)
some_error (some (t ∷ ts)) error (some b) h = rw (h, strings-items_of ts)

status_parts :
    (blocked : Option (List Text)) (error : Text) (cordoned : Option Bool)
    → fresh_status (status_value (status_of blocked error cordoned))
      ≡ written_status (status_of blocked error cordoned)
status_parts blocked error cordoned = elim (Bool-cases (is_empty error)) [
  | inl blank ↦ rw (is_empty-eq error blank) (blank_error blocked cordoned)
  | inr kept ↦ some_error blocked error cordoned kept
]

-- Every status that is written is read back with the same fields, an empty list of budgets as none;
-- one with nothing in it is written as the empty text, and read back as absent.
pub fresh_status-status_value : (s : StatusInfo) → fresh_status (status_value s) ≡ written_status s
unfolding status_value
fresh_status-status_value s = status_parts s.blocked_by s.error s.cordoned_prev
