-- ===== src/Nodestate/State.antt =====
-- internal/nodestate/state.go: the annotation keys, the parsed views, and `Parse`.
use simplek8s_controller.Prelude.{
  Bool, true, false, not, ◌&&◌, ◌||◌, String, Option, none, some, is_some, List, Dict, lookup,
  str_eq, if◌then◌else◌,
}
use simplek8s_controller.Stdlib.Text.{Text, lit, stamp, Time, empty, is_empty, parse_time}
use simplek8s_controller.Stdlib.Json.{
  Raw, ℤ, pos, object, get, as_string, as_string_ptr, as_bool, as_bool_ptr, as_int, as_strings,
}

abbrev pub ann_state : String
ann_state = "simplek8s.org/reboot-state"

abbrev pub ann_request : String
ann_request = "simplek8s.org/reboot-request"

abbrev pub ann_exec : String
ann_exec = "simplek8s.org/reboot-exec"

abbrev pub ann_status : String
ann_status = "simplek8s.org/reboot-status"

-- `type State string`: the five constants, or any other text.
pub data State : Type 0 where
  requested draining rebooting completed failed : State
  unknown : Text → State

-- State(s)
unfoldable pub state_of : Text → State
state_of (stamp n) = unknown (stamp n)
state_of (lit s) =
    if str_eq s "requested"
    then requested
    else if str_eq s "draining"
    then draining
    else if str_eq s "rebooting"
    then rebooting
    else if str_eq s "completed"
    then completed
    else if str_eq s "failed"
    then failed
    else unknown (lit s)

-- string(state)
unfoldable pub state_text : State → Text
state_text requested = lit "requested"
state_text draining = lit "draining"
state_text rebooting = lit "rebooting"
state_text completed = lit "completed"
state_text failed = lit "failed"
state_text (unknown t) = t

-- The texts of the `ParseError` fields. An absent one, "" in the source, is `none`.
pub data ParseError : Type 0 where
  unparseable_state : Raw → ParseError
  bad_since : Text → ParseError
  unparseable_request unparseable_exec bad_issued_at unparseable_status : ParseError

-- `since` is `none` for the zero time.
pub record StateInfo : Type 0 where
  pub present : Bool
  pub state : State
  pub since : Option Time
  pub raw : Raw
  pub parse_error : Option ParseError

pub record RequestInfo : Type 0 where
  pub present : Bool
  pub id : Text
  pub by : Text
  pub force : Bool
  pub parse_error : Option ParseError

pub record ExecInfo : Type 0 where
  pub present : Bool
  pub issued_at : Option Time
  pub boot_id : Text
  pub attempt : ℤ
  pub executor_pod_uid : Text
  pub confirmed_at : Option Time
  pub parse_error : Option ParseError

pub record StatusInfo : Type 0 where
  pub present : Bool
  pub parse_error : Option ParseError
  pub blocked_by : Option (List Text)
  pub error : Text
  pub cordoned_prev : Option Bool

-- The four pointers.
pub record NodeState : Type 0 where
  pub state : Option StateInfo
  pub request : Option RequestInfo
  pub exec : Option ExecInfo
  pub status : Option StatusInfo

unfoldable pub in_lifecycle : NodeState → Bool
in_lifecycle s = elim s.state [ none ↦ false | some st ↦ st.present ]

unfoldable pub is_in_flight : State → Bool
is_in_flight draining = true
is_in_flight rebooting = true
is_in_flight _ = false

unfoldable pub in_flight : NodeState → Bool
unfolding is_in_flight
in_flight s = elim s.state [
  | none ↦ false
  | some st ↦ if is_some st.parse_error then true else is_in_flight st.state
]

-- The `since` that is kept though the annotation does not parse.
unfoldable pub salvaged_since : Text → Option Time
salvaged_since since = if is_empty since then none else parse_time since

unfoldable pub parse_state : Raw → StateInfo
unfolding object get as_string is_empty parse_time state_of salvaged_since
parse_state raw =
    let (fs, is_object) = object raw in
    let (state, state_fits) = as_string (get "state" fs) in
    let (since, since_fits) = as_string (get "since" fs) in
    if not (is_object && state_fits && since_fits) || is_empty state || is_empty since
    then record {
      present = true;
      state = unknown empty;
      since = salvaged_since since;
      raw = raw;
      parse_error = some (unparseable_state raw);
    }
    else record {
      present = true;
      state = state_of state;
      since = parse_time since;
      raw = raw;
      parse_error = if is_some (parse_time since) then none else some (bad_since since);
    }

unfoldable pub parse_request : Raw → RequestInfo
unfolding object get as_string as_bool
parse_request raw =
    let (fs, is_object) = object raw in
    let (id, id_fits) = as_string (get "id" fs) in
    let (by, by_fits) = as_string (get "by" fs) in
    let (force, force_fits) = as_bool (get "force" fs) in
    if is_object && id_fits && by_fits && force_fits
    then record { present = true; id = id; by = by; force = force; parse_error = none }
    else record {
      present = true;
      id = empty;
      by = empty;
      force = false;
      parse_error = some unparseable_request;
    }

-- An `ExecInfo` of which nothing but the error is set.
abbrev pub corrupt_exec : ParseError → ExecInfo
corrupt_exec e = record {
  present = true;
  issued_at = none;
  boot_id = empty;
  attempt = pos 0;
  executor_pod_uid = empty;
  confirmed_at = none;
  parse_error = some e;
}

-- A `confirmedAt` that is absent, or no time, leaves the pointer nil.
unfoldable pub parse_confirmed : Option Text → Option Time
parse_confirmed none = none
parse_confirmed (some t) = parse_time t

unfoldable pub parse_exec : Raw → ExecInfo
unfolding object get as_string as_int as_string_ptr is_empty parse_time parse_confirmed
parse_exec raw =
    let (fs, is_object) = object raw in
    let (issued, issued_fits) = as_string (get "issuedAt" fs) in
    let (boot, boot_fits) = as_string (get "bootId" fs) in
    let (attempt, attempt_fits) = as_int (get "attempt" fs) in
    let (uid, uid_fits) = as_string (get "executorPodUID" fs) in
    let (confirmed, confirmed_fits) = as_string_ptr (get "confirmedAt" fs) in
    if not (is_object && issued_fits && boot_fits && attempt_fits && uid_fits && confirmed_fits)
      || is_empty issued
    then corrupt_exec unparseable_exec
    else if is_some (parse_time issued)
    then record {
      present = true;
      issued_at = parse_time issued;
      boot_id = boot;
      attempt = attempt;
      executor_pod_uid = uid;
      confirmed_at = parse_confirmed confirmed;
      parse_error = none;
    }
    else corrupt_exec bad_issued_at

-- The struct of `reboot-status`; the fields are absent if it does not parse.
unfoldable pub parse_status : Raw → StatusInfo
unfolding object get as_strings as_string as_bool_ptr
parse_status raw =
    let (fs, is_object) = object raw in
    let (blocked, blocked_fits) = as_strings (get "blockedBy" fs) in
    let (error, error_fits) = as_string (get "error" fs) in
    let (cordoned, cordoned_fits) = as_bool_ptr (get "cordonedPrev" fs) in
    if is_object && blocked_fits && error_fits && cordoned_fits
    then record {
      present = true;
      parse_error = none;
      blocked_by = blocked;
      error = error;
      cordoned_prev = cordoned;
    }
    else record {
      present = true;
      parse_error = some unparseable_status;
      blocked_by = none;
      error = empty;
      cordoned_prev = none;
    }

abbrev pub map_option {ℓ κ} : {A : Type ℓ} {B : Type κ} → (A → B) → Option A → Option B
map_option f none = none
map_option f (some a) = some (f a)

unfoldable pub parse : Dict Raw → NodeState
parse annotations = record {
  state = map_option parse_state (lookup ann_state annotations);
  request = map_option parse_request (lookup ann_request annotations);
  exec = map_option parse_exec (lookup ann_exec annotations);
  status = map_option parse_status (lookup ann_status annotations);
}
