-- ===== src/Nodestate/Values.antt =====
-- internal/nodestate/state.go: the values that are written, and the merge of `reboot-status`.
use simplek8s_controller.Prelude.{
  Bool, true, false, not, ◌&&◌, Option, none, some, is_some, List, [], ◌∷◌, if◌then◌else◌,
}
use simplek8s_controller.Stdlib.Text.{Text, lit, Time, empty, is_empty, format_time}
use simplek8s_controller.Stdlib.Json.{
  Raw, doc, Json, null, bool, num, str, arr, obj, Fields, end, field, items_of, omit_if, raw_empty,
  raw_is_empty,
}
use simplek8s_controller.Nodestate.State.{State, StatusInfo, ExecInfo, state_text, parse_status}

unfoldable pub state_value : State → Time → Raw
unfolding state_text
state_value state since =
    doc (obj (field "state" (str (state_text state)) (field "since" (str (format_time since)) end)))

-- "by" is left out where it is empty.
unfoldable pub request_value : Text → Text → Bool → Raw
unfolding omit_if
request_value id by force = doc (
    obj
      (field "id" (str id) (omit_if (is_empty by) "by" (str by) (field "force" (bool force) end))))

abbrev pub format_or_zero : Option Time → Text
format_or_zero none = lit "0001-01-01T00:00:00Z"
format_or_zero (some t) = format_time t

-- "confirmedAt" is left out where the pointer is nil.
abbrev pub confirmed_field : Option Time → Fields
confirmed_field none = end
confirmed_field (some t) = field "confirmedAt" (str (format_time t)) end

unfoldable pub exec_value : ExecInfo → Raw
exec_value e = doc (
    obj (
      field "issuedAt" (str (format_or_zero e.issued_at)) (
        field "bootId" (str e.boot_id) (
          field "attempt" (num e.attempt)
            (field "executorPodUID" (str e.executor_pod_uid) (confirmed_field e.confirmed_at))))))

-- `len(v) == 0` of a []string, which `omitempty` tests
unfoldable pub no_strings : Option (List Text) → Bool
no_strings none = true
no_strings (some []) = true
no_strings (some (t ∷ ts)) = false

abbrev pub strings_value : Option (List Text) → Json
strings_value none = null
strings_value (some ts) = arr (items_of ts)

abbrev pub bool_value : Option Bool → Json
bool_value none = null
bool_value (some b) = bool b

unfoldable pub status_value : StatusInfo → Raw
unfolding omit_if no_strings
status_value s =
    if not (is_some s.blocked_by) && is_empty s.error && not (is_some s.cordoned_prev)
    then raw_empty
    else doc (
        obj (
          omit_if (no_strings s.blocked_by) "blockedBy" (strings_value s.blocked_by) (
            omit_if (is_empty s.error) "error" (str s.error) (
              omit_if (not (is_some s.cordoned_prev)) "cordonedPrev" (bool_value s.cordoned_prev)
                end))))

-- A fresh `StatusInfo`, before the value is read.
abbrev pub absent_status : StatusInfo
absent_status = record {
  present = false;
  parse_error = none;
  blocked_by = none;
  error = empty;
  cordoned_prev = none;
}

-- The read half of `MergeStatus`.
unfoldable pub fresh_status : Raw → StatusInfo
unfolding raw_is_empty
fresh_status raw = if raw_is_empty raw then absent_status else parse_status raw

unfoldable pub merge_status : Raw → (StatusInfo → StatusInfo) → Raw
unfolding fresh_status
merge_status raw mutate = status_value (mutate (fresh_status raw))
