-- ===== src/Nodestate/Effects.antt =====
-- What each merge patch makes of the parsed annotations of the node that it is merged into.
use simplek8s_controller.Prelude.{
  ℕ, ◌≡◌, refl, inl, inr, ap, String, Bool, true, false, Option, none, some, [], ◌∷◌, Dict, lookup,
  lookup-insert, lookup-erase, str_eq, Bool-cases, if◌then◌else◌,
}
use simplek8s_controller.Stdlib.Text.{Text, Time}
use simplek8s_controller.Stdlib.Json.{Raw, raw_is_empty}
use simplek8s_controller.Kube.Types.{Node}
use simplek8s_controller.Kube.Server.{merge_value, merge_annotations, merge_patch}
use simplek8s_controller.Nodestate.State.{
  requested, draining, rebooting, completed, failed, StatusInfo, ExecInfo, parse_exec, parse_status,
  parse, map_option,
}
use simplek8s_controller.Nodestate.Values.{exec_value, status_value, fresh_status, merge_status}
use simplek8s_controller.Nodestate.Patch.{
  status_or_nil, status_raw, admission_patch, to_draining_patch, to_rebooting_patch,
  to_completed_patch, to_failed_patch, issued_exec_patch, clear_patch, status_patch, drop_blocked,
  set_error,
}
use simplek8s_controller.Nodestate.RoundTrip.{
  written_state, written_status, nothing_left, parse_state-state_value, parse_request-request_value,
  fresh_status-status_value,
}

-- What a patch leaves of the value of one key.
abbrev pub override : String → Dict (Option Raw) → Option Raw → Option Raw
override j [] old = old
override j ((k, v) ∷ patch) old = override j patch (if str_eq k j then v else old)

lookup-merge_value :
    (k j : String) (v : Option Raw) (m : Dict Raw)
    → lookup j (merge_value k v m) ≡ (if str_eq k j then v else lookup j m)
lookup-merge_value k j none m = lookup-erase k j m
lookup-merge_value k j (some v) m = lookup-insert k j v m

pub lookup-merge :
    (j : String) (p : Dict (Option Raw)) (m : Dict Raw)
    → lookup j (merge_annotations p m) ≡ override j p (lookup j m)
unfolding merge_annotations
lookup-merge j [] m = refl
lookup-merge j ((k, v) ∷ p) m =
    rw (lookup-merge j p (merge_value k v m), lookup-merge_value k j v m)

-- The status that is read after a write of `s`: none if nothing is left of it.
abbrev pub status_after : StatusInfo → Option StatusInfo
status_after s = if nothing_left s then none else some (written_status s)

raw_is_empty-status_value : (s : StatusInfo) → raw_is_empty (status_value s) ≡ nothing_left s
unfolding status_value raw_is_empty
raw_is_empty-status_value s = elim (Bool-cases (nothing_left s)) [
  | inl gone ↦ rw gone
  | inr left ↦ rw left
]

read_status :
    (s : StatusInfo) → map_option parse_status (status_or_nil (status_value s)) ≡ status_after s
unfolding status_or_nil
read_status s = elim (Bool-cases (nothing_left s)) [
  | inl gone ↦ rw (raw_is_empty-status_value s, gone)
  | inr left ↦
      rw (raw_is_empty-status_value s, left)
        (ap some (
          unfold fresh_status in
          rw (raw_is_empty-status_value s, left) at (fresh_status-status_value s)))
]

-- Admission: a fresh request at the given time, and no record of an earlier reboot.
pub parse-admission_patch :
    (n : Node) (rv : ℕ) (t : Time) (id by : Text) (force : Bool)
    → parse (merge_patch n (admission_patch rv t id by force)).annotations ≡ record {
      state = some (written_state requested t);
      request =
          some (record { present = true; id = id; by = by; force = force; parse_error = none });
      exec = none;
      status = none;
    }
unfolding parse merge_patch admission_patch
parse-admission_patch n rv t id by force =
    simp (lookup-merge, parse_request-request_value, parse_state-state_value requested t tt)

-- The status that the controllers merge their changes into.
abbrev pub current_status : Node → StatusInfo
current_status n = fresh_status (status_raw n.annotations)

-- Drain start: state, time, the cordon and the merged status change in one patch; the request and
-- the exec record stay.
pub parse-to_draining_patch :
    (n : Node) (rv : ℕ) (t : Time) (was_cordoned : Bool)
    → let m = merge_patch n (to_draining_patch rv t (status_raw n.annotations) was_cordoned) in
      (parse m.annotations ≡ record (parse n.annotations) {
        state = some (written_state draining t);
        status = status_after (drop_blocked was_cordoned (current_status n));
      })
      × (m.unschedulable ≡ true)
unfolding parse merge_patch to_draining_patch merge_status
parse-to_draining_patch n rv t was =
    (simp (lookup-merge, parse_state-state_value draining t tt, read_status), refl)

-- Failure: the state and the error change in one patch, the rest of the status stays.
pub parse-to_failed_patch :
    (n : Node) (rv : ℕ) (t : Time) (msg : Text)
    → let m = merge_patch n (to_failed_patch rv t (status_raw n.annotations) msg) in
      (parse m.annotations ≡ record (parse n.annotations) {
        state = some (written_state failed t);
        status = status_after (set_error msg (current_status n));
      })
      × (m.unschedulable ≡ n.unschedulable)
unfolding parse merge_patch to_failed_patch merge_status
parse-to_failed_patch n rv t msg =
    (simp (lookup-merge, parse_state-state_value failed t tt, read_status), refl)

pub parse-to_rebooting_patch :
    (n : Node) (rv : ℕ) (t : Time)
    → parse (merge_patch n (to_rebooting_patch rv t)).annotations
      ≡ record (parse n.annotations) { state = some (written_state rebooting t) }
unfolding parse merge_patch to_rebooting_patch
parse-to_rebooting_patch n rv t = simp (lookup-merge, parse_state-state_value rebooting t tt)

pub parse-to_completed_patch :
    (n : Node) (rv : ℕ) (t : Time)
    → parse (merge_patch n (to_completed_patch rv t)).annotations
      ≡ record (parse n.annotations) { state = some (written_state completed t) }
unfolding parse merge_patch to_completed_patch
parse-to_completed_patch n rv t = simp (lookup-merge, parse_state-state_value completed t tt)

pub parse-status_patch :
    (n : Node) (rv : ℕ) (mutate : StatusInfo → StatusInfo)
    → parse (merge_patch n (status_patch rv (status_raw n.annotations) mutate)).annotations
      ≡ record (parse n.annotations) { status = status_after (mutate (current_status n)) }
unfolding parse merge_patch status_patch merge_status
parse-status_patch n rv mutate = simp (lookup-merge, read_status)

pub parse-issued_exec_patch :
    (n : Node) (rv : ℕ) (e : ExecInfo)
    → parse (merge_patch n (issued_exec_patch rv e)).annotations
      ≡ record (parse n.annotations) { exec = some (parse_exec (exec_value e)) }
unfolding parse merge_patch issued_exec_patch
parse-issued_exec_patch n rv e = simp lookup-merge

-- All four annotations go, whatever they held; the cordon goes only on request.
pub parse-clear_patch :
    (n : Node) (rv : ℕ) (uncordon : Bool)
    → let m = merge_patch n (clear_patch rv uncordon) in
      (parse m.annotations ≡ record { state = none; request = none; exec = none; status = none })
      × (m.unschedulable ≡ (if uncordon then false else n.unschedulable))
unfolding parse merge_patch clear_patch
parse-clear_patch n rv true = (simp lookup-merge, refl)
parse-clear_patch n rv false = (simp lookup-merge, refl)
