-- ===== src/Examples/Records.antt =====
-- The annotations and the conditional patch.
use simplek8s_controller.Prelude.{◌≡◌, refl, ◌↔◌, true, false, none, some, [], ◌∷◌, lookup}
use simplek8s_controller.Stdlib.Text.{lit, format_time, whole}
use simplek8s_controller.Stdlib.Json.{pos, text, raw_eq}
use simplek8s_controller.Kube.Types.{Node}
use simplek8s_controller.Kube.Server.{merge_patch}
use simplek8s_controller.Nodestate.State.{
  requested, draining, completed, failed, StatusInfo, parse, parse_state, parse_request, parse_exec,
}
use simplek8s_controller.Nodestate.Values.{
  state_value, request_value, exec_value, status_value, fresh_status,
}
use simplek8s_controller.Nodestate.Patch.{
  admission_patch, to_draining_patch, to_failed_patch, clear_patch, status_raw, drop_blocked,
  set_error,
}
use simplek8s_controller.Nodestate.RoundTrip.{
  written_state, written_status, parse_state-state_value, parse_request-request_value,
  parse_exec-exec_value, fresh_status-status_value,
}
use simplek8s_controller.Nodestate.Effects.{
  status_after, current_status, parse-admission_patch, parse-to_draining_patch,
  parse-to_failed_patch, parse-clear_patch,
}
use simplek8s_controller.Nodestate.Update.{
  update_last_check_patch, covers, ann_update_last_check, enqueue_controller_build, rearm_build,
  ann_next_kernel, state_present, parse_update, is_version,
}
use simplek8s_controller.Nodestate.Guards.{
  IsCompleted, IsEnqueueable, enqueue_controller_build_iff, rearm_build_iff, claim-covers_iff,
}
use simplek8s_controller.Nodestate.Transition.{patch_transition}
use simplek8s_controller.Nodestate.Transition.Atomic.{Promise, patch_transition-Promise}
use simplek8s_controller.Examples.Cluster.{
  node_of, server_of, server_of-IsVersioned, quiet_round, to_rebooting_build,
  to_rebooting_build-IsConditional,
}

patch_transition-Promise_example :
    Promise
      (λ i. quiet_round)
      0
      to_rebooting_build
      "w1"
      (server_of draining)
      (patch_transition 3 to_rebooting_build (λ i. quiet_round) "w1" (server_of draining))
patch_transition-Promise_example =
    patch_transition-Promise to_rebooting_build "w1" 3 (λ i. quiet_round) (server_of draining)
      to_rebooting_build-IsConditional (server_of-IsVersioned draining)

parse_state-state_value_example :
    parse_state (state_value draining 1500000000) ≡ written_state draining 1500000000
parse_state-state_value_example = parse_state-state_value draining 1500000000 tt

parse_request-request_value_example :
    parse_request (request_value (lit "r1") (lit "admin") true)
    ≡ record { present = true; id = lit "r1"; by = lit "admin"; force = true; parse_error = none }
parse_request-request_value_example = parse_request-request_value (lit "r1") (lit "admin") true

parse_exec-exec_value_example :
    parse_exec (
      exec_value (record {
        present = true;
        issued_at = some 2500000000;
        boot_id = lit "b1";
        attempt = pos 1;
        executor_pod_uid = lit "u1";
        confirmed_at = none;
        parse_error = none;
      }))
    ≡ record {
      present = true;
      issued_at = some 2000000000;
      boot_id = lit "b1";
      attempt = pos 1;
      executor_pod_uid = lit "u1";
      confirmed_at = none;
      parse_error = none;
    }
parse_exec-exec_value_example = parse_exec-exec_value 2500000000 (lit "b1") (lit "u1") (pos 1) none

abbrev blocked_status : StatusInfo
blocked_status = record {
  present = false;
  parse_error = none;
  blocked_by = some (lit "default/web" ∷ []);
  error = lit "";
  cordoned_prev = some false;
}

fresh_status-status_value_example :
    fresh_status (status_value blocked_status) ≡ written_status blocked_status
fresh_status-status_value_example = fresh_status-status_value blocked_status

parse-admission_patch_example :
    parse
      (merge_patch
        (node_of completed)
        (admission_patch 3 7000000000 (lit "r2") (lit "admin") false)).annotations
    ≡ record {
      state = some (written_state requested 7000000000);
      request = some (record {
        present = true;
        id = lit "r2";
        by = lit "admin";
        force = false;
        parse_error = none;
      });
      exec = none;
      status = none;
    }
parse-admission_patch_example =
    parse-admission_patch (node_of completed) 3 7000000000 (lit "r2") (lit "admin") false

parse-to_draining_patch_example :
    let n = node_of requested in
    let m = merge_patch n (to_draining_patch 3 7000000000 (status_raw n.annotations) false) in
    (parse m.annotations ≡ record (parse n.annotations) {
      state = some (written_state draining 7000000000);
      status = status_after (drop_blocked false (current_status n));
    })
    × (m.unschedulable ≡ true)
parse-to_draining_patch_example = parse-to_draining_patch (node_of requested) 3 7000000000 false

parse-to_failed_patch_example :
    let n = node_of draining in
    let m =
      merge_patch n
        (to_failed_patch 3 7000000000 (status_raw n.annotations) (lit "drain timed out")) in
    (parse m.annotations ≡ record (parse n.annotations) {
      state = some (written_state failed 7000000000);
      status = status_after (set_error (lit "drain timed out") (current_status n));
    })
    × (m.unschedulable ≡ false)
parse-to_failed_patch_example =
    parse-to_failed_patch (node_of draining) 3 7000000000 (lit "drain timed out")

parse-clear_patch_example :
    let m = merge_patch (node_of failed) (clear_patch 3 true) in
    (parse m.annotations ≡ record { state = none; request = none; exec = none; status = none })
    × (m.unschedulable ≡ false)
parse-clear_patch_example = parse-clear_patch (node_of failed) 3 true

-- A node without a reboot state, with a goal that it does not run.
abbrev anchored : Node
anchored = record (node_of completed) {
  annotations = (ann_next_kernel, text (lit "202608291203")) ∷ [];
}

anchored_enqueues :
    enqueue_controller_build 7000000000 (lit "r2") "202608291203" "202601010000" anchored
    ≡ some (admission_patch 3 7000000000 (lit "r2") (lit "controller") false)
unfolding enqueue_controller_build state_present parse parse_update is_version raw_eq lookup
anchored_enqueues = refl

enqueue_controller_build_iff_example :
    (enqueue_controller_build 7000000000 (lit "r2") "202608291203" "202601010000" anchored
      ≡ some (admission_patch 3 7000000000 (lit "r2") (lit "controller") false))
    ↔ (IsEnqueueable "202608291203" "202601010000" anchored
        × (admission_patch 3 7000000000 (lit "r2") (lit "controller") false
            ≡ admission_patch 3 7000000000 (lit "r2") (lit "controller") false))
enqueue_controller_build_iff_example =
    enqueue_controller_build_iff 7000000000 (lit "r2") "202608291203" "202601010000" anchored
      (admission_patch 3 7000000000 (lit "r2") (lit "controller") false)

rearm_build_iff_example :
    (rearm_build (node_of completed) ≡ some (clear_patch 3 false))
    ↔ (IsCompleted (node_of completed) × (clear_patch 3 false ≡ clear_patch 3 false))
rearm_build_iff_example = rearm_build_iff (node_of completed) (clear_patch 3 false)

claim-covers_iff_example :
    (covers
        (lookup ann_update_last_check
          (merge_patch
            (node_of completed)
            (update_last_check_patch 3 (format_time 1500000000))).annotations)
        1500000000
      ≡ true)
    ↔ (whole 1500000000 ≡ 1500000000)
claim-covers_iff_example = claim-covers_iff (node_of completed) 3 1500000000
