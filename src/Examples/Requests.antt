-- ===== src/Examples/Requests.antt =====
-- Requests to the API.
use simplek8s_controller.Prelude.{◌*◌, ◌≡◌, refl, false, none, some, [], ◌∷◌, lookup}
use simplek8s_controller.Stdlib.Text.{lit, second, format_time}
use simplek8s_controller.Kube.Types.{ready, running}
use simplek8s_controller.Kube.Selector.{match_labels, label}
use simplek8s_controller.Kube.Server.{put_node, patch_node, writes}
use simplek8s_controller.Nodestate.State.{completed, failed, parse, parse_state}
use simplek8s_controller.Nodestate.Values.{state_value}
use simplek8s_controller.Nodestate.Patch.{admission_patch, clear_patch}
use simplek8s_controller.Nodestate.Transition.{patch_transition, attempts, attempt, on_build, send}
use simplek8s_controller.Api.{
  RebootRequest, ApiConfig, ApiRound, admit_request, read_node, check_node, request_node,
  request_build, controller_pod_running, pod_serves, re_requestable, delete_reboot, clear_attempts,
  clear_attempt, on_choice, clear_choice, send_clear, cordoned_prev_known_absent,
}
use simplek8s_controller.Api.Effects.{Granted, admit_request-Granted}
use simplek8s_controller.Api.Clear.{Cleared, delete_reboot-Cleared}
use simplek8s_controller.Examples.Cluster.{server_of, server_of-IsVersioned, quiet_round, pod}
use simplek8s_controller.Examples.Windows.{quarters}

abbrev config : ApiConfig
config = record {
  reboot_windows = quarters ∷ [];
  pod_namespace = "default";
  pod_selector = ("app", "web") ∷ [];
}

abbrev request : RebootRequest
request = record { force = false; requested_by = lit "admin" }

abbrev round : ApiRound
round = record {
  get_fault = none;
  pods = some (pod ∷ []);
  id = some (lit "r2");
  rounds = λ i. quiet_round;
}

granted : (admit_request config request round (1000 * second) "w1" (server_of completed)).0 ≡ none
unfolding admit_request read_node check_node request_node request_build controller_pod_running
    pod_serves re_requestable ready running match_labels label lookup parse parse_state state_value
    format_time patch_transition attempts attempt on_build send writes patch_node put_node
    admission_patch
granted = refl

admit_request-Granted_example :
    Granted config request round
      (1000 * second)
      "w1"
      (server_of completed)
      (admit_request config request round (1000 * second) "w1" (server_of completed)).1
admit_request-Granted_example =
    admit_request-Granted config request round (1000 * second) "w1" (server_of completed)
      (server_of-IsVersioned completed) granted

deleted : (delete_reboot (λ i. quiet_round) "w1" (server_of failed)).0 ≡ 204
unfolding delete_reboot clear_attempts clear_attempt on_choice clear_choice send_clear lookup parse
    parse_state state_value format_time writes patch_node put_node clear_patch
    cordoned_prev_known_absent
deleted = refl

delete_reboot-Cleared_example :
    Cleared
      (λ i. quiet_round)
      "w1"
      (server_of failed)
      (delete_reboot (λ i. quiet_round) "w1" (server_of failed)).1
delete_reboot-Cleared_example =
    delete_reboot-Cleared (λ i. quiet_round) "w1" (server_of failed) (server_of-IsVersioned failed)
      deleted
