-- ===== src/Examples/Drains.antt =====
-- The drain, the budgets and the executor.
use simplek8s_controller.Prelude.{
  ◌*◌, ◌≡◌, ◌↔◌, refl, true, false, none, some, [], ◌∷◌, All, lookup, map, keep_if,
}
use simplek8s_controller.Stdlib.Text.{lit, second, text_eq, format_time}
use simplek8s_controller.Stdlib.Json.{pos}
use simplek8s_controller.Kube.Selector.{matches, match_labels, match_all}
use simplek8s_controller.Kube.Types.{running, terminating, Node, Pod, PodDisruptionBudget}
use simplek8s_controller.Nodestate.State.{draining, rebooting, NodeState, parse, parse_state}
use simplek8s_controller.Reboot.Pods.{
  force_of, evictable, is_daemon_set_managed, is_mirror_of_static,
}
use simplek8s_controller.Reboot.Pdb.{pdb_blocked, pdb_key, count_pods, count_matched}
use simplek8s_controller.Reboot.Pdb.Budget.{exceeds, pdb_blocked-exceeds}
use simplek8s_controller.Reboot.Drain.{deny_backoff, run_drain, drain_done}
use simplek8s_controller.Reboot.Drain.Backoff.{deny_backoff-min}
use simplek8s_controller.Reboot.Drain.Calls.{IsAllowed, run_drain-IsAllowed, run_drain-done_iff}
use simplek8s_controller.Reboot.Drain.Spared.{InTime, LeavesAlone}
use simplek8s_controller.Reboot.World.{still_in, state_is}
use simplek8s_controller.Reboot.Queue.{clean_state}
use simplek8s_controller.Nodestate.Values.{state_value}
use simplek8s_controller.Reboot.Local.{
  Local, local_step, exec_build, run_local, past_grace, no_effect_failed, issued_record,
}
use simplek8s_controller.Reboot.Local.Issued.{Issued, Issued-of_Committed}
use simplek8s_controller.Reboot.Local.Command.{
  Started, Recorded, run_local-Started, second_issue-final,
}
use simplek8s_controller.Kube.Server.{Server, Patch, merge_patch, put_node, writes}
use simplek8s_controller.Nodestate.Patch.{issued_exec_patch}
use simplek8s_controller.Nodestate.Transition.Atomic.{interference, Committed}
use simplek8s_controller.Examples.Cluster.{
  node_of, quiet_round, server_of, server_of-IsVersioned, world_of, calm, all_well, pod,
}

abbrev st : NodeState
st = parse (node_of draining).annotations

run_drain-IsAllowed_example :
    All
      (IsAllowed (force_of st) (node_of draining) (pod ∷ []))
      (run_drain all_well
        (200 * second)
        (node_of draining)
        st
        (pod ∷ [])
        (300 * second)
        (record { denied = []; calls = [] })).1.calls
run_drain-IsAllowed_example =
    run_drain-IsAllowed all_well (200 * second) (node_of draining) st (pod ∷ []) (300 * second) []

-- A pod of the node that is terminating.
abbrev going : Pod
going = record pod { deletion_timestamp = some (150 * second) }

run_drain-done_iff_example :
    ((run_drain all_well
        (200 * second)
        (node_of draining)
        st
        (going ∷ [])
        (300 * second)
        (record { denied = []; calls = [] })).0
      ≡ drain_done)
    ↔ (InTime st (200 * second) (300 * second) × All (LeavesAlone (node_of draining)) (going ∷ []))
run_drain-done_iff_example =
    run_drain-done_iff all_well (200 * second) (node_of draining) st (going ∷ []) (300 * second)
      (record { denied = []; calls = [] })

deny_backoff-min_example :
    deny_backoff (some (record { count = 3; last_attempt = 7 })) ≡ 20 * second
deny_backoff-min_example = deny_backoff-min 2 7

abbrev budget : PodDisruptionBudget
budget = record {
  name = "web";
  namespace = "default";
  selector = some (record { match_labels = ("app", "web") ∷ []; match_expressions = [] });
  disruptions_allowed = pos 0;
}

blocked_by_web : pdb_blocked (node_of draining) (budget ∷ []) (pod ∷ []) ≡ some ("default/web" ∷ [])
unfolding pdb_blocked count_pods count_matched matches match_labels lookup match_all running
    terminating evictable is_daemon_set_managed is_mirror_of_static
blocked_by_web = refl

pdb_blocked-exceeds_example :
    "default/web" ∷ [] ≡ map pdb_key (keep_if (exceeds (node_of draining) (pod ∷ [])) (budget ∷ []))
pdb_blocked-exceeds_example =
    pdb_blocked-exceeds (node_of draining) (budget ∷ []) (pod ∷ []) ("default/web" ∷ [])
      blocked_by_web

abbrev executor : Local
executor = record {
  node_name = "w1";
  pod_uid = lit "u1";
  read_fault = false;
  boot_id = some (lit "b1");
  issue_grace = 60 * second;
  start_error = none;
  no_effect = lit "the reboot had no effect";
}

run_local-Started_example :
    Started executor
      (world_of rebooting)
      (run_local calm executor (world_of rebooting))
      (Recorded calm executor (world_of rebooting))
run_local-Started_example =
    run_local-Started calm executor (world_of rebooting) (server_of-IsVersioned rebooting)

-- A second issue on the node, at 1000 s.
abbrev second_patch : Node → Patch
second_patch n = issued_exec_patch n.rv (issued_record executor (lit "b1") (1000 * second) 2)

abbrev after_second : Server
after_second =
    put_node (server_of rebooting) "w1"
      (merge_patch (node_of rebooting) (second_patch (node_of rebooting)))

second-Committed :
    Committed
      (λ i. quiet_round)
      0
      (exec_build (λ st. true) (issued_record executor (lit "b1") (1000 * second) 2))
      "w1"
      (server_of rebooting)
      after_second
unfolding exec_build lookup interference writes still_in clean_state parse parse_state state_value
    format_time state_is
second-Committed = record {
  rounds = 0;
  node = node_of rebooting;
  patch = second_patch (node_of rebooting);
  found = refl;
  built = refl;
  made = refl;
}

second-Issued :
    Issued
      (λ i. quiet_round)
      executor
      (λ st. true)
      (lit "b1")
      (1000 * second)
      2
      (server_of rebooting)
      after_second
second-Issued =
    Issued-of_Committed executor (λ st. true) (lit "b1") (1000 * second) 2 second-Committed

second_issue-final_example :
    local_step (parse second-Issued.after.annotations).exec (lit "b1") (1100 * second) (60 * second)
    ≡ no_effect_failed
unfolding text_eq past_grace
second_issue-final_example =
    second_issue-final (λ i. quiet_round) executor (λ st. true) (lit "b1") (lit "b1")
      (1000 * second) (1100 * second) (60 * second) (server_of rebooting) after_second second-Issued
