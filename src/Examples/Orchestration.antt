-- ===== src/Examples/Orchestration.antt =====
-- The lifecycle, the queue and the admission.
use simplek8s_controller.Prelude.{◌⊎◌, Among, arith, ◌*◌, ◌≡◌, refl, true, [], ◌∷◌, lookup}
use mathlib.Core.List.{Perm}
use simplek8s_controller.Stdlib.Text.{second}
use simplek8s_controller.Stdlib.Text.{is_empty, format_time}
use simplek8s_controller.Kube.Types.{ready, is_control_plane}
use simplek8s_controller.Kube.Server.{put_node, patch_node, writes}
use simplek8s_controller.Nodestate.State.{
  requested, draining, parse, parse_state, parse_request, in_flight,
}
use simplek8s_controller.Nodestate.Values.{state_value, request_value}
use simplek8s_controller.Nodestate.Patch.{to_draining_patch}
use simplek8s_controller.Nodestate.Transition.{patch_transition, attempts, attempt, on_build, send}
use simplek8s_controller.Reboot.Pods.{force_of}
use simplek8s_controller.Reboot.Pdb.{pdb_blocked}
use simplek8s_controller.Reboot.World.{patch_world, transition_build, still_in, state_is, event}
use simplek8s_controller.Reboot.Queue.{
  view_of, build_views, sort_queue, queue_of, clean_state, admission_counts,
}
use simplek8s_controller.Reboot.Queue.Order.{IsOrdered, sort_queue-IsOrdered}
use simplek8s_controller.Reboot.Manage.{manage_node}
use simplek8s_controller.Reboot.Manage.Steps.{Managed}
use simplek8s_controller.Reboot.Manage.Lifecycle.{manage_node-Managed}
use simplek8s_controller.Reboot.Admission.{
  Settings, admitted, admit, admission_phase, try_candidate, try_pdb, try_patch, after_patch,
}
use simplek8s_controller.Reboot.Admission.Safety.{Admitted, admit-Admitted}
use simplek8s_controller.Reboot.Admission.Slots.{Open, admission_phase-Open}
use simplek8s_controller.Cron.{Schedule, windows_open, last_occurrence}
use simplek8s_controller.Cron.Open.{Within}
use simplek8s_controller.Reboot.Admission.Window.{admission_phase-Within}
use simplek8s_controller.Examples.Windows.{quarters, quarters-IsParsed}
use simplek8s_controller.Examples.Cluster.{
  quiet_round, node_of, server_of, server_of-IsVersioned, world_of, calm, pod,
}

manage_node-Managed_example :
    Managed
      (λ i. quiet_round)
      (view_of (node_of draining))
      (server_of draining)
      (manage_node calm
        (view_of (node_of draining))
        []
        (1000 * second)
        (300 * second)
        (world_of draining)).server
manage_node-Managed_example =
    manage_node-Managed calm (view_of (node_of draining)) [] (1000 * second) (300 * second)
      (world_of draining) (server_of-IsVersioned draining)

sort_queue-IsOrdered_example :
    IsOrdered (sort_queue (build_views (node_of requested ∷ node_of draining ∷ [])))
    × Perm
        (sort_queue (build_views (node_of requested ∷ node_of draining ∷ [])))
        (build_views (node_of requested ∷ node_of draining ∷ []))
sort_queue-IsOrdered_example =
    sort_queue-IsOrdered (build_views (node_of requested ∷ node_of draining ∷ []))

abbrev settings : Settings
settings = record {
  on_reboot_failure = "pause";
  max_concurrent_reboots = 1;
  drain_timeout = 300 * second;
  reboot_windows = quarters ∷ [];
  reboot_window_grace = 3600 * second;
}

admits :
    (admit calm
      (1000 * second)
      true
      []
      (pod ∷ [])
      (view_of (node_of requested) ∷ [])
      (world_of requested)).0
    ≡ admitted (view_of (node_of requested))
unfolding admit try_candidate force_of view_of parse lookup parse_state parse_request request_value
    state_value is_empty format_time try_pdb pdb_blocked try_patch after_patch patch_world
    patch_transition attempts attempt on_build send patch_node transition_build still_in clean_state
    state_is writes event put_node to_draining_patch
admits = refl

admit-Admitted_example :
    Admitted calm
      (1000 * second)
      true
      []
      (pod ∷ [])
      (view_of (node_of requested) ∷ [])
      (view_of (node_of requested))
      (world_of requested)
      (admit calm
        (1000 * second)
        true
        []
        (pod ∷ [])
        (view_of (node_of requested) ∷ [])
        (world_of requested)).1
admit-Admitted_example =
    admit-Admitted calm (1000 * second) true [] (pod ∷ []) (view_of (node_of requested) ∷ [])
      (world_of requested) (view_of (node_of requested)) (server_of-IsVersioned requested) admits

phase_admits :
    (admission_phase calm settings
      (1000 * second)
      []
      (pod ∷ [])
      (node_of requested ∷ [])
      (world_of requested)).0
    ≡ admitted (view_of (node_of requested))
unfolding admission_phase windows_open last_occurrence admission_counts build_views ready in_flight
    sort_queue queue_of is_control_plane admit try_candidate force_of view_of parse lookup
    parse_state parse_request request_value state_value is_empty format_time try_pdb pdb_blocked
    try_patch after_patch patch_world patch_transition attempts attempt on_build send patch_node
    transition_build still_in clean_state state_is writes event put_node to_draining_patch
phase_admits = refl

admission_phase-Open_example : Open settings (build_views (node_of requested ∷ []))
admission_phase-Open_example =
    admission_phase-Open calm settings (1000 * second) [] (pod ∷ []) (node_of requested ∷ [])
      (world_of requested) (view_of (node_of requested)) phase_admits

admission_phase-Within_example :
    (force_of (view_of (node_of requested)).st ≡ true)
    ⊎ ((s : Schedule) × Among s (quarters ∷ []) × Within (3600 * second) (1000 * second) s)
admission_phase-Within_example =
    admission_phase-Within calm settings (1000 * second) [] (pod ∷ []) (node_of requested ∷ [])
      (world_of requested) (view_of (node_of requested)) (omega arith) (quarters-IsParsed, tt)
      (server_of-IsVersioned requested) phase_admits
