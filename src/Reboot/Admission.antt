-- ===== src/Reboot/Admission.antt =====
-- internal/features/reboot/orchestrator.go: the admission of one node from the queue, and the cycle.
pub mod Drained
pub mod Safety
pub mod Slots
pub mod Window
use Prim.Native.String.{◌++◌ as concat}
use simplek8s_controller.Prelude.{
  ℕ, zero, suc, ◌+◌, Bool, true, false, not, ◌&&◌, ◌||◌, String, Option, none, some, is_some, List,
  [], ◌∷◌, ◌++◌, map, Dict, lookup, insert, str_eq, ltb, leb, if◌then◌else◌,
}
use simplek8s_controller.Stdlib.Text.{Text, lit, Time}
use simplek8s_controller.Cron.{Schedule, windows_open}
use simplek8s_controller.Kube.Types.{Node, Pod, PodDisruptionBudget, ApiError}
use simplek8s_controller.Kube.Server.{Patch, Server, Write, writes}
use simplek8s_controller.Nodestate.State.{
  State, requested, draining, rebooting, completed, failed, unknown, NodeState, StateInfo,
}
use simplek8s_controller.Nodestate.Patch.{to_draining_patch, status_raw}
use simplek8s_controller.Nodestate.Transition.{
  Outcome, done, aborted, exhausted, failed_with, BuildFunc,
}
use simplek8s_controller.Reboot.Pods.{force_of}
use simplek8s_controller.Reboot.Pdb.{pdb_blocked}
use simplek8s_controller.Reboot.Queue.{
  View, Gates, build_views, clean_state, admission_counts, sort_queue, queue_of,
}
use simplek8s_controller.Reboot.World.{
  Feature, World, Env, event, note_event, transition_build, patch_world, is_done,
}
use simplek8s_controller.Reboot.Manage.{manage_node, write_blocked_by}

-- The settings that the orchestrator reads.
pub record Settings : Type 0 where
  pub on_reboot_failure : String
  pub max_concurrent_reboots : ℕ
  pub drain_timeout : ℕ
  pub reboot_windows : List Schedule
  pub reboot_window_grace : ℕ

pub data Admission : Type 0 where
  admitted : View → Admission
  no_candidate lease_lost patch_failed panicked : Admission

abbrev pub draining_patch_of : Time → Node → Patch
draining_patch_of now fresh =
    to_draining_patch fresh.rv now (status_raw fresh.annotations) fresh.unschedulable

abbrev pub admission_build : Time → BuildFunc
admission_build now = transition_build requested (draining_patch_of now)

-- The switch on the result of the admission patch; an abort goes on with the next candidate.
unfoldable pub after_patch :
    View → Outcome → World → (World → Admission × World) → Admission × World
after_patch v done w next = (admitted v, event v.node.name "RebootDraining" false w)
after_patch v aborted w next = next w
after_patch v exhausted w next = (patch_failed, w)
after_patch v (failed_with e) w next = (patch_failed, w)

unfoldable pub try_patch :
    Env → Time → View → World → (World → Admission × World) → Admission × World
try_patch env now v w next =
    let (o, w') = patch_world env v.node.name (admission_build now) w in
    if not (env.owns w.transitions) then (lease_lost, w) else after_patch v o w' next

abbrev pub hold_window : View → World → World
hold_window v w =
    note_event (concat "window:" v.node.name) v.node.name "QueueHeldWindow" false true w

abbrev pub hold_pdb : Env → View → List String → World → World
hold_pdb env v blocked w =
    note_event (concat "pdb:" v.node.name) v.node.name "PDBBlocked" true true
      (write_blocked_by env v (map lit blocked) w)

-- The budgets, of a candidate without force.
unfoldable pub try_pdb :
    Env
    → Time
    → View
    → Option (List String)
    → World
    → (World → Admission × World)
    → Admission × World
try_pdb env now v none w next = (panicked, w)
try_pdb env now v (some []) w next = try_patch env now v w next
try_pdb env now v (some (b ∷ bs)) w next = next (hold_pdb env v (b ∷ bs) w)

-- The body of the loop over the queue.
unfoldable pub try_candidate :
    Env
    → Time
    → Bool
    → List PodDisruptionBudget
    → List Pod
    → View
    → World
    → (World → Admission × World)
    → Admission × World
try_candidate env now window_open pdbs pods v w next =
    if force_of v.st
    then try_patch env now v w next
    else if not window_open
    then next (hold_window v w)
    else try_pdb env now v (pdb_blocked v.node pdbs pods) w next

-- The loop; its test of the slots reads what the gates read, since an admission ends the loop.
unfoldable pub admit :
    Env → Time → Bool → List PodDisruptionBudget → List Pod → List View → World → Admission × World
admit env now window_open pdbs pods [] w = (no_candidate, w)
admit env now window_open pdbs pods (v ∷ vs) w =
    try_candidate env now window_open pdbs pods v w
      (λ w'. admit env now window_open pdbs pods vs w')

-- No slot is free.
abbrev pub slots_full : Settings → Gates → Bool
slots_full fc g = leb fc.max_concurrent_reboots g.in_flight_count || leb 1 g.cp_in_flight

-- Phase 2, on the fresh node list.
unfoldable pub admission_phase :
    Env
    → Settings
    → Time
    → List PodDisruptionBudget
    → List Pod
    → List Node
    → World
    → Admission × World
admission_phase env fc now pdbs pods nodes w =
    let g = admission_counts (build_views nodes) in
    if str_eq fc.on_reboot_failure "pause" && g.any_failed
    then (no_candidate, note_event "queue-paused" "" "QueuePaused" true true w)
    else if g.queued_not_ready
    then (no_candidate, note_event "queue-held" "" "QueueHeldNotReady" true true w)
    else if slots_full fc g
    then (no_candidate, w)
    else admit env now (windows_open fc.reboot_windows fc.reboot_window_grace now) pdbs pods
        (sort_queue (queue_of nodes)) w

-- Phase 1: every node in turn.
unfoldable pub manage_all : Env → List Pod → Time → ℕ → List View → World → World
manage_all env pods now timeout [] w = w
manage_all env pods now timeout (v ∷ vs) w =
    manage_all env pods now timeout vs (manage_node env v pods now timeout w)
