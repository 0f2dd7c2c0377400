-- ===== src/Reboot/Cycle.antt =====
-- internal/features/reboot/orchestrator.go: nodes that disappear, and the leader's cycle.
use simplek8s_controller.Prelude.{
  Bool, true, false, not, ◌&&◌, Option, none, some, is_some, List, [], ◌∷◌, Dict, lookup, insert,
  if◌then◌else◌,
}
use simplek8s_controller.Stdlib.Text.{Time}
use simplek8s_controller.Kube.Types.{Node, Pod, PodDisruptionBudget}
use simplek8s_controller.Kube.Server.{Write, writes}
use simplek8s_controller.Nodestate.State.{State, draining, rebooting, completed, failed}
use simplek8s_controller.Reboot.Queue.{View, build_views, clean_state}
use simplek8s_controller.Reboot.World.{World, Env, event, now_of, sampled}
use simplek8s_controller.Reboot.Admission.{
  Settings, Admission, no_candidate, admission_phase, manage_all,
}

-- The replies to the list calls, `none` for an error, and what others write before the second list.
pub record Lists : Type 0 where
  pub nodes_fault : Bool
  pub pods : Option (List Pod)
  pub pdbs : Option (List PodDisruptionBudget)
  pub between : List Write
  pub fresh_fault : Bool

unfoldable pub values : Dict Node → List Node
values [] = []
values ((k, n) ∷ m) = n ∷ values m

unfoldable pub alive_of : List View → Dict State
alive_of [] = []
alive_of (v ∷ vs) =
    let rest = alive_of vs in
    elim (clean_state v.st) [ none ↦ rest | some s ↦ insert v.node.name s rest ]

abbrev pub is_tracked : State → Bool
is_tracked draining = true
is_tracked rebooting = true
is_tracked _ = false

abbrev pub is_past : State → Bool
is_past draining = true
is_past rebooting = true
is_past failed = true
is_past completed = true
is_past _ = false

unfoldable pub note_gone : Dict State → Dict State → World → World
note_gone alive [] w = w
note_gone alive ((name, st) ∷ prev) w = note_gone alive prev (
    if not (is_some (lookup name alive)) && is_past st
    then event name "NodeDisappeared" false w
    else w)

unfoldable pub tracked : Dict State → Dict State
tracked [] = []
tracked ((name, st) ∷ alive) =
    let rest = tracked alive in if is_tracked st then (name, st) ∷ rest else rest

unfoldable pub observe_disappearances : List View → World → World
unfolding note_gone tracked alive_of
observe_disappearances vs w =
    let w' = note_gone (alive_of vs) w.feature.prev_inflight w in
    record w' { feature = record w'.feature { prev_inflight = tracked (alive_of vs) } }

-- Phase 2, after the writes of others before the list.
unfoldable pub second_phase :
    Env → Settings → Lists → Time → List PodDisruptionBudget → List Pod → World → Admission × World
second_phase env fc l now pdbs pods w =
    let w' = record w { server = writes w.server l.between } in
    if l.fresh_fault
    then (no_candidate, w')
    else admission_phase env fc now pdbs pods (values w'.server.nodes) w'

unfoldable pub two_phases :
    Env
    → Settings
    → Lists
    → List Node
    → List PodDisruptionBudget
    → List Pod
    → World
    → Admission × World
two_phases env fc l nodes pdbs pods w =
    let now = now_of env w in
    let views = build_views nodes in
    second_phase env fc l now pdbs pods
      (manage_all env pods now fc.drain_timeout views (observe_disappearances views (sampled w)))

unfoldable pub run_orchestrator : Env → Settings → Lists → World → Admission × World
run_orchestrator env fc l w = if l.nodes_fault then (no_candidate, w) else elim l.pods [
  | none ↦ (no_candidate, w)
  | some pods ↦ elim l.pdbs [
    | none ↦ (no_candidate, w)
    | some pdbs ↦ two_phases env fc l (values w.server.nodes) pdbs pods w
  ]
]
