-- ===== src/Reboot/Manage.antt =====
-- internal/features/reboot/orchestrator.go: the lifecycle rules of one node in one cycle.
pub mod Steps
pub mod Lifecycle
use Prim.Native.String.{◌++◌ as concat}
use simplek8s_controller.Prelude.{
  ℕ, Bool, true, false, not, ◌&&◌, ◌||◌, String, Option, none, some, is_some, List, [], ◌∷◌, ◌++◌,
  Dict, lookup, insert, if◌then◌else◌,
}
use simplek8s_controller.Stdlib.Text.{Text, Time, after}
use simplek8s_controller.Kube.Types.{Node, Pod}
use simplek8s_controller.Kube.Server.{Patch}
use simplek8s_controller.Nodestate.State.{
  State, requested, draining, rebooting, completed, failed, unknown, NodeState, StateInfo, ExecInfo,
  StatusInfo,
}
use simplek8s_controller.Nodestate.Patch.{
  to_rebooting_patch, to_completed_patch, to_failed_patch, status_patch, uncordon_patch, status_raw,
}
use simplek8s_controller.Nodestate.Transition.{BuildFunc}
use simplek8s_controller.Reboot.Drain.{
  DrainResult, drain_pending, drain_done, drain_failed, DrainState, run_drain,
}
use simplek8s_controller.Reboot.Queue.{View}
use simplek8s_controller.Reboot.World.{
  Feature, World, Env, now_of, sampled, note_event, still_in, transition_build, patch_world,
  transition,
}

abbrev pub failed_patch_of : Time → Text → Node → Patch
failed_patch_of now msg fresh = to_failed_patch fresh.rv now (status_raw fresh.annotations) msg

-- What follows the drain cycle.
unfoldable pub after_drain : Env → View → Time → DrainResult → World → World
after_drain env v now drain_pending w = w
after_drain env v now drain_done w =
    transition env v.node.name draining (λ fresh. to_rebooting_patch fresh.rv now) "RebootIssued"
      false w
after_drain env v now (drain_failed msg) w =
    transition env v.node.name draining (failed_patch_of (now_of env w) msg) "RebootFailed" true
      (sampled w)

unfoldable pub manage_draining : Env → View → List Pod → Time → ℕ → World → World
manage_draining env v pods now drain_timeout w =
    let (res, d) =
      run_drain env.replies (now_of env w) v.node v.st pods drain_timeout
        (record { denied = w.feature.denied; calls = [] }) in
    after_drain env v now res (record (sampled w) {
      feature = record w.feature { denied = d.denied };
      pod_calls = w.pod_calls ++ d.calls;
    })

-- t.After(u), for a time that may be the zero time
unfoldable pub after_opt : Option Time → Option Time → Bool
after_opt none u = false
after_opt (some t) none = true
after_opt (some t) (some u) = after t u

-- A node that is not ready after the issue of the reboot is remembered.
unfoldable pub observe_not_ready : View → ExecInfo → Time → World → World
observe_not_ready v exec now w =
    if not v.is_ready && after_opt (some now) exec.issued_at
    then record w {
      feature = record w.feature {
        not_ready_after = insert v.node.name now w.feature.not_ready_after;
      };
    }
    else w

-- The evidence that the reboot took place.
unfoldable pub evidence : ExecInfo → Option Time → Bool
evidence exec obs = is_some exec.confirmed_at || after_opt obs exec.issued_at

unfoldable pub readable_exec : NodeState → Option ExecInfo
readable_exec st = elim st.exec [
  | none ↦ none
  | some e ↦ if not e.present || is_some e.parse_error then none else some e
]

unfoldable pub complete_if : Env → View → ExecInfo → Time → World → World
complete_if env v exec now w =
    if not v.is_ready
    then w
    else if not (evidence exec (lookup v.node.name w.feature.not_ready_after))
    then w
    else transition env v.node.name rebooting (λ fresh. to_completed_patch fresh.rv now)
        "RebootCompleted" false w

unfoldable pub manage_rebooting : Env → View → Time → World → World
manage_rebooting env v now w = elim (readable_exec v.st) [
  | none ↦ w
  | some exec ↦ complete_if env v exec now (observe_not_ready v exec now w)
]

-- `uncordon` goes round as `PatchTransition` does, and ends where the node is not cordoned.
unfoldable pub uncordon_build : BuildFunc
uncordon_build fresh = if not fresh.unschedulable then none else some (uncordon_patch fresh.rv)

unfoldable pub uncordon : Env → View → World → World
uncordon env v w = (patch_world env v.node.name uncordon_build w).1

pub data UncordonChoice : Type 0 where
  do_uncordon preserve leave : UncordonChoice

-- What `uncordonRule` makes of the status.
unfoldable pub uncordon_choice : Option StatusInfo → UncordonChoice
uncordon_choice none = do_uncordon
uncordon_choice (some s) =
    if not s.present
    then do_uncordon
    else if is_some s.parse_error
    then preserve
    else elim s.cordoned_prev [ some true ↦ leave | _ ↦ do_uncordon ]

unfoldable pub by_choice : Env → View → UncordonChoice → World → World
by_choice env v do_uncordon w = uncordon env v w
by_choice env v preserve w =
    note_event (concat "uncordon-blocked:" v.node.name) v.node.name "UncordonBlocked" true true w
by_choice env v leave w = w

unfoldable pub uncordon_rule : Env → View → World → World
uncordon_rule env v w =
    if not v.node.unschedulable then w else by_choice env v (uncordon_choice v.st.status) w

unfoldable pub dispatch : Env → View → List Pod → Time → ℕ → State → World → World
dispatch env v pods now timeout draining w = manage_draining env v pods now timeout w
dispatch env v pods now timeout rebooting w = manage_rebooting env v now w
dispatch env v pods now timeout completed w = uncordon_rule env v w
dispatch env v pods now timeout failed w = uncordon_rule env v w
dispatch env v pods now timeout requested w = w
dispatch env v pods now timeout (unknown t) w = w

-- The body of `manageNode`, on the parsed state.
unfoldable pub manage_parsed : Env → View → List Pod → Time → ℕ → Option StateInfo → World → World
manage_parsed env v pods now timeout none w = w
manage_parsed env v pods now timeout (some s) w =
    if not s.present
    then w
    else if is_some s.parse_error
    then note_event (concat "corrupt:" v.node.name) v.node.name "CorruptRebootState" true true w
    else dispatch env v pods now timeout s.state w

unfoldable pub manage_node : Env → View → List Pod → Time → ℕ → World → World
unfolding manage_parsed
manage_node env v pods now timeout w = manage_parsed env v pods now timeout v.st.state w

abbrev pub set_blocked : List Text → StatusInfo → StatusInfo
set_blocked blocked s = record s { blocked_by = some blocked }

-- f.writeBlockedBy
unfoldable pub write_blocked_by : Env → View → List Text → World → World
write_blocked_by env v blocked w =
    (patch_world env v.node.name
      (transition_build requested
        (λ fresh. status_patch fresh.rv (status_raw fresh.annotations) (set_blocked blocked)))
      w).1
