-- ===== src/Reboot/Manage/Lifecycle.antt =====
-- One cycle of the leader moves a node along one edge of the lifecycle, or lifts a cordon that the
-- controller made, or writes nothing.
use simplek8s_controller.Prelude.{
  ℕ, ◌≡◌, refl, sym, subst, ◌⊎◌, inl, inr, Bool, true, false, not, Option, none, some, is_some,
  List, [], lookup, arith, Option-cases, if◌then◌else◌,
}
use simplek8s_controller.Stdlib.Text.{Time}
use simplek8s_controller.Kube.Types.{Pod}
use simplek8s_controller.Kube.Server.{Server}
use simplek8s_controller.Kube.Server.Versions.{IsVersioned}
use simplek8s_controller.Nodestate.State.{
  State, requested, draining, rebooting, completed, failed, unknown, StateInfo, ExecInfo,
}
use simplek8s_controller.Nodestate.Patch.{to_rebooting_patch, to_completed_patch, to_failed_patch}
use simplek8s_controller.Nodestate.Transition.Atomic.{Quiet, Quiet-refl}
use simplek8s_controller.Nodestate.Transition.{Round}
use simplek8s_controller.Reboot.Drain.{
  DrainResult, drain_pending, drain_done, drain_failed, run_drain,
}
use simplek8s_controller.Reboot.Queue.{View, clean_state}
use simplek8s_controller.Reboot.World.{World, Env, now_of, sampled}
use simplek8s_controller.Reboot.World.Effect.{patch_world-Effect, server-note_event}
use simplek8s_controller.Reboot.Manage.{
  failed_patch_of, after_drain, manage_draining, readable_exec, evidence, observe_not_ready,
  complete_if, manage_rebooting, uncordon_build, uncordon, uncordon_choice, do_uncordon, preserve,
  leave, UncordonChoice, by_choice, uncordon_rule, dispatch, manage_parsed, manage_node,
}
use simplek8s_controller.Reboot.Manage.Steps.{
  Edge, drained, drain_lost, came_back, Step, Managed, quiet, stepped, uncordoned, IsOver,
  do_uncordon-MayUncordon, rebooting-Writes, completed-Writes, failed-Writes, transition-Step,
  uncordon_build-IsConditional, Committed-Uncordoned,
}

module _ (env : Env) (v : View) where
  abbrev Result : World → World → Type 0
  Result w w' = Managed (env.rounds w.transitions) v w.server w'.server

  as-Managed :
      {r : ℕ → Round} {from to : State} {s t : Server}
      → Edge from to
      → Quiet r 0 s t ⊎ Step r from to v.node.name s t
      → Managed r v s t
  as-Managed e (inl q) = quiet q
  as-Managed e (inr st) = stepped e st

  still : (w : World) → Result w w
  still w = quiet (Quiet-refl (env.rounds w.transitions) 0 w.server)

  choose :
      {r : ℕ → Round} {s : Server} (b : Bool) (x y : World)
      → (b ≡ true → Managed r v s x.server)
      → (b ≡ false → Managed r v s y.server)
      → Managed r v s (if b then x else y).server
  choose true x y f g = f refl
  choose false x y f g = g refl

  after_drain-Result :
      (now : Time) (res : DrainResult) (w : World)
      → IsVersioned w.server
      → Result w (after_drain env v now res w)
  unfolding after_drain
  after_drain-Result now drain_pending w i = still w
  after_drain-Result now drain_done w i = as-Managed drained (
      transition-Step env v.node.name (λ fresh. to_rebooting_patch fresh.rv now) "RebootIssued"
        false w (λ n. unfold to_rebooting_patch in refl) (rebooting-Writes now) i)
  after_drain-Result now (drain_failed msg) w i = as-Managed drain_lost (
      transition-Step env v.node.name (failed_patch_of (now_of env w) msg) "RebootFailed" true
        (sampled w) (λ n. unfold to_failed_patch in refl) (failed-Writes (now_of env w) msg) i)

  manage_draining-Result :
      (pods : List Pod) (now : Time) (timeout : ℕ) (w : World)
      → IsVersioned w.server
      → Result w (manage_draining env v pods now timeout w)
  unfolding manage_draining
  manage_draining-Result pods now timeout w i =
      let (res, d) =
        run_drain env.replies (now_of env w) v.node v.st pods timeout
          (record { denied = w.feature.denied; calls = [] }) in
      after_drain-Result now res _ i

  complete_if-Result :
      (exec : ExecInfo) (now : Time) (w : World)
      → IsVersioned w.server
      → Result w (complete_if env v exec now w)
  unfolding complete_if
  complete_if-Result exec now w i =
      choose (not v.is_ready) _ _ (λ _. still w)
        (λ _.
          choose (not (evidence exec (lookup v.node.name w.feature.not_ready_after))) _ _
            (λ _. still w)
            (λ _. as-Managed came_back (
              transition-Step env v.node.name (λ fresh. to_completed_patch fresh.rv now)
                "RebootCompleted" false w (λ n. unfold to_completed_patch in refl)
                (completed-Writes now) i)))

  server-observe_not_ready :
      (exec : ExecInfo) (now : Time) (w : World)
      → (observe_not_ready v exec now w).server ≡ w.server
  unfolding observe_not_ready
  server-observe_not_ready exec now w = ground arith

  transitions-observe_not_ready :
      (exec : ExecInfo) (now : Time) (w : World)
      → (observe_not_ready v exec now w).transitions ≡ w.transitions
  unfolding observe_not_ready
  transitions-observe_not_ready exec now w = ground arith

  manage_rebooting-Result :
      (now : Time) (w : World) → IsVersioned w.server → Result w (manage_rebooting env v now w)
  unfolding manage_rebooting
  manage_rebooting-Result now w i = elim (Option-cases (readable_exec v.st)) [
    | inl nothing ↦ rw (nothing, manage_rebooting) (still w)
    | inr (exec, e) ↦
        let w' = observe_not_ready v exec now w in
        let same = server-observe_not_ready exec now w in
        let res = complete_if-Result exec now w' (subst IsVersioned (sym same) i) in
        rw (e, manage_rebooting)
          (subst (λ n. Managed (env.rounds n) v w.server (complete_if env v exec now w').server)
            (transitions-observe_not_ready exec now w)
            (subst
              (λ s. Managed (env.rounds w'.transitions) v s (complete_if env v exec now w').server)
              same res))
  ]

  uncordon-Result :
      (w : World)
      → IsOver v
      → v.node.unschedulable ≡ true
      → uncordon_choice v.st.status ≡ do_uncordon
      → IsVersioned w.server
      → Result w (uncordon env v w)
  unfolding uncordon
  uncordon-Result w over c u i =
      elim (patch_world-Effect env v.node.name uncordon_build w uncordon_build-IsConditional i) [
        | inl q ↦ quiet q
        | inr k ↦
            uncordoned c over (do_uncordon-MayUncordon v.st.status u)
              (Committed-Uncordoned v.node.name k)
      ]

  by_choice-Result :
      (c : UncordonChoice) (w : World)
      → IsOver v
      → v.node.unschedulable ≡ true
      → uncordon_choice v.st.status ≡ c
      → IsVersioned w.server
      → Result w (by_choice env v c w)
  unfolding by_choice
  by_choice-Result do_uncordon w over n e i = uncordon-Result w over n e i
  by_choice-Result preserve w over n e i = rw server-note_event (still w)
  by_choice-Result leave w over n e i = still w

  uncordon_rule-Result :
      (w : World) → IsOver v → IsVersioned w.server → Result w (uncordon_rule env v w)
  unfolding uncordon_rule
  uncordon_rule-Result w over i =
      choose (not v.node.unschedulable) _ _ (λ _. still w)
        (λ cordoned. by_choice-Result (uncordon_choice v.st.status) w over (ground arith) refl i)

  dispatch-Result :
      (pods : List Pod) (now : Time) (timeout : ℕ) (s : State) (w : World)
      → clean_state v.st ≡ some s
      → IsVersioned w.server
      → Result w (dispatch env v pods now timeout s w)
  unfolding dispatch
  dispatch-Result pods now timeout draining w e i = manage_draining-Result pods now timeout w i
  dispatch-Result pods now timeout rebooting w e i = manage_rebooting-Result now w i
  dispatch-Result pods now timeout completed w e i = uncordon_rule-Result w (inl e) i
  dispatch-Result pods now timeout failed w e i = uncordon_rule-Result w (inr e) i
  dispatch-Result pods now timeout requested w e i = still w
  dispatch-Result pods now timeout (unknown t) w e i = still w

  manage_parsed-Result :
      (pods : List Pod) (now : Time) (timeout : ℕ) (s : Option StateInfo) (w : World)
      → v.st.state ≡ s
      → IsVersioned w.server
      → Result w (manage_parsed env v pods now timeout s w)
  unfolding manage_parsed clean_state
  manage_parsed-Result pods now timeout none w at i = still w
  manage_parsed-Result pods now timeout (some s) w at i =
      choose (not s.present) _ _ (λ _. still w)
        (λ _.
          choose (is_some s.parse_error) _ _ (λ _. rw server-note_event (still w))
            (λ clean. dispatch-Result pods now timeout s.state w (ground (arith, at, clean)) i))

-- One call of `manageNode`, from a store where no version is above the counter, does one of three
-- things to it, besides what the environment's other clients write in the rounds of its transition:
-- nothing; it moves the node from draining to rebooting or failed, or from rebooting to completed,
-- out of the state that the node is in when the patch lands, keeping the request, the exec record
-- and the cordon; or it lifts the cordon of a node that is cordoned then, if the view was cordoned,
-- its reboot is completed or failed, and its status can be read or is not there and does not tell
-- of a cordon from before, and changes nothing else of the node but its version.
pub manage_node-Managed :
    (env : Env) (v : View) (pods : List Pod) (now : Time) (timeout : ℕ) (w : World)
    → IsVersioned w.server
    → Managed (env.rounds w.transitions) v w.server (manage_node env v pods now timeout w).server
unfolding manage_node
manage_node-Managed env v pods now timeout w i =
    manage_parsed-Result env v pods now timeout v.st.state w refl i
