-- ===== src/Reboot/Local/Command.antt =====
-- When a cycle of the executor starts the reboot command, and what is stored by then.
use simplek8s_controller.Prelude.{
  ℕ, ◌+◌, ◌≡◌, refl, ◌⊎◌, inl, inr, Bool, true, false, Option, none, some, lookup, arith,
  if◌then◌else◌,
}
use simplek8s_controller.Stdlib.Text.{Text, Time, whole, text_eq}
use simplek8s_controller.Kube.Types.{Node}
use simplek8s_controller.Kube.Server.{Server}
use simplek8s_controller.Kube.Server.Versions.{IsVersioned}
use simplek8s_controller.Nodestate.State.{rebooting, NodeState, parse}
use simplek8s_controller.Nodestate.Transition.{Round, BuildFunc}
use simplek8s_controller.Nodestate.Transition.Atomic.{IsConditional, Committed}
use simplek8s_controller.Reboot.World.{
  World, Env, event, still_in, patch_world, is_done, now_of, sampled,
}
use simplek8s_controller.Reboot.World.Effect.{patch_world-done}
use simplek8s_controller.Reboot.Local.{
  Local, LocalStep, issue, corrupt, reissue, no_effect_failed, wait, confirm, confirmed, local_step,
  past_grace, same_boot, exec_build, no_exec, fresh_exec, may_reissue, issued_record, local_failed,
  issue_reboot, issue_if_patched, do_step, readable_node, run_booted, run_found, run_local,
}
use simplek8s_controller.Reboot.Local.Issued.{
  commands, commands-event, commands-patch_world, commands-local_failed, commands-corrupt,
  exec_build-IsConditional, Issued, Issued-of_Committed, no_exec-NoRecord, fresh_exec-FirstIssue,
  Issue, first, second,
}

-- The command did not start, or it started once, after a write that `P` tells of.
abbrev pub Started : Local → World → World → (Server → Type 0) → Type 0
Started l w w' P =
    (commands w' ≡ commands w)
    ⊎ ((commands w' ≡ commands w + 1) × (l.start_error ≡ none) × P w'.server)

Started-weaken :
    (l : Local) (w w' : World) (P Q : Server → Type 0)
    → ((s : Server) → P s → Q s)
    → Started l w w' P
    → Started l w w' Q
Started-weaken l w w' P Q f (inl same) = inl same
Started-weaken l w w' P Q f (inr (n, e, p)) = inr (n, e, f w'.server p)

issue_reboot-Started :
    (env : Env) (l : Local) (w : World) (P : Server → Type 0)
    → P w.server
    → Started l w (issue_reboot env l w) P
unfolding issue_reboot event
issue_reboot-Started env l w P p = go l.start_error refl
  where
    go :
        (o : Option Text)
        → l.start_error ≡ o
        → Started l w
            (elim o [
              | none ↦ event l.node_name "RebootCommandIssued" false w
              | some msg ↦ local_failed env l msg w
            ])
            P
    go none e = inr (commands-event l.node_name "RebootCommandIssued" false w, e, p)
    go (some msg) e = inl (commands-local_failed env l msg w)

-- A condition of a step, with what it says in each branch.
choose-Started :
    (l : Local) (w : World) (P : Server → Type 0) (b : Bool) (x y : World)
    → ((b ≡ true) → Started l w x P)
    → ((b ≡ false) → Started l w y P)
    → Started l w (if b then x else y) P
choose-Started l w P true x y f g = f refl
choose-Started l w P false x y f g = g refl

issue_if_patched-Started :
    (env : Env) (l : Local) (build : BuildFunc) (w : World)
    → IsConditional build
    → IsVersioned w.server
    → Started l w
        (issue_if_patched env l build w)
        (Committed (env.rounds w.transitions) 0 build l.node_name w.server)
unfolding issue_if_patched patch_world
issue_if_patched-Started env l build w c v =
    let w' = (patch_world env l.node_name build w).1 in
    let P = Committed (env.rounds w.transitions) 0 build l.node_name w.server in
    choose-Started l w P (is_done (patch_world env l.node_name build w).0) (issue_reboot env l w')
      w'
      (λ landed.
        issue_reboot-Started env l w' P (patch_world-done env l.node_name build w c v landed))
      (λ _. inl refl)

do_step-Started :
    (env : Env) (l : Local) (boot : Text) (now : Time) (step : LocalStep) (w : World)
    → IsVersioned w.server
    → Started l w
        (do_step env l boot now step w)
        (Issue (env.rounds w.transitions) l boot now (now_of env w) w.server)
unfolding do_step
do_step-Started env l boot now issue w v =
    let build = exec_build no_exec (issued_record l boot now 1) in
    Started-weaken l w (issue_if_patched env l build w)
      (Committed (env.rounds w.transitions) 0 build l.node_name w.server)
      (Issue (env.rounds w.transitions) l boot now (now_of env w) w.server)
      (λ s c.
        let i = Issued-of_Committed l no_exec boot now 1 c in
        first i (no_exec-NoRecord i.before i.allowed))
      (issue_if_patched-Started env l build w (exec_build-IsConditional _ _) v)
do_step-Started env l boot now reissue w v =
    let guard = fresh_exec (may_reissue boot (now_of env w) l.issue_grace) in
    let build = exec_build guard (issued_record l boot now 2) in
    Started-weaken l w (issue_if_patched env l build (sampled w))
      (Committed (env.rounds w.transitions) 0 build l.node_name w.server)
      (Issue (env.rounds w.transitions) l boot now (now_of env w) w.server)
      (λ s c.
        let i = Issued-of_Committed l guard boot now 2 c in
        second i (fresh_exec-FirstIssue boot _ l.issue_grace i.before i.allowed))
      (issue_if_patched-Started env l build (sampled w) (exec_build-IsConditional _ _) v)
do_step-Started env l boot now corrupt w v = inl (commands-corrupt _ l.node_name w)
do_step-Started env l boot now no_effect_failed w v =
    inl (commands-local_failed env l l.no_effect w)
do_step-Started env l boot now wait w v = inl refl
do_step-Started env l boot now confirmed w v = inl refl
do_step-Started env l boot now (confirm e) w v = inl (commands-patch_world env l.node_name _ w)

-- The boot id is known, and one of the two writes was merged with it.
abbrev pub Recorded : Env → Local → World → Server → Type 0
Recorded env l w t =
    (boot : Text) × (l.boot_id ≡ some boot)
    × Issue (env.rounds w.transitions) l boot (now_of env w) (now_of env (sampled w)) w.server t

run_booted-Started :
    (env : Env) (l : Local) (node : Node) (b : Option Text) (w : World)
    → l.boot_id ≡ b
    → IsVersioned w.server
    → Started l w (run_booted env l node b w) (Recorded env l w)
unfolding run_booted
run_booted-Started env l node none w e v = inl refl
run_booted-Started env l node (some boot) w e v =
    let now = now_of env w in
    let step = local_step (parse node.annotations).exec boot now l.issue_grace in
    Started-weaken l w (do_step env l boot now step (sampled w))
      (Issue (env.rounds w.transitions) l boot now (now_of env (sampled w)) w.server)
      (Recorded env l w) (λ t i. (boot, e, i)) (do_step-Started env l boot now step (sampled w) v)

run_found-Started :
    (env : Env) (l : Local) (found : Option Node) (w : World)
    → IsVersioned w.server
    → Started l w (run_found env l found w) (Recorded env l w)
unfolding run_found
run_found-Started env l none w v = inl refl
run_found-Started env l (some node) w v =
    choose-Started l w (Recorded env l w) (still_in rebooting node) _ w
      (λ _. run_booted-Started env l node l.boot_id w refl v) (λ _. inl refl)

-- A cycle of the executor starts the reboot command at most once. If it does, then the command was
-- accepted, the boot id is known, and an exec record of this boot was merged first, with nothing
-- written before it but what the environment's other clients wrote in the rounds of the patch: a
-- first issue, into a rebooting node without a record, or a second one, into a rebooting node whose
-- record is a first issue of the same boot still within the grace; the record that is stored parses
-- to the one written.
pub run_local-Started :
    (env : Env) (l : Local) (w : World)
    → IsVersioned w.server
    → Started l w (run_local env l w) (Recorded env l w)
unfolding run_local
run_local-Started env l w v =
    run_found-Started env l (readable_node l (lookup l.node_name w.server.nodes)) w v

-- Once a second issue is stored, no later cycle of the same boot issues again: it waits until the grace
-- has passed and then fails the node; under any other boot id the record is confirmed.
pub second_issue-final :
    (env : ℕ → Round) (l : Local) (guard : NodeState → Bool) (boot boot' : Text) (now later : Time)
    (grace : ℕ) (s t : Server) (i : Issued env l guard boot now 2 s t)
    → local_step (parse i.after.annotations).exec boot' later grace ≡ (
        if text_eq boot boot'
        then if past_grace later (some (whole now)) grace then no_effect_failed else wait
        else confirm
            (record (issued_record l boot now 2) { present = true; issued_at = some (whole now) }))
unfolding local_step same_boot
second_issue-final env l guard boot boot' now later grace s t i = rw i.parsed (ground arith)
