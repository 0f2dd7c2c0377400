-- ===== src/Reboot/Local.antt =====
-- internal/features/reboot/local.go: the executor of the pod's own node.
pub mod Issued
pub mod Command
use Prim.Native.String.{◌++◌ as concat}
use simplek8s_controller.Prelude.{
  ℕ, zero, suc, ◌+◌, Bool, true, false, not, ◌&&◌, ◌||◌, String, Option, none, some, is_some, List,
  [], ◌∷◌, Dict, lookup, ltb, leb, ◌==◌, if◌then◌else◌,
}
use simplek8s_controller.Stdlib.Text.{Text, Time, text_eq, after}
use simplek8s_controller.Stdlib.Json.{ℤ, pos, negsuc}
use simplek8s_controller.Kube.Types.{Node, ApiError}
use simplek8s_controller.Kube.Server.{Patch}
use simplek8s_controller.Nodestate.State.{State, rebooting, NodeState, ExecInfo, ParseError, parse}
use simplek8s_controller.Nodestate.Patch.{issued_exec_patch, to_failed_patch, status_raw}
use simplek8s_controller.Nodestate.Transition.{
  Outcome, done, aborted, exhausted, failed_with, BuildFunc,
}
use simplek8s_controller.Reboot.World.{
  World, Env, event, note_event, still_in, transition_build, patch_world, is_done, now_of, sampled,
}
use simplek8s_controller.Reboot.Manage.{failed_patch_of}

-- What the executor knows of its pod and host, whether its first read of the node fails, and the error
-- texts.
pub record Local : Type 0 where
  pub node_name : String
  pub pod_uid : Text
  pub read_fault : Bool
  pub boot_id : Option Text
  pub issue_grace : ℕ
  pub start_error : Option Text
  pub no_effect : Text

-- The decision of the switch in `runLocal`.
pub data LocalStep : Type 0 where
  issue corrupt reissue no_effect_failed wait : LocalStep
  confirm : ExecInfo → LocalStep
  confirmed : LocalStep

abbrev pub is_attempt : ℕ → ℤ → Bool
is_attempt n (pos m) = m == n
is_attempt n (negsuc m) = false

-- now.After(issuedAt.Add(grace)), where a zero time is long past
unfoldable pub past_grace : Time → Option Time → ℕ → Bool
past_grace now none grace = true
past_grace now (some t) grace = ltb (t + grace) now

unfoldable pub same_boot : Time → ℕ → ExecInfo → LocalStep
same_boot now grace e =
    if is_attempt 1 e.attempt && not (past_grace now e.issued_at grace)
    then reissue
    else if past_grace now e.issued_at grace
    then no_effect_failed
    else wait

unfoldable pub local_step : Option ExecInfo → Text → Time → ℕ → LocalStep
unfolding same_boot
local_step none boot now grace = issue
local_step (some e) boot now grace =
    if not e.present
    then issue
    else if is_some e.parse_error
    then corrupt
    else if text_eq e.boot_id boot
    then same_boot now grace e
    else if is_some e.confirmed_at
    then confirmed
    else confirm e

-- The builder of `guardedExecPatch`.
unfoldable pub exec_build : (NodeState → Bool) → ExecInfo → BuildFunc
exec_build guard e fresh =
    if not (still_in rebooting fresh)
    then none
    else if not (guard (parse fresh.annotations))
    then none
    else some (issued_exec_patch fresh.rv e)

-- freshSt.Exec == nil || !freshSt.Exec.Present
unfoldable pub no_exec : NodeState → Bool
no_exec st = elim st.exec [ none ↦ true | some e ↦ not e.present ]

-- The readable record that the guards of the later writes look at. On a nil pointer the source panics
-- here, with nothing written; the guard refuses.
unfoldable pub fresh_exec : (ExecInfo → Bool) → NodeState → Bool
fresh_exec test st = elim st.exec [
  | none ↦ false
  | some e ↦ e.present && not (is_some e.parse_error) && test e
]

unfoldable pub may_reissue : Text → Time → ℕ → ExecInfo → Bool
may_reissue boot now grace e =
    is_attempt 1 e.attempt && text_eq e.boot_id boot && not (past_grace now e.issued_at grace)

abbrev pub not_confirmed : ExecInfo → Bool
not_confirmed e = not (is_some e.confirmed_at)

abbrev pub issued_record : Local → Text → Time → ℕ → ExecInfo
issued_record l boot now attempt = record {
  present = false;
  issued_at = some now;
  boot_id = boot;
  attempt = pos attempt;
  executor_pod_uid = l.pod_uid;
  confirmed_at = none;
  parse_error = none;
}

-- f.localFailed
unfoldable pub local_failed : Env → Local → Text → World → World
local_failed env l msg w =
    let now = now_of env w in
    let (o, w') =
      patch_world env l.node_name (transition_build rebooting (failed_patch_of now msg))
        (sampled w) in
    if is_done o then event l.node_name "RebootFailed" true w' else w'

-- f.issueReboot: the command starts, or the node is failed.
unfoldable pub issue_reboot : Env → Local → World → World
issue_reboot env l w = elim l.start_error [
  | none ↦ event l.node_name "RebootCommandIssued" false w
  | some msg ↦ local_failed env l msg w
]

-- The record is patched first; the command follows only if the patch landed. The attempts of one patch
-- read the clock once.
unfoldable pub issue_if_patched : Env → Local → BuildFunc → World → World
issue_if_patched env l build w =
    let (o, w') = patch_world env l.node_name build w in
    if is_done o then issue_reboot env l w' else w'

unfoldable pub do_step : Env → Local → Text → Time → LocalStep → World → World
do_step env l boot now issue w =
    issue_if_patched env l (exec_build no_exec (issued_record l boot now 1)) w
do_step env l boot now corrupt w =
    note_event (concat "corrupt-exec:" l.node_name) l.node_name "CorruptRebootExec" true true w
do_step env l boot now reissue w =
    issue_if_patched env l
      (exec_build (fresh_exec (may_reissue boot (now_of env w) l.issue_grace))
        (issued_record l boot now 2))
      (sampled w)
do_step env l boot now no_effect_failed w = local_failed env l l.no_effect w
do_step env l boot now wait w = w
do_step env l boot now confirmed w = w
do_step env l boot now (confirm e) w =
    (patch_world env l.node_name
      (exec_build (fresh_exec not_confirmed)
        (record e { present = false; confirmed_at = some now }))
      w).1

abbrev pub readable_node : Local → Option Node → Option Node
readable_node l found = if l.read_fault then none else found

-- The decision on the record of a rebooting node, with the boot id of the host.
unfoldable pub run_booted : Env → Local → Node → Option Text → World → World
run_booted env l node none w = w
run_booted env l node (some boot) w =
    let now = now_of env w in
    do_step env l boot now (local_step (parse node.annotations).exec boot now l.issue_grace)
      (sampled w)

unfoldable pub run_found : Env → Local → Option Node → World → World
run_found env l none w = w
run_found env l (some node) w =
    if still_in rebooting node then run_booted env l node l.boot_id w else w

unfoldable pub run_local : Env → Local → World → World
run_local env l w = run_found env l (readable_node l (lookup l.node_name w.server.nodes)) w
