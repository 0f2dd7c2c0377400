-- ===== src/Reboot/Local/Issued.antt =====
-- The exec record of an issued reboot, and the count of the commands that were started.
use simplek8s_controller.Prelude.{
  ℕ, suc, ◌+◌, ◌≤◌, ◌≡◌, ap, inl, inr, Option-cases, false, refl, Bool, true, String, none, some,
  List, [], ◌∷◌, ◌++◌, count_if, lookup, insert, str_eq, arith,
}
use simplek8s_controller.Stdlib.Text.{Text, Time, whole, text_eq_iff}
use simplek8s_controller.Stdlib.Json.{ℤ, pos, negsuc}
use simplek8s_controller.Kube.Types.{Node}
use simplek8s_controller.Kube.Server.{Server, Patch, merge_patch, writes}
use simplek8s_controller.Nodestate.State.{rebooting, NodeState, ExecInfo, parse, parse_exec}
use simplek8s_controller.Nodestate.Values.{exec_value}
use simplek8s_controller.Nodestate.Patch.{issued_exec_patch}
use simplek8s_controller.Nodestate.RoundTrip.{parse_exec-exec_value}
use simplek8s_controller.Nodestate.Effects.{parse-issued_exec_patch}
use simplek8s_controller.Nodestate.Transition.{Round, BuildFunc}
use simplek8s_controller.Nodestate.Transition.Atomic.{IsConditional, interference, Committed}
use simplek8s_controller.Reboot.Queue.{clean_state}
use simplek8s_controller.Reboot.World.{
  World, Event, Env, event, note_event, still_in, transition_build, patch_world, now_of, sampled,
}
use simplek8s_controller.Reboot.World.Effect.{still_in-clean_state, lookup-put_node}
use simplek8s_controller.Reboot.Manage.{failed_patch_of}
use simplek8s_controller.Reboot.Local.{
  Local, exec_build, is_attempt, past_grace, no_exec, fresh_exec, may_reissue, issued_record,
  local_failed,
}

abbrev pub is_command : Event → Bool
is_command e = str_eq e.reason "RebootCommandIssued"

-- How often the command was started.
abbrev pub commands : World → ℕ
commands w = count_if is_command w.events

count_if-append :
    (p : Event → Bool) (es fs : List Event) → count_if p (es ++ fs) ≡ count_if p es + count_if p fs
count_if-append p [] fs = omega arith
count_if-append p (e ∷ es) fs = ground (arith, count_if-append p es fs)

pub commands-event :
    (node reason : String) (warning : Bool) (w : World)
    → commands (event node reason warning w)
      ≡ commands w
        + count_if is_command (record { node = node; reason = reason; warning = warning } ∷ [])
unfolding event
commands-event node reason warning w = count_if-append is_command w.events _

pub commands-patch_world :
    (env : Env) (name : String) (build : BuildFunc) (w : World)
    → commands (patch_world env name build w).1 ≡ commands w
unfolding patch_world
commands-patch_world env name build w = refl

pub commands-local_failed :
    (env : Env) (l : Local) (msg : Text) (w : World)
    → commands (local_failed env l msg w) ≡ commands w
unfolding local_failed
commands-local_failed env l msg w =
    let now = now_of env w in
    let build = transition_build rebooting (failed_patch_of now msg) in
    ground (
      arith,
      commands-patch_world env l.node_name build (sampled w),
      commands-event l.node_name "RebootFailed" true
          (patch_world env l.node_name build (sampled w)).1,
    )

pub commands-corrupt :
    (key node : String) (w : World)
    → commands (note_event key node "CorruptRebootExec" true true w) ≡ commands w
unfolding note_event
commands-corrupt key node w = ground (
  arith,
  commands-event node "CorruptRebootExec" true
      (record w { feature = record w.feature { notified = insert key true w.feature.notified } }),
)

pub exec_build-IsConditional :
    (guard : NodeState → Bool) (e : ExecInfo) → IsConditional (exec_build guard e)
unfolding exec_build issued_exec_patch
exec_build-IsConditional guard e = record { version = λ n p h. ground arith }

-- After the other clients' writes of its rounds, an exec record for `attempt` was merged into a
-- node that was rebooting and whose own record passed the guard; what is stored parses to that
-- record.
pub record Issued (env : ℕ → Round) (l : Local) (guard : NodeState → Bool) (boot : Text)
    (now : Time) (attempt : ℕ) (s t : Server) : Type 0 where
  pub rounds : ℕ
  pub before : Node
  pub after : Node
  pub found : lookup l.node_name (writes s (interference env 0 rounds)).nodes ≡ some before
  pub source : clean_state (parse before.annotations) ≡ some rebooting
  pub allowed : guard (parse before.annotations) ≡ true
  pub stored : lookup l.node_name t.nodes ≡ some after
  pub parsed : parse after.annotations ≡ record (parse before.annotations) {
    exec = some (record (issued_record l boot now attempt) {
      present = true;
      issued_at = some (whole now);
    });
  }

read_back :
    (l : Local) (boot : Text) (now : Time) (attempt : ℕ)
    → parse_exec (exec_value (issued_record l boot now attempt))
      ≡ record (issued_record l boot now attempt) { present = true; issued_at = some (whole now) }
unfolding exec_value
read_back l boot now attempt = parse_exec-exec_value now boot l.pod_uid (pos attempt) none

Guarded-of_build :
    (guard : NodeState → Bool) (e : ExecInfo) (n : Node) {p : Patch}
    → exec_build guard e n ≡ some p
    → (p ≡ issued_exec_patch n.rv e)
      × (still_in rebooting n ≡ true)
      × (guard (parse n.annotations) ≡ true)
unfolding exec_build
Guarded-of_build guard e n h = ground (arith, h)

pub Issued-of_Committed :
    (l : Local) (guard : NodeState → Bool) (boot : Text) (now : Time) (attempt : ℕ)
    {env : ℕ → Round} {s t : Server}
    → Committed env 0 (exec_build guard (issued_record l boot now attempt)) l.node_name s t
    → Issued env l guard boot now attempt s t
Issued-of_Committed l guard boot now attempt {env} {s} c =
    let e = issued_record l boot now attempt in
    let (same, within, allowed) = Guarded-of_build guard e c.node c.built in
    let merged = merge_patch c.node c.patch in
    record {
      rounds = c.rounds;
      before = c.node;
      after = record merged { rv = suc (writes s (interference env 0 c.rounds)).rv_counter };
      found = c.found;
      source = still_in-clean_state rebooting c.node within;
      allowed = allowed;
      stored =
          rw c.made (lookup-put_node (writes s (interference env 0 c.rounds)) l.node_name merged);
      parsed =
          rw (same, parse-issued_exec_patch c.node c.node.rv e, read_back l boot now attempt) refl;
    }

-- The node has no exec record.
pub data NoRecord (n : Node) : Type 0 where
  absent : (parse n.annotations).exec ≡ none → NoRecord n
  unset : (e : ExecInfo) → (parse n.annotations).exec ≡ some e → e.present ≡ false → NoRecord n

-- Its exec record can be read, and is a first issue of this boot that is still within the grace.
pub record FirstIssue (boot : Text) (now : Time) (grace : ℕ) (n : Node) : Type 0 where
  pub exec : ExecInfo
  pub issued : Time
  pub found : (parse n.annotations).exec ≡ some exec
  pub readable : exec.parse_error ≡ none
  pub attempt : exec.attempt ≡ pos 1
  pub this_boot : exec.boot_id ≡ boot
  pub dated : exec.issued_at ≡ some issued
  pub recent : now ≤ issued + grace

pub no_exec-NoRecord : (n : Node) → no_exec (parse n.annotations) ≡ true → NoRecord n
unfolding no_exec
no_exec-NoRecord n h = elim (Option-cases (parse n.annotations).exec) [
  | inl none_there ↦ absent none_there
  | inr (e, there) ↦ unset e there (ground (arith, h, there))
]

is_attempt-eq : (a : ℤ) → is_attempt 1 a ≡ true → a ≡ pos 1
is_attempt-eq (pos n) h = ap pos (ground (arith, h))
is_attempt-eq (negsuc n) h = absurd (ground (arith, h))

pub fresh_exec-FirstIssue :
    (boot : Text) (now : Time) (grace : ℕ) (n : Node)
    → fresh_exec (may_reissue boot now grace) (parse n.annotations) ≡ true
    → FirstIssue boot now grace n
unfolding fresh_exec may_reissue past_grace
fresh_exec-FirstIssue boot now grace n h = elim (Option-cases (parse n.annotations).exec) [
  | inl none_there ↦ absurd (ground (arith, h, none_there))
  | inr (e, there) ↦ elim (Option-cases e.parse_error) [
    | inr (p, corrupt) ↦ absurd (ground (arith, h, there, corrupt))
    | inl readable ↦ elim (Option-cases e.issued_at) [
      | inl never ↦ absurd (ground (arith, h, there, readable, never))
      | inr (t, dated) ↦ record {
        exec = e;
        issued = t;
        found = there;
        readable = readable;
        attempt = is_attempt-eq e.attempt (ground (arith, h, there, readable));
        this_boot = (text_eq_iff e.boot_id boot).0 (ground (arith, h, there, readable));
        dated = dated;
        recent = ground (arith, h, there, readable, dated);
      }
    ]
  ]
]

-- One of the two writes that the command may follow.
pub data Issue (env : ℕ → Round) (l : Local) (boot : Text) (now later : Time) (s t : Server)
    : Type 0 where
  first :
      (i : Issued env l no_exec boot now 1 s t) → NoRecord i.before → Issue env l boot now later s t
  second :
      (i : Issued env l (fresh_exec (may_reissue boot later l.issue_grace)) boot now 2 s t)
      → FirstIssue boot later l.issue_grace i.before
      → Issue env l boot now later s t
