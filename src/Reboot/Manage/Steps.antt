-- ===== src/Reboot/Manage/Steps.antt =====
-- The steps of the lifecycle: what one transition, or an uncordon, does to the stored node.
use simplek8s_controller.Prelude.{
  ℕ, suc, ◌≡◌, ◌≢◌, none, Bool-cases, Option-cases, refl, ap, ◌∙◌, ◌⊎◌, inl, inr, Bool, true, false,
  String, Option, some, lookup, arith,
}
use simplek8s_controller.Stdlib.Text.{Text, Time}
use simplek8s_controller.Kube.Types.{Node}
use simplek8s_controller.Kube.Server.{Server, Patch, merge_patch, merge_annotations, writes}
use simplek8s_controller.Kube.Server.Versions.{IsVersioned}
use simplek8s_controller.Nodestate.State.{
  State, draining, rebooting, completed, failed, NodeState, StatusInfo, parse,
}
use simplek8s_controller.Nodestate.Patch.{
  to_rebooting_patch, to_completed_patch, set_error, uncordon_patch,
}
use simplek8s_controller.Nodestate.RoundTrip.{written_state}
use simplek8s_controller.Nodestate.Effects.{
  status_after, current_status, parse-to_rebooting_patch, parse-to_completed_patch,
  parse-to_failed_patch,
}
use simplek8s_controller.Nodestate.Transition.Atomic.{IsConditional, interference, Quiet, Committed}
use simplek8s_controller.Nodestate.Transition.{Round}
use simplek8s_controller.Reboot.Queue.{View, clean_state}
use simplek8s_controller.Reboot.World.{World, Env, transition_build, transition}
use simplek8s_controller.Reboot.World.Effect.{
  patch_world-Effect, server-transition, transition_build-IsConditional, Moved, Committed-Moved,
  lookup-put_node,
}
use simplek8s_controller.Reboot.Manage.{
  failed_patch_of, uncordon_build, uncordon_choice, do_uncordon,
}

-- The edges that the leader takes a node along once it is admitted.
pub data Edge : State → State → Type 0 where
  drained : Edge draining rebooting
  drain_lost : Edge draining failed
  came_back : Edge rebooting completed

-- After the other clients' writes of its rounds, the stored node was in state `from`; in the new
-- store it is in state `to`, with the same request, exec record and cordon.
pub record Step (env : ℕ → Round) (from to : State) (name : String) (s t : Server) : Type 0 where
  pub rounds : ℕ
  pub before : Node
  pub after : Node
  pub found : lookup name (writes s (interference env 0 rounds)).nodes ≡ some before
  pub source : clean_state (parse before.annotations) ≡ some from
  pub stored : lookup name t.nodes ≡ some after
  pub target : clean_state (parse after.annotations) ≡ some to
  pub request_kept : (parse after.annotations).request ≡ (parse before.annotations).request
  pub exec_kept : (parse after.annotations).exec ≡ (parse before.annotations).exec
  pub cordon_kept : after.unschedulable ≡ before.unschedulable

-- After the other clients' writes, the stored node was cordoned, and only its cordon is lifted.
pub record Uncordoned (env : ℕ → Round) (name : String) (s t : Server) : Type 0 where
  pub rounds : ℕ
  pub before : Node
  pub found : lookup name (writes s (interference env 0 rounds)).nodes ≡ some before
  pub cordoned : before.unschedulable ≡ true
  pub stored :
      lookup name t.nodes
      ≡ some (record before {
        unschedulable = false;
        rv = suc (writes s (interference env 0 rounds)).rv_counter;
      })

-- The reboot of the viewed node is over, with success or not.
abbrev pub IsOver : View → Type 0
IsOver v = (clean_state v.st ≡ some completed) ⊎ (clean_state v.st ≡ some failed)

-- The status does not tell of a cordon from before: there is none, or it can be read and records none.
pub data MayUncordon : Option StatusInfo → Type 0 where
  no_status : MayUncordon none
  unset : (s : StatusInfo) → s.present ≡ false → MayUncordon (some s)
  not_before :
      (s : StatusInfo) → s.parse_error ≡ none → s.cordoned_prev ≢ some true → MayUncordon (some s)

pub do_uncordon-MayUncordon :
    (o : Option StatusInfo) → uncordon_choice o ≡ do_uncordon → MayUncordon o
unfolding uncordon_choice
do_uncordon-MayUncordon none h = no_status
do_uncordon-MayUncordon (some s) h = elim (Bool-cases s.present) [
  | inr missing ↦ unset s missing
  | inl present ↦ elim (Option-cases s.parse_error) [
    | inr (e, corrupt) ↦ absurd (ground (arith, h, present, corrupt))
    | inl readable ↦ not_before s readable (λ e. ground (arith, h, present, readable, e))
  ]
]

-- What one call does to the store, with the rounds of its transition: `quiet` has nothing but what the
-- other clients write in them.
pub data Managed (env : ℕ → Round) (v : View) (s t : Server) : Type 0 where
  quiet : Quiet env 0 s t → Managed env v s t
  stepped : {from to : State} → Edge from to → Step env from to v.node.name s t → Managed env v s t
  uncordoned :
      v.node.unschedulable ≡ true
      → IsOver v
      → MayUncordon v.st.status
      → Uncordoned env v.node.name s t
      → Managed env v s t

-- The patch writes the state, and besides at most the status.
pub record Writes (to : State) (build : Node → Patch) : Type 0 where
  time : Time
  status : Node → Option StatusInfo
  parsed :
      (n : Node)
      → parse (merge_patch n (build n)).annotations
        ≡ record (parse n.annotations) { state = some (written_state to time); status = status n }
  cordon : (n : Node) → (merge_patch n (build n)).unschedulable ≡ n.unschedulable

Step-of_Moved :
    {env : ℕ → Round} {from to : State} {build : Node → Patch} {name : String} {s t : Server}
    → Writes to build
    → Moved env from build name s t
    → Step env from to name s t
Step-of_Moved {env} {build} {s} w m =
    let e = w.parsed m.before in
    record {
      rounds = m.rounds;
      before = m.before;
      after = record (merge_patch m.before (build m.before)) {
        rv = suc (writes s (interference env 0 m.rounds)).rv_counter;
      };
      found = m.found;
      source = m.source;
      stored = m.after;
      target = ap clean_state e ∙ unfold clean_state in refl;
      request_kept = ap (λ (x : NodeState). x.request) e;
      exec_kept = ap (λ (x : NodeState). x.exec) e;
      cordon_kept = w.cordon m.before;
    }

pub rebooting-Writes : (now : Time) → Writes rebooting (λ fresh. to_rebooting_patch fresh.rv now)
rebooting-Writes now = record {
  time = now;
  status = λ n. (parse n.annotations).status;
  parsed = λ n. parse-to_rebooting_patch n n.rv now;
  cordon = λ n. unfold merge_patch to_rebooting_patch in refl;
}

pub completed-Writes : (now : Time) → Writes completed (λ fresh. to_completed_patch fresh.rv now)
completed-Writes now = record {
  time = now;
  status = λ n. (parse n.annotations).status;
  parsed = λ n. parse-to_completed_patch n n.rv now;
  cordon = λ n. unfold merge_patch to_completed_patch in refl;
}

pub failed-Writes : (now : Time) (msg : Text) → Writes failed (failed_patch_of now msg)
failed-Writes now msg = record {
  time = now;
  status = λ n. status_after (set_error msg (current_status n));
  parsed = λ n. (parse-to_failed_patch n n.rv now msg).0;
  cordon = λ n. (parse-to_failed_patch n n.rv now msg).1;
}

-- A transition of the leader is quiet, or a step.
pub transition-Step :
    {from to : State} (env : Env) (name : String) (build : Node → Patch) (reason : String)
    (warning : Bool) (w : World)
    → ((n : Node) → (build n).rv ≡ n.rv)
    → Writes to build
    → IsVersioned w.server
    → Quiet
        (env.rounds w.transitions)
        0
        w.server
        (transition env name from build reason warning w).server
      ⊎ Step
          (env.rounds w.transitions)
          from
          to
          name
          w.server
          (transition env name from build reason warning w).server
transition-Step {from} env name build reason warning w same wr v =
    rw (server-transition env name from build reason warning w)
      (elim (patch_world-Effect env name (transition_build from build) w
        (transition_build-IsConditional from build same) v) [
          | inl q ↦ inl q
          | inr c ↦ inr (Step-of_Moved wr (Committed-Moved from build name c))
        ])

pub uncordon_build-IsConditional : IsConditional uncordon_build
unfolding uncordon_build uncordon_patch
uncordon_build-IsConditional = record { version = λ n p h. ground arith }

pub Committed-Uncordoned :
    (name : String) {env : ℕ → Round} {s t : Server}
    → Committed env 0 uncordon_build name s t
    → Uncordoned env name s t
unfolding uncordon_build uncordon_patch
Committed-Uncordoned name {env} {s} c =
    let cordoned : c.node.unschedulable ≡ true = ground (arith, c.built) in
    let same : c.patch ≡ uncordon_patch c.node.rv = ground (arith, c.built) in
    record {
      rounds = c.rounds;
      before = c.node;
      found = c.found;
      cordoned = cordoned;
      stored = rw c.made (
          rw same (
            unfold merge_patch merge_annotations in
            lookup-put_node (writes s (interference env 0 c.rounds)) name _));
    }
