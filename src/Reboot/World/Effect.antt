-- ===== src/Reboot/World/Effect.antt =====
-- What a conditional patch of the reboot feature does to the store.
use simplek8s_controller.Prelude.{
  ℕ, suc, ◌≡◌, refl, ap, ◌∙◌, ◌⊎◌, inl, inr, Bool, true, String, some, lookup, lookup-insert,
  eq_iff, arith, Bool-cases, Option-cases,
}
use simplek8s_controller.Kube.Types.{Node}
use simplek8s_controller.Kube.Server.{Server, Patch, put_node, merge_patch, writes}
use simplek8s_controller.Kube.Server.Versions.{
  IsVersioned, writes-IsVersioned, put_node-IsVersioned,
}
use simplek8s_controller.Nodestate.State.{
  State, requested, draining, rebooting, completed, failed, unknown, parse,
}
use simplek8s_controller.Nodestate.Transition.{
  Round, Outcome, done, aborted, exhausted, failed_with, BuildFunc,
}
use simplek8s_controller.Nodestate.Transition.Atomic.{
  IsConditional, interference, Quiet, Committed, Promise, patch_transition-Promise,
}
use simplek8s_controller.Reboot.Queue.{clean_state}
use simplek8s_controller.Reboot.World.{
  World, Env, is_done, event, note_event, state_is, still_in, transition_build, patch_world,
  transition,
}

-- Only others wrote, or the patch was merged into the node it was built from.
abbrev pub Effect : (ℕ → Round) → BuildFunc → String → Server → Server → Type 0
Effect rounds build name s t = Quiet rounds 0 s t ⊎ Committed rounds 0 build name s t

pub Promise-Effect :
    (rounds : ℕ → Round) (build : BuildFunc) (name : String) (s : Server) (r : Outcome × Server)
    → Promise rounds 0 build name s r
    → Effect rounds build name s r.1
Promise-Effect rounds build name s (done, t) p = inr p
Promise-Effect rounds build name s (aborted, t) p = inl p.0
Promise-Effect rounds build name s (exhausted, t) p = inl p
Promise-Effect rounds build name s (failed_with e, t) p = p

pub patch_world-Effect :
    (env : Env) (name : String) (build : BuildFunc) (w : World)
    → IsConditional build
    → IsVersioned w.server
    → Effect (env.rounds w.transitions) build name w.server (patch_world env name build w).1.server
unfolding patch_world
patch_world-Effect env name build w c v =
    Promise-Effect (env.rounds w.transitions) build name w.server _
      (patch_transition-Promise build name 3 (env.rounds w.transitions) w.server c v)

-- A patch that returned nil was merged.
pub patch_world-done :
    (env : Env) (name : String) (build : BuildFunc) (w : World)
    → IsConditional build
    → IsVersioned w.server
    → is_done (patch_world env name build w).0 ≡ true
    → Committed
        (env.rounds w.transitions)
        0
        build
        name
        w.server
        (patch_world env name build w).1.server
unfolding patch_world
patch_world-done env name build w c v h =
    go _ (patch_transition-Promise build name 3 (env.rounds w.transitions) w.server c v) h
  where
    go :
        (r : Outcome × Server)
        → Promise (env.rounds w.transitions) 0 build name w.server r
        → is_done r.0 ≡ true
        → Committed (env.rounds w.transitions) 0 build name w.server r.1
    go (done, t) p h = p
    go (aborted, t) p h = absurd (cc)
    go (exhausted, t) p h = absurd (cc)
    go (failed_with e, t) p h = absurd (cc)

pub server-event :
    (node reason : String) (warning : Bool) (w : World)
    → (event node reason warning w).server ≡ w.server
unfolding event
server-event node reason warning w = refl

pub server-note_event :
    (key node reason : String) (warning active : Bool) (w : World)
    → (note_event key node reason warning active w).server ≡ w.server
unfolding note_event
server-note_event key node reason warning active w = ground arith

-- The store after a transition is that after its patch.
pub server-transition :
    (env : Env) (name : String) (from : State) (build : Node → Patch) (reason : String)
    (warning : Bool) (w : World)
    → (transition env name from build reason warning w).server
      ≡ (patch_world env name (transition_build from build) w).1.server
unfolding transition
server-transition env name from build reason warning w = ground (
  arith,
  server-event name reason warning (patch_world env name (transition_build from build) w).1,
)

state_is-eq : (a b : State) → state_is a b ≡ true → a ≡ b
unfolding state_is
state_is-eq requested b h = ground arith
state_is-eq draining b h = ground arith
state_is-eq rebooting b h = ground arith
state_is-eq completed b h = ground arith
state_is-eq failed b h = ground arith
state_is-eq (unknown t) b h = absurd (ground arith)

pub still_in-clean_state :
    (from : State) (n : Node)
    → still_in from n ≡ true
    → clean_state (parse n.annotations) ≡ some from
unfolding still_in
still_in-clean_state from n h = elim (Option-cases (clean_state (parse n.annotations))) [
  | inl absent ↦ absurd (ground arith)
  | inr (s, e) ↦ e ∙ ap some (state_is-eq s from (ground arith))
]

pub transition_build-IsConditional :
    (from : State) (build : Node → Patch)
    → ((n : Node) → (build n).rv ≡ n.rv)
    → IsConditional (transition_build from build)
unfolding transition_build
transition_build-IsConditional from build same = record {
  version = λ n p h. ground (arith, same n);
}

-- A transition that was merged: the node that the patch replaced was in the source state, and the store
-- has its merge under a new version.
pub record Moved (env : ℕ → Round) (from : State) (build : Node → Patch) (name : String)
    (s t : Server) : Type 0 where
  pub rounds : ℕ
  pub before : Node
  pub found : lookup name (writes s (interference env 0 rounds)).nodes ≡ some before
  pub source : clean_state (parse before.annotations) ≡ some from
  pub after :
      lookup name t.nodes
      ≡ some (record (merge_patch before (build before)) {
        rv = suc (writes s (interference env 0 rounds)).rv_counter;
      })

pub lookup-put_node :
    (s : Server) (name : String) (n : Node)
    → lookup name (put_node s name n).nodes ≡ some (record n { rv = suc s.rv_counter })
unfolding put_node
lookup-put_node s name n =
    ground (
      arith,
      lookup-insert name name (record n { rv = suc s.rv_counter }) s.nodes,
      eq_iff name name,
    )

pub Committed-Moved :
    (from : State) (build : Node → Patch) (name : String) {env : ℕ → Round} {s t : Server}
    → Committed env 0 (transition_build from build) name s t
    → Moved env from build name s t
unfolding transition_build
Committed-Moved from build name {s} c = elim (Bool-cases (still_in from c.node)) [
  | inr out ↦ absurd (ground (arith, c.built))
  | inl within ↦
      let same : c.patch ≡ build c.node = ground (arith, c.built) in
      record {
        rounds = c.rounds;
        before = c.node;
        found = c.found;
        source = still_in-clean_state from c.node within;
        after = rw c.made (rw same (lookup-put_node _ name _));
      }
]

-- The store stays versioned.
pub Effect-IsVersioned :
    (rounds : ℕ → Round) (build : BuildFunc) (name : String) {s t : Server}
    → IsVersioned s
    → Effect rounds build name s t
    → IsVersioned t
Effect-IsVersioned rounds build name {s} v (inl q) = rw q.made (writes-IsVersioned s _ v)
Effect-IsVersioned rounds build name {s} v (inr k) =
    rw k.made (put_node-IsVersioned _ name _ (writes-IsVersioned s _ v))

pub patch_world-IsVersioned :
    (env : Env) (name : String) (build : BuildFunc) (w : World)
    → IsConditional build
    → IsVersioned w.server
    → IsVersioned (patch_world env name build w).1.server
patch_world-IsVersioned env name build w c v =
    Effect-IsVersioned (env.rounds w.transitions) build name v
      (patch_world-Effect env name build w c v)
