-- ===== src/Reboot/World.antt =====
-- internal/features/reboot/reboot.go: the state of the feature, its events, and the environment of a
-- cycle: the writes and faults around each conditional patch, the lease checks, the clock, and the
-- replies about pods.
pub mod Effect
use simplek8s_controller.Prelude.{
  ℕ, zero, suc, ◌+◌, Bool, true, false, not, ◌&&◌, String, Option, none, some, is_some, List, [],
  ◌∷◌, ◌++◌, Dict, lookup, insert, erase, if◌then◌else◌,
}
use simplek8s_controller.Stdlib.Text.{Text, Time}
use simplek8s_controller.Kube.Types.{Node}
use simplek8s_controller.Kube.Server.{Server, Patch}
use simplek8s_controller.Nodestate.State.{
  State, requested, draining, rebooting, completed, failed, unknown, NodeState, parse,
}
use simplek8s_controller.Nodestate.Transition.{
  Round, Outcome, done, aborted, exhausted, failed_with, BuildFunc, patch_transition,
}
use simplek8s_controller.Reboot.Drain.{DenyState, PodCall, Replies}
use simplek8s_controller.Reboot.Queue.{clean_state}

-- `Feature`, its maps: the client, the lease and the configuration are the environment's.
pub record Feature : Type 0 where
  pub not_ready_after : Dict Time
  pub denied : Dict DenyState
  pub notified : Dict Bool
  pub prev_inflight : Dict State

-- An event regarding a node: its reason, and whether it is a warning. The message is left out.
pub record Event : Type 0 where
  pub node : String
  pub reason : String
  pub warning : Bool

-- `transitions` counts the conditional patches made so far, and `samples` the clock reads.
pub record World : Type 0 where
  pub server : Server
  pub feature : Feature
  pub events : List Event
  pub pod_calls : List PodCall
  pub transitions : ℕ
  pub samples : ℕ

pub record Env : Type 0 where
  pub rounds : ℕ → ℕ → Round
  pub owns : ℕ → Bool
  pub clock : ℕ → Time
  pub replies : Replies

-- f.cfg.Now()
abbrev pub now_of : Env → World → Time
now_of env w = env.clock w.samples

abbrev pub sampled : World → World
sampled w = record w { samples = w.samples + 1 }

-- f.event: a failure to record is only logged.
unfoldable pub event : String → String → Bool → World → World
event node reason warning w = record w {
  events = w.events ++ record { node = node; reason = reason; warning = warning } ∷ [];
}

abbrev pub is_noted : Option Bool → Bool
is_noted none = false
is_noted (some b) = b

-- f.noteEvent, `active` or not
unfoldable pub note_event : String → String → String → Bool → Bool → World → World
unfolding event
note_event key node reason warning active w =
    if not active
    then record w { feature = record w.feature { notified = erase key w.feature.notified } }
    else if is_noted (lookup key w.feature.notified)
    then w
    else event node reason warning
        (record w { feature = record w.feature { notified = insert key true w.feature.notified } })

unfoldable pub state_is : State → State → Bool
state_is requested requested = true
state_is draining draining = true
state_is rebooting rebooting = true
state_is completed completed = true
state_is failed failed = true
state_is _ _ = false

-- The precondition of each transition, on the fresh node: the state is there, parses, and is `from`.
unfoldable pub still_in : State → Node → Bool
still_in from node = elim (clean_state (parse node.annotations)) [
  | none ↦ false
  | some s ↦ state_is s from
]

unfoldable pub transition_build : State → (Node → Patch) → BuildFunc
transition_build from build node = if still_in from node then some (build node) else none

-- A call of nodestate.PatchTransition with three attempts.
unfoldable pub patch_world : Env → String → BuildFunc → World → Outcome × World
patch_world env name build w =
    let (o, s) = patch_transition 3 build (env.rounds w.transitions) name w.server in
    (o, record w { server = s; transitions = w.transitions + 1 })

abbrev pub is_done : Outcome → Bool
is_done done = true
is_done _ = false

-- f.transition
unfoldable pub transition : Env → String → State → (Node → Patch) → String → Bool → World → World
transition env name from build reason warning w =
    let (o, w') = patch_world env name (transition_build from build) w in
    if is_done o then event name reason warning w' else w'
