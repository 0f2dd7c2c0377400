-- ===== src/Engine/Cycle.antt =====
-- internal/engine/engine.go: one cycle of the polling loop. The tasks of the leader and the functions of
-- every pod act on a state of theirs; the configuration that is read in between is left out.
pub mod Decides
use simplek8s_controller.Prelude.{
  ℕ, Bool, true, false, not, ◌&&◌, String, Option, none, some, List, [], ◌∷◌, ◌++◌, any, lookup,
  if◌then◌else◌,
}
use simplek8s_controller.Stdlib.Text.{Time}
use simplek8s_controller.Stdlib.Json.{Raw, raw_is_empty}
use simplek8s_controller.Kube.Types.{Node}
use simplek8s_controller.Nodestate.State.{ann_state}
use simplek8s_controller.Engine.Lease.{
  LeaseState, leader, not_leader, no_valid_leader, Leaser, SyncRound, Synced, sync, can_decide,
}
use simplek8s_controller.Engine.Lease.Store.{LeaseStore}

-- `Engine`: what a cycle changes. `prev_lease` is `none` until the first state is seen, and
-- `last_ok` is the time of the last successful cycle.
pub record Engine : Type 0 where
  pub leaser : Leaser
  pub api_up : Bool
  pub no_leader : Bool
  pub prev_lease : Option LeaseState
  pub last_ok : Option Time
  pub events : List String

-- The environment of a cycle: the node list, the sync, and the clock reads of the cycle, of the
-- sync and of CanDecide.
pub record CycleEnv : Type 0 where
  pub nodes : Option (List Node)
  pub round : SyncRound
  pub now : Time
  pub sync_now : Time
  pub decide_now : Time

unfoldable pub has_reboot_state : Node → Bool
has_reboot_state n = elim (lookup ann_state n.annotations) [
  | none ↦ false
  | some raw ↦ not (raw_is_empty raw)
]

unfoldable pub any_reboot_state : List Node → Bool
unfolding has_reboot_state
any_reboot_state nodes = any has_reboot_state nodes

abbrev pub is_leading : LeaseState → Bool
is_leading leader = true
is_leading _ = false

abbrev pub is_headless : LeaseState → Bool
is_headless no_valid_leader = true
is_headless _ = false

-- The report of a missing leader: once, until the condition ends.
unfoldable pub note_leader : Bool → Engine → Engine
note_leader missing e =
    if missing
    then if not e.no_leader
      then record e { no_leader = true; events = e.events ++ "NoValidLeader" ∷ [] }
      else e
    else record e { no_leader = false }

-- The functions in their order.
unfoldable pub run_each {ℓ} : {W : Type ℓ} → List (W → W) → W → W
run_each [] w = w
run_each (f ∷ fs) w = run_each fs (f w)

-- The engine, the lease and the state of the functions after a cycle.
pub record Cycled {ℓ} (W : Type ℓ) : Type ℓ where
  pub engine : Engine
  pub store : LeaseStore
  pub world : W

-- What follows the sync.
unfoldable pub after_sync {ℓ} :
    {W : Type ℓ}
    → List (W → W)
    → List (W → W)
    → CycleEnv
    → List Node
    → Engine
    → Synced
    → W
    → Cycled W
after_sync tasks locals env nodes e y w =
    let e1 = record e { api_up = true; leaser = y.leaser; prev_lease = some y.state } in
    let e2 = note_leader (is_headless y.state && any_reboot_state nodes) e1 in
    let w1 =
      if is_leading y.state && can_decide y.leaser env.decide_now then run_each tasks w else w in
    record {
      engine = record e2 { last_ok = some env.now };
      store = y.store;
      world = run_each locals w1;
    }

-- The cycle over what the list of the nodes gave.
unfoldable pub cycle_over {ℓ} :
    {W : Type ℓ}
    → String
    → List (W → W)
    → List (W → W)
    → CycleEnv
    → Engine
    → LeaseStore
    → W
    → Option (List Node)
    → Cycled W
cycle_over identity tasks locals env e s w none = record {
  engine = record e { api_up = false };
  store = s;
  world = w;
}
cycle_over identity tasks locals env e s w (some nodes) =
    after_sync tasks locals env nodes e (sync identity env.sync_now env.round e.leaser s) w

-- e.Cycle
unfoldable pub cycle {ℓ} :
    {W : Type ℓ}
    → String
    → List (W → W)
    → List (W → W)
    → CycleEnv
    → Engine
    → LeaseStore
    → W
    → Cycled W
unfolding cycle_over
cycle identity tasks locals env e s w = cycle_over identity tasks locals env e s w env.nodes
