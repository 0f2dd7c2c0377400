-- ===== src/Engine/Cycle/Decides.antt =====
-- When the tasks of the leader run.
use simplek8s_controller.Prelude.{◌≡◌, true, false, String, none, some, List}
use simplek8s_controller.Kube.Types.{Node}
use simplek8s_controller.Engine.Lease.{LeaseState, leader, Synced, is_leader}
use simplek8s_controller.Engine.Lease.Store.{LeaseStore}
use simplek8s_controller.Engine.Lease.Changes.{Change, Promise}
use simplek8s_controller.Engine.Cycle.{Engine, CycleEnv, Cycled, run_each, after_sync}

-- The store, the leaser and the result are those of one sync, which is sound.
pub record Synchronized {ℓ} {W : Type ℓ} (identity : String) (env : CycleEnv) (e : Engine)
    (s : LeaseStore) (r : Cycled W) : Type 0 where
  pub state : LeaseState
  pub noted : r.engine.prev_lease ≡ some state
  pub change : Change identity env.sync_now env.round s r.store
  pub promise : Promise identity env.sync_now env.round e.leaser s state r.engine.leaser r.store

-- What a cycle ran: nothing, without the node list; the functions of every pod alone, unless this
-- pod leads and may decide; or first the leader's tasks, on grounds from the lease, and with a
-- belief that is fresh when it is asked for the decision.
pub data Ran {ℓ} {W : Type ℓ} (identity : String) (tasks locals : List (W → W)) (env : CycleEnv)
    (e : Engine) (s : LeaseStore) (w : W) (r : Cycled W) : Type ℓ where
  unreachable :
      env.nodes ≡ none
      → r.world ≡ w
      → r.store ≡ s
      → r.engine ≡ record e { api_up = false }
      → Ran identity tasks locals env e s w r
  followed :
      (nodes : List Node)
      → env.nodes ≡ some nodes
      → Synchronized identity env e s r
      → r.world ≡ run_each locals w
      → r.engine.last_ok ≡ some env.now
      → ¬ ((r.engine.prev_lease ≡ some leader) × (is_leader r.engine.leaser env.decide_now ≡ true))
      → Ran identity tasks locals env e s w r
  led :
      (nodes : List Node)
      → env.nodes ≡ some nodes
      → Synchronized identity env e s r
      → r.world ≡ run_each locals (run_each tasks w)
      → r.engine.last_ok ≡ some env.now
      → r.engine.prev_lease ≡ some leader
      → is_leader r.engine.leaser env.decide_now ≡ true
      → Ran identity tasks locals env e s w r

module _ {ℓ} {W : Type ℓ} (identity : String) (tasks locals : List (W → W)) (env : CycleEnv)
    (nodes : List Node) (e : Engine) (s : LeaseStore) (w : W) (read : env.nodes ≡ some nodes) where
  abbrev After : Synced → Cycled W
  After y = after_sync tasks locals env nodes e y w

  abbrev Is : Synced → Type ℓ
  Is y = Ran identity tasks locals env e s w (After y)
