-- ===== src/Examples/Leases.antt =====
-- The leader election.
use simplek8s_controller.Prelude.{
  ℕ, ◌∷◌, List, true, ◌≡◌, String, ◌⊎◌, ◌+◌, eq_iff, refl, ◌*◌, false, none, some, [], arith,
}
use simplek8s_controller.Stdlib.Text.{Time, second}
use simplek8s_controller.Nodestate.Transition.{delivered}
use simplek8s_controller.Engine.Lease.Store.{
  LeaseStore, send_lease, create_lease, update_lease, lease_writes,
}
use simplek8s_controller.Engine.Lease.Versions.{IsVersionedLease}
use simplek8s_controller.Engine.Lease.Changes.{Sound}
use simplek8s_controller.Engine.Lease.{
  Leaser, SyncRound, sync, is_leader, sync_found, create, after_write, take_over, fresh_holder,
}
use simplek8s_controller.Engine.Lease.Atomic.{IsAtomic}
use simplek8s_controller.Engine.Lease.Exclusion.{
  Pods, set_leaser, synced, Reached, here, next, IsLast, is_leader-IsLast,
}
use simplek8s_controller.Engine.Lease.Safety.{sync-Sound}
use simplek8s_controller.Engine.Cycle.{Engine, CycleEnv}

-- Another pod's lease, renewed at 10 s.
abbrev stale_store : LeaseStore
stale_store = record {
  rv_counter = 4;
  lease = some (record { rv = 4; holder = "a/1"; renew = some (10 * second) });
}

stale_store-IsVersionedLease : IsVersionedLease stale_store
stale_store-IsVersionedLease = record { bound = λ l h. ground arith }

abbrev quiet_sync : SyncRound
quiet_sync = record {
  read_fault = none;
  before = [];
  delivery = delivered;
  after = [];
  reread_fault = none;
}

abbrev standby : Leaser
standby = record { last_renewed = none; am_leader = false }

sync-Sound_example :
    Sound "b/2"
      (100 * second)
      quiet_sync
      standby
      stale_store
      (sync "b/2" (100 * second) quiet_sync standby stale_store)
sync-Sound_example =
    sync-Sound "b/2" (100 * second) quiet_sync standby stale_store stale_store-IsVersionedLease

quiet_sync-IsAtomic : IsAtomic quiet_sync
quiet_sync-IsAtomic = record {
  alone = refl;
  no_404 = λ e h. ground (arith, h);
  no_409 = λ e h. ground (arith, h);
}

abbrev starting : Pods
starting = record {
  store = record { rv_counter = 0; lease = none };
  leasers = λ id. standby;
  time = 0;
}

-- A pod acquires the lease in the middle of a microsecond, and another takes it over as soon as it can.
abbrev acquired_at : Time
acquired_at = 100 * second + 500

abbrev taken_over_at : Time
taken_over_at = 130 * second + 1

abbrev sync_of : Pods → String → Time → Pods
sync_of p id now = record {
  store = (sync id now quiet_sync (p.leasers id) p.store).store;
  leasers = set_leaser id (sync id now quiet_sync (p.leasers id) p.store).leaser p.leasers;
  time = now;
}

abbrev two_leaders : Pods
two_leaders = sync_of (sync_of starting "a/1" acquired_at) "b/2" taken_over_at

two_leaders-Reached : Reached starting two_leaders
two_leaders-Reached =
    next
      (next here (synced starting "a/1" acquired_at quiet_sync (omega arith) quiet_sync-IsAtomic))
      (synced (sync_of starting "a/1" acquired_at) "b/2" taken_over_at quiet_sync (omega arith)
        quiet_sync-IsAtomic)

first_leads : is_leader (two_leaders.leasers "a/1") taken_over_at ≡ true
unfolding is_leader sync sync_found create after_write send_lease create_lease lease_writes
first_leads = refl

second_leads : is_leader (two_leaders.leasers "b/2") taken_over_at ≡ true
unfolding is_leader sync sync_found create after_write send_lease create_lease lease_writes
    take_over fresh_holder update_lease
second_leads = refl

is_leader-IsLast_example :
    IsLast two_leaders "a/1" taken_over_at ⊎ IsLast two_leaders "b/2" taken_over_at
is_leader-IsLast_example =
    is_leader-IsLast starting two_leaders "a/1" "b/2" taken_over_at
      (record { none_renewed = λ id. refl }) two_leaders-Reached (omega arith)
      (ground (arith, eq_iff "a/1" "b/2")) first_leads second_leads

-- A cycle that takes the stale lease over, with one task and one function on a number.
abbrev new_engine : Engine
new_engine = record {
  leaser = standby;
  api_up = true;
  no_leader = false;
  prev_lease = none;
  last_ok = none;
  events = [];
}

abbrev calm_cycle : CycleEnv
calm_cycle = record {
  nodes = some [];
  round = quiet_sync;
  now = 100 * second;
  sync_now = 100 * second;
  decide_now = 101 * second;
}

abbrev add_ten : List (ℕ → ℕ)
add_ten = (λ n. n + 10) ∷ []

abbrev double : List (ℕ → ℕ)
double = (λ n. 2 * n) ∷ []
