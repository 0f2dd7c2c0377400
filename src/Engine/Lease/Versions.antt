-- ===== src/Engine/Lease/Versions.antt =====
-- A lease that still has its version has not changed, whoever wrote in between.
use simplek8s_controller.Prelude.{◌≤◌, ◌<◌, ◌≡◌, ◌⊎◌, inl, inr, some, List, [], ◌∷◌, arith}
use simplek8s_controller.Engine.Lease.Store.{
  Lease, LeaseStore, LeaseWrite, put_lease, remove_lease, store_lease, lease_write, lease_writes,
}

-- The lease is not newer than the counter.
pub record IsVersionedLease (s : LeaseStore) : Type 0 where
  pub bound : (l : Lease) → s.lease ≡ some l → l.rv ≤ s.rv_counter

-- The lease of `t` is that of `s`, or was written since.
pub record LaterLease (s t : LeaseStore) : Type 0 where
  pub counter : s.rv_counter ≤ t.rv_counter
  pub kept : (l : Lease) → t.lease ≡ some l → (s.lease ≡ some l) ⊎ (s.rv_counter < l.rv)

lease_write-LaterLease : (s : LeaseStore) (w : LeaseWrite) → LaterLease s (lease_write s w)
unfolding lease_write store_lease
lease_write-LaterLease s (put_lease holder renew) = record {
  counter = omega arith;
  kept = λ l h. ground arith;
}
lease_write-LaterLease s remove_lease = record { counter = omega arith; kept = λ l h. ground arith }

pub lease_writes-LaterLease :
    (s : LeaseStore) (ws : List LeaseWrite) → LaterLease s (lease_writes s ws)
unfolding lease_writes
lease_writes-LaterLease s [] = record { counter = omega arith; kept = λ l h. inl h }
lease_writes-LaterLease s (w ∷ ws) =
    let a = lease_write-LaterLease s w in
    let b = lease_writes-LaterLease (lease_write s w) ws in
    record {
      counter = omega (arith, a.counter, b.counter);
      kept = λ l h. elim (b.kept l h) [
        | inl same ↦ a.kept l same
        | inr newer ↦ inr (omega (arith, a.counter))
      ];
    }

-- A lease read earlier that still has its version is the one that was read.
pub unchanged_lease :
    {s t : LeaseStore} (l m : Lease)
    → IsVersionedLease s
    → LaterLease s t
    → s.lease ≡ some l
    → t.lease ≡ some m
    → l.rv ≡ m.rv
    → l ≡ m
unchanged_lease {s} l m v later before now same = ground (arith, v.bound l before, later.kept m now)
