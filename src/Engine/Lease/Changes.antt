-- ===== src/Engine/Lease/Changes.antt =====
-- What a sync may do to the lease, and what its result tells.
use simplek8s_controller.Prelude.{
  ◌+◌, ◌*◌, ◌≤◌, ◌≡◌, ◌≢◌, sym, ◌⊎◌, inl, inr, true, false, String, Option, none, some, str_eq,
  eq_iff, arith, Bool-cases, Option-cases,
}
use simplek8s_controller.Stdlib.Text.{Time, second}
use simplek8s_controller.Kube.Types.{ApiError}
use simplek8s_controller.Engine.Lease.Store.{
  Lease, LeaseStore, Reply, accepted, store_lease, update_lease, create_lease, lease_writes,
}
use simplek8s_controller.Engine.Lease.Versions.{IsVersionedLease, LaterLease, unchanged_lease}
use simplek8s_controller.Engine.Lease.{
  Leaser, SyncRound, Synced, LeaseState, ago_le, leader, not_leader, no_valid_leader, fresh_holder,
  is_leader, micro, held,
}

-- The lease was renewed, within the stale window.
pub record Fresh (l : Lease) (now : Time) : Type 0 where
  pub renewed : Time
  pub dated : l.renew ≡ some renewed
  pub recent : now ≤ renewed + 30 * second

pub fresh_holder-Fresh : (l : Lease) (now : Time) → fresh_holder l now ≡ true → Fresh l now
unfolding fresh_holder ago_le
fresh_holder-Fresh l now h = elim (Option-cases l.renew) [
  | inl never ↦ absurd (ground (arith, h, never))
  | inr (t, dated) ↦ record { renewed = t; dated = dated; recent = ground (arith, h, dated) }
]

pub stale_holder-Fresh : (l : Lease) (now : Time) → fresh_holder l now ≡ false → ¬ (Fresh l now)
unfolding fresh_holder ago_le
stale_holder-Fresh l now h f = ground (arith, h, f.dated, f.recent)

pub unfresh-stale : (l : Lease) (now : Time) → ¬ (Fresh l now) → fresh_holder l now ≡ false
unfresh-stale l now h = elim (Bool-cases (fresh_holder l now)) [
  | inl fresh ↦ absurd (h (fresh_holder-Fresh l now fresh))
  | inr old ↦ old
]

pub other_holder : (a b : String) → str_eq a b ≡ false → a ≢ b
other_holder a b h e = ground (arith, h, (eq_iff a b).1 e)

-- This pod may write the lease: it is absent, or this pod's, or not renewed within the stale window.
pub data MayWrite (identity : String) (now : Time) : Option Lease → Type 0 where
  absent : MayWrite identity now none
  own : (l : Lease) → l.holder ≡ identity → MayWrite identity now (some l)
  stale : (l : Lease) → ¬ (Fresh l now) → MayWrite identity now (some l)

-- A request changes a store in this way.
pub record Written (identity : String) (now : Time) (s t : LeaseStore) : Type 0 where
  pub may : MayWrite identity now s.lease
  pub made : t ≡ store_lease s identity (some (micro now))

abbrev pub IsRequest : String → Time → LeaseStore → (LeaseStore → Reply) → Type 0
IsRequest identity now s request =
    (t : LeaseStore) → request s ≡ accepted t → Written identity now s t

pub create_lease-Written :
    (identity : String) (now : Time) (s : LeaseStore)
    → IsRequest identity now s (create_lease identity (some (micro now)))
unfolding create_lease
create_lease-Written identity now s t h = elim (Option-cases s.lease) [
  | inl none_there ↦ record { may = rw none_there absent; made = ground (arith, h) }
  | inr (l, there) ↦ absurd (ground (arith, h))
]

pub update_lease-Written :
    (identity : String) (now : Time) (s0 s : LeaseStore) (l : Lease)
    → IsVersionedLease s0
    → LaterLease s0 s
    → s0.lease ≡ some l
    → MayWrite identity now (some l)
    → IsRequest identity now s (update_lease (held identity now l))
unfolding update_lease
update_lease-Written identity now s0 s l v later found may t h = elim (Option-cases s.lease) [
  | inl none_there ↦ absurd (ground (arith, h))
  | inr (m, there) ↦
      let same : l.rv ≡ m.rv = ground (arith, h) in
      record {
        may = rw (there, sym (unchanged_lease l m v later found there same)) may;
        made = ground (arith, h);
      }
]

-- A store that a sync comes upon: the one it starts with; with what the other clients of its round write
-- before its own write; and with what they write until it reads the lease again.
pub data Moment (r : SyncRound) (s t : LeaseStore) : Type 0 where
  at_start : t ≡ s → Moment r s t
  at_write : t ≡ lease_writes s r.before → Moment r s t
  at_reread : t ≡ lease_writes (lease_writes s r.before) r.after → Moment r s t

-- What a sync does to the store: it leaves nothing but what the other clients of its round wrote,
-- or its own write besides.
pub data Change (identity : String) (now : Time) (r : SyncRound) (s t : LeaseStore) : Type 0 where
  quiet : Moment r s t → Change identity now r s t
  wrote : Written identity now (lease_writes s r.before) t → Change identity now r s t

-- The sync saw another holder, whose lease is fresh.
pub record Foreign (identity : String) (now : Time) (r : SyncRound) (s : LeaseStore) : Type 0 where
  pub store : LeaseStore
  pub moment : Moment r s store
  pub lease : Lease
  pub found : store.lease ≡ some lease
  pub other : lease.holder ≢ identity
  pub fresh : Fresh lease now

-- Why this pod leads: it did, and the lease could not be read; it saw itself as the holder; or it
-- wrote the lease.
pub data Grounds (identity : String) (now : Time) (r : SyncRound) (l : Leaser) (s t : LeaseStore)
    : Type 0 where
  believed :
      (e : ApiError) → r.read_fault ≡ some e → is_leader l now ≡ true → Grounds identity now r l s t
  holds :
      (u : LeaseStore) (lease : Lease)
      → Moment r s u
      → u.lease ≡ some lease
      → lease.holder ≡ identity
      → Grounds identity now r l s t
  written : Written identity now (lease_writes s r.before) t → Grounds identity now r l s t

abbrev pub Promise :
    String → Time → SyncRound → Leaser → LeaseStore → LeaseState → Leaser → LeaseStore → Type 0
Promise identity now r l s leader l' t = (is_leader l' now ≡ true) × Grounds identity now r l s t
Promise identity now r l s not_leader l' t = (l'.am_leader ≡ false) × Foreign identity now r s
Promise identity now r l s no_valid_leader l' t = (l' ≡ l) ⊎ (l'.am_leader ≡ false)

pub record Sound (identity : String) (now : Time) (r : SyncRound) (l : Leaser) (s : LeaseStore)
    (y : Synced) : Type 0 where
  pub change : Change identity now r s y.store
  pub promise : Promise identity now r l s y.state y.leaser y.store
