-- ===== src/Engine/Lease/Safety.antt =====
-- What a sync does to the lease, and what its result says.
use simplek8s_controller.Prelude.{
  ◌≡◌, refl, sym, ap, subst, inl, inr, Bool, true, false, String, Option, none, some, str_eq,
  eq_iff, arith, if◌then◌else◌,
}
use simplek8s_controller.Stdlib.Text.{Time}
use simplek8s_controller.Kube.Types.{ApiError, is_not_found}
use simplek8s_controller.Engine.Lease.Store.{Lease, LeaseStore, lease_writes}
use simplek8s_controller.Engine.Lease.Versions.{IsVersionedLease, lease_writes-LaterLease}
use simplek8s_controller.Engine.Lease.{
  renew_interval, stale_after, ago_lt, ago_le, Leaser, SyncRound, leader, no_valid_leader,
  fresh_holder, is_leader, belief, micro, resigned, confident, held, renew_lease, take_over, create,
  sync_found, sync,
}
use simplek8s_controller.Engine.Lease.Changes.{
  fresh_holder-Fresh, stale_holder-Fresh, other_holder, own, stale, create_lease-Written,
  update_lease-Written, at_start, quiet, Grounds, believed, holds, Promise, Sound,
}
use simplek8s_controller.Engine.Lease.Writes.{choose-Sound, Fails, after_write-Sound}

-- A belief, and the grounds that there are for it.
belief-Promise :
    (identity : String) (now : Time) (r : SyncRound) (l : Leaser) (s t : LeaseStore) (b : Bool)
    → is_leader l now ≡ b
    → (is_leader l now ≡ true → Grounds identity now r l s t)
    → Promise identity now r l s
        (if b then leader else if l.am_leader then no_valid_leader else no_valid_leader)
        l
        t
belief-Promise identity now r l s t true h why = (h, why h)
belief-Promise identity now r l s t false h why = last l.am_leader
  where
    last :
        (b : Bool) → Promise identity now r l s (if b then no_valid_leader else no_valid_leader) l t
    last true = inl refl
    last false = inl refl

belief-Fails :
    (identity : String) (now : Time) (r : SyncRound) (l : Leaser) (s : LeaseStore)
    → ((t : LeaseStore) → is_leader l now ≡ true → Grounds identity now r l s t)
    → Fails identity now r l s (belief l now, l)
unfolding belief is_leader
belief-Fails identity now r l s why = record {
  always = λ t. belief-Promise identity now r l s t (is_leader l now) refl (why t);
}

create-Sound :
    (identity : String) (now : Time) (r : SyncRound) (l : Leaser) (s : LeaseStore)
    → Sound identity now r l s (create identity now r l s)
unfolding create
create-Sound identity now r l s =
    after_write-Sound identity now r l s (no_valid_leader, resigned l) _
      (record { always = λ t. inr refl })
      (create_lease-Written identity now (lease_writes s r.before))

take_over-Sound :
    (identity : String) (now : Time) (r : SyncRound) (l : Leaser) (s : LeaseStore) (lease : Lease)
    → IsVersionedLease s
    → s.lease ≡ some lease
    → str_eq lease.holder identity ≡ false
    → Sound identity now r l s (take_over identity now r l s lease)
unfolding take_over
take_over-Sound identity now r l s lease v found foreign =
    choose-Sound identity now r l s (fresh_holder lease now) _ _
      (λ fresh. record {
        change = quiet (at_start refl);
        promise = (
          refl,
          record {
            store = s;
            moment = at_start refl;
            lease = lease;
            found = found;
            other = other_holder lease.holder identity foreign;
            fresh = fresh_holder-Fresh lease now fresh;
          },
        );
      })
      (λ old.
        after_write-Sound identity now r l s (no_valid_leader, l) _
          (record { always = λ t. inl refl })
          (update_lease-Written identity now s (lease_writes s r.before) lease v
            (lease_writes-LaterLease s r.before) found
            (stale lease (stale_holder-Fresh lease now old))))

-- Within the renew interval the renewal is still fresh.
recent-fresh :
    (now : Time) (t : Option Time)
    → ago_lt now t renew_interval ≡ true
    → ago_le now t stale_after ≡ true
unfolding ago_lt ago_le
recent-fresh now none h = h
recent-fresh now (some t) h = ground (arith, h)

belief-confident :
    (l : Leaser) (now : Time)
    → ago_lt now l.last_renewed renew_interval ≡ true
    → (belief (confident l) now ≡ leader) × (is_leader (confident l) now ≡ true)
unfolding belief is_leader
belief-confident l now h =
    let fresh = recent-fresh now l.last_renewed h in (ground (arith, fresh), ground (arith, fresh))

renewed-held :
    (identity : String) (now : Time) (lease : Lease)
    → lease.holder ≡ identity
    → record lease { renew = some (micro now) } ≡ held identity now lease
renewed-held identity now lease e =
    ap (λ h. record lease { holder = h; renew = some (micro now) }) e

renew_lease-Sound :
    (identity : String) (now : Time) (r : SyncRound) (l : Leaser) (s : LeaseStore) (lease : Lease)
    → IsVersionedLease s
    → s.lease ≡ some lease
    → str_eq lease.holder identity ≡ true
    → Sound identity now r l s (renew_lease identity now r l s lease)
unfolding renew_lease
renew_lease-Sound identity now r l s lease v found mine =
    let same : lease.holder ≡ identity = (eq_iff lease.holder identity).0 mine in
    choose-Sound identity now r l s (ago_lt now l.last_renewed renew_interval) _ _
      (λ recent.
        let (leads, led) = belief-confident l now recent in
        record {
          change = quiet (at_start refl);
          promise =
              subst (λ st. Promise identity now r l s st (confident l) s) (sym leads)
                (led, holds s lease (at_start refl) found same);
        })
      (λ _. rw (renewed-held identity now lease same) (
        after_write-Sound identity now r l s (belief l now, l) _
          (belief-Fails identity now r l s (λ t _. holds s lease (at_start refl) found same))
          (update_lease-Written identity now s (lease_writes s r.before) lease v
            (lease_writes-LaterLease s r.before) found (own lease same))))

sync_found-Sound :
    (identity : String) (now : Time) (r : SyncRound) (l : Leaser) (s : LeaseStore)
    (found : Option Lease)
    → IsVersionedLease s
    → s.lease ≡ found
    → Sound identity now r l s (sync_found identity now r l s found)
unfolding sync_found
sync_found-Sound identity now r l s none v e = create-Sound identity now r l s
sync_found-Sound identity now r l s (some lease) v e =
    choose-Sound identity now r l s (str_eq lease.holder identity) _ _
      (renew_lease-Sound identity now r l s lease v e)
      (take_over-Sound identity now r l s lease v e)

read-Sound :
    (identity : String) (now : Time) (r : SyncRound) (l : Leaser) (s : LeaseStore)
    (fault : Option ApiError)
    → r.read_fault ≡ fault
    → IsVersionedLease s
    → Sound identity now r l s (elim fault [
      | some e ↦
          if is_not_found e
          then create identity now r l s
          else record { state = belief l now; leaser = l; store = s }
      | none ↦ sync_found identity now r l s s.lease
    ])
read-Sound identity now r l s none fine v = sync_found-Sound identity now r l s s.lease v refl
read-Sound identity now r l s (some e) unread v =
    choose-Sound identity now r l s (is_not_found e) _ _ (λ _. create-Sound identity now r l s)
      (λ _. record {
        change = quiet (at_start refl);
        promise = (belief-Fails identity now r l s (λ t led. believed e unread led)).always s;
      })

-- For every identity, clock, leaser, versioned store and environment of one sync. The store: it is one
-- that the other clients of the round left, or besides, this pod wrote once, and the lease that its
-- write replaced was absent, its own, or not renewed within the last 30 seconds. The result: a leader's
-- belief is fresh, and it led before and the lease could not be read, or it saw itself as the holder
-- of the lease, or wrote it; a standby has resigned, and saw a lease of another holder that was
-- renewed within the last 30 seconds; without a valid leader the belief is as before or given up. What
-- is seen is always the lease at the start of the round, at its write or at its second read.
pub sync-Sound :
    (identity : String) (now : Time) (r : SyncRound) (l : Leaser) (s : LeaseStore)
    → IsVersionedLease s
    → Sound identity now r l s (sync identity now r l s)
unfolding sync
sync-Sound identity now r l s v = read-Sound identity now r l s r.read_fault refl v
