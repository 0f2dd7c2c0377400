-- ===== src/Engine/Lease/Writes.antt =====
-- A write of the lease, and what follows it.
use simplek8s_controller.Prelude.{
  ◌≡◌, refl, inr, Bool, true, false, not, ◌&&◌, String, Option, none, some, str_eq, eq_iff, arith,
  if◌then◌else◌,
}
use simplek8s_controller.Stdlib.Text.{Time}
use simplek8s_controller.Kube.Types.{ApiError, network, is_conflict}
use simplek8s_controller.Nodestate.Transition.{Delivery, delivered, dropped, reply_lost}
use simplek8s_controller.Engine.Lease.Store.{
  Lease, LeaseStore, Reply, accepted, refused, lease_writes, send_lease, reply_error, reply_store,
}
use simplek8s_controller.Engine.Lease.{
  Leaser, SyncRound, Synced, LeaseState, fresh_holder, is_leader, acquired, get_lease,
  classify_found, classify_read, classify, after_write,
}
use simplek8s_controller.Engine.Lease.Changes.{
  fresh_holder-Fresh, other_holder, IsRequest, Moment, at_write, at_reread, quiet, wrote, holds,
  written, Promise, Sound,
}

is_leader-acquired : (now : Time) → is_leader (acquired now) now ≡ true
unfolding is_leader
is_leader-acquired now = ground arith

abbrev is_conflict_error : Option ApiError → Bool
is_conflict_error none = false
is_conflict_error (some e) = is_conflict e

-- A write that the client sees as a conflict changed nothing; one that it sees as done was accepted.
data Sent (s : LeaseStore) (request : LeaseStore → Reply) (e : Option ApiError) (t : LeaseStore)
    : Type 0 where
  landed : request s ≡ accepted t → is_conflict_error e ≡ false → Sent s request e t
  lost : t ≡ s → (e0 : ApiError) → e ≡ some e0 → Sent s request e t

send_lease-Sent :
    (d : Delivery) (s : LeaseStore) (request : LeaseStore → Reply)
    → Sent s request (send_lease d s request).0 (send_lease d s request).1
unfolding send_lease is_conflict
send_lease-Sent (dropped e) s request = lost refl e refl
send_lease-Sent delivered s request = reply (request s) refl
  where
    reply : (r : Reply) → request s ≡ r → Sent s request (reply_error r) (reply_store r s)
    reply (accepted t) h = landed h refl
    reply (refused e) h = lost refl e refl
send_lease-Sent reply_lost s request = reply (request s) refl
  where
    reply : (r : Reply) → request s ≡ r → Sent s request (some network) (reply_store r s)
    reply (accepted t) h = landed h refl
    reply (refused e) h = lost refl network refl

both-true : {b c : Bool} → (b && c) ≡ true → (b ≡ true) × (c ≡ true)
both-true h = ground (arith, h)

not-true : {b : Bool} → not b ≡ true → b ≡ false
not-true h = ground (arith, h)

clash : {b : Bool} → b ≡ true → b ≡ false → ⊥
clash h c = ground (arith, h, c)

module _ (identity : String) (now : Time) (r : SyncRound) (l : Leaser) (s : LeaseStore) where
  abbrev pub IsSound : Synced → Type 0
  IsSound = Sound identity now r l s

  pub choose-Sound :
      (b : Bool) (x y : Synced)
      → ((b ≡ true) → IsSound x)
      → ((b ≡ false) → IsSound y)
      → IsSound (if b then x else y)
  choose-Sound true x y f g = f refl
  choose-Sound false x y f g = g refl

  classify_found-Sound :
      (t : LeaseStore) (lease : Lease)
      → Moment r s t
      → t.lease ≡ some lease
      → IsSound (classify_found identity now l t lease)
  unfolding classify_found
  classify_found-Sound t lease m found =
      choose-Sound (str_eq lease.holder identity && fresh_holder lease now) _ _
        (λ ours. record {
          change = quiet m;
          promise = (
            is_leader-acquired now,
            holds t lease m found ((eq_iff lease.holder identity).0 (both-true ours).0),
          );
        })
        (λ _.
          choose-Sound (not (str_eq lease.holder identity) && fresh_holder lease now) _ _
            (λ theirs. record {
              change = quiet m;
              promise = (
                refl,
                record {
                  store = t;
                  moment = m;
                  lease = lease;
                  found = found;
                  other = other_holder lease.holder identity (not-true (both-true theirs).0);
                  fresh = fresh_holder-Fresh lease now (both-true theirs).1;
                },
              );
            })
            (λ _. record { change = quiet m; promise = inr refl }))

  get_lease-found :
      (fault : Option ApiError) (t : LeaseStore) {lease : Lease}
      → get_lease fault t ≡ some lease
      → t.lease ≡ some lease
  unfolding get_lease
  get_lease-found none t h = h
  get_lease-found (some e) t h = absurd (ground (arith, h))

  classify_read-Sound :
      (t : LeaseStore) (found : Option Lease)
      → Moment r s t
      → ((lease : Lease) → found ≡ some lease → t.lease ≡ some lease)
      → IsSound (classify_read identity now l t found)
  unfolding classify_read
  classify_read-Sound t none m f = record { change = quiet m; promise = inr refl }
  classify_read-Sound t (some lease) m f = classify_found-Sound t lease m (f lease refl)

  classify-Sound : IsSound (classify identity now r l (lease_writes s r.before))
  unfolding classify
  classify-Sound =
      let t = lease_writes (lease_writes s r.before) r.after in
      classify_read-Sound t (get_lease r.reread_fault t) (at_reread refl)
        (λ lease h. get_lease-found r.reread_fault t h)

  -- What another error than a conflict leads to is sound as well.
  pub record Fails (failing : LeaseState × Leaser) : Type 0 where
    pub always : (t : LeaseStore) → Promise identity now r l s failing.0 failing.1 t

  pub after_write-Sound :
      (failing : LeaseState × Leaser) (request : LeaseStore → Reply)
      → Fails failing
      → IsRequest identity now (lease_writes s r.before) request
      → IsSound (
          after_write identity now r l failing
            (send_lease r.delivery (lease_writes s r.before) request))
  unfolding after_write
  after_write-Sound failing request fails ok =
      go _ _ (send_lease-Sent r.delivery (lease_writes s r.before) request)
    where
      go :
          (e : Option ApiError) (t : LeaseStore)
          → Sent (lease_writes s r.before) request e t
          → IsSound (after_write identity now r l failing (e, t))
      go none t (lost same e0 h) = absurd (ground (arith, h))
      go none t (landed h _) = record {
        change = wrote (ok t h);
        promise = (is_leader-acquired now, written (ok t h));
      }
      go (some e) t (landed h c) =
          choose-Sound (is_conflict e) _ _ (λ conflict. absurd (clash conflict c))
            (λ _. record { change = wrote (ok t h); promise = fails.always t })
      go (some e) t (lost same e0 h) = rw same (
          choose-Sound (is_conflict e) _ _ (λ _. classify-Sound)
            (λ _. record { change = quiet (at_write refl); promise = fails.always _ }))
