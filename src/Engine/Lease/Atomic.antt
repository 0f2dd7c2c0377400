-- ===== src/Engine/Lease/Atomic.antt =====
-- A sync that no other client's write comes between.
use simplek8s_controller.Prelude.{
  ◌≡◌, List, ◌∷◌, refl, sym, subst, ap, ◌⊎◌, inl, inr, Bool, true, false, String, Option, none,
  some, [], str_eq, eq_iff, arith, if◌then◌else◌,
}
use simplek8s_controller.Stdlib.Text.{Time}
use simplek8s_controller.Kube.Types.{ApiError, network, is_conflict, is_not_found}
use simplek8s_controller.Nodestate.Transition.{Delivery, delivered, dropped, reply_lost}
use simplek8s_controller.Engine.Lease.{
  Leaser, SyncRound, Synced, LeaseState, no_valid_leader, renew_interval, ago_lt, fresh_holder,
  belief, micro, resigned, held, after_write, renew_lease, take_over, create, sync_found, sync,
}
use simplek8s_controller.Engine.Lease.Store.{
  Lease, LeaseStore, LeaseWrite, Reply, accepted, store_lease, update_lease, create_lease,
  lease_writes, send_lease, reply_error, reply_store,
}
use simplek8s_controller.Engine.Lease.Changes.{
  MayWrite, absent, own, stale, stale_holder-Fresh, Written,
}

-- The environment lets nobody write between the read and the write, and makes up no 404 and no 409.
pub record IsAtomic (r : SyncRound) : Type 0 where
  pub alone : r.before ≡ []
  pub no_404 : (e : ApiError) → r.read_fault ≡ some e → is_not_found e ≡ false
  pub no_409 : (e : ApiError) → r.delivery ≡ dropped e → is_conflict e ≡ false

-- What it does: nothing to the store, or one write; the renewal is dated by the clock only after a write.
pub data Did (identity : String) (now : Time) (l : Leaser) (s : LeaseStore) (r : Synced)
    : Type 0 where
  kept : r.store ≡ s → r.leaser.last_renewed ≡ l.last_renewed → Did identity now l s r
  put :
      Written identity now s r.store
      → (r.leaser.last_renewed ≡ l.last_renewed) ⊎ (r.leaser.last_renewed ≡ some now)
      → Did identity now l s r

choose-Did :
    (identity : String) (now : Time) (l : Leaser) (s : LeaseStore) (b : Bool) (x y : Synced)
    → ((b ≡ true) → Did identity now l s x)
    → ((b ≡ false) → Did identity now l s y)
    → Did identity now l s (if b then x else y)
choose-Did identity now l s true x y f g = f refl
choose-Did identity now l s false x y f g = g refl

clash : {b : Bool} → b ≡ true → b ≡ false → ⊥
clash h c = ground (arith, h, c)

none_before : (s : LeaseStore) (ws : List LeaseWrite) → ws ≡ [] → lease_writes s ws ≡ s
unfolding lease_writes
none_before s [] e = refl
none_before s (w ∷ ws) e = absurd (ground (arith, e))

module _ (identity : String) (now : Time) (r : SyncRound) (l : Leaser) (s : LeaseStore) where
  -- An error that is no conflict.
  failed-Did :
      (failing : LeaseState × Leaser) (e : ApiError) (t : LeaseStore)
      → is_conflict e ≡ false
      → Did identity now l s (record { state = failing.0; leaser = failing.1; store = t })
      → Did identity now l s (after_write identity now r l failing (some e, t))
  unfolding after_write
  failed-Did failing e t honest d =
      choose-Did identity now l s (is_conflict e) _ _ (λ c. absurd (clash c honest)) (λ _. d)

  delivery-Did :
      (d : Delivery) (failing : LeaseState × Leaser) (request : LeaseStore → Reply) (t : LeaseStore)
      → ((e : ApiError) → d ≡ dropped e → is_conflict e ≡ false)
      → failing.1.last_renewed ≡ l.last_renewed
      → request s ≡ accepted t
      → Written identity now s t
      → Did identity now l s (after_write identity now r l failing (send_lease d s request))
  unfolding send_lease is_conflict
  delivery-Did (dropped e) failing request t honest same ok w =
      failed-Did failing e s (honest e refl) (kept refl same)
  delivery-Did delivered failing request t honest same ok w =
      subst
        (λ x.
          Did identity now l s
            (after_write identity now r l failing (reply_error x, reply_store x s)))
        (sym ok) (unfold after_write in put w (inr refl))
  delivery-Did reply_lost failing request t honest same ok w =
      subst
        (λ x.
          Did identity now l s
            (after_write identity now r l failing (some network, reply_store x s)))
        (sym ok) (failed-Did failing network t refl (put w (inl same)))

  after_write-Did :
      (failing : LeaseState × Leaser) (request : LeaseStore → Reply) (t : LeaseStore)
      → IsAtomic r
      → failing.1.last_renewed ≡ l.last_renewed
      → request s ≡ accepted t
      → Written identity now s t
      → Did identity now l s (
          after_write identity now r l failing
            (send_lease r.delivery (lease_writes s r.before) request))
  after_write-Did failing request t a same ok w =
      subst
        (λ u.
          Did identity now l s
            (after_write identity now r l failing (send_lease r.delivery u request)))
        (sym (none_before s r.before a.alone))
        (delivery-Did r.delivery failing request t a.no_409 same ok w)

  create-Did : IsAtomic r → s.lease ≡ none → Did identity now l s (create identity now r l s)
  unfolding create create_lease
  create-Did a none_there =
      after_write-Did (no_valid_leader, resigned l) (create_lease identity (some (micro now)))
        (store_lease s identity (some (micro now))) a refl (ground (arith, none_there))
        (record { may = subst (MayWrite identity now) (sym none_there) absent; made = refl })

  update-Did :
      (failing : LeaseState × Leaser) (lease : Lease)
      → IsAtomic r
      → failing.1.last_renewed ≡ l.last_renewed
      → s.lease ≡ some lease
      → MayWrite identity now (some lease)
      → Did identity now l s (
          after_write identity now r l failing (
            send_lease r.delivery
              (lease_writes s r.before)
              (update_lease (held identity now lease))))
  unfolding update_lease
  update-Did failing lease a same found may =
      after_write-Did failing (update_lease (held identity now lease))
        (store_lease s identity (some (micro now))) a same (ground (arith, found))
        (record { may = subst (MayWrite identity now) (sym found) may; made = refl })

  take_over-Did :
      (lease : Lease)
      → IsAtomic r
      → s.lease ≡ some lease
      → Did identity now l s (take_over identity now r l s lease)
  unfolding take_over
  take_over-Did lease a found =
      choose-Did identity now l s (fresh_holder lease now) _ _ (λ _. kept refl refl)
        (λ old.
          update-Did (no_valid_leader, l) lease a refl found
            (stale lease (stale_holder-Fresh lease now old)))

  renew_lease-Did :
      (lease : Lease)
      → IsAtomic r
      → s.lease ≡ some lease
      → str_eq lease.holder identity ≡ true
      → Did identity now l s (renew_lease identity now r l s lease)
  unfolding renew_lease
  renew_lease-Did lease a found mine =
      let same : lease.holder ≡ identity = (eq_iff lease.holder identity).0 mine in
      choose-Did identity now l s (ago_lt now l.last_renewed renew_interval) _ _
        (λ _. kept refl refl)
        (λ _.
          rw (ap (λ h. record lease { holder = h; renew = some (micro now) }) same)
            (update-Did (belief l now, l) lease a refl found (own lease same)))

  sync_found-Did :
      (found : Option Lease)
      → IsAtomic r
      → s.lease ≡ found
      → Did identity now l s (sync_found identity now r l s found)
  unfolding sync_found
  sync_found-Did none a e = create-Did a e
  sync_found-Did (some lease) a e =
      choose-Did identity now l s (str_eq lease.holder identity) _ _ (renew_lease-Did lease a e)
        (λ _. take_over-Did lease a e)

  read-Did :
      (fault : Option ApiError)
      → IsAtomic r
      → ((e : ApiError) → fault ≡ some e → is_not_found e ≡ false)
      → Did identity now l s (elim fault [
        | some e ↦
            if is_not_found e
            then create identity now r l s
            else record { state = belief l now; leaser = l; store = s }
        | none ↦ sync_found identity now r l s s.lease
      ])
  read-Did none a honest = sync_found-Did s.lease a refl
  read-Did (some e) a honest =
      choose-Did identity now l s (is_not_found e) _ _ (λ h. absurd (clash h (honest e refl)))
        (λ _. kept refl refl)

  pub sync-Did : IsAtomic r → Did identity now l s (sync identity now r l s)
  unfolding sync
  sync-Did a = read-Did r.read_fault a a.no_404
