-- ===== src/Engine/Lease/Exclusion.antt =====
-- Two pods do not lead at once: the syncs of all pods, one after the other, on one lease.
use simplek8s_controller.Prelude.{
  suc, ◌+◌, ◌≤◌, ◌<◌, ◌≡◌, ◌≢◌, refl, sym, ap, subst, ◌∙◌, ◌⊎◌, inl, inr, Bool, true, false, String,
  Option, none, some, str_eq, eq_iff, arith, Option-cases, if◌then◌else◌,
}
use simplek8s_controller.Stdlib.Text.{Time}
use simplek8s_controller.Engine.Lease.{
  Leaser, SyncRound, Synced, stale_after, ago_le, fresh_holder, is_leader, micro, sync,
}
use simplek8s_controller.Engine.Lease.Store.{Lease, LeaseStore, store_lease}
use simplek8s_controller.Engine.Lease.Changes.{MayWrite, absent, own, stale, unfresh-stale, Written}
use simplek8s_controller.Engine.Lease.Atomic.{IsAtomic, Did, kept, put, sync-Did}

-- The lease, the leaser of each pod, and the time of the last sync.
pub record Pods : Type 0 where
  pub store : LeaseStore
  pub leasers : String → Leaser
  pub time : Time

abbrev pub set_leaser : String → Leaser → (String → Leaser) → String → Leaser
set_leaser id l leasers x = if str_eq x id then l else leasers x

-- The sync of one pod, at a clock that all pods share.
pub data PodStep : Pods → Pods → Type 0 where
  synced :
      (p : Pods) (id : String) (now : Time) (r : SyncRound)
      → p.time ≤ now
      → IsAtomic r
      → PodStep p (record {
        store = (sync id now r (p.leasers id) p.store).store;
        leasers = set_leaser id (sync id now r (p.leasers id) p.store).leaser p.leasers;
        time = now;
      })

-- A renewal that a pod remembers is still the lease's, or is stale by now.
abbrev Accounted : LeaseStore → Time → String → Time → Type 0
Accounted s now id t =
    ((l : Lease) × (s.lease ≡ some l)
      × (l.holder ≡ id)
      × ((u : Time) × (l.renew ≡ some u) × (micro t ≤ u)))
    ⊎ (micro t + stale_after < now)

record IsKept (p : Pods) : Type 0 where
  all :
      (id : String) (t : Time)
      → (p.leasers id).last_renewed ≡ some t
      → (t ≤ p.time) × Accounted p.store p.time id t

MayWrite-some :
    (id : String) (now : Time) (o : Option Lease) (l : Lease)
    → MayWrite id now o
    → o ≡ some l
    → (l.holder ≡ id) ⊎ (fresh_holder l now ≡ false)
MayWrite-some id now none l absent e = absurd (ground (arith, e))
MayWrite-some id now (some m) l (own _ mine) e = inl (ground (arith, e, mine))
MayWrite-some id now (some m) l (stale _ old) e =
    inr (subst (λ x. fresh_holder x now ≡ false) (ground (arith, e)) (unfresh-stale m now old))

-- A lease that is not fresh was renewed more than the stale window ago.
fresh_holder-false :
    (l : Lease) (now u : Time)
    → fresh_holder l now ≡ false
    → l.renew ≡ some u
    → u + stale_after < now
unfolding fresh_holder ago_le
fresh_holder-false l now u h e = ground (arith, h, e)

-- After a write of the pod `id`, what any pod remembers is accounted for.
Written-Accounted :
    (id : String) (now : Time) (s t : LeaseStore) (other : String) (at : Time)
    → Written id now s t
    → at ≤ now
    → Accounted s now other at
    → Accounted t now other at
Written-Accounted id now s t other at w low (inr old) = inr old
Written-Accounted id now s t other at w low (inl (l, there, mine, (u, renewed, since))) =
    elim (MayWrite-some id now s.lease l w.may there) [
      | inl same ↦ inl (
        record { rv = suc s.rv_counter; holder = id; renew = some (micro now) },
        (ap (λ x. x.lease) w.made ∙ stored),
        (sym same ∙ mine),
        (micro now, refl, omega (arith, low)),
      )
      | inr old ↦ inr (omega (arith, fresh_holder-false l now u old renewed, since))
    ]
  where
    stored :
        (store_lease s id (some (micro now))).lease
        ≡ some (record { rv = suc s.rv_counter; holder = id; renew = some (micro now) })
    stored = unfold store_lease in refl

-- The pod that wrote remembers what it wrote.
Written-own :
    (id : String) (now : Time) (s t : LeaseStore) → Written id now s t → Accounted t now id now
unfolding store_lease
Written-own id now s t w = inl (
  record { rv = suc s.rv_counter; holder = id; renew = some (micro now) },
  ap (λ x. x.lease) w.made,
  refl,
  (micro now, refl, omega arith),
)

Accounted-later :
    (s : LeaseStore) (now later : Time) (id : String) (t : Time)
    → now ≤ later
    → Accounted s now id t
    → Accounted s later id t
Accounted-later s now later id t h (inl holds) = inl holds
Accounted-later s now later id t h (inr old) = inr (omega (arith, old, h))

keep-other :
    (id other : String) (time now t : Time) (l : Leaser) (s : LeaseStore) (r : Synced)
    → Did id now l s r
    → time ≤ now
    → (t ≤ time) × Accounted s time other t
    → (t ≤ now) × Accounted r.store now other t
keep-other id other time now t l s r (kept same _) h (low, a) = (
  omega (arith, low, h),
  subst (λ x. Accounted x now other t) (sym same) (Accounted-later s time now other t h a),
)
keep-other id other time now t l s r (put w _) h (low, a) =
    let fits : t ≤ now = omega (arith, low, h) in
    (
      fits,
      Written-Accounted id now s r.store other t w fits (Accounted-later s time now other t h a),
    )

keep-own :
    (id : String) (time now t : Time) (l : Leaser) (s : LeaseStore) (r : Synced)
    → Did id now l s r
    → time ≤ now
    → ((t : Time) → l.last_renewed ≡ some t → (t ≤ time) × Accounted s time id t)
    → r.leaser.last_renewed ≡ some t
    → (t ≤ now) × Accounted r.store now id t
keep-own id time now t l s r (kept same old) h a e =
    keep-other id id time now t l s r (kept same old) h (a t (sym old ∙ e))
keep-own id time now t l s r (put w (inl old)) h a e =
    keep-other id id time now t l s r (put w (inl old)) h (a t (sym old ∙ e))
keep-own id time now t l s r (put w (inr new)) h a e =
    let same : now ≡ t = ground (arith, new, e) in
    subst (λ x. (x ≤ now) × Accounted r.store now id x) same
      (omega arith, Written-own id now s r.store w)

step-IsKept : {p q : Pods} → PodStep p q → IsKept p → IsKept q
step-IsKept (synced p id now r h a) k =
    let d = sync-Did id now r (p.leasers id) p.store a in
    let y = sync id now r (p.leasers id) p.store in
    record { all = λ x t. by_pod x t d h k (str_eq x id) refl }
  where
    by_pod :
        (x : String) (t : Time)
        → Did id now (p.leasers id) p.store (sync id now r (p.leasers id) p.store)
        → p.time ≤ now
        → IsKept p
        → (b : Bool) → str_eq x id ≡ b
        → (if b then (sync id now r (p.leasers id) p.store).leaser else p.leasers x).last_renewed
          ≡ some t
        → (t ≤ now) × Accounted (sync id now r (p.leasers id) p.store).store now x t
    by_pod x t d h k true mine e =
        subst (λ z. (t ≤ now) × Accounted (sync id now r (p.leasers id) p.store).store now z t)
          (sym ((eq_iff x id).0 mine))
          (keep-own id p.time now t (p.leasers id) p.store _ d h (k.all id) e)
    by_pod x t d h k false other e =
        keep-other id x p.time now t (p.leasers id) p.store _ d h (k.all x t e)

pub data Reached (start : Pods) : Pods → Type 0 where
  here : Reached start start
  next : {p q : Pods} → Reached start p → PodStep p q → Reached start q

Reached-IsKept : {start p : Pods} → Reached start p → IsKept start → IsKept p
Reached-IsKept here k = k
Reached-IsKept (next run step) k = step-IsKept step (Reached-IsKept run k)

-- Pods that have just started: nobody remembers a renewal.
pub record IsFresh (p : Pods) : Type 0 where
  pub none_renewed : (id : String) → (p.leasers id).last_renewed ≡ none

-- The pod remembers a renewal that is stale already, in the microseconds of the lease.
pub record IsLast (p : Pods) (id : String) (now : Time) : Type 0 where
  pub renewed : Time
  pub remembered : (p.leasers id).last_renewed ≡ some renewed
  pub leading : now ≤ renewed + stale_after
  pub stale_lease : micro renewed + stale_after < now

leads-renewed :
    (l : Leaser) (now : Time)
    → is_leader l now ≡ true
    → (t : Time) × (l.last_renewed ≡ some t) × (now ≤ t + stale_after)
unfolding is_leader ago_le
leads-renewed l now h = elim (Option-cases l.last_renewed) [
  | inl never ↦ absurd (ground (arith, h))
  | inr (t, e) ↦ (t, e, ground (arith, h))
]

fresh-IsKept : (p : Pods) → IsFresh p → IsKept p
fresh-IsKept p f = record { all = λ id t e. absurd (ground (arith, f.none_renewed id, e)) }

-- Two pods cannot both be the holder.
one-holder :
    (s : LeaseStore) (a b : String) (l m : Lease)
    → s.lease ≡ some l
    → s.lease ≡ some m
    → l.holder ≡ a
    → m.holder ≡ b
    → a ≡ b
one-holder s a b l m at_l at_m e f = cc (at_l, at_m, e, f)

-- From pods that have just started, after any syncs of theirs in any order, at clocks that do not
-- go back, where an error is never a made-up 404 or 409 and no write comes between the read and the
-- write of one sync: if two pods lead at the same time, then for one of them the lease is stale
-- already, so that its belief ends before the next microsecond.
pub is_leader-IsLast :
    (start p : Pods) (a b : String) (now : Time)
    → IsFresh start
    → Reached start p
    → p.time ≤ now
    → a ≢ b
    → is_leader (p.leasers a) now ≡ true
    → is_leader (p.leasers b) now ≡ true
    → IsLast p a now ⊎ IsLast p b now
is_leader-IsLast start p a b now f run later differ lead_a lead_b =
    let k = Reached-IsKept run (fresh-IsKept start f) in
    let (t, remembered, leading) = leads-renewed (p.leasers a) now lead_a in
    let (u, remembered', leading') = leads-renewed (p.leasers b) now lead_b in
    elim ((k.all a t remembered).1) [
      | inr old ↦ inl (record {
        renewed = t;
        remembered = remembered;
        leading = leading;
        stale_lease = omega (arith, old, later);
      })
      | inl (l, at_l, mine, _) ↦ elim ((k.all b u remembered').1) [
        | inr old ↦ inr (record {
          renewed = u;
          remembered = remembered';
          leading = leading';
          stale_lease = omega (arith, old, later);
        })
        | inl (m, at_m, theirs, _) ↦
            absurd (differ (one-holder p.store a b l m at_l at_m mine theirs))
      ]
    ]
