-- ===== src/Engine/Lease.antt =====
-- internal/engine/lease.go: the leader election on one Lease object, which other clients write too.
pub mod Store
pub mod Versions
pub mod Changes
pub mod Writes
pub mod Safety
pub mod Atomic
pub mod Exclusion
use simplek8s_controller.Prelude.{
  ℕ, suc, ◌*◌, ◌/◌, Bool, true, false, not, ◌&&◌, String, Option, none, some, List, [], ◌∷◌, str_eq,
  if◌then◌else◌,
}
use simplek8s_controller.Stdlib.Text.{Time, second, sub_lt, sub_le}
use simplek8s_controller.Kube.Types.{ApiError, is_conflict, is_not_found, status}
use simplek8s_controller.Nodestate.Transition.{Delivery, delivered, dropped, reply_lost}
use simplek8s_controller.Engine.Lease.Store.{
  Lease, LeaseStore, LeaseWrite, Reply, accepted, refused, update_lease, create_lease, lease_writes,
  send_lease,
}

abbrev pub renew_interval : ℕ
renew_interval = 10 * second

abbrev pub stale_after : ℕ
stale_after = 30 * second

pub data LeaseState : Type 0 where
  leader not_leader no_valid_leader : LeaseState

-- `Leaser`: what changes; the zero time of `lastRenewed` is `none`.
pub record Leaser : Type 0 where
  pub last_renewed : Option Time
  pub am_leader : Bool

-- The environment of one sync: the faults of its reads, the writes of other clients before its write and
-- after it, and what becomes of that write.
pub record SyncRound : Type 0 where
  pub read_fault : Option ApiError
  pub before : List LeaseWrite
  pub delivery : Delivery
  pub after : List LeaseWrite
  pub reread_fault : Option ApiError

-- The state, the leaser and the store after a sync.
pub record Synced : Type 0 where
  pub state : LeaseState
  pub leaser : Leaser
  pub store : LeaseStore

-- now.Sub(t) < d and now.Sub(t) <= d; the zero time is longer ago than any interval here.
unfoldable pub ago_lt : Time → Option Time → ℕ → Bool
ago_lt now none d = false
ago_lt now (some t) d = sub_lt now t d

unfoldable pub ago_le : Time → Option Time → ℕ → Bool
ago_le now none d = false
ago_le now (some t) d = sub_le now t d

unfoldable pub fresh_holder : Lease → Time → Bool
unfolding ago_le
fresh_holder lease now = ago_le now lease.renew stale_after

-- l.Leader() and l.CanDecide(), at a clock read.
unfoldable pub is_leader : Leaser → Time → Bool
unfolding ago_le
is_leader l now = l.am_leader && ago_le now l.last_renewed stale_after

unfoldable pub can_decide : Leaser → Time → Bool
unfolding is_leader
can_decide l now = is_leader l now

unfoldable pub belief : Leaser → Time → LeaseState
unfolding ago_le
belief l now =
    if l.am_leader && ago_le now l.last_renewed stale_after
    then leader
    else if l.am_leader
    then no_valid_leader
    else no_valid_leader

-- MicroTime(now), as it is written and read back
abbrev pub micro : Time → Time
micro t = t / 1000 * 1000

abbrev pub acquired : Time → Leaser
acquired now = record { last_renewed = some now; am_leader = true }

abbrev pub resigned : Leaser → Leaser
resigned l = record l { am_leader = false }

abbrev pub confident : Leaser → Leaser
confident l = record l { am_leader = true }

-- The lease after the conflict, as read again.
unfoldable pub classify_found : String → Time → Leaser → LeaseStore → Lease → Synced
classify_found identity now l s lease =
    if str_eq lease.holder identity && fresh_holder lease now
    then record { state = leader; leaser = acquired now; store = s }
    else if not (str_eq lease.holder identity) && fresh_holder lease now
    then record { state = not_leader; leaser = resigned l; store = s }
    else record { state = no_valid_leader; leaser = resigned l; store = s }

-- c.GetLease
unfoldable pub get_lease : Option ApiError → LeaseStore → Option Lease
get_lease (some e) s = none
get_lease none s = s.lease

unfoldable pub classify_read : String → Time → Leaser → LeaseStore → Option Lease → Synced
classify_read identity now l s none = record {
  state = no_valid_leader;
  leaser = resigned l;
  store = s;
}
classify_read identity now l s (some lease) = classify_found identity now l s lease

unfoldable pub classify : String → Time → SyncRound → Leaser → LeaseStore → Synced
classify identity now r l s =
    let t = lease_writes s r.after in classify_read identity now l t (get_lease r.reread_fault t)

-- What follows a write: the lease is ours, or the conflict is looked into, or `failing` tells of
-- another error.
unfoldable pub after_write :
    String → Time → SyncRound → Leaser → LeaseState × Leaser → Option ApiError × LeaseStore → Synced
after_write identity now r l failing (none, t) = record {
  state = leader;
  leaser = acquired now;
  store = t;
}
after_write identity now r l failing (some e, t) =
    if is_conflict e
    then classify identity now r l t
    else record { state = failing.0; leaser = failing.1; store = t }

-- The lease as this pod writes it.
abbrev pub held : String → Time → Lease → Lease
held identity now lease = record lease { holder = identity; renew = some (micro now) }

-- The holder is this pod.
unfoldable pub renew_lease : String → Time → SyncRound → Leaser → LeaseStore → Lease → Synced
renew_lease identity now r l s lease =
    if ago_lt now l.last_renewed renew_interval
    then record { state = belief (confident l) now; leaser = confident l; store = s }
    else after_write identity now r l (belief l now, l)
        (send_lease r.delivery (lease_writes s r.before)
          (update_lease (record lease { renew = some (micro now) })))

-- The holder is another.
unfoldable pub take_over : String → Time → SyncRound → Leaser → LeaseStore → Lease → Synced
take_over identity now r l s lease =
    if fresh_holder lease now
    then record { state = not_leader; leaser = resigned l; store = s }
    else after_write identity now r l (no_valid_leader, l)
        (send_lease r.delivery (lease_writes s r.before) (update_lease (held identity now lease)))

unfoldable pub create : String → Time → SyncRound → Leaser → LeaseStore → Synced
create identity now r l s =
    after_write identity now r l (no_valid_leader, resigned l)
      (send_lease r.delivery (lease_writes s r.before) (create_lease identity (some (micro now))))

unfoldable pub sync_found : String → Time → SyncRound → Leaser → LeaseStore → Option Lease → Synced
sync_found identity now r l s none = create identity now r l s
sync_found identity now r l s (some lease) =
    if str_eq lease.holder identity
    then renew_lease identity now r l s lease
    else take_over identity now r l s lease

-- l.Sync, which reads the clock once.
unfoldable pub sync : String → Time → SyncRound → Leaser → LeaseStore → Synced
sync identity now r l s = elim r.read_fault [
  | some e ↦
      if is_not_found e
      then create identity now r l s
      else record { state = belief l now; leaser = l; store = s }
  | none ↦ sync_found identity now r l s s.lease
]

unfoldable pub verify_ownership : String → Option ApiError → LeaseStore → Bool
unfolding get_lease
verify_ownership identity fault s = elim (get_lease fault s) [
  | none ↦ false
  | some lease ↦ str_eq lease.holder identity
]
