-- ===== src/Engine/Lease/Store.antt =====
-- internal/kubetest/fakeapi.go and internal/kube/client.go: the Lease of the election in the API server.
use simplek8s_controller.Prelude.{
  ℕ, suc, String, Option, none, some, List, [], ◌∷◌, ◌==◌, if◌then◌else◌,
}
use simplek8s_controller.Stdlib.Text.{Time}
use simplek8s_controller.Kube.Types.{ApiError, network, status}
use simplek8s_controller.Nodestate.Transition.{Delivery, delivered, dropped, reply_lost}

-- `Lease`: its version, its holder and the time that it was renewed at.
pub record Lease : Type 0 where
  pub rv : ℕ
  pub holder : String
  pub renew : Option Time

pub record LeaseStore : Type 0 where
  pub rv_counter : ℕ
  pub lease : Option Lease

-- Any client's write that was accepted.
pub data LeaseWrite : Type 0 where
  put_lease : String → Option Time → LeaseWrite
  remove_lease : LeaseWrite

-- The reply of the server.
pub data Reply : Type 0 where
  accepted : LeaseStore → Reply
  refused : ApiError → Reply

-- Under a new version.
unfoldable pub store_lease : LeaseStore → String → Option Time → LeaseStore
store_lease s holder renew =
    let rv = suc s.rv_counter in
    record { rv_counter = rv; lease = some (record { rv = rv; holder = holder; renew = renew }) }

unfoldable pub create_lease : String → Option Time → LeaseStore → Reply
create_lease holder renew s = elim s.lease [
  | none ↦ accepted (store_lease s holder renew)
  | some cur ↦ refused (status 409)
]

unfoldable pub update_lease : Lease → LeaseStore → Reply
update_lease l s = elim s.lease [
  | none ↦ refused (status 404)
  | some cur ↦
      if l.rv == cur.rv then accepted (store_lease s l.holder l.renew) else refused (status 409)
]

unfoldable pub lease_write : LeaseStore → LeaseWrite → LeaseStore
unfolding store_lease
lease_write s (put_lease holder renew) = store_lease s holder renew
lease_write s remove_lease = record s { lease = none }

unfoldable pub lease_writes : LeaseStore → List LeaseWrite → LeaseStore
unfolding lease_write
lease_writes s [] = s
lease_writes s (w ∷ ws) = lease_writes (lease_write s w) ws

abbrev pub reply_error : Reply → Option ApiError
reply_error (accepted t) = none
reply_error (refused e) = some e

abbrev pub reply_store : Reply → LeaseStore → LeaseStore
reply_store (accepted t) s = t
reply_store (refused e) s = s

-- The error that the client sees, and the store after the request.
unfoldable pub send_lease :
    Delivery → LeaseStore → (LeaseStore → Reply) → Option ApiError × LeaseStore
send_lease delivered s request = (reply_error (request s), reply_store (request s) s)
send_lease (dropped e) s request = (some e, s)
send_lease reply_lost s request = (some network, reply_store (request s) s)
