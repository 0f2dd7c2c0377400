-- ===== src/Reboot/Drain.antt =====
-- internal/features/reboot/drain.go: one drain cycle of a node. The replies of the API server enter as
-- arguments; the calls that are made are recorded in order.
pub mod Backoff
pub mod Spared
pub mod Calls
use Prim.Native.String.{◌++◌}
use mathlib.Core.List.{◌++◌ as append}
use simplek8s_controller.Prelude.{
  ℕ, zero, suc, ◌+◌, ◌-◌, ◌*◌, Bool, true, false, not, ◌&&◌, String, Option, none, some, List, [],
  ◌∷◌, Dict, lookup, insert, erase, str_eq, ltb, leb, ◌==◌, if◌then◌else◌,
}
use simplek8s_controller.Stdlib.Text.{Text, Time, second, sub_lt, sub_ge}
use simplek8s_controller.Kube.Types.{
  Node, Pod, ApiError, terminating, is_not_found, is_too_many_requests,
}
use simplek8s_controller.Nodestate.State.{NodeState}
use simplek8s_controller.Reboot.Pods.{evictable, unmanaged, force_of}

pub record DenyState : Type 0 where
  pub count : ℕ
  pub last_attempt : Time

pub data DrainResult : Type 0 where
  drain_pending drain_done : DrainResult
  drain_failed : Text → DrainResult

pub data PodCall : Type 0 where
  evict delete : String → String → PodCall

-- The replies to the eviction and the deletion of a pod, by namespace and name, and the error texts.
pub record Replies : Type 0 where
  pub evict_reply : String → String → Option ApiError
  pub delete_reply : String → String → Option ApiError
  pub timed_out : ℕ → Text
  pub delete_failed : String → String → ApiError → Text

pub record DrainState : Type 0 where
  pub denied : Dict DenyState
  pub calls : List PodCall

abbrev pub max_backoff : ℕ
max_backoff = 60 * second

-- The loop of `denyBackoff` with `left` doublings to go.
grow : ℕ → ℕ → ℕ
grow zero b = b
grow (suc left) b =
    let rest = grow left (b * 2) in if leb max_backoff (b * 2) then max_backoff else rest

unfoldable pub deny_backoff : Option DenyState → ℕ
unfolding grow
deny_backoff none = 0
deny_backoff (some ds) = if ds.count == 0 then 0 else grow (ds.count - 1) (5 * second)

unfoldable pub pod_key : Pod → String
pod_key p = p.namespace ++ "/" ++ p.name

-- A denial counts one more attempt, from none.
abbrev pub denied_again : Option DenyState → Time → DenyState
denied_again none now = record { count = 1; last_attempt = now }
denied_again (some ds) now = record { count = ds.count + 1; last_attempt = now }

unfoldable pub after_evict : Option ApiError → String → Time → Dict DenyState → Dict DenyState
after_evict none key now denied = erase key denied
after_evict (some e) key now denied =
    if is_too_many_requests e
    then insert key (denied_again (lookup key denied) now) denied
    else if is_not_found e
    then erase key denied
    else denied

abbrev pub backing_off : Option DenyState → Time → Bool
backing_off none now = false
backing_off (some ds) now = sub_lt now ds.last_attempt (deny_backoff (some ds))

-- The eviction loop's body.
unfoldable pub evict_pod : Replies → Time → Bool → Pod → DrainState → DrainState
unfolding pod_key after_evict
evict_pod r now force p d =
    if terminating p
    then d
    else if unmanaged p && not force
    then d
    else if backing_off (lookup (pod_key p) d.denied) now
    then d
    else record {
      denied = after_evict (r.evict_reply p.namespace p.name) (pod_key p) now d.denied;
      calls = append d.calls (evict p.namespace p.name ∷ []);
    }

unfoldable pub evict_pods : Replies → Time → Bool → List Pod → DrainState → DrainState
unfolding evict_pod
evict_pods r now force [] d = d
evict_pods r now force (p ∷ ps) d = evict_pods r now force ps (evict_pod r now force p d)

-- A reply that the force loop goes on after.
abbrev pub deleted : Option ApiError → Bool
deleted none = true
deleted (some e) = is_not_found e

abbrev reply_error : Option ApiError → ApiError
reply_error none = ApiError.network
reply_error (some e) = e

-- The force loop: it stops at the first error that is no 404.
unfoldable pub delete_pods : Replies → List Pod → DrainState → DrainResult × DrainState
delete_pods r [] d = (drain_pending, d)
delete_pods r (p ∷ ps) d =
    let reply = r.delete_reply p.namespace p.name in
    let d' = record d { calls = append d.calls (delete p.namespace p.name ∷ []) } in
    elim (terminating p) [
      | true ↦ delete_pods r ps d
      | false ↦ elim (deleted reply) [
        | true ↦ delete_pods r ps d'
        | false ↦ (drain_failed (r.delete_failed p.namespace p.name (reply_error reply)), d')
      ]
    ]

-- `toEvict`
unfoldable pub to_evict : Node → List Pod → List Pod
to_evict node [] = []
to_evict node (p ∷ ps) =
    let rest = to_evict node ps in
    if not (str_eq p.node_name node.name) then rest else if evictable p then p ∷ rest else rest

unfoldable pub drain_pods : Replies → Time → Bool → List Pod → DrainState → DrainResult × DrainState
drain_pods r now force [] d = (drain_done, d)
drain_pods r now force (p ∷ ps) d =
    let d' = evict_pods r now force (p ∷ ps) d in
    if force then delete_pods r (p ∷ ps) d' else (drain_pending, d')

-- now.Sub(st.State.Since) >= drainTimeout; a `since` of the zero time is long past.
unfoldable pub drain_expired : NodeState → Time → ℕ → Bool
drain_expired st now timeout = elim st.state [
  | none ↦ true
  | some s ↦ elim s.since [ none ↦ true | some since ↦ sub_ge now since timeout ]
]

unfoldable pub run_drain :
    Replies → Time → Node → NodeState → List Pod → ℕ → DrainState → DrainResult × DrainState
unfolding drain_expired
run_drain r now node st pods timeout d =
    if drain_expired st now timeout
    then (drain_failed (r.timed_out timeout), d)
    else drain_pods r now (force_of st) (to_evict node pods) d
