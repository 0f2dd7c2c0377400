-- ===== src/Nodestate/Transition.antt =====
-- internal/nodestate/state.go: `PatchTransition`, against a server that other clients write to
-- between the read and the patch of each attempt.
pub mod Atomic
use simplek8s_controller.Prelude.{
  ℕ, zero, suc, ◌+◌, Bool, true, false, String, Option, none, some, List, lookup, ◌==◌,
  if◌then◌else◌,
}
use simplek8s_controller.Kube.Types.{Node, ApiError, network, is_conflict, status}
use simplek8s_controller.Kube.Server.{
  Server, Patch, Write, patch_node, patch_error, writes, or_same,
}

-- What becomes of the PATCH request: it is served; it fails before it reaches the store; or it is
-- served and the reply is lost.
pub data Delivery : Type 0 where
  delivered : Delivery
  dropped : ApiError → Delivery
  reply_lost : Delivery

-- What the environment does during one attempt.
pub record Round : Type 0 where
  pub get_fault : Option ApiError
  pub between : List Write
  pub delivery : Delivery

-- The result: nil, `ErrAbort`, another error of a call, or "still conflicting".
pub data Outcome : Type 0 where
  done aborted exhausted : Outcome
  failed_with : ApiError → Outcome

abbrev pub BuildFunc : Type 0
BuildFunc = Node → Option Patch

-- A conflict goes round again, from the state that is left; another error is returned.
unfoldable pub on_patch_error : ApiError → Server → (Server → Outcome × Server) → Outcome × Server
on_patch_error e s again = if is_conflict e then again s else (failed_with e, s)

-- c.PatchNode: what the client sees, and goes on with.
unfoldable pub send :
    Delivery → Server → String → Patch → (Server → Outcome × Server) → Outcome × Server
unfolding on_patch_error
send (dropped e) s name p again = on_patch_error e s again
send reply_lost s name p again = (failed_with network, or_same (patch_node s name p) s)
send delivered s name p again = elim (patch_node s name p) [
  | some t ↦ (done, t)
  | none ↦ on_patch_error (patch_error s name) s again
]

unfoldable pub on_build :
    Option Patch → Round → Server → String → (Server → Outcome × Server) → Outcome × Server
on_build none r s name again = (aborted, s)
on_build (some p) r s name again = send r.delivery (writes s r.between) name p again

unfoldable pub attempt :
    BuildFunc → Round → Server → String → (Server → Outcome × Server) → Outcome × Server
attempt build r s name again = elim r.get_fault [
  | some e ↦ (failed_with e, s)
  | none ↦ elim (lookup name s.nodes) [
    | none ↦ (failed_with (status 404), s)
    | some n ↦ on_build (build n) r s name again
  ]
]

-- The loop with `left` attempts to go, of which the next is number `i`.
unfoldable pub attempts : ℕ → ℕ → BuildFunc → (ℕ → Round) → String → Server → Outcome × Server
attempts zero i build env name s = (exhausted, s)
attempts (suc left) i build env name s =
    attempt build (env i) s name (λ t. attempts left (i + 1) build env name t)

abbrev pub default_attempts : ℕ → ℕ
default_attempts n = if n == 0 then 3 else n

unfoldable pub patch_transition : ℕ → BuildFunc → (ℕ → Round) → String → Server → Outcome × Server
patch_transition max_attempts build env name s =
    attempts (default_attempts max_attempts) 0 build env name s
