-- ===== src/Kube/Types.antt =====
-- internal/kube/types.go and client.go: objects, with the fields that the controller uses, and
-- status errors.
use simplek8s_controller.Prelude.{
  ℕ, Bool, false, String, Option, is_some, List, [], ◌∷◌, Dict, lookup, str_eq, ◌==◌, if◌then◌else◌,
}
use simplek8s_controller.Stdlib.Text.{Time}
use simplek8s_controller.Stdlib.Json.{Raw, ℤ}

pub record NodeCondition : Type 0 where
  pub type : String
  pub status : String

-- A resource version is the number of the write that made the object.
pub record Node : Type 0 where
  pub name : String
  pub rv : ℕ
  pub annotations : Dict Raw
  pub labels : Dict String
  pub unschedulable : Bool
  pub conditions : List NodeCondition
  pub kernel_version : String
  pub architecture : String

ready_of : List NodeCondition → Bool
ready_of [] = false
ready_of (c ∷ cs) = if str_eq c.type "Ready" then str_eq c.status "True" else ready_of cs

-- (*Node).Ready
unfoldable pub ready : Node → Bool
unfolding ready_of
ready n = ready_of n.conditions

-- (*Node).IsControlPlane
unfoldable pub is_control_plane : Node → Bool
is_control_plane n = is_some (lookup "node-role.kubernetes.io/control-plane" n.labels)

pub record Pod : Type 0 where
  pub name : String
  pub namespace : String
  pub labels : Dict String
  pub annotations : Dict String
  pub owner_kinds : List String
  pub deletion_timestamp : Option Time
  pub node_name : String
  pub phase : String

-- ObjectMeta.Terminating
unfoldable pub terminating : Pod → Bool
terminating p = is_some p.deletion_timestamp

-- (*Pod).Running
unfoldable pub running : Pod → Bool
running p = str_eq p.phase "Running"

pub record SelectorReq : Type 0 where
  pub key : String
  pub operator : String
  pub values : List String

pub record LabelSelector : Type 0 where
  pub match_labels : Dict String
  pub match_expressions : List SelectorReq

pub record PodDisruptionBudget : Type 0 where
  pub name : String
  pub namespace : String
  pub selector : Option LabelSelector
  pub disruptions_allowed : ℤ

-- An error of a call: a `StatusError` with its code, or any other.
pub data ApiError : Type 0 where
  status : ℕ → ApiError
  network : ApiError

abbrev has_code : ℕ → ApiError → Bool
has_code n (status c) = c == n
has_code n network = false

unfoldable pub is_not_found : ApiError → Bool
is_not_found e = has_code 404 e

unfoldable pub is_conflict : ApiError → Bool
is_conflict e = has_code 409 e

unfoldable pub is_too_many_requests : ApiError → Bool
is_too_many_requests e = has_code 429 e
