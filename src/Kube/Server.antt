-- ===== src/Kube/Server.antt =====
-- internal/kubetest/fakeapi.go: the node store of the API server, with merge patches that are
-- conditional on the resource version, and the writes of other clients.
pub mod Versions
use simplek8s_controller.Prelude.{
  ℕ, suc, Bool, String, Option, none, some, List, [], ◌∷◌, Dict, lookup, insert, erase, ◌==◌,
  if◌then◌else◌,
}
use simplek8s_controller.Stdlib.Json.{Raw}
use simplek8s_controller.Kube.Types.{Node, ApiError, status}

-- A merge patch of a node: `metadata.resourceVersion`, the annotations (`none` deletes the key), and
-- `spec.unschedulable` where it is given.
pub record Patch : Type 0 where
  pub rv : ℕ
  pub annotations : Dict (Option Raw)
  pub unschedulable : Option Bool

pub record Server : Type 0 where
  pub rv_counter : ℕ
  pub nodes : Dict Node

abbrev pub merge_value : String → Option Raw → Dict Raw → Dict Raw
merge_value k none anns = erase k anns
merge_value k (some v) anns = insert k v anns

-- RFC 7386, for an object of texts
unfoldable pub merge_annotations : Dict (Option Raw) → Dict Raw → Dict Raw
merge_annotations [] anns = anns
merge_annotations ((k, v) ∷ patch) anns = merge_annotations patch (merge_value k v anns)

abbrev pub or_else : Option Bool → Bool → Bool
or_else none b = b
or_else (some b) _ = b

-- The node that the patch makes.
unfoldable pub merge_patch : Node → Patch → Node
merge_patch n p = record n {
  annotations = merge_annotations p.annotations n.annotations;
  unschedulable = or_else p.unschedulable n.unschedulable;
}

-- Stores an object under a new resource version.
unfoldable pub put_node : Server → String → Node → Server
put_node s name n =
    let rv = suc s.rv_counter in
    record { rv_counter = rv; nodes = insert name (record n { rv = rv }) s.nodes }

-- The status code of a refusal, or the state after the patch.
unfoldable pub patch_node : Server → String → Patch → Option Server
unfolding merge_patch put_node
patch_node s name p = elim (lookup name s.nodes) [
  | none ↦ none
  | some n ↦ if p.rv == n.rv then some (put_node s name (merge_patch n p)) else none
]

unfoldable pub patch_error : Server → String → ApiError
patch_error s name = elim (lookup name s.nodes) [ none ↦ status 404 | some n ↦ status 409 ]

unfoldable pub remove_node : Server → String → Server
remove_node s name = record s { nodes = erase name s.nodes }

-- A write of any client: a node is registered or replaced, patched, or removed.
pub data Write : Type 0 where
  put : String → Node → Write
  patch : String → Patch → Write
  remove : String → Write

abbrev pub or_same : Option Server → Server → Server
or_same none s = s
or_same (some t) _ = t

unfoldable pub write : Server → Write → Server
write s (put name n) = put_node s name n
write s (patch name p) = or_same (patch_node s name p) s
write s (remove name) = remove_node s name

unfoldable pub writes : Server → List Write → Server
writes s [] = s
writes s (w ∷ ws) = writes (write s w) ws
