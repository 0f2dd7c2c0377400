-- ===== src/Examples/Cluster.antt =====
-- Nodes, pods and an environment where nothing fails.
use simplek8s_controller.Prelude.{◌*◌, refl, true, false, none, [], ◌∷◌, lookup, arith}
use simplek8s_controller.Stdlib.Text.{lit, second}
use simplek8s_controller.Kube.Types.{Node, Pod}
use simplek8s_controller.Kube.Server.{Server}
use simplek8s_controller.Kube.Server.Versions.{IsVersioned}
use simplek8s_controller.Nodestate.State.{State, draining, ann_state, ann_request}
use simplek8s_controller.Nodestate.Values.{state_value, request_value}
use simplek8s_controller.Nodestate.Patch.{to_rebooting_patch}
use simplek8s_controller.Nodestate.Transition.{Round, BuildFunc, delivered}
use simplek8s_controller.Nodestate.Transition.Atomic.{IsConditional}
use simplek8s_controller.Reboot.Drain.{Replies}
use simplek8s_controller.Reboot.World.{World, Env, transition_build}
use simplek8s_controller.Reboot.World.Effect.{transition_build-IsConditional}

abbrev pub node_of : State → Node
node_of s = record {
  name = "w1";
  rv = 3;
  annotations =
      (ann_state, state_value s (100 * second))
      ∷ (ann_request, request_value (lit "r1") (lit "admin") false)
      ∷ [];
  labels = [];
  unschedulable = false;
  conditions = record { type = "Ready"; status = "True" } ∷ [];
  kernel_version = "6.1.0";
  architecture = "amd64";
}

abbrev pub server_of : State → Server
server_of s = record { rv_counter = 5; nodes = ("w1", node_of s) ∷ [] }

pub server_of-IsVersioned : (s : State) → IsVersioned (server_of s)
unfolding lookup
server_of-IsVersioned s = record { bound = λ name n h. ground arith }

abbrev pub quiet_round : Round
quiet_round = record { get_fault = none; between = []; delivery = delivered }

abbrev pub all_well : Replies
all_well = record {
  evict_reply = λ ns name. none;
  delete_reply = λ ns name. none;
  timed_out = λ t. lit "drain timed out";
  delete_failed = λ ns name e. lit "delete failed";
}

abbrev pub calm : Env
calm = record {
  rounds = λ n i. quiet_round;
  owns = λ n. true;
  clock = λ n. 1000 * second;
  replies = all_well;
}

abbrev pub world_of : State → World
world_of s = record {
  server = server_of s;
  feature = record { not_ready_after = []; denied = []; notified = []; prev_inflight = [] };
  events = [];
  pod_calls = [];
  transitions = 0;
  samples = 0;
}

abbrev pub pod : Pod
pod = record {
  name = "web-0";
  namespace = "default";
  labels = ("app", "web") ∷ [];
  annotations = [];
  owner_kinds = "ReplicaSet" ∷ [];
  deletion_timestamp = none;
  node_name = "w1";
  phase = "Running";
}

abbrev pub to_rebooting_build : BuildFunc
to_rebooting_build = transition_build draining (λ n. to_rebooting_patch n.rv (1000 * second))

pub to_rebooting_build-IsConditional : IsConditional to_rebooting_build
unfolding to_rebooting_patch
to_rebooting_build-IsConditional = transition_build-IsConditional draining _ (λ n. refl)
