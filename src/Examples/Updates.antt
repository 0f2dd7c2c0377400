-- ===== src/Examples/Updates.antt =====
-- A node that updates: it runs 202601010000, and its repository has 202608291203.
use simplek8s_controller.Prelude.{
  ◌*◌, str_eq, String, some, List, [], ◌∷◌, lookup, true, false, if◌then◌else◌, arith,
}
use simplek8s_controller.Stdlib.Text.{lit, second}
use simplek8s_controller.Stdlib.Json.{Raw, text, raw_empty}
use simplek8s_controller.Kube.Types.{Node}
use simplek8s_controller.Kube.Server.Versions.{IsVersioned}
use simplek8s_controller.Nodestate.Update.{ann_next_kernel}
use simplek8s_controller.Cron.Parse.{interval}
use simplek8s_controller.Config.{Config, defaults}
use simplek8s_controller.Updatecore.Store.{BootStore, at_goal}
use simplek8s_controller.Update.World.{World, Env, Feature}
use simplek8s_controller.Update.Cycle.{run_local}
use simplek8s_controller.Update.Steps.{Steps, seen}
use simplek8s_controller.Update.Steps.Goals.{GoalRun, run_local-GoalRun}
use simplek8s_controller.Examples.Cluster.{quiet_round}

abbrev updating : Raw → Node
updating goal = record {
  name = "w1";
  rv = 3;
  annotations = (ann_next_kernel, goal) ∷ [];
  labels = [];
  unschedulable = false;
  conditions = record { type = "Ready"; status = "True" } ∷ [];
  kernel_version = "6.18.48-simplek8s-202601010000";
  architecture = "amd64";
}

-- The partition is the list of its kernels' versions, of the flavor x86-64.
abbrev partition : BootStore (List String)
partition = record {
  versions = λ vs. (some vs, vs);
  kernels = λ vs. (some ("simplek8s.202601010000.x86-64.efi" ∷ []), vs);
  stage = λ req vs. (true, req.version ∷ vs);
  ensure_boot_goal = λ version arch vs. (at_goal, vs);
}

abbrev sums_text : String
sums_text =
    "0123456789abcdef0123456789abcdef0123456789abcdef0123456789abcdef  simplek8s.202608291203.x86-64.efi.zst\n"

abbrev repository : Env
repository = record {
  node_name = "w1";
  rounds = λ n i. quiet_round;
  reads = λ n. record { before = []; fault = false };
  fetch = λ n url file. some (if str_eq file "SHA256SUMS" then sums_text else "signature");
  verified = λ n content sig. str_eq sig "signature";
  leader = false;
  request_id = some (lit "r1");
}

abbrev fresh_feature : Feature
fresh_feature = record {
  notified = [];
  avail_seen = [];
  skip_logged = false;
  last_goal = raw_empty;
  goal_known = false;
  flavor = "";
  flavor_known = false;
  mix_warned = false;
  flavor_warned = false;
  non_quiescent = [];
  was_leader = false;
  plans_cleaned = false;
  start_cleaned = false;
}

abbrev before : World (List String)
before = record {
  server = record { rv_counter = 5; nodes = ("w1", updating (text (lit "202601010000"))) ∷ [] };
  disk = "202601010000" ∷ [];
  feature = fresh_feature;
  events = [];
  staged = [];
  transitions = 0;
  gets = 0;
  fetches = 0;
}

before-IsVersioned : IsVersioned before.server
unfolding lookup
before-IsVersioned = record { bound = λ name n h. ground arith }

abbrev always : Config
always = record defaults {
  update_windows = interval second ∷ [];
  reboot_windows = interval second ∷ [];
}

run_local-GoalRun_example :
    GoalRun repository
      (seen (run_local partition repository always (1000000 * second) before)).flavor
      before.server
      0
      0
      (run_local partition repository always (1000000 * second) before).server
      (run_local partition repository always (1000000 * second) before).transitions
      (run_local partition repository always (1000000 * second) before).gets
run_local-GoalRun_example =
    run_local-GoalRun partition repository always (1000000 * second) before before-IsVersioned
