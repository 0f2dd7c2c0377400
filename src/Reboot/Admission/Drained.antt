-- ===== src/Reboot/Admission/Drained.antt =====
-- The store after the admission of a node.
use simplek8s_controller.Prelude.{ℕ, suc, ◌≡◌, true, String, some, lookup}
use simplek8s_controller.Stdlib.Text.{Time}
use simplek8s_controller.Kube.Types.{Node}
use simplek8s_controller.Kube.Server.{Server, merge_patch, writes}
use simplek8s_controller.Nodestate.State.{requested, draining, parse}
use simplek8s_controller.Nodestate.Patch.{drop_blocked}
use simplek8s_controller.Nodestate.RoundTrip.{written_state}
use simplek8s_controller.Nodestate.Effects.{status_after, current_status, parse-to_draining_patch}
use simplek8s_controller.Nodestate.Transition.{Round}
use simplek8s_controller.Nodestate.Transition.Atomic.{interference}
use simplek8s_controller.Reboot.Queue.{clean_state}
use simplek8s_controller.Reboot.World.Effect.{Moved}
use simplek8s_controller.Reboot.Admission.{draining_patch_of}

-- The admitted node: it was requested when the patch landed, and is stored as draining since `now`, and
-- cordoned, with its request and exec record as before, and the status without `blockedBy`, in which
-- an earlier cordon is recorded.
pub record Drains (env : ℕ → Round) (now : Time) (name : String) (s t : Server) : Type 0 where
  pub rounds : ℕ
  pub before : Node
  pub after : Node
  pub found : lookup name (writes s (interference env 0 rounds)).nodes ≡ some before
  pub source : clean_state (parse before.annotations) ≡ some requested
  pub stored : lookup name t.nodes ≡ some after
  pub cordoned : after.unschedulable ≡ true
  pub parsed : parse after.annotations ≡ record (parse before.annotations) {
    state = some (written_state draining now);
    status = status_after (drop_blocked before.unschedulable (current_status before));
  }

pub Drains-of_Moved :
    {env : ℕ → Round} {now : Time} {name : String} {s t : Server}
    → Moved env requested (draining_patch_of now) name s t
    → Drains env now name s t
Drains-of_Moved {env} {now} {s = s} m =
    let e = parse-to_draining_patch m.before m.before.rv now m.before.unschedulable in
    record {
      rounds = m.rounds;
      before = m.before;
      after = record (merge_patch m.before (draining_patch_of now m.before)) {
        rv = suc (writes s (interference env 0 m.rounds)).rv_counter;
      };
      found = m.found;
      source = m.source;
      stored = m.after;
      cordoned = e.1;
      parsed = e.0;
    }
