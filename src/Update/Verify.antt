-- ===== src/Update/Verify.antt =====
-- internal/features/update/verify.go and migrate.go: the leader's verification of the nodes, and
-- the deletion of the leftover plan.
use Prim.Native.String.{◌++◌ as concat}
use simplek8s_controller.Prelude.{
  Bool, true, false, not, ◌&&◌, ◌||◌, String, Option, none, some, List, [], ◌∷◌, map, Dict, lookup,
  insert, erase, any, str_eq, if◌then◌else◌,
}
use simplek8s_controller.Stdlib.Json.{Raw, raw_eq, raw_same}
use simplek8s_controller.Kube.Types.{Node, ApiError, is_not_found}
use simplek8s_controller.Nodestate.State.{State, NodeState, parse}
use simplek8s_controller.Nodestate.Update.{UpdateInfo, parse_update, is_completed}
use simplek8s_controller.Reboot.Queue.{clean_state}
use simplek8s_controller.Updatecore.Versions.{running_version}
use simplek8s_controller.Update.World.{Feature, World, event, note_event, with_feature}

-- `pnode`
pub record NodeView : Type 0 where
  pub name : String
  pub st : NodeState
  pub ui : UpdateInfo
  pub running : String

unfoldable pub view_of : Node → NodeView
view_of n = record {
  name = n.name;
  st = parse n.annotations;
  ui = parse_update n.annotations;
  running = running_version n.kernel_version;
}

abbrev pub is_completed_state : Option State → Bool
is_completed_state none = false
is_completed_state (some s) = is_completed s

-- What the leader is given: whether the plan ConfigMap has a name, and the replies of its deletion and of
-- the list of the nodes.
pub record LeaderEnv : Type 0 where
  pub plan_named : Bool
  pub delete_error : Option ApiError
  pub nodes : Option (List Node)

abbrev pub is_prev : Option Raw → Raw → Bool
is_prev none goal = false
is_prev (some prev) goal = raw_same prev goal

-- The memory of nodes that are gone is dropped.
unfoldable pub drop_gone : List NodeView → Dict Raw → Dict Raw
drop_gone vs [] = []
drop_gone vs (entry ∷ m) =
    let rest = drop_gone vs m in
    if any (λ (v : NodeView). str_eq v.name entry.0) vs then entry ∷ rest else rest

abbrev pub cleaned : Feature → Feature
cleaned f = record f { plans_cleaned = true }

module _ {D : Type 0} where
  abbrev pub with_memory : World D → Dict Raw → World D
  with_memory w m = with_feature w (record w.feature { non_quiescent = m })

  -- f.noteMismatch
  unfoldable pub note_mismatch : String → Bool → World D → World D
  unfolding note_event
  note_mismatch name active w =
      note_event (concat "mismatch:" name) name "UpdateMismatch" true active w

  -- A node that runs its goal.
  unfoldable pub verify_quiescent : NodeView → World D → World D
  unfolding note_mismatch event
  verify_quiescent v w =
      let prev = lookup v.name w.feature.non_quiescent in
      let w1 = with_memory w (erase v.name w.feature.non_quiescent) in
      note_mismatch v.name false
        (if is_prev prev v.ui.next_kernel then event v.name "UpdateApplied" false w1 else w1)

  -- A node that does not.
  unfoldable pub verify_diverged : NodeView → World D → World D
  unfolding note_mismatch
  verify_diverged v w =
      note_mismatch v.name (is_completed_state (clean_state v.st))
        (with_memory w (insert v.name v.ui.next_kernel w.feature.non_quiescent))

  -- The body of the loop over the nodes.
  unfoldable pub verify_node : NodeView → World D → World D
  unfolding verify_quiescent verify_diverged
  verify_node v w =
      if not v.ui.next_kernel_present || v.ui.next_kernel_invalid || str_eq v.running ""
      then w
      else if raw_eq v.ui.next_kernel v.running
      then verify_quiescent v w
      else verify_diverged v w

  unfoldable pub verify_each : List NodeView → World D → World D
  unfolding verify_node
  verify_each [] w = w
  verify_each (v ∷ vs) w = verify_each vs (verify_node v w)

  -- f.verifyNodes
  unfoldable pub verify_nodes : List NodeView → World D → World D
  unfolding verify_each drop_gone
  verify_nodes vs w =
      let w1 = verify_each vs w in with_memory w1 (drop_gone vs w1.feature.non_quiescent)

  -- f.cleanLeftoverPlans
  unfoldable pub clean_leftover_plans : LeaderEnv → World D → World D
  clean_leftover_plans env w =
      if not env.plan_named then with_feature w (cleaned w.feature) else elim env.delete_error [
        | none ↦ with_feature w (cleaned w.feature)
        | some e ↦ if is_not_found e then with_feature w (cleaned w.feature) else w
      ]

  abbrev pub verify_listed : Option (List Node) → World D → World D
  verify_listed none w = w
  verify_listed (some nodes) w = verify_nodes (map view_of nodes) w

  -- f.Run
  unfoldable pub run : LeaderEnv → World D → World D
  unfolding clean_leftover_plans verify_nodes
  run env w =
      let attempt = not w.feature.plans_cleaned && not w.feature.was_leader in
      let w1 =
        if attempt
        then clean_leftover_plans env (with_feature w (record w.feature { was_leader = true }))
        else w in
      verify_listed env.nodes w1
