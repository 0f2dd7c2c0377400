-- ===== src/Update/Reconcile.antt =====
-- internal/features/update/reconcile.go: the boot loader follows the goal, and an unreachable goal is
-- corrected.
use simplek8s_controller.Prelude.{
  Bool, true, false, not, ◌&&◌, ◌||◌, String, Option, none, some, List, [], ◌∷◌, any, str_eq,
  if◌then◌else◌,
}
use simplek8s_controller.Stdlib.Text.{lit}
use simplek8s_controller.Stdlib.Json.{Raw, text, raw_empty, raw_is_empty, raw_same}
use simplek8s_controller.Kube.Types.{Node}
use simplek8s_controller.Nodestate.Update.{
  UpdateInfo, parse_update, correct_goal_build, rearm_build,
}
use simplek8s_controller.Updatecore.Versions.{newer_ts, running_version}
use simplek8s_controller.Updatecore.Store.{
  BootStore, Ensured, at_goal, repointed, goal_absent, store_failed,
}
use simplek8s_controller.Update.World.{
  Feature, World, Env, version_text, event, set_goal_known, get_node, patch_node,
}
use simplek8s_controller.Update.Flavor.{own_versions, flavor_of}

abbrev pub newer_of : String → String → String
newer_of ts newest = if str_eq newest "" || newer_ts ts newest then ts else newest

-- The newest of the versions, from one on; "" is none.
unfoldable pub newest_version : List String → String → String
newest_version [] newest = newest
newest_version (ts ∷ versions) newest = newest_version versions (newer_of ts newest)

-- The safe state, among the versions at hand: "" deletes the annotation.
unfoldable pub safe_target : String → List String → String
unfolding newest_version
safe_target running versions =
    if not (str_eq running "") && any (str_eq running) versions
    then running
    else newest_version versions ""

module _ {D : Type 0} (store : BootStore D) (env : Env) where
  -- f.cfg.Store.EnsureBootGoal
  unfoldable pub ensure : String → String → World D → Ensured × World D
  ensure version arch w =
      let (e, d) = store.ensure_boot_goal version arch w.disk in (e, record w { disk = d })

  -- f.rearmIfCompleted
  unfoldable pub rearm_if_completed : String → World D → Bool × World D
  rearm_if_completed name w = patch_node env name rearm_build w

  -- The end of a correction to a version: re-point and re-arm.
  unfoldable pub after_correction : String → String → Ensured × World D → World D
  unfolding rearm_if_completed
  after_correction name target (goal_absent, w) = w
  after_correction name target (store_failed, w) = w
  after_correction name target (_, w) =
      (rearm_if_completed name (set_goal_known (text (lit target)) w)).1

  unfoldable pub corrected : String → String → String → Bool × World D → Bool × World D
  unfolding after_correction ensure
  corrected name target arch (false, w) = (false, w)
  corrected name target arch (true, w) =
      let w1 = event name "UpdateGoalCorrected" true w in
      if str_eq target ""
      then (true, set_goal_known raw_empty w1)
      else (true, after_correction name target (ensure target arch w1))

  unfoldable pub correct :
      String → Raw → String → String → Option (List String) × D → World D → Bool × World D
  unfolding corrected
  correct name bad running arch (none, d) w = (false, record w { disk = d })
  correct name bad running arch (some files, d) w =
      let target = safe_target running (own_versions arch files) in
      corrected name target arch
        (patch_node env name (correct_goal_build bad target) (record w { disk = d }))

  -- f.applySafeState, with f.safeState
  unfoldable pub apply_safe_state : String → Raw → String → String → World D → Bool × World D
  unfolding correct
  apply_safe_state name bad running arch w = correct name bad running arch (store.kernels w.disk) w

  -- The results of EnsureBootGoal.
  unfoldable pub after_ensure : String → Raw → Bool → Ensured × World D → Bool × World D
  unfolding rearm_if_completed
  after_ensure name goal changed (goal_absent, w) = (false, set_goal_known goal w)
  after_ensure name goal changed (store_failed, w) = (false, w)
  after_ensure name goal changed (repointed, w) = rearm_if_completed name (set_goal_known goal w)
  after_ensure name goal changed (at_goal, w) =
      let w1 = set_goal_known goal w in if changed then rearm_if_completed name w1 else (false, w1)

  unfoldable pub reconcile_goal :
      String → String → UpdateInfo → Bool → Option String × World D → Bool × World D
  unfolding apply_safe_state after_ensure ensure
  reconcile_goal name running ui changed (flavor, w) =
      let goal = ui.next_kernel in
      if raw_is_empty goal then (false, set_goal_known raw_empty w) else elim flavor [
        | none ↦ (false, set_goal_known goal w)
        | some arch ↦
            if ui.next_kernel_invalid
            then apply_safe_state name goal running arch w
            else after_ensure name goal changed (ensure (version_text goal) arch w)
      ]

  unfoldable pub reconcile_fresh : String → Bool → Raw → Option Node × World D → Bool × World D
  unfolding reconcile_goal
  reconcile_fresh name known last (none, w) = (false, w)
  reconcile_fresh name known last (some fresh, w) =
      let ui = parse_update fresh.annotations in
      reconcile_goal name (running_version fresh.kernel_version) ui
        (known && not (raw_same ui.next_kernel last)) (flavor_of store w)

  -- Nothing has changed since the last cycle.
  unfoldable pub is_steady : Feature → UpdateInfo → Bool → Bool
  is_steady f ui bootstrapped =
      f.goal_known
      && not bootstrapped
      && raw_same ui.next_kernel f.last_goal
      && (ui.next_kernel_present || raw_is_empty f.last_goal)

  -- f.reconcileBootloader
  unfoldable pub reconcile_bootloader : Node → Bool → World D → Bool × World D
  unfolding reconcile_fresh is_steady
  reconcile_bootloader node bootstrapped w =
      if is_steady w.feature (parse_update node.annotations) bootstrapped
      then (false, w)
      else reconcile_fresh node.name w.feature.goal_known w.feature.last_goal
          (get_node env node.name w)
