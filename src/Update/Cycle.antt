-- ===== src/Update/Cycle.antt =====
-- internal/features/update/update.go: `RunLocal`, the cycle of every pod on its own node; and
-- `cleanLeftoverEligible` of migrate.go.
use simplek8s_controller.Prelude.{
  Bool, true, false, not, ◌&&◌, ◌||◌, String, Option, none, some, List, [], ◌∷◌, any, lookup,
  str_eq, if◌then◌else◌,
}
use simplek8s_controller.Stdlib.Text.{Time}
use simplek8s_controller.Kube.Types.{Node}
use simplek8s_controller.Nodestate.Transition.{BuildFunc}
use simplek8s_controller.Nodestate.Update.{
  parse_update, ann_update_last_check, covers, update_last_check_build, next_kernel_build,
  precond_absent, clear_reboot_eligible_patch,
}
use simplek8s_controller.Cron.{windows_open, newest_occurrence}
use simplek8s_controller.Config.{Config}
use simplek8s_controller.Updatecore.Versions.{running_version}
use simplek8s_controller.Updatecore.Store.{BootStore}
use simplek8s_controller.Update.World.{Feature, World, Env, with_feature, get_node, patch_node}
use simplek8s_controller.Update.Flavor.{flavor_of}
use simplek8s_controller.Update.Check.{CheckResult, do_check}
use simplek8s_controller.Update.Reconcile.{newest_version, reconcile_bootloader}
use simplek8s_controller.Update.Stage.{maybe_stage}
use simplek8s_controller.Update.Enqueue.{maybe_enqueue}

-- The anchor of a node without a goal: what runs, if it is local, or the newest local version.
unfoldable pub bootstrap_target : String → List String → String
unfolding newest_version
bootstrap_target running versions =
    if not (str_eq running "") && any (str_eq running) versions
    then running
    else newest_version versions ""

-- The builder of `cleanLeftoverEligible`.
unfoldable pub unmark_build : BuildFunc
unmark_build fresh =
    if (parse_update fresh.annotations).reboot_eligible_present
    then some (clear_reboot_eligible_patch fresh.rv)
    else none

module _ {D : Type 0} (store : BootStore D) (env : Env) where
  -- f.claimCheck
  unfoldable pub claim_check : Node → Time → World D → Bool × World D
  claim_check node occ w =
      if covers (lookup ann_update_last_check node.annotations) occ
      then (false, w)
      else patch_node env node.name (update_last_check_build occ) w

  unfoldable pub bootstrap_scanned : Node → Option (List String) × D → World D → Bool × World D
  bootstrap_scanned node (none, d) w = (false, record w { disk = d })
  bootstrap_scanned node (some [], d) w = (false, record w { disk = d })
  bootstrap_scanned node (some (v ∷ vs), d) w =
      patch_node env node.name
        (next_kernel_build (bootstrap_target (running_version node.kernel_version) (v ∷ vs))
          precond_absent)
        (record w { disk = d })

  -- f.bootstrap
  unfoldable pub bootstrap : Node → World D → Bool × World D
  unfolding bootstrap_scanned
  bootstrap node w =
      if (parse_update node.annotations).next_kernel_present
      then (false, w)
      else bootstrap_scanned node (store.versions w.disk) w

  -- f.cleanLeftoverEligible
  unfoldable pub clean_leftover_eligible : World D → World D
  clean_leftover_eligible w = (patch_node env env.node_name unmark_build w).1

  -- The check of an occurrence that is claimed, and the staging.
  unfoldable pub stage_checked : Node → Config → Option CheckResult × World D → Bool × World D
  unfolding maybe_stage
  stage_checked node fc (none, w) = (false, w)
  stage_checked node fc (some res, w) = maybe_stage store env node fc res w

  unfoldable pub check_claimed : Node → Config → String → Bool × World D → Bool × World D
  unfolding stage_checked do_check
  check_claimed node fc flavor (false, w) = (false, w)
  check_claimed node fc flavor (true, w) =
      stage_checked node fc
        (do_check env node fc flavor (with_feature w (record w.feature { skip_logged = false })))

  unfoldable pub check_occurrence : Node → Config → String → Option Time → World D → Bool × World D
  unfolding check_claimed claim_check
  check_occurrence node fc flavor none w = (false, w)
  check_occurrence node fc flavor (some occ) w =
      check_claimed node fc flavor (claim_check node occ w)

  -- The work of an open window.
  unfoldable pub update_in_window : Node → Config → String → Time → World D → Bool × World D
  unfolding check_occurrence
  update_in_window node fc flavor now w =
      if windows_open fc.update_windows fc.update_window_grace now
      then check_occurrence node fc flavor (newest_occurrence fc.update_windows now) w
      else (false, with_feature w (record w.feature { skip_logged = true }))

  unfoldable pub enqueue_fresh : Config → Time → Option Node × World D → World D
  unfolding maybe_enqueue
  enqueue_fresh fc now (none, w) = w
  enqueue_fresh fc now (some node, w) = maybe_enqueue store env node fc now w

  -- The end of the cycle: a re-read after a write, and the enqueue.
  unfoldable pub finish : Node → Config → Time → Bool → Bool × World D → World D
  unfolding enqueue_fresh
  finish node fc now dirty (staged, w) =
      if dirty || staged
      then enqueue_fresh fc now (get_node env env.node_name w)
      else maybe_enqueue store env node fc now w

  abbrev pub or_node : Option Node → Node → Node
  or_node none node = node
  or_node (some fresh) _ = fresh

  unfoldable pub with_fresh : Node → Config → Time → String → Bool → Option Node × World D → World D
  unfolding finish update_in_window
  with_fresh node fc now flavor dirty (fresh, w) =
      finish (or_node fresh node) fc now dirty
        (update_in_window (or_node fresh node) fc flavor now w)

  unfoldable pub reconciled : Node → Config → Time → String → Bool → Bool × World D → World D
  unfolding with_fresh
  reconciled node fc now flavor dirty (changed, w) =
      if dirty || changed
      then with_fresh node fc now flavor true (get_node env env.node_name w)
      else with_fresh node fc now flavor false (some node, w)

  unfoldable pub with_flavor : Node → Config → Time → Bool → Option String × World D → World D
  unfolding reconciled reconcile_bootloader
  with_flavor node fc now dirty (none, w) = w
  with_flavor node fc now dirty (some flavor, w) =
      reconciled node fc now flavor dirty (reconcile_bootloader store env node dirty w)

  unfoldable pub bootstrapped : Node → Config → Time → Bool × World D → World D
  unfolding with_flavor flavor_of
  bootstrapped node fc now (dirty, w) = with_flavor node fc now dirty (flavor_of store w)

  unfoldable pub run_found : Config → Time → Option Node × World D → World D
  unfolding bootstrapped bootstrap
  run_found fc now (none, w) = w
  run_found fc now (some node, w) = bootstrapped node fc now (bootstrap node w)

  abbrev pub started : Feature → Feature
  started f = record f { was_leader = env.leader; start_cleaned = true }

  -- f.RunLocal
  unfoldable pub run_local : Config → Time → World D → World D
  unfolding clean_leftover_eligible run_found get_node
  run_local fc now w =
      let w1 = with_feature w (started w.feature) in
      let w2 = if w.feature.start_cleaned then w1 else clean_leftover_eligible w1 in
      run_found fc now (get_node env env.node_name w2)
