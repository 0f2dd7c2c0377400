-- ===== src/Update/Stage.antt =====
-- internal/features/update/update.go: `maybeStage` and what it calls.
use simplek8s_controller.Prelude.{
  Bool, true, false, not, ◌&&◌, ◌||◌, String, Option, none, some, List, [], ◌∷◌, ◌++◌, Dict, lookup,
  any, str_eq, if◌then◌else◌,
}
use simplek8s_controller.Stdlib.Json.{raw_eq}
use simplek8s_controller.Kube.Types.{Node}
use simplek8s_controller.Nodestate.Update.{
  UpdateInfo, parse_update, next_kernel_build, precond_quiescent,
}
use simplek8s_controller.Config.{Config}
use simplek8s_controller.Updatecore.Versions.{
  Release, parse_kernel_release, newer_ts, running_version, artifact_file_name,
}
use simplek8s_controller.Updatecore.Store.{BootStore, StageRequest, Ensured, repointed}
use simplek8s_controller.Update.World.{World, Env, version_text, event, note_scan_error, patch_node}
use simplek8s_controller.Update.Flavor.{own_versions}
use simplek8s_controller.Update.Check.{CheckResult}
use simplek8s_controller.Update.Reconcile.{ensure, rearm_if_completed, apply_safe_state}

-- The goal is in the set of the local versions.
unfoldable pub goal_in : UpdateInfo → List String → Bool
goal_in ui versions = any (raw_eq ui.next_kernel) versions

abbrev pub is_release : String → String → Option Release → Bool
is_release ts arch none = false
is_release ts arch (some r) = str_eq r.ts ts && str_eq r.flavor arch

-- indexHas, of the sums
unfoldable pub index_has : Dict String → String → String → Bool
index_has sums ts arch = any (λ entry. is_release ts arch (parse_kernel_release entry.0)) sums

unfoldable pub held_goal : UpdateInfo → String → Bool
held_goal ui running =
    ui.next_kernel_present && (ui.next_kernel_invalid || not (raw_eq ui.next_kernel running))

-- newerLocal
unfoldable pub newer_local : List String → String → Bool
newer_local versions goal = any (λ v. not (str_eq v goal) && newer_ts v goal) versions

-- The request to stage a version with its checksum.
abbrev pub request_of : Node → Config → CheckResult → String → String → StageRequest
request_of node fc res v checksum = record {
  version = v;
  arch = res.arch;
  checksum = checksum;
  artifact_file = artifact_file_name v res.arch;
  repo_base = res.url;
  preserve = fc.update_preserve;
  max_percent_usage = fc.update_max_percent_usage;
  running = running_version node.kernel_version;
}

-- Anchored, valid, not running, and not local.
unfoldable pub goal_missing : UpdateInfo → String → List String → Bool
unfolding goal_in
goal_missing ui running versions =
    ui.next_kernel_present
    && not ui.next_kernel_invalid
    && not (raw_eq ui.next_kernel running)
    && not (goal_in ui versions)

-- res.Available && res.Latest != "" && res.Latest != running && ui.NextKernel != res.Latest
unfoldable pub is_news : UpdateInfo → CheckResult → String → Bool
is_news ui res running =
    res.available
    && not (str_eq res.latest "")
    && not (str_eq res.latest running)
    && not (raw_eq ui.next_kernel res.latest)

-- The newest release is local already, and may be adopted.
unfoldable pub may_adopt : UpdateInfo → CheckResult → String → List String → Bool
unfolding held_goal is_news index_has
may_adopt ui res running versions =
    not (held_goal ui running)
    && ui.next_kernel_present
    && not ui.next_kernel_invalid
    && is_news ui res running
    && any (str_eq res.latest) versions
    && index_has res.sums res.latest res.arch

module _ {D : Type 0} (store : BootStore D) (env : Env) where
  -- f.cfg.Store.Stage
  unfoldable pub stage : StageRequest → World D → Bool × World D
  stage req w =
      let (ok, d) = store.stage req w.disk in
      (ok, record w { disk = d; staged = w.staged ++ req ∷ [] })

  unfoldable pub stage_reported : String → Bool × World D → Bool × World D
  stage_reported name (true, w) = (true, event name "UpdateStaged" false w)
  stage_reported name (false, w) = (false, event name "UpdateStagingSkipped" true w)

  -- f.stageOne
  unfoldable pub stage_one : Node → Config → CheckResult → String → World D → Bool × World D
  unfolding stage stage_reported
  stage_one node fc res v w = elim (lookup (artifact_file_name v res.arch) res.sums) [
    | none ↦ (false, w)
    | some checksum ↦ stage_reported node.name (stage (request_of node fc res v checksum) w)
  ]

  -- f.anchor
  unfoldable pub anchor : Node → String → String → World D → Bool × World D
  anchor node version running w =
      patch_node env node.name (next_kernel_build version (precond_quiescent running)) w

  unfoldable pub rearm_if_staged : String → Bool × World D → Bool × World D
  unfolding rearm_if_completed
  rearm_if_staged name (true, w) = rearm_if_completed store env name w
  rearm_if_staged name (false, w) = (false, w)

  -- (1b) The anchor, then the boot loader and the re-arm.
  unfoldable pub adopted : String → String → String → Bool → Bool × World D → Bool × World D
  unfolding ensure rearm_if_completed
  adopted name latest arch dirty (false, w) = (dirty, w)
  adopted name latest arch dirty (true, w) =
      (true, (rearm_if_completed store env name (ensure store env latest arch w).1).1)

  -- (2) What follows the staging of the newest release.
  unfoldable pub newest_anchored :
      Node → UpdateInfo → String → Bool → Bool × World D → Bool × World D
  unfolding rearm_if_completed
  newest_anchored node ui latest dirty (true, w) =
      (true, (rearm_if_completed store env node.name w).1)
  newest_anchored node ui latest dirty (false, w) =
      let (ok, w1) = rearm_if_completed store env node.name w in
      if raw_eq ui.next_kernel latest then (dirty || ok, w1) else (dirty, w)

  unfoldable pub newest_staged :
      Node → UpdateInfo → String → String → Bool → Bool × World D → Bool × World D
  unfolding anchor newest_anchored
  newest_staged node ui latest running dirty (false, w) = (dirty, w)
  newest_staged node ui latest running dirty (true, w) =
      newest_anchored node ui latest dirty (anchor node latest running w)

  -- (2) A held goal: the boot loader converges to it.
  unfoldable pub reconverged : String → Bool → Ensured × World D → Bool × World D
  unfolding rearm_if_completed
  reconverged name dirty (repointed, w) = rearm_if_completed store env name w
  reconverged name dirty (_, w) = (dirty, w)

  unfoldable pub reconverge :
      Node → CheckResult → UpdateInfo → List String → Bool → World D → Bool × World D
  unfolding goal_in newer_local reconverged ensure
  reconverge node res ui versions dirty w =
      let goal = version_text ui.next_kernel in
      if not ui.next_kernel_invalid && goal_in ui versions && newer_local versions goal
      then reconverged node.name dirty (ensure store env goal res.arch w)
      else (dirty, w)

  unfoldable pub stage_newest :
      Node
      → Config
      → CheckResult
      → UpdateInfo
      → String
      → List String
      → Bool
      → World D
      → Bool × World D
  unfolding is_news held_goal reconverge newest_staged stage_one
  stage_newest node fc res ui running versions dirty w =
      if not (is_news ui res running)
      then (dirty, w)
      else if held_goal ui running
      then reconverge node res ui versions dirty w
      else if any (str_eq res.latest) versions
      then (dirty, w)
      else newest_staged node ui res.latest running dirty (stage_one node fc res res.latest w)

  -- (1b) and (2), after (1)
  unfoldable pub stage_or_adopt :
      Node
      → Config
      → CheckResult
      → UpdateInfo
      → String
      → List String
      → Bool × World D
      → Bool × World D
  unfolding may_adopt adopted anchor stage_newest
  stage_or_adopt node fc res ui running versions (dirty, w) =
      if may_adopt ui res running versions
      then adopted node.name res.latest res.arch dirty (anchor node res.latest running w)
      else stage_newest node fc res ui running versions dirty w

  -- The body of maybeStage, with the versions of its flavor at hand.
  unfoldable pub stage_local :
      Node → Config → CheckResult → UpdateInfo → String → List String → World D → Bool × World D
  unfolding goal_missing index_has apply_safe_state rearm_if_staged stage_one stage_or_adopt
  stage_local node fc res ui running versions w =
      let goal = version_text ui.next_kernel in
      if not (goal_missing ui running versions)
      then stage_or_adopt node fc res ui running versions (false, w)
      else if not (index_has res.sums goal res.arch)
      then apply_safe_state store env node.name ui.next_kernel running res.arch w
      else stage_or_adopt node fc res ui running versions
          (rearm_if_staged node.name (stage_one node fc res goal w))

  unfoldable pub stage_scanned :
      Node → Config → CheckResult → Option (List String) × D → World D → Bool × World D
  unfolding note_scan_error stage_local
  stage_scanned node fc res (none, d) w =
      (false, note_scan_error env.node_name true (record w { disk = d }))
  stage_scanned node fc res (some files, d) w =
      stage_local node fc res (parse_update node.annotations) (running_version node.kernel_version)
        (own_versions res.arch files) (note_scan_error env.node_name false (record w { disk = d }))

  -- f.maybeStage
  unfoldable pub maybe_stage : Node → Config → CheckResult → World D → Bool × World D
  unfolding stage_scanned
  maybe_stage node fc res w =
      if str_eq res.arch "" then (false, w) else stage_scanned node fc res (store.kernels w.disk) w
