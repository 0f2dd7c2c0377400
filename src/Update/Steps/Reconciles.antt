-- ===== src/Update/Steps/Reconciles.antt =====
-- The reconciliation of the boot loader and the correction of a goal, as steps.
use simplek8s_controller.Prelude.{
  ◌≡◌, refl, sym, subst, inl, inr, Bool, true, false, String, Option, none, some, List, Dict,
  lookup, arith, str_eq, Option-cases,
}
use simplek8s_controller.Stdlib.Json.{Raw, raw_empty, raw_is_empty}
use simplek8s_controller.Kube.Types.{Node}
use simplek8s_controller.Nodestate.Update.{
  UpdateInfo, parse_update, is_version, ann_next_kernel, correct_goal_build, rearm_build,
}
use simplek8s_controller.Updatecore.Versions.{running_version}
use simplek8s_controller.Updatecore.Store.{
  BootStore, Ensured, at_goal, repointed, goal_absent, store_failed,
}
use simplek8s_controller.Update.World.{World, Env, version_text, event, set_goal_known}
use simplek8s_controller.Update.Flavor.{own_versions, flavor_of}
use simplek8s_controller.Update.Reconcile.{
  safe_target, ensure, rearm_if_completed, after_correction, corrected, correct, apply_safe_state,
  after_ensure, reconcile_goal, reconcile_fresh, is_steady, reconcile_bootloader,
}
use simplek8s_controller.Update.Steps.{Unreachable, malformed, Change, rearm, points, stay, step}
use simplek8s_controller.Update.Steps.Patches.{
  Fit, resolved-Fit, Runs, runs, recast, Runs-trans, Runs-same, Runs-refl, Runs-split, scans-Runs,
  get_node-Runs, patch_node-Runs,
}
use simplek8s_controller.Update.Steps.Flavors.{flavor_of-Runs, IsKnown, flavor_of-IsKnown}

-- A goal with a parse error is no version.
pub invalid-is_version :
    (anns : Dict Raw)
    → (parse_update anns).next_kernel_invalid ≡ true
    → is_version (parse_update anns).next_kernel ≡ false
unfolding parse_update
invalid-is_version anns h = elim (Option-cases (lookup ann_next_kernel anns)) [
  | inl e ↦ absurd (ground (arith, h, e))
  | inr (raw, e) ↦ ground (arith, h, e)
]

module _ {D : Type 0} (store : BootStore D) (env : Env) {o : Option String} where
  pub rearm-Runs :
      (name : String) (w : World D)
      → Fit o w
      → Runs store env o w (rearm_if_completed store env name w).1
  unfolding rearm_if_completed
  rearm-Runs name w v = patch_node-Runs store env name rearm_build w rearm v

  -- A goal is recorded, and the node re-armed.
  known-Runs : (goal : Raw) (w : World D) → Fit o w → Runs store env o w (set_goal_known goal w)
  unfolding set_goal_known
  known-Runs goal w v = Runs-same store env w _ refl v

  known_rearm-Runs :
      (name : String) (goal : Raw) (w : World D)
      → Fit o w
      → Runs store env o w (rearm_if_completed store env name (set_goal_known goal w)).1
  known_rearm-Runs name goal w v =
      let k = known-Runs goal w v in Runs-trans store env k (rearm-Runs name _ k.fit)

  after_correction-Runs :
      (name target : String) (r : Ensured × World D)
      → Fit o r.1
      → Runs store env o r.1 (after_correction store env name target r)
  unfolding after_correction
  after_correction-Runs name target (goal_absent, w) v = Runs-refl store env w v
  after_correction-Runs name target (store_failed, w) v = Runs-refl store env w v
  after_correction-Runs name target (at_goal, w) v = known_rearm-Runs name _ w v
  after_correction-Runs name target (repointed, w) v = known_rearm-Runs name _ w v

  after_ensure-Runs :
      (name : String) (goal : Raw) (changed : Bool) (r : Ensured × World D)
      → Fit o r.1
      → Runs store env o r.1 (after_ensure store env name goal changed r).1
  unfolding after_ensure
  after_ensure-Runs name goal changed (goal_absent, w) v = known-Runs goal w v
  after_ensure-Runs name goal changed (store_failed, w) v = Runs-refl store env w v
  after_ensure-Runs name goal changed (repointed, w) v = known_rearm-Runs name goal w v
  after_ensure-Runs name goal changed (at_goal, w) v =
      Runs-split store env w changed _ _ (λ c. known_rearm-Runs name goal w v)
        (λ c. known-Runs goal w v)

module _ {D : Type 0} (store : BootStore D) (env : Env) where
  pub ensure-Runs :
      (version arch : String) (w : World D)
      → Fit (some arch) w
      → Runs store env (some arch) w (ensure store env version arch w).1
  unfolding ensure
  ensure-Runs version arch w h =
      runs store env h (step stay (points version arch (h.known arch refl))) h.versioned

  corrected-Runs :
      (name target arch : String) (r : Bool × World D)
      → Fit (some arch) r.1
      → Runs store env (some arch) r.1 (corrected store env name target arch r).1
  unfolding corrected event
  corrected-Runs name target arch (false, w) v = Runs-refl store env w v
  corrected-Runs name target arch (true, w) v =
      let w1 = event name "UpdateGoalCorrected" true w in
      let r = Runs-same store env w (event name "UpdateGoalCorrected" true w) refl v in
      Runs-split store env w (str_eq target "") _ _
        (λ empty. Runs-trans store env r (known-Runs store env raw_empty _ r.fit))
        (λ set.
          let e = ensure-Runs target arch (event name "UpdateGoalCorrected" true w) r.fit in
          Runs-trans store env r (
            Runs-trans store env e
              (after_correction-Runs store env name target (ensure store env target arch _) e.fit)))

  correct-Runs :
      (name : String) (bad : Raw) (running arch : String) (r : Option (List String) × D)
      (w : World D)
      → store.kernels w.disk ≡ r
      → Unreachable env (some arch) bad
      → Fit (some arch) w
      → Runs store env (some arch) w (correct store env name bad running arch r w).1
  unfolding correct
  correct-Runs name bad running arch (none, d) w e u h = scans-Runs store env w (none, d) e h
  correct-Runs name bad running arch (some files, d) w e u h =
      let target = safe_target running (own_versions arch files) in
      let m = scans-Runs store env w (some files, d) e h in
      let at = h.known arch refl in
      let p =
        patch_node-Runs store env name
          (correct_goal_build bad (safe_target running (own_versions arch files)))
          (record w { disk = d })
          (Change.correct bad running arch files w.disk
            (subst (λ o. Unreachable env o bad) (sym at) u) at e)
          m.fit in
      Runs-trans store env m (Runs-trans store env p (corrected-Runs name target arch _ p.fit))

  pub apply_safe_state-Runs :
      (name : String) (bad : Raw) (running arch : String) (w : World D)
      → Unreachable env (some arch) bad
      → Fit (some arch) w
      → Runs store env (some arch) w (apply_safe_state store env name bad running arch w).1
  unfolding apply_safe_state
  apply_safe_state-Runs name bad running arch w u h =
      correct-Runs name bad running arch (store.kernels w.disk) w refl u h

module _ {D : Type 0} (store : BootStore D) (env : Env) {o : Option String} where
  reconcile_goal-Runs :
      (name running : String) (ui : UpdateInfo) (changed : Bool) (r : Option String × World D)
      → (ui.next_kernel_invalid ≡ true → is_version ui.next_kernel ≡ false)
      → IsKnown store env r
      → Fit o r.1
      → Runs store env o r.1 (reconcile_goal store env name running ui changed r).1
  unfolding reconcile_goal
  reconcile_goal-Runs name running ui changed (none, w) bad known h =
      Runs-split store env w (raw_is_empty ui.next_kernel) _ _
        (λ e. known-Runs store env raw_empty w h) (λ e. known-Runs store env ui.next_kernel w h)
  reconcile_goal-Runs name running ui changed (some arch, w) bad known h =
      let at = resolved-Fit arch h (known arch refl) in
      Runs-split store env w (raw_is_empty ui.next_kernel) _ _
        (λ e. known-Runs store env raw_empty w h)
        (λ e.
          Runs-split store env w ui.next_kernel_invalid _ _
            (λ i. recast store env h (
              apply_safe_state-Runs store env name ui.next_kernel running arch w (malformed (bad i))
                at))
            (λ i.
              let r =
                recast store env h
                  (ensure-Runs store env (version_text ui.next_kernel) arch w at) in
              Runs-trans store env r
                (after_ensure-Runs store env name ui.next_kernel changed _ r.fit)))

  reconcile_fresh-Runs :
      (name : String) (known : Bool) (last : Raw) (r : Option Node × World D)
      → Fit o r.1
      → Runs store env o r.1 (reconcile_fresh store env name known last r).1
  unfolding reconcile_fresh
  reconcile_fresh-Runs name known last (none, w) v = Runs-refl store env w v
  reconcile_fresh-Runs name known last (some fresh, w) v =
      let f = flavor_of-Runs store env w v in
      Runs-trans store env f (
        reconcile_goal-Runs name (running_version fresh.kernel_version)
          (parse_update fresh.annotations) _ (flavor_of store w)
          (invalid-is_version fresh.annotations) (flavor_of-IsKnown store env w) f.fit)

  pub reconcile_bootloader-Runs :
      (node : Node) (bootstrapped : Bool) (w : World D)
      → Fit o w
      → Runs store env o w (reconcile_bootloader store env node bootstrapped w).1
  unfolding reconcile_bootloader
  reconcile_bootloader-Runs node bootstrapped w v =
      Runs-split store env w
        (is_steady store env w.feature (parse_update node.annotations) bootstrapped) _ _
        (λ steady. Runs-refl store env w v)
        (λ moved.
          let g = get_node-Runs store env node.name w v in
          Runs-trans store env g (reconcile_fresh-Runs node.name _ _ _ g.fit))
