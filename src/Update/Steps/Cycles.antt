-- ===== src/Update/Steps/Cycles.antt =====
-- The whole cycle of the pod, as steps.
use simplek8s_controller.Prelude.{
  ◌≡◌, refl, sym, subst, Bool, true, false, not, ◌||◌, String, Option, none, some, List, [], ◌∷◌,
  lookup, arith,
}
use simplek8s_controller.Stdlib.Text.{Text, Time}
use simplek8s_controller.Kube.Types.{Node}
use simplek8s_controller.Kube.Server.Versions.{IsVersioned}
use simplek8s_controller.Nodestate.State.{parse}
use simplek8s_controller.Nodestate.Update.{UpdateInfo, parse_update, ann_update_last_check, covers}
use simplek8s_controller.Cron.{windows_open}
use simplek8s_controller.Config.{Config}
use simplek8s_controller.Updatecore.Versions.{running_version}
use simplek8s_controller.Updatecore.Store.{BootStore, Ensured}
use simplek8s_controller.Update.World.{World, Env, version_text, with_feature, get_node}
use simplek8s_controller.Update.Flavor.{flavor_of}
use simplek8s_controller.Update.Check.{CheckResult, do_check}
use simplek8s_controller.Update.Reconcile.{ensure}
use simplek8s_controller.Update.Enqueue.{
  is_eligible, is_ensured, note_held, enqueue_request, enqueue_goal, enqueue_flavored,
  maybe_enqueue,
}
use simplek8s_controller.Update.Stage.{maybe_stage}
use simplek8s_controller.Update.Cycle.{
  unmark_build, claim_check, bootstrap_scanned, bootstrap, clean_leftover_eligible, stage_checked,
  check_claimed, check_occurrence, update_in_window, enqueue_fresh, finish, or_node, with_fresh,
  reconciled, with_flavor, bootstrapped, run_found, started, run_local,
}
use simplek8s_controller.Update.Steps.{
  InPlace, Change, bootstrap as bootstraps, claim, unmark, seen, Steps,
}
use simplek8s_controller.Update.Steps.Patches.{
  Fit, resolved-Fit, Runs, recast, Runs-trans, Runs-same, Runs-refl, Runs-split, Runs-branch,
  lists-Runs, get_node-Runs, patch_node-Runs, seen-note_event,
}
use simplek8s_controller.Update.Steps.Flavors.{
  flavor_of-Runs, IsKnown, flavor_of-IsKnown, Found, do_check-Found, do_check-Runs,
}
use simplek8s_controller.Update.Steps.Reconciles.{ensure-Runs, reconcile_bootloader-Runs}
use simplek8s_controller.Update.Steps.Stages.{maybe_stage-Runs}

module _ {D : Type 0} (store : BootStore D) (env : Env) where
  note_held-Runs :
      {o : Option String} (name : String) (active : Bool) (w : World D)
      → Fit o w
      → Runs store env o w (note_held store env name active w)
  unfolding note_held
  note_held-Runs name active w v =
      Runs-same store env w _ (seen-note_event store env _ name _ false active w) v

  -- What EnsureBootGoal gives, and that it is in place.
  ensure-InPlace :
      (goal arch : String) (w : World D)
      → is_ensured (ensure store env goal arch w).0 ≡ true
      → InPlace store goal arch (ensure store env goal arch w).1.disk
  unfolding ensure
  ensure-InPlace goal arch w e = record { before = w.disk; result = _; call = refl; ensured = e }

  enqueue_request-Runs :
      (node : Node) (now : Time) (goal running arch : String) (id : Option Text) (w : World D)
      → InPlace store goal arch w.disk
      → Fit (some arch) w
      → Runs store env (some arch) w (enqueue_request store env node now goal running id w)
  unfolding enqueue_request
  enqueue_request-Runs node now goal running arch none w place v = Runs-refl store env w v
  enqueue_request-Runs node now goal running arch (some id) w place v =
      patch_node-Runs store env node.name _ w
        (Change.enqueue now id goal running arch (v.known arch refl) place) v

  enqueue_goal-Runs :
      (node : Node) (now : Time) (goal running arch : String) (r : Ensured × World D)
      → (is_ensured r.0 ≡ true → InPlace store goal arch r.1.disk)
      → Fit (some arch) r.1
      → Runs store env (some arch) r.1 (enqueue_goal store env node now goal running r)
  unfolding enqueue_goal
  enqueue_goal-Runs node now goal running arch (e, w) place v =
      Runs-branch store env w (not (is_ensured e)) w _ (λ no_goal. Runs-refl store env w v)
        (λ there.
          enqueue_request-Runs node now goal running arch env.request_id w
            (place (ground (arith, there))) v)

  enqueue_flavored-Runs :
      {o : Option String} (node : Node) (fc : Config) (now : Time) (ui : UpdateInfo)
      (running : String) (r : Option String × World D)
      → IsKnown store env r
      → Fit o r.1
      → Runs store env o r.1 (enqueue_flavored store env node fc now ui running r)
  unfolding enqueue_flavored
  enqueue_flavored-Runs node fc now ui running (none, w) known v =
      note_held-Runs node.name false w v
  enqueue_flavored-Runs node fc now ui running (some arch, w) known v =
      Runs-branch store env w (not (windows_open fc.reboot_windows fc.reboot_window_grace now)) _ _
        (λ closed. note_held-Runs node.name true w v)
        (λ open_now.
          let goal = version_text ui.next_kernel in
          let w1 = note_held store env node.name false w in
          let at = resolved-Fit arch v (known arch refl) in
          let h = note_held-Runs node.name false w at in
          let e = ensure-Runs store env goal arch w1 h.fit in
          recast store env v (
            Runs-trans store env h (
              Runs-trans store env e (
                enqueue_goal-Runs node now goal running arch (ensure store env goal arch w1)
                  (ensure-InPlace goal arch w1) e.fit))))

  maybe_enqueue-Runs :
      {o : Option String} (node : Node) (fc : Config) (now : Time) (w : World D)
      → Fit o w
      → Runs store env o w (maybe_enqueue store env node fc now w)
  unfolding maybe_enqueue
  maybe_enqueue-Runs node fc now w v =
      Runs-branch store env w
        (not (
          is_eligible (parse_update node.annotations) (parse node.annotations)
            (running_version node.kernel_version)))
        _ _ (λ barred. note_held-Runs node.name false w v)
        (λ eligible.
          let f = flavor_of-Runs store env w v in
          Runs-trans store env f (
            enqueue_flavored-Runs node fc now (parse_update node.annotations)
              (running_version node.kernel_version) (flavor_of store w)
              (flavor_of-IsKnown store env w) f.fit))

  claim_check-Runs :
      {o : Option String} (node : Node) (occ : Time) (w : World D)
      → Fit o w
      → Runs store env o w (claim_check store env node occ w).1
  unfolding claim_check
  claim_check-Runs node occ w v =
      Runs-split store env w (covers (lookup ann_update_last_check node.annotations) occ) _ _
        (λ covered. Runs-refl store env w v)
        (λ due. patch_node-Runs store env node.name _ w (claim occ) v)

  bootstrap_scanned-Runs :
      {o : Option String} (node : Node) (r : Option (List String) × D) (w : World D)
      → store.versions w.disk ≡ r
      → Fit o w
      → Runs store env o w (bootstrap_scanned store env node r w).1
  unfolding bootstrap_scanned
  bootstrap_scanned-Runs node (none, d) w e v = lists-Runs store env w (none, d) e v
  bootstrap_scanned-Runs node (some [], d) w e v = lists-Runs store env w (some [], d) e v
  bootstrap_scanned-Runs node (some (ts ∷ vs), d) w e v =
      let m = lists-Runs store env w (some (ts ∷ vs), d) e v in
      Runs-trans store env m (
        patch_node-Runs store env node.name _ _
          (bootstraps (running_version node.kernel_version) ts vs w.disk e) m.fit)

  bootstrap-Runs :
      {o : Option String} (node : Node) (w : World D)
      → Fit o w
      → Runs store env o w (bootstrap store env node w).1
  unfolding bootstrap
  bootstrap-Runs node w v =
      Runs-split store env w (parse_update node.annotations).next_kernel_present _ _
        (λ there. Runs-refl store env w v)
        (λ absent. bootstrap_scanned-Runs node (store.versions w.disk) w refl v)

  stage_checked-Runs :
      (node : Node) (fc : Config) (flavor : String) (r : Option CheckResult × World D)
      → Found store env node flavor r.0
      → Fit (some flavor) r.1
      → Runs store env (some flavor) r.1 (stage_checked store env node fc r).1
  unfolding stage_checked
  stage_checked-Runs node fc flavor (none, w) f v = Runs-refl store env w v
  stage_checked-Runs node fc flavor (some res, w) (ok, made, own) v =
      subst (λ a. Runs store env (some a) w (maybe_stage store env node fc res w).1) own
        (maybe_stage-Runs store env node fc res ok made w (subst (λ a. Fit (some a) w) (sym own) v))

  check_claimed-Runs :
      (node : Node) (fc : Config) (flavor : String) (r : Bool × World D)
      → Fit (some flavor) r.1
      → Runs store env (some flavor) r.1 (check_claimed store env node fc flavor r).1
  unfolding check_claimed
  check_claimed-Runs node fc flavor (false, w) v = Runs-refl store env w v
  check_claimed-Runs node fc flavor (true, w) v =
      let w1 = with_feature w (record w.feature { skip_logged = false }) in
      let u = Runs-same store env w w1 refl v in
      let c = do_check-Runs store env node fc flavor w1 u.fit in
      Runs-trans store env u (
        Runs-trans store env c (
          stage_checked-Runs node fc flavor (do_check env node fc flavor w1)
            (do_check-Found store env node fc flavor w1) c.fit))

  check_occurrence-Runs :
      (node : Node) (fc : Config) (flavor : String) (occ : Option Time) (w : World D)
      → Fit (some flavor) w
      → Runs store env (some flavor) w (check_occurrence store env node fc flavor occ w).1
  unfolding check_occurrence
  check_occurrence-Runs node fc flavor none w v = Runs-refl store env w v
  check_occurrence-Runs node fc flavor (some occ) w v =
      let c = claim_check-Runs node occ w v in
      Runs-trans store env c (check_claimed-Runs node fc flavor _ c.fit)

  update_in_window-Runs :
      (node : Node) (fc : Config) (flavor : String) (now : Time) (w : World D)
      → Fit (some flavor) w
      → Runs store env (some flavor) w (update_in_window store env node fc flavor now w).1
  unfolding update_in_window
  update_in_window-Runs node fc flavor now w v =
      Runs-split store env w (windows_open fc.update_windows fc.update_window_grace now) _ _
        (λ opened. check_occurrence-Runs node fc flavor _ w v)
        (λ closed. Runs-same store env w _ refl v)

  enqueue_fresh-Runs :
      {o : Option String} (fc : Config) (now : Time) (r : Option Node × World D)
      → Fit o r.1
      → Runs store env o r.1 (enqueue_fresh store env fc now r)
  unfolding enqueue_fresh
  enqueue_fresh-Runs fc now (none, w) v = Runs-refl store env w v
  enqueue_fresh-Runs fc now (some node, w) v = maybe_enqueue-Runs node fc now w v

  finish-Runs :
      {o : Option String} (node : Node) (fc : Config) (now : Time) (dirty : Bool)
      (r : Bool × World D)
      → Fit o r.1
      → Runs store env o r.1 (finish store env node fc now dirty r)
  unfolding finish
  finish-Runs node fc now dirty (staged, w) v =
      Runs-branch store env w (dirty || staged) _ _
        (λ again.
          let g = get_node-Runs store env env.node_name w v in
          Runs-trans store env g (enqueue_fresh-Runs fc now _ g.fit))
        (λ clean. maybe_enqueue-Runs node fc now w v)

  with_fresh-Runs :
      (node : Node) (fc : Config) (now : Time) (flavor : String) (dirty : Bool)
      (r : Option Node × World D)
      → Fit (some flavor) r.1
      → Runs store env (some flavor) r.1 (with_fresh store env node fc now flavor dirty r)
  unfolding with_fresh
  with_fresh-Runs node fc now flavor dirty (fresh, w) v =
      let n = or_node store env fresh node in
      let u = update_in_window-Runs n fc flavor now w v in
      Runs-trans store env u (finish-Runs n fc now dirty _ u.fit)

  reconciled-Runs :
      (node : Node) (fc : Config) (now : Time) (flavor : String) (dirty : Bool) (r : Bool × World D)
      → Fit (some flavor) r.1
      → Runs store env (some flavor) r.1 (reconciled store env node fc now flavor dirty r)
  unfolding reconciled
  reconciled-Runs node fc now flavor dirty (changed, w) v =
      Runs-branch store env w (dirty || changed) _ _
        (λ again.
          let g = get_node-Runs store env env.node_name w v in
          Runs-trans store env g
            (with_fresh-Runs node fc now flavor true (get_node env env.node_name w) g.fit))
        (λ clean. with_fresh-Runs node fc now flavor false (some node, w) v)

  with_flavor-Runs :
      {o : Option String} (node : Node) (fc : Config) (now : Time) (dirty : Bool)
      (r : Option String × World D)
      → IsKnown store env r
      → Fit o r.1
      → Runs store env o r.1 (with_flavor store env node fc now dirty r)
  unfolding with_flavor
  with_flavor-Runs node fc now dirty (none, w) known v = Runs-refl store env w v
  with_flavor-Runs node fc now dirty (some flavor, w) known v =
      let c =
        reconcile_bootloader-Runs store env node dirty w
          (resolved-Fit flavor v (known flavor refl)) in
      recast store env v (Runs-trans store env c (reconciled-Runs node fc now flavor dirty _ c.fit))

  bootstrapped-Runs :
      {o : Option String} (node : Node) (fc : Config) (now : Time) (r : Bool × World D)
      → Fit o r.1
      → Runs store env o r.1 (bootstrapped store env node fc now r)
  unfolding bootstrapped
  bootstrapped-Runs node fc now (dirty, w) v =
      let f = flavor_of-Runs store env w v in
      Runs-trans store env f
        (with_flavor-Runs node fc now dirty _ (flavor_of-IsKnown store env w) f.fit)

  run_found-Runs :
      {o : Option String} (fc : Config) (now : Time) (r : Option Node × World D)
      → Fit o r.1
      → Runs store env o r.1 (run_found store env fc now r)
  unfolding run_found
  run_found-Runs fc now (none, w) v = Runs-refl store env w v
  run_found-Runs fc now (some node, w) v =
      let b = bootstrap-Runs node w v in
      Runs-trans store env b (bootstrapped-Runs node fc now _ b.fit)

  clean_leftover_eligible-Runs :
      {o : Option String} (w : World D)
      → Fit o w
      → Runs store env o w (clean_leftover_eligible store env w)
  unfolding clean_leftover_eligible
  clean_leftover_eligible-Runs w v = patch_node-Runs store env env.node_name unmark_build w unmark v

  run_local-Runs :
      (fc : Config) (now : Time) (w : World D)
      → Fit none w
      → Runs store env none w (run_local store env fc now w)
  unfolding run_local
  run_local-Runs fc now w v =
      let w1 = with_feature w (started store env w.feature) in
      let s = Runs-same store env w w1 refl v in
      let m =
        Runs-branch store env w1 w.feature.start_cleaned w1 (clean_leftover_eligible store env w1)
          (λ cleaned. Runs-refl store env w1 s.fit)
          (λ first. clean_leftover_eligible-Runs w1 s.fit) in
      let g = get_node-Runs store env env.node_name _ m.fit in
      Runs-trans store env s
        (Runs-trans store env m (Runs-trans store env g (run_found-Runs fc now _ g.fit)))

  pub run_local-Steps :
      (fc : Config) (now : Time) (w : World D)
      → IsVersioned w.server
      → Steps store env (seen w) (seen (run_local store env fc now w))
  run_local-Steps fc now w v =
      (run_local-Runs fc now w (record { versioned = v; known = λ f e. absurd (cc) })).steps
