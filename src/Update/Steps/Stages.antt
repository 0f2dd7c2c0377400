-- ===== src/Update/Steps/Stages.antt =====
-- The staging, as steps.
use simplek8s_controller.Prelude.{
  ◌≡◌, refl, sym, ap, ◌∙◌, subst, inl, inr, Bool, true, false, not, ◌&&◌, String, Option, none,
  some, List, [], ◌∷◌, Dict, eq_iff, any, lookup, arith, str_eq, Option-cases,
}
use simplek8s_controller.Stdlib.Json.{raw_eq}
use simplek8s_controller.Kube.Types.{Node}
use simplek8s_controller.Nodestate.Update.{
  UpdateInfo, parse_update, next_kernel_build, precond_quiescent,
}
use simplek8s_controller.Config.{Config}
use simplek8s_controller.Updatecore.Versions.{running_version, artifact_file_name}
use simplek8s_controller.Updatecore.Store.{
  BootStore, StageRequest, Ensured, at_goal, repointed, goal_absent, store_failed,
}
use simplek8s_controller.Update.World.{World, Env, version_text, event, note_scan_error}
use simplek8s_controller.Update.Flavor.{own_versions}
use simplek8s_controller.Update.Check.{CheckResult, check_result}
use simplek8s_controller.Update.Reconcile.{ensure}
use simplek8s_controller.Update.Stage.{
  goal_in, index_has, held_goal, newer_local, request_of, goal_missing, is_news, may_adopt, stage,
  stage_reported, stage_one, anchor, rearm_if_staged, adopted, newest_anchored, newest_staged,
  reconverged, reconverge, stage_newest, stage_or_adopt, stage_local, stage_scanned, maybe_stage,
}
use simplek8s_controller.Update.Steps.{
  IsVerified, Unlisted, withdrawn, Change, advance, IsChecked, seen, stages, stay, step,
}
use simplek8s_controller.Update.Steps.Patches.{
  Fit, Runs, runs, Runs-trans, Runs-same, Runs-refl, Runs-split, scans-Runs, patch_node-Runs,
}
use simplek8s_controller.Update.Steps.Reconciles.{ensure-Runs, rearm-Runs, apply_safe_state-Runs}

index_has-Unlisted :
    (sums : Dict String) (ts arch : String) → index_has sums ts arch ≡ false → Unlisted sums ts arch
unfolding index_has
index_has-Unlisted [] ts arch h = tt
index_has-Unlisted (entry ∷ sums) ts arch h = (
  λ r e (same, own). ground (arith, h, e, (eq_iff r.ts ts).1 same, (eq_iff r.flavor arch).1 own),
  index_has-Unlisted sums ts arch (ground (arith, h)),
)

module _ {D : Type 0} (store : BootStore D) (env : Env) where
  stage-Runs :
      (req : StageRequest) (w : World D)
      → IsChecked env req
      → Fit (some req.arch) w
      → Runs store env (some req.arch) w (stage store env req w).1
  unfolding stage
  stage-Runs req w c h =
      runs store env h (step stay (stages req (h.known req.arch refl) c)) h.versioned

  stage_reported-Runs :
      {o : Option String} (name : String) (r : Bool × World D)
      → Fit o r.1
      → Runs store env o r.1 (stage_reported store env name r).1
  unfolding stage_reported event
  stage_reported-Runs name (true, w) v = Runs-same store env w _ refl v
  stage_reported-Runs name (false, w) v = Runs-same store env w _ refl v

  -- The result of a check of a node, with the sums of a verified index.
  module _ (node : Node) (fc : Config) (res : CheckResult) (ok : IsVerified env res.url res.sums)
      (made : res ≡ check_result node res.url res.arch res.sums) where
    stage_one-Runs :
        (v : String) (w : World D)
        → Fit (some res.arch) w
        → Runs store env (some res.arch) w (stage_one store env node fc res v w).1
    unfolding stage_one
    stage_one-Runs v w h = elim (Option-cases (lookup (artifact_file_name v res.arch) res.sums)) [
      | inl e ↦ rw (e, stage_one) (Runs-refl store env w h)
      | inr (checksum, e) ↦
          let r =
            stage-Runs (request_of node fc res v checksum) w
              (record { sums = res.sums; index = ok; listed = e; artifact = refl }) h in
          rw (e, stage_one) (Runs-trans store env r (stage_reported-Runs node.name _ r.fit))
    ]

    running_of : res.running ≡ running_version node.kernel_version
    unfolding check_result
    running_of = ap (λ (r : CheckResult). r.running) made

    anchor-Runs :
        (w : World D)
        → res.available ≡ true
        → Fit (some res.arch) w
        → Runs store env
            (some res.arch)
            w
            (anchor store env node res.latest (running_version node.kernel_version) w).1
    unfolding anchor check_result
    anchor-Runs w news h =
        patch_node-Runs store env node.name _ w
          (subst
            (λ (r : CheckResult). Change store env (seen w) (
              next_kernel_build r.latest (precond_quiescent (running_version node.kernel_version))))
            (sym made)
            (advance res.url res.sums res.arch node ok (h.known res.arch refl)
              (ap (λ (r : CheckResult). r.available) (sym made) ∙ news)))
          h

    rearm_if_staged-Runs :
        (name : String) (r : Bool × World D)
        → Fit (some res.arch) r.1
        → Runs store env (some res.arch) r.1 (rearm_if_staged store env name r).1
    unfolding rearm_if_staged
    rearm_if_staged-Runs name (true, w) h = rearm-Runs store env name w h
    rearm_if_staged-Runs name (false, w) h = Runs-refl store env w h

    adopted-Runs :
        (name latest : String) (dirty : Bool) (r : Bool × World D)
        → Fit (some res.arch) r.1
        → Runs store env (some res.arch) r.1 (adopted store env name latest res.arch dirty r).1
    unfolding adopted
    adopted-Runs name latest dirty (false, w) h = Runs-refl store env w h
    adopted-Runs name latest dirty (true, w) h =
        let e = ensure-Runs store env latest res.arch w h in
        Runs-trans store env e (rearm-Runs store env name _ e.fit)

    newest_anchored-Runs :
        (ui : UpdateInfo) (latest : String) (dirty : Bool) (r : Bool × World D)
        → Fit (some res.arch) r.1
        → Runs store env (some res.arch) r.1 (newest_anchored store env node ui latest dirty r).1
    unfolding newest_anchored
    newest_anchored-Runs ui latest dirty (true, w) h = rearm-Runs store env node.name w h
    newest_anchored-Runs ui latest dirty (false, w) h =
        Runs-split store env w (raw_eq ui.next_kernel latest) _ _
          (λ e. rearm-Runs store env node.name w h) (λ e. Runs-refl store env w h)

    newest_staged-Runs :
        (ui : UpdateInfo) (dirty : Bool) (r : Bool × World D)
        → res.available ≡ true
        → Fit (some res.arch) r.1
        → Runs store env
            (some res.arch)
            r.1
            (newest_staged store env node ui res.latest
              (running_version node.kernel_version)
              dirty
              r).1
    unfolding newest_staged
    newest_staged-Runs ui dirty (false, w) news h = Runs-refl store env w h
    newest_staged-Runs ui dirty (true, w) news h =
        let a = anchor-Runs w news h in
        Runs-trans store env a (newest_anchored-Runs ui res.latest dirty _ a.fit)

    reconverged-Runs :
        (name : String) (dirty : Bool) (r : Ensured × World D)
        → Fit (some res.arch) r.1
        → Runs store env (some res.arch) r.1 (reconverged store env name dirty r).1
    unfolding reconverged
    reconverged-Runs name dirty (repointed, w) h = rearm-Runs store env name w h
    reconverged-Runs name dirty (at_goal, w) h = Runs-refl store env w h
    reconverged-Runs name dirty (goal_absent, w) h = Runs-refl store env w h
    reconverged-Runs name dirty (store_failed, w) h = Runs-refl store env w h

    reconverge-Runs :
        (ui : UpdateInfo) (versions : List String) (dirty : Bool) (w : World D)
        → Fit (some res.arch) w
        → Runs store env (some res.arch) w (reconverge store env node res ui versions dirty w).1
    unfolding reconverge
    reconverge-Runs ui versions dirty w h =
        let e = ensure-Runs store env (version_text ui.next_kernel) res.arch w h in
        Runs-split store env w
          (not ui.next_kernel_invalid
            && goal_in ui versions
            && newer_local versions (version_text ui.next_kernel))
          (reconverged store env node.name dirty
            (ensure store env (version_text ui.next_kernel) res.arch w))
          (dirty, w) (λ converge. Runs-trans store env e (reconverged-Runs node.name dirty _ e.fit))
          (λ wait. Runs-refl store env w h)

    is_news-available :
        (ui : UpdateInfo) (running : String) → is_news ui res running ≡ true → res.available ≡ true
    unfolding is_news
    is_news-available ui running h = ground (arith, h)

    stage_newest-Runs :
        (ui : UpdateInfo) (versions : List String) (dirty : Bool) (w : World D)
        → Fit (some res.arch) w
        → Runs store env
            (some res.arch)
            w
            (stage_newest store env node fc res ui
              (running_version node.kernel_version)
              versions
              dirty
              w).1
    unfolding stage_newest
    stage_newest-Runs ui versions dirty w h =
        Runs-split store env w (not (is_news ui res (running_version node.kernel_version))) _ _
          (λ old. Runs-refl store env w h)
          (λ news.
            Runs-split store env w (held_goal ui (running_version node.kernel_version)) _ _
              (λ held. reconverge-Runs ui versions dirty w h)
              (λ free.
                Runs-split store env w (any (str_eq res.latest) versions) _ _
                  (λ local. Runs-refl store env w h)
                  (λ absent.
                    let s = stage_one-Runs res.latest w h in
                    Runs-trans store env s (
                      newest_staged-Runs ui dirty _
                        (is_news-available ui (running_version node.kernel_version)
                          (ground (arith, news)))
                        s.fit))))

    may_adopt-available :
        (ui : UpdateInfo) (running : String) (versions : List String)
        → may_adopt ui res running versions ≡ true
        → res.available ≡ true
    unfolding may_adopt
    may_adopt-available ui running versions h = is_news-available ui running (ground (arith, h))

    stage_or_adopt-Runs :
        (ui : UpdateInfo) (versions : List String) (r : Bool × World D)
        → Fit (some res.arch) r.1
        → Runs store env
            (some res.arch)
            r.1
            (stage_or_adopt store env node fc res ui
              (running_version node.kernel_version)
              versions
              r).1
    unfolding stage_or_adopt
    stage_or_adopt-Runs ui versions (dirty, w) h =
        Runs-split store env w (may_adopt ui res (running_version node.kernel_version) versions) _ _
          (λ adopt.
            let a = anchor-Runs w (may_adopt-available ui _ versions adopt) h in
            Runs-trans store env a (adopted-Runs node.name res.latest dirty _ a.fit))
          (λ other. stage_newest-Runs ui versions dirty w h)

    stage_local-Runs :
        (ui : UpdateInfo) (versions : List String) (w : World D)
        → Fit (some res.arch) w
        → Runs store env
            (some res.arch)
            w
            (stage_local store env node fc res ui
              (running_version node.kernel_version)
              versions
              w).1
    unfolding stage_local
    stage_local-Runs ui versions w h =
        Runs-split store env w
          (not (goal_missing ui (running_version node.kernel_version) versions)) _ _
          (λ there. stage_or_adopt-Runs ui versions (false, w) h)
          (λ missing.
            Runs-split store env w (not (index_has res.sums (version_text ui.next_kernel) res.arch))
              _ _
              (λ gone.
                apply_safe_state-Runs store env node.name ui.next_kernel _ res.arch w
                  (withdrawn res.url res.sums res.arch ok refl (
                    index_has-Unlisted res.sums (version_text ui.next_kernel) res.arch
                      (ground (arith, gone))))
                  h)
              (λ listed.
                let s = stage_one-Runs (version_text ui.next_kernel) w h in
                let t = rearm_if_staged-Runs node.name _ s.fit in
                Runs-trans store env s
                  (Runs-trans store env t (stage_or_adopt-Runs ui versions _ t.fit))))

    stage_scanned-Runs :
        (r : Option (List String) × D) (w : World D)
        → store.kernels w.disk ≡ r
        → Fit (some res.arch) w
        → Runs store env (some res.arch) w (stage_scanned store env node fc res r w).1
    unfolding stage_scanned note_scan_error
    stage_scanned-Runs (none, d) w e h =
        let m = scans-Runs store env w (none, d) e h in
        Runs-trans store env m (Runs-same store env _ _ refl m.fit)
    stage_scanned-Runs (some files, d) w e h =
        let m = scans-Runs store env w (some files, d) e h in
        let n : Runs store env (some res.arch) (record w { disk = d })
            (note_scan_error env.node_name false (record w { disk = d })) =
          Runs-same store env _ _ refl m.fit in
        Runs-trans store env m (
          Runs-trans store env n (
            stage_local-Runs (parse_update node.annotations) (own_versions res.arch files) _ n.fit))

    pub maybe_stage-Runs :
        (w : World D)
        → Fit (some res.arch) w
        → Runs store env (some res.arch) w (maybe_stage store env node fc res w).1
    unfolding maybe_stage
    maybe_stage-Runs w h =
        Runs-split store env w (str_eq res.arch "") _ _ (λ e. Runs-refl store env w h)
          (λ e. stage_scanned-Runs (store.kernels w.disk) w refl h)
