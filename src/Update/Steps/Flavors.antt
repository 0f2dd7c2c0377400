-- ===== src/Update/Steps/Flavors.antt =====
-- The resolution of the flavor and the check, as steps.
use simplek8s_controller.Prelude.{
  ◌≡◌, refl, ap, subst, ◌∙◌, inl, inr, Bool, true, false, String, Option, none, some, List, arith,
  ◌||◌, if◌then◌else◌, str_eq, Bool-cases, Option-cases,
}
use simplek8s_controller.Stdlib.Json.{Raw, raw_is_empty}
use simplek8s_controller.Kube.Types.{Node}
use simplek8s_controller.Config.{Config}
use simplek8s_controller.Updatecore.Versions.{resolve_flavor}
use simplek8s_controller.Updatecore.Store.{BootStore}
use simplek8s_controller.Update.World.{World, Env, event}
use simplek8s_controller.Update.Flavor.{is_mixed, resolved, flavor_found, flavor_scanned, flavor_of}
use simplek8s_controller.Update.Check.{
  CheckResult, check_result, fetch_index, check, note_available, note_check_error, checked,
  do_check,
}
use simplek8s_controller.Update.Steps.{IsVerified, seen, resolves, stay, step}
use simplek8s_controller.Update.Steps.Patches.{
  Fit, Runs, runs, Runs-trans, Runs-same, Runs-split, Runs-refl, scans-Runs, seen-note_event,
}

module _ {D : Type 0} (store : BootStore D) (env : Env) {o : Option String} where
  flavor_found-Runs :
      (files : List String) (d : D) (w : World D)
      → (seen w).flavor ≡ none
      → store.kernels w.disk ≡ (some files, d)
      → Fit o w
      → Runs store env o w (flavor_found store files (record w { disk = d })).1
  unfolding flavor_found
  flavor_found-Runs files d w unknown e h = elim (Option-cases (resolve_flavor files)) [
    | inl mixed ↦
        let m = scans-Runs store env w (some files, d) e h in
        rw (mixed, flavor_found)
          (Runs-trans store env m (Runs-same store env (record w { disk = d }) _ refl m.fit))
    | inr (flavor, resolves_to) ↦
        rw (resolves_to, flavor_found)
          (subst
            (λ x.
              Runs store env o w (record w {
                disk = x;
                feature = resolved flavor (is_mixed flavor files) w.feature;
              }))
            (ap (λ x. x.1) e)
            (runs store env h
              (step stay (resolves files flavor unknown (ap (λ x. x.0) e) resolves_to))
              h.versioned))
  ]

  flavor_scanned-Runs :
      (r : Option (List String) × D) (w : World D)
      → (seen w).flavor ≡ none
      → store.kernels w.disk ≡ r
      → Fit o w
      → Runs store env o w (flavor_scanned store r w).1
  unfolding flavor_scanned
  flavor_scanned-Runs (none, d) w unknown e h = scans-Runs store env w (none, d) e h
  flavor_scanned-Runs (some files, d) w unknown e h = flavor_found-Runs files d w unknown e h

  pub flavor_of-Runs : (w : World D) → Fit o w → Runs store env o w (flavor_of store w).1
  unfolding flavor_of
  flavor_of-Runs w h =
      Runs-split store env w w.feature.flavor_known _ _ (λ known. Runs-refl store env w h)
        (λ unknown. flavor_scanned-Runs (store.kernels w.disk) w (ground (arith, unknown)) refl h)

module _ {D : Type 0} (store : BootStore D) (env : Env) where
  flavor_found-known :
      (files : List String) (w : World D) (f : String)
      → (flavor_found store files w).0 ≡ some f
      → (seen (flavor_found store files w).1).flavor ≡ some f
  unfolding flavor_found
  flavor_found-known files w f h = elim (Option-cases (resolve_flavor files)) [
    | inl mixed ↦ absurd (ground (arith, h, mixed))
    | inr (flavor, e) ↦ ground (arith, h, e)
  ]

  flavor_scanned-known :
      (r : Option (List String) × D) (w : World D) (f : String)
      → (flavor_scanned store r w).0 ≡ some f
      → (seen (flavor_scanned store r w).1).flavor ≡ some f
  unfolding flavor_scanned
  flavor_scanned-known (none, d) w f h = absurd (ground (arith, h))
  flavor_scanned-known (some files, d) w f h = flavor_found-known files (record w { disk = d }) f h

  -- A flavor that is given is the one that is resolved.
  abbrev pub IsKnown : Option String × World D → Type 0
  IsKnown r = (f : String) → r.0 ≡ some f → (seen r.1).flavor ≡ some f

  either_IsKnown :
      (b : Bool) (x y : Option String × World D)
      → (b ≡ true → IsKnown x)
      → IsKnown y
      → IsKnown (if b then x else y)
  either_IsKnown true x y f g = f refl
  either_IsKnown false x y f g = g

  pub flavor_of-IsKnown : (w : World D) → IsKnown (flavor_of store w)
  unfolding flavor_of
  flavor_of-IsKnown w =
      either_IsKnown w.feature.flavor_known _ (flavor_scanned store (store.kernels w.disk) w)
        (λ known f h. ground (arith, h, known)) (flavor_scanned-known (store.kernels w.disk) w)

  -- What a check gives: nothing, or the result of a verified index.
  abbrev pub Found : Node → String → Option CheckResult → Type 0
  Found node flavor none = Unit
  Found node flavor (some res) =
      IsVerified env res.url res.sums
      × (res ≡ check_result node res.url res.arch res.sums)
      × (res.arch ≡ flavor)

  -- It changes nothing that is seen.
  record Checked (node : Node) (flavor : String) (w : World D) (r : Option CheckResult × World D)
      : Type 0 where
    found : Found node flavor r.0
    same : seen w ≡ seen r.1

  check-Checked :
      (node : Node) (url : Raw) (flavor : String) (w : World D)
      → Checked node flavor w (check env node url flavor w)
  unfolding check check_result
  check-Checked node url flavor w = elim (Bool-cases (raw_is_empty url || str_eq flavor "")) [
    | inl bad ↦ rw (bad, check) (record { found = tt; same = refl })
    | inr good ↦ elim (Option-cases (fetch_index env w.fetches url)) [
      | inl e ↦ rw (good, e, check) (record { found = tt; same = refl })
      | inr (sums, e) ↦
          rw (good, e, check)
            (record { found = (record { number = w.fetches; index = e }, refl, refl); same = refl })
    ]
  ]

  seen-note_available :
      (node : Node) (res : CheckResult) (w : World D) → seen w ≡ seen (note_available node res w)
  unfolding note_available event
  seen-note_available node res w = ground arith

  seen-note_check_error :
      (node : Node) (active : Bool) (w : World D) → seen w ≡ seen (note_check_error node active w)
  unfolding note_check_error
  seen-note_check_error node active w = seen-note_event store env _ node.name _ true active w

  checked-Checked :
      (node : Node) (flavor : String) (w : World D) (r : Option CheckResult × World D)
      → Checked node flavor w r
      → Checked node flavor w (checked node r)
  unfolding checked
  checked-Checked node flavor w (none, u) c = record {
    found = tt;
    same = c.same ∙ seen-note_check_error node true u;
  }
  checked-Checked node flavor w (some res, u) c = record {
    found = c.found;
    same =
        c.same
        ∙ seen-note_available node res u
        ∙ seen-note_check_error node false (note_available node res u);
  }

  pub do_check-Found :
      (node : Node) (fc : Config) (flavor : String) (w : World D)
      → Found node flavor (do_check env node fc flavor w).0
  unfolding do_check
  do_check-Found node fc flavor w =
      (checked-Checked node flavor w _ (check-Checked node _ flavor w)).found

  pub do_check-Runs :
      {o : Option String} (node : Node) (fc : Config) (flavor : String) (w : World D)
      → Fit o w
      → Runs store env o w (do_check env node fc flavor w).1
  unfolding do_check
  do_check-Runs node fc flavor w h =
      Runs-same store env w _ (checked-Checked node flavor w _ (check-Checked node _ flavor w)).same
        h
