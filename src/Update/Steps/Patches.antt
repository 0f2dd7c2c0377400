-- ===== src/Update/Steps/Patches.antt =====
-- A conditional patch and a read, as steps.
use simplek8s_controller.Prelude.{
  ◌≡◌, refl, subst, ◌∙◌, inl, inr, Option, some, List, ◌+◌, Bool, true, false, String, arith,
  if◌then◌else◌,
}
use simplek8s_controller.Kube.Server.{Server}
use simplek8s_controller.Kube.Server.Versions.{IsVersioned, writes-IsVersioned}
use simplek8s_controller.Nodestate.Transition.{BuildFunc}
use simplek8s_controller.Nodestate.Transition.Atomic.{IsConditional, patch_transition-Promise}
use simplek8s_controller.Nodestate.Update.{clear_reboot_eligible_patch}
use simplek8s_controller.Nodestate.Guards.{
  next_kernel_build-IsConditional, update_last_check_build-IsConditional,
  correct_goal_build-IsConditional, enqueue_controller_build-IsConditional,
  rearm_build-IsConditional,
}
use simplek8s_controller.Reboot.World.Effect.{Effect, Promise-Effect, Effect-IsVersioned}
use simplek8s_controller.Updatecore.Store.{BootStore}
use simplek8s_controller.Update.World.{World, Env, event, note_event, get_node, patch_node}
use simplek8s_controller.Update.Cycle.{unmark_build}
use simplek8s_controller.Update.Steps.{
  Change, bootstrap, advance, correct, rearm, claim, unmark, enqueue, Seen, seen, reads, lists,
  scans, gives_up, patches, Steps, stay, step, Steps-trans, Steps-flavor,
}

unmark_build-IsConditional : IsConditional unmark_build
unfolding unmark_build clear_reboot_eligible_patch
unmark_build-IsConditional = record { version = λ n p h. ground arith }

module _ {D : Type 0} (store : BootStore D) (env : Env) where
  Change-IsConditional :
      {a : Seen D} (build : BuildFunc) → Change store env a build → IsConditional build
  Change-IsConditional build (bootstrap running ts rest before e) =
      next_kernel_build-IsConditional _ _
  Change-IsConditional build (advance url sums flavor view v known a) =
      next_kernel_build-IsConditional _ _
  Change-IsConditional build (correct goal running flavor files before u known e) =
      correct_goal_build-IsConditional _ _
  Change-IsConditional build rearm = rearm_build-IsConditional
  Change-IsConditional build (claim occ) = update_last_check_build-IsConditional _
  Change-IsConditional build unmark = unmark_build-IsConditional
  Change-IsConditional build (enqueue now id goal running flavor known i) =
      enqueue_controller_build-IsConditional _ _ _ _

  Effect-Steps :
      (name : String) (build : BuildFunc) (w : World D) (t : Server)
      → Change store env (seen w) build
      → Effect (env.rounds w.transitions) build name w.server t
      → Steps store env (seen w) (seen (record w { server = t; transitions = w.transitions + 1 }))
  Effect-Steps name build w t c (inl q) = step stay (gives_up t q)
  Effect-Steps name build w t c (inr k) = step stay (patches name build t c k)

  pub seen-event :
      (node reason : String) (warning : Bool) (w : World D)
      → seen w ≡ seen (event node reason warning w)
  unfolding event
  seen-event node reason warning w = refl

  pub seen-note_event :
      (key node reason : String) (warning active : Bool) (w : World D)
      → seen w ≡ seen (note_event key node reason warning active w)
  unfolding note_event
  seen-note_event key node reason warning active w = ground arith

-- The versions of the store are counted, and the flavor is resolved, to the one that is given if there is
-- one.
pub record Fit {D : Type 0} (flavor : Option String) (w : World D) : Type 0 where
  pub versioned : IsVersioned w.server
  pub known : (f : String) → flavor ≡ some f → (seen w).flavor ≡ some f

pub resolved-Fit :
    {D : Type 0} {o : Option String} {w : World D} (f : String)
    → Fit o w
    → (seen w).flavor ≡ some f
    → Fit (some f) w
resolved-Fit f h e = record { versioned = h.versioned; known = λ g same. e ∙ same }

-- From a world to a later one by steps.
pub record Runs {D : Type 0} (store : BootStore D) (env : Env) (o : Option String) (w w' : World D)
    : Type 0 where
  pub steps : Steps store env (seen w) (seen w')
  pub fit : Fit o w'

module _ {D : Type 0} (store : BootStore D) (env : Env) {o : Option String} where
  pub runs :
      {w w' : World D}
      → Fit o w
      → Steps store env (seen w) (seen w')
      → IsVersioned w'.server
      → Runs store env o w w'
  runs h r v = record {
    steps = r;
    fit = record { versioned = v; known = λ f e. Steps-flavor f r (h.known f e) };
  }

  -- With what was known of the flavor before.
  pub recast :
      {p : Option String} {w w' : World D} → Fit o w → Runs store env p w w' → Runs store env o w w'
  recast h r = runs h r.steps r.fit.versioned

  pub Runs-trans :
      {u v w : World D} → Runs store env o u v → Runs store env o v w → Runs store env o u w
  Runs-trans r s = record { steps = Steps-trans r.steps s.steps; fit = s.fit }

  pub Runs-same : (u w : World D) → seen u ≡ seen w → Fit o u → Runs store env o u w
  Runs-same u w e h =
      runs h (subst (λ s. Steps store env (seen u) s) e stay)
        (subst (λ s. IsVersioned s.server) e h.versioned)

  pub scans-Runs :
      (w : World D) (r : Option (List String) × D)
      → store.kernels w.disk ≡ r
      → Fit o w
      → Runs store env o w (record w { disk = r.1 })
  scans-Runs w r e h =
      subst (λ x. Runs store env o w (record w { disk = x.1 })) e
        (runs h (step stay scans) h.versioned)

  pub lists-Runs :
      (w : World D) (r : Option (List String) × D)
      → store.versions w.disk ≡ r
      → Fit o w
      → Runs store env o w (record w { disk = r.1 })
  lists-Runs w r e h =
      subst (λ x. Runs store env o w (record w { disk = x.1 })) e
        (runs h (step stay lists) h.versioned)

  pub get_node-Runs :
      (name : String) (w : World D) → Fit o w → Runs store env o w (get_node env name w).1
  unfolding get_node
  get_node-Runs name w h =
      runs h (step stay reads) (writes-IsVersioned w.server (env.reads w.gets).before h.versioned)

  pub patch_node-Runs :
      (name : String) (build : BuildFunc) (w : World D)
      → Change store env (seen w) build
      → Fit o w
      → Runs store env o w (patch_node env name build w).1
  unfolding patch_node
  patch_node-Runs name build w c h =
      let conditional = Change-IsConditional store env build c in
      let e = Promise-Effect (env.rounds w.transitions) build name w.server _ (
        patch_transition-Promise build name 3 (env.rounds w.transitions) w.server conditional
          h.versioned) in
      runs h (Effect-Steps store env name build w _ c e)
        (Effect-IsVersioned (env.rounds w.transitions) build name h.versioned e)

  -- A branch, on a pair or on a world.
  pub Runs-split :
      {X : Type 0} (w : World D) (b : Bool) (x y : X × World D)
      → (b ≡ true → Runs store env o w x.1)
      → (b ≡ false → Runs store env o w y.1)
      → Runs store env o w (if b then x else y).1
  Runs-split w true x y f g = f refl
  Runs-split w false x y f g = g refl

  pub Runs-branch :
      (w : World D) (b : Bool) (x y : World D)
      → (b ≡ true → Runs store env o w x)
      → (b ≡ false → Runs store env o w y)
      → Runs store env o w (if b then x else y)
  Runs-branch w true x y f g = f refl
  Runs-branch w false x y f g = g refl

  pub Runs-refl : (w : World D) → Fit o w → Runs store env o w w
  Runs-refl w v = record { steps = stay; fit = v }
