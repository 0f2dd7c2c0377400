-- ===== src/Reboot/Admission/Safety.antt =====
-- When a node is admitted from the queue, and what is written then.
use simplek8s_controller.Prelude.{
  ℕ, ◌+◌, ◌≡◌, refl, subst, ◌⊎◌, inl, inr, Bool, true, false, not, String, Option, none, some, List,
  [], ◌∷◌, Among, map, arith, if◌then◌else◌,
}
use simplek8s_controller.Stdlib.Text.{lit, Time}
use simplek8s_controller.Kube.Types.{Pod, PodDisruptionBudget}
use simplek8s_controller.Kube.Server.{Server}
use simplek8s_controller.Kube.Server.Versions.{IsVersioned}
use simplek8s_controller.Nodestate.State.{requested}
use simplek8s_controller.Nodestate.Patch.{to_draining_patch, status_patch, status_raw}
use simplek8s_controller.Nodestate.Transition.{
  BuildFunc, Outcome, done, aborted, exhausted, failed_with,
}
use simplek8s_controller.Nodestate.Transition.Atomic.{
  IsConditional, Quiet, Promise, patch_transition-Promise,
}
use simplek8s_controller.Reboot.Pods.{force_of}
use simplek8s_controller.Reboot.Pdb.{pdb_blocked}
use simplek8s_controller.Reboot.Queue.{View}
use simplek8s_controller.Reboot.World.{World, Env, event, note_event, transition_build, patch_world}
use simplek8s_controller.Reboot.World.Effect.{
  Effect, server-note_event, patch_world-Effect, patch_world-IsVersioned,
  transition_build-IsConditional, Committed-Moved,
}
use simplek8s_controller.Reboot.Manage.{write_blocked_by, set_blocked}
use simplek8s_controller.Reboot.Admission.{
  Admission, admitted, draining_patch_of, admission_build, after_patch, try_patch, hold_window,
  hold_pdb, try_pdb, try_candidate, admit,
}
use simplek8s_controller.Reboot.Admission.Drained.{Drains, Drains-of_Moved}

module _ (env : Env) (now : Time) (window_open : Bool) (pdbs : List PodDisruptionBudget)
    (pods : List Pod) where
  -- The candidate is forced, or a window is open and no budget blocks its drain.
  abbrev pub Passes : View → Type 0
  Passes v =
      (force_of v.st ≡ true) ⊎ ((window_open ≡ true) × (pdb_blocked v.node pdbs pods ≡ some []))

  -- What is written about a candidate that budgets block.
  abbrev pub hold_build : List String → BuildFunc
  hold_build bs =
      transition_build requested
        (λ fresh. status_patch fresh.rv (status_raw fresh.annotations) (set_blocked (map lit bs)))

  -- The patches of a run before that of the admitted node, each with the rounds of its number: the
  -- budgets that block a candidate are written into its status, or an admission is given up without
  -- a write.
  pub data Holding : Server → ℕ → Server → ℕ → Type 0 where
    nothing : {s : Server} {n : ℕ} → Holding s n s n
    held :
        {s t u : Server} {n m : ℕ} (v : View) (b : String) (bs : List String)
        → pdb_blocked v.node pdbs pods ≡ some (b ∷ bs)
        → Effect (env.rounds n) (hold_build (b ∷ bs)) v.node.name s t
        → Holding t (n + 1) u m
        → Holding s n u m
    given_up :
        {s t u : Server} {n m : ℕ}
        → Quiet (env.rounds n) 0 s t
        → Holding t (n + 1) u m
        → Holding s n u m

  -- The admission of `v`: the lease was verified right before patch `number`, the last of the run, which
  -- came upon the store `start` that the patches before it left.
  pub record Admitted (queue : List View) (v : View) (w w' : World) : Type 0 where
    pub candidate : Among v queue
    pub passes : Passes v
    pub start : Server
    pub number : ℕ
    pub so_far : Holding w.server w.transitions start number
    pub owned : env.owns number ≡ true
    pub last : w'.transitions ≡ number + 1
    pub drains : Drains (env.rounds number) now v.node.name start w'.server

  abbrev Claim : List View → World → Admission × World → Type 0
  Claim queue w r = (v : View) → r.0 ≡ admitted v → Admitted queue v w r.1

  Admitted-tail :
      (u : View) {queue : List View} {v : View} {w w' : World}
      → Admitted queue v w w'
      → Admitted (u ∷ queue) v w w'
  Admitted-tail u a = record {
    candidate = inr a.candidate;
    passes = a.passes;
    start = a.start;
    number = a.number;
    so_far = a.so_far;
    owned = a.owned;
    last = a.last;
    drains = a.drains;
  }

  -- A patch before the run.
  Admitted-after :
      {queue : List View} {w x : World} (v : View) (w' : World)
      → ((u : Server) (m : ℕ)
          → Holding x.server x.transitions u m
          → Holding w.server w.transitions u m)
      → Admitted queue v x w'
      → Admitted queue v w w'
  Admitted-after v w' earlier a = record {
    candidate = a.candidate;
    passes = a.passes;
    start = a.start;
    number = a.number;
    so_far = earlier a.start a.number a.so_far;
    owned = a.owned;
    last = a.last;
    drains = a.drains;
  }

  admission_build-IsConditional : IsConditional (admission_build now)
  admission_build-IsConditional =
      transition_build-IsConditional requested (draining_patch_of now)
        (λ n. unfold to_draining_patch in refl)

  choose-Claim :
      (queue : List View) (w : World) (b : Bool) (x y : Admission × World)
      → (b ≡ true → Claim queue w x)
      → (b ≡ false → Claim queue w y)
      → Claim queue w (if b then x else y)
  choose-Claim queue w true x y f g = f refl
  choose-Claim queue w false x y f g = g refl

  hold_build-IsConditional : (bs : List String) → IsConditional (hold_build bs)
  hold_build-IsConditional bs =
      transition_build-IsConditional requested
        (λ fresh. status_patch fresh.rv (status_raw fresh.annotations) (set_blocked (map lit bs)))
        (λ n. unfold status_patch in refl)

  transitions-note_event :
      (key node reason : String) (warning active : Bool) (w : World)
      → (note_event key node reason warning active w).transitions ≡ w.transitions
  unfolding note_event event
  transitions-note_event key node reason warning active w = ground arith

  hold_pdb-IsVersioned :
      (u : View) (bs : List String) (w : World)
      → IsVersioned w.server
      → IsVersioned (hold_pdb env u bs w).server
  unfolding write_blocked_by
  hold_pdb-IsVersioned u bs w i =
      rw server-note_event
        (patch_world-IsVersioned env u.node.name (hold_build bs) w (hold_build-IsConditional bs) i)

  hold_pdb-Holding :
      (v : View) (b : String) (bs : List String) (w : World)
      → pdb_blocked v.node pdbs pods ≡ some (b ∷ bs)
      → IsVersioned w.server
      → (u : Server) (m : ℕ)
      → Holding (hold_pdb env v (b ∷ bs) w).server (hold_pdb env v (b ∷ bs) w).transitions u m
      → Holding w.server w.transitions u m
  unfolding write_blocked_by patch_world
  hold_pdb-Holding v b bs w e i u m h =
      let x = (patch_world env v.node.name (hold_build (b ∷ bs)) w).1 in
      let y = hold_pdb env v (b ∷ bs) w in
      held v b bs e
        (patch_world-Effect env v.node.name (hold_build (b ∷ bs)) w
          (hold_build-IsConditional (b ∷ bs)) i)
        (subst (λ n. Holding x.server n u m) (transitions-note_event _ _ _ _ _ x)
          (subst (λ s. Holding s y.transitions u m) (server-note_event _ _ _ _ _ x) h))

  module _ (queue : List View) (u : View) (next : World → Admission × World)
      (later : (w : World) → IsVersioned w.server → Claim (u ∷ queue) w (next w)) where
    after_patch-Claim :
        (w : World) (o : Outcome) (t : Server)
        → Passes u
        → env.owns w.transitions ≡ true
        → IsVersioned t
        → Promise (env.rounds w.transitions) 0 (admission_build now) u.node.name w.server (o, t)
        → Claim
            (u ∷ queue)
            w
            (after_patch u o (record w { server = t; transitions = w.transitions + 1 }) next)
    unfolding after_patch event
    after_patch-Claim w done t p own i c v h =
        let same : u ≡ v = cc in
        let w' = record w { server = t; transitions = w.transitions + 1 } in
        subst (λ x. Admitted (u ∷ queue) x w (event u.node.name "RebootDraining" false w')) same
          (record {
            candidate = inl refl;
            passes = p;
            start = w.server;
            number = w.transitions;
            so_far = nothing;
            owned = own;
            last = refl;
            drains =
                Drains-of_Moved (Committed-Moved requested (draining_patch_of now) u.node.name c);
          })
    after_patch-Claim w aborted t p own i c v h =
        let w' = record w { server = t; transitions = w.transitions + 1 } in
        Admitted-after v (next w').1 (λ s m run. given_up c.0 run) (later w' i v h)
    after_patch-Claim w exhausted t p own i c v h = absurd (cc)
    after_patch-Claim w (failed_with e) t p own i c v h = absurd (cc)

    try_patch-Claim :
        (w : World)
        → Passes u
        → IsVersioned w.server
        → Claim (u ∷ queue) w (try_patch env now u w next)
    unfolding try_patch patch_world
    try_patch-Claim w p i =
        choose-Claim (u ∷ queue) w (not (env.owns w.transitions)) _ _ (λ _ v h. absurd (cc))
          (λ kept.
            after_patch-Claim w _ _ p (ground arith)
              (patch_world-IsVersioned env u.node.name (admission_build now) w
                admission_build-IsConditional i)
              (patch_transition-Promise (admission_build now) u.node.name 3
                (env.rounds w.transitions) w.server admission_build-IsConditional i))

    try_pdb-Claim :
        (w : World) (b : Option (List String))
        → pdb_blocked u.node pdbs pods ≡ b
        → window_open ≡ true
        → IsVersioned w.server
        → Claim (u ∷ queue) w (try_pdb env now u b w next)
    unfolding try_pdb
    try_pdb-Claim w none e o i = λ v h. absurd (cc)
    try_pdb-Claim w (some []) e o i = try_patch-Claim w (inr (o, e)) i
    try_pdb-Claim w (some (b ∷ bs)) e o i = λ v h.
        let w' = hold_pdb env u (b ∷ bs) w in
        Admitted-after v (next w').1 (hold_pdb-Holding u b bs w e i)
          (later w' (hold_pdb-IsVersioned u (b ∷ bs) w i) v h)

    closed-Claim : (w : World) → IsVersioned w.server → Claim (u ∷ queue) w (next (hold_window u w))
    closed-Claim w i v h =
        let w' = hold_window u w in
        Admitted-after v (next w').1
          (λ s m run.
            subst (λ n. Holding w.server n s m) (transitions-note_event _ _ _ _ _ w)
              (subst (λ x. Holding x w'.transitions s m) (server-note_event _ _ _ _ _ w) run))
          (later w' (rw server-note_event i) v h)

    try_candidate-Claim :
        (w : World)
        → IsVersioned w.server
        → Claim (u ∷ queue) w (try_candidate env now window_open pdbs pods u w next)
    unfolding try_candidate
    try_candidate-Claim w i =
        choose-Claim (u ∷ queue) w (force_of u.st) _ _ (λ forced. try_patch-Claim w (inl forced) i)
          (λ plain.
            choose-Claim (u ∷ queue) w (not window_open) _ _ (λ closed. closed-Claim w i)
              (λ open_now. try_pdb-Claim w (pdb_blocked u.node pdbs pods) refl (ground arith) i))

  admit-Claim :
      (queue : List View) (w : World)
      → IsVersioned w.server
      → Claim queue w (admit env now window_open pdbs pods queue w)
  unfolding admit
  admit-Claim [] w i = λ v h. absurd (cc)
  admit-Claim (u ∷ queue) w i =
      try_candidate-Claim queue u (λ w'. admit env now window_open pdbs pods queue w')
        (λ w' i' v h. Admitted-tail u (admit-Claim queue w' i' v h)) w i

-- A run of the admission loop, from a store where no version is above the counter, that admits a node:
-- it is a candidate of the queue, forced, or in an open window with no budget in the way. Before its
-- patch the run itself wrote at most, into requested nodes, the budgets that block them; the lease was
-- verified just before it; and after no more than what the environment's other clients wrote in its
-- rounds, the patch landed on the node while it was still requested, which is now stored as draining
-- and cordoned, with the rest of its record kept.
pub admit-Admitted :
    (env : Env) (now : Time) (window_open : Bool) (pdbs : List PodDisruptionBudget)
    (pods : List Pod) (queue : List View) (w : World) (v : View)
    → IsVersioned w.server
    → (admit env now window_open pdbs pods queue w).0 ≡ admitted v
    → Admitted env now window_open pdbs pods queue v w
        (admit env now window_open pdbs pods queue w).1
admit-Admitted env now window_open pdbs pods queue w v i h =
    admit-Claim env now window_open pdbs pods queue w i v h
