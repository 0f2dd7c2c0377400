-- ===== src/Update/Steps/Goals.antt =====
-- What a cycle of the update feature does to the goals of the stored nodes.
use simplek8s_controller.Prelude.{ℕ, ◌+◌, ◌≡◌, refl, String, Option, some, lookup}
use simplek8s_controller.Stdlib.Text.{Time}
use simplek8s_controller.Kube.Types.{Node}
use simplek8s_controller.Kube.Server.{merge_patch}
use simplek8s_controller.Updatecore.Store.{BootStore}
use simplek8s_controller.Update.World.{Env}
use simplek8s_controller.Kube.Server.{Server, writes, put_node}
use simplek8s_controller.Kube.Server.Versions.{IsVersioned}
use simplek8s_controller.Nodestate.Transition.Atomic.{interference, Quiet}
use simplek8s_controller.Config.{Config}
use simplek8s_controller.Update.World.{World}
use simplek8s_controller.Update.Cycle.{run_local}
use simplek8s_controller.Update.Steps.{
  malformed, withdrawn, Seen, seen, Step, reads, lists, scans, resolves, points, stages, gives_up,
  patches, Steps, stay, step, Step-flavor,
}
use simplek8s_controller.Update.Steps.Cycles.{run_local-Steps}
use simplek8s_controller.Update.Steps.Moves.{
  GoalMove, kept, anchored, advanced, corrected, Change-GoalMove,
}

-- From the store `s` to another: what the other clients write before the reads of the pod, and in the
-- rounds of its patches, both numbered from `i` and `j` on; and nodes that the pod patches, whose goal
-- moves.
pub data GoalRun (env : Env) (flavor : Option String) (s : Server) (i j : ℕ)
    : Server → ℕ → ℕ → Type 0 where
  unchanged : GoalRun env flavor s i j s i j
  read :
      {t : Server} {p q : ℕ}
      → GoalRun env flavor s i j t p q
      → GoalRun env flavor s i j (writes t (env.reads q).before) p (q + 1)
  given_up :
      {t : Server} {p q : ℕ} (u : Server)
      → GoalRun env flavor s i j t p q
      → Quiet (env.rounds p) 0 t u
      → GoalRun env flavor s i j u (p + 1) q
  patched :
      {t : Server} {p q : ℕ} (u : Server) (name : String) (rounds : ℕ) (before after : Node)
      → GoalRun env flavor s i j t p q
      → lookup name (writes t (interference (env.rounds p) 0 rounds)).nodes ≡ some before
      → GoalMove env flavor before after
      → u ≡ put_node (writes t (interference (env.rounds p) 0 rounds)) name after
      → GoalRun env flavor s i j u (p + 1) q

-- What is known of the flavor may grow.
GoalMove-later :
    {env : Env} {o o' : Option String} {n m : Node}
    → ((f : String) → o ≡ some f → o' ≡ some f)
    → GoalMove env o n m
    → GoalMove env o' n m
GoalMove-later f (kept e) = kept e
GoalMove-later f (anchored target e e') = anchored target e e'
GoalMove-later f (advanced url sums own old new v known e e' newer l k) =
    advanced url sums own old new v (f own known) e e' newer l k
GoalMove-later f (corrected goal bad e same (malformed m)) = corrected goal bad e same (malformed m)
GoalMove-later f (corrected goal bad e same (withdrawn url sums own v known u)) =
    corrected goal bad e same (withdrawn url sums own v (f own known) u)

GoalRun-later :
    {env : Env} {o o' : Option String} {s : Server} {i j : ℕ} {t : Server} {p q : ℕ}
    → ((f : String) → o ≡ some f → o' ≡ some f)
    → GoalRun env o s i j t p q
    → GoalRun env o' s i j t p q
GoalRun-later f unchanged = unchanged
GoalRun-later f (read r) = read (GoalRun-later f r)
GoalRun-later f (given_up u r q) = given_up u (GoalRun-later f r) q
GoalRun-later f (patched u name rounds before after r found m made) =
    patched u name rounds before after (GoalRun-later f r) found (GoalMove-later f m) made

module _ {D : Type 0} (store : BootStore D) (env : Env) where
  Step-GoalRun :
      {a b : Seen D} {s : Server} {i j : ℕ}
      → Step store env a b
      → GoalRun env b.flavor s i j a.server a.transitions a.gets
      → GoalRun env b.flavor s i j b.server b.transitions b.gets
  Step-GoalRun reads r = read r
  Step-GoalRun lists r = r
  Step-GoalRun scans r = r
  Step-GoalRun (resolves files flavor unknown at e) r = r
  Step-GoalRun (points version flavor known) r = r
  Step-GoalRun (stages req known c) r = r
  Step-GoalRun (gives_up t q) r = given_up t r q
  Step-GoalRun (patches name build t c k) r =
      patched t name k.rounds k.node (merge_patch k.node k.patch) r k.found
        (Change-GoalMove store env _ k.node k.patch build refl c k.built) k.made

  Steps-GoalRun :
      {a b : Seen D}
      → Steps store env a b
      → GoalRun env b.flavor a.server a.transitions a.gets b.server b.transitions b.gets
  Steps-GoalRun stay = unchanged
  Steps-GoalRun (step r st) =
      Step-GoalRun st (GoalRun-later (λ f. Step-flavor f st) (Steps-GoalRun r))

  -- A cycle of the update feature, from a store where no version is above the counter: besides what the
  -- environment's other clients write before its reads and in the rounds of its patches, it only patches
  -- stored nodes, and a patch keeps the goal of the node, except in these cases. A node without a goal
  -- may get one. A goal may move to the newest version of the flavor that a verified index lists, if that
  -- is newer than the goal, or the goal is empty. And a goal is changed or removed if it is malformed, or
  -- if a verified index lists no kernel of it for the flavor, which is the one that the pod has resolved.
  pub run_local-GoalRun :
      (fc : Config) (now : Time) (w : World D)
      → IsVersioned w.server
      → GoalRun env
          (seen (run_local store env fc now w)).flavor
          w.server
          w.transitions
          w.gets
          (run_local store env fc now w).server
          (run_local store env fc now w).transitions
          (run_local store env fc now w).gets
  run_local-GoalRun fc now w v = Steps-GoalRun (run_local-Steps store env fc now w v)
