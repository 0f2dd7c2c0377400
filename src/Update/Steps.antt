-- ===== src/Update/Steps.antt =====
-- What the update feature may do to the store, as steps of an abstract pod.
pub mod Patches
pub mod Flavors
pub mod Reconciles
pub mod Stages
pub mod Cycles
pub mod Newest
pub mod Moves
pub mod Goals
use simplek8s_controller.Prelude.{
  ℕ, ◌+◌, ◌≡◌, refl, ◌⊎◌, Bool, true, false, String, Option, none, some, List, [], ◌∷◌, ◌++◌, Dict,
  lookup, All, arith, if◌then◌else◌,
}
use simplek8s_controller.Stdlib.Text.{Text, Time}
use simplek8s_controller.Stdlib.Json.{Raw, raw_eq, raw_same}
use simplek8s_controller.Kube.Types.{Node}
use simplek8s_controller.Kube.Server.{Server, Patch, Write, writes, put_node, merge_patch}
use simplek8s_controller.Nodestate.Transition.{BuildFunc}
use simplek8s_controller.Nodestate.Transition.Atomic.{Quiet, Committed}
use simplek8s_controller.Nodestate.Update.{
  UpdateInfo, parse_update, next_kernel_build, precond_absent, precond_quiescent,
  correct_goal_build, rearm_build, is_version, update_last_check_build, enqueue_controller_build,
}
use simplek8s_controller.Updatecore.Versions.{
  Release, parse_kernel_release, resolve_flavor, artifact_file_name,
}
use simplek8s_controller.Updatecore.Store.{BootStore, StageRequest, Ensured}
use simplek8s_controller.Update.World.{Feature, World, Env, version_text}
use simplek8s_controller.Update.Check.{fetch_index, check_result}
use simplek8s_controller.Update.Stage.{index_has, is_news}
use simplek8s_controller.Update.Enqueue.{is_ensured}
use simplek8s_controller.Update.Cycle.{bootstrap_target, unmark_build}
use simplek8s_controller.Update.Flavor.{own_versions}
use simplek8s_controller.Update.Reconcile.{safe_target}

-- The sums come from an index of a repository whose signature was verified.
pub record IsVerified (env : Env) (url : Raw) (sums : Dict String) : Type 0 where
  pub number : ℕ
  pub index : fetch_index env number url ≡ some sums

-- No file that the sums list is a kernel of the version and the flavor.
abbrev pub Unlisted : Dict String → String → String → Type 0
Unlisted sums version flavor =
    All
      (λ entry.
        (r : Release)
        → parse_kernel_release entry.0 ≡ some r
        → ¬ ((r.ts ≡ version) × (r.flavor ≡ flavor)))
      sums

-- A goal that no boot of the pod's flavor can reach: it is malformed, or it is well-formed and a verified
-- index lists no kernel of it for the flavor.
pub data Unreachable (env : Env) (flavor : Option String) (goal : Raw) : Type 0 where
  malformed : is_version goal ≡ false → Unreachable env flavor goal
  withdrawn :
      (url : Raw) (sums : Dict String) (own : String)
      → IsVerified env url sums
      → flavor ≡ some own
      → Unlisted sums (version_text goal) own
      → Unreachable env flavor goal

-- The boot loader has just been made to point at the kernel of the version, which is there.
pub record InPlace {D : Type 0} (store : BootStore D) (version arch : String) (d : D) : Type 0 where
  pub before : D
  pub result : Ensured
  pub call : store.ensure_boot_goal version arch before ≡ (result, d)
  pub ensured : is_ensured result ≡ true

-- A request to stage: its version and its checksum are those of a verified index, under the name that the
-- repository gives to the kernel of the flavor.
pub record IsChecked (env : Env) (req : StageRequest) : Type 0 where
  pub sums : Dict String
  pub index : IsVerified env req.repo_base sums
  pub listed : lookup (artifact_file_name req.version req.arch) sums ≡ some req.checksum
  pub artifact : req.artifact_file ≡ artifact_file_name req.version req.arch

-- What is seen of the world: the API server, the partition, the requests to stage, the flavor that
-- the pod has resolved, and how often it has patched and read a node.
pub record Seen (D : Type 0) : Type 0 where
  pub server : Server
  pub disk : D
  pub staged : List StageRequest
  pub flavor : Option String
  pub transitions : ℕ
  pub gets : ℕ

abbrev pub known_of : Feature → Option String
known_of f = if f.flavor_known then some f.flavor else none

abbrev pub seen : {D : Type 0} → World D → Seen D
seen w = record {
  server = w.server;
  disk = w.disk;
  staged = w.staged;
  flavor = known_of w.feature;
  transitions = w.transitions;
  gets = w.gets;
}

-- The builders of the patches of the pod's node, and when they are used.
pub data Change {D : Type 0} (store : BootStore D) (env : Env) (a : Seen D)
    : BuildFunc → Type 0 where
  bootstrap :
      (running ts : String) (rest : List String) (before : D)
      → store.versions before ≡ (some (ts ∷ rest), a.disk)
      → Change store env a (next_kernel_build (bootstrap_target running (ts ∷ rest)) precond_absent)
  advance :
      (url : Raw) (sums : Dict String) (flavor : String) (view : Node)
      → IsVerified env url sums
      → a.flavor ≡ some flavor
      → (check_result view url flavor sums).available ≡ true
      → Change store env a (
          next_kernel_build
            (check_result view url flavor sums).latest
            (precond_quiescent (check_result view url flavor sums).running))
  correct :
      (goal : Raw) (running flavor : String) (files : List String) (before : D)
      → Unreachable env a.flavor goal
      → a.flavor ≡ some flavor
      → store.kernels before ≡ (some files, a.disk)
      → Change store env a
          (correct_goal_build goal (safe_target running (own_versions flavor files)))
  rearm : Change store env a rearm_build
  claim : (occ : Time) → Change store env a (update_last_check_build occ)
  unmark : Change store env a unmark_build
  enqueue :
      (now : Time) (id : Text) (goal running flavor : String)
      → a.flavor ≡ some flavor
      → InPlace store goal flavor a.disk
      → Change store env a (enqueue_controller_build now id goal running)

-- The pod reads a node, after what other clients write before that read; it lists the versions or the
-- kernels of the boot store, and resolves its flavor from these; it points the boot loader at a kernel of
-- its flavor, or stages a release of it; or it patches a node, with the rounds of that patch, or gives
-- the patch up.
pub data Step {D : Type 0} (store : BootStore D) (env : Env) : Seen D → Seen D → Type 0 where
  reads :
      {a : Seen D}
      → Step store env a
          (record a { server = writes a.server (env.reads a.gets).before; gets = a.gets + 1 })
  lists : {a : Seen D} → Step store env a (record a { disk = (store.versions a.disk).1 })
  scans : {a : Seen D} → Step store env a (record a { disk = (store.kernels a.disk).1 })
  resolves :
      {a : Seen D} (files : List String) (flavor : String)
      → a.flavor ≡ none
      → (store.kernels a.disk).0 ≡ some files
      → resolve_flavor files ≡ some flavor
      → Step store env a (record a { disk = (store.kernels a.disk).1; flavor = some flavor })
  points :
      {a : Seen D} (version flavor : String)
      → a.flavor ≡ some flavor
      → Step store env a (record a { disk = (store.ensure_boot_goal version flavor a.disk).1 })
  stages :
      {a : Seen D} (req : StageRequest)
      → a.flavor ≡ some req.arch
      → IsChecked env req
      → Step store env a
          (record a { disk = (store.stage req a.disk).1; staged = a.staged ++ req ∷ [] })
  gives_up :
      {a : Seen D} (t : Server)
      → Quiet (env.rounds a.transitions) 0 a.server t
      → Step store env a (record a { server = t; transitions = a.transitions + 1 })
  patches :
      {a : Seen D} (name : String) (build : BuildFunc) (t : Server)
      → Change store env a build
      → Committed (env.rounds a.transitions) 0 build name a.server t
      → Step store env a (record a { server = t; transitions = a.transitions + 1 })

pub data Steps {D : Type 0} (store : BootStore D) (env : Env) (a : Seen D) : Seen D → Type 0 where
  stay : Steps store env a a
  step : {b c : Seen D} → Steps store env a b → Step store env b c → Steps store env a c

pub Steps-trans :
    {D : Type 0} {store : BootStore D} {env : Env} {a b c : Seen D}
    → Steps store env a b
    → Steps store env b c
    → Steps store env a c
Steps-trans r stay = r
Steps-trans r (step s t) = step (Steps-trans r s) t

-- The flavor stays, once it is resolved.
pub Step-flavor :
    {D : Type 0} {store : BootStore D} {env : Env} {a b : Seen D} (f : String)
    → Step store env a b
    → a.flavor ≡ some f
    → b.flavor ≡ some f
Step-flavor f reads h = h
Step-flavor f lists h = h
Step-flavor f scans h = h
Step-flavor f (resolves files flavor unknown at r) h = absurd (ground (arith, unknown, h))
Step-flavor f (points version flavor known) h = h
Step-flavor f (stages req known c) h = h
Step-flavor f (gives_up t q) h = h
Step-flavor f (patches name build t c k) h = h

pub Steps-flavor :
    {D : Type 0} {store : BootStore D} {env : Env} {a b : Seen D} (f : String)
    → Steps store env a b
    → a.flavor ≡ some f
    → b.flavor ≡ some f
Steps-flavor f stay h = h
Steps-flavor f (step r s) h = Step-flavor f s (Steps-flavor f r h)
