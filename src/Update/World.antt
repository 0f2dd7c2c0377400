-- ===== src/Update/World.antt =====
-- internal/features/update/update.go: the state of the feature, its events, its reads and its patches.
use Prim.Native.String.{◌++◌ as concat}
use simplek8s_controller.Prelude.{
  ℕ, ◌+◌, Bool, true, not, String, Option, none, List, [], ◌∷◌, ◌++◌, Dict, lookup, insert, erase,
  if◌then◌else◌,
}
use simplek8s_controller.Stdlib.Text.{Text, lit}
use simplek8s_controller.Stdlib.Json.{Raw, text}
use simplek8s_controller.Kube.Types.{Node}
use simplek8s_controller.Kube.Server.{Server, Write, writes}
use simplek8s_controller.Nodestate.Transition.{Round, BuildFunc, patch_transition}
use simplek8s_controller.Reboot.World.{Event, is_noted, is_done}
use simplek8s_controller.Updatecore.Store.{StageRequest}

-- `Feature`, its memory. A key of `non_quiescent` is a node, with its goal.
pub record Feature : Type 0 where
  pub notified : Dict Bool
  pub avail_seen : Dict Bool
  pub skip_logged : Bool
  pub last_goal : Raw
  pub goal_known : Bool
  pub flavor : String
  pub flavor_known : Bool
  pub mix_warned : Bool
  pub flavor_warned : Bool
  pub non_quiescent : Dict Raw
  pub was_leader : Bool
  pub plans_cleaned : Bool
  pub start_cleaned : Bool

-- `transitions`, `gets` and `fetches` count the calls made so far, and `staged` lists the requests
-- to stage.
pub record World (D : Type 0) : Type 0 where
  pub server : Server
  pub disk : D
  pub feature : Feature
  pub events : List Event
  pub staged : List StageRequest
  pub transitions : ℕ
  pub gets : ℕ
  pub fetches : ℕ

-- A read of a node: what others write before it, and whether it fails.
pub record Read : Type 0 where
  pub before : List Write
  pub fault : Bool

-- The pod and its environment: the rounds of each patch, each read, what each fetch of a file below
-- a repository's URL gives (`updatecore.FetchBytes`), and whether the keyring is there and verifies
-- an index with its signature (`updatecore.ResolveKeyring`, `LoadKeyring` and `VerifyIndex`).
-- `request_id` is none if the random source fails.
pub record Env : Type 0 where
  pub node_name : String
  pub rounds : ℕ → ℕ → Round
  pub reads : ℕ → Read
  pub fetch : ℕ → Raw → String → Option String
  pub verified : ℕ → String → String → Bool
  pub leader : Bool
  pub request_id : Option Text

-- The text of a version.
unfoldable pub version_text : Raw → String
version_text (text (lit s)) = s
version_text _ = ""

module _ {D : Type 0} where
  -- f.event
  unfoldable pub event : String → String → Bool → World D → World D
  event node reason warning w = record w {
    events = w.events ++ record { node = node; reason = reason; warning = warning } ∷ [];
  }

  abbrev pub with_feature : World D → Feature → World D
  with_feature w f = record w { feature = f }

  abbrev pub with_notified : World D → Dict Bool → World D
  with_notified w m = with_feature w (record w.feature { notified = m })

  -- An event, or a log line, on the edge of a condition: noteCheckErrorLocked, noteHeld, noteMismatch.
  unfoldable pub note_event : String → String → String → Bool → Bool → World D → World D
  unfolding event
  note_event key node reason warning active w =
      if not active
      then with_notified w (erase key w.feature.notified)
      else if is_noted (lookup key w.feature.notified)
      then w
      else event node reason warning (with_notified w (insert key true w.feature.notified))

  -- noteScanErrorLocked, which only logs
  unfoldable pub note_scan_error : String → Bool → World D → World D
  note_scan_error node active w =
      let key = concat "scanerror:" node in
      with_notified w
        (if active then insert key true w.feature.notified else erase key w.feature.notified)

  unfoldable pub set_goal_known : Raw → World D → World D
  set_goal_known v w = with_feature w (record w.feature { last_goal = v; goal_known = true })

  -- f.kube.GetNode
  unfoldable pub get_node : Env → String → World D → Option Node × World D
  get_node env name w =
      let r = env.reads w.gets in
      let s = writes w.server r.before in
      (if r.fault then none else lookup name s.nodes, record w { server = s; gets = w.gets + 1 })

  -- nodestate.PatchTransition with three attempts, and whether it returned nil
  unfoldable pub patch_node : Env → String → BuildFunc → World D → Bool × World D
  patch_node env name build w =
      let (o, s) = patch_transition 3 build (env.rounds w.transitions) name w.server in
      (is_done o, record w { server = s; transitions = w.transitions + 1 })
