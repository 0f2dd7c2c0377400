-- ===== src/Update/Enqueue.antt =====
-- internal/features/update/enqueue.go: the pod enqueues its node for a reboot.
use Prim.Native.String.{◌++◌ as concat}
use simplek8s_controller.Prelude.{
  Bool, true, false, not, ◌&&◌, String, Option, none, some, str_eq, if◌then◌else◌,
}
use simplek8s_controller.Stdlib.Text.{Text, Time}
use simplek8s_controller.Stdlib.Json.{raw_eq}
use simplek8s_controller.Kube.Types.{Node}
use simplek8s_controller.Nodestate.State.{NodeState, parse}
use simplek8s_controller.Nodestate.Update.{
  UpdateInfo, parse_update, state_present, enqueue_controller_build,
}
use simplek8s_controller.Cron.{windows_open}
use simplek8s_controller.Config.{Config}
use simplek8s_controller.Updatecore.Versions.{running_version}
use simplek8s_controller.Updatecore.Store.{
  BootStore, Ensured, at_goal, repointed, goal_absent, store_failed,
}
use simplek8s_controller.Update.World.{World, Env, version_text, note_event, patch_node}
use simplek8s_controller.Update.Flavor.{flavor_of}
use simplek8s_controller.Update.Reconcile.{ensure}

-- Rules 1 to 3.
unfoldable pub is_eligible : UpdateInfo → NodeState → String → Bool
is_eligible ui st running =
    ui.next_kernel_present
    && not ui.next_kernel_invalid
    && not (str_eq running "")
    && not (raw_eq ui.next_kernel running)
    && not (state_present st)

abbrev pub is_ensured : Ensured → Bool
is_ensured at_goal = true
is_ensured repointed = true
is_ensured goal_absent = false
is_ensured store_failed = false

module _ {D : Type 0} (store : BootStore D) (env : Env) where
  unfoldable pub note_held : String → Bool → World D → World D
  unfolding note_event
  note_held name active w =
      note_event (concat "heldwindow:" name) name "UpdateHeldWindow" false active w

  -- The request, with an id.
  unfoldable pub enqueue_request : Node → Time → String → String → Option Text → World D → World D
  enqueue_request node now goal running none w = w
  enqueue_request node now goal running (some id) w =
      (patch_node env node.name (enqueue_controller_build now id goal running) w).1

  -- Once the goal is in place.
  unfoldable pub enqueue_goal : Node → Time → String → String → Ensured × World D → World D
  unfolding enqueue_request
  enqueue_goal node now goal running (e, w) =
      if not (is_ensured e) then w else enqueue_request node now goal running env.request_id w

  unfoldable pub enqueue_flavored :
      Node → Config → Time → UpdateInfo → String → Option String × World D → World D
  unfolding note_held enqueue_goal ensure
  enqueue_flavored node fc now ui running (none, w) = note_held node.name false w
  enqueue_flavored node fc now ui running (some arch, w) =
      let goal = version_text ui.next_kernel in
      if not (windows_open fc.reboot_windows fc.reboot_window_grace now)
      then note_held node.name true w
      else enqueue_goal node now goal running
          (ensure store env goal arch (note_held node.name false w))

  -- f.maybeEnqueue
  unfoldable pub maybe_enqueue : Node → Config → Time → World D → World D
  unfolding is_eligible enqueue_flavored note_held
  maybe_enqueue node fc now w =
      let ui = parse_update node.annotations in
      let running = running_version node.kernel_version in
      if not (is_eligible ui (parse node.annotations) running)
      then note_held node.name false w
      else enqueue_flavored node fc now ui running (flavor_of store w)
