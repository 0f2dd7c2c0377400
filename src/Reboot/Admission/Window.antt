-- ===== src/Reboot/Admission/Window.antt =====
-- The admission phase as a whole: what is admitted, and when.
use simplek8s_controller.Prelude.{
  ◌*◌, ◌≤◌, ◌≡◌, ◌⊎◌, inl, inr, Bool, true, false, ◌&&◌, List, All, Among, str_eq, if◌then◌else◌,
  arith,
}
use simplek8s_controller.Stdlib.Text.{Time}
use simplek8s_controller.Cron.{Schedule, day_ns, windows_open}
use simplek8s_controller.Cron.Latest.{IsParsed}
use simplek8s_controller.Cron.Open.{Within, windows_open_iff}
use simplek8s_controller.Kube.Types.{Node, Pod, PodDisruptionBudget}
use simplek8s_controller.Kube.Server.Versions.{IsVersioned}
use simplek8s_controller.Reboot.Pods.{force_of}
use simplek8s_controller.Reboot.Queue.{View, build_views, admission_counts, sort_queue, queue_of}
use simplek8s_controller.Reboot.World.{World, Env}
use simplek8s_controller.Reboot.Admission.{
  Settings, Admission, admitted, no_candidate, slots_full, admission_phase,
}
use simplek8s_controller.Reboot.Admission.Safety.{admit-Admitted}

-- The phase admits only by the loop.
by_loop :
    (p q s : Bool) (w1 w2 w3 : World) (z : Admission × World) {v : View}
    → (if p
        then (no_candidate, w1)
        else if q
        then (no_candidate, w2)
        else if s
        then (no_candidate, w3)
        else z).0
      ≡ admitted v
    → z.0 ≡ admitted v
by_loop true q s w1 w2 w3 z e = absurd (ground (arith, e))
by_loop false true s w1 w2 w3 z e = absurd (ground (arith, e))
by_loop false false true w1 w2 w3 z e = absurd (ground (arith, e))
by_loop false false false w1 w2 w3 z e = e

-- If the admission phase admits a node without force, for reboot windows as they are parsed, a
-- grace of at most 366 days, and a store where no version is above the counter, then one of the
-- windows has an occurrence that is not after `now` and less than the grace before it.
pub admission_phase-Within :
    (env : Env) (fc : Settings) (now : Time) (pdbs : List PodDisruptionBudget) (pods : List Pod)
    (nodes : List Node) (w : World) (v : View)
    → fc.reboot_window_grace ≤ 366 * day_ns
    → All IsParsed fc.reboot_windows
    → IsVersioned w.server
    → (admission_phase env fc now pdbs pods nodes w).0 ≡ admitted v
    → (force_of v.st ≡ true)
      ⊎ ((s : Schedule) × Among s fc.reboot_windows × Within fc.reboot_window_grace now s)
unfolding admission_phase
admission_phase-Within env fc now pdbs pods nodes w v short parsed versioned e =
    let window = windows_open fc.reboot_windows fc.reboot_window_grace now in
    let g = admission_counts (build_views nodes) in
    let h =
      by_loop (str_eq fc.on_reboot_failure "pause" && g.any_failed) g.queued_not_ready
        (slots_full fc g) _ _ _ _ e in
    let a = admit-Admitted env now window pdbs pods (sort_queue (queue_of nodes)) w v versioned h in
    elim a.passes [
      | inl forced ↦ inl forced
      | inr (is_open, _) ↦
          inr
            ((windows_open_iff fc.reboot_windows fc.reboot_window_grace now short parsed).0 is_open)
    ]
