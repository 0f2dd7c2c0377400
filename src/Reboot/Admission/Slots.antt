-- ===== src/Reboot/Admission/Slots.antt =====
-- The gates before the queue: free slots, no failed node under `pause`, and every queued node ready.
use simplek8s_controller.Prelude.{
  ℕ, ◌+◌, ◌<◌, ◌≡◌, refl, Bool, true, false, not, ◌&&◌, ◌||◌, Option, some, List, [], ◌∷◌, any,
  count_if, str_eq, leb, arith, if◌then◌else◌,
}
use simplek8s_controller.Stdlib.Text.{Time}
use simplek8s_controller.Kube.Types.{Node, Pod, PodDisruptionBudget}
use simplek8s_controller.Nodestate.State.{State, requested, failed, in_flight}
use simplek8s_controller.Reboot.Queue.{
  View, Gates, build_views, clean_state, no_gates, count_slot, note_state, admission_counts_from,
  admission_counts,
}
use simplek8s_controller.Reboot.World.{World, Env}
use simplek8s_controller.Reboot.Admission.{
  Settings, Admission, admitted, no_candidate, slots_full, admission_phase,
}

-- The node holds a slot; it holds one and is a control plane.
abbrev pub holds_slot : View → Bool
holds_slot v = in_flight v.st

abbrev pub holds_cp_slot : View → Bool
holds_cp_slot v = in_flight v.st && v.cp

abbrev is_failed_state : Option State → Bool
is_failed_state (some failed) = true
is_failed_state _ = false

abbrev is_requested_state : Option State → Bool
is_requested_state (some requested) = true
is_requested_state _ = false

abbrev pub is_failed_view : View → Bool
is_failed_view v = is_failed_state (clean_state v.st)

abbrev pub waits_not_ready : View → Bool
waits_not_ready v = is_requested_state (clean_state v.st) && not v.is_ready

-- What the loop adds to the gates that it starts from.
record Adds (g : Gates) (vs : List View) (g' : Gates) : Type 0 where
  slots : g'.in_flight_count ≡ g.in_flight_count + count_if holds_slot vs
  cp_slots : g'.cp_in_flight ≡ g.cp_in_flight + count_if holds_cp_slot vs
  failures : g'.any_failed ≡ (g.any_failed || any is_failed_view vs)
  unready : g'.queued_not_ready ≡ (g.queued_not_ready || any waits_not_ready vs)

abbrev one_step : View → Gates → Gates
one_step v g = note_state (clean_state v.st) v.is_ready (count_slot v g)

step-Adds : (v : View) (g : Gates) → Adds g (v ∷ []) (one_step v g)
unfolding note_state count_slot
step-Adds v g = ground arith

cons-Adds :
    {v : View} {vs : List View} {g g1 g2 : Gates}
    → Adds g (v ∷ []) g1
    → Adds g1 vs g2
    → Adds g (v ∷ vs) g2
cons-Adds a b = ground (arith, a, b)

counts-Adds : (g : Gates) (vs : List View) → Adds g vs (admission_counts_from g vs)
unfolding admission_counts_from
counts-Adds g [] = ground arith
counts-Adds g (v ∷ vs) = cons-Adds (step-Adds v g) (counts-Adds (one_step v g) vs)

from_zero : {n m k : ℕ} → n ≡ m + k → m ≡ 0 → n ≡ k
from_zero a b = omega (arith, a, b)

-- The gates are what they count.
admission_counts-Adds : (vs : List View) → Adds no_gates vs (admission_counts vs)
unfolding admission_counts
admission_counts-Adds vs = counts-Adds no_gates vs

-- The gates as they stand in `admission_phase`, read off the views.
pub record Open (fc : Settings) (vs : List View) : Type 0 where
  pub free : count_if holds_slot vs < fc.max_concurrent_reboots
  pub no_cp : count_if holds_cp_slot vs ≡ 0
  pub no_pause : (str_eq fc.on_reboot_failure "pause" && any is_failed_view vs) ≡ false
  pub all_ready : any waits_not_ready vs ≡ false

leb-false : {m n : ℕ} → leb m n ≡ false → n < m
leb-false e = ground (arith, e)

Open-of_gates :
    (fc : Settings) (vs : List View) (g : Gates)
    → Adds no_gates vs g
    → (str_eq fc.on_reboot_failure "pause" && g.any_failed) ≡ false
    → g.queued_not_ready ≡ false
    → slots_full fc g ≡ false
    → Open fc vs
Open-of_gates fc vs g a p q s = record {
  free = ground (arith, a.slots, s);
  no_cp = ground (arith, a.cp_slots, s);
  no_pause = ground (arith, a.failures, p);
  all_ready = ground (arith, a.unready, q);
}

gates-pass :
    (p q s : Bool) (w1 w2 w3 : World) (z : Admission × World) {v : View}
    → (if p
        then (no_candidate, w1)
        else if q
        then (no_candidate, w2)
        else if s
        then (no_candidate, w3)
        else z).0
      ≡ admitted v
    → (p ≡ false) × (q ≡ false) × (s ≡ false)
gates-pass true q s w1 w2 w3 z e = ground (arith, e)
gates-pass false true s w1 w2 w3 z e = ground (arith, e)
gates-pass false false true w1 w2 w3 z e = ground (arith, e)
gates-pass false false false w1 w2 w3 z e = (refl, refl, refl)

-- If the admission phase admits a node, then, in the node list it was given, fewer nodes than
-- `maxConcurrentReboots` hold a slot, no control plane holds one, under `pause` no node has failed, and
-- no requested node is NotReady.
pub admission_phase-Open :
    (env : Env) (fc : Settings) (now : Time) (pdbs : List PodDisruptionBudget) (pods : List Pod)
    (nodes : List Node) (w : World) (v : View)
    → (admission_phase env fc now pdbs pods nodes w).0 ≡ admitted v
    → Open fc (build_views nodes)
unfolding admission_phase
admission_phase-Open env fc now pdbs pods nodes w v e =
    let vs = build_views nodes in
    let g = admission_counts vs in
    let (p, q, s) =
      gates-pass (str_eq fc.on_reboot_failure "pause" && g.any_failed) g.queued_not_ready
        (slots_full fc g) _ _ _ _ e in
    Open-of_gates fc vs g (admission_counts-Adds vs) p q s
