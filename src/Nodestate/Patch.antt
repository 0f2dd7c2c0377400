-- ===== src/Nodestate/Patch.antt =====
-- internal/nodestate/state.go: the merge patches that write the reboot annotations.
use simplek8s_controller.Prelude.{
  ℕ, Bool, true, false, Option, none, some, [], ◌∷◌, Dict, lookup, if◌then◌else◌,
}
use simplek8s_controller.Stdlib.Text.{Text, Time}
use simplek8s_controller.Stdlib.Json.{Raw, raw_empty, raw_is_empty}
use simplek8s_controller.Kube.Server.{Patch}
use simplek8s_controller.Nodestate.State.{
  requested, draining, rebooting, completed, failed, StatusInfo, ExecInfo, ann_state, ann_request,
  ann_exec, ann_status,
}
use simplek8s_controller.Nodestate.Values.{state_value, request_value, exec_value, merge_status}

unfoldable pub annotations_patch : ℕ → Dict (Option Raw) → Patch
annotations_patch rv anns = record { rv = rv; annotations = anns; unschedulable = none }

-- nil for "", which deletes the key
unfoldable pub status_or_nil : Raw → Option Raw
unfolding raw_is_empty
status_or_nil s = if raw_is_empty s then none else some s

unfoldable pub admission_patch : ℕ → Time → Text → Text → Bool → Patch
unfolding annotations_patch
admission_patch rv since id by force = annotations_patch rv (
    (ann_state, some (state_value requested since))
    ∷ (ann_request, some (request_value id by force))
    ∷ (ann_exec, none)
    ∷ (ann_status, none)
    ∷ [])

-- The mutation of `ToDrainingPatch`.
unfoldable pub drop_blocked : Bool → StatusInfo → StatusInfo
drop_blocked was_cordoned s =
    if was_cordoned
    then record s { blocked_by = none; cordoned_prev = some true }
    else record s { blocked_by = none }

unfoldable pub to_draining_patch : ℕ → Time → Raw → Bool → Patch
unfolding annotations_patch status_or_nil drop_blocked
to_draining_patch rv now status was_cordoned =
    let p = annotations_patch rv (
      (ann_state, some (state_value draining now))
      ∷ (ann_status, status_or_nil (merge_status status (drop_blocked was_cordoned)))
      ∷ []) in
    record p { unschedulable = some true }

unfoldable pub to_rebooting_patch : ℕ → Time → Patch
unfolding annotations_patch
to_rebooting_patch rv now =
    annotations_patch rv ((ann_state, some (state_value rebooting now)) ∷ [])

unfoldable pub to_completed_patch : ℕ → Time → Patch
unfolding annotations_patch
to_completed_patch rv now =
    annotations_patch rv ((ann_state, some (state_value completed now)) ∷ [])

abbrev pub set_error : Text → StatusInfo → StatusInfo
set_error msg s = record s { error = msg }

unfoldable pub to_failed_patch : ℕ → Time → Raw → Text → Patch
unfolding annotations_patch status_or_nil
to_failed_patch rv now status msg = annotations_patch rv (
    (ann_state, some (state_value failed now))
    ∷ (ann_status, status_or_nil (merge_status status (set_error msg)))
    ∷ [])

unfoldable pub issued_exec_patch : ℕ → ExecInfo → Patch
unfolding annotations_patch
issued_exec_patch rv e = annotations_patch rv ((ann_exec, some (exec_value e)) ∷ [])

unfoldable pub clear_patch : ℕ → Bool → Patch
unfolding annotations_patch
clear_patch rv uncordon =
    let p =
      annotations_patch rv
        ((ann_state, none) ∷ (ann_request, none) ∷ (ann_exec, none) ∷ (ann_status, none) ∷ []) in
    if uncordon then record p { unschedulable = some false } else p

unfoldable pub status_patch : ℕ → Raw → (StatusInfo → StatusInfo) → Patch
unfolding annotations_patch status_or_nil
status_patch rv fresh mutate =
    annotations_patch rv ((ann_status, status_or_nil (merge_status fresh mutate)) ∷ [])

unfoldable pub uncordon_patch : ℕ → Patch
uncordon_patch rv = record { rv = rv; annotations = []; unschedulable = some false }

-- statusRaw, _ := annotations[AnnStatus]
unfoldable pub status_raw : Dict Raw → Raw
status_raw anns = elim (lookup ann_status anns) [ none ↦ raw_empty | some raw ↦ raw ]
