-- ===== src/Update/Steps/Moves.antt =====
-- What a patch of the update feature does to the goal of the node.
use simplek8s_controller.Prelude.{
  ◌⊎◌, ◌||◌, ap, str_eq, eq_iff, ◌≡◌, refl, sym, ◌∙◌, subst, inl, inr, Bool, true, false, String,
  Option, none, some, Dict, lookup, arith, Bool-cases, Option-cases,
}
use simplek8s_controller.Stdlib.Text.{lit, Time, format_time, text_eq_iff}
use simplek8s_controller.Stdlib.Json.{Raw, text, doc, raw_eq, raw_same}
use simplek8s_controller.Kube.Types.{Node}
use simplek8s_controller.Kube.Server.{Patch, merge_patch}
use simplek8s_controller.Nodestate.Patch.{admission_patch, clear_patch}
use simplek8s_controller.Nodestate.Transition.{BuildFunc}
use simplek8s_controller.Nodestate.Effects.{override, lookup-merge}
use simplek8s_controller.Nodestate.Update.{
  ann_next_kernel, ann_update_last_check, covers, UpdateInfo, parse_update, next_kernel_patch,
  next_kernel_build, precond_absent, precond_quiescent, correct_goal_build,
  clear_reboot_eligible_patch, update_last_check_patch, update_last_check_build,
}
use simplek8s_controller.Nodestate.Guards.{enqueue_controller_build_iff, rearm_build_iff}
use simplek8s_controller.Updatecore.Store.{BootStore}
use simplek8s_controller.Update.World.{Env}
use simplek8s_controller.Update.Check.{check_result}
use simplek8s_controller.Update.Cycle.{unmark_build}
use simplek8s_controller.Updatecore.Versions.{newer_ts}
use simplek8s_controller.Update.Check.{latest_of}
use simplek8s_controller.Update.Steps.{
  IsVerified, Unreachable, Change, bootstrap, advance, correct, rearm, claim, unmark, enqueue, Seen,
}
use simplek8s_controller.Update.Steps.Newest.{Listed, IsNewest, latest_of-IsNewest}

abbrev pub goal_of : Node → Option Raw
goal_of n = lookup ann_next_kernel n.annotations

-- What may become of the goal when a node is patched to a new one.
pub data GoalMove (env : Env) (flavor : Option String) (n m : Node) : Type 0 where
  kept : goal_of m ≡ goal_of n → GoalMove env flavor n m
  anchored :
      (target : String)
      → goal_of n ≡ none
      → goal_of m ≡ some (text (lit target))
      → GoalMove env flavor n m
  advanced :
      (url : Raw) (sums : Dict String) (own old new : String)
      → IsVerified env url sums
      → flavor ≡ some own
      → goal_of n ≡ some (text (lit old))
      → goal_of m ≡ some (text (lit new))
      → (old ≡ "") ⊎ (newer_ts new old ≡ true)
      → Listed sums new own
      → IsNewest sums new own
      → GoalMove env flavor n m
  corrected :
      (goal bad : Raw)
      → goal_of n ≡ some goal
      → raw_same goal bad ≡ true
      → Unreachable env flavor bad
      → GoalMove env flavor n m

goal-merge_patch :
    (n : Node) (p : Patch)
    → goal_of (merge_patch n p) ≡ override ann_next_kernel p.annotations (goal_of n)
unfolding merge_patch
goal-merge_patch n p = lookup-merge ann_next_kernel p.annotations n.annotations

raw_eq-text : (goal : Raw) (s : String) → raw_eq goal s ≡ true → goal ≡ text (lit s)
unfolding raw_eq
raw_eq-text (text t) s h = ap text ((text_eq_iff t (lit s)).0 h)
raw_eq-text (doc j) s h = absurd (ground (arith, h))

module _ {D : Type 0} (store : BootStore D) (env : Env) (flavor : Option String) (n : Node)
    (p : Patch) where
  -- A patch without the key keeps the goal.
  other_keys :
      (q : Patch)
      → p ≡ q
      → override ann_next_kernel q.annotations (goal_of n) ≡ goal_of n
      → GoalMove env flavor n (merge_patch n p)
  other_keys q e o =
      subst (λ r. GoalMove env flavor n (merge_patch n r)) (sym e) (kept (goal-merge_patch n q ∙ o))

  anchor-GoalMove :
      (version : String) (precond : UpdateInfo → Bool)
      → next_kernel_build version precond n ≡ some p
      → (precond (parse_update n.annotations) ≡ true)
        × (goal_of (merge_patch n p) ≡ some (text (lit version)))
  unfolding next_kernel_build next_kernel_patch
  anchor-GoalMove version precond h = elim (Bool-cases (precond (parse_update n.annotations))) [
    | inr bad ↦ absurd (ground (arith, h, bad))
    | inl good ↦
        let e : next_kernel_patch n.rv version ≡ p = ground (arith, h, good) in
        (
          good,
          subst (λ q. goal_of (merge_patch n q) ≡ some (text (lit version))) e
              (goal-merge_patch n (next_kernel_patch n.rv version)),
        )
  ]

  bootstrap-GoalMove :
      (target : String)
      → next_kernel_build target precond_absent n ≡ some p
      → GoalMove env flavor n (merge_patch n p)
  unfolding precond_absent parse_update
  bootstrap-GoalMove target h =
      let (good, moved) = anchor-GoalMove target precond_absent h in
      elim (Option-cases (goal_of n)) [
        | inl none_there ↦ anchored target none_there moved
        | inr (goal, there) ↦ absurd (ground (arith, good, there))
      ]

  advance-GoalMove :
      (url : Raw) (sums : Dict String) (own : String) (view : Node)
      → IsVerified env url sums
      → flavor ≡ some own
      → (check_result view url own sums).available ≡ true
      → next_kernel_build
          (check_result view url own sums).latest
          (precond_quiescent (check_result view url own sums).running)
          n
        ≡ some p
      → GoalMove env flavor n (merge_patch n p)
  unfolding precond_quiescent parse_update check_result
  advance-GoalMove url sums own view v known a h =
      let res = check_result view url own sums in
      let (good, moved) = anchor-GoalMove res.latest (precond_quiescent res.running) h in
      elim (Option-cases (goal_of n)) [
        | inl none_there ↦ anchored res.latest none_there moved
        | inr (goal, there) ↦
            let same : goal ≡ text (lit res.running) =
              raw_eq-text goal res.running (ground (arith, good, there)) in
            let newest =
              latest_of-IsNewest own sums
                (λ empty. ground (arith, a, (eq_iff (latest_of own sums "") "").1 empty)) in
            advanced url sums own res.running res.latest v known (there ∙ ap some same) moved
              (newer-of_available (str_eq res.running "") (str_eq res.latest "") refl
                (ground (arith, a)))
              newest.0 newest.1
      ]
    where
      newer-of_available :
          (x y : Bool)
          → str_eq (check_result view url own sums).running "" ≡ x
          → (x
              || newer_ts
                  (check_result view url own sums).latest
                  (check_result view url own sums).running)
            ≡ true
          → ((check_result view url own sums).running ≡ "")
            ⊎ (newer_ts
                  (check_result view url own sums).latest
                  (check_result view url own sums).running
                ≡ true)
      newer-of_available true y e h = inl ((eq_iff (check_result view url own sums).running "").0 e)
      newer-of_available false y e h = inr h

  correct-GoalMove :
      (bad : Raw) (target : String)
      → Unreachable env flavor bad
      → correct_goal_build bad target n ≡ some p
      → GoalMove env flavor n (merge_patch n p)
  unfolding correct_goal_build parse_update
  correct-GoalMove bad target u h = elim (Option-cases (goal_of n)) [
    | inl none_there ↦ absurd (ground (arith, h, none_there))
    | inr (goal, there) ↦ elim (Bool-cases (raw_same goal bad)) [
      | inl same ↦ corrected goal bad there same u
      | inr other ↦ absurd (ground (arith, h, there, other))
    ]
  ]

  claim-GoalMove :
      (occ : Time)
      → update_last_check_build occ n ≡ some p
      → GoalMove env flavor n (merge_patch n p)
  unfolding update_last_check_build
  claim-GoalMove occ h =
      elim (Bool-cases (covers (lookup ann_update_last_check n.annotations) occ)) [
        | inl covered ↦ absurd (ground (arith, h, covered))
        | inr due ↦
            other_keys (update_last_check_patch n.rv (format_time occ)) (ground (arith, h, due))
              (unfold update_last_check_patch in refl)
      ]

  unmark-GoalMove : unmark_build n ≡ some p → GoalMove env flavor n (merge_patch n p)
  unfolding unmark_build
  unmark-GoalMove h = elim (Bool-cases (parse_update n.annotations).reboot_eligible_present) [
    | inr gone ↦ absurd (ground (arith, h, gone))
    | inl marked ↦
        other_keys (clear_reboot_eligible_patch n.rv) (ground (arith, h, marked))
          (unfold clear_reboot_eligible_patch in refl)
  ]

  pub Change-GoalMove :
      {a : Seen D} (build : BuildFunc)
      → a.flavor ≡ flavor
      → Change store env a build
      → build n ≡ some p
      → GoalMove env flavor n (merge_patch n p)
  Change-GoalMove build e (bootstrap running ts rest before at) h = bootstrap-GoalMove _ h
  Change-GoalMove build e (advance url sums own view v known a) h =
      advance-GoalMove url sums own view v (sym e ∙ known) a h
  Change-GoalMove build e (correct goal running own files before u known at) h =
      correct-GoalMove goal _ (subst (λ o. Unreachable env o goal) e u) h
  Change-GoalMove build e rearm h =
      other_keys (clear_patch n.rv false) ((rearm_build_iff n p).0 h).1 (unfold clear_patch in refl)
  Change-GoalMove build e (claim occ) h = claim-GoalMove occ h
  Change-GoalMove build e unmark h = unmark-GoalMove h
  Change-GoalMove build e (enqueue now id goal running own known i) h =
      other_keys _ ((enqueue_controller_build_iff now id goal running n p).0 h).1
        (unfold admission_patch in refl)
