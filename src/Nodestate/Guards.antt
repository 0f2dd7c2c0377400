-- ===== src/Nodestate/Guards.antt =====
-- When each conditional builder writes, what it writes, and that every patch carries the version of
-- the node it was built from.
use simplek8s_controller.Prelude.{
  ℕ, ◌≡◌, ◌≢◌, ◌↔◌, refl, sym, subst, ap, ◌∙◌, Bool-cases, inl, inr, Bool, true, false, not, String,
  none, some, Dict, lookup, Option-cases, lookup-insert, ltb, arith,
}
use simplek8s_controller.Stdlib.Text.{text_eq_iff, Text, lit, Time, whole, format_time}
use simplek8s_controller.Stdlib.Json.{Raw, text, doc, raw_eq}
use simplek8s_controller.Kube.Types.{Node}
use simplek8s_controller.Kube.Server.{Patch, merge_patch, merge_annotations}
use simplek8s_controller.Nodestate.State.{
  State, requested, draining, rebooting, completed, failed, unknown, StateInfo, ann_state, parse,
  parse_state,
}
use simplek8s_controller.Nodestate.Patch.{admission_patch, clear_patch}
use simplek8s_controller.Nodestate.Transition.Atomic.{IsConditional}
use simplek8s_controller.Nodestate.Update.{
  UpdateInfo, parse_update, is_version, ann_next_kernel, ann_update_last_check, next_kernel_build,
  update_last_check_patch, update_last_check_build, covers, correct_goal_build, state_present,
  enqueue_controller_build, is_completed, rearmable, rearm_build,
}

pub next_kernel_build-IsConditional :
    (version : String) (precond : UpdateInfo → Bool)
    → IsConditional (next_kernel_build version precond)
unfolding next_kernel_build
next_kernel_build-IsConditional version precond = record { version = λ n p h. ground arith }

pub update_last_check_build-IsConditional :
    (occ : Time) → IsConditional (update_last_check_build occ)
unfolding update_last_check_build
update_last_check_build-IsConditional occ = record { version = λ n p h. ground arith }

pub correct_goal_build-IsConditional :
    (bad_val : Raw) (target : String) → IsConditional (correct_goal_build bad_val target)
unfolding correct_goal_build
correct_goal_build-IsConditional bad_val target = record { version = λ n p h. ground arith }

pub enqueue_controller_build-IsConditional :
    (since : Time) (id : Text) (goal running : String)
    → IsConditional (enqueue_controller_build since id goal running)
unfolding enqueue_controller_build admission_patch
enqueue_controller_build-IsConditional since id goal running = record {
  version = λ n p h. ground arith;
}

pub rearm_build-IsConditional : IsConditional rearm_build
unfolding rearm_build clear_patch
rearm_build-IsConditional = record { version = λ n p h. ground arith }

-- A state that is read from an annotation is there, readable or corrupt.
parse_state-present : (raw : Raw) → (parse_state raw).present ≡ true
unfolding parse_state
parse_state-present raw = ground arith

state_present-none_iff :
    (a : Dict Raw) → (state_present (parse a) ≡ false) ↔ (lookup ann_state a ≡ none)
unfolding state_present parse
state_present-none_iff a = elim (Option-cases (lookup ann_state a)) [
  | inl absent ↦ rw absent (λ h. refl, λ h. refl)
  | inr (raw, there) ↦
      rw (there, parse_state-present raw) (λ h. absurd (ground (arith, h)), λ h. absurd (cc))
]

-- The node may be enqueued: it has no annotation of a reboot state, and its goal is the given
-- version, which is well-formed and does not run.
pub record IsEnqueueable (goal running : String) (node : Node) : Type 0 where
  pub no_state : lookup ann_state node.annotations ≡ none
  pub anchored : lookup ann_next_kernel node.annotations ≡ some (text (lit goal))
  pub valid : is_version (text (lit goal)) ≡ true
  pub not_running : goal ≢ running

raw_eq_iff : (raw : Raw) (s : String) → (raw_eq raw s ≡ true) ↔ (raw ≡ text (lit s))
unfolding raw_eq
raw_eq_iff (text t) s =
    (λ h. ap text ((text_eq_iff t (lit s)).0 h), λ e. (text_eq_iff t (lit s)).1 (ap text_of e))
  where
    text_of : Raw → Text
    text_of (text t) = t
    text_of (doc j) = lit s
raw_eq_iff (doc j) s = (λ h. absurd (ground (arith, h)), λ e. absurd (cc))

enqueue-IsEnqueueable :
    (goal running : String) (node : Node)
    → state_present (parse node.annotations) ≡ false
    → (parse_update node.annotations).next_kernel_present ≡ true
    → (parse_update node.annotations).next_kernel_invalid ≡ false
    → raw_eq (parse_update node.annotations).next_kernel goal ≡ true
    → raw_eq (parse_update node.annotations).next_kernel running ≡ false
    → IsEnqueueable goal running node
unfolding parse_update
enqueue-IsEnqueueable goal running node no_state present valid is_goal not_running =
    elim (Option-cases (lookup ann_next_kernel node.annotations)) [
      | inl absent ↦ absurd (ground (arith, absent, present))
      | inr (raw, there) ↦
          let same : raw ≡ text (lit goal) =
            (raw_eq_iff raw goal).0 (ground (arith, there, is_goal)) in
          let good : is_version raw ≡ true = ground (arith, there, valid) in
          let other : raw_eq raw running ≡ false = ground (arith, there, not_running) in
          record {
            no_state = (state_present-none_iff node.annotations).0 no_state;
            anchored = there ∙ ap some same;
            valid = subst (λ r. is_version r ≡ true) same good;
            not_running = λ e.
                ground (arith, other, (raw_eq_iff raw running).1 (same ∙ ap (λ g. text (lit g)) e));
          }
    ]

enqueue-some :
    (since : Time) (id : Text) (goal running : String) (node : Node)
    → IsEnqueueable goal running node
    → enqueue_controller_build since id goal running node
      ≡ some (admission_patch node.rv since id (lit "controller") false)
unfolding enqueue_controller_build parse_update
enqueue-some since id goal running node e =
    let state = (state_present-none_iff node.annotations).1 e.no_state in
    let is_goal = (raw_eq_iff (text (lit goal)) goal).1 refl in
    elim (Bool-cases (raw_eq (text (lit goal)) running)) [
      | inl runs ↦ absurd (e.not_running (lit_same ((raw_eq_iff (text (lit goal)) running).0 runs)))
      | inr other ↦ rw (state, e.anchored, e.valid, is_goal, other) refl
    ]
  where
    text_of : Raw → String
    text_of (text (lit s)) = s
    text_of _ = ""

    lit_same : text (lit goal) ≡ text (lit running) → goal ≡ running
    lit_same h = ap text_of h

-- A node is enqueued exactly when it has no annotation of a reboot state, readable or corrupt, and
-- its goal is still the one that the caller decided on, well-formed, and not what it runs; the
-- write is then the admission of a request by the controller, without force.
pub enqueue_controller_build_iff :
    (since : Time) (id : Text) (goal running : String) (node : Node) (p : Patch)
    → (enqueue_controller_build since id goal running node ≡ some p) ↔ (
        IsEnqueueable goal running node
        × (p ≡ admission_patch node.rv since id (lit "controller") false))
unfolding enqueue_controller_build
enqueue_controller_build_iff since id goal running node p = (
  λ h. (
    enqueue-IsEnqueueable goal running node (ground arith) (ground arith) (ground arith)
        (ground arith) (ground arith),
    ground arith,
  ),
  λ (e, same). enqueue-some since id goal running node e ∙ ap some (sym same),
)

-- The state of the node can be read, and is `completed`.
pub record IsCompleted (node : Node) : Type 0 where
  pub info : StateInfo
  pub found : (parse node.annotations).state ≡ some info
  pub present : info.present ≡ true
  pub readable : info.parse_error ≡ none
  pub is_completed : info.state ≡ completed

is_completed-eq : (s : State) → is_completed s ≡ true → s ≡ completed
unfolding is_completed
is_completed-eq completed h = refl
is_completed-eq requested h = absurd (ground (arith, h))
is_completed-eq draining h = absurd (ground (arith, h))
is_completed-eq rebooting h = absurd (ground (arith, h))
is_completed-eq failed h = absurd (ground (arith, h))
is_completed-eq (unknown t) h = absurd (ground (arith, h))

rearmable-IsCompleted :
    (node : Node) → rearmable (parse node.annotations).state ≡ true → IsCompleted node
unfolding rearmable
rearmable-IsCompleted node h = elim (Option-cases (parse node.annotations).state) [
  | inl absent ↦ absurd (ground (arith, h, absent))
  | inr (i, found) ↦ elim (Option-cases i.parse_error) [
    | inr (e, corrupt) ↦ absurd (ground (arith, h, found, corrupt))
    | inl readable ↦ record {
      info = i;
      found = found;
      present = ground (arith, h, found, readable);
      readable = readable;
      is_completed = is_completed-eq i.state (ground (arith, h, found, readable));
    }
  ]
]

IsCompleted-rearmable :
    (node : Node) → IsCompleted node → rearmable (parse node.annotations).state ≡ true
unfolding rearmable is_completed
IsCompleted-rearmable node c = rw (c.found, c.present, c.readable, c.is_completed) refl

-- Re-arming writes exactly on a state that is there, that can be read and that is `completed`, and then
-- clears the whole record and leaves the cordon.
pub rearm_build_iff :
    (node : Node) (p : Patch)
    → (rearm_build node ≡ some p) ↔ (IsCompleted node × (p ≡ clear_patch node.rv false))
unfolding rearm_build
rearm_build_iff node p = (
  λ h.
      let may : rearmable (parse node.annotations).state ≡ true = ground (arith, h) in
      (rearmable-IsCompleted node may, ground (arith, h)),
  λ (c, same). ground (arith, IsCompleted-rearmable node c, same),
)

covers-claim :
    (n : Node) (rv : ℕ) (occ : Time)
    → covers
        (lookup ann_update_last_check
          (merge_patch n (update_last_check_patch rv (format_time occ))).annotations)
        occ
      ≡ not (ltb (whole occ) occ)
unfolding merge_patch merge_annotations update_last_check_patch covers format_time
covers-claim n rv occ = simp lookup-insert

covers_whole_iff : (occ : Time) → (not (ltb (whole occ) occ) ≡ true) ↔ (whole occ ≡ occ)
covers_whole_iff occ = (λ h. ground arith, λ h. ground arith)

-- After a claim is merged, the stored value covers the claimed occurrence exactly if the occurrence
-- is at a whole second.
pub claim-covers_iff :
    (n : Node) (rv : ℕ) (occ : Time)
    → (covers
          (lookup ann_update_last_check
            (merge_patch n (update_last_check_patch rv (format_time occ))).annotations)
          occ
        ≡ true)
      ↔ (whole occ ≡ occ)
claim-covers_iff n rv occ = rw (covers-claim n rv occ) (covers_whole_iff occ)
