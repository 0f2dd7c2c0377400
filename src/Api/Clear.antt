-- ===== src/Api/Clear.antt =====
-- What the DELETE request clears.
use simplek8s_controller.Prelude.{
  ℕ, suc, ◌≡◌, ◌≢◌, refl, sym, subst, ap, ◌∙◌, ◌⊎◌, inl, inr, Bool, true, false, not, String, none,
  some, is_some, lookup, arith, Bool-cases, Option-cases, if◌then◌else◌,
}
use simplek8s_controller.Kube.Types.{Node}
use simplek8s_controller.Kube.Server.{Server, Patch, merge_patch, writes}
use simplek8s_controller.Kube.Server.Versions.{IsVersioned}
use simplek8s_controller.Nodestate.State.{
  State, requested, draining, rebooting, completed, failed, unknown, StateInfo, StatusInfo, parse,
}
use simplek8s_controller.Nodestate.Patch.{clear_patch}
use simplek8s_controller.Nodestate.Effects.{parse-clear_patch}
use simplek8s_controller.Nodestate.Transition.{
  Round, Outcome, done, aborted, exhausted, failed_with, patch_transition,
}
use simplek8s_controller.Nodestate.Transition.Atomic.{
  IsConditional, interference, Committed, Promise, patch_transition-Promise,
}
use simplek8s_controller.Reboot.Queue.{clean_state}
use simplek8s_controller.Reboot.World.Effect.{lookup-put_node}
use simplek8s_controller.Api.{
  ClearChoice, clear_state, clear_info, clear_choice, delete_reboot, cordoned_prev_known_absent,
}
use simplek8s_controller.Api.ClearLoop.{patch_of, clear_build, delete_reboot-patch_transition}

-- The status of the node is known to hold no earlier cordon: there is none, or it can be read.
pub data NoEarlierCordon (n : Node) : Type 0 where
  no_status : (parse n.annotations).status ≡ none → NoEarlierCordon n
  unset :
      (s : StatusInfo)
      → (parse n.annotations).status ≡ some s
      → s.present ≡ false
      → NoEarlierCordon n
  not_before :
      (s : StatusInfo)
      → (parse n.annotations).status ≡ some s
      → s.parse_error ≡ none
      → s.cordoned_prev ≡ none
      → NoEarlierCordon n

known_absent-NoEarlierCordon :
    (n : Node) → cordoned_prev_known_absent (parse n.annotations) ≡ true → NoEarlierCordon n
unfolding cordoned_prev_known_absent
known_absent-NoEarlierCordon n h = elim (Option-cases (parse n.annotations).status) [
  | inl absent ↦ no_status absent
  | inr (s, there) ↦ elim (Bool-cases s.present) [
    | inr missing ↦ unset s there missing
    | inl present ↦ elim (Option-cases s.parse_error) [
      | inr (e, corrupt) ↦ absurd (ground (arith, h, there, present, corrupt))
      | inl readable ↦ elim (Option-cases s.cordoned_prev) [
        | inr (b, cordon) ↦ absurd (ground (arith, h, there, present, readable, cordon))
        | inl none_known ↦ not_before s there readable none_known
      ]
    ]
  ]
]

-- What is cleared: every record of the node goes; its readable state is there and is not `draining`; the
-- cordon stays, or is lifted where an earlier cordon is known to be absent.
pub record Cleared (env : ℕ → Round) (name : String) (s t : Server) : Type 0 where
  pub rounds : ℕ
  pub before : Node
  pub after : Node
  pub found : lookup name (writes s (interference env 0 rounds)).nodes ≡ some before
  pub recorded : (parse before.annotations).state ≢ none
  pub interruptible : clean_state (parse before.annotations) ≢ some draining
  pub stored : lookup name t.nodes ≡ some after
  pub parsed :
      parse after.annotations ≡ record { state = none; request = none; exec = none; status = none }
  pub cordon :
      (after.unschedulable ≡ before.unschedulable)
      ⊎ ((after.unschedulable ≡ false) × NoEarlierCordon before)

-- What a choice to clear says of the node.
record Clears (n : Node) (p : Patch) : Type 0 where
  uncordon : Bool
  is_clear : p ≡ clear_patch n.rv uncordon
  recorded : (parse n.annotations).state ≢ none
  interruptible : clean_state (parse n.annotations) ≢ some draining
  allowed : uncordon ≡ true → cordoned_prev_known_absent (parse n.annotations) ≡ true

clear-rv : (rv : ℕ) (b : Bool) → (clear_patch rv b).rv ≡ rv
unfolding clear_patch
clear-rv rv true = refl
clear-rv rv false = refl

clear_if :
    (n : Node) (b : Bool) {p : Patch} → some (clear_patch n.rv b) ≡ some p → p ≡ clear_patch n.rv b
clear_if n b h = ground (arith, h)

state-Clears :
    (n : Node) (st : State) {p : Patch}
    → (parse n.annotations).state ≢ none
    → clean_state (parse n.annotations) ≡ some st
    → patch_of (clear_state st n) ≡ some p
    → Clears n p
state-Clears n draining there e h = absurd (ground (arith, h))
state-Clears n requested there e h = record {
  uncordon = false;
  is_clear = clear_if n false h;
  recorded = there;
  interruptible = λ d. ground (arith, e, d);
  allowed = λ f. ground (arith, f);
}
state-Clears n (unknown t) there e h = record {
  uncordon = false;
  is_clear = clear_if n false h;
  recorded = there;
  interruptible = λ d. ground (arith, e, d);
  allowed = λ f. ground (arith, f);
}
state-Clears n rebooting there e h = record {
  uncordon = cordoned_prev_known_absent (parse n.annotations);
  is_clear = clear_if n _ h;
  recorded = there;
  interruptible = λ d. ground (arith, e, d);
  allowed = λ f. f;
}
state-Clears n completed there e h = record {
  uncordon = cordoned_prev_known_absent (parse n.annotations);
  is_clear = clear_if n _ h;
  recorded = there;
  interruptible = λ d. ground (arith, e, d);
  allowed = λ f. f;
}
state-Clears n failed there e h = record {
  uncordon = cordoned_prev_known_absent (parse n.annotations);
  is_clear = clear_if n _ h;
  recorded = there;
  interruptible = λ d. ground (arith, e, d);
  allowed = λ f. f;
}

corrupt-Clears :
    (n : Node) {p : Patch}
    → (parse n.annotations).state ≢ none
    → clean_state (parse n.annotations) ≡ none
    → some (clear_patch n.rv false) ≡ some p
    → Clears n p
corrupt-Clears n there e h = record {
  uncordon = false;
  is_clear = clear_if n false h;
  recorded = there;
  interruptible = λ d. ground (arith, e, d);
  allowed = λ f. ground (arith, f);
}

both_passed :
    (b c : Bool) (x y z : ClearChoice) {p : Patch}
    → b ≡ true
    → c ≡ false
    → patch_of (if not b then x else if c then y else z) ≡ some p
    → patch_of z ≡ some p
both_passed true false x y z e f h = h
both_passed true true x y z e f h = absurd (ground (arith, f))
both_passed false c x y z e f h = absurd (ground (arith, e))

clear_info-Clears :
    (n : Node) (i : StateInfo) {p : Patch}
    → (parse n.annotations).state ≡ some i
    → patch_of (clear_info (some i) n) ≡ some p
    → Clears n p
unfolding clear_info clean_state
clear_info-Clears n i at h =
    let there : (parse n.annotations).state ≢ none = λ e. ground (arith, e, at) in
    elim (Bool-cases i.present) [
      | inr missing ↦ absurd (ground (arith, missing, h))
      | inl present ↦ elim (Bool-cases (is_some i.parse_error)) [
        | inl corrupt ↦
            corrupt-Clears n there (ground (arith, at, corrupt))
              (ground (arith, present, corrupt, h))
        | inr clean ↦
            state-Clears n i.state there (ground (arith, at, clean))
              (both_passed _ _ _ _ _ present clean h)
      ]
    ]

clear_build-Clears : (n : Node) {p : Patch} → clear_build n ≡ some p → Clears n p
unfolding clear_choice clear_info
clear_build-Clears n {p} h = elim (Option-cases (parse n.annotations).state) [
  | inl absent ↦ absurd (ground (arith, h, absent))
  | inr (i, at) ↦ clear_info-Clears n i at (subst (λ o. patch_of (clear_info o n) ≡ some p) at h)
]

clear_build-IsConditional : IsConditional clear_build
unfolding clear_patch
clear_build-IsConditional = record {
  version = λ n p h.
      let c = clear_build-Clears n h in ap (λ x. x.rv) c.is_clear ∙ clear-rv n.rv c.uncordon;
}

Cleared-of_Committed :
    (name : String) {env : ℕ → Round} {s t : Server}
    → Committed env 0 clear_build name s t
    → Cleared env name s t
unfolding merge_patch
Cleared-of_Committed name {env} {s} c =
    let cl = clear_build-Clears c.node c.built in
    let merged = merge_patch c.node c.patch in
    let m = parse-clear_patch c.node c.node.rv cl.uncordon in
    record {
      rounds = c.rounds;
      before = c.node;
      after = record merged { rv = suc (writes s (interference env 0 c.rounds)).rv_counter };
      found = c.found;
      recorded = cl.recorded;
      interruptible = cl.interruptible;
      stored = rw c.made (lookup-put_node (writes s (interference env 0 c.rounds)) name merged);
      parsed = rw cl.is_clear m.0;
      cordon = elim (Bool-cases cl.uncordon) [
        | inl lifted ↦ inr (
          rw cl.is_clear (m.1 ∙ ap (λ b. if b then false else c.node.unschedulable) lifted),
          known_absent-NoEarlierCordon c.node (cl.allowed lifted),
        )
        | inr stays ↦
            inl (rw cl.is_clear (m.1 ∙ ap (λ b. if b then false else c.node.unschedulable) stays))
      ];
    }

done-Cleared :
    (env : ℕ → Round) (name : String) (s : Server) (r : Outcome × Server)
    → Promise env 0 clear_build name s r
    → r.0 ≡ done
    → Cleared env name s r.1
done-Cleared env name s (done, t) p h = Cleared-of_Committed name p
done-Cleared env name s (aborted, t) p h = absurd (ground (arith, h))
done-Cleared env name s (exhausted, t) p h = absurd (ground (arith, h))
done-Cleared env name s (failed_with e, t) p h = absurd (ground (arith, h))

-- From a store where no version is above the counter, a DELETE that is answered with 204 was merged
-- into a node whose state is there and is not a readable `draining`, after nothing but what the
-- environment's other clients wrote in the rounds of the patch: every record of it is gone, and its
-- cordon stays, or is lifted where its status is known to hold no earlier cordon.
pub delete_reboot-Cleared :
    (env : ℕ → Round) (name : String) (s : Server)
    → IsVersioned s
    → (delete_reboot env name s).0 ≡ 204
    → Cleared env name s (delete_reboot env name s).1
delete_reboot-Cleared env name s v h =
    let agree = delete_reboot-patch_transition env name s in
    let r = patch_transition 3 clear_build env name s in
    subst (Cleared env name s) (sym agree.0) (
      done-Cleared env name s r
        (patch_transition-Promise clear_build name 3 env s clear_build-IsConditional v) (agree.1 h))
