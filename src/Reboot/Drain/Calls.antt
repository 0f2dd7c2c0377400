-- ===== src/Reboot/Drain/Calls.antt =====
-- When a drain is done, and which pods it may call the API for.
use mathlib.Core.List.{◌++◌ as append}
use simplek8s_controller.Prelude.{
  ℕ, ◌≡◌, ◌↔◌, inl, inr, refl, Bool, true, false, not, ◌&&◌, String, List, [], ◌∷◌, All, Among,
  All-weaken, All-append, Dict, lookup, arith, Bool-cases, if◌then◌else◌,
}
use simplek8s_controller.Stdlib.Text.{Time}
use simplek8s_controller.Kube.Types.{Node, Pod, terminating}
use simplek8s_controller.Nodestate.State.{NodeState}
use simplek8s_controller.Reboot.Pods.{unmanaged, force_of}
use simplek8s_controller.Reboot.Drain.{
  drain_pending, drain_done, PodCall, evict, delete, Replies, DrainState, DenyState, pod_key,
  backing_off, evict_pod, evict_pods, deleted, delete_pods, to_evict, drain_pods, drain_expired,
  run_drain,
}
use simplek8s_controller.Reboot.Drain.Spared.{
  blocks_drain, InTime, drain_expired-InTime_iff, LeavesAlone, blocks_drain-LeavesAlone,
  LeavesAlone-blocks_drain,
}

-- A call that is for a pod of the list which blocks the drain of the node: an eviction of a managed pod,
-- or with force of any; a deletion only with force.
pub record Covers (force : Bool) (node : Node) (pods : List Pod) (ns name : String) : Type 0 where
  pub pod : Pod
  pub listed : Among pod pods
  pub blocking : blocks_drain node pod ≡ true
  pub names : (pod.namespace ≡ ns) × (pod.name ≡ name)
  pub managed_or_forced : (unmanaged pod && not force) ≡ false

abbrev pub IsAllowed : Bool → Node → List Pod → PodCall → Type 0
IsAllowed force node pods (evict ns name) = Covers force node pods ns name
IsAllowed force node pods (delete ns name) = Covers force node pods ns name × (force ≡ true)

to_evict-cons :
    (node : Node) (p : Pod) (ps : List Pod)
    → to_evict node (p ∷ ps)
      ≡ (if blocks_drain node p then p ∷ to_evict node ps else to_evict node ps)
unfolding to_evict
to_evict-cons node p ps = ground arith

to_evict-nil_iff :
    (node : Node) (pods : List Pod)
    → (to_evict node pods ≡ []) ↔ All (λ p. blocks_drain node p ≡ false) pods
to_evict-nil_iff node [] = (λ h. tt, λ h. unfold to_evict in refl)
to_evict-nil_iff node (p ∷ ps) = elim (Bool-cases (blocks_drain node p)) [
  | inl blocking ↦ rw (to_evict-cons node p ps, blocking) (λ h. absurd (cc), λ h. absurd (cc (h.0)))
  | inr free ↦
      rw (to_evict-cons node p ps, free)
        (λ h. (refl, (to_evict-nil_iff node ps).0 h), λ h. (to_evict-nil_iff node ps).1 h.1)
]

-- Every pod of `to_evict` is listed and blocks.
to_evict-listed :
    (node : Node) (pods : List Pod)
    → All (λ p. Among p pods × (blocks_drain node p ≡ true)) (to_evict node pods)
to_evict-listed node [] = unfold to_evict in tt
to_evict-listed node (p ∷ ps) =
    let rest =
      All-weaken (λ q. Among q ps × (blocks_drain node q ≡ true))
        (λ q. Among q (p ∷ ps) × (blocks_drain node q ≡ true)) (to_evict node ps)
        (λ q h. (inr h.0, h.1)) (to_evict-listed node ps) in
    elim (Bool-cases (blocks_drain node p)) [
      | inl blocking ↦ rw (to_evict-cons node p ps, blocking) ((inl refl, blocking), rest)
      | inr free ↦ rw (to_evict-cons node p ps, free) rest
    ]

module _ (r : Replies) (now : Time) (force : Bool) (node : Node) (pods : List Pod) where
  abbrev Target : Pod → Type 0
  Target p = Among p pods × (blocks_drain node p ≡ true)

  abbrev Good : List PodCall → Type 0
  Good = All (IsAllowed force node pods)

  evict_pod-Good :
      (p : Pod) (d : DrainState) → Target p → Good d.calls → Good (evict_pod r now force p d).calls
  unfolding evict_pod
  evict_pod-Good p d h g = elim (Bool-cases (terminating p)) [
    | inl gone ↦ rw gone g
    | inr here ↦ elim (Bool-cases (unmanaged p && not force)) [
      | inl left ↦ rw (here, left) g
      | inr taken ↦ elim (Bool-cases (backing_off (lookup (pod_key p) d.denied) now)) [
        | inl waits ↦ rw (here, taken, waits) g
        | inr tries ↦
            rw (here, taken, tries)
              (All-append (IsAllowed force node pods) d.calls (evict p.namespace p.name ∷ []) (
                g,
                (
                  record {
                    pod = p;
                    listed = h.0;
                    blocking = h.1;
                    names = (refl, refl);
                    managed_or_forced = taken;
                  },
                  tt,
                ),
              ))
      ]
    ]
  ]

  evict_pods-Good :
      (ps : List Pod) (d : DrainState)
      → All Target ps
      → Good d.calls
      → Good (evict_pods r now force ps d).calls
  unfolding evict_pods
  evict_pods-Good [] d h g = g
  evict_pods-Good (p ∷ ps) d h g =
      evict_pods-Good ps (evict_pod r now force p d) h.1 (evict_pod-Good p d h.0 g)

  delete_pods-Good :
      (ps : List Pod) (d : DrainState)
      → force ≡ true
      → All Target ps
      → Good d.calls
      → Good (delete_pods r ps d).1.calls
  unfolding delete_pods
  delete_pods-Good [] d f h g = g
  delete_pods-Good (p ∷ ps) d f h g =
      let covered : Covers force node pods p.namespace p.name = record {
        pod = p;
        listed = h.0.0;
        blocking = h.0.1;
        names = (refl, refl);
        managed_or_forced = rw f (ground arith);
      } in
      let g' =
        All-append (IsAllowed force node pods) d.calls (delete p.namespace p.name ∷ [])
          (g, ((covered, f), tt)) in
      elim (Bool-cases (terminating p)) [
        | inl gone ↦ rw (gone, delete_pods) (delete_pods-Good ps d f h.1 g)
        | inr here ↦ elim (Bool-cases (deleted (r.delete_reply p.namespace p.name))) [
          | inl fine ↦ rw (here, fine, delete_pods) (delete_pods-Good ps _ f h.1 g')
          | inr error ↦ rw (here, error, delete_pods) g'
        ]
      ]

  after_evictions-Good :
      (b : Bool) (ps : List Pod) (d : DrainState)
      → force ≡ b
      → All Target ps
      → Good d.calls
      → Good (if b then delete_pods r ps d else (drain_pending, d)).1.calls
  after_evictions-Good true ps d f h g = delete_pods-Good ps d f h g
  after_evictions-Good false ps d f h g = g

  drain_pods-Good :
      (ps : List Pod) (d : DrainState)
      → All Target ps
      → Good d.calls
      → Good (drain_pods r now force ps d).1.calls
  unfolding drain_pods
  drain_pods-Good [] d h g = g
  drain_pods-Good (p ∷ ps) d h g =
      after_evictions-Good force (p ∷ ps) (evict_pods r now force (p ∷ ps) d) refl h
        (evict_pods-Good (p ∷ ps) d h g)

-- Whatever the API replies, a drain cycle calls it only for pods that are bound to the node and
-- evictable; it evicts an unmanaged pod only with force, and deletes only with force.
pub run_drain-IsAllowed :
    (r : Replies) (now : Time) (node : Node) (st : NodeState) (pods : List Pod) (timeout : ℕ)
    (denied : Dict DenyState)
    → All
        (IsAllowed (force_of st) node pods)
        (run_drain r now node st pods timeout (record { denied = denied; calls = [] })).1.calls
unfolding run_drain
run_drain-IsAllowed r now node st pods timeout denied =
    elim (Bool-cases (drain_expired st now timeout)) [
      | inl late ↦ rw late tt
      | inr early ↦ rw early (
          drain_pods-Good r now (force_of st) node pods (to_evict node pods) _
            (to_evict-listed node pods) tt)
    ]

delete_pods-ne_done :
    (r : Replies) (ps : List Pod) (d : DrainState) → (delete_pods r ps d).0 ≡ drain_done → ⊥
unfolding delete_pods
delete_pods-ne_done r [] d h = cc
delete_pods-ne_done r (p ∷ ps) d h = ground (
  arith,
  delete_pods-ne_done r ps d,
  delete_pods-ne_done r ps (record d { calls = append d.calls (delete p.namespace p.name ∷ []) }),
)

drain_pods-done_iff :
    (r : Replies) (now : Time) (force : Bool) (ps : List Pod) (d : DrainState)
    → ((drain_pods r now force ps d).0 ≡ drain_done) ↔ (ps ≡ [])
unfolding drain_pods
drain_pods-done_iff r now force [] d = (λ h. refl, λ h. refl)
drain_pods-done_iff r now force (p ∷ ps) d = (
  λ h. ground (arith, delete_pods-ne_done r (p ∷ ps) (evict_pods r now force (p ∷ ps) d)),
  λ h. absurd (cc),
)

-- The drain is over exactly when less than the timeout has passed since the node's state was written, and
-- every pod of the list is bound to another node, or is terminating, owned by a daemon set, or the
-- mirror of a static pod. So no terminating pod is waited for.
pub run_drain-done_iff :
    (r : Replies) (now : Time) (node : Node) (st : NodeState) (pods : List Pod) (timeout : ℕ)
    (d : DrainState)
    → ((run_drain r now node st pods timeout d).0 ≡ drain_done)
      ↔ (InTime st now timeout × All (LeavesAlone node) pods)
unfolding run_drain
run_drain-done_iff r now node st pods timeout d =
    let done = drain_pods-done_iff r now (force_of st) (to_evict node pods) d in
    let none_left = to_evict-nil_iff node pods in
    let time = drain_expired-InTime_iff st now timeout in
    let free = λ (p : Pod). blocks_drain node p ≡ false in
    elim (Bool-cases (drain_expired st now timeout)) [
      | inl late ↦ rw late (λ h. absurd (cc), λ h. absurd (ground (arith, late, time.1 h.0)))
      | inr early ↦ rw early (
        λ h. (
          time.0 early,
          All-weaken free (LeavesAlone node) pods (blocks_drain-LeavesAlone node)
              (none_left.0 (done.0 h)),
        ),
        λ h. done.1 (
            none_left.1
              (All-weaken (LeavesAlone node) free pods (LeavesAlone-blocks_drain node) h.1)),
      )
    ]
