-- ===== src/Reboot/Pdb/Budget.antt =====
-- `pdbBlocked` against a plain count of the pods that the drain would disrupt.
use simplek8s_controller.Prelude.{
  ℕ, ◌+◌, ◌≤◌, ◌≡◌, inl, inr, Bool, false, ◌&&◌, String, Option, none, some, List, [], ◌∷◌, map,
  keep_if, count_if, str_eq, ltb, arith, Option-cases, if◌then◌else◌,
}
use simplek8s_controller.Kube.Types.{Node, Pod, PodDisruptionBudget, LabelSelector, running}
use simplek8s_controller.Kube.Selector.{matches}
use simplek8s_controller.Reboot.Pods.{evictable}
use simplek8s_controller.Reboot.Pdb.{
  lt_count, Counts, count_matched, count_pods, no_counts, blocks, pdb_key, pdb_blocked,
}

abbrev selects : Option Bool → Bool
selects none = false
selects (some b) = b

-- The budget's selector picks the pod, which runs on the node and would be evicted.
abbrev pub disrupts : Node → PodDisruptionBudget → LabelSelector → Pod → Bool
disrupts node pdb sel p =
    str_eq p.namespace pdb.namespace
    && selects (matches sel p.labels)
    && running p
    && str_eq p.node_name node.name
    && evictable p

-- The drain would disrupt more pods of the budget than it allows now.
abbrev pub exceeds : Node → List Pod → PodDisruptionBudget → Bool
exceeds node pods pdb = elim pdb.selector [
  | none ↦ false
  | some sel ↦
      let k = count_if (disrupts node pdb sel) pods in ltb 0 k && lt_count pdb.disruptions_allowed k
]

-- What the inner loop adds to its counters.
record Counted (k : ℕ) (c c' : Counts) : Type 0 where
  exact : c'.disruptable ≡ c.disruptable + k
  within : c.disruptable ≤ c.selected_on_n → c'.disruptable ≤ c'.selected_on_n

module _ (node : Node) (pdb : PodDisruptionBudget) (sel : LabelSelector) where
  count_matched-Counted :
      (p : Pod) (c : Counts)
      → Counted
          (if running p && str_eq p.node_name node.name && evictable p then 1 else 0)
          c
          (count_matched node p c)
  unfolding count_matched evictable
  count_matched-Counted p c = ground arith

  count_pods-Counted :
      (ps : List Pod) (c : Counts) {c' : Counts}
      → count_pods node pdb sel ps c ≡ some c'
      → Counted (count_if (disrupts node pdb sel) ps) c c'
  unfolding count_pods
  count_pods-Counted [] c h = ground arith
  count_pods-Counted (p ∷ ps) c {c'} h = ground (
    arith,
    count_pods-Counted ps c {c' = c'},
    count_pods-Counted ps (count_matched node p c) {c' = c'},
    count_matched-Counted p c,
  )

  blocks-exceeds :
      (ps : List Pod) {c : Counts}
      → count_pods node pdb sel ps no_counts ≡ some c
      → blocks pdb c ≡ (
          ltb 0 (count_if (disrupts node pdb sel) ps)
          && lt_count pdb.disruptions_allowed (count_if (disrupts node pdb sel) ps))
  unfolding blocks
  blocks-exceeds ps h = ground (arith, count_pods-Counted ps no_counts h)

-- If no selector panics, the budgets that block the drain of a node are, in order, exactly those for
-- which the selected, running, evictable pods on the node are more than the disruptions allowed.
pub pdb_blocked-exceeds :
    (node : Node) (pdbs : List PodDisruptionBudget) (pods : List Pod) (names : List String)
    → pdb_blocked node pdbs pods ≡ some names
    → names ≡ map pdb_key (keep_if (exceeds node pods) pdbs)
unfolding pdb_blocked
pdb_blocked-exceeds node [] pods names h = ground arith
pdb_blocked-exceeds node (pdb ∷ pdbs) pods names h =
    elim (Option-cases (pdb_blocked node pdbs pods)) [
      | inl stuck ↦ absurd (ground arith)
      | inr (rest, e) ↦
          let ih = pdb_blocked-exceeds node pdbs pods rest e in
          elim (Option-cases pdb.selector) [
            | inl all ↦ ground (arith, ih)
            | inr (sel, f) ↦ elim (Option-cases (count_pods node pdb sel pods no_counts)) [
              | inl stuck ↦ absurd (ground arith)
              | inr (c, g) ↦ ground (arith, ih, blocks-exceeds node pdb sel pods g)
            ]
          ]
    ]
