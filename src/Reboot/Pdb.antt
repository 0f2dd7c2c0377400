-- ===== src/Reboot/Pdb.antt =====
-- internal/features/reboot/pdb.go: which budgets block the drain of a node. `none` is the panic of a
-- selector (Kube.Selector).
pub mod Budget
use Prim.Native.String.{◌++◌}
use simplek8s_controller.Prelude.{
  ℕ, zero, suc, ◌+◌, Bool, true, false, not, ◌&&◌, ◌||◌, String, Option, none, some, List, [], ◌∷◌,
  str_eq, ltb, ◌==◌, if◌then◌else◌,
}
use simplek8s_controller.Stdlib.Json.{ℤ, pos, negsuc}
use simplek8s_controller.Kube.Types.{
  Node, Pod, PodDisruptionBudget, LabelSelector, terminating, running,
}
use simplek8s_controller.Kube.Selector.{matches}
use simplek8s_controller.Reboot.Pods.{evictable}

-- a < n, for an int32 and a count
unfoldable pub lt_count : ℤ → ℕ → Bool
lt_count (pos a) n = ltb a n
lt_count (negsuc a) n = true

-- The two counters of the inner loop.
pub record Counts : Type 0 where
  pub selected_on_n : ℕ
  pub disruptable : ℕ

-- The body of the inner loop, on a pod of the namespace that the selector matches.
unfoldable pub count_matched : Node → Pod → Counts → Counts
count_matched node p c =
    if not (running p) || terminating p
    then c
    else if not (str_eq p.node_name node.name)
    then c
    else if evictable p
    then record { selected_on_n = c.selected_on_n + 1; disruptable = c.disruptable + 1 }
    else record c { selected_on_n = c.selected_on_n + 1 }

unfoldable pub count_pods :
    Node → PodDisruptionBudget → LabelSelector → List Pod → Counts → Option Counts
count_pods node pdb sel [] c = some c
count_pods node pdb sel (p ∷ ps) c = elim (str_eq p.namespace pdb.namespace) [
  | false ↦ count_pods node pdb sel ps c
  | true ↦ elim (matches sel p.labels) [
    | none ↦ none
    | some false ↦ count_pods node pdb sel ps c
    | some true ↦ count_pods node pdb sel ps (count_matched node p c)
  ]
]

abbrev pub no_counts : Counts
no_counts = record { selected_on_n = 0; disruptable = 0 }

-- What the outer loop decides of one budget, from its counters.
unfoldable pub blocks : PodDisruptionBudget → Counts → Bool
unfolding lt_count
blocks pdb c =
    if c.selected_on_n == 0
    then false
    else ltb 0 c.disruptable && lt_count pdb.disruptions_allowed c.disruptable

abbrev pub pdb_key : PodDisruptionBudget → String
pdb_key pdb = pdb.namespace ++ "/" ++ pdb.name

abbrev add_blocked :
    Option Counts → PodDisruptionBudget → Option (List String) → Option (List String)
add_blocked none pdb rest = none
add_blocked (some c) pdb none = none
add_blocked (some c) pdb (some names) = some (if blocks pdb c then pdb_key pdb ∷ names else names)

unfoldable pub pdb_blocked : Node → List PodDisruptionBudget → List Pod → Option (List String)
unfolding blocks
pdb_blocked node [] pods = some []
pdb_blocked node (pdb ∷ pdbs) pods =
    let rest = pdb_blocked node pdbs pods in
    elim pdb.selector [
      | none ↦ rest
      | some sel ↦ add_blocked (count_pods node pdb sel pods no_counts) pdb rest
    ]
