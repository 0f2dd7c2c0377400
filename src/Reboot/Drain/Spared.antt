-- ===== src/Reboot/Drain/Spared.antt =====
-- What a drain does not wait for, and until when it may go on.
use simplek8s_controller.Prelude.{
  ℕ, ◌+◌, ◌<◌, ◌≡◌, ◌≢◌, ◌↔◌, inl, inr, sym, any, eq_iff, none, some, Option-cases, Bool, true,
  false, ◌&&◌, String, List, [], ◌∷◌, Among, lookup, str_eq, arith, Bool-cases,
}
use simplek8s_controller.Stdlib.Text.{Time}
use simplek8s_controller.Kube.Types.{Node, Pod, terminating}
use simplek8s_controller.Nodestate.State.{NodeState, StateInfo}
use simplek8s_controller.Reboot.Pods.{is_daemon_set_managed, is_mirror_of_static, evictable}
use simplek8s_controller.Reboot.Drain.{drain_expired}

-- The pod stands in the way of the drain.
abbrev pub blocks_drain : Node → Pod → Bool
blocks_drain node p = str_eq p.node_name node.name && evictable p

-- Since its state was written, less than the timeout has passed.
pub record InTime (st : NodeState) (now : Time) (timeout : ℕ) : Type 0 where
  pub info : StateInfo
  pub since : Time
  pub found : st.state ≡ some info
  pub dated : info.since ≡ some since
  pub recent : now < since + timeout

pub drain_expired-InTime_iff :
    (st : NodeState) (now : Time) (timeout : ℕ)
    → (drain_expired st now timeout ≡ false) ↔ InTime st now timeout
unfolding drain_expired
drain_expired-InTime_iff st now timeout = (
  λ h. elim (Option-cases st.state) [
    | inl absent ↦ absurd (ground (arith, h, absent))
    | inr (i, found) ↦ elim (Option-cases i.since) [
      | inl never ↦ absurd (ground (arith, h, found, never))
      | inr (since, dated) ↦ record {
        info = i;
        since = since;
        found = found;
        dated = dated;
        recent = ground (arith, h, found, dated);
      }
    ]
  ],
  λ t. ground (arith, t.found, t.dated, t.recent),
)

-- A pod that the drain of the node does not wait for: it is bound to another node, it is terminating, a
-- daemon set owns it, or it is the mirror of a static pod.
pub data LeavesAlone (node : Node) (p : Pod) : Type 0 where
  elsewhere : p.node_name ≢ node.name → LeavesAlone node p
  goes : p.deletion_timestamp ≢ none → LeavesAlone node p
  of_daemon_set : Among "DaemonSet" p.owner_kinds → LeavesAlone node p
  of_static :
      lookup "kubernetes.io/config.mirror" p.annotations ≢ none
      → Among "Node" p.owner_kinds
      → LeavesAlone node p

any-Among :
    (kind : String) (kinds : List String) → any (λ k. str_eq k kind) kinds ≡ true → Among kind kinds
any-Among kind [] h = absurd (ground (arith, h))
any-Among kind (k ∷ ks) h = elim (Bool-cases (str_eq k kind)) [
  | inl here ↦ inl (sym ((eq_iff k kind).0 here))
  | inr other ↦ inr (any-Among kind ks (ground (arith, h, other)))
]

Among-any :
    (kind : String) (kinds : List String) → Among kind kinds → any (λ k. str_eq k kind) kinds ≡ true
Among-any kind [] h = absurd h
Among-any kind (k ∷ ks) (inl here) = let same = (eq_iff k kind).1 (sym here) in ground (arith, same)
Among-any kind (k ∷ ks) (inr later) = ground (arith, Among-any kind ks later)

pub blocks_drain-LeavesAlone :
    (node : Node) (p : Pod) → blocks_drain node p ≡ false → LeavesAlone node p
unfolding evictable is_daemon_set_managed is_mirror_of_static terminating
blocks_drain-LeavesAlone node p h = elim (Bool-cases (str_eq p.node_name node.name)) [
  | inr other ↦ elsewhere (λ same. ground (arith, other, (eq_iff p.node_name node.name).1 same))
  | inl bound ↦ elim (Option-cases p.deletion_timestamp) [
    | inr (t, going) ↦ goes (λ absent. ground (arith, going, absent))
    | inl stays ↦ elim (Bool-cases (any (λ k. str_eq k "DaemonSet") p.owner_kinds)) [
      | inl owned ↦ of_daemon_set (any-Among "DaemonSet" p.owner_kinds owned)
      | inr free ↦ elim (Option-cases (lookup "kubernetes.io/config.mirror" p.annotations)) [
        | inl plain ↦ absurd (ground (arith, h, bound, stays, free, plain))
        | inr (m, mirror) ↦
            of_static (λ absent. ground (arith, mirror, absent))
              (any-Among "Node" p.owner_kinds (ground (arith, h, bound, stays, free, mirror)))
      ]
    ]
  ]
]

pub LeavesAlone-blocks_drain :
    (node : Node) (p : Pod) → LeavesAlone node p → blocks_drain node p ≡ false
unfolding evictable is_daemon_set_managed is_mirror_of_static terminating
LeavesAlone-blocks_drain node p (elsewhere other) =
    elim (Bool-cases (str_eq p.node_name node.name)) [
      | inl bound ↦ absurd (other ((eq_iff p.node_name node.name).0 bound))
      | inr free ↦ ground (arith, free)
    ]
LeavesAlone-blocks_drain node p (goes t) = elim (Option-cases p.deletion_timestamp) [
  | inl absent ↦ absurd (t absent)
  | inr (x, there) ↦ ground (arith, there)
]
LeavesAlone-blocks_drain node p (of_daemon_set o) =
    ground (arith, Among-any "DaemonSet" p.owner_kinds o)
LeavesAlone-blocks_drain node p (of_static m o) =
    elim (Option-cases (lookup "kubernetes.io/config.mirror" p.annotations)) [
      | inl absent ↦ absurd (m absent)
      | inr (x, there) ↦ ground (arith, there, Among-any "Node" p.owner_kinds o)
    ]
