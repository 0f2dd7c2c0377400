-- ===== src/Kube/Server/Versions.antt =====
-- Resource versions: a node that still has its version has not changed.
use simplek8s_controller.Prelude.{
  ℕ, ◌≤◌, ◌<◌, ◌≡◌, ◌⊎◌, inl, inr, String, some, List, [], ◌∷◌, lookup, lookup-insert, lookup-erase,
  arith, Option-cases,
}
use simplek8s_controller.Kube.Types.{Node}
use simplek8s_controller.Kube.Server.{
  Server, Patch, Write, put, patch, remove, merge_patch, put_node, patch_node, remove_node, write,
  writes,
}

-- No node is newer than the counter.
pub record IsVersioned (s : Server) : Type 0 where
  pub bound : (name : String) (n : Node) → lookup name s.nodes ≡ some n → n.rv ≤ s.rv_counter

-- `t` comes after `s`: each of its nodes is as in `s`, or was written since.
pub record Later (s t : Server) : Type 0 where
  pub counter : s.rv_counter ≤ t.rv_counter
  pub kept :
      (name : String) (n : Node)
      → lookup name t.nodes ≡ some n
      → (lookup name s.nodes ≡ some n) ⊎ (s.rv_counter < n.rv)

pub Later-refl : (s : Server) → Later s s
Later-refl s = record { counter = omega arith; kept = λ name n h. inl h }

pub Later-trans : {s t u : Server} → Later s t → Later t u → Later s u
Later-trans a b = record {
  counter = omega (arith, a.counter, b.counter);
  kept = λ name n h. elim (b.kept name n h) [
    | inl same ↦ a.kept name n same
    | inr newer ↦ inr (omega (arith, a.counter))
  ];
}

put_node-Later : (s : Server) (name : String) (n : Node) → Later s (put_node s name n)
unfolding put_node
put_node-Later s name n = record {
  counter = omega arith;
  kept =
      λ j m h. ground (arith, lookup-insert name j (record n { rv = ℕ.suc s.rv_counter }) s.nodes);
}

remove_node-Later : (s : Server) (name : String) → Later s (remove_node s name)
unfolding remove_node
remove_node-Later s name = record {
  counter = omega arith;
  kept = λ j m h. ground (arith, lookup-erase name j s.nodes);
}

-- A patch that succeeds stores the merge with the node that has the patch's version.
pub patch_node-eq_some :
    (s : Server) (name : String) (p : Patch) {t : Server}
    → patch_node s name p ≡ some t
    → (n : Node) × (lookup name s.nodes ≡ some n)
      × (p.rv ≡ n.rv)
      × (t ≡ put_node s name (merge_patch n p))
unfolding patch_node
patch_node-eq_some s name p h = elim (Option-cases (lookup name s.nodes)) [
  | inl absent ↦ absurd (ground arith)
  | inr (n, found) ↦ (n, found, ground arith, ground arith)
]

pub patch_node-Later :
    (s : Server) (name : String) (p : Patch) {t : Server} → patch_node s name p ≡ some t → Later s t
patch_node-Later s name p h =
    let (n, found, same, made) = patch_node-eq_some s name p h in
    rw made (put_node-Later s name (merge_patch n p))

write-Later : (s : Server) (w : Write) → Later s (write s w)
unfolding write
write-Later s (put name n) = put_node-Later s name n
write-Later s (patch name p) = elim (Option-cases (patch_node s name p)) [
  | inl refused ↦ rw refused (Later-refl s)
  | inr (t, done) ↦ rw done (patch_node-Later s name p done)
]
write-Later s (remove name) = remove_node-Later s name

pub writes-Later : (s : Server) (ws : List Write) → Later s (writes s ws)
unfolding writes
writes-Later s [] = Later-refl s
writes-Later s (w ∷ ws) = Later-trans (write-Later s w) (writes-Later (write s w) ws)

pub put_node-IsVersioned :
    (s : Server) (name : String) (n : Node) → IsVersioned s → IsVersioned (put_node s name n)
unfolding put_node
put_node-IsVersioned s name n v = record {
  bound = λ j m h.
      ground
        (arith, lookup-insert name j (record n { rv = ℕ.suc s.rv_counter }) s.nodes, v.bound j m);
}

pub patch_node-IsVersioned :
    (s : Server) (name : String) (p : Patch) {t : Server}
    → patch_node s name p ≡ some t
    → IsVersioned s
    → IsVersioned t
patch_node-IsVersioned s name p h v =
    let (n, found, same, made) = patch_node-eq_some s name p h in
    rw made (put_node-IsVersioned s name (merge_patch n p) v)

write-IsVersioned : (s : Server) (w : Write) → IsVersioned s → IsVersioned (write s w)
unfolding write
write-IsVersioned s (put name n) v = put_node-IsVersioned s name n v
write-IsVersioned s (patch name p) v = elim (Option-cases (patch_node s name p)) [
  | inl refused ↦ rw refused v
  | inr (t, done) ↦ rw done (patch_node-IsVersioned s name p done v)
]
write-IsVersioned s (remove name) v =
    unfold remove_node in
    record { bound = λ j m h. ground (arith, lookup-erase name j s.nodes, v.bound j m) }

pub writes-IsVersioned : (s : Server) (ws : List Write) → IsVersioned s → IsVersioned (writes s ws)
unfolding writes
writes-IsVersioned s [] v = v
writes-IsVersioned s (w ∷ ws) v = writes-IsVersioned (write s w) ws (write-IsVersioned s w v)

-- If a node read earlier still has its version, it is the node that was read.
pub unchanged :
    {s t : Server} (name : String) (n m : Node)
    → IsVersioned s
    → Later s t
    → lookup name s.nodes ≡ some n
    → lookup name t.nodes ≡ some m
    → n.rv ≡ m.rv
    → n ≡ m
unchanged {s} name n m v l before now same =
    ground (arith, v.bound name n before, l.kept name m now)
