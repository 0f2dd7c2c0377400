-- ===== src/Nodestate/Transition/Atomic.antt =====
-- `PatchTransition` is a compare-and-set: what it writes was built from the very node that the
-- write replaces, and where it gives up nothing was written.
use simplek8s_controller.Prelude.{
  ℕ, zero, suc, ◌+◌, ◌≡◌, refl, sym, subst, ap, ◌∙◌, ◌⊎◌, inl, inr, String, none, some, List, [],
  ◌∷◌, ◌++◌, lookup, Option-cases, Bool-cases,
}
use simplek8s_controller.Kube.Types.{Node, ApiError, is_conflict}
use simplek8s_controller.Kube.Server.{
  Server, Patch, Write, merge_patch, put_node, patch_node, patch_error, writes, write,
}
use simplek8s_controller.Kube.Server.Versions.{
  IsVersioned, patch_node-eq_some, writes-Later, writes-IsVersioned, unchanged,
}
use simplek8s_controller.Nodestate.Transition.{
  Delivery, delivered, dropped, reply_lost, Round, Outcome, done, aborted, exhausted, failed_with,
  BuildFunc, on_patch_error, send, on_build, attempt, attempts, default_attempts, patch_transition,
}

-- The builder's patch carries the version of the node that it was built from.
pub record IsConditional (build : BuildFunc) : Type 0 where
  pub version : (n : Node) (p : Patch) → build n ≡ some p → p.rv ≡ n.rv

-- What the other clients write in the rounds `i`, ..., `i + k - 1` of the environment.
unfoldable pub interference : (ℕ → Round) → ℕ → ℕ → List Write
interference env i zero = []
interference env i (suc k) = (env i).between ++ interference env (i + 1) k

-- From `s` to `t` nothing was written but what other clients wrote, in the rounds of `env` from `i` on.
pub record Quiet (env : ℕ → Round) (i : ℕ) (s t : Server) : Type 0 where
  pub rounds : ℕ
  pub made : t ≡ writes s (interference env i rounds)

-- The other clients wrote in their rounds, and then the patch that `build` makes of the node was merged
-- into that node.
pub record Committed (env : ℕ → Round) (i : ℕ) (build : BuildFunc) (name : String) (s t : Server)
    : Type 0 where
  pub rounds : ℕ
  pub node : Node
  pub patch : Patch
  pub found : lookup name (writes s (interference env i rounds)).nodes ≡ some node
  pub built : build node ≡ some patch
  pub made : t ≡ put_node (writes s (interference env i rounds)) name (merge_patch node patch)

-- What each result promises.
pub record Refused (build : BuildFunc) (name : String) (t : Server) : Type 0 where
  pub node : Node
  pub found : lookup name t.nodes ≡ some node
  pub built : build node ≡ none

abbrev pub Promise : (ℕ → Round) → ℕ → BuildFunc → String → Server → Outcome × Server → Type 0
Promise env i build name s (done, t) = Committed env i build name s t
Promise env i build name s (aborted, t) = Quiet env i s t × Refused build name t
Promise env i build name s (exhausted, t) = Quiet env i s t
Promise env i build name s (failed_with e, t) = Quiet env i s t ⊎ Committed env i build name s t

writes-append : (s : Server) (ws vs : List Write) → writes s (ws ++ vs) ≡ writes (writes s ws) vs
unfolding writes
writes-append s [] vs = refl
writes-append s (w ∷ ws) vs = writes-append (write s w) ws vs

pub Quiet-refl : (env : ℕ → Round) (i : ℕ) (s : Server) → Quiet env i s s
unfolding writes interference
Quiet-refl env i s = record { rounds = 0; made = refl }

module _ (env : ℕ → Round) (i : ℕ) where
  -- The writes of a round, and those of the rounds after it.
  one_more :
      (s : Server) (k : ℕ)
      → writes (writes s (env i).between) (interference env (i + 1) k)
        ≡ writes s (interference env i (suc k))
  unfolding interference
  one_more s k = sym (writes-append s (env i).between (interference env (i + 1) k))

  one_round : (s : Server) → writes s (env i).between ≡ writes s (interference env i 1)
  unfolding writes interference
  one_round s = one_more s 0

  Quiet-round : (s : Server) → Quiet env i s (writes s (env i).between)
  Quiet-round s = record { rounds = 1; made = one_round s }

  Quiet-later : {s t : Server} → Quiet env (i + 1) (writes s (env i).between) t → Quiet env i s t
  Quiet-later {s} q = record { rounds = suc q.rounds; made = q.made ∙ one_more s q.rounds }

  module _ (build : BuildFunc) (name : String) where
    Committed-later :
        {s t : Server}
        → Committed env (i + 1) build name (writes s (env i).between) t
        → Committed env i build name s t
    Committed-later {s} c =
        let e = one_more s c.rounds in
        record {
          rounds = suc c.rounds;
          node = c.node;
          patch = c.patch;
          found = subst (λ x. lookup name x.nodes ≡ some c.node) e c.found;
          built = c.built;
          made = c.made ∙ ap (λ x. put_node x name (merge_patch c.node c.patch)) e;
        }

    Promise-later :
        (s : Server) (r : Outcome × Server)
        → Promise env (i + 1) build name (writes s (env i).between) r
        → Promise env i build name s r
    Promise-later s (done, u) c = Committed-later c
    Promise-later s (aborted, u) c = (Quiet-later c.0, c.1)
    Promise-later s (exhausted, u) c = Quiet-later c
    Promise-later s (failed_with e, u) (inl q) = inl (Quiet-later q)
    Promise-later s (failed_with e, u) (inr c) = inr (Committed-later c)

    -- A patch that the server takes is a commit, if the node was read before the round's writes.
    Committed-patch_node :
        {s t : Server} (n : Node) (p : Patch)
        → IsConditional build
        → IsVersioned s
        → lookup name s.nodes ≡ some n
        → build n ≡ some p
        → patch_node (writes s (env i).between) name p ≡ some t
        → Committed env i build name s t
    Committed-patch_node {s} n p c v found built ok =
        let ws = (env i).between in
        let (m, now, same, made) = patch_node-eq_some (writes s ws) name p ok in
        let e : n ≡ m =
          unchanged name n m v (writes-Later s ws) found now (sym (c.version n p built) ∙ same) in
        record {
          rounds = 1;
          node = m;
          patch = p;
          found = subst (λ x. lookup name x.nodes ≡ some m) (one_round s) now;
          built = rw (← e) built;
          made = made ∙ ap (λ x. put_node x name (merge_patch m p)) (one_round s);
        }

    module _ {s : Server} (again : Server → Outcome × Server) (c : IsConditional build)
        (v : IsVersioned s)
        (next : Promise env i build name s (again (writes s (env i).between))) where
      on_patch_error-Promise :
          (e : ApiError)
          → Promise env i build name s (on_patch_error e (writes s (env i).between) again)
      unfolding on_patch_error
      on_patch_error-Promise e = elim (Bool-cases (is_conflict e)) [
        | inl yes_conflict ↦ rw yes_conflict next
        | inr other ↦ rw other (inl (Quiet-round s))
      ]

      send-Promise :
          (d : Delivery) (n : Node) (p : Patch)
          → lookup name s.nodes ≡ some n
          → build n ≡ some p
          → Promise env i build name s (send d (writes s (env i).between) name p again)
      unfolding send
      send-Promise (dropped e) n p found built = on_patch_error-Promise e
      send-Promise reply_lost n p found built =
          elim (Option-cases (patch_node (writes s (env i).between) name p)) [
            | inl refused ↦ rw refused (inl (Quiet-round s))
            | inr (t, ok) ↦ rw ok (inr (Committed-patch_node n p c v found built ok))
          ]
      send-Promise delivered n p found built =
          let ws = (env i).between in
          elim (Option-cases (patch_node (writes s ws) name p)) [
            | inl refused ↦
                rw (refused, send) (on_patch_error-Promise (patch_error (writes s ws) name))
            | inr (t, ok) ↦ rw (ok, send) (Committed-patch_node n p c v found built ok)
          ]

      attempt-Promise : Promise env i build name s (attempt build (env i) s name again)
      unfolding attempt on_build
      attempt-Promise = elim (Option-cases (env i).get_fault) [
        | inr (e, fault) ↦ rw (fault, attempt) (inl (Quiet-refl env i s))
        | inl fine ↦ elim (Option-cases (lookup name s.nodes)) [
          | inl absent ↦ rw (fine, absent, attempt) (inl (Quiet-refl env i s))
          | inr (n, found) ↦ elim (Option-cases (build n)) [
            | inl no_patch ↦
                rw (fine, found, no_patch, attempt)
                  (Quiet-refl env i s, record { node = n; found = found; built = no_patch })
            | inr (p, built) ↦
                rw (fine, found, built, attempt) (send-Promise (env i).delivery n p found built)
          ]
        ]
      ]

attempts-Promise :
    (build : BuildFunc) (name : String) (left i : ℕ) (env : ℕ → Round) (s : Server)
    → IsConditional build
    → IsVersioned s
    → Promise env i build name s (attempts left i build env name s)
unfolding attempts
attempts-Promise build name zero i env s c v = Quiet-refl env i s
attempts-Promise build name (suc left) i env s c v =
    let t = writes s (env i).between in
    attempt-Promise env i build name (λ t. attempts left (i + 1) build env name t) c v
      (Promise-later env i build name s _
        (attempts-Promise build name left (i + 1) env t c (writes-IsVersioned s (env i).between v)))

-- Whatever the environment does, for a builder whose patches carry the version of their node, from a
-- store where no version is above the counter: if `PatchTransition` returns nil, the patch was built
-- from the node that it was merged into, and before that nothing was written but what the environment's
-- other clients wrote in its first rounds; if it aborts, the builder refuses the stored node, and like
-- after the last conflict the store is the first one with their writes; on another error it is that,
-- or the patch was merged as on success.
pub patch_transition-Promise :
    (build : BuildFunc) (name : String) (max_attempts : ℕ) (env : ℕ → Round) (s : Server)
    → IsConditional build
    → IsVersioned s
    → Promise env 0 build name s (patch_transition max_attempts build env name s)
unfolding patch_transition
patch_transition-Promise build name n env s c v =
    attempts-Promise build name (default_attempts n) 0 env s c v
