-- ===== src/Api/Effects.antt =====
-- What a request that was admitted leaves, and which nodes are cleared.
use simplek8s_controller.Prelude.{
  ℕ, suc, ◌≡◌, ◌⊎◌, inl, inr, Option-cases, Bool-cases, refl, Bool, true, false, not, ◌&&◌, String,
  Option, none, some, lookup, arith, if◌then◌else◌,
}
use simplek8s_controller.Stdlib.Text.{Text, Time}
use simplek8s_controller.Kube.Types.{Node, ApiError, ready}
use simplek8s_controller.Kube.Server.{Server, Patch, merge_patch, writes}
use simplek8s_controller.Kube.Server.Versions.{IsVersioned}
use simplek8s_controller.Nodestate.State.{
  State, requested, draining, rebooting, completed, failed, unknown, StateInfo, parse,
}
use simplek8s_controller.Nodestate.Patch.{admission_patch}
use simplek8s_controller.Nodestate.RoundTrip.{written_state}
use simplek8s_controller.Nodestate.Effects.{parse-admission_patch}
use simplek8s_controller.Nodestate.Transition.{
  Round, Outcome, done, aborted, exhausted, failed_with, BuildFunc,
}
use simplek8s_controller.Nodestate.Transition.Atomic.{
  IsConditional, interference, Committed, Promise, patch_transition-Promise,
}
use simplek8s_controller.Reboot.World.Effect.{lookup-put_node}
use simplek8s_controller.Api.{
  RebootRequest, ApiConfig, ApiRound, may_request, re_requestable_state, re_requestable,
  controller_pod_running, request_build, outcome_code, request_node, check_node, no_windows,
  read_node, admit_request,
}

-- A reboot of the node can be requested: it has no state of one, or one that can be read, is over.
pub data IsRequestable (n : Node) : Type 0 where
  no_state : (parse n.annotations).state ≡ none → IsRequestable n
  unset :
      (i : StateInfo) → (parse n.annotations).state ≡ some i → i.present ≡ false → IsRequestable n
  over :
      (i : StateInfo)
      → (parse n.annotations).state ≡ some i
      → i.parse_error ≡ none
      → (i.state ≡ completed) ⊎ (i.state ≡ failed)
      → IsRequestable n

may_request-over : (s : State) → may_request s ≡ true → (s ≡ completed) ⊎ (s ≡ failed)
may_request-over completed h = inl refl
may_request-over failed h = inr refl
may_request-over requested h = absurd (ground (arith, h))
may_request-over draining h = absurd (ground (arith, h))
may_request-over rebooting h = absurd (ground (arith, h))
may_request-over (unknown t) h = absurd (ground (arith, h))

re_requestable-IsRequestable :
    (n : Node) → re_requestable (parse n.annotations) ≡ true → IsRequestable n
unfolding re_requestable re_requestable_state
re_requestable-IsRequestable n h = elim (Option-cases (parse n.annotations).state) [
  | inl absent ↦ no_state absent
  | inr (i, there) ↦ elim (Bool-cases i.present) [
    | inr missing ↦ unset i there missing
    | inl present ↦ elim (Option-cases i.parse_error) [
      | inr (e, corrupt) ↦ absurd (ground (arith, h, there, present, corrupt))
      | inl readable ↦
          over i there readable
            (may_request-over i.state (ground (arith, h, there, present, readable)))
    ]
  ]
]

-- The node was queued: the one that the patch replaced could be requested, and what is stored parses to
-- this request, with no record of an earlier reboot, and the cordon as it was.
pub record Queued (env : ℕ → Round) (req : RebootRequest) (now : Time) (id : Text) (name : String)
    (s t : Server) : Type 0 where
  pub rounds : ℕ
  pub before : Node
  pub after : Node
  pub found : lookup name (writes s (interference env 0 rounds)).nodes ≡ some before
  pub allowed : IsRequestable before
  pub stored : lookup name t.nodes ≡ some after
  pub cordon_kept : after.unschedulable ≡ before.unschedulable
  pub parsed : parse after.annotations ≡ record {
    state = some (written_state requested now);
    request = some (record {
      present = true;
      id = id;
      by = req.requested_by;
      force = req.force;
      parse_error = none;
    });
    exec = none;
    status = none;
  }

request_build-IsConditional :
    (now : Time) (id : Text) (req : RebootRequest) → IsConditional (request_build now id req)
unfolding request_build admission_patch
request_build-IsConditional now id req = record { version = λ n p h. ground arith }

request_build-some :
    (now : Time) (id : Text) (req : RebootRequest) (n : Node) {p : Patch}
    → request_build now id req n ≡ some p
    → (p ≡ admission_patch n.rv now id req.requested_by req.force)
      × (re_requestable (parse n.annotations) ≡ true)
unfolding request_build
request_build-some now id req n h = ground (arith, h)

Queued-of_Committed :
    (req : RebootRequest) (now : Time) (id : Text) (name : String) {env : ℕ → Round} {s t : Server}
    → Committed env 0 (request_build now id req) name s t
    → Queued env req now id name s t
unfolding merge_patch admission_patch
Queued-of_Committed req now id name {env} {s} c =
    let (same, allowed) = request_build-some now id req c.node c.built in
    let merged = merge_patch c.node c.patch in
    record {
      rounds = c.rounds;
      before = c.node;
      after = record merged { rv = suc (writes s (interference env 0 c.rounds)).rv_counter };
      found = c.found;
      allowed = re_requestable-IsRequestable c.node allowed;
      stored = rw c.made (lookup-put_node (writes s (interference env 0 c.rounds)) name merged);
      cordon_kept = rw same refl;
      parsed = rw same (parse-admission_patch c.node c.node.rv now id req.requested_by req.force);
    }

-- Success of the whole request.
pub record Granted (c : ApiConfig) (req : RebootRequest) (r : ApiRound) (now : Time) (name : String)
    (s t : Server) : Type 0 where
  pub windows : (not req.force && no_windows c.reboot_windows) ≡ false
  pub seen : Node
  pub found : lookup name s.nodes ≡ some seen
  pub is_ready : ready seen ≡ true
  pub requestable : IsRequestable seen
  pub served : controller_pod_running c r.pods seen ≡ true
  pub id : Text
  pub queued : Queued r.rounds req now id name s t

-- Only a patch that was merged gives no code.
no_code-Committed :
    (env : ℕ → Round) (build : BuildFunc) (name : String) (s : Server) (o : Outcome) (t : Server)
    → Promise env 0 build name s (o, t)
    → outcome_code o ≡ none
    → Committed env 0 build name s t
no_code-Committed env build name s done t p h = p
no_code-Committed env build name s aborted t p h = absurd (ground (arith, h))
no_code-Committed env build name s exhausted t p h = absurd (ground (arith, h))
no_code-Committed env build name s (failed_with e) t p h = absurd (ground (arith, h))

request_node-Queued :
    (req : RebootRequest) (r : ApiRound) (now : Time) (o : Option Text) (name : String) (s : Server)
    → IsVersioned s
    → (request_node req r now o name s).0 ≡ none
    → (id : Text) × Queued r.rounds req now id name s (request_node req r now o name s).1
unfolding request_node
request_node-Queued req r now none name s v h = absurd (ground (arith, h))
request_node-Queued req r now (some id) name s v h = (
  id,
  Queued-of_Committed req now id name (
      no_code-Committed r.rounds (request_build now id req) name s _ _
        (patch_transition-Promise (request_build now id req) name 3 r.rounds s
          (request_build-IsConditional now id req) v)
        h),
)

module _ (c : ApiConfig) (req : RebootRequest) (r : ApiRound) (now : Time) (name : String)
    (s : Server) where
  abbrev IfGranted : Option ℕ × Server → Type 0
  IfGranted z = z.0 ≡ none → Granted c req r now name s z.1

  -- A check either gives its code, or is passed.
  after_check :
      (b : Bool) (code : ℕ) (z : Option ℕ × Server)
      → ((b ≡ false) → IfGranted z)
      → IfGranted (if b then (some code, s) else z)
  after_check true code z f h = absurd (ground (arith, h))
  after_check false code z f h = f refl h

  check_node-IfGranted :
      (node : Node)
      → IsVersioned s
      → (not req.force && no_windows c.reboot_windows) ≡ false
      → lookup name s.nodes ≡ some node
      → IfGranted (check_node c req r now name node s)
  unfolding check_node
  check_node-IfGranted node v windows found = after_check (not (ready node)) 422 _ (λ is_up.
      after_check (not (controller_pod_running c r.pods node)) 422 _ (λ served.
        after_check (not (re_requestable (parse node.annotations))) 409 _ (λ may h.
          let (id, queued) = request_node-Queued req r now r.id name s v h in
          record {
            windows = windows;
            seen = node;
            found = found;
            requestable = re_requestable-IsRequestable node (ground (arith, may));
            is_ready = ground (arith, is_up);
            served = ground (arith, served);
            id = id;
            queued = queued;
          })))

  read_node-IfGranted :
      (fault : Option ApiError) (found : Option Node)
      → IsVersioned s
      → (not req.force && no_windows c.reboot_windows) ≡ false
      → lookup name s.nodes ≡ found
      → IfGranted (read_node fault found (λ node. check_node c req r now name node s) s)
  unfolding read_node
  read_node-IfGranted (some e) found v windows at h = absurd (ground (arith, h))
  read_node-IfGranted none none v windows at h = absurd (ground (arith, h))
  read_node-IfGranted none (some node) v windows at h = check_node-IfGranted node v windows at h

-- From a store where no version is above the counter: if the API accepts the request of a node,
-- then it is forced or a reboot window is configured, the node that was read could be requested and
-- was ready, and a controller pod ran on it; and the admission was merged into a node that could
-- still be requested, after nothing but what the environment's other clients wrote in the rounds of
-- the patch.
pub admit_request-Granted :
    (c : ApiConfig) (req : RebootRequest) (r : ApiRound) (now : Time) (name : String) (s : Server)
    → IsVersioned s
    → (admit_request c req r now name s).0 ≡ none
    → Granted c req r now name s (admit_request c req r now name s).1
unfolding admit_request
admit_request-Granted c req r now name s v =
    after_check c req r now name s (not req.force && no_windows c.reboot_windows) 422 _ (λ windows.
      read_node-IfGranted c req r now name s r.get_fault (lookup name s.nodes) v windows refl)
