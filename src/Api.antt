-- ===== src/Api.antt =====
-- internal/api/api.go: the requests that admit nodes to the reboot queue and clear them. A reply is its
-- status code; reasons and bodies are left out.
pub mod Effects
pub mod ClearLoop
pub mod Clear
use simplek8s_controller.Prelude.{
  ℕ, zero, suc, ◌+◌, Bool, true, false, not, ◌&&◌, ◌||◌, String, Option, none, some, is_some, List,
  [], ◌∷◌, any, map, Dict, lookup, str_eq, if◌then◌else◌,
}
use simplek8s_controller.Stdlib.Text.{Text, Time}
use simplek8s_controller.Cron.{Schedule}
use simplek8s_controller.Kube.Types.{Node, Pod, ApiError, is_not_found, is_conflict, ready, running}
use simplek8s_controller.Kube.Selector.{match_labels}
use simplek8s_controller.Kube.Server.{Server, Patch, patch_node, patch_error, or_same, writes}
use simplek8s_controller.Nodestate.State.{
  State, requested, draining, rebooting, completed, failed, unknown, StateInfo, StatusInfo,
  NodeState, parse,
}
use simplek8s_controller.Nodestate.Patch.{admission_patch, clear_patch}
use simplek8s_controller.Nodestate.Transition.{
  Delivery, delivered, dropped, reply_lost, Round, Outcome, done, aborted, exhausted, failed_with,
  BuildFunc, patch_transition,
}

-- The body of a request, and the settings that its admission reads.
pub record RebootRequest : Type 0 where
  pub force : Bool
  pub requested_by : Text

pub record ApiConfig : Type 0 where
  pub reboot_windows : List Schedule
  pub pod_namespace : String
  pub pod_selector : Dict String

-- The environment of one admission: its read of the node, its list of pods, its random id, and its patch.
pub record ApiRound : Type 0 where
  pub get_fault : Option ApiError
  pub pods : Option (List Pod)
  pub id : Option Text
  pub rounds : ℕ → Round

abbrev pub may_request : State → Bool
may_request completed = true
may_request failed = true
may_request _ = false

unfoldable pub re_requestable_state : Option StateInfo → Bool
re_requestable_state none = true
re_requestable_state (some s) =
    if not s.present then true else if is_some s.parse_error then false else may_request s.state

unfoldable pub re_requestable : NodeState → Bool
unfolding re_requestable_state
re_requestable st = re_requestable_state st.state

unfoldable pub pod_serves : ApiConfig → Node → Pod → Bool
pod_serves c node p =
    if not (str_eq p.node_name node.name)
    then false
    else if not (str_eq c.pod_namespace "") && not (str_eq p.namespace c.pod_namespace)
    then false
    else if not (match_labels c.pod_selector p.labels)
    then false
    else running p

unfoldable pub controller_pod_running : ApiConfig → Option (List Pod) → Node → Bool
controller_pod_running c none node = false
controller_pod_running c (some pods) node = any (pod_serves c node) pods

unfoldable pub request_build : Time → Text → RebootRequest → BuildFunc
request_build now id req fresh =
    if not (re_requestable (parse fresh.annotations))
    then none
    else some (admission_patch fresh.rv now id req.requested_by req.force)

abbrev pub outcome_code : Outcome → Option ℕ
outcome_code done = none
outcome_code aborted = some 409
outcome_code exhausted = some 503
outcome_code (failed_with e) = if is_conflict e then some 409 else some 503

abbrev pub read_code : ApiError → ℕ
read_code e = if is_not_found e then 404 else 503

-- What follows the checks.
unfoldable pub request_node :
    RebootRequest → ApiRound → Time → Option Text → String → Server → Option ℕ × Server
request_node req r now none name s = (some 500, s)
request_node req r now (some id) name s =
    let (o, t) = patch_transition 3 (request_build now id req) r.rounds name s in
    (outcome_code o, t)

unfoldable pub check_node :
    ApiConfig → RebootRequest → ApiRound → Time → String → Node → Server → Option ℕ × Server
check_node c req r now name node s =
    if not (ready node)
    then (some 422, s)
    else if not (controller_pod_running c r.pods node)
    then (some 422, s)
    else if not (re_requestable (parse node.annotations))
    then (some 409, s)
    else request_node req r now r.id name s

abbrev pub no_windows : List Schedule → Bool
no_windows [] = true
no_windows (w ∷ ws) = false

unfoldable pub read_node :
    Option ApiError → Option Node → (Node → Option ℕ × Server) → Server → Option ℕ × Server
read_node (some e) found next s = (some (read_code e), s)
read_node none none next s = (some 404, s)
read_node none (some n) next s = next n

-- s.admit: `none` is success, otherwise the code of the check that failed.
unfoldable pub admit_request :
    ApiConfig → RebootRequest → ApiRound → Time → String → Server → Option ℕ × Server
admit_request c req r now name s =
    if not req.force && no_windows c.reboot_windows
    then (some 422, s)
    else read_node r.get_fault (lookup name s.nodes) (λ node. check_node c req r now name node s) s

-- The loop of `postReboots`: the names that were accepted, and the others with their codes.
pub record RebootResponse : Type 0 where
  pub accepted : List String
  pub rejected : List (String × ℕ)

unfoldable pub answer : String → Option ℕ → RebootResponse → RebootResponse
answer name none resp = record resp { accepted = name ∷ resp.accepted }
answer name (some code) resp = record resp { rejected = (name, code) ∷ resp.rejected }

unfoldable pub post_all :
    ApiConfig
    → RebootRequest
    → (ℕ → ApiRound)
    → ℕ
    → Time
    → List String
    → Server
    → RebootResponse × Server
post_all c req env i now [] s = (record { accepted = []; rejected = [] }, s)
post_all c req env i now (name ∷ names) s =
    let (code, t) = admit_request c req (env i) now name s in
    let (resp, u) = post_all c req env (i + 1) now names t in (answer name code resp, u)

unfoldable pub cordoned_prev_known_absent : NodeState → Bool
cordoned_prev_known_absent st = elim st.status [
  | none ↦ true
  | some s ↦
      if not s.present
      then true
      else if is_some s.parse_error
      then false
      else not (is_some s.cordoned_prev)
]

-- What `deleteReboot` decides on a fresh node: a code, or a patch.
pub data ClearChoice : Type 0 where
  stop : ℕ → ClearChoice
  clear : Patch → ClearChoice

abbrev pub clear_state : State → Node → ClearChoice
clear_state draining node = stop 409
clear_state requested node = clear (clear_patch node.rv false)
clear_state (unknown t) node = clear (clear_patch node.rv false)
clear_state rebooting node =
    clear (clear_patch node.rv (cordoned_prev_known_absent (parse node.annotations)))
clear_state completed node =
    clear (clear_patch node.rv (cordoned_prev_known_absent (parse node.annotations)))
clear_state failed node =
    clear (clear_patch node.rv (cordoned_prev_known_absent (parse node.annotations)))

unfoldable pub clear_info : Option StateInfo → Node → ClearChoice
clear_info none node = stop 404
clear_info (some i) node =
    if not i.present
    then stop 404
    else if is_some i.parse_error
    then clear (clear_patch node.rv false)
    else clear_state i.state node

unfoldable pub clear_choice : Node → ClearChoice
unfolding clear_info
clear_choice node = clear_info (parse node.annotations).state node

-- The PATCH of one attempt; a conflict goes on with the next.
unfoldable pub clear_failed : ApiError → Server → (Server → ℕ × Server) → ℕ × Server
clear_failed e s again = if is_conflict e then again s else (503, s)

unfoldable pub send_clear : Delivery → Server → String → Patch → (Server → ℕ × Server) → ℕ × Server
unfolding clear_failed
send_clear (dropped e) s name p again = clear_failed e s again
send_clear reply_lost s name p again = (503, or_same (patch_node s name p) s)
send_clear delivered s name p again = elim (patch_node s name p) [
  | some t ↦ (204, t)
  | none ↦ clear_failed (patch_error s name) s again
]

unfoldable pub on_choice :
    ClearChoice → Round → Server → String → (Server → ℕ × Server) → ℕ × Server
on_choice (stop code) r s name again = (code, s)
on_choice (clear p) r s name again = send_clear r.delivery (writes s r.between) name p again

unfoldable pub clear_attempt : Round → Server → String → (Server → ℕ × Server) → ℕ × Server
clear_attempt r s name again = elim r.get_fault [
  | some e ↦ (read_code e, s)
  | none ↦ elim (lookup name s.nodes) [
    | none ↦ (404, s)
    | some n ↦ on_choice (clear_choice n) r s name again
  ]
]

unfoldable pub clear_attempts : ℕ → ℕ → (ℕ → Round) → String → Server → ℕ × Server
clear_attempts zero i env name s = (409, s)
clear_attempts (suc left) i env name s =
    clear_attempt (env i) s name (λ t. clear_attempts left (i + 1) env name t)

-- DELETE of a node's reboot: the code of the reply, and the store.
unfoldable pub delete_reboot : (ℕ → Round) → String → Server → ℕ × Server
delete_reboot env name s = clear_attempts 3 0 env name s
