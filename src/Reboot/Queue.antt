-- ===== src/Reboot/Queue.antt =====
-- internal/features/reboot/orchestrator.go: the views, the admission gates and the order of the
-- queue.
pub mod Order
use simplek8s_controller.Prelude.{
  ℕ, zero, suc, ◌+◌, Bool, true, false, not, ◌&&◌, ◌||◌, String, Option, none, some, is_some, List,
  [], ◌∷◌, map, str_lt, ltb, leb, ◌==◌, if◌then◌else◌,
}
use simplek8s_controller.Stdlib.Text.{Time}
use simplek8s_controller.Kube.Types.{Node, ready, is_control_plane}
use simplek8s_controller.Nodestate.State.{
  State, requested, draining, rebooting, completed, failed, unknown, NodeState, StateInfo, parse,
  in_flight,
}

pub record View : Type 0 where
  pub node : Node
  pub st : NodeState
  pub is_ready : Bool
  pub cp : Bool

unfoldable pub view_of : Node → View
view_of n = record {
  node = n;
  st = parse n.annotations;
  is_ready = ready n;
  cp = is_control_plane n;
}

unfoldable pub build_views : List Node → List View
unfolding view_of
build_views = map view_of

-- The state of a node whose `reboot-state` is there and parses.
unfoldable pub clean_state : NodeState → Option State
clean_state st = elim st.state [
  | none ↦ none
  | some s ↦ if is_some s.parse_error then none else some s.state
]

pub record Gates : Type 0 where
  pub in_flight_count : ℕ
  pub cp_in_flight : ℕ
  pub any_failed : Bool
  pub queued_not_ready : Bool

abbrev pub no_gates : Gates
no_gates = record {
  in_flight_count = 0;
  cp_in_flight = 0;
  any_failed = false;
  queued_not_ready = false;
}

unfoldable pub count_slot : View → Gates → Gates
count_slot v g =
    if not (in_flight v.st)
    then g
    else if v.cp
    then record g { in_flight_count = g.in_flight_count + 1; cp_in_flight = g.cp_in_flight + 1 }
    else record g { in_flight_count = g.in_flight_count + 1 }

unfoldable pub note_state : Option State → Bool → Gates → Gates
note_state (some failed) is_ready g = record g { any_failed = true }
note_state (some requested) is_ready g =
    if is_ready then g else record g { queued_not_ready = true }
note_state _ is_ready g = g

unfoldable pub admission_counts_from : Gates → List View → Gates
unfolding count_slot note_state
admission_counts_from g [] = g
admission_counts_from g (v ∷ vs) =
    admission_counts_from (note_state (clean_state v.st) v.is_ready (count_slot v g)) vs

unfoldable pub admission_counts : List View → Gates
unfolding admission_counts_from
admission_counts = admission_counts_from no_gates

-- v.st.State.Since; the zero time is `none`.
unfoldable pub since_of : View → Option Time
since_of v = elim v.st.state [ none ↦ none | some s ↦ s.since ]

unfoldable pub since_lt : Option Time → Option Time → Bool
since_lt none none = false
since_lt none (some b) = true
since_lt (some a) none = false
since_lt (some a) (some b) = ltb a b

unfoldable pub since_eq : Option Time → Option Time → Bool
since_eq none none = true
since_eq none (some b) = false
since_eq (some a) none = false
since_eq (some a) (some b) = a == b

abbrev pub bool_eq : Bool → Bool → Bool
bool_eq true b = b
bool_eq false b = not b

-- The comparison of `sortQueue`.
unfoldable pub goes_before : View → View → Bool
unfolding since_lt since_eq
goes_before a b =
    if not (since_eq (since_of a) (since_of b))
    then since_lt (since_of a) (since_of b)
    else if not (bool_eq a.cp b.cp)
    then not a.cp
    else str_lt a.node.name b.node.name

-- sort.SliceStable: each element goes behind those that it need not precede.
unfoldable pub insert_view : View → List View → List View
insert_view v [] = v ∷ []
insert_view v (w ∷ ws) =
    let rest = insert_view v ws in if goes_before v w then v ∷ w ∷ ws else w ∷ rest

unfoldable pub sort_from : List View → List View → List View
unfolding insert_view
sort_from done [] = done
sort_from done (v ∷ vs) = sort_from (insert_view v done) vs

unfoldable pub sort_queue : List View → List View
unfolding sort_from
sort_queue = sort_from []

-- The candidates: the nodes with a clean `requested` state.
abbrev is_requested : Option State → Bool
is_requested (some requested) = true
is_requested _ = false

unfoldable pub queue_of : List Node → List View
queue_of [] = []
queue_of (n ∷ ns) =
    let rest = queue_of ns in
    if is_requested (clean_state (parse n.annotations)) then view_of n ∷ rest else rest
