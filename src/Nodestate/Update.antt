-- ===== src/Nodestate/Update.antt =====
-- internal/nodestate/update.go, and the two builders of state.go that the update pod uses: the
-- update annotations and the conditional writes of them.
use Prim.Native.Char.{code}
use simplek8s_controller.Prelude.{
  ℕ, suc, Bool, true, false, not, ◌&&◌, ◌||◌, String, Option, none, some, is_some, [], ◌∷◌, Dict,
  lookup, str_eq, ltb, leb, if◌then◌else◌,
}
use simplek8s_controller.Stdlib.Text.{Text, lit, stamp, Time, parse_time, format_time}
use simplek8s_controller.Stdlib.Json.{Raw, text, doc, raw_empty, raw_eq, raw_same}
use simplek8s_controller.Kube.Server.{Patch}
use simplek8s_controller.Nodestate.State.{State, completed, NodeState, StateInfo, parse}
use simplek8s_controller.Nodestate.Patch.{annotations_patch, admission_patch, clear_patch}
use simplek8s_controller.Nodestate.Transition.{BuildFunc}

abbrev pub ann_next_kernel : String
ann_next_kernel = "simplek8s.org/next-kernel"

abbrev pub ann_update_url : String
ann_update_url = "simplek8s.org/update-url"

abbrev pub ann_reboot_eligible : String
ann_reboot_eligible = "simplek8s.org/reboot-eligible"

abbrev pub ann_update_last_check : String
ann_update_last_check = "simplek8s.org/update-last-check"

unfoldable pub all_digits : String → Bool
all_digits String.[] = true
all_digits (String.◌∷◌ c s) = (leb b'0' (code c) && leb (code c) b'9') && all_digits s

unfoldable pub char_count : String → ℕ
char_count String.[] = 0
char_count (String.◌∷◌ c s) = suc (char_count s)

-- versionRe: `^[0-9]{6,20}$`
unfoldable pub is_version : Raw → Bool
unfolding all_digits char_count
is_version (text (lit s)) = all_digits s && leb 6 (char_count s) && leb (char_count s) 20
is_version (text (stamp n)) = false
is_version (doc _) = false

-- `next_kernel_invalid` stands for a `NextKernelParseErr` that is not empty, likewise below.
pub record UpdateInfo : Type 0 where
  pub next_kernel_present : Bool
  pub next_kernel : Raw
  pub next_kernel_invalid : Bool
  pub update_url : Raw
  pub reboot_eligible_present : Bool
  pub reboot_eligible : Raw
  pub reboot_eligible_invalid : Bool
  pub last_check_present : Bool
  pub last_check : Raw

-- The value of a key that may be absent, and whether it is there and no version.
unfoldable pub value_or_empty : Option Raw → Raw
value_or_empty none = raw_empty
value_or_empty (some raw) = raw

unfoldable pub present_invalid : Option Raw → Bool
unfolding is_version
present_invalid none = false
present_invalid (some raw) = not (is_version raw)

unfoldable pub parse_update : Dict Raw → UpdateInfo
unfolding value_or_empty present_invalid
parse_update annotations = record {
  next_kernel_present = is_some (lookup ann_next_kernel annotations);
  next_kernel = value_or_empty (lookup ann_next_kernel annotations);
  next_kernel_invalid = present_invalid (lookup ann_next_kernel annotations);
  update_url = value_or_empty (lookup ann_update_url annotations);
  reboot_eligible_present = is_some (lookup ann_reboot_eligible annotations);
  reboot_eligible = value_or_empty (lookup ann_reboot_eligible annotations);
  reboot_eligible_invalid = present_invalid (lookup ann_reboot_eligible annotations);
  last_check_present = is_some (lookup ann_update_last_check annotations);
  last_check = value_or_empty (lookup ann_update_last_check annotations);
}

unfoldable pub next_kernel_patch : ℕ → String → Patch
unfolding annotations_patch
next_kernel_patch rv version =
    annotations_patch rv ((ann_next_kernel, some (text (lit version))) ∷ [])

unfoldable pub next_kernel_build : String → (UpdateInfo → Bool) → BuildFunc
unfolding next_kernel_patch
next_kernel_build version precond node =
    if precond (parse_update node.annotations)
    then some (next_kernel_patch node.rv version)
    else none

unfoldable pub clear_reboot_eligible_patch : ℕ → Patch
unfolding annotations_patch
clear_reboot_eligible_patch rv = annotations_patch rv ((ann_reboot_eligible, none) ∷ [])

unfoldable pub update_last_check_patch : ℕ → Text → Patch
unfolding annotations_patch
update_last_check_patch rv occ =
    annotations_patch rv ((ann_update_last_check, some (text occ)) ∷ [])

-- time.Parse of an annotation
unfoldable pub raw_time : Raw → Option Time
unfolding parse_time
raw_time (text t) = parse_time t
raw_time (doc _) = none

-- The stored claim covers the occurrence: it parses, and is not before it.
unfoldable pub covers : Option Raw → Time → Bool
unfolding raw_time
covers none occ = false
covers (some raw) occ = elim (raw_time raw) [ none ↦ false | some t ↦ not (ltb t occ) ]

unfoldable pub update_last_check_build : Time → BuildFunc
unfolding update_last_check_patch
update_last_check_build occ node =
    if covers (lookup ann_update_last_check node.annotations) occ
    then none
    else some (update_last_check_patch node.rv (format_time occ))

unfoldable pub precond_absent : UpdateInfo → Bool
precond_absent ui = not ui.next_kernel_present

unfoldable pub precond_quiescent : String → UpdateInfo → Bool
precond_quiescent running ui = not ui.next_kernel_present || raw_eq ui.next_kernel running

unfoldable pub precond_value : Raw → UpdateInfo → Bool
precond_value v ui = ui.next_kernel_present && raw_same ui.next_kernel v

unfoldable pub correct_goal_build : Raw → String → BuildFunc
unfolding next_kernel_patch annotations_patch
correct_goal_build bad_val target node =
    let ui = parse_update node.annotations in
    if not ui.next_kernel_present || not (raw_same ui.next_kernel bad_val)
    then none
    else if str_eq target ""
    then some (annotations_patch node.rv ((ann_next_kernel, none) ∷ []))
    else some (next_kernel_patch node.rv target)

-- st.State != nil && st.State.Present
unfoldable pub state_present : NodeState → Bool
state_present st = elim st.state [ none ↦ false | some s ↦ s.present ]

unfoldable pub enqueue_controller_build : Time → Text → String → String → BuildFunc
unfolding state_present
enqueue_controller_build since req_id goal running node =
    let ui = parse_update node.annotations in
    if state_present (parse node.annotations)
    then none
    else if not ui.next_kernel_present || ui.next_kernel_invalid || not (raw_eq ui.next_kernel goal)
    then none
    else if raw_eq ui.next_kernel running
    then none
    else some (admission_patch node.rv since req_id (lit "controller") false)

unfoldable pub is_completed : State → Bool
is_completed completed = true
is_completed _ = false

-- st.State is there, and parses, and is completed
unfoldable pub rearmable : Option StateInfo → Bool
unfolding is_completed
rearmable none = false
rearmable (some s) = s.present && not (is_some s.parse_error) && is_completed s.state

unfoldable pub rearm_build : BuildFunc
unfolding rearmable
rearm_build node =
    if rearmable (parse node.annotations).state then some (clear_patch node.rv false) else none
