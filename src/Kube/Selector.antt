-- ===== src/Kube/Selector.antt =====
-- internal/kube/types.go: (*LabelSelector).Matches. `none` is the panic of `r.Values[0]` on an
-- empty list.
use simplek8s_controller.Prelude.{
  Bool, true, false, not, ◌&&◌, String, Option, none, some, is_some, List, [], ◌∷◌, any, Dict,
  lookup, str_eq, if◌then◌else◌,
}
use simplek8s_controller.Kube.Types.{SelectorReq, LabelSelector}

-- labels[k], "" where the key is not there
unfoldable pub label : String → Dict String → String
label k labels = elim (lookup k labels) [ none ↦ "" | some v ↦ v ]

unfoldable pub match_labels : Dict String → Dict String → Bool
unfolding label
match_labels [] labels = true
match_labels ((k, v) ∷ rest) labels =
    if str_eq (label k labels) v then match_labels rest labels else false

-- The `default` of the switch.
unfoldable pub match_default : SelectorReq → Dict String → Option Bool
unfolding label
match_default r labels = elim r.values [
  | [] ↦ if str_eq r.operator "NotEquals" then none else some false
  | v ∷ vs ↦
      if str_eq r.operator "NotEquals"
      then some (not (str_eq (label r.key labels) v))
      else some (is_some (lookup r.key labels) && str_eq (label r.key labels) v)
]

unfoldable pub match_requirement : SelectorReq → Dict String → Option Bool
unfolding label match_default
match_requirement r labels =
    let present = is_some (lookup r.key labels) in
    let listed = any (str_eq (label r.key labels)) r.values in
    if str_eq r.operator "In"
    then some (present && listed)
    else if str_eq r.operator "NotIn"
    then some (if present then not listed else true)
    else if str_eq r.operator "Exists"
    then some present
    else if str_eq r.operator "DoesNotExist"
    then some (not present)
    else match_default r labels

unfoldable pub match_all : List SelectorReq → Dict String → Option Bool
match_all [] labels = some true
match_all (r ∷ rs) labels =
    let rest = match_all rs labels in
    elim (match_requirement r labels) [ none ↦ none | some true ↦ rest | some false ↦ some false ]

-- s.Matches(labels) of a selector that is not nil
unfoldable pub matches : LabelSelector → Dict String → Option Bool
matches s labels =
    if match_labels s.match_labels labels then match_all s.match_expressions labels else some false
