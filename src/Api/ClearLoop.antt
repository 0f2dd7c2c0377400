-- ===== src/Api/ClearLoop.antt =====
-- The loop of the DELETE request is a conditional patch of the node.
use simplek8s_controller.Prelude.{
  ℕ, zero, suc, ◌+◌, ◌≡◌, refl, inl, inr, Bool, true, false, not, String, Option, none, some,
  is_some, lookup, arith, Bool-cases, if◌then◌else◌,
}
use simplek8s_controller.Kube.Types.{Node, ApiError, is_conflict, status}
use simplek8s_controller.Kube.Server.{Server, Patch, patch_node, patch_error, writes}
use simplek8s_controller.Nodestate.State.{
  State, requested, draining, rebooting, completed, failed, unknown, StateInfo, parse,
}
use simplek8s_controller.Nodestate.Transition.{
  Delivery, delivered, dropped, reply_lost, Round, Outcome, done, failed_with, BuildFunc,
  on_patch_error, send, on_build, attempt, attempts, patch_transition,
}
use simplek8s_controller.Api.{
  ClearChoice, stop, clear, clear_state, clear_info, clear_choice, clear_failed, send_clear,
  on_choice, clear_attempt, clear_attempts, delete_reboot, read_code,
}

abbrev pub patch_of : ClearChoice → Option Patch
patch_of (stop code) = none
patch_of (clear p) = some p

-- The patch that the choice is, for `PatchTransition`.
abbrev pub clear_build : BuildFunc
clear_build n = patch_of (clear_choice n)

-- The two loops agree: the same store, and 204 only where the patch is done.
abbrev pub Agree : ℕ × Server → Outcome × Server → Type 0
Agree z y = (z.1 ≡ y.1) × (z.0 ≡ 204 → y.0 ≡ done)

-- No other code is 204.
abbrev IsOther : ClearChoice → Type 0
IsOther (stop code) = code ≡ 204 → ⊥
IsOther (clear p) = Unit

if-IsOther : (b : Bool) (x y : ClearChoice) → IsOther x → IsOther y → IsOther (if b then x else y)
if-IsOther true x y f g = f
if-IsOther false x y f g = g

clear_state-IsOther : (st : State) (n : Node) → IsOther (clear_state st n)
clear_state-IsOther draining n = λ h. ground (arith, h)
clear_state-IsOther requested n = tt
clear_state-IsOther (unknown t) n = tt
clear_state-IsOther rebooting n = tt
clear_state-IsOther completed n = tt
clear_state-IsOther failed n = tt

clear_info-IsOther : (o : Option StateInfo) (n : Node) → IsOther (clear_info o n)
unfolding clear_info
clear_info-IsOther none n = λ h. ground (arith, h)
clear_info-IsOther (some i) n =
    if-IsOther (not i.present) _ _ (λ h. ground (arith, h))
      (if-IsOther (is_some i.parse_error) _ _ tt (clear_state-IsOther i.state n))

clear_choice-IsOther : (n : Node) → IsOther (clear_choice n)
unfolding clear_choice
clear_choice-IsOther n = clear_info-IsOther (parse n.annotations).state n

module _ (name : String) (again : Server → ℕ × Server) (again' : Server → Outcome × Server)
    (agree : (t : Server) → Agree (again t) (again' t)) where
  failed-Agree :
      (e : ApiError) (s : Server) → Agree (clear_failed e s again) (on_patch_error e s again')
  unfolding clear_failed on_patch_error
  failed-Agree e s = elim (Bool-cases (is_conflict e)) [
    | inl c ↦ rw c (agree s)
    | inr other ↦ rw other (refl, λ h. ground (arith, h))
  ]

  send-Agree :
      (d : Delivery) (s : Server) (p : Patch)
      → Agree (send_clear d s name p again) (send d s name p again')
  unfolding send_clear send clear_failed on_patch_error
  send-Agree (dropped e) s p = failed-Agree e s
  send-Agree reply_lost s p = (refl, λ h. ground (arith, h))
  send-Agree delivered s p = served (patch_node s name p)
    where
      served :
          (o : Option Server)
          → Agree
              (elim o [ some t ↦ (204, t) | none ↦ clear_failed (patch_error s name) s again ])
              (elim o [ some t ↦ (done, t) | none ↦ on_patch_error (patch_error s name) s again' ])
      served (some t) = (refl, λ _. refl)
      served none = failed-Agree (patch_error s name) s

  choice-Agree :
      (ch : ClearChoice) (r : Round) (s : Server)
      → IsOther ch
      → Agree (on_choice ch r s name again) (on_build (patch_of ch) r s name again')
  unfolding on_choice on_build
  choice-Agree (stop code) r s other = (refl, λ h. absurd (other h))
  choice-Agree (clear p) r s other = send-Agree r.delivery (writes s r.between) p

  attempt-Agree :
      (r : Round) (s : Server)
      → Agree (clear_attempt r s name again) (attempt clear_build r s name again')
  unfolding clear_attempt attempt
  attempt-Agree r s = read r.get_fault
    where
      found :
          (o : Option Node)
          → Agree
              (elim o [ none ↦ (404, s) | some n ↦ on_choice (clear_choice n) r s name again ])
              (elim o [
                | none ↦ (failed_with (status 404), s)
                | some n ↦ on_build (clear_build n) r s name again'
              ])
      found none = (refl, λ h. ground (arith, h))
      found (some n) = choice-Agree (clear_choice n) r s (clear_choice-IsOther n)

      read_other : (e : ApiError) → read_code e ≡ 204 → ⊥
      read_other e h = ground (arith, h)

      read :
          (fault : Option ApiError)
          → Agree
              (elim fault [
                | some e ↦ (read_code e, s)
                | none ↦ elim (lookup name s.nodes) [
                  | none ↦ (404, s)
                  | some n ↦ on_choice (clear_choice n) r s name again
                ]
              ])
              (elim fault [
                | some e ↦ (failed_with e, s)
                | none ↦ elim (lookup name s.nodes) [
                  | none ↦ (failed_with (status 404), s)
                  | some n ↦ on_build (clear_build n) r s name again'
                ]
              ])
      read (some e) = (refl, λ h. absurd (read_other e h))
      read none = found (lookup name s.nodes)

attempts-Agree :
    (left i : ℕ) (env : ℕ → Round) (name : String) (s : Server)
    → Agree (clear_attempts left i env name s) (attempts left i clear_build env name s)
unfolding clear_attempts attempts
attempts-Agree zero i env name s = (refl, λ h. ground (arith, h))
attempts-Agree (suc left) i env name s =
    attempt-Agree name _ _ (λ t. attempts-Agree left (i + 1) env name t) (env i) s

-- The DELETE request does to the store what the conditional patch does, and replies 204 only if the patch
-- was merged.
pub delete_reboot-patch_transition :
    (env : ℕ → Round) (name : String) (s : Server)
    → Agree (delete_reboot env name s) (patch_transition 3 clear_build env name s)
unfolding delete_reboot patch_transition
delete_reboot-patch_transition env name s = attempts-Agree 3 0 env name s
