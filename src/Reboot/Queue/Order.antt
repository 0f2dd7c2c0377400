-- ===== src/Reboot/Queue/Order.antt =====
-- The queue is a rearrangement of the candidates in the order of admission.
use mathlib.Core.List.{Perm, append-nil, perm_middle, ◌++◌}
use mathlib.Core.List.Perm
use mathlib.Core.Path.{subst}
use simplek8s_controller.Stdlib.Text.{Time}
use simplek8s_controller.Prelude.{
  ◌<◌, ◌==◌, ◌≡◌, refl, sym, ap, ◌∙◌, Bool, Option, none, some, str_lt, inl, inr, true, false, List,
  [], ◌∷◌, All, All-weaken, str_lt_asymm, str_lt_trans, arith, Bool-cases,
}
use simplek8s_controller.Reboot.Queue.{
  View, since_of, since_eq, since_lt, goes_before, insert_view, sort_from, sort_queue,
}

goes_before_asymm : (a b : View) → goes_before a b ≡ true → goes_before b a ≡ false
unfolding goes_before
goes_before_asymm a b h = ground (arith, str_lt_asymm a.node.name b.node.name)

goes_before_trans :
    (a b c : View) → goes_before a b ≡ true → goes_before b c ≡ true → goes_before a c ≡ true
unfolding goes_before
goes_before_trans a b c h k = ground (arith, str_lt_trans a.node.name b.node.name c.node.name)

-- No later element goes before an earlier one.
abbrev IsSorted : List View → Type 0
IsSorted [] = Unit
IsSorted (v ∷ vs) = All (λ w. goes_before w v ≡ false) vs × IsSorted vs

All-insert_view :
    (P : View → Type 0) (v : View) (vs : List View) → P v → All P vs → All P (insert_view v vs)
unfolding insert_view
All-insert_view P v [] p h = (p, tt)
All-insert_view P v (w ∷ ws) p h = elim (Bool-cases (goes_before v w)) [
  | inl here ↦ rw here (p, h)
  | inr later ↦ rw later (h.0, All-insert_view P v ws p h.1)
]

not_before :
    (v w z : View) → goes_before v w ≡ true → goes_before z w ≡ false → goes_before z v ≡ false
not_before v w z first h = elim (Bool-cases (goes_before z v)) [
  | inl back ↦ absurd (ground (arith, goes_before_trans z v w back first))
  | inr fine ↦ fine
]

insert_view-IsSorted : (v : View) (vs : List View) → IsSorted vs → IsSorted (insert_view v vs)
unfolding insert_view
insert_view-IsSorted v [] h = (tt, tt)
insert_view-IsSorted v (w ∷ ws) h = elim (Bool-cases (goes_before v w)) [
  | inl here ↦ rw here (
    ((
      goes_before_asymm v w here,
      All-weaken (λ z. goes_before z w ≡ false) (λ z. goes_before z v ≡ false) ws
          (λ z. not_before v w z here) h.0,
    )),
    h,
  )
  | inr later ↦
      rw later (
        All-insert_view (λ z. goes_before z w ≡ false) v ws later h.0,
        insert_view-IsSorted v ws h.1,
      )
]

insert_view-perm : (v : View) (vs : List View) → Perm (insert_view v vs) (v ∷ vs)
unfolding insert_view
insert_view-perm v [] = Perm.rfl
insert_view-perm v (w ∷ ws) = elim (Bool-cases (goes_before v w)) [
  | inl here ↦ rw here Perm.rfl
  | inr later ↦ rw later (Perm.trans (Perm.cons w (insert_view-perm v ws)) (Perm.swap v w ws))
]

sort_from-IsSorted : (done vs : List View) → IsSorted done → IsSorted (sort_from done vs)
unfolding sort_from
sort_from-IsSorted done [] h = h
sort_from-IsSorted done (v ∷ vs) h =
    sort_from-IsSorted (insert_view v done) vs (insert_view-IsSorted v done h)

sort_from-perm : (done vs : List View) → Perm (sort_from done vs) (vs ++ done)
unfolding sort_from
sort_from-perm done [] = Perm.rfl
sort_from-perm done (v ∷ vs) =
    Perm.trans (sort_from-perm (insert_view v done) vs)
      (Perm.trans (Perm.append_left vs (insert_view-perm v done)) (perm_middle vs done))

-- When the state of the candidate was written, if that is known.
abbrev pub queued_at : View → Option Time
queued_at v = elim v.st.state [ none ↦ none | some s ↦ s.since ]

pub data Sooner : Option Time → Option Time → Type 0 where
  unknown_first : (b : Time) → Sooner none (some b)
  earlier : (a b : Time) → a < b → Sooner (some a) (some b)

-- The candidate `w` may stand behind `v`.
pub data Behind (v w : View) : Type 0 where
  older : Sooner (queued_at v) (queued_at w) → Behind v w
  worker_first : queued_at v ≡ queued_at w → v.cp ≡ false → w.cp ≡ true → Behind v w
  by_name :
      queued_at v ≡ queued_at w → v.cp ≡ w.cp → str_lt w.node.name v.node.name ≡ false → Behind v w

abbrev pub IsOrdered : List View → Type 0
IsOrdered [] = Unit
IsOrdered (v ∷ vs) = All (Behind v) vs × IsOrdered vs

since_of-queued_at : (v : View) → since_of v ≡ queued_at v
unfolding since_of
since_of-queued_at v = refl

-- Written at once.
tied-Behind :
    (v w : View) (x y : Bool)
    → since_eq (since_of w) (since_of v) ≡ true
    → queued_at v ≡ queued_at w
    → v.cp ≡ x
    → w.cp ≡ y
    → goes_before w v ≡ false
    → Behind v w
unfolding goes_before
tied-Behind v w true true tied same e f h = by_name same (e ∙ sym f) (ground (arith, tied, e, f, h))
tied-Behind v w false false tied same e f h =
    by_name same (e ∙ sym f) (ground (arith, tied, e, f, h))
tied-Behind v w false true tied same e f h = worker_first same e f
tied-Behind v w true false tied same e f h = absurd (ground (arith, tied, e, f, h))

goes_before-Behind :
    (v w : View) (a b : Option Time)
    → queued_at v ≡ a
    → queued_at w ≡ b
    → goes_before w v ≡ false
    → Behind v w
unfolding goes_before since_lt since_eq since_of
goes_before-Behind v w none none e f h =
    tied-Behind v w v.cp w.cp (ground (arith, e, f)) (e ∙ sym f) refl refl h
goes_before-Behind v w none (some b) e f h = older (rw (e, f) (unknown_first b))
goes_before-Behind v w (some a) none e f h = absurd (ground (arith, e, f, h))
goes_before-Behind v w (some a) (some b) e f h = elim (Bool-cases (a == b)) [
  | inl tied ↦
      let same : a ≡ b = ground (arith, tied) in
      tied-Behind v w v.cp w.cp (ground (arith, e, f, same)) (e ∙ ap some same ∙ sym f) refl refl h
  | inr apart ↦ older (rw (e, f) (earlier a b (ground (arith, e, f, h, apart))))
]

IsSorted-IsOrdered : (vs : List View) → IsSorted vs → IsOrdered vs
IsSorted-IsOrdered [] h = tt
IsSorted-IsOrdered (v ∷ vs) h = (
  All-weaken (λ w. goes_before w v ≡ false) (Behind v) vs
      (λ w. goes_before-Behind v w (queued_at v) (queued_at w) refl refl) h.0,
  IsSorted-IsOrdered vs h.1,
)

-- The sorted queue holds the candidates, each as often, and each may stand behind all those before it:
-- its state was written later, the unknown time being the first; or at once, with a worker before a
-- control plane; or its name, the two being of one kind, is not the smaller one.
pub sort_queue-IsOrdered : (vs : List View) → IsOrdered (sort_queue vs) × Perm (sort_queue vs) vs
unfolding sort_queue
sort_queue-IsOrdered vs = (
  IsSorted-IsOrdered (sort_from [] vs) (sort_from-IsSorted [] vs tt),
  subst (λ x. Perm (sort_from [] vs) x) (append-nil vs) (sort_from-perm [] vs),
)
