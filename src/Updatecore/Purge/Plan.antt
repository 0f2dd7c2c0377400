-- ===== src/Updatecore/Purge/Plan.antt =====
-- The plan of a purge, as the first ones of the candidates.
use simplek8s_controller.Prelude.{
  ℕ, zero, suc, ◌+◌, ◌%◌, ◌^◌, ◌≤◌, ◌<◌, ◌≡◌, refl, sym, subst, ap, ◌⊎◌, inl, inr, Bool, not, ◌||◌,
  any, str_eq, eq_iff, String, List, [], ◌∷◌, map, keep_if, leb, arith, Bool-cases,
}
use simplek8s_controller.Updatecore.Purge.{
  KernelEntry, Sort, newer_entry, older_entry, newest_kept, is_in, is_spared, plan_from, plan_purge,
}
use simplek8s_controller.Updatecore.Versions.{newer_ts}

-- The first ones of a list, and the bytes of kernels.
abbrev pub take : {A : Type 0} → ℕ → List A → List A
take zero xs = []
take (suc n) [] = []
take (suc n) (x ∷ xs) = x ∷ take n xs

abbrev pub bytes_of : List KernelEntry → ℕ
bytes_of [] = 0
bytes_of (e ∷ es) = e.size + bytes_of es

abbrev pub name_of : KernelEntry → String
name_of e = e.name

-- The files that a plan names are the first ones of the candidates, as many as it takes.
pub record Planned (candidates : List KernelEntry) (free target : ℕ) (names : List String)
    : Type 0 where
  pub count : ℕ
  pub chosen : names ≡ map name_of (take count candidates)
  pub enough :
      (target ≤ free + bytes_of (take count candidates)) ⊎ (take count candidates ≡ candidates)
  pub needed : (j : ℕ) → j < count → free + bytes_of (take j candidates) < target

abbrev pub candidates_of : (KernelEntry → Bool) → List KernelEntry → List KernelEntry
candidates_of spared es = keep_if (λ e. not (spared e)) es

nothing-Planned :
    (candidates : List KernelEntry) (free target : ℕ)
    → target ≤ free
    → Planned candidates free target []
nothing-Planned candidates free target le = record {
  count = 0;
  chosen = refl;
  enough = inl (omega (arith, le));
  needed = λ j below. absurd (omega (arith, below));
}

one_more-Planned :
    (e : KernelEntry) (candidates : List KernelEntry) (free target : ℕ) (names : List String)
    → free < target
    → Planned candidates (free + e.size) target names
    → Planned (e ∷ candidates) free target (e.name ∷ names)
one_more-Planned e candidates free target names short p = record {
  count = suc p.count;
  chosen = ap (λ ns. e.name ∷ ns) p.chosen;
  enough = elim p.enough [
    | inl le ↦ inl (omega (arith, le))
    | inr all_of ↦ inr (ap (λ es. e ∷ es) all_of)
  ];
  needed = needs;
}
  where
    needs : (j : ℕ) → j < suc p.count → free + bytes_of (take j (e ∷ candidates)) < target
    needs zero below = omega (arith, short)
    needs (suc i) below = omega (arith, p.needed i (omega (arith, below)))

module _ (spared : KernelEntry → Bool) (target : ℕ) where
  plan_from-Planned :
      (free : ℕ) (es : List KernelEntry)
      → free + bytes_of (candidates_of spared es) < 2 ^ 64
      → Planned (candidates_of spared es) free target (plan_from spared target free es)
  unfolding plan_from
  plan_from-Planned free [] fits = record {
    count = 0;
    chosen = refl;
    enough = inr refl;
    needed = λ j below. absurd (omega (arith, below));
  }
  plan_from-Planned free (e ∷ es) fits = elim (Bool-cases (leb target free)) [
    | inl done ↦ rw done (nothing-Planned _ free target (ground (arith, done)))
    | inr short ↦ elim (Bool-cases (spared e)) [
      | inl kept ↦ rw (short, kept) (plan_from-Planned free es (ground (arith, fits, kept)))
      | inr candidate ↦
          let room : free + e.size + bytes_of (candidates_of spared es) < 2 ^ 64 =
            ground (arith, fits, candidate) in
          let small : (free + e.size) % 2 ^ 64 ≡ free + e.size = omega (arith, room) in
          rw (short, candidate, small)
            (one_more-Planned e (candidates_of spared es) free target _ (ground (arith, short))
              (plan_from-Planned (free + e.size) es room))
    ]
  ]

-- The version of a kernel is that of one of these.
abbrev pub has_version : String → List KernelEntry → Bool
has_version ts es = any (λ e. str_eq ts e.ts) es

-- What a purge spares: the versions that are protected, and those of the newest kernels.
abbrev pub stays : List String → ℕ → List KernelEntry → KernelEntry → Bool
stays protected keep newest e = any (str_eq e.ts) protected || has_version e.ts (take keep newest)

-- A version that is protected or kept is protected, or among the first ones.
kept_or_protected :
    (protected : List String) (ts : String) (n : ℕ) (es : List KernelEntry)
    → (is_in protected ts || is_in (newest_kept protected n es) ts)
      ≡ (is_in protected ts || has_version ts (take n es))
unfolding newest_kept
kept_or_protected protected ts zero [] = refl
kept_or_protected protected ts zero (e ∷ es) = ground arith
kept_or_protected protected ts (suc n) [] = refl
kept_or_protected protected ts (suc n) (e ∷ es) =
    let rest = kept_or_protected protected ts n es in
    elim (Bool-cases (str_eq ts e.ts)) [
      | inl same ↦
          let is_it : ts ≡ e.ts = (eq_iff ts e.ts).0 same in
          let both : is_in protected ts ≡ is_in protected e.ts = ap (is_in protected) is_it in
          ground (arith, rest, same, both)
      | inr other ↦ ground (arith, rest, other)
    ]

candidates_of-ext :
    (f g : KernelEntry → Bool) (es : List KernelEntry)
    → ((e : KernelEntry) → f e ≡ g e)
    → candidates_of f es ≡ candidates_of g es
candidates_of-ext f g [] h = refl
candidates_of-ext f g (e ∷ es) h = ground (arith, h e, candidates_of-ext f g es h)

-- The kernels that a purge may delete, the oldest first: those whose version is neither protected nor
-- among the `keep` newest.
abbrev pub purgeable : Sort → List KernelEntry → List String → ℕ → List KernelEntry
purgeable sort entries protected keep =
    candidates_of (stays protected keep (sort (λ a b. newer_ts a.ts b.ts) entries))
      (sort (λ a b. newer_ts b.ts a.ts) entries)

-- A purge names the kernels to delete in the order of a sort that puts the older versions first,
-- leaving out those of a protected version and those of a version among the `keep_newest` first
-- ones in the order that puts the newer versions first: as many of the others as it takes until the
-- target is free, or all of them, and not one more. The sort is any function that is given the two
-- comparisons; the free space and the sizes of these kernels together do not overflow.
pub plan_purge-Planned :
    (sort : Sort) (entries : List KernelEntry) (protected : List String)
    (keep_newest free target : ℕ)
    → free + bytes_of (purgeable sort entries protected keep_newest) < 2 ^ 64
    → Planned
        (purgeable sort entries protected keep_newest)
        free
        target
        (plan_purge sort entries protected keep_newest free target)
unfolding plan_purge
plan_purge-Planned sort entries protected keep_newest free target fits =
    let newest = sort newer_entry entries in
    let spared = is_spared protected (newest_kept protected keep_newest newest) in
    let same : candidates_of spared (sort older_entry entries)
        ≡ purgeable sort entries protected keep_newest =
      candidates_of-ext spared (stays protected keep_newest newest) (sort older_entry entries)
        (λ e. kept_or_protected protected e.ts keep_newest newest) in
    elim (Bool-cases (leb target free)) [
      | inl done ↦ rw done (nothing-Planned _ free target (ground (arith, done)))
      | inr short ↦ rw short (
          subst
            (λ es. Planned es free target (plan_from spared target free (sort older_entry entries)))
            same
            (plan_from-Planned spared target free (sort older_entry entries)
              (subst (λ es. free + bytes_of es < 2 ^ 64) (sym same) fits)))
    ]
