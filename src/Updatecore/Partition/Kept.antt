-- ===== src/Updatecore/Partition/Kept.antt =====
-- The files that the staging of a release leaves on the partition.
use mathlib.Core.List.{Perm, foldr}
use mathlib.Core.List.Perm
use mathlib.Core.Bool.{Bool-set}
use simplek8s_controller.Prelude.{
  ℕ, ◌+◌, ◌%◌, ◌^◌, ◌≡◌, refl, sym, ◌∙◌, ap, subst, inl, inr, Bool, true, false, not, ◌&&◌, ◌||◌,
  String, str_eq, eq_iff, Option, none, some, List, [], ◌∷◌, any, all, keep_if, arith, Bool-cases,
}
use simplek8s_controller.Updatecore.Versions.{Release, parse_stored_kernel}
use simplek8s_controller.Updatecore.Store.{Bootloader}
use simplek8s_controller.Updatecore.Purge.{
  KernelEntry, DirEntry, Sort, newer_entry, older_entry, list_kernels, onto_kernels,
  own_flavor_entries, is_in, is_spared, newest_kept, plan_from, plan_purge,
}
use simplek8s_controller.Updatecore.Partition.{
  Disk, Host, is_file, entries_of, file_exists, remove_file, write_file, apply_purge, pruned,
}

-- Every element passes, of a list and of its permutations.
all-foldr : {A : Type 0} (p : A → Bool) (xs : List A) → all p xs ≡ foldr (λ x b. p x && b) true xs
all-foldr p [] = refl
all-foldr p (x ∷ xs) = ap (λ b. p x && b) (all-foldr p xs)

and_swap : (a b c : Bool) → (a && (b && c)) ≡ (b && (a && c))
and_swap a b c = ground arith

all-Perm : {A : Type 0} (p : A → Bool) (xs ys : List A) → Perm xs ys → all p xs ≡ all p ys
all-Perm p xs ys h =
    all-foldr p xs
    ∙ Perm.foldr-eq Bool-set (λ x b. p x && b) (λ x y b. and_swap (p x) (p y) b) h true
    ∙ sym (all-foldr p ys)

any-keep_if :
    {A : Type 0} (p q : A → Bool) (xs : List A)
    → ((x : A) → p x ≡ true → q x ≡ true)
    → any p xs ≡ true
    → any p (keep_if q xs) ≡ true
any-keep_if p q [] f h = absurd (ground (arith, h))
any-keep_if p q (x ∷ xs) f h = elim (Bool-cases (p x)) [
  | inl here ↦ ground (arith, here, f x here)
  | inr there ↦ ground (arith, there, h, any-keep_if p q xs f (ground (arith, h, there)))
]

-- The file is no kernel of the flavor, or its version is protected.
abbrev pub spared_release : String → List String → Option Release → Bool
spared_release flavor protected none = true
spared_release flavor protected (some r) = not (str_eq r.flavor flavor) || is_in protected r.ts

abbrev pub spared_file : String → List String → String → Bool
spared_file flavor protected name = spared_release flavor protected (parse_stored_kernel name)

-- A sort that gives a permutation.
abbrev pub Permutes : Sort → Type 0
Permutes sort =
    (less : KernelEntry → KernelEntry → Bool) (es : List KernelEntry) → Perm (sort less es) es

module _ (name : String) where
  abbrev pub names_it : String → Bool
  names_it n = str_eq n name

  -- A kernel that is not of the file, or is protected.
  abbrev safe : List String → KernelEntry → Bool
  safe protected e = not (str_eq e.name name) || is_in protected e.ts

  plan_from-omits :
      (protected kept : List String) (target free : ℕ) (es : List KernelEntry)
      → all (safe protected) es ≡ true
      → any names_it (plan_from (is_spared protected kept) target free es) ≡ false
  unfolding plan_from
  plan_from-omits protected kept target free [] h = refl
  plan_from-omits protected kept target free (e ∷ es) h =
      let rest : all (safe protected) es ≡ true = ground (arith, h) in
      ground (
        arith,
        h,
        plan_from-omits protected kept target free es rest,
        plan_from-omits protected kept target ((free + e.size) % 2 ^ 64) es rest,
      )

  -- The kernel of an entry, if it is of the flavor, is safe.
  entry-safe :
      (flavor : String) (protected : List String) (e : DirEntry) (r : Release)
      → parse_stored_kernel e.file ≡ some r
      → spared_file flavor protected name ≡ true
      → (str_eq r.flavor flavor
          && not (safe protected (record { ts = r.ts; name = e.file; size = e.bytes })))
        ≡ false
  entry-safe flavor protected e r found spared = elim (Bool-cases (str_eq e.file name)) [
    | inr other ↦ ground (arith, other)
    | inl same ↦
        let here : parse_stored_kernel name ≡ some r =
          subst (λ n. parse_stored_kernel n ≡ some r) ((eq_iff e.file name).0 same) found in
        ground (arith, same, spared, here)
  ]

  onto_kernels-safe :
      (flavor : String) (protected : List String) (e : DirEntry) (regular : Bool)
      (o : Option Release)
      → parse_stored_kernel e.file ≡ o
      → spared_file flavor protected name ≡ true
      → (es : List KernelEntry) → all (safe protected) (own_flavor_entries es flavor) ≡ true
      → all (safe protected) (own_flavor_entries (onto_kernels regular o e es) flavor) ≡ true
  unfolding own_flavor_entries
  onto_kernels-safe flavor protected e false none found spared es h = h
  onto_kernels-safe flavor protected e false (some r) found spared es h = h
  onto_kernels-safe flavor protected e true none found spared es h = h
  onto_kernels-safe flavor protected e true (some r) found spared es h =
      ground (arith, h, found, entry-safe flavor protected e r found spared)

  own_kernels-safe :
      (flavor : String) (protected : List String)
      → spared_file flavor protected name ≡ true
      → (es : List DirEntry)
      → all (safe protected) (own_flavor_entries (list_kernels es) flavor) ≡ true
  unfolding list_kernels
  own_kernels-safe flavor protected spared [] = unfold own_flavor_entries in refl
  own_kernels-safe flavor protected spared (e ∷ es) =
      onto_kernels-safe flavor protected e e.is_regular _ refl spared (list_kernels es)
        (own_kernels-safe flavor protected spared es)

  pub plan_purge-omits :
      (sort : Sort) (flavor : String) (protected : List String) (keep free target : ℕ)
      (es : List DirEntry)
      → Permutes sort
      → spared_file flavor protected name ≡ true
      → any names_it
          (plan_purge sort (own_flavor_entries (list_kernels es) flavor) protected keep free target)
        ≡ false
  unfolding plan_purge
  plan_purge-omits sort flavor protected keep free target es permutes spared =
      let own = own_flavor_entries (list_kernels es) flavor in
      let sorted : all (safe protected) (sort older_entry own) ≡ true =
        all-Perm (safe protected) (sort older_entry own) own (permutes older_entry own)
        ∙ own_kernels-safe flavor protected spared es in
      let omits =
        plan_from-omits protected (newest_kept protected keep (sort newer_entry own)) target free
          (sort older_entry own) sorted in
      ground (arith, omits)

  Keeps-others :
      (n : String) (es : List DirEntry)
      → str_eq n name ≡ false
      → any (is_file name) es ≡ true
      → any (is_file name) (keep_if (λ e. not (is_file n e)) es) ≡ true
  Keeps-others n es other =
      any-keep_if (is_file name) (λ e. not (is_file n e)) es
        (λ e it. ground (arith, other, it, eq_iff e.file name, eq_iff e.file n, eq_iff n name))

  module _ {L : Type 0} where
    -- The file stays.
    abbrev pub Keeps : Disk L → Disk L → Type 0
    Keeps d d' = file_exists d name ≡ true → file_exists d' name ≡ true

    remove_file-Keeps :
        (n : String) (d : Disk L) → str_eq n name ≡ false → Keeps d (remove_file n d)
    unfolding remove_file file_exists
    remove_file-Keeps n d other h =
        elim d.entries
            as (λ o.
              any (is_file name) (entries_of o) ≡ true
              → any (is_file name) (
                  entries_of
                    (elim o [ none ↦ none | some es ↦ some (keep_if (λ e. not (is_file n e)) es) ]))
                ≡ true) [ none ↦ λ m. m | some es ↦ λ m. Keeps-others n es other m ]
          h

    pub write_file-Keeps : (n : String) (size : ℕ) (d : Disk L) → Keeps d (write_file n size d)
    unfolding write_file file_exists
    write_file-Keeps n size d h = elim (Bool-cases (str_eq n name)) [
      | inl same ↦ ground (arith, same)
      | inr other ↦ ground (arith, other, Keeps-others n (entries_of d.entries) other h)
    ]

    module _ (boot : Bootloader L) (host : Host L) (sort : Sort) where
      pub apply_purge-Keeps :
          (names : List String) (d : Disk L)
          → any names_it names ≡ false
          → Keeps d (apply_purge boot host sort names d).1
      unfolding apply_purge
      apply_purge-Keeps [] d omits h = h
      apply_purge-Keeps (n ∷ names) d omits h =
          elim (Bool-cases (file_exists d n && not (host.removes d n))) [
            | inl failed ↦ rw failed h
            | inr gone ↦ rw gone (
                apply_purge-Keeps names (remove_file n d) (ground (arith, omits))
                  (remove_file-Keeps n d (ground (arith, omits)) h))
          ]

      pub pruned-Keeps :
          (flavor : String) (names : List String) (r : Bool × Disk L)
          → Keeps r.1 (pruned boot host sort flavor names r).1
      unfolding pruned file_exists
      pruned-Keeps flavor names (false, d) h = h
      pruned-Keeps flavor [] (true, d) h = h
      pruned-Keeps flavor (n ∷ names) (true, d) h = h
