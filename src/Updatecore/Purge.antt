-- ===== src/Updatecore/Purge.antt =====
-- internal/updatecore/purge.go, and what staging.go gives to it: the plan of a purge of the boot
-- partition.
pub mod Plan
use simplek8s_controller.Prelude.{
  ℕ, ◌+◌, ◌-◌, ◌*◌, ◌/◌, ◌%◌, ◌^◌, Bool, true, false, not, ◌&&◌, ◌||◌, String, str_eq, Option, none,
  some, List, [], ◌∷◌, any, keep_if, map, leb, ◌==◌, if◌then◌else◌,
}
use simplek8s_controller.Updatecore.Versions.{Release, parse_stored_kernel, newer_ts}

-- One stored kernel. The size is a number of bytes.
pub record KernelEntry : Type 0 where
  pub ts : String
  pub name : String
  pub size : ℕ

-- An entry of the kernel directory.
pub record DirEntry : Type 0 where
  pub file : String
  pub is_regular : Bool
  pub bytes : ℕ

abbrev pub onto_kernels : Bool → Option Release → DirEntry → List KernelEntry → List KernelEntry
onto_kernels true (some r) e rest = record { ts = r.ts; name = e.file; size = e.bytes } ∷ rest
onto_kernels _ _ e rest = rest

-- listKernels, of the directory that was read
unfoldable pub list_kernels : List DirEntry → List KernelEntry
list_kernels [] = []
list_kernels (e ∷ es) = onto_kernels e.is_regular (parse_stored_kernel e.file) e (list_kernels es)

abbrev pub of_flavor : String → Option Release → Bool
of_flavor flavor none = false
of_flavor flavor (some r) = str_eq r.flavor flavor

-- ownFlavorEntries
unfoldable pub own_flavor_entries : List KernelEntry → String → List KernelEntry
own_flavor_entries entries flavor =
    keep_if (λ e. of_flavor flavor (parse_stored_kernel e.name)) entries

abbrev pub onto_set : String → List String → List String
onto_set ts rest = if str_eq ts "" then rest else ts ∷ rest

abbrev pub default_ts : Option Release → List String
default_ts none = []
default_ts (some r) = r.ts ∷ []

-- protectedSet: what runs, what is staged, and the kernel that the boot loader starts, by its base name.
unfoldable pub protected_set : String → String → String → List String
protected_set running version default_base =
    onto_set running (onto_set version (default_ts (parse_stored_kernel default_base)))

abbrev pub is_in : List String → String → Bool
is_in set ts = any (str_eq ts) set

-- sort.Slice, by a test whether the first comes before the second
abbrev pub Sort : Type 0
Sort = (KernelEntry → KernelEntry → Bool) → List KernelEntry → List KernelEntry

abbrev pub newer_entry : KernelEntry → KernelEntry → Bool
newer_entry a b = newer_ts a.ts b.ts

abbrev pub older_entry : KernelEntry → KernelEntry → Bool
older_entry a b = newer_ts b.ts a.ts

-- The versions that are kept: the unprotected ones among the newest.
unfoldable pub newest_kept : List String → ℕ → List KernelEntry → List String
newest_kept protected n [] = []
newest_kept protected n (e ∷ es) =
    let rest = newest_kept protected (n - 1) es in
    if n == 0 then [] else if is_in protected e.ts then rest else e.ts ∷ rest

abbrev pub is_spared : List String → List String → KernelEntry → Bool
is_spared protected kept e = is_in protected e.ts || is_in kept e.ts

-- The walk from the oldest on, with the space that is free by then.
unfoldable pub plan_from : (KernelEntry → Bool) → ℕ → ℕ → List KernelEntry → List String
plan_from spared target cur [] = []
plan_from spared target cur (e ∷ es) =
    let passed = plan_from spared target cur es in
    let deleted = plan_from spared target ((cur + e.size) % 2 ^ 64) es in
    if leb target cur then [] else if spared e then passed else e.name ∷ deleted

-- planPurge
unfoldable pub plan_purge : Sort → List KernelEntry → List String → ℕ → ℕ → ℕ → List String
unfolding plan_from newest_kept
plan_purge sort entries protected keep_newest free target =
    if leb target free
    then []
    else plan_from
        (is_spared protected (newest_kept protected keep_newest (sort newer_entry entries))) target
        free (sort older_entry entries)

-- targetFreeFromPercent, of a percentage that is not negative
unfoldable pub target_free_from_percent : ℕ → ℕ → ℕ
target_free_from_percent total max_percent =
    if max_percent == 0 || leb 100 max_percent
    then 0
    else total * (100 - max_percent) % 2 ^ 64 / 100
