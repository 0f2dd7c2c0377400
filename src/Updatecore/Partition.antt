-- ===== src/Updatecore/Partition.antt =====
-- internal/updatecore/staging.go, purge.go and bootstore.go: the staging of a release on the boot
-- partition, the purge of it, and the store that is made of them.
pub mod Kept
pub mod Staged
use Prim.Native.String.{◌++◌ as concat}
use simplek8s_controller.Prelude.{
  ℕ, ◌+◌, Bool, true, false, not, ◌&&◌, ◌||◌, String, str_eq, Option, none, some, is_some, List, [],
  ◌∷◌, ◌++◌, any, keep_if, map, ltb, leb, ◌==◌, if◌then◌else◌,
}
use simplek8s_controller.Updatecore.Versions.{parse_stored_kernel, kernel_stored_name}
use simplek8s_controller.Updatecore.Store.{
  StageRequest, BootStore, Bootloader, Ensured, at_goal, repointed, goal_absent, store_failed,
}
use simplek8s_controller.Updatecore.Bootloader.Text.{base_name}
use simplek8s_controller.Updatecore.Purge.{
  KernelEntry, DirEntry, Sort, older_entry, list_kernels, own_flavor_entries, protected_set,
  plan_purge, target_free_from_percent,
}

-- The partition: the kernel directory, if it is there, and the configuration of the boot loader.
-- `sessions` counts the mounts so far.
pub record Disk (L : Type 0) : Type 0 where
  pub entries : Option (List DirEntry)
  pub loader : L
  pub sessions : ℕ

-- The host: whether a session gets its lock and its mount; the total and the free space; the size
-- of an artifact once it is downloaded, verified and extracted; whether a file is removed; and how
-- many bytes of a kernel are written, with whether all are, or `none` if the file is not even
-- created. A directory that is there is read without an error.
pub record Host (L : Type 0) : Type 0 where
  pub opens : ℕ → Bool
  pub path_info : Disk L → Option (ℕ × ℕ)
  pub extracted : StageRequest → Option ℕ
  pub removes : Disk L → String → Bool
  pub copied : Disk L → String → Option (ℕ × Bool)

abbrev pub is_file : String → DirEntry → Bool
is_file name e = str_eq e.file name

abbrev pub entries_of : Option (List DirEntry) → List DirEntry
entries_of none = []
entries_of (some es) = es

module _ {L : Type 0} where
  -- fileExists, of a name in the kernel directory
  unfoldable pub file_exists : Disk L → String → Bool
  file_exists d name = any (is_file name) (entries_of d.entries)

  unfoldable pub remove_file : String → Disk L → Disk L
  remove_file name d = record d {
    entries = elim d.entries [
      | none ↦ none
      | some es ↦ some (keep_if (λ e. not (is_file name e)) es)
    ];
  }

  -- A file that is written, over an old one of the name.
  unfoldable pub write_file : String → ℕ → Disk L → Disk L
  write_file name size d = record d {
    entries = some (
        record { file = name; is_regular = true; bytes = size }
        ∷ keep_if (λ e. not (is_file name e)) (entries_of d.entries));
  }

-- filepath.Join of the kernel directory and a file, from the root of the partition
abbrev pub kernel_path : String → String
kernel_path stored = concat "/simplek8s/" stored

module _ {L : Type 0} (boot : Bootloader L) (host : Host L) (sort : Sort) where
  -- applyPurge. A file that is gone already is no failure.
  unfoldable pub apply_purge : List String → Disk L → Bool × Disk L
  unfolding file_exists remove_file
  apply_purge [] d = (true, d)
  apply_purge (name ∷ names) d =
      let rest = apply_purge names (remove_file name d) in
      if file_exists d name && not (host.removes d name) then (false, d) else rest

  abbrev pub own_kernels : String → List DirEntry → List KernelEntry
  own_kernels flavor es = own_flavor_entries (list_kernels es) flavor

  -- The prune of the boot loader's entries, if a kernel was deleted.
  unfoldable pub pruned : String → List String → Bool × Disk L → Bool × Disk L
  unfolding file_exists
  pruned flavor names (false, d) = (false, d)
  pruned flavor [] (true, d) = (true, d)
  pruned flavor (name ∷ names) (true, d) =
      (true, record d { loader = boot.prune flavor (λ base. not (file_exists d base)) d.loader })

  unfoldable pub purge_planned : String → List String → Disk L → Bool × Disk L
  unfolding pruned apply_purge
  purge_planned flavor names d = pruned flavor names (apply_purge names d)

  unfoldable pub purge_within :
      String
      → ℕ
      → ℕ
      → List String
      → Disk L
      → Option (List DirEntry)
      → Option (ℕ × ℕ)
      → Bool × Disk L
  unfolding purge_planned plan_purge target_free_from_percent
  purge_within flavor preserve max_percent protected d es none = (false, d)
  purge_within flavor preserve max_percent protected d none (some space) = (true, d)
  purge_within flavor preserve max_percent protected d (some es) (some space) =
      purge_planned flavor
        (plan_purge sort (own_kernels flavor es) protected preserve space.1
          (target_free_from_percent space.0 max_percent))
        d

  -- purgeAndPrune
  unfoldable pub purge_and_prune : String → ℕ → ℕ → List String → Disk L → Bool × Disk L
  unfolding purge_within
  purge_and_prune flavor preserve max_percent protected d =
      purge_within flavor preserve max_percent protected d d.entries (host.path_info d)

  -- Steps 6 to 8 of the staging, once the kernel is written.
  unfoldable pub stage_repointed : StageRequest → List String → Disk L → Option L → Bool × Disk L
  unfolding purge_and_prune
  stage_repointed req protected d none = (false, d)
  stage_repointed req protected d (some loader) =
      purge_and_prune req.arch req.preserve req.max_percent_usage protected
        (record d { loader = loader })

  -- Steps 5 to 8.
  unfoldable pub stage_written :
      StageRequest → List String → Disk L → Option (ℕ × Bool) → Bool × Disk L
  unfolding stage_repointed write_file kernel_stored_name
  stage_written req protected d none = (false, d)
  stage_written req protected d (some (size, done)) =
      let stored = kernel_stored_name req.version req.arch in
      let d1 = write_file stored size d in
      if done
      then stage_repointed req protected d1 (boot.set_default (kernel_path stored) d1.loader)
      else (false, d1)

  unfoldable pub stage_copied : StageRequest → List String → Disk L → Bool × Disk L
  unfolding stage_written kernel_stored_name
  stage_copied req protected d =
      stage_written req protected d (host.copied d (kernel_stored_name req.version req.arch))

  abbrev pub has_room : ℕ → Option (ℕ × ℕ) → Bool
  has_room size none = false
  has_room size (some space) = leb size space.1

  -- The purge for room is done, or has failed.
  unfoldable pub stage_purged : StageRequest → ℕ → List String → Bool × Disk L → Bool × Disk L
  unfolding stage_copied
  stage_purged req size protected (false, d) = (false, d)
  stage_purged req size protected (true, d) =
      if has_room size (host.path_info d) then stage_copied req protected d else (false, d)

  -- Step 4, with the free space.
  unfoldable pub stage_within :
      StageRequest
      → ℕ
      → List String
      → Disk L
      → Option (List DirEntry)
      → Option (ℕ × ℕ)
      → Bool × Disk L
  unfolding stage_purged stage_copied apply_purge plan_purge
  stage_within req size protected d es none = (false, d)
  stage_within req size protected d none (some space) =
      if ltb space.1 size then (false, d) else stage_copied req protected d
  stage_within req size protected d (some es) (some space) =
      if ltb space.1 size
      then stage_purged req size protected
          (apply_purge (plan_purge sort (own_kernels req.arch es) protected 0 space.1 size) d)
      else stage_copied req protected d

  abbrev pub protected_of : StageRequest → Disk L → List String
  protected_of req d = protected_set req.running req.version (base_name (boot.default_of d.loader))

  unfoldable pub stage_extracted : StageRequest → Disk L → Option ℕ → Bool × Disk L
  unfolding stage_within protected_set base_name
  stage_extracted req d none = (false, d)
  stage_extracted req d (some size) =
      stage_within req size (protected_of req d) d d.entries (host.path_info d)

  -- stagePartition, as the controller calls it: without the checksum of the extracted kernel, with the
  -- re-point, and not as a dry run.
  unfoldable pub stage_partition : StageRequest → Disk L → Bool × Disk L
  unfolding stage_extracted file_exists kernel_stored_name
  stage_partition req d =
      if file_exists d (kernel_stored_name req.version req.arch)
      then (true, d)
      else stage_extracted req d (host.extracted req)

  -- s.mountedBoot, with s.LockExcl where it is taken: whether the session opens.
  unfoldable pub open_session : Disk L → Bool × Disk L
  open_session d = (host.opens d.sessions, record d { sessions = d.sessions + 1 })

  unfoldable pub stage_opened : StageRequest → Bool × Disk L → Bool × Disk L
  unfolding stage_partition
  stage_opened req (false, d) = (false, d)
  stage_opened req (true, d) = stage_partition req d

  abbrev pub ts_of : KernelEntry → String
  ts_of e = e.ts

  abbrev pub kernel_name : KernelEntry → String
  kernel_name e = e.name

  abbrev pub listed : {A : Type 0} → (List KernelEntry → A) → Bool × Disk L → Option A × Disk L
  listed f (false, d) = (none, d)
  listed f (true, d) = (elim d.entries [ none ↦ none | some es ↦ some (f (list_kernels es)) ], d)

  abbrev pub re_pointed : Disk L → Option L → Ensured × Disk L
  re_pointed d none = (store_failed, d)
  re_pointed d (some loader) = (repointed, record d { loader = loader })

  unfoldable pub ensure_opened : String → String → Bool × Disk L → Ensured × Disk L
  unfolding file_exists kernel_stored_name
  ensure_opened version arch (false, d) = (store_failed, d)
  ensure_opened version arch (true, d) =
      let stored = kernel_stored_name version arch in
      let want = kernel_path stored in
      if not (file_exists d stored)
      then (goal_absent, d)
      else if str_eq (boot.default_of d.loader) want
      then (at_goal, d)
      else re_pointed d (boot.set_default want d.loader)

  -- PhysicalStore
  unfoldable pub physical_store : BootStore (Disk L)
  unfolding open_session stage_opened ensure_opened list_kernels
  physical_store = record {
    versions = λ d. listed (λ es. map ts_of (sort older_entry es)) (open_session d);
    kernels = λ d. listed (map kernel_name) (open_session d);
    stage = λ req d. stage_opened req (open_session d);
    ensure_boot_goal = λ version arch d. ensure_opened version arch (open_session d);
  }
