-- ===== src/Updatecore/Partition/Staged.antt =====
-- The files that the staging of a release leaves on the partition, step by step.
use simplek8s_controller.Prelude.{
  ℕ, ◌≡◌, ◌≢◌, refl, str_eq, eq_iff, arith, Bool, true, false, String, Option, none, some, List,
  any, Bool-cases, inl, inr, ltb,
}
use simplek8s_controller.Updatecore.Versions.{Release, parse_stored_kernel, kernel_stored_name}
use simplek8s_controller.Updatecore.Bootloader.Text.{base_name}
use simplek8s_controller.Updatecore.Store.{StageRequest, Bootloader}
use simplek8s_controller.Updatecore.Purge.{
  protected_set, DirEntry, Sort, plan_purge, target_free_from_percent,
}
use simplek8s_controller.Updatecore.Partition.{
  Disk, Host, file_exists, write_file, apply_purge, kernel_path, own_kernels, purge_planned,
  purge_within, purge_and_prune, stage_repointed, stage_written, stage_copied, has_room,
  stage_purged, stage_within, protected_of, stage_extracted, stage_partition, open_session,
  stage_opened, physical_store,
}
use simplek8s_controller.Updatecore.Partition.Kept.{
  names_it, Permutes, spared_file, Keeps, write_file-Keeps, apply_purge-Keeps, pruned-Keeps,
  plan_purge-omits,
}

module _ (name : String) {L : Type 0} (boot : Bootloader L) (host : Host L) (sort : Sort)
    (permutes : Permutes sort) where
  purge_planned-Keeps :
      (flavor : String) (names : List String) (d : Disk L)
      → any (names_it name) names ≡ false
      → Keeps name d (purge_planned boot host sort flavor names d).1
  unfolding purge_planned
  purge_planned-Keeps flavor names d omits h =
      pruned-Keeps name boot host sort flavor names (apply_purge boot host sort names d)
        (apply_purge-Keeps name boot host sort names d omits h)

  purge_within-Keeps :
      (flavor : String) (preserve percent : ℕ) (protected : List String) (d : Disk L)
      (es : Option (List DirEntry)) (space : Option (ℕ × ℕ))
      → spared_file flavor protected name ≡ true
      → Keeps name d (purge_within boot host sort flavor preserve percent protected d es space).1
  unfolding purge_within
  purge_within-Keeps flavor preserve percent protected d es none spared h = h
  purge_within-Keeps flavor preserve percent protected d none (some space) spared h = h
  purge_within-Keeps flavor preserve percent protected d (some es) (some space) spared h =
      purge_planned-Keeps flavor
        (plan_purge sort (own_kernels boot host sort flavor es) protected preserve space.1
          (target_free_from_percent space.0 percent))
        d
        (plan_purge-omits name sort flavor protected preserve space.1
          (target_free_from_percent space.0 percent) es permutes spared)
        h

  module _ (req : StageRequest) (protected : List String)
      (spared : spared_file req.arch protected name ≡ true) where
    stage_repointed-Keeps :
        (d : Disk L) (r : Option L)
        → Keeps name d (stage_repointed boot host sort req protected d r).1
    unfolding stage_repointed purge_and_prune file_exists
    stage_repointed-Keeps d none h = h
    stage_repointed-Keeps d (some loader) h =
        let d1 = record d { loader = loader } in
        purge_within-Keeps req.arch req.preserve req.max_percent_usage protected d1 d1.entries
          (host.path_info d1) spared h

    stage_written-Keeps :
        (d : Disk L) (r : Option (ℕ × Bool))
        → Keeps name d (stage_written boot host sort req protected d r).1
    unfolding stage_written
    stage_written-Keeps d none h = h
    stage_written-Keeps d (some (size, false)) h =
        write_file-Keeps name (kernel_stored_name req.version req.arch) size d h
    stage_written-Keeps d (some (size, true)) h =
        let stored = kernel_stored_name req.version req.arch in
        let d1 = write_file stored size d in
        stage_repointed-Keeps d1 (boot.set_default (kernel_path stored) d1.loader)
          (write_file-Keeps name stored size d h)

    stage_copied-Keeps : (d : Disk L) → Keeps name d (stage_copied boot host sort req protected d).1
    unfolding stage_copied
    stage_copied-Keeps d h =
        stage_written-Keeps d (host.copied d (kernel_stored_name req.version req.arch)) h

    stage_purged-Keeps :
        (size : ℕ) (r : Bool × Disk L)
        → Keeps name r.1 (stage_purged boot host sort req size protected r).1
    unfolding stage_purged
    stage_purged-Keeps size (false, d) h = h
    stage_purged-Keeps size (true, d) h =
        elim (Bool-cases (has_room boot host sort size (host.path_info d))) [
          | inl fits ↦ rw fits (stage_copied-Keeps d h)
          | inr short ↦ rw short h
        ]

    stage_within-Keeps :
        (size : ℕ) (d : Disk L) (es : Option (List DirEntry)) (space : Option (ℕ × ℕ))
        → Keeps name d (stage_within boot host sort req size protected d es space).1
    unfolding stage_within
    stage_within-Keeps size d es none h = h
    stage_within-Keeps size d none (some space) h = elim (Bool-cases (ltb space.1 size)) [
      | inl short ↦ rw short h
      | inr fits ↦ rw fits (stage_copied-Keeps d h)
    ]
    stage_within-Keeps size d (some es) (some space) h = elim (Bool-cases (ltb space.1 size)) [
      | inl short ↦ rw short (
          stage_purged-Keeps size
            (apply_purge boot host sort
              (plan_purge sort (own_kernels boot host sort req.arch es) protected 0 space.1 size) d)
            (apply_purge-Keeps name boot host sort
              (plan_purge sort (own_kernels boot host sort req.arch es) protected 0 space.1 size) d
              (plan_purge-omits name sort req.arch protected 0 space.1 size es permutes spared) h))
      | inr fits ↦ rw fits (stage_copied-Keeps d h)
    ]

  stage_extracted-Keeps :
      (req : StageRequest) (d : Disk L) (size : Option ℕ)
      → spared_file req.arch (protected_of boot host sort req d) name ≡ true
      → Keeps name d (stage_extracted boot host sort req d size).1
  unfolding stage_extracted
  stage_extracted-Keeps req d none spared h = h
  stage_extracted-Keeps req d (some size) spared h =
      stage_within-Keeps req (protected_of boot host sort req d) spared size d d.entries
        (host.path_info d) h

  stage_partition-Keeps :
      (req : StageRequest) (d : Disk L)
      → spared_file req.arch (protected_of boot host sort req d) name ≡ true
      → Keeps name d (stage_partition boot host sort req d).1
  unfolding stage_partition
  stage_partition-Keeps req d spared h =
      elim (Bool-cases (file_exists d (kernel_stored_name req.version req.arch))) [
        | inl there ↦ rw there h
        | inr missing ↦ rw missing (stage_extracted-Keeps req d (host.extracted req) spared h)
      ]

  stage_opened-Keeps :
      (req : StageRequest) (r : Bool × Disk L)
      → spared_file req.arch (protected_of boot host sort req r.1) name ≡ true
      → Keeps name r.1 (stage_opened boot host sort req r).1
  unfolding stage_opened
  stage_opened-Keeps req (false, d) spared h = h
  stage_opened-Keeps req (true, d) spared h = stage_partition-Keeps req d spared h

  -- A file that the staging of a release spares: no kernel of the flavor; or a kernel of the
  -- version that runs or that is staged, if that is known; or of the version of the kernel that the
  -- boot loader starts.
  pub data IsSpared (req : StageRequest) (d : Disk L) : Type 0 where
    no_kernel : parse_stored_kernel name ≡ none → IsSpared req d
    other_flavor :
        (r : Release) → parse_stored_kernel name ≡ some r → r.flavor ≢ req.arch → IsSpared req d
    runs :
        (r : Release)
        → parse_stored_kernel name ≡ some r
        → r.ts ≡ req.running
        → req.running ≢ ""
        → IsSpared req d
    is_staged :
        (r : Release)
        → parse_stored_kernel name ≡ some r
        → r.ts ≡ req.version
        → req.version ≢ ""
        → IsSpared req d
    is_started :
        (r default : Release)
        → parse_stored_kernel name ≡ some r
        → parse_stored_kernel (base_name (boot.default_of d.loader)) ≡ some default
        → r.ts ≡ default.ts
        → IsSpared req d

  str_ne : (a b : String) → a ≢ b → str_eq a b ≡ false
  str_ne a b h = elim (Bool-cases (str_eq a b)) [
    | inl same ↦ absurd (h ((eq_iff a b).0 same))
    | inr other ↦ other
  ]

  IsSpared-spared_file :
      (req : StageRequest) (d : Disk L)
      → IsSpared req d
      → spared_file req.arch (protected_of boot host sort req d) name ≡ true
  unfolding protected_set
  IsSpared-spared_file req d (no_kernel e) = rw e refl
  IsSpared-spared_file req d (other_flavor r e other) =
      let apart = str_ne r.flavor req.arch other in ground (arith, e, apart)
  IsSpared-spared_file req d (runs r e same known) =
      let there = str_ne req.running "" known in
      let it = (eq_iff r.ts req.running).1 same in ground (arith, e, there, it)
  IsSpared-spared_file req d (is_staged r e same known) =
      let there = str_ne req.version "" known in
      let it = (eq_iff r.ts req.version).1 same in ground (arith, e, there, it)
  IsSpared-spared_file req d (is_started r default e started same) =
      let it = (eq_iff r.ts default.ts).1 same in ground (arith, e, started, it)

  -- Staging a release, whether it succeeds or fails at any step, leaves every file on the partition
  -- that is no kernel of the flavor, and every kernel of the version that runs or that is staged,
  -- where that is not empty, or of the version of the kernel that the boot loader starts
  -- beforehand. The sort gives a permutation.
  pub stage-Keeps :
      (req : StageRequest) (d : Disk L)
      → IsSpared req d
      → file_exists d name ≡ true
      → file_exists ((physical_store boot host sort).stage req d).1 name ≡ true
  unfolding physical_store open_session
  stage-Keeps req d spared h =
      stage_opened-Keeps req (open_session boot host sort d) (IsSpared-spared_file req d spared) h
