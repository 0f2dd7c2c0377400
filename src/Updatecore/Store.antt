-- ===== src/Updatecore/Store.antt =====
-- The boot store that internal/features/update uses (`BootStore` of update.go), and the requests of
-- internal/updatecore/staging.go.
use simplek8s_controller.Prelude.{ℕ, Bool, String, Option, List}
use simplek8s_controller.Stdlib.Json.{Raw}

-- `StageRequest`, with the fields that the controller sets; the others have their zero values.
pub record StageRequest : Type 0 where
  pub version : String
  pub arch : String
  pub checksum : String
  pub artifact_file : String
  pub repo_base : Raw
  pub preserve : ℕ
  pub max_percent_usage : ℕ
  pub running : String

-- The result of `EnsureBootGoal`: nil with false or true, `ErrGoalAbsent`, or another error.
pub data Ensured : Type 0 where
  at_goal repointed goal_absent store_failed : Ensured

-- The operations, on whatever they act: the partition, and all that decides whether they fail.
-- `none` is an error, and so is `false`.
pub record BootStore (D : Type 0) : Type 0 where
  pub versions : D → Option (List String) × D
  pub kernels : D → Option (List String) × D
  pub stage : StageRequest → D → Bool × D
  pub ensure_boot_goal : String → String → D → Ensured × D

-- The boot loader of a partition: `GetBootloaderDefault`, `SetBootloaderDefault` (`none` is an
-- error), and the removal of the entries of a flavor whose files are gone.
pub record Bootloader (L : Type 0) : Type 0 where
  pub default_of : L → String
  pub set_default : String → L → Option L
  pub prune : String → (String → Bool) → L → L
