-- ===== src/Examples/Partitions.antt =====
-- A boot partition: two kernels, a foreign one, and the configuration of a Raspberry Pi.
use mathlib.Core.List.{Perm}
use mathlib.Core.List.Perm
use simplek8s_controller.Prelude.{
  ℕ, ◌+◌, ◌-◌, ◌≡◌, ◌≢◌, eq_iff, refl, Bool, true, String, none, some, List, [], ◌∷◌, Bool-cases,
  inl, inr, if◌then◌else◌, arith,
}
use simplek8s_controller.Stdlib.Text.{lit}
use simplek8s_controller.Stdlib.Json.{text}
use simplek8s_controller.Stdlib.Strconv.{parse_int}
use simplek8s_controller.Updatecore.Store.{StageRequest}
use simplek8s_controller.Updatecore.Index.{line_length}
use simplek8s_controller.Updatecore.Versions.{newer_ts, parse_stored_kernel}
use simplek8s_controller.Updatecore.Purge.{KernelEntry, Sort, plan_purge}
use simplek8s_controller.Updatecore.Purge.Plan.{Planned, purgeable, plan_purge-Planned}
use simplek8s_controller.Updatecore.Bootloader.{Configs, any_bootloader}
use simplek8s_controller.Updatecore.Bootloader.Text.{scan}
use simplek8s_controller.Updatecore.Bootloader.Rpi.{is_kernel_line, set_rpi_default, rpi_default}
use simplek8s_controller.Updatecore.Bootloader.RoundTrip.{is_path, rpi_default-set_rpi_default}
use simplek8s_controller.Updatecore.Partition.{Disk, Host, file_exists, physical_store}
use simplek8s_controller.Updatecore.Partition.Kept.{Permutes}
use simplek8s_controller.Updatecore.Partition.Staged.{runs, stage-Keeps}

module _ (less : KernelEntry → KernelEntry → Bool) where
  abbrev insert_entry : KernelEntry → List KernelEntry → List KernelEntry
  insert_entry e [] = e ∷ []
  insert_entry e (x ∷ xs) =
      let rest = insert_entry e xs in if less e x then e ∷ x ∷ xs else x ∷ rest

  insert_entry-perm : (e : KernelEntry) (xs : List KernelEntry) → Perm (insert_entry e xs) (e ∷ xs)
  insert_entry-perm e [] = Perm.rfl
  insert_entry-perm e (x ∷ xs) = elim (Bool-cases (less e x)) [
    | inl here ↦ rw here Perm.rfl
    | inr later ↦ rw later (Perm.trans (Perm.cons x (insert_entry-perm e xs)) (Perm.swap e x xs))
  ]

-- Insertion.
abbrev insertion : Sort
insertion less [] = []
insertion less (e ∷ es) = insert_entry less e (insertion less es)

insertion-Permutes : Permutes insertion
insertion-Permutes less [] = Perm.rfl
insertion-Permutes less (e ∷ es) =
    Perm.trans (insert_entry-perm less e (insertion less es))
      (Perm.cons e (insertion-Permutes less es))

abbrev kernel_of_size : String → ℕ → KernelEntry
kernel_of_size ts size = record { ts = ts; name = ts; size = size }

abbrev five : List KernelEntry
five =
    kernel_of_size "3" 30
    ∷ kernel_of_size "1" 10
    ∷ kernel_of_size "5" 50
    ∷ kernel_of_size "2" 20
    ∷ kernel_of_size "4" 40
    ∷ []

-- The two oldest that are neither protected nor kept make the room.
five_planned : plan_purge insertion five ("1" ∷ []) 2 5 50 ≡ "2" ∷ "3" ∷ []
unfolding plan_purge newer_ts parse_int
five_planned = refl

plan_purge-Planned_example :
    Planned
      (purgeable insertion five ("1" ∷ []) 2)
      5
      50
      (plan_purge insertion five ("1" ∷ []) 2 5 50)
plan_purge-Planned_example =
    plan_purge-Planned insertion five ("1" ∷ []) 2 5 50 (unfold newer_ts parse_int in omega arith)

abbrev config : String
config = "arm_64bit=1\r\nkernel=/simplek8s/simplek8s.1.rpi5.efi\n"

abbrev next_path : String
next_path = "/simplek8s/simplek8s.2.rpi5.efi"

rpi_default-set_rpi_default_example : rpi_default (set_rpi_default next_path config) ≡ next_path
rpi_default-set_rpi_default_example =
    rpi_default-set_rpi_default next_path (unfold is_path in refl) refl
      (unfold line_length in omega arith) config (unfold scan is_kernel_line in refl)

abbrev before : Disk Configs
before = record {
  entries = some (
      record { file = "simplek8s.1.rpi5.efi"; is_regular = true; bytes = 60 }
      ∷ record { file = "simplek8s.0.rpi5.efi"; is_regular = true; bytes = 60 }
      ∷ []);
  loader = record { grub_cfg = none; syslinux_cfg = none; config_txt = some config; ucodes = [] };
  sessions = 0;
}

abbrev bytes_used : List String → Disk Configs → ℕ
bytes_used [] d = 0
bytes_used (name ∷ names) d =
    let rest = bytes_used names d in if file_exists d name then 60 + rest else rest

-- 150 bytes; all goes well.
abbrev host : Host Configs
host = record {
  opens = λ n. true;
  path_info = λ d. some (
    150,
    150
        - bytes_used ("simplek8s.0.rpi5.efi" ∷ "simplek8s.1.rpi5.efi" ∷ "simplek8s.2.rpi5.efi" ∷ [])
            d,
  );
  extracted = λ req. some 60;
  removes = λ d name. true;
  copied = λ d name. some (60, true);
}

abbrev request : StageRequest
request = record {
  version = "2";
  arch = "rpi5";
  checksum = "";
  artifact_file = "simplek8s.2.rpi5.efi.zst";
  repo_base = text (lit "https://example.org");
  preserve = 3;
  max_percent_usage = 75;
  running = "1";
}

one_ne_empty : request.running ≢ ""
one_ne_empty e = absurd (ground (arith, (eq_iff request.running "").1 e))

stage-Keeps_example :
    file_exists
      ((physical_store any_bootloader host insertion).stage request before).1
      "simplek8s.1.rpi5.efi"
    ≡ true
stage-Keeps_example =
    stage-Keeps "simplek8s.1.rpi5.efi" any_bootloader host insertion insertion-Permutes request
      before
      (runs (record { ts = "1"; flavor = "rpi5" }) (unfold parse_stored_kernel in refl) refl
        one_ne_empty)
      (unfold file_exists in refl)
