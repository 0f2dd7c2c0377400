-- ===== src/Updatecore/Bootloader.antt =====
-- internal/updatecore/bootloader.go: the boot loader of a partition, which its configuration files
-- decide.
pub mod Text
pub mod Rpi
pub mod Syslinux
pub mod Entries
pub mod Grub
pub mod Lines
pub mod RoundTrip
use simplek8s_controller.Prelude.{Bool, String, Option, none, some, List, str_eq, if◌then◌else◌}
use simplek8s_controller.Updatecore.Store.{Bootloader}
use simplek8s_controller.Updatecore.Bootloader.Text.{scan, kernel_basename}
use simplek8s_controller.Updatecore.Bootloader.Rpi.{set_rpi_default, rpi_default}
use simplek8s_controller.Updatecore.Bootloader.Syslinux.{
  set_syslinux_default, syslinux_default, syslinux_label, prune_syslinux_entries,
}
use simplek8s_controller.Updatecore.Bootloader.Grub.{
  set_grub_default, grub_default, prune_grub_entries,
}

-- The configuration files, and the microcode files at the root of the partition.
pub record Configs : Type 0 where
  pub grub_cfg : Option String
  pub syslinux_cfg : Option String
  pub config_txt : Option String
  pub ucodes : List String

-- DetectBootloader, with the text of the configuration
pub data Detected : Type 0 where
  grub syslinux rpi : String → Detected
  nothing : Detected

abbrev pub detect_rpi : Option String → Detected
detect_rpi none = nothing
detect_rpi (some text) = rpi text

abbrev pub detect_syslinux : Option String → Option String → Detected
detect_syslinux none c = detect_rpi c
detect_syslinux (some text) c = syslinux text

abbrev pub detect_grub : Option String → Option String → Option String → Detected
detect_grub none b c = detect_syslinux b c
detect_grub (some text) b c = grub text

abbrev pub detect_bootloader : Configs → Detected
detect_bootloader c = detect_grub c.grub_cfg c.syslinux_cfg c.config_txt

abbrev pub default_in : Detected → String
default_in (grub text) = grub_default text
default_in (syslinux text) = syslinux_default text
default_in (rpi text) = rpi_default text
default_in nothing = ""

-- GetBootloaderDefault of any boot loader
unfoldable pub bootloader_default : Configs → String
bootloader_default c = default_in (detect_bootloader c)

abbrev pub with_syslinux : Configs → Option String → Option Configs
with_syslinux c none = none
with_syslinux c (some text) = some (record c { syslinux_cfg = some text })

abbrev pub set_in : String → Configs → Detected → Option Configs
set_in path c (grub text) = some (record c { grub_cfg = some (set_grub_default path text) })
set_in path c (syslinux text) = with_syslinux c (set_syslinux_default c.ucodes path text)
set_in path c (rpi text) = some (record c { config_txt = some (set_rpi_default path text) })
set_in path c nothing = none

-- SetBootloaderDefault of any boot loader
unfoldable pub set_bootloader_default : String → Configs → Option Configs
set_bootloader_default path c = set_in path c (detect_bootloader c)

abbrev pub default_id : String → String
default_id path = if str_eq path "" then "" else kernel_basename path

-- pruneGrubFile and pruneSyslinuxFile, of which the one of the boot loader writes
abbrev pub prune_in : String → (String → Bool) → Configs → Detected → Configs
prune_in flavor gone c (grub text) = record c {
  grub_cfg = some (prune_grub_entries text (default_id (grub_default text)) flavor gone);
}
prune_in flavor gone c (syslinux text) = record c {
  syslinux_cfg = some (prune_syslinux_entries text (syslinux_label (scan text).0) flavor gone);
}
prune_in flavor gone c (rpi text) = c
prune_in flavor gone c nothing = c

unfoldable pub prune_bootloader : String → (String → Bool) → Configs → Configs
prune_bootloader flavor gone c = prune_in flavor gone c (detect_bootloader c)

-- The boot loader of the partition.
abbrev pub any_bootloader : Bootloader Configs
any_bootloader = record {
  default_of = bootloader_default;
  set_default = set_bootloader_default;
  prune = prune_bootloader;
}
