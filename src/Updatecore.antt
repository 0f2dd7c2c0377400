-- ===== src/Updatecore.antt =====
-- internal/updatecore: the names of the releases, their index, and the store on the boot partition.
pub mod Versions
pub mod Index
pub mod Store
pub mod Purge
pub mod Bootloader
pub mod Partition
