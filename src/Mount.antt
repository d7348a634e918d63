-- ===== src/Mount.antt =====
-- source/usbhsfs_mount.c: the volumes of a logical unit, their devoptab devices, and the partition
-- tables they are found by.
pub mod Context
pub mod Monad
pub mod DeviceId
pub mod Devoptab
pub mod Fat
pub mod Ntfs
pub mod Ext
pub mod ExtDisk
pub mod Volume
pub mod Probe
pub mod BootRecord
pub mod Table
pub mod Gpt
pub mod Start
pub mod Outcome
pub mod Kept
