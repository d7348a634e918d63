-- ===== src/Scsi.antt =====
-- source/usbhsfs_scsi.c: SCSI commands over the Bulk-Only Transport.
pub mod Quiet
pub mod Wire
pub mod Cdb
pub mod Transfer
pub mod Stage
pub mod Command
pub mod Send
pub mod Lun
pub mod Blocks
pub mod Unit
pub mod Start
