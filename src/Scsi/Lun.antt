-- ===== src/Scsi/Lun.antt =====
-- source/usbhsfs_drive.h: the context of a logical unit, as far as SCSI commands fill or read it.
use libusbhsfs.Base.{ℕ, Bool, not, ◌&&◌, List, ◌==◌, ltb}
use libusbhsfs.Usb.{DriveContext, is_valid_context}
use libusbhsfs.Packets.{ums_max_lun}

pub record LogicalUnitContext : Type 0 where
  pub lun : ℕ
  pub removable : Bool
  pub eject_supported : Bool
  pub write_protect : Bool
  pub fua_supported : Bool
  pub vendor_id : List ℕ
  pub product_id : List ℕ
  pub serial_number : List ℕ
  pub long_lba : Bool
  pub block_count : ℕ
  pub block_length : ℕ
  pub capacity : ℕ

-- usbHsFsDriveIsValidLogicalUnitContext(), of a context that belongs to the drive.
unfoldable pub is_valid_logical_unit_context : DriveContext → LogicalUnitContext → Bool
unfolding is_valid_context
is_valid_logical_unit_context d l =
    is_valid_context d
    && ltb l.lun ums_max_lun
    && not (l.block_count == 0)
    && not (l.block_length == 0)
    && not (l.capacity == 0)
