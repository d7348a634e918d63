-- ===== src/Disk/Fat.antt =====
-- source/fatfs/diskio.c: the disk that FatFs reads and writes.
use libusbhsfs.Base.{ℕ, ◌%◌, ◌^◌, Bool, Option, none, some, if◌then◌else◌}
use libusbhsfs.Bytes.{Buf}
use libusbhsfs.Cmd.{Cmd, ◌>>=◌, pure}
use libusbhsfs.Scsi.Lun.{LogicalUnitContext}
use libusbhsfs.Disk.{Blocks}

-- RES_OK and RES_PARERR.
pub data DResult : Type 0 where
  res_ok res_parerr : DResult

-- CTRL_SYNC, GET_SECTOR_COUNT, GET_SECTOR_SIZE, and the other control codes.
pub data ControlCode : Type 0 where
  ctrl_sync get_sector_count get_sector_size other_code : ControlCode

abbrev pub result_of : Bool → DResult
result_of ok = if ok then res_ok else res_parerr

unfoldable pub ff_disk_status : ℕ → DResult
ff_disk_status pdrv = res_ok

unfoldable pub ff_disk_initialize : ℕ → DResult
ff_disk_initialize pdrv = res_ok

-- `unit_of` is usbHsFsManagerGetLogicalUnitContextForFatFsDriveNumber(), with the unit's blocks.
module _ {W : Type 0} (unit_of : ℕ → Option (LogicalUnitContext × Blocks W)) where
  unfoldable pub ff_disk_read : ℕ → Buf → ℕ → ℕ → Cmd W (DResult × Buf)
  ff_disk_read pdrv buff sector count = elim (unit_of pdrv) [
    | none ↦ pure (res_parerr, buff)
    | some (l, blocks) ↦ (blocks.read buff sector count >>= λ (ok, b). pure (result_of ok, b))
  ]

  unfoldable pub ff_disk_write : ℕ → Buf → ℕ → ℕ → Cmd W DResult
  ff_disk_write pdrv buff sector count = elim (unit_of pdrv) [
    | none ↦ pure res_parerr
    | some (l, blocks) ↦ (blocks.write buff sector count >>= λ (ok, _). pure (result_of ok))
  ]

  -- The result, and the number that is stored.
  unfoldable pub ff_disk_ioctl : ℕ → ControlCode → DResult × Option ℕ
  ff_disk_ioctl pdrv cmd = elim (unit_of pdrv) [
    | none ↦ (res_parerr, none)
    | some (l, blocks) ↦ elim cmd [
      | ctrl_sync ↦ (res_ok, none)
      | get_sector_count ↦ (res_ok, some l.block_count)
      | get_sector_size ↦ (res_ok, some (l.block_length % 2 ^ 16))
      | other_code ↦ (res_parerr, none)
    ]
  ]
