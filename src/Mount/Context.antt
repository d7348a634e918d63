-- ===== src/Mount/Context.antt =====
-- usbhsfs_drive.h, fatfs/ff.h, ntfs-3g/ntfs.h, ntfs-3g/ntfs_disk_io.h, lwext4/ext.h: the context
-- of a file system and what it owns. A pointer that may be NULL is an option.
use libusbhsfs.Base.{
  ℕ, ◌/◌, ◌%◌, ◌^◌, Bool, true, false, ◌&&◌, List, Option, none, some, ◌==◌, ltb, if◌then◌else◌,
}
use libusbhsfs.Bytes.{Buf}
use libusbhsfs.Usb.{DriveContext}
use libusbhsfs.Scsi.Lun.{LogicalUnitContext, is_valid_logical_unit_context}

-- UsbHsFsDriveLogicalUnitFileSystemType.
abbrev pub fs_invalid : ℕ
fs_invalid = 0

abbrev pub fs_unsupported : ℕ
fs_unsupported = 1

abbrev pub fs_fat : ℕ
fs_fat = 2

abbrev pub fs_ntfs : ℕ
fs_ntfs = 3

abbrev pub fs_ext : ℕ
fs_ext = 4

-- A test of bit `n` of a mask, and the bits of UsbHsFsMountFlags.
abbrev pub has_bit : ℕ → ℕ → Bool
has_bit mask n = mask / 2 ^ n % 2 == 1

abbrev pub read_only : ℕ
read_only = 0

abbrev pub replay_journal : ℕ
replay_journal = 1

abbrev pub ignore_case_sensitivity : ℕ
ignore_case_sensitivity = 2

abbrev pub update_access_times : ℕ
update_access_times = 3

abbrev pub show_hidden_files : ℕ
show_hidden_files = 4

abbrev pub show_system_files : ℕ
show_system_files = 5

abbrev pub ignore_file_read_only_attribute : ℕ
ignore_file_read_only_attribute = 6

abbrev pub ignore_hibernation : ℕ
ignore_hibernation = 7

-- The fields of `FATFS` that the library sets or reads.
pub record FatFs : Type 0 where
  pub ro_flag : Bool
  pub winsect : ℕ
  pub win : Buf
  pub pdrv : ℕ

-- `ntfs_dd`, without the geometry that ntfs_device_io_open() fills in.
pub record NtfsDd : Type 0 where
  pub vbr : Buf
  pub sector_start : ℕ

-- The bits of `flags` in `ntfs_vd`: NTFS_MNT_RDONLY, NTFS_MNT_RECOVER, NTFS_MNT_IGNORE_HIBERFILE.
pub record NtfsFlags : Type 0 where
  pub rdonly : Bool
  pub recover : Bool
  pub ignore_hiberfile : Bool

-- `ntfs_vd`. `has_dev` and `has_vol` tell whether its device and its volume are there.
pub record NtfsVd : Type 0 where
  pub dd : Option NtfsDd
  pub has_dev : Bool
  pub has_vol : Bool
  pub flags : NtfsFlags
  pub id : ℕ
  pub update_times : Bool
  pub ignore_read_only_attr : Bool

-- `ext4_blockdev` with its interface.
pub record BlockDevice : Type 0 where
  pub has_bdif : Bool
  pub has_ph_bbuf : Bool
  pub part_offset : ℕ
  pub part_size : ℕ
  pub ph_bsize : ℕ
  pub ph_bcnt : ℕ

-- `ext_vd`.
pub record ExtVd : Type 0 where
  pub bdev : Option BlockDevice
  pub dev_name : List ℕ
  pub flags : ℕ
  pub id : ℕ
  pub version : ℕ

-- The devoptab interface that a device is a copy of.
pub data Interface : Type 0 where
  ffdev ntfsdev extdev : Interface

pub record FileSystemContext : Type 0 where
  pub fs_idx : ℕ
  pub fs_type : ℕ
  pub flags : ℕ
  pub fatfs : Option FatFs
  pub ntfs : Option NtfsVd
  pub ext : Option ExtVd
  pub device_id : ℕ
  pub name : Option (List ℕ)
  pub cwd : Option (List ℕ)
  pub device : Option Interface

abbrev pub is_some {ℓ} : {A : Type ℓ} → Option A → Bool
is_some none = false
is_some (some a) = true

-- The file system object of the context's own type.
unfoldable pub has_fs_object : FileSystemContext → Bool
has_fs_object c =
    if c.fs_type == fs_fat
    then is_some c.fatfs
    else if c.fs_type == fs_ntfs
    then is_some c.ntfs
    else if c.fs_type == fs_ext
    then is_some c.ext
    else false

-- usbHsFsDriveIsValidLogicalUnitFileSystemContext(), of a context that belongs to the unit.
unfoldable pub is_valid_file_system_context :
    DriveContext → LogicalUnitContext → FileSystemContext → Bool
unfolding is_valid_logical_unit_context has_fs_object
is_valid_file_system_context d l c =
    (is_valid_logical_unit_context d l
      && ltb fs_unsupported c.fs_type
      && is_some c.name
      && is_some c.cwd
      && is_some c.device)
    && has_fs_object c
