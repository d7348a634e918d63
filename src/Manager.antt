-- ===== src/Manager.antt =====
-- source/usbhsfs_manager.c, include/usbhsfs.h: the list of drives, without SX OS: listing, adding,
-- removing and unmounting devices.
pub mod Drives
pub mod Listed
pub mod Removed
pub mod Surviving
use libusbhsfs.Base.{
  ℕ, zero, suc, ◌+◌, ◌-◌, ◌*◌, Bool, true, false, not, ◌&&◌, ◌||◌, List, [], ◌∷◌, ◌++◌, Option,
  none, some, ◌==◌, ltb, leb, if◌then◌else◌, length, get_elem?, take,
}
use libusbhsfs.Usb.{Result, failed, alloc, free, service}
use libusbhsfs.Scsi.Lun.{LogicalUnitContext}
use libusbhsfs.Mount.Context.{FatFs, FileSystemContext, fs_fat, fs_ntfs, fs_ext}
use libusbhsfs.Mount.DeviceId.Least.{member}
use libusbhsfs.Mount.Devoptab.{get_devoptab_device_count}
use libusbhsfs.Mount.Fat.{ff_volumes}
use libusbhsfs.Mount.Monad.{MountState, io}
use libusbhsfs.Mount.Probe.{Probe, ◌>>=◌, ◌>>◌, pure, mnt}
use libusbhsfs.Drive.Interface.{Interface, interface_protocol, bulk_only_transport}
use libusbhsfs.Drive.Units.{StoredUnit}
use libusbhsfs.Drive.Context.{Drive, Host, destroy_context, initialize_context}

-- A drive with the id of its USB interface.
pub record ManagedDrive : Type 0 where
  pub usb_if_id : ℕ
  pub drive : Drive

-- g_driveContexts and g_driveCount: whether the array is allocated, and its entries.
pub record DriveList : Type 0 where
  pub has_drives : Bool
  pub drives : List ManagedDrive

-- `UsbHsFsDevice`.
pub record Device : Type 0 where
  pub usb_if_id : ℕ
  pub lun : ℕ
  pub fs_idx : ℕ
  pub write_protect : Bool
  pub vid : ℕ
  pub pid : ℕ
  pub manufacturer : List ℕ
  pub product_name : List ℕ
  pub serial_number : List ℕ
  pub capacity : ℕ
  pub name : List ℕ
  pub fs_type : ℕ
  pub flags : ℕ

-- MAX_USB_INTERFACES.
abbrev pub max_usb_interfaces : ℕ
max_usb_interfaces = 0x20

-- UsbHsFsDeviceFileSystemType_Invalid and _NTFS.
abbrev pub device_type_invalid : ℕ
device_type_invalid = 0

abbrev pub device_type_ntfs : ℕ
device_type_ntfs = 5

-- snprintf() into 64 bytes of the unit's string, or of the drive's if that is empty.
unfoldable pub device_string : List ℕ → Option (List ℕ) → List ℕ
device_string (x ∷ xs) of_drive = take 63 (x ∷ xs)
device_string [] none = []
device_string [] (some str) = take 63 str

-- `fat_type` is the field fs_type of FATFS, which FatFs sets.
unfoldable pub device_fs_type : (FatFs → ℕ) → FileSystemContext → ℕ
device_fs_type fat_type c =
    if c.fs_type == fs_fat
    then elim c.fatfs [ none ↦ device_type_invalid | some fatfs ↦ fat_type fatfs ]
    else if c.fs_type == fs_ntfs
    then device_type_ntfs
    else if c.fs_type == fs_ext
    then elim c.ext [ none ↦ device_type_invalid | some vd ↦ vd.version ]
    else device_type_invalid

unfoldable pub fill_device_element :
    (FatFs → ℕ) → ManagedDrive → LogicalUnitContext → FileSystemContext → Device
unfolding device_string device_fs_type
fill_device_element fat_type m l c = record {
  usb_if_id = m.usb_if_id;
  lun = l.lun;
  fs_idx = c.fs_idx;
  write_protect = l.write_protect;
  vid = m.drive.vid;
  pid = m.drive.pid;
  manufacturer = device_string l.vendor_id m.drive.manufacturer;
  product_name = device_string l.product_id m.drive.product_name;
  serial_number = device_string l.serial_number m.drive.serial_number;
  capacity = l.capacity;
  name = elim c.name [ none ↦ [] | some name ↦ name ] ++ (0x3a ∷ []);
  fs_type = device_fs_type fat_type c;
  flags = c.flags;
}

-- The units of a drive.
abbrev pub units_of : ManagedDrive → List StoredUnit
units_of m = elim m.drive.lun_ctx [ none ↦ [] | some us ↦ us ]

-- The three loops of usbHsFsPopulateDeviceList(), which has `ret` elements so far: the elements that
-- they add, and whether a limit was reached.
module _ (fat_type : FatFs → ℕ) (device_count max_count : ℕ) where
  unfoldable pub populate_file_systems :
      ManagedDrive → LogicalUnitContext → List FileSystemContext → ℕ → List Device × Bool
  populate_file_systems m l [] ret = ([], false)
  populate_file_systems m l (c ∷ cs) ret =
      let device = fill_device_element fat_type m l c in
      let rest = populate_file_systems m l cs (suc ret) in
      if leb max_count (suc ret) || leb device_count (suc ret)
      then (device ∷ [], true)
      else (device ∷ rest.0, rest.1)

  unfoldable pub populate_units : ManagedDrive → List StoredUnit → ℕ → List Device × Bool
  populate_units m [] ret = ([], false)
  populate_units m (u ∷ us) ret =
      let here = populate_file_systems m u.lun_ctx u.fs_ctx ret in
      let rest = populate_units m us (ret + length here.0) in
      if here.1 then here else (here.0 ++ rest.0, rest.1)

  unfoldable pub populate_drives : List ManagedDrive → ℕ → List Device × Bool
  populate_drives [] ret = ([], false)
  populate_drives (m ∷ ms) ret =
      let here = populate_units m (units_of m) ret in
      let rest = populate_drives ms (ret + length here.0) in
      if here.1 then here else (here.0 ++ rest.0, rest.1)

  unfoldable pub populate_device_list : List ManagedDrive → List Device
  populate_device_list drives = (populate_drives drives 0).0

-- usbHsFsManagerGetLogicalUnitContextForFatFsDriveNumber().
abbrev pub is_fat_volume : ℕ → FileSystemContext → Bool
is_fat_volume pdrv c =
    (c.fs_type == fs_fat) && elim c.fatfs [ none ↦ false | some fatfs ↦ fatfs.pdrv == pdrv ]

unfoldable pub has_fat_volume : ℕ → List FileSystemContext → Bool
has_fat_volume pdrv [] = false
has_fat_volume pdrv (c ∷ cs) = is_fat_volume pdrv c || has_fat_volume pdrv cs

unfoldable pub find_fat_unit : ℕ → List StoredUnit → Option LogicalUnitContext
unfolding has_fat_volume
find_fat_unit pdrv [] = none
find_fat_unit pdrv (u ∷ us) =
    let rest = find_fat_unit pdrv us in
    if has_fat_volume pdrv u.fs_ctx then some u.lun_ctx else rest

unfoldable pub find_fat_drive : ℕ → List ManagedDrive → Option LogicalUnitContext
unfolding find_fat_unit
find_fat_drive pdrv [] = none
find_fat_drive pdrv (m ∷ ms) = elim (find_fat_unit pdrv (units_of m)) [
  | some l ↦ some l
  | none ↦ find_fat_drive pdrv ms
]

unfoldable pub get_logical_unit_context_for_fat_fs_drive_number :
    DriveList → ℕ → Option LogicalUnitContext
unfolding find_fat_drive
get_logical_unit_context_for_fat_fs_drive_number list pdrv =
    if not list.has_drives || leb ff_volumes pdrv then none else find_fat_drive pdrv list.drives
