-- ===== src/Tests/Managers.antt =====
-- The list of drives at concrete inputs.
use libusbhsfs.Base.{ℕ, ◌≡◌, refl, true, [], ◌∷◌, none, some, arith, leb, if◌then◌else◌, take}
use libusbhsfs.Usb.{success}
use libusbhsfs.Mount.Context.{FileSystemContext, fs_ntfs}
use libusbhsfs.Drive.Context.Returns.{Surely}
use libusbhsfs.Manager.{ManagedDrive, DriveList, populate_device_list}
use libusbhsfs.Manager.Drives.{Queries, update_drive_contexts}
use libusbhsfs.Manager.Removed.{IsUpdated, update_drive_contexts-surviving}
use libusbhsfs.Manager.Listed.{all_devices, populate_device_list-all_devices}
use libusbhsfs.Tests.Device.{Script}
use libusbhsfs.Tests.Libraries.{no_volumes, started_unit}
use libusbhsfs.Tests.Sessions.{host, empty_drive}

abbrev volume : ℕ → FileSystemContext
volume i = record {
  fs_idx = i;
  fs_type = fs_ntfs;
  flags = 0;
  fatfs = none;
  ntfs = none;
  ext = none;
  device_id = i;
  name = some [];
  cwd = none;
  device = none;
}

-- A drive with one unit of two volumes.
abbrev drive_on : ℕ → ManagedDrive
drive_on id = record {
  usb_if_id = id;
  drive = record empty_drive {
    lun_ctx = some (
        record { lun_ctx = started_unit; has_fs_ctx = true; fs_ctx = volume 0 ∷ (volume 1 ∷ []) }
        ∷ []);
  };
}

abbrev two_drives : DriveList
two_drives = record { has_drives = true; drives = drive_on 3 ∷ (drive_on 4 ∷ []) }

-- The interface 4 is still acquired.
abbrev queries : Queries Script
queries = record {
  acquired = λ w. ((success, 4 ∷ []), w);
  available = λ w. ((success, []), w);
  empty_drive = empty_drive;
  drive_size = 0x100;
}

update_drive_contexts-surviving_example :
    Surely
      (IsUpdated (4 ∷ []) two_drives)
      (update_drive_contexts host queries true two_drives no_volumes)
update_drive_contexts-surviving_example =
    update_drive_contexts-surviving host queries two_drives (4 ∷ []) no_volumes refl refl

populate_device_list-all_devices_example :
    populate_device_list (λ fatfs. 1) 4 3 two_drives.drives
    ≡ take (if leb 3 4 then 3 else 4) (all_devices (λ fatfs. 1) two_drives.drives)
populate_device_list-all_devices_example =
    populate_device_list-all_devices (λ fatfs. 1) 4 3 two_drives.drives (omega arith) (omega arith)
