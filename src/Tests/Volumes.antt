-- ===== src/Tests/Volumes.antt =====
-- The registration of volumes at concrete inputs.
use libusbhsfs.Base.{ℕ, ◌+◌, ◌≡◌, refl, true, false, [], ◌∷◌, ◌++◌, some, arith}
use libusbhsfs.Scsi.Lun.{is_valid_logical_unit_context}
use libusbhsfs.Mount.Context.{FileSystemContext, fs_fat}
use libusbhsfs.Mount.DeviceId.{find_available}
use libusbhsfs.Mount.DeviceId.Enough.{IsLeastUnused, find_available-IsLeastUnused}
use libusbhsfs.Mount.Devoptab.{
  register_devoptab_device, get_devoptab_device_count, get_file_system_mount_flags,
  set_file_system_mount_flags,
}
use libusbhsfs.Mount.Fat.{register_fat_volume, mount_fat_volume}
use libusbhsfs.Mount.Outcome.{Restored}
use libusbhsfs.Mount.Volume.{
  register_volume, register_file_system, drop_volume, release_fs_array, destroy_file_system_context,
}
use libusbhsfs.Mount.Volume.Registered.{IsLeft, register_volume-Restored}
use libusbhsfs.Mount.Volume.RoundTrip.{destroy-register_volume}
use libusbhsfs.Tests.Device.{drive, scripted, one_read}
use libusbhsfs.Tests.Libraries.{libraries, no_fat, one_device, started_unit}

find_available-IsLeastUnused_example :
    (r : ℕ) × (find_available true (0 ∷ (2 ∷ (1 ∷ []))) ≡ some r)
    × IsLeastUnused (0 ∷ (2 ∷ (1 ∷ []))) r
find_available-IsLeastUnused_example =
    find_available-IsLeastUnused (0 ∷ (2 ∷ (1 ∷ []))) (omega arith)

first_gap : find_available true (0 ∷ (3 ∷ (1 ∷ []))) ≡ some 2
unfolding find_available
first_gap = refl

refused :
    (register_volume (scripted one_read) no_fat started_unit (λ _. 0) 0 4096 fs_fat one_device).0
    ≡ false
unfolding register_volume register_file_system register_fat_volume mount_fat_volume drop_volume
    release_fs_array
refused = refl

register_volume-Restored_example :
    Restored one_device
      (register_volume (scripted one_read) no_fat started_unit (λ _. 0) 0 4096 fs_fat one_device).1
    × IsLeft
        (scripted one_read)
        no_fat
        started_unit
        (λ _. 0)
        0
        4096
        fs_fat
        one_device
        (register_volume
          (scripted one_read)
          no_fat
          started_unit
          (λ _. 0)
          0
          4096
          fs_fat
          one_device).1.drive
register_volume-Restored_example =
    register_volume-Restored (scripted one_read) no_fat started_unit (λ _. 0) 0 4096 fs_fat
      one_device refl refused

fat_registered :
    (register_volume (scripted one_read) libraries started_unit (λ _. 0) 0 4096 fs_fat one_device).0
    ≡ true
unfolding register_volume register_file_system register_fat_volume mount_fat_volume
    register_devoptab_device
fat_registered = refl

unit_valid : is_valid_logical_unit_context drive started_unit ≡ true
unfolding is_valid_logical_unit_context
unit_valid = refl

destroy-register_volume_example :
    let s' =
      (register_volume
        (scripted one_read)
        libraries
        started_unit
        (λ _. 0)
        0
        4096
        fs_fat
        one_device).1 in
    (c : FileSystemContext) × (s'.fs_ctx ≡ [] ++ (c ∷ []))
    × (let t =
          (destroy_file_system_context (scripted one_read) libraries started_unit drive c s').1 in
        (t.device_ids ≡ 0 ∷ [])
        × (t.has_device_ids ≡ true)
        × (t.fat_volumes ≡ false ∷ (false ∷ []))
        × (t.drive.live ≡ 1 + 1 + 1))
destroy-register_volume_example =
    destroy-register_volume (scripted one_read) libraries drive started_unit (λ _. 0) 0 4096 fs_fat
      one_device refl (omega arith) (λ fatfs pdrv s ok. refl) unit_valid fat_registered

flags_are_kept :
    (get_file_system_mount_flags (set_file_system_mount_flags 5 one_device).1).0
    ≡ (get_devoptab_device_count one_device).0 + 4
unfolding get_file_system_mount_flags set_file_system_mount_flags get_devoptab_device_count
flags_are_kept = refl
