-- ===== src/Mount/Ntfs.antt =====
-- source/usbhsfs_mount.c: usbHsFsMountRegisterNtfsVolume() and usbHsFsMountUnregisterNtfsVolume().
use libusbhsfs.Base.{ℕ, Bool, true, false, not, ◌||◌, none, some, if◌then◌else◌}
use libusbhsfs.Bytes.{Buf, memcpy}
use libusbhsfs.Usb.{Usb, alloc, free}
use libusbhsfs.Scsi.Lun.{LogicalUnitContext}
use libusbhsfs.Mount.Context.{
  NtfsVd, NtfsFlags, FileSystemContext, has_bit, is_some, read_only, replay_journal,
  ignore_case_sensitivity, update_access_times, show_hidden_files, show_system_files,
  ignore_file_read_only_attribute, ignore_hibernation,
}
use libusbhsfs.Mount.Monad.{Libs, Mnt, ◌>>=◌, ◌>>◌, pure, when, get, io, extern, ntfs_vd, ntfs_dd}
use libusbhsfs.Mount.DeviceId.{available_device_id}
use libusbhsfs.Mount.Devoptab.{mount_name, register_devoptab_device}

abbrev pub no_flags : NtfsFlags
no_flags = record { rdonly = false; recover = false; ignore_hiberfile = false }

-- What calloc() gives.
abbrev pub new_ntfs_vd : NtfsVd
new_ntfs_vd = record {
  dd = none;
  has_dev = false;
  has_vol = false;
  flags = no_flags;
  id = 0;
  update_times = false;
  ignore_read_only_attr = false;
}

-- The descriptors of a volume about to be mounted.
unfoldable pub setup_ntfs_vd : LogicalUnitContext → ℕ → ℕ → Buf → ℕ → NtfsVd → NtfsVd
unfolding memcpy
setup_ntfs_vd l mask device_id block block_addr v = record v {
  dd = some (record { vbr = memcpy (λ _. 0) 0 block 512; sector_start = block_addr });
  id = device_id;
  update_times = has_bit mask update_access_times;
  ignore_read_only_attr = has_bit mask ignore_file_read_only_attribute;
  flags = record {
    rdonly = has_bit mask read_only || l.write_protect;
    recover = has_bit mask replay_journal;
    ignore_hiberfile = has_bit mask ignore_hibernation;
  };
}

module _ {W : Type 0} (usb : Usb W) (libs : Libs W) (l : LogicalUnitContext) where
  -- The end of the function when something went wrong, of a context that has a descriptor `v`.
  unfoldable pub abandon_ntfs : NtfsVd → FileSystemContext → Mnt W (Bool × FileSystemContext)
  unfolding free
  abandon_ntfs v c = do
    when v.has_vol (extern (libs.ntfs_umount v))
    when (not v.has_vol) (when v.has_dev (extern (libs.ntfs_device_free v)))
    when (is_some v.dd) (io (free usb))
    io (free usb)
    pure (false, record c { ntfs = none })

  -- From ntfs_create_lru_caches() on: whether the free space could be read.
  unfoldable pub prepare_ntfs : NtfsVd → FileSystemContext → Mnt W Bool
  prepare_ntfs v c = do
    extern (libs.ntfs_create_lru_caches v)
    when (has_bit c.flags ignore_case_sensitivity) (extern (libs.ntfs_set_ignore_case v))
    extern (
        libs.ntfs_set_shown_files v (has_bit c.flags show_system_files)
          (has_bit c.flags show_hidden_files))
    extern (libs.ntfs_volume_get_free_space v)

  unfoldable pub finish_ntfs : NtfsVd → FileSystemContext → Mnt W (Bool × FileSystemContext)
  unfolding abandon_ntfs
  finish_ntfs v c = do
    has_free_space ← prepare_ntfs v c
    if not has_free_space then abandon_ntfs v c else do
      (ok, c') ← register_devoptab_device usb libs (record c { ntfs = some v })
      if ok then pure (true, c') else abandon_ntfs v c'

  -- From ntfs_device_alloc() on. `v` has its device descriptor.
  unfoldable pub mount_ntfs_volume :
      NtfsVd → FileSystemContext → Buf → ℕ → Mnt W (Bool × FileSystemContext)
  unfolding abandon_ntfs setup_ntfs_vd available_device_id mount_name
  mount_ntfs_volume v c block block_addr = do
    s ← get
    let id = available_device_id s.has_device_ids s.device_ids
    let c1 = record c { device_id = id }
    has_dev ← extern (libs.ntfs_device_alloc (mount_name libs id) v)
    if not has_dev then abandon_ntfs v c1 else do
      let v1 = setup_ntfs_vd l c.flags id block block_addr (record v { has_dev = true })
      has_vol ← extern (libs.ntfs_device_mount v1)
      if not has_vol then abandon_ntfs v1 c1 else finish_ntfs (record v1 { has_vol = true }) c1

  unfoldable pub register_ntfs_volume :
      FileSystemContext → Buf → ℕ → Mnt W (Bool × FileSystemContext)
  unfolding alloc abandon_ntfs
  register_ntfs_volume c block block_addr = do
    has_vd ← io (alloc usb (libs.sizeof ntfs_vd))
    if not has_vd then pure (false, record c { ntfs = none }) else do
      has_dd ← io (alloc usb (libs.sizeof ntfs_dd))
      if not has_dd
          then abandon_ntfs new_ntfs_vd c
          else mount_ntfs_volume
              (record new_ntfs_vd { dd = some (record { vbr = λ _. 0; sector_start = 0 }) }) c block
              block_addr

  unfoldable pub unregister_ntfs_volume : FileSystemContext → Mnt W FileSystemContext
  unfolding free
  unregister_ntfs_volume c = elim c.ntfs [
    | none ↦ pure c
    | some v ↦ do
      extern (libs.ntfs_umount v)
      when (is_some v.dd) (io (free usb))
      io (free usb)
      pure (record c { ntfs = none })
  ]
