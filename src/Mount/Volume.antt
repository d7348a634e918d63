-- ===== src/Mount/Volume.antt =====
-- source/usbhsfs_mount.c: usbHsFsMountRegisterVolume() and
-- usbHsFsMountDestroyLogicalUnitFileSystemContext().
pub mod Registered
pub mod Destroyed
pub mod Slot
pub mod RoundTrip
pub mod Sound
use libusbhsfs.Base.{
  ℕ, ◌+◌, ◌-◌, ◌*◌, Bool, true, false, not, List, [], ◌∷◌, ◌++◌, Option, none, some, ◌==◌, ltb,
  if◌then◌else◌, length, set, take,
}
use libusbhsfs.Bytes.{Buf}
use libusbhsfs.Usb.{DriveContext, Usb, alloc, free}
use libusbhsfs.Scsi.Lun.{LogicalUnitContext}
use libusbhsfs.Mount.Context.{
  FileSystemContext, fs_fat, fs_ntfs, fs_ext, is_valid_file_system_context,
}
use libusbhsfs.Mount.Monad.{
  MountState, Libs, Mnt, ◌>>=◌, ◌>>◌, pure, get, put, io, world, grow, shrink, file_system_context,
}
use libusbhsfs.Mount.DeviceId.Least.{member, remove_first}
use libusbhsfs.Mount.Devoptab.{with_colon, unset_default_devoptab_device}
use libusbhsfs.Mount.Fat.{register_fat_volume, unregister_fat_volume}
use libusbhsfs.Mount.Ntfs.{register_ntfs_volume, unregister_ntfs_volume}
use libusbhsfs.Mount.Ext.{register_ext_volume, unregister_ext_volume}

-- The context from calloc(), with its properties set.
unfoldable pub new_context : ℕ → ℕ → ℕ → FileSystemContext
new_context fs_idx fs_type flags = record {
  fs_idx = fs_idx;
  fs_type = fs_type;
  flags = flags;
  fatfs = none;
  ntfs = none;
  ext = none;
  device_id = 0;
  name = none;
  cwd = none;
  device = none;
}

module _ {W : Type 0} (usb : Usb W) (libs : Libs W) (l : LogicalUnitContext) where
  unfoldable pub register_file_system :
      FileSystemContext → Buf → ℕ → ℕ → Mnt W (Bool × FileSystemContext)
  register_file_system c block block_addr block_count =
      if c.fs_type == fs_fat
      then register_fat_volume usb libs l c block block_addr
      else if c.fs_type == fs_ntfs
      then register_ntfs_volume usb libs l c block block_addr
      else if c.fs_type == fs_ext
      then register_ext_volume usb libs l c block_addr block_count
      else pure (false, c)

  -- The end of the function when something went wrong: the array of contexts.
  unfoldable pub release_fs_array : Mnt W Bool
  unfolding free shrink
  release_fs_array = do
    s ← get
    if length s.fs_ctx == 0
        then io (free usb) >> put (λ s. record s { has_fs_ctx = false }) >> pure false
        else (shrink usb (length s.fs_ctx * 8) >>= λ _. pure false)

  -- And the last context.
  unfoldable pub drop_volume : Mnt W Bool
  unfolding free
  drop_volume = do
    io (free usb)
    put λ s. record s { fs_ctx = take (length s.fs_ctx - 1) s.fs_ctx }
    release_fs_array

  unfoldable pub register_volume : Buf → ℕ → ℕ → ℕ → Mnt W Bool
  unfolding grow alloc new_context
  register_volume block block_addr block_count fs_type = do
    s ← get
    has_array ← grow usb s.has_fs_ctx ((length s.fs_ctx + 1) * 8)
    if not has_array then pure false else do
      put λ s. record s { has_fs_ctx = true }
      has_context ← io (alloc usb (libs.sizeof file_system_context))
      if not has_context then release_fs_array else do
        let c = new_context (length s.fs_ctx) fs_type s.mount_flags
        put λ s. record s { fs_ctx = s.fs_ctx ++ (c ∷ []) }
        (ret, c') ← register_file_system c block block_addr block_count
        if ret
            then put (λ s'. record s' { fs_ctx = set s'.fs_ctx (length s.fs_ctx) c' }) >> pure true
            else drop_volume

  -- The id is taken out of the array of ids, and the array of one id is freed.
  unfoldable pub remove_device_id : ℕ → Mnt W (Unit {0})
  unfolding shrink free
  remove_device_id id = do
    s ← get
    if not (member id s.device_ids) then pure tt else do
      put λ s. record s { device_ids = remove_first id s.device_ids }
      if ltb 1 (length s.device_ids)
          then (shrink usb ((length s.device_ids - 1) * 4) >>= λ _. pure tt)
          else io (free usb) >> put (λ s. record s { has_device_ids = false })

  unfoldable pub unmount_file_system : FileSystemContext → Mnt W FileSystemContext
  unmount_file_system c =
      if c.fs_type == fs_fat
      then unregister_fat_volume usb libs l c
      else if c.fs_type == fs_ntfs
      then unregister_ntfs_volume usb libs l c
      else if c.fs_type == fs_ext
      then unregister_ext_volume usb libs l c
      else pure c

  -- The devoptab device of a context: its table entry, its three blocks, its id.
  unfoldable pub release_device : FileSystemContext → Mnt W (Unit {0})
  unfolding free
  release_device c = do
    world (libs.remove_device (with_colon (elim c.name [ none ↦ [] | some name ↦ name ])))
    io (free usb)
    io (free usb)
    io (free usb)
    remove_device_id c.device_id

  unfoldable pub destroy_file_system_context :
      DriveContext → FileSystemContext → Mnt W FileSystemContext
  destroy_file_system_context d c = if not (is_valid_file_system_context d l c) then pure c else do
    unset_default_devoptab_device usb libs c.device_id
    release_device c
    unmount_file_system (record c { device = none; cwd = none; name = none })
