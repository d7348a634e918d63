-- ===== src/Mount/Ext.antt =====
-- source/usbhsfs_mount.c: usbHsFsMountRegisterExtVolume() and usbHsFsMountUnregisterExtVolume().
use libusbhsfs.Base.{ℕ, Bool, true, false, not, none, some, if◌then◌else◌}
use libusbhsfs.Usb.{Usb, alloc, free}
use libusbhsfs.Scsi.Lun.{LogicalUnitContext}
use libusbhsfs.Mount.Context.{ExtVd, FileSystemContext, is_some}
use libusbhsfs.Mount.Monad.{Libs, Mnt, ◌>>=◌, ◌>>◌, pure, when, get, io, ext_vd}
use libusbhsfs.Mount.DeviceId.{available_device_id}
use libusbhsfs.Mount.Devoptab.{mount_name, register_devoptab_device}
use libusbhsfs.Mount.ExtDisk.{new_ext_vd, alloc_blockdev, free_blockdev, ext_mount, ext_umount}

module _ {W : Type 0} (usb : Usb W) (libs : Libs W) (l : LogicalUnitContext) where
  -- The end of the function when something went wrong, of a context that has a descriptor `v`.
  unfoldable pub abandon_ext : Bool → ExtVd → FileSystemContext → Mnt W (Bool × FileSystemContext)
  unfolding free free_blockdev
  abandon_ext vol_mounted v c = do
    when vol_mounted (ext_umount usb libs l v)
    elim v.bdev [ none ↦ pure tt | some bdev ↦ free_blockdev usb libs l bdev ]
    io (free usb)
    pure (false, record c { ext = none })

  -- From usbHsFsMountGetAvailableDevoptabDeviceId() on. `v` has its block device.
  unfoldable pub mount_ext_volume : ExtVd → FileSystemContext → Mnt W (Bool × FileSystemContext)
  unfolding abandon_ext available_device_id mount_name
  mount_ext_volume v c = do
    s ← get
    let id = available_device_id s.has_device_ids s.device_ids
    let c1 = record c { device_id = id }
    (mounted, v1) ←
        ext_mount usb libs l (record v { dev_name = mount_name libs id; flags = c.flags; id = id })
    if not mounted then abandon_ext false v1 c1 else do
      (ok, c2) ← register_devoptab_device usb libs (record c1 { ext = some v1 })
      if ok then pure (true, c2) else abandon_ext true v1 c2

  unfoldable pub register_ext_volume : FileSystemContext → ℕ → ℕ → Mnt W (Bool × FileSystemContext)
  unfolding alloc abandon_ext
  register_ext_volume c block_addr block_count = do
    has_vd ← io (alloc usb (libs.sizeof ext_vd))
    if not has_vd then pure (false, record c { ext = none }) else do
      bdev ← alloc_blockdev usb libs l block_addr block_count
      if not (is_some bdev)
          then abandon_ext false new_ext_vd c
          else mount_ext_volume (record new_ext_vd { bdev = bdev }) c

  unfoldable pub unregister_ext_volume : FileSystemContext → Mnt W FileSystemContext
  unfolding free free_blockdev
  unregister_ext_volume c = elim c.ext [
    | none ↦ pure c
    | some v ↦ do
      ext_umount usb libs l v
      elim v.bdev [ none ↦ pure tt | some bdev ↦ free_blockdev usb libs l bdev ]
      io (free usb)
      pure (record c { ext = none })
  ]
