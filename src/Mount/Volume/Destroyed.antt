-- ===== src/Mount/Volume/Destroyed.antt =====
-- What the destruction of a file system context leaves behind.
use libusbhsfs.Base.{
  ℕ, ◌+◌, ◌-◌, ◌≡◌, ◌≤◌, ap, Bool, true, false, not, ◌||◌, List, none, some, ◌==◌, if◌then◌else◌,
  arith, ltb, inl, inr, Bool-cases, Option-cases, length, set,
}
use libusbhsfs.Usb.{DriveContext, Usb, free}
use libusbhsfs.Scsi.Lun.{LogicalUnitContext}
use libusbhsfs.Mount.Context.{
  FileSystemContext, fs_fat, fs_ntfs, fs_ext, is_valid_file_system_context,
}
use libusbhsfs.Mount.Monad.{MountState, Libs, shrink}
use libusbhsfs.Mount.DeviceId.Least.{member, remove_first}
use libusbhsfs.Mount.Devoptab.{unset_default_devoptab_device, devoptab_invalid_id, is_named, sdmc}
use libusbhsfs.Mount.Fat.{unregister_fat_volume}
use libusbhsfs.Mount.Ntfs.{unregister_ntfs_volume}
use libusbhsfs.Mount.Ext.{unregister_ext_volume}
use libusbhsfs.Mount.ExtDisk.{ext_umount}
use libusbhsfs.Mount.Volume.{
  unmount_file_system, remove_device_id, release_device, destroy_file_system_context,
}
use libusbhsfs.Mount.Outcome.{one_if}
use libusbhsfs.Mount.Outcome.Mounted.{object_blocks, ntfs_blocks, ext_blocks, blockdev_blocks}
use libusbhsfs.Mount.Outcome.ExtMount.{ext_umount-Restored, free_blockdev-Freed}

-- The table of FatFs volumes once a context has given up its slot.
unfoldable pub volumes_without : FileSystemContext → List Bool → List Bool
volumes_without c table =
    if c.fs_type == fs_fat
    then elim c.fatfs [ none ↦ table | some fatfs ↦ set table fatfs.pdrv false ]
    else table

module _ {W : Type 0} (usb : Usb W) (libs : Libs W) (l : LogicalUnitContext) where
  -- The file system object is gone.
  abbrev Unmounted : FileSystemContext → MountState W → MountState W → Type 0
  Unmounted c s s' =
      (s' ≡ record s { drive = s'.drive; fat_volumes = volumes_without c s.fat_volumes })
      × (s'.drive.live ≡ s.drive.live - object_blocks c)

  unregister_fat_volume-Unmounted :
      (c : FileSystemContext) (s : MountState W)
      → c.fs_type ≡ fs_fat
      → Unmounted c s (unregister_fat_volume usb libs l c s).1
  unfolding unregister_fat_volume free volumes_without object_blocks
  unregister_fat_volume-Unmounted c s type = (ground arith, ground arith)

  unregister_ntfs_volume-Unmounted :
      (c : FileSystemContext) (s : MountState W)
      → c.fs_type ≡ fs_ntfs
      → Unmounted c s (unregister_ntfs_volume usb libs l c s).1
  unfolding unregister_ntfs_volume free volumes_without object_blocks ntfs_blocks
  unregister_ntfs_volume-Unmounted c s type = (ground arith, ground arith)

  unregister_ext_volume-Unmounted :
      (c : FileSystemContext) (s : MountState W)
      → c.fs_type ≡ fs_ext
      → Unmounted c s (unregister_ext_volume usb libs l c s).1
  unfolding unregister_ext_volume free volumes_without object_blocks ext_blocks blockdev_blocks
  unregister_ext_volume-Unmounted c s type = elim (Option-cases c.ext) [
    | inl e ↦ (ground arith, ground arith)
    | inr (v, e) ↦
        let s1 = (ext_umount usb libs l v s).1 in
        let umounted = ext_umount-Restored usb libs l v s in
        let state1 : s1 ≡ record s { drive = s1.drive } = umounted.state in
        let live1 : s1.drive.live ≡ s.drive.live = umounted.live in
        elim (Option-cases v.bdev) [
          | inl f ↦ (ground arith, ground arith)
          | inr (b, f) ↦
              let freed = free_blockdev-Freed usb libs l b s1 in (ground arith, ground arith)
        ]
  ]

  unknown_type-Unmounted :
      (c : FileSystemContext) (s : MountState W)
      → (c.fs_type == fs_fat) ≡ false
      → (c.fs_type == fs_ntfs) ≡ false
      → (c.fs_type == fs_ext) ≡ false
      → Unmounted c s s
  unfolding volumes_without object_blocks
  unknown_type-Unmounted c s e f g = (ground arith, ground arith)

  unmount_file_system-Unmounted :
      (c : FileSystemContext) (s : MountState W)
      → Unmounted c s (unmount_file_system usb libs l c s).1
  unfolding unmount_file_system
  unmount_file_system-Unmounted c s = elim (Bool-cases (c.fs_type == fs_fat)) [
    | inl e ↦ rw e (unregister_fat_volume-Unmounted c s (ground arith))
    | inr e ↦ elim (Bool-cases (c.fs_type == fs_ntfs)) [
      | inl f ↦ rw (e, f) (unregister_ntfs_volume-Unmounted c s (ground arith))
      | inr f ↦ elim (Bool-cases (c.fs_type == fs_ext)) [
        | inl g ↦ rw (e, f, g) (unregister_ext_volume-Unmounted c s (ground arith))
        | inr g ↦ rw (e, f, g) (unknown_type-Unmounted c s e f g)
      ]
    ]
  ]

  -- The state once the device with this id is no default device: if its id is the noted one, none is
  -- noted any more, and if the library says that it is the default device, that of "sdmc:" is it.
  abbrev pub undefaulted : ℕ → MountState W → MountState W
  undefaulted id s =
      let w = s.drive.world in
      if s.default_device_id == devoptab_invalid_id || not (s.default_device_id == id)
      then s
      else record s {
        default_device_id = devoptab_invalid_id;
        drive = record s.drive {
          world =
              if is_named libs id (libs.default_device_name w)
              then libs.set_default_device (libs.find_device sdmc w) w
              else w;
        };
      }

  -- A valid context was destroyed: its device was made no default device before it was released and
  -- the volume unmounted, its id is free again and no longer the default one, its slot of
  -- FatFs is free, and the blocks that it owned are freed; the unit's array is left to the caller.
  pub record Destroyed (c : FileSystemContext) (s s' : MountState W) : Type 0 where
    pub device_ids : s'.device_ids ≡ remove_first c.device_id s.device_ids
    pub has_device_ids : s'.has_device_ids ≡ ltb 1 (length s.device_ids)
    pub not_default :
        s'.default_device_id
        ≡ (if s.default_device_id == c.device_id then devoptab_invalid_id else s.default_device_id)
    pub fat_volumes : s'.fat_volumes ≡ volumes_without c s.fat_volumes
    pub fs_ctx : s'.fs_ctx ≡ s.fs_ctx
    pub reset :
        s'
        ≡ (unmount_file_system usb libs l
            (record c { device = none; cwd = none; name = none })
            (release_device usb libs l c (undefaulted c.device_id s)).1).1
    pub live :
        s'.drive.live + 3 + object_blocks c + one_if (not (ltb 1 (length s.device_ids)))
        ≡ s.drive.live

  unset_default-State :
      (id : ℕ) (s : MountState W)
      → ((unset_default_devoptab_device usb libs id s).1 ≡ record s {
        drive = (unset_default_devoptab_device usb libs id s).1.drive;
        default_device_id =
            if s.default_device_id == id then devoptab_invalid_id else s.default_device_id;
      })
        × ((unset_default_devoptab_device usb libs id s).1.drive.live ≡ s.drive.live)
  unfolding unset_default_devoptab_device
  unset_default-State id s = (ground arith, ground arith)

  unset_default-undefaulted :
      (id : ℕ) (s : MountState W)
      → (unset_default_devoptab_device usb libs id s).1 ≡ undefaulted id s
  unfolding unset_default_devoptab_device
  unset_default-undefaulted id s = ground arith

  release_device-State :
      (c : FileSystemContext) (s : MountState W)
      → member c.device_id s.device_ids ≡ true
      → s.has_device_ids ≡ true
      → ((release_device usb libs l c s).1 ≡ record s {
        drive = (release_device usb libs l c s).1.drive;
        has_device_ids = ltb 1 (length s.device_ids);
        device_ids = remove_first c.device_id s.device_ids;
      })
        × ((release_device usb libs l c s).1.drive.live
            ≡ s.drive.live - (3 + one_if (not (ltb 1 (length s.device_ids)))))
  unfolding release_device remove_device_id free shrink
  release_device-State c s used has_ids = (ground arith, ground arith)

  -- The destruction of a valid context takes its id out of the array of ids, which is freed with the
  -- last one, gives up its slot of a FAT volume, and frees its device, its object and no other block,
  -- if its id is in use and these blocks are allocated. Before its device is released and the volume
  -- unmounted, the device of "sdmc:" is made the default one, if the context's id is noted as that of
  -- the default device and the name of the library's default device has this id, and its id is no
  -- longer noted.
  pub destroy_file_system_context-Destroyed :
      (d : DriveContext) (c : FileSystemContext) (s : MountState W)
      → is_valid_file_system_context d l c ≡ true
      → member c.device_id s.device_ids ≡ true
      → s.has_device_ids ≡ true
      → 3 + object_blocks c + one_if (not (ltb 1 (length s.device_ids))) ≤ s.drive.live
      → Destroyed c s (destroy_file_system_context usb libs l d c s).1
  unfolding destroy_file_system_context object_blocks volumes_without
  destroy_file_system_context-Destroyed d c s valid used has_ids owned =
      let s1 = (unset_default_devoptab_device usb libs c.device_id s).1 in
      let (state1, live1) = unset_default-State c.device_id s in
      let used1 : member c.device_id s1.device_ids ≡ true = ground arith in
      let has_ids1 : s1.has_device_ids ≡ true = ground arith in
      let s2 = (release_device usb libs l c s1).1 in
      let (state2, live2) = release_device-State c s1 used1 has_ids1 in
      let bare = record c { device = none; cwd = none; name = none } in
      let (state3, live3) = unmount_file_system-Unmounted bare s2 in
      record {
        device_ids = ground arith;
        has_device_ids = ground arith;
        not_default = ground arith;
        fat_volumes = ground arith;
        fs_ctx = ground arith;
        reset = rw valid (
            ap (λ s1'. (unmount_file_system usb libs l bare (release_device usb libs l c s1').1).1)
              (unset_default-undefaulted c.device_id s));
        live = ground arith;
      }
