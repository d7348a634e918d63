-- ===== src/Mount/Outcome/OfFat.antt =====
-- What the registration of a FAT volume leaves behind.
use libusbhsfs.Base.{
  ℕ, suc, ◌-◌, ◌≡◌, refl, sym, subst, true, false, some, arith, Option-cases, inl, inr,
}
use libusbhsfs.Bytes.{Buf}
use libusbhsfs.Usb.{Usb, alloc, free}
use libusbhsfs.Scsi.Lun.{LogicalUnitContext}
use libusbhsfs.Mount.Context.{FileSystemContext, FatFs, fs_fat, has_fs_object}
use libusbhsfs.Mount.Monad.{MountState, Libs, extern, io, fat_fs}
use libusbhsfs.Mount.Devoptab.{register_devoptab_device}
use libusbhsfs.Mount.Fat.{
  free_volume, mount_fat_volume, register_fat_volume, volume_name, new_fatfs,
}
use libusbhsfs.Mount.Outcome.{
  Restored, NoDevice, register_devoptab_device-Restored, register_devoptab_device-HasDevice,
}
use libusbhsfs.Mount.Outcome.Mounted.{
  Mounted, IsNew, object_blocks, ntfs_blocks, ext_blocks, volumes_with, Mounted-drive,
}

module _ {W : Type 0} (usb : Usb W) (libs : Libs W) (l : LogicalUnitContext) where
  -- The context and the state in which the devoptab device is registered.
  abbrev mounted_object : ℕ → FatFs → MountState W → FatFs
  mounted_object pdrv fatfs s = (libs.ff_mount fatfs (volume_name libs pdrv) s.drive).0.1

  abbrev after_ff_mount : ℕ → FatFs → MountState W → MountState W
  after_ff_mount pdrv fatfs s = (extern (libs.ff_mount fatfs (volume_name libs pdrv)) s).1

  mount_fat_volume-Restored :
      (pdrv : ℕ) (c : FileSystemContext) (fatfs : FatFs) (s : MountState W)
      → NoDevice c
      → (mount_fat_volume usb libs l pdrv c fatfs s).0.0 ≡ false
      → ((mount_fat_volume usb libs l pdrv c fatfs s).1
          ≡ record s { drive = (mount_fat_volume usb libs l pdrv c fatfs s).1.drive })
        × ((mount_fat_volume usb libs l pdrv c fatfs s).1.drive.live ≡ s.drive.live - 1)
  unfolding mount_fat_volume free
  mount_fat_volume-Restored pdrv c fatfs s fresh failed =
      let c2 = record c { fatfs = some (mounted_object pdrv fatfs s) } in
      let s2 = after_ff_mount pdrv fatfs s in
      let restored =
        register_devoptab_device-Restored usb libs c2 s2
          (record { name = fresh.name; cwd = fresh.cwd; device = fresh.device }) in
      let r = register_devoptab_device usb libs c2 s2 in
      let state : r.0.0 ≡ false → r.1 ≡ record s2 { drive = r.1.drive } = λ f. (restored f).state in
      let live : r.0.0 ≡ false → r.1.drive.live ≡ s.drive.live = λ f. (restored f).live in
      (ground arith, ground arith)

  -- The object is the only one of a context that was new.
  mount_fat_volume-Mounted :
      (pdrv : ℕ) (c : FileSystemContext) (fatfs : FatFs) (s : MountState W) (base : ℕ)
      → IsNew c
      → s.drive.live ≡ suc base
      → c.fs_type ≡ fs_fat
      → free_volume 0 s.fat_volumes ≡ some pdrv
      → (mount_fat_volume usb libs l pdrv c fatfs s).0.0 ≡ true
      → Mounted libs
          (record s { drive = record s.drive { live = base } })
          (mount_fat_volume usb libs l pdrv c fatfs s).1
          c
          (mount_fat_volume usb libs l pdrv c fatfs s).0.1
  unfolding mount_fat_volume free object_blocks ntfs_blocks ext_blocks volumes_with has_fs_object
  mount_fat_volume-Mounted pdrv c fatfs s base new above type slot ok =
      let c2 = record c { fatfs = some (mounted_object pdrv fatfs s) } in
      let s2 = after_ff_mount pdrv fatfs s in
      let r = register_devoptab_device usb libs c2 s2 in
      let registered : r.0.0 ≡ true = ground arith in
      let h = register_devoptab_device-HasDevice usb libs c2 s2 registered in
      record {
        fs_idx = ground arith;
        fs_type = ground arith;
        device_id = ground arith;
        name = ground arith;
        cwd = ground arith;
        device = ground arith;
        interface = ground arith;
        object = ground arith;
        has_slot = λ notes _. record {
          slot = pdrv;
          free = slot;
          object = mounted_object pdrv fatfs s;
          here = ground arith;
          noted = notes fatfs pdrv s.drive (ground arith);
        };
        state = ground arith;
        live = ground arith;
      }

  module _ (c : FileSystemContext) (block : Buf) (block_addr : ℕ) (s : MountState W)
      (new : IsNew c) where
    pub register_fat_volume-Restored :
        (register_fat_volume usb libs l c block block_addr s).0.0 ≡ false
        → Restored s (register_fat_volume usb libs l c block block_addr s).1
    unfolding register_fat_volume alloc free_volume
    register_fat_volume-Restored failed = elim (Option-cases (free_volume 0 s.fat_volumes)) [
      | inl e ↦ record { state = ground arith; live = ground arith }
      | inr (pdrv, e) ↦
          let fatfs = new_fatfs l c.flags block block_addr in
          let s1 = (io (alloc usb (libs.sizeof fat_fs)) s).1 in
          let rule = mount_fat_volume-Restored pdrv c fatfs s1 new.no_device in
          let m = mount_fat_volume usb libs l pdrv c fatfs s1 in
          let state : m.0.0 ≡ false → m.1 ≡ record s1 { drive = m.1.drive } = λ f. (rule f).0 in
          let live : m.0.0 ≡ false → m.1.drive.live ≡ s1.drive.live - 1 = λ f. (rule f).1 in
          record { state = ground arith; live = ground arith }
    ]

    pub register_fat_volume-Mounted :
        c.fs_type ≡ fs_fat
        → (register_fat_volume usb libs l c block block_addr s).0.0 ≡ true
        → Mounted libs s
            (register_fat_volume usb libs l c block block_addr s).1
            c
            (register_fat_volume usb libs l c block block_addr s).0.1
    unfolding register_fat_volume alloc free_volume
    register_fat_volume-Mounted type ok = elim (Option-cases (free_volume 0 s.fat_volumes)) [
      | inl e ↦ absurd (ground arith)
      | inr (pdrv, e) ↦
          let fatfs = new_fatfs l c.flags block block_addr in
          let s1 = (io (alloc usb (libs.sizeof fat_fs)) s).1 in
          let m = mount_fat_volume usb libs l pdrv c fatfs s1 in
          let got : (usb.allocate (libs.sizeof fat_fs) s.drive.world).0 ≡ true = ground arith in
          let same : (register_fat_volume usb libs l c block block_addr s) ≡ m = ground arith in
          let mounted =
            mount_fat_volume-Mounted pdrv c fatfs s1 s.drive.live new (ground arith) type e
              (ground arith) in
          subst (λ r. Mounted libs s r.1 c r.0.1) (sym same)
            (Mounted-drive libs s _ m.1 c m.0.1 mounted refl)
    ]
