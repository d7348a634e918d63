-- ===== src/Mount/Outcome/OfExt.antt =====
-- What the registration of an EXT volume leaves behind.
use libusbhsfs.Base.{
  ℕ, ◌+◌, ◌-◌, ◌≡◌, refl, sym, subst, Bool, true, false, Option, none, some, arith, inl, inr,
  Option-cases,
}
use libusbhsfs.Usb.{Usb, alloc, free}
use libusbhsfs.Scsi.Lun.{LogicalUnitContext}
use libusbhsfs.Mount.Context.{FileSystemContext, ExtVd, BlockDevice, fs_ext, has_fs_object}
use libusbhsfs.Mount.Monad.{MountState, Libs, io, ext_vd}
use libusbhsfs.Mount.DeviceId.{available_device_id}
use libusbhsfs.Mount.Devoptab.{mount_name, register_devoptab_device}
use libusbhsfs.Mount.Ext.{abandon_ext, mount_ext_volume, register_ext_volume}
use libusbhsfs.Mount.ExtDisk.{new_ext_vd, alloc_blockdev, ext_mount, ext_umount}
use libusbhsfs.Mount.Outcome.{
  Restored, NoDevice, register_devoptab_device-Restored, register_devoptab_device-HasDevice,
}
use libusbhsfs.Mount.Outcome.Mounted.{
  Mounted, IsNew, Freed, ext_blocks, ntfs_blocks, blockdev_blocks, object_blocks, volumes_with,
  Mounted-drive,
}
use libusbhsfs.Mount.Outcome.ExtMount.{
  ext_mount-Restored, ext_mount-bdev, ext_umount-Restored, free_blockdev-Freed, alloc_blockdev-none,
  alloc_blockdev-some,
}

module _ {W : Type 0} (usb : Usb W) (libs : Libs W) (l : LogicalUnitContext) where
  abandon_ext-fails :
      (b : Bool) (v : ExtVd) (c : FileSystemContext) (s : MountState W)
      → (abandon_ext usb libs l b v c s).0.0 ≡ false
  unfolding abandon_ext
  abandon_ext-fails b v c s = refl

  abandon_ext-none :
      (v : ExtVd) (c : FileSystemContext) (s : MountState W)
      → v.bdev ≡ none
      → Freed 1 s (abandon_ext usb libs l false v c s).1
  unfolding abandon_ext free
  abandon_ext-none v c s e = (ground arith, ground arith)

  abandon_ext-some :
      (b : Bool) (v : ExtVd) (c : FileSystemContext) (s : MountState W) (bdev : BlockDevice)
      → v.bdev ≡ some bdev
      → blockdev_blocks (some bdev) ≡ 3
      → Freed 4 s (abandon_ext usb libs l b v c s).1
  unfolding abandon_ext free
  abandon_ext-some true v c s bdev e three =
      let s1 = (ext_umount usb libs l v s).1 in
      let umounted = ext_umount-Restored usb libs l v s in
      let state1 : s1 ≡ record s { drive = s1.drive } = umounted.state in
      let live1 : s1.drive.live ≡ s.drive.live = umounted.live in
      let freed = free_blockdev-Freed usb libs l bdev s1 in (ground arith, ground arith)
  abandon_ext-some false v c s bdev e three =
      let freed = free_blockdev-Freed usb libs l bdev s in (ground arith, ground arith)

  module _ (v : ExtVd) (c : FileSystemContext) (s : MountState W) (bdev : BlockDevice)
      (has_bdev : v.bdev ≡ some bdev) (three : blockdev_blocks (some bdev) ≡ 3) where
    abbrev named : FileSystemContext
    named = record c { device_id = available_device_id s.has_device_ids s.device_ids }

    abbrev descriptor : ExtVd
    descriptor = record v {
      dev_name = mount_name libs named.device_id;
      flags = c.flags;
      id = named.device_id;
    }

    abbrev mounted : (Bool × ExtVd) × MountState W
    mounted = ext_mount usb libs l descriptor s

    abbrev with_ext : FileSystemContext
    with_ext = record named { ext = some mounted.0.1 }

    abbrev registered : (Bool × FileSystemContext) × MountState W
    registered = register_devoptab_device usb libs with_ext mounted.1

    mount_ext_volume-Freed :
        NoDevice c
        → (mount_ext_volume usb libs l v c s).0.0 ≡ false
        → Freed 4 s (mount_ext_volume usb libs l v c s).1
    unfolding mount_ext_volume
    mount_ext_volume-Freed fresh failed =
        let m = ext_mount-Restored usb libs l descriptor s in
        let state1 : mounted.1 ≡ record s { drive = mounted.1.drive } = m.state in
        let live1 : mounted.1.drive.live ≡ s.drive.live = m.live in
        let kept = ext_mount-bdev usb libs l descriptor s in
        let same : mounted.0.1.bdev ≡ some bdev = ground arith in
        let unmounted = abandon_ext-some false mounted.0.1 named mounted.1 bdev same three in
        let undone =
          abandon_ext-some true mounted.0.1 registered.0.1 registered.1 bdev same three in
        let r =
          register_devoptab_device-Restored usb libs with_ext mounted.1
            (record { name = fresh.name; cwd = fresh.cwd; device = fresh.device }) in
        let state2 : registered.0.0 ≡ false
            → registered.1 ≡ record mounted.1 { drive = registered.1.drive } =
          λ f. (r f).state in
        let live2 : registered.0.0 ≡ false → registered.1.drive.live ≡ mounted.1.drive.live =
          λ f. (r f).live in
        (ground arith, ground arith)

    mount_ext_volume-Mounted :
        (base : ℕ)
        → IsNew c
        → s.drive.live ≡ base + 4
        → c.fs_type ≡ fs_ext
        → (mount_ext_volume usb libs l v c s).0.0 ≡ true
        → Mounted libs
            (record s { drive = record s.drive { live = base } })
            (mount_ext_volume usb libs l v c s).1
            c
            (mount_ext_volume usb libs l v c s).0.1
    unfolding mount_ext_volume object_blocks ext_blocks ntfs_blocks volumes_with has_fs_object
    mount_ext_volume-Mounted base new above type ok =
        let m = ext_mount-Restored usb libs l descriptor s in
        let state1 : mounted.1 ≡ record s { drive = mounted.1.drive } = m.state in
        let live1 : mounted.1.drive.live ≡ s.drive.live = m.live in
        let kept = ext_mount-bdev usb libs l descriptor s in
        let same : mounted.0.1.bdev ≡ some bdev = ground arith in
        let unmounted = abandon_ext-fails false mounted.0.1 named mounted.1 in
        let undone = abandon_ext-fails true mounted.0.1 registered.0.1 registered.1 in
        let got : registered.0.0 ≡ true = ground arith in
        let h = register_devoptab_device-HasDevice usb libs with_ext mounted.1 got in
        record {
          fs_idx = ground arith;
          fs_type = ground arith;
          device_id = ground arith;
          name = ground arith;
          cwd = ground arith;
          device = ground arith;
          interface = ground arith;
          object = ground arith;
          has_slot = λ notes fat. absurd (omega (arith, type, fat));
          state = ground arith;
          live = ground arith;
        }

  module _ (c : FileSystemContext) (addr count : ℕ) (s : MountState W) (new : IsNew c) where
    abbrev after_vd : Bool × MountState W
    after_vd = io (alloc usb (libs.sizeof ext_vd)) s

    abbrev after_bdev : Option BlockDevice × MountState W
    after_bdev = alloc_blockdev usb libs l addr count after_vd.1

    abbrev with_bdev : ExtVd
    with_bdev = record new_ext_vd { bdev = after_bdev.0 }

    abbrev result : (Bool × FileSystemContext) × MountState W
    result = mount_ext_volume usb libs l with_bdev c after_bdev.1

    pub register_ext_volume-Restored :
        (register_ext_volume usb libs l c addr count s).0.0 ≡ false
        → Restored s (register_ext_volume usb libs l c addr count s).1
    unfolding register_ext_volume alloc
    register_ext_volume-Restored failed = elim (Option-cases after_bdev.0) [
      | inl e ↦
          let none_left = alloc_blockdev-none usb libs l addr count after_vd.1 e in
          let state1 : after_bdev.1 ≡ record after_vd.1 { drive = after_bdev.1.drive } =
            none_left.state in
          let live1 : after_bdev.1.drive.live ≡ after_vd.1.drive.live = none_left.live in
          let undone = abandon_ext-none new_ext_vd c after_bdev.1 refl in
          record { state = ground arith; live = ground arith }
      | inr (b, e) ↦
          let (three, state1, live1) = alloc_blockdev-some usb libs l addr count after_vd.1 b e in
          let freed = mount_ext_volume-Freed with_bdev c after_bdev.1 b e three new.no_device in
          let state2 : result.0.0 ≡ false
              → result.1 ≡ record after_bdev.1 { drive = result.1.drive } =
            λ f. (freed f).0 in
          let live2 : result.0.0 ≡ false → result.1.drive.live ≡ after_bdev.1.drive.live - 4 =
            λ f. (freed f).1 in
          record { state = ground arith; live = ground arith }
    ]

    pub register_ext_volume-Mounted :
        c.fs_type ≡ fs_ext
        → (register_ext_volume usb libs l c addr count s).0.0 ≡ true
        → Mounted libs s
            (register_ext_volume usb libs l c addr count s).1
            c
            (register_ext_volume usb libs l c addr count s).0.1
    unfolding register_ext_volume alloc
    register_ext_volume-Mounted type ok = elim (Option-cases after_bdev.0) [
      | inl e ↦
          let undone = abandon_ext-fails false new_ext_vd c after_bdev.1 in absurd (ground arith)
      | inr (b, e) ↦
          let (three, state1, live1) = alloc_blockdev-some usb libs l addr count after_vd.1 b e in
          let same : register_ext_volume usb libs l c addr count s ≡ result = ground arith in
          let got : result.0.0 ≡ true = ground arith in
          let live2 : after_bdev.1.drive.live ≡ s.drive.live + 4 = ground arith in
          let m =
            mount_ext_volume-Mounted with_bdev c after_bdev.1 b e three s.drive.live new live2 type
              got in
          subst (λ r. Mounted libs s r.1 c r.0.1) (sym same)
            (Mounted-drive libs s (record after_bdev.1.drive { live = s.drive.live }) result.1 c
              result.0.1
              (subst
                (λ t.
                  Mounted libs
                    (record t { drive = record after_bdev.1.drive { live = s.drive.live } })
                    result.1 c result.0.1)
                state1 m)
              refl)
    ]
