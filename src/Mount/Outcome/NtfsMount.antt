-- ===== src/Mount/Outcome/NtfsMount.antt =====
-- What the mount of an NTFS volume leaves behind, from its descriptors on.
use libusbhsfs.Base.{ℕ, suc, ◌≡◌, refl, subst, Bool, true, false, some, arith, inl, inr, Bool-cases}
use libusbhsfs.Bytes.{Buf}
use libusbhsfs.Usb.{Usb, free}
use libusbhsfs.Scsi.Lun.{LogicalUnitContext}
use libusbhsfs.Mount.Context.{FileSystemContext, NtfsVd, fs_ntfs, is_some, has_fs_object}
use libusbhsfs.Mount.Monad.{MountState, Libs, extern}
use libusbhsfs.Mount.DeviceId.{available_device_id}
use libusbhsfs.Mount.Devoptab.{register_devoptab_device, mount_name}
use libusbhsfs.Mount.Ntfs.{
  abandon_ntfs, prepare_ntfs, finish_ntfs, mount_ntfs_volume, setup_ntfs_vd,
}
use libusbhsfs.Mount.Outcome.{
  Restored, NoDevice, register_devoptab_device-Restored, register_devoptab_device-HasDevice,
}
use libusbhsfs.Mount.Outcome.Mounted.{
  Mounted, IsNew, object_blocks, ntfs_blocks, ext_blocks, volumes_with, Mounted-drive,
  Mounted-renamed, Freed, Freed-trans,
}

module _ {W : Type 0} (usb : Usb W) (libs : Libs W) (l : LogicalUnitContext) where
  prepare_ntfs-Restored :
      (v : NtfsVd) (c : FileSystemContext) (s : MountState W)
      → Restored s (prepare_ntfs usb libs l v c s).1
  unfolding prepare_ntfs
  prepare_ntfs-Restored v c s = record { state = ground arith; live = ground arith }

  pub abandon_ntfs-Freed :
      (v : NtfsVd) (c : FileSystemContext) (s : MountState W)
      → Freed (ntfs_blocks (some v)) s (abandon_ntfs usb libs l v c s).1
  unfolding abandon_ntfs free ntfs_blocks
  abandon_ntfs-Freed v c s = (ground arith, ground arith)

  pub abandon_ntfs-fails :
      (v : NtfsVd) (c : FileSystemContext) (s : MountState W)
      → (abandon_ntfs usb libs l v c s).0.0 ≡ false
  unfolding abandon_ntfs
  abandon_ntfs-fails v c s = refl

  finish_ntfs-Freed :
      (v : NtfsVd) (c : FileSystemContext) (s : MountState W)
      → NoDevice c
      → (finish_ntfs usb libs l v c s).0.0 ≡ false
      → Freed (ntfs_blocks (some v)) s (finish_ntfs usb libs l v c s).1
  unfolding finish_ntfs
  finish_ntfs-Freed v c s fresh failed =
      let s2 = (prepare_ntfs usb libs l v c s).1 in
      let c2 = record c { ntfs = some v } in
      let r = register_devoptab_device usb libs c2 s2 in
      let n = ntfs_blocks (some v) in
      elim (Bool-cases (prepare_ntfs usb libs l v c s).0) [
        | inl e ↦ elim (Bool-cases r.0.0) [
          | inl f ↦ absurd (ground arith)
          | inr f ↦
              rw (e, f)
                (Freed-trans n s s2 _ (prepare_ntfs-Restored v c s) (
                  Freed-trans n s2 r.1 _
                    (register_devoptab_device-Restored usb libs c2 s2
                      (record { name = fresh.name; cwd = fresh.cwd; device = fresh.device }) f)
                    (abandon_ntfs-Freed v r.0.1 r.1)))
        ]
        | inr e ↦
            rw e (Freed-trans n s s2 _ (prepare_ntfs-Restored v c s) (abandon_ntfs-Freed v c s2))
      ]

  finish_ntfs-Mounted :
      (v : NtfsVd) (c : FileSystemContext) (s : MountState W) (base : ℕ)
      → IsNew c
      → s.drive.live ≡ suc (suc base)
      → is_some v.dd ≡ true
      → c.fs_type ≡ fs_ntfs
      → (finish_ntfs usb libs l v c s).0.0 ≡ true
      → Mounted libs
          (record s { drive = record s.drive { live = base } })
          (finish_ntfs usb libs l v c s).1
          c
          (finish_ntfs usb libs l v c s).0.1
  unfolding finish_ntfs object_blocks ntfs_blocks ext_blocks volumes_with has_fs_object
  finish_ntfs-Mounted v c s base new above has_dd type ok =
      let s2 = (prepare_ntfs usb libs l v c s).1 in
      let prepared = prepare_ntfs-Restored v c s in
      let state2 : s2 ≡ record s { drive = s2.drive } = prepared.state in
      let live2 : s2.drive.live ≡ s.drive.live = prepared.live in
      let c2 = record c { ntfs = some v } in
      let r = register_devoptab_device usb libs c2 s2 in
      let undone = abandon_ntfs-fails v c s2 in
      let abandoned = abandon_ntfs-fails v r.0.1 r.1 in
      let registered : r.0.0 ≡ true = ground arith in
      let h = register_devoptab_device-HasDevice usb libs c2 s2 registered in
      record {
        fs_idx = ground arith;
        fs_type = ground arith;
        device_id = ground arith;
        name = ground arith;
        cwd = ground arith;
        device = ground arith;
        interface = ground arith;
        object = ground arith;
        has_slot = λ notes fat. absurd (omega (arith, type, fat));
        state = ground arith;
        live = ground arith;
      }

  module _ (v : NtfsVd) (c : FileSystemContext) (block : Buf) (block_addr : ℕ) (s : MountState W)
      (has_dd : is_some v.dd ≡ true) where
    abbrev named : FileSystemContext
    named = record c { device_id = available_device_id s.has_device_ids s.device_ids }

    abbrev after_alloc : Bool × MountState W
    after_alloc = extern (libs.ntfs_device_alloc (mount_name libs named.device_id) v) s

    abbrev descriptor : NtfsVd
    descriptor =
        setup_ntfs_vd l c.flags named.device_id block block_addr (record v { has_dev = true })

    abbrev after_mount : Bool × MountState W
    after_mount = extern (libs.ntfs_device_mount descriptor) after_alloc.1

    pub mount_ntfs_volume-Freed :
        NoDevice c
        → (mount_ntfs_volume usb libs l v c block block_addr s).0.0 ≡ false
        → Freed 2 s (mount_ntfs_volume usb libs l v c block block_addr s).1
    unfolding mount_ntfs_volume ntfs_blocks setup_ntfs_vd
    mount_ntfs_volume-Freed fresh failed =
        let fresh' : NoDevice named = record {
          name = fresh.name;
          cwd = fresh.cwd;
          device = fresh.device;
        } in
        elim (Bool-cases after_alloc.0) [
          | inl e ↦ elim (Bool-cases after_mount.0) [
            | inl f ↦
                let r =
                  finish_ntfs usb libs l (record descriptor { has_vol = true }) named
                    after_mount.1 in
                let lost : r.0.0 ≡ false = ground arith in
                rw (e, f)
                  (Freed-trans 2 s after_mount.1 _ (record { state = refl; live = refl })
                    (finish_ntfs-Freed (record descriptor { has_vol = true }) named after_mount.1
                      fresh' lost))
            | inr f ↦
                rw (e, f)
                  (Freed-trans 2 s after_mount.1 _ (record { state = refl; live = refl })
                    (abandon_ntfs-Freed descriptor named after_mount.1))
          ]
          | inr e ↦
              let freed = abandon_ntfs-Freed v named after_alloc.1 in
              let two : ntfs_blocks (some v) ≡ 2 = ground arith in
              rw e (
                Freed-trans 2 s after_alloc.1 _ (record { state = refl; live = refl })
                  (subst
                    (λ n. Freed n after_alloc.1 (abandon_ntfs usb libs l v named after_alloc.1).1)
                    two freed))
        ]

    pub mount_ntfs_volume-Mounted :
        (base : ℕ)
        → IsNew c
        → s.drive.live ≡ suc (suc base)
        → c.fs_type ≡ fs_ntfs
        → (mount_ntfs_volume usb libs l v c block block_addr s).0.0 ≡ true
        → Mounted libs
            (record s { drive = record s.drive { live = base } })
            (mount_ntfs_volume usb libs l v c block block_addr s).1
            c
            (mount_ntfs_volume usb libs l v c block block_addr s).0.1
    unfolding mount_ntfs_volume setup_ntfs_vd
    mount_ntfs_volume-Mounted base new above type ok =
        let undone = abandon_ntfs-fails v named after_alloc.1 in
        let undone2 = abandon_ntfs-fails descriptor named after_mount.1 in
        let fresh = new.no_device in
        elim (Bool-cases after_alloc.0) [
          | inl e ↦ elim (Bool-cases after_mount.0) [
            | inl f ↦
                let v2 = record descriptor { has_vol = true } in
                let r = finish_ntfs usb libs l v2 named after_mount.1 in
                let got : r.0.0 ≡ true = ground arith in
                let m =
                  finish_ntfs-Mounted v2 named after_mount.1 base
                    (record {
                      no_device = record {
                        name = fresh.name;
                        cwd = fresh.cwd;
                        device = fresh.device;
                      };
                      fatfs = new.fatfs;
                      ntfs = new.ntfs;
                      ext = new.ext;
                    })
                    above refl type got in
                rw (e, f)
                  (Mounted-renamed libs _ r.1 c r.0.1 named.device_id (
                    Mounted-drive libs (record s { drive = record s.drive { live = base } }) _ r.1
                      named r.0.1 m refl))
            | inr f ↦ absurd (ground arith)
          ]
          | inr e ↦ absurd (ground arith)
        ]
