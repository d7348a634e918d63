-- ===== src/Mount/Outcome/OfNtfs.antt =====
-- What the registration of an NTFS volume leaves behind.
use libusbhsfs.Base.{
  ℕ, suc, ◌-◌, ◌≡◌, refl, sym, subst, Bool, true, false, some, arith, inl, inr, Bool-cases,
}
use libusbhsfs.Bytes.{Buf}
use libusbhsfs.Usb.{Usb, alloc}
use libusbhsfs.Scsi.Lun.{LogicalUnitContext}
use libusbhsfs.Mount.Context.{FileSystemContext, NtfsVd, fs_ntfs}
use libusbhsfs.Mount.Monad.{MountState, Libs, io, ntfs_vd, ntfs_dd}
use libusbhsfs.Mount.Ntfs.{mount_ntfs_volume, register_ntfs_volume, new_ntfs_vd}
use libusbhsfs.Mount.Outcome.{Restored}
use libusbhsfs.Mount.Outcome.Mounted.{Mounted, IsNew, ntfs_blocks, Mounted-drive}
use libusbhsfs.Mount.Outcome.NtfsMount.{
  abandon_ntfs-Freed, abandon_ntfs-fails, mount_ntfs_volume-Freed, mount_ntfs_volume-Mounted,
}

module _ {W : Type 0} (usb : Usb W) (libs : Libs W) (l : LogicalUnitContext) (c : FileSystemContext)
    (block : Buf) (block_addr : ℕ) (s : MountState W) (new : IsNew c) where
  abbrev after_vd : Bool × MountState W
  after_vd = io (alloc usb (libs.sizeof ntfs_vd)) s

  abbrev after_dd : Bool × MountState W
  after_dd = io (alloc usb (libs.sizeof ntfs_dd)) after_vd.1

  abbrev with_dd : NtfsVd
  with_dd = record new_ntfs_vd { dd = some (record { vbr = λ _. 0; sector_start = 0 }) }

  abbrev result : (Bool × FileSystemContext) × MountState W
  result = mount_ntfs_volume usb libs l with_dd c block block_addr after_dd.1

  pub register_ntfs_volume-Restored :
      (register_ntfs_volume usb libs l c block block_addr s).0.0 ≡ false
      → Restored s (register_ntfs_volume usb libs l c block block_addr s).1
  unfolding register_ntfs_volume alloc ntfs_blocks
  register_ntfs_volume-Restored failed =
      let freed =
        mount_ntfs_volume-Freed usb libs l with_dd c block block_addr after_dd.1 refl
          new.no_device in
      let state : result.0.0 ≡ false → result.1 ≡ record after_dd.1 { drive = result.1.drive } =
        λ f. (freed f).0 in
      let live : result.0.0 ≡ false → result.1.drive.live ≡ after_dd.1.drive.live - 2 =
        λ f. (freed f).1 in
      let undone = abandon_ntfs-Freed usb libs l new_ntfs_vd c after_dd.1 in
      record { state = ground arith; live = ground arith }

  pub register_ntfs_volume-Mounted :
      c.fs_type ≡ fs_ntfs
      → (register_ntfs_volume usb libs l c block block_addr s).0.0 ≡ true
      → Mounted libs s
          (register_ntfs_volume usb libs l c block block_addr s).1
          c
          (register_ntfs_volume usb libs l c block block_addr s).0.1
  unfolding register_ntfs_volume alloc
  register_ntfs_volume-Mounted type ok =
      let undone = abandon_ntfs-fails usb libs l new_ntfs_vd c after_dd.1 in
      elim (Bool-cases after_vd.0) [
        | inl e ↦ elim (Bool-cases after_dd.0) [
          | inl f ↦
              let got : result.0.0 ≡ true = ground arith in
              let m =
                mount_ntfs_volume-Mounted usb libs l with_dd c block block_addr after_dd.1 refl
                  s.drive.live new (ground arith) type got in
              let same : register_ntfs_volume usb libs l c block block_addr s ≡ result =
                ground arith in
              let above : after_dd.1.drive.live ≡ suc (suc s.drive.live) = ground arith in
              subst (λ r. Mounted libs s r.1 c r.0.1) (sym same)
                (Mounted-drive libs s _ result.1 c result.0.1 m refl)
          | inr f ↦ absurd (ground arith)
        ]
        | inr e ↦ absurd (ground arith)
      ]
