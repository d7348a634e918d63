-- ===== src/Mount/Outcome/ExtMount.antt =====
-- What the block device of an EXT volume and its mount leave behind.
use libusbhsfs.Base.{ℕ, ◌+◌, ◌≡◌, none, some, arith}
use libusbhsfs.Usb.{Usb, alloc, free}
use libusbhsfs.Scsi.Lun.{LogicalUnitContext}
use libusbhsfs.Mount.Context.{ExtVd, BlockDevice}
use libusbhsfs.Mount.Monad.{MountState, Libs}
use libusbhsfs.Mount.ExtDisk.{
  alloc_blockdev, free_blockdev, new_blockdev, ext_mount, ext_umount, abandon_mount, start_journal,
}
use libusbhsfs.Mount.Outcome.{Restored}
use libusbhsfs.Mount.Outcome.Mounted.{Freed, blockdev_blocks}

module _ {W : Type 0} (usb : Usb W) (libs : Libs W) (l : LogicalUnitContext) where
  pub ext_mount-Restored : (v : ExtVd) (s : MountState W) → Restored s (ext_mount usb libs l v s).1
  unfolding ext_mount abandon_mount start_journal
  ext_mount-Restored v s = record { state = ground arith; live = ground arith }

  pub ext_mount-bdev : (v : ExtVd) (s : MountState W) → (ext_mount usb libs l v s).0.1.bdev ≡ v.bdev
  unfolding ext_mount
  ext_mount-bdev v s = ground arith

  pub ext_umount-Restored :
      (v : ExtVd) (s : MountState W) → Restored s (ext_umount usb libs l v s).1
  unfolding ext_umount
  ext_umount-Restored v s = record { state = ground arith; live = ground arith }

  pub free_blockdev-Freed :
      (b : BlockDevice) (s : MountState W)
      → Freed (blockdev_blocks (some b)) s (free_blockdev usb libs l b s).1
  unfolding free_blockdev free blockdev_blocks
  free_blockdev-Freed b s = (ground arith, ground arith)

  -- The block device is there with its three blocks, or nothing is.
  pub alloc_blockdev-none :
      (part_lba part_size : ℕ) (s : MountState W)
      → (alloc_blockdev usb libs l part_lba part_size s).0 ≡ none
      → Restored s (alloc_blockdev usb libs l part_lba part_size s).1
  unfolding alloc_blockdev alloc free_blockdev free
  alloc_blockdev-none part_lba part_size s e = record { state = ground arith; live = ground arith }

  pub alloc_blockdev-some :
      (part_lba part_size : ℕ) (s : MountState W) (b : BlockDevice)
      → (alloc_blockdev usb libs l part_lba part_size s).0 ≡ some b
      → (blockdev_blocks (some b) ≡ 3)
        × ((alloc_blockdev usb libs l part_lba part_size s).1
            ≡ record s { drive = (alloc_blockdev usb libs l part_lba part_size s).1.drive })
        × ((alloc_blockdev usb libs l part_lba part_size s).1.drive.live ≡ s.drive.live + 3)
  unfolding alloc_blockdev alloc new_blockdev blockdev_blocks
  alloc_blockdev-some part_lba part_size s b e = (ground arith, ground arith, ground arith)
