-- ===== src/Mount/ExtDisk.antt =====
-- source/lwext4/ext.c: ext_mount(), ext_umount(), ext_get_version().
-- source/lwext4/ext_disk_io.c: ext_disk_io_alloc_blockdev(), ext_disk_io_free_blockdev().
use libusbhsfs.Base.{
  ℕ, ◌*◌, ◌%◌, ◌^◌, Bool, true, false, not, ◌&&◌, ◌||◌, List, [], ◌∷◌, ◌++◌, Option, none, some,
  ◌==◌, if◌then◌else◌,
}
use libusbhsfs.Usb.{Usb, alloc, free}
use libusbhsfs.Scsi.Lun.{LogicalUnitContext}
use libusbhsfs.Mount.Context.{BlockDevice, ExtVd, has_bit, read_only, replay_journal}
use libusbhsfs.Mount.Monad.{
  Libs, Mnt, ◌>>=◌, ◌>>◌, pure, when, get, io, extern, blockdev, blockdev_iface,
}

-- UsbHsFsDeviceFileSystemType_EXT2, EXT3 and EXT4.
unfoldable pub ext_version : Bool → Bool → ℕ → ℕ
ext_version beyond_3 beyond_2 version =
    let v1 = if beyond_3 then 8 else version in
    let v2 = if not beyond_3 then 7 else v1 in if not beyond_2 then 6 else v2

-- What calloc() gives.
abbrev pub new_ext_vd : ExtVd
new_ext_vd = record { bdev = none; dev_name = []; flags = 0; id = 0; version = 0 }

abbrev is_empty : List ℕ → Bool
is_empty [] = true
is_empty (x ∷ xs) = false

-- The parameters of ext_mount() and ext_umount() that they refuse otherwise.
unfoldable pub has_block_device : ExtVd → Bool
has_block_device v = elim v.bdev [
  | none ↦ false
  | some bdev ↦ bdev.has_bdif && bdev.has_ph_bbuf && not (is_empty v.dev_name)
]

-- sprintf(mount_point, "/%s/", name).
abbrev pub mount_point : List ℕ → List ℕ
mount_point name = 0x2f ∷ (name ++ (0x2f ∷ []))

module _ {W : Type 0} (usb : Usb W) (libs : Libs W) (l : LogicalUnitContext) where
  unfoldable pub free_blockdev : BlockDevice → Mnt W (Unit {0})
  unfolding free
  free_blockdev bdev = do
    when bdev.has_bdif (when bdev.has_ph_bbuf (io (free usb)))
    when bdev.has_bdif (io (free usb))
    io (free usb)

  unfoldable pub new_blockdev : ℕ → ℕ → BlockDevice
  new_blockdev part_lba part_size = record {
    has_bdif = true;
    has_ph_bbuf = true;
    part_offset = part_lba * l.block_length % 2 ^ 64;
    part_size = part_size * l.block_length % 2 ^ 64;
    ph_bsize = l.block_length;
    ph_bcnt = part_size;
  }

  abbrev no_blockdev : BlockDevice
  no_blockdev = record {
    has_bdif = false;
    has_ph_bbuf = false;
    part_offset = 0;
    part_size = 0;
    ph_bsize = 0;
    ph_bcnt = 0;
  }

  unfoldable pub alloc_blockdev : ℕ → ℕ → Mnt W (Option BlockDevice)
  unfolding alloc free_blockdev new_blockdev
  alloc_blockdev part_lba part_size = do
    has_bdev ← io (alloc usb (libs.sizeof blockdev))
    if not has_bdev then pure none else do
      has_bdif ← io (alloc usb (libs.sizeof blockdev_iface))
      if not has_bdif then free_blockdev no_blockdev >> pure none else do
        has_ph_bbuf ← io (alloc usb l.block_length)
        if not has_ph_bbuf
            then free_blockdev (record no_blockdev { has_bdif = true }) >> pure none
            else pure (some (new_blockdev part_lba part_size))

  -- The end of ext_mount() when something went wrong.
  unfoldable pub abandon_mount : Bool → List ℕ → Mnt W Bool
  abandon_mount vol_mounted name = do
    when vol_mounted (extern (libs.ext4_umount (mount_point name)) >>= λ _. pure tt)
    _ ← extern (libs.ext4_device_unregister name)
    pure false

  -- The journal of a volume mounted for writing. It returns whether all went well.
  unfoldable pub start_journal : ExtVd → Mnt W Bool
  start_journal v = do
    recovered ←
        if has_bit v.flags replay_journal
        then extern (libs.ext4_recover (mount_point v.dev_name))
        else pure 0
    if not (recovered == 0) then pure false else do
      started ← extern (libs.ext4_journal_start (mount_point v.dev_name))
      pure (started == 0)

  unfoldable pub ext_mount : ExtVd → Mnt W (Bool × ExtVd)
  unfolding has_block_device ext_version
  ext_mount v = if not (has_block_device v) then pure (false, v) else do
    let ro = has_bit v.flags read_only || l.write_protect
    registered ← extern (libs.ext4_device_register v v.dev_name)
    if not (registered == 0) then pure (false, v) else do
      mounted ← extern (libs.ext4_mount v.dev_name (mount_point v.dev_name) ro)
      if not (mounted == 0) then (abandon_mount false v.dev_name >>= λ ok. pure (ok, v)) else do
        s ← get
        journal ←
            if not ro && libs.ext4_has_journal v s.drive.world then start_journal v else pure true
        if not journal then (abandon_mount true v.dev_name >>= λ ok. pure (ok, v)) else do
          s' ← get
          pure (
            true,
            record v {
              version =
                  ext_version (libs.beyond_ext3 v s'.drive.world)
                    (libs.beyond_ext2 v s'.drive.world) v.version;
            },
          )

  unfoldable pub ext_umount : ExtVd → Mnt W (Unit {0})
  unfolding has_block_device
  ext_umount v = if not (has_block_device v) then pure tt else do
    _ ← extern (libs.ext4_journal_stop (mount_point v.dev_name))
    _ ← extern (libs.ext4_umount (mount_point v.dev_name))
    _ ← extern (libs.ext4_device_unregister v.dev_name)
    pure tt
