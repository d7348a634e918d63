-- ===== src/Mount/Start.antt =====
-- source/usbhsfs_mount.c: usbHsFsMountInitializeLogicalUnitFileSystemContexts().
use libusbhsfs.Base.{ℕ, Bool, false, not, ◌==◌, ltb, if◌then◌else◌}
use libusbhsfs.Bytes.{Buf}
use libusbhsfs.Cmd.{Cmd}
use libusbhsfs.Usb.{DriveContext, Usb, alloc, free}
use libusbhsfs.Scsi.Lun.{LogicalUnitContext, is_valid_logical_unit_context}
use libusbhsfs.Scsi.Blocks.{read_logical_unit_blocks}
use libusbhsfs.Mount.Context.{fs_unsupported, fs_ext}
use libusbhsfs.Mount.Monad.{Libs, io}
use libusbhsfs.Mount.Probe.{Probe, ◌>>=◌, ◌>>◌, pure, mnt}
use libusbhsfs.Mount.BootRecord.{inspect_volume_boot_record, inspect_ext_super_block}
use libusbhsfs.Mount.Table.{parse_master_boot_record}
use libusbhsfs.Mount.Gpt.{parse_guid_partition_table}
use libusbhsfs.Mount.Volume.{register_volume}

module _ {W : Type 0} (usb : Usb W) (libs : Libs W) (read : Buf → ℕ → ℕ → Cmd W (Bool × Buf))
    (l : LogicalUnitContext) where
  -- What is at LBA 0: a volume, a partition table, or an EXT volume.
  unfoldable pub mount_block_0 : ℕ → Buf → Probe W Bool
  mount_block_0 rounds block = do
    (fs_type, b) ← inspect_volume_boot_record libs read l block 0
    if ltb fs_unsupported fs_type
        then mnt (register_volume usb libs l b 0 l.block_count fs_type)
        else if fs_type == fs_unsupported
        then parse_master_boot_record usb libs read l (parse_guid_partition_table usb libs read l)
            rounds b
        else do
          (ext_type, b') ← inspect_ext_super_block libs read l b 0
          if ext_type == fs_ext
              then mnt (register_volume usb libs l b' 0 l.block_count ext_type)
              else pure false

-- `fuel` bounds the commands, `rounds` the chains of extended boot records. `heap` is what the
-- allocated memory holds.
unfoldable pub initialize_file_system_contexts :
    {W : Type 0} → Usb W → Libs W → DriveContext → LogicalUnitContext → ℕ → ℕ → Buf → Probe W Bool
unfolding is_valid_logical_unit_context alloc free
initialize_file_system_contexts usb libs d l fuel rounds heap =
    if not (is_valid_logical_unit_context d l) then pure false else do
      has_block ← mnt (io (alloc usb l.block_length))
      if not has_block then pure false else do
        ret ← mount_block_0 usb libs (read_logical_unit_blocks usb d fuel l) l rounds heap
        mnt (io (free usb))
        pure ret
