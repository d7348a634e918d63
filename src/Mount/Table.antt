-- ===== src/Mount/Table.antt =====
-- source/usbhsfs_mount.c: usbHsFsMountParseMasterBootRecord(),
-- usbHsFsMountParseMasterBootRecordPartitionEntry() and usbHsFsMountParseExtendedBootRecord().
use libusbhsfs.Base.{
  ℕ, zero, suc, ◌+◌, ◌*◌, ◌%◌, ◌^◌, Bool, not, ◌||◌, ◌==◌, ltb, if◌then◌else◌, length, some,
}
use libusbhsfs.Bytes.{Buf, load_le32, memcpy}
use libusbhsfs.Cmd.{Cmd}
use libusbhsfs.Usb.{Usb}
use libusbhsfs.Scsi.Lun.{LogicalUnitContext}
use libusbhsfs.Mount.Context.{fs_unsupported}
use libusbhsfs.Mount.Monad.{Libs}
use libusbhsfs.Mount.Probe.{Probe, ◌>>=◌, pure, out_of_fuel, mnt, cmd}
use libusbhsfs.Mount.BootRecord.{
  boot_signature, boot_sig, inspect_volume_boot_record, inspect_ext_super_block,
}
use libusbhsfs.Mount.Volume.{register_volume}

-- MasterBootRecordPartitionType.
abbrev pub is_fat_ntfs_type : ℕ → Bool
is_fat_ntfs_type t =
    t == 0x01 || t == 0x04 || t == 0x06 || t == 0x07 || t == 0x0b || t == 0x0c || t == 0x0e

abbrev pub is_linux_type : ℕ → Bool
is_linux_type t = t == 0x83

abbrev pub is_ebr_type : ℕ → Bool
is_ebr_type t = t == 0x05 || t == 0x0f || t == 0x85

abbrev pub is_gpt_type : ℕ → Bool
is_gpt_type t = t == 0xee

-- MasterBootRecordPartitionEntry, at an offset of a record.
abbrev pub entry_type : Buf → ℕ → ℕ
entry_type b off = b (off + 4)

abbrev pub entry_lba : Buf → ℕ → ℕ
entry_lba b off = load_le32 b (off + 8)

abbrev pub entry_block_count : Buf → ℕ → ℕ
entry_block_count b off = load_le32 b (off + 12)

-- MBR_PARTITION_COUNT.
abbrev pub mbr_partition_count : ℕ
mbr_partition_count = 4

module _ {W : Type 0} (usb : Usb W) (libs : Libs W) (read : Buf → ℕ → ℕ → Cmd W (Bool × Buf))
    (l : LogicalUnitContext) where
  -- A volume that was detected is registered.
  unfoldable pub register_detected : Buf → ℕ → ℕ → ℕ → Probe W Buf
  register_detected block lba size fs_type =
      if ltb fs_unsupported fs_type
      then (mnt (register_volume usb libs l block lba size fs_type) >>= λ _. pure block)
      else pure block

  -- A partition entry. `ebr` and `gpt` are what is done of an extended boot record and of a GPT:
  -- nothing if `parse_ebr_gpt` is false. It returns the block, which it reads into.
  unfoldable pub parse_partition_entry :
      (Buf → ℕ → Probe W Buf) → (Buf → ℕ → Probe W Buf) → Buf → ℕ → ℕ → ℕ → Probe W Buf
  parse_partition_entry ebr gpt block t lba size =
      if is_fat_ntfs_type t
      then (inspect_volume_boot_record libs read l block lba >>= λ (fs_type, b).
          register_detected b lba size fs_type)
      else if is_linux_type t
      then (inspect_ext_super_block libs read l block lba >>= λ (fs_type, b).
          register_detected b lba size fs_type)
      else if is_ebr_type t
      then ebr block lba
      else if is_gpt_type t
      then gpt block lba
      else pure block

  abbrev pub skip : Buf → ℕ → Probe W Buf
  skip block lba = pure block

  -- The chain of extended boot records, in at most `rounds` records. `next` is `next_ebr_lba`.
  unfoldable pub parse_ebr_chain : ℕ → Buf → ℕ → ℕ → Probe W Buf
  unfolding boot_sig
  parse_ebr_chain zero block ebr_lba next = out_of_fuel
  parse_ebr_chain (suc rounds) block ebr_lba next = do
    (ok, b) ← cmd (read block ((ebr_lba + next) % 2 ^ 64) 1)
    if not ok
        then pure b
        else if boot_sig b == boot_signature
        then (parse_partition_entry skip skip b (entry_type b 0x1be)
              ((ebr_lba + next + entry_lba b 0x1be) % 2 ^ 64) (entry_block_count b 0x1be)
            >>= λ b'.
                if entry_lba b 0x1ce == 0
                then pure b'
                else parse_ebr_chain rounds b' ebr_lba (entry_lba b 0x1ce))
        else pure b

  unfoldable pub parse_extended_boot_record : ℕ → Buf → ℕ → Probe W Buf
  parse_extended_boot_record rounds block ebr_lba = parse_ebr_chain rounds block ebr_lba 0

  -- The entries of a boot record `mbr` from number `i` on, of which there are `n`.
  unfoldable pub parse_mbr_entries : (Buf → ℕ → Probe W Buf) → ℕ → Buf → ℕ → ℕ → Buf → Probe W Buf
  parse_mbr_entries gpt rounds mbr i zero block = pure block
  parse_mbr_entries gpt rounds mbr i (suc n) block = do
    let off = 0x1be + i * 16
    b ←
        parse_partition_entry (parse_extended_boot_record rounds) gpt block (entry_type mbr off)
          (entry_lba mbr off) (entry_block_count mbr off)
    parse_mbr_entries gpt rounds mbr (suc i) n b

  unfoldable pub parse_master_boot_record : (Buf → ℕ → Probe W Buf) → ℕ → Buf → Probe W Bool
  unfolding memcpy
  parse_master_boot_record gpt rounds block = do
    _ ← parse_mbr_entries gpt rounds (memcpy (λ _. 0) 0 block 512) 0 mbr_partition_count block
    λ s. some (not (length s.fs_ctx == 0), s)
