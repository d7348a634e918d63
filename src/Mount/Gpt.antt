-- ===== src/Mount/Gpt.antt =====
-- source/usbhsfs_mount.c: usbHsFsMountParseGuidPartitionTable().
use libusbhsfs.Base.{
  ℕ, zero, suc, ◌+◌, ◌-◌, ◌*◌, ◌/◌, ◌%◌, ◌^◌, Bool, not, ◌||◌, List, [], ◌∷◌, ◌==◌, leb, ltb,
  if◌then◌else◌,
}
use libusbhsfs.Bytes.{Buf, load_le32, load_le64, memcpy, memset}
use libusbhsfs.Cmd.{Cmd}
use libusbhsfs.Usb.{Usb}
use libusbhsfs.Scsi.Lun.{LogicalUnitContext}
use libusbhsfs.Mount.Context.{fs_invalid}
use libusbhsfs.Mount.Monad.{Libs}
use libusbhsfs.Mount.Probe.{Probe, ◌>>=◌, pure, cmd}
use libusbhsfs.Mount.BootRecord.{bytes_at, inspect_volume_boot_record, inspect_ext_super_block}
use libusbhsfs.Mount.Table.{register_detected}

-- "EFI PART" "\x00\x00\x01\x00" "\x5C\x00\x00\x00".
abbrev pub gpt_start : List ℕ
gpt_start =
    0x45
    ∷ (0x46
        ∷ (0x49
            ∷ (0x20
                ∷ (0x50
                    ∷ (0x41
                        ∷ (0x52
                            ∷ (0x54 ∷ (0 ∷ (0 ∷ (1 ∷ (0 ∷ (0x5c ∷ (0 ∷ (0 ∷ (0 ∷ [])))))))))))))))

abbrev pub microsoft_basic_data_guid : List ℕ
microsoft_basic_data_guid =
    0xa2
    ∷ (0xa0
        ∷ (0xd0
            ∷ (0xeb
                ∷ (0xe5
                    ∷ (0xb9
                        ∷ (0x33
                            ∷ (0x44
                                ∷ (0x87
                                    ∷ (0xc0
                                        ∷ (0x68
                                            ∷ (0xb6
                                                ∷ (0xb7 ∷ (0x26 ∷ (0x99 ∷ (0xc7 ∷ [])))))))))))))))

abbrev pub linux_filesystem_data_guid : List ℕ
linux_filesystem_data_guid =
    0xaf
    ∷ (0x3d
        ∷ (0xc6
            ∷ (0x0f
                ∷ (0x83
                    ∷ (0x84
                        ∷ (0x72
                            ∷ (0x47
                                ∷ (0x8e
                                    ∷ (0x79
                                        ∷ (0x3d
                                            ∷ (0x69
                                                ∷ (0xd8 ∷ (0x47 ∷ (0x7d ∷ (0xe4 ∷ [])))))))))))))))

-- The fields of GuidPartitionTableHeader that are read.
abbrev pub header_size : Buf → ℕ
header_size h = load_le32 h 12

abbrev pub header_crc32 : Buf → ℕ
header_crc32 h = load_le32 h 16

abbrev pub cur_header_lba : Buf → ℕ
cur_header_lba h = load_le64 h 24

abbrev pub backup_header_lba : Buf → ℕ
backup_header_lba h = load_le64 h 32

abbrev pub partition_array_lba : Buf → ℕ
partition_array_lba h = load_le64 h 72

abbrev pub partition_array_count : Buf → ℕ
partition_array_count h = load_le32 h 80

abbrev pub partition_array_entry_size : Buf → ℕ
partition_array_entry_size h = load_le32 h 84

-- sizeof(GuidPartitionTableEntry), and the fields of an entry at `off`.
abbrev pub gpt_entry_size : ℕ
gpt_entry_size = 0x80

abbrev pub lba_start : Buf → ℕ → ℕ
lba_start b off = load_le64 b (off + 32)

abbrev pub lba_end : Buf → ℕ → ℕ
lba_end b off = load_le64 b (off + 40)

unfoldable pub entry_blocks : Buf → ℕ → ℕ
entry_blocks b off = ((lba_end b off + 1) % 2 ^ 64 + 2 ^ 64 - lba_start b off) % 2 ^ 64

-- The part of a block that is copied into a header.
unfoldable pub gpt_header : Buf → Buf
unfolding memcpy
gpt_header block = memcpy (λ _. 0) 0 block 512

-- The number of blocks of the partition array that are read.
unfoldable pub part_array_block_count : ℕ → Buf → ℕ
part_array_block_count block_length h =
    let count = partition_array_count h in
    (if ltb 128 count then 128 else count) / (block_length / gpt_entry_size)

module _ {W : Type 0} (usb : Usb W) (libs : Libs W) (read : Buf → ℕ → ℕ → Cmd W (Bool × Buf))
    (l : LogicalUnitContext) where
  -- The checksum of a header is computed with its own field zeroed.
  unfoldable pub has_header_crc32 : Buf → Bool
  unfolding memset
  has_header_crc32 h = libs.crc32 (memset h 16 0 4) (header_size h) == header_crc32 h

  unfoldable pub inspect_gpt_entry : Buf → ℕ → ℕ → Probe W (ℕ × Buf)
  unfolding bytes_at
  inspect_gpt_entry block off lba =
      if bytes_at block off microsoft_basic_data_guid
      then (inspect_volume_boot_record libs read l block lba >>= λ (fs_type, b).
          if fs_type == fs_invalid
          then inspect_ext_super_block libs read l b lba
          else pure (fs_type, b))
      else if bytes_at block off linux_filesystem_data_guid
      then inspect_ext_super_block libs read l block lba
      else pure (fs_invalid, block)

  -- The entries of a block from number `j` on, of which there are `n`. They are read from the block
  -- that the inspection of the earlier ones left.
  unfoldable pub parse_gpt_entries : ℕ → ℕ → Buf → Probe W Buf
  unfolding entry_blocks
  parse_gpt_entries j zero block = pure block
  parse_gpt_entries j (suc n) block = do
    let lba = lba_start block (j * gpt_entry_size)
    let size = entry_blocks block (j * gpt_entry_size)
    (fs_type, b) ← inspect_gpt_entry block (j * gpt_entry_size) lba
    b' ← register_detected usb libs read l b lba size fs_type
    parse_gpt_entries (suc j) n b'

  -- The blocks of the partition array from number `i` on, of which there are `n`.
  unfoldable pub parse_gpt_blocks : ℕ → ℕ → ℕ → Buf → Probe W Buf
  parse_gpt_blocks part_lba i zero block = pure block
  parse_gpt_blocks part_lba i (suc n) block = do
    (ok, b) ← cmd (read block ((part_lba + i) % 2 ^ 64) 1)
    if not ok
        then pure b
        else (parse_gpt_entries 0 (l.block_length / gpt_entry_size) b >>= λ b'.
            parse_gpt_blocks part_lba (suc i) n b')

  -- From the header that was found to be good.
  unfoldable pub parse_gpt_array : Buf → Buf → Probe W Buf
  unfolding part_array_block_count
  parse_gpt_array h block =
      if not (partition_array_entry_size h == gpt_entry_size)
      then pure block
      else parse_gpt_blocks (partition_array_lba h) 0 (part_array_block_count l.block_length h)
          block

  -- The header at the other end of the unit, when the first one `h` has a bad checksum.
  unfoldable pub parse_backup_gpt : Buf → Buf → Probe W Buf
  unfolding gpt_header has_header_crc32
  parse_backup_gpt h block = do
    let lba = backup_header_lba h
    if lba == 0 || lba == cur_header_lba h || leb l.block_count lba then pure block else do
      (ok, b) ← cmd (read block lba 1)
      if not ok || not (has_header_crc32 (gpt_header b))
          then pure b
          else parse_gpt_array (gpt_header b) b

  unfoldable pub parse_guid_partition_table : Buf → ℕ → Probe W Buf
  unfolding bytes_at gpt_header has_header_crc32
  parse_guid_partition_table block gpt_lba = do
    (ok, b) ← cmd (read block gpt_lba 1)
    if not ok || not (bytes_at (gpt_header b) 0 gpt_start)
        then pure b
        else if has_header_crc32 (gpt_header b)
        then parse_gpt_array (gpt_header b) b
        else parse_backup_gpt (gpt_header b) b
