-- ===== src/Mount/BootRecord.antt =====
-- source/usbhsfs_mount.c: usbHsFsMountInspectVolumeBootRecord() and
-- usbHsFsMountInspectExtSuperBlock().
pub mod Powers
pub mod Fat
use Prim.Native.Nat.{bit_and}
use libusbhsfs.Base.{
  ℕ, zero, suc, ◌+◌, ◌-◌, ◌/◌, ◌%◌, ◌^◌, Bool, true, false, not, ◌&&◌, ◌||◌, List, [], ◌∷◌, ◌==◌,
  leb, if◌then◌else◌,
}
use libusbhsfs.Bytes.{Buf, load_le16, load_le32, memcpy, shift}
use libusbhsfs.Cmd.{Cmd}
use libusbhsfs.Scsi.Lun.{LogicalUnitContext}
use libusbhsfs.Mount.Context.{fs_invalid, fs_unsupported, fs_fat, fs_ntfs, fs_ext}
use libusbhsfs.Mount.Monad.{Libs}
use libusbhsfs.Mount.Probe.{Probe, ◌>>=◌, ◌>>◌, pure, cmd}

abbrev pub boot_signature : ℕ
boot_signature = 0xaa55

-- Whether `memcmp(block + off, bytes, n)` is 0.
unfoldable pub bytes_at : Buf → ℕ → List ℕ → Bool
bytes_at block off [] = true
bytes_at block off (x ∷ xs) = block off == x && bytes_at block (suc off) xs

-- "\xEB\x76\x90" "EXFAT   ", "NTFS    " and "FAT32   ".
abbrev pub exfat_start : List ℕ
exfat_start =
    0xeb
    ∷ (0x76 ∷ (0x90 ∷ (0x45 ∷ (0x58 ∷ (0x46 ∷ (0x41 ∷ (0x54 ∷ (0x20 ∷ (0x20 ∷ (0x20 ∷ []))))))))))

abbrev pub ntfs_oem_name : List ℕ
ntfs_oem_name = 0x4e ∷ (0x54 ∷ (0x46 ∷ (0x53 ∷ (0x20 ∷ (0x20 ∷ (0x20 ∷ (0x20 ∷ [])))))))

abbrev pub fat32_fs_type : List ℕ
fat32_fs_type = 0x46 ∷ (0x41 ∷ (0x54 ∷ (0x33 ∷ (0x32 ∷ (0x20 ∷ (0x20 ∷ (0x20 ∷ [])))))))

-- The fields of VolumeBootRecord that are read.
unfoldable pub boot_sig : Buf → ℕ
boot_sig b = load_le16 b 510

abbrev pub sector_size : Buf → ℕ
sector_size b = load_le16 b 11

abbrev pub sectors_per_cluster : Buf → ℕ
sectors_per_cluster b = b 13

abbrev pub reserved_sectors : Buf → ℕ
reserved_sectors b = load_le16 b 14

abbrev pub num_fats : Buf → ℕ
num_fats b = b 16

abbrev pub root_dir_entries : Buf → ℕ
root_dir_entries b = load_le16 b 17

abbrev pub total_sectors_16 : Buf → ℕ
total_sectors_16 b = load_le16 b 19

abbrev pub sectors_per_fat : Buf → ℕ
sectors_per_fat b = load_le16 b 22

abbrev pub total_sectors_32 : Buf → ℕ
total_sectors_32 b = load_le32 b 32

unfoldable pub has_jump_code : Buf → Bool
has_jump_code b = b 0 == 0xeb || b 0 == 0xe9 || b 0 == 0xe8

-- `(x & (x - 1)) == 0`.
abbrev pub is_power_of_two : ℕ → Bool
is_power_of_two x = bit_and x (x - 1) == 0

-- The fields of a FAT volume from an old tool. The subtraction `num_fats - 1` is one of `int`.
unfoldable pub looks_like_fat : ℕ → Buf → Bool
looks_like_fat block_length b =
    is_power_of_two (sector_size b)
    && leb (sector_size b) (block_length % 2 ^ 16)
    && not (sectors_per_cluster b == 0)
    && is_power_of_two (sectors_per_cluster b)
    && not (reserved_sectors b == 0)
    && leb (num_fats b) 2
    && not (root_dir_entries b == 0)
    && (leb 128 (total_sectors_16 b) || leb 0x10000 (total_sectors_32 b))
    && not (sectors_per_fat b == 0)

-- The type of the boot record in a block that was read.
unfoldable pub vbr_type : ℕ → Buf → ℕ
vbr_type block_length b =
    if boot_sig b == boot_signature && bytes_at b 0 exfat_start
    then fs_fat
    else if boot_sig b == boot_signature && bytes_at b 3 ntfs_oem_name
    then fs_ntfs
    else if has_jump_code b && boot_sig b == boot_signature && bytes_at b 82 fat32_fs_type
    then fs_fat
    else if has_jump_code b && looks_like_fat block_length b
    then fs_fat
    else if boot_sig b == boot_signature
    then fs_unsupported
    else fs_invalid

-- EXT4_SUPERBLOCK_OFFSET and EXT4_SUPERBLOCK_SIZE of lwext4.
abbrev pub superblock_offset : ℕ
superblock_offset = 1024

abbrev pub superblock_size : ℕ
superblock_size = 1024

module _ {W : Type 0} (libs : Libs W) (read : Buf → ℕ → ℕ → Cmd W (Bool × Buf))
    (l : LogicalUnitContext) where
  -- It returns the type, and the block that it was given, with what was read.
  unfoldable pub inspect_volume_boot_record : Buf → ℕ → Probe W (ℕ × Buf)
  unfolding vbr_type
  inspect_volume_boot_record block block_addr = do
    (ok, b) ← cmd (read block block_addr 1)
    pure (if ok then vbr_type l.block_length b else fs_invalid, b)

  abbrev superblock_type : Buf → ℕ
  superblock_type superblock = if libs.ext4_sb_check superblock then fs_ext else fs_invalid

  unfoldable pub inspect_ext_super_block : Buf → ℕ → Probe W (ℕ × Buf)
  unfolding memcpy shift
  inspect_ext_super_block block block_addr = do
    let block_read_addr = (block_addr + superblock_offset / l.block_length) % 2 ^ 32
    let block_read_count =
        if leb superblock_size l.block_length then 1 else superblock_size / l.block_length
    if block_read_count == 1
        then (cmd (read block block_read_addr 1) >>= λ (ok, b).
            let off = if block_read_addr == block_addr then superblock_offset else 0 in
            let superblock = memcpy (λ _. 0) 0 (shift off b) superblock_size in
            pure (if ok then superblock_type superblock else fs_invalid, b))
        else do
          (ok, superblock) ← cmd (read (λ _. 0) block_read_addr block_read_count)
          pure (if ok then superblock_type superblock else fs_invalid, block)
