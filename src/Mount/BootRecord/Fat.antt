-- ===== src/Mount/BootRecord/Fat.antt =====
-- The boot records that are taken for FAT volumes.
use libusbhsfs.Base.{
  ℕ, zero, suc, ◌%◌, ◌^◌, ◌≤◌, ◌≡◌, ◌⊎◌, inl, inr, Bool, true, false, ◌&&◌, ◌==◌, arith, Bool-cases,
}
use libusbhsfs.Bytes.{Buf}
use libusbhsfs.Mount.Context.{fs_fat}
use libusbhsfs.Mount.BootRecord.{
  boot_sig, boot_signature, bytes_at, exfat_start, ntfs_oem_name, fat32_fs_type, has_jump_code,
  looks_like_fat, vbr_type, is_power_of_two, sector_size, sectors_per_cluster, reserved_sectors,
  num_fats, root_dir_entries, total_sectors_16, total_sectors_32, sectors_per_fat,
}
use libusbhsfs.Mount.BootRecord.Powers.{IsPower, is_power_of_two-IsPower, IsPower-is_power_of_two}

-- The fields of a FAT12 or FAT16 volume, in a unit with blocks of `len` bytes. The sector size may
-- be 0, and so may the number of FATs.
pub record HasFatFields (len : ℕ) (b : Buf) : Type 0 where
  pub sector : (sector_size b ≡ 0) ⊎ IsPower (sector_size b)
  pub sector_fits : sector_size b ≤ len % 2 ^ 16
  pub cluster : IsPower (sectors_per_cluster b)
  pub reserved : 1 ≤ reserved_sectors b
  pub fats : num_fats b ≤ 2
  pub root : 1 ≤ root_dir_entries b
  pub sectors : (128 ≤ total_sectors_16 b) ⊎ (0x10000 ≤ total_sectors_32 b)
  pub per_fat : 1 ≤ sectors_per_fat b

not_zero-IsPower : (x : ℕ) → (x ≡ 0) ⊎ IsPower x → 1 ≤ x → IsPower x
not_zero-IsPower x (inl e) h = absurd (omega (arith, e))
not_zero-IsPower x (inr p) h = p

pow_pos : (k : ℕ) → 1 ≤ 2 ^ k
pow_pos zero = omega arith
pow_pos (suc k) = grind (arith, pow_pos k)

IsPower-pos : (x : ℕ) → IsPower x → 1 ≤ x
IsPower-pos x (k, e) = omega (arith, e, pow_pos k)

looks_like_fat-HasFatFields : (len : ℕ) (b : Buf) → looks_like_fat len b ≡ true → HasFatFields len b
unfolding looks_like_fat
looks_like_fat-HasFatFields len b h =
    let p : is_power_of_two (sector_size b) ≡ true = ground arith in
    let q : is_power_of_two (sectors_per_cluster b) ≡ true = ground arith in
    let some_cluster : 1 ≤ sectors_per_cluster b = ground arith in
    record {
      sector = is_power_of_two-IsPower (sector_size b) p;
      sector_fits = ground arith;
      cluster =
          not_zero-IsPower (sectors_per_cluster b)
            (is_power_of_two-IsPower (sectors_per_cluster b) q) some_cluster;
      reserved = ground arith;
      fats = ground arith;
      root = ground arith;
      sectors = ground arith;
      per_fat = ground arith;
    }

HasFatFields-looks_like_fat : (len : ℕ) (b : Buf) → HasFatFields len b → looks_like_fat len b ≡ true
unfolding looks_like_fat
HasFatFields-looks_like_fat len b f =
    let p = IsPower-is_power_of_two (sector_size b) f.sector in
    let q = IsPower-is_power_of_two (sectors_per_cluster b) (inr f.cluster) in
    let some_cluster = IsPower-pos (sectors_per_cluster b) f.cluster in
    let sector_fits = f.sector_fits in
    let reserved = f.reserved in
    let fats = f.fats in
    let root = f.root in let sectors = f.sectors in let per_fat = f.per_fat in ground arith

abbrev IsSigned : Buf → Type 0
IsSigned b = boot_sig b ≡ boot_signature

-- A FAT volume: exFAT by its first bytes; or, but for NTFS, a record with a jump code that is
-- FAT32 by its type or FAT12 or FAT16 by its fields. The first two and NTFS need the signature.
abbrev pub IsFatRecord : ℕ → Buf → Type 0
IsFatRecord len b =
    (IsSigned b × (bytes_at b 0 exfat_start ≡ true))
    ⊎ ((has_jump_code b ≡ true)
        × ((IsSigned b → bytes_at b 3 ntfs_oem_name ≡ false)
            × ((IsSigned b × (bytes_at b 82 fat32_fs_type ≡ true)) ⊎ HasFatFields len b)))

-- The tests, without what they look at.
abbrev FatTests : ℕ → Buf → Type 0
FatTests len b =
    (((boot_sig b == boot_signature) && bytes_at b 0 exfat_start) ≡ true)
    ⊎ ((has_jump_code b ≡ true)
        × (((boot_sig b == boot_signature) && bytes_at b 3 ntfs_oem_name) ≡ false)
        × ((((boot_sig b == boot_signature) && bytes_at b 82 fat32_fs_type) ≡ true)
            ⊎ (looks_like_fat len b ≡ true)))

vbr_type-FatTests : (len : ℕ) (b : Buf) → vbr_type len b ≡ fs_fat → FatTests len b
unfolding vbr_type
vbr_type-FatTests len b h = ground arith

FatTests-vbr_type : (len : ℕ) (b : Buf) → FatTests len b → vbr_type len b ≡ fs_fat
unfolding vbr_type
FatTests-vbr_type len b h = ground arith

IsSigned-and :
    (b : Buf) (t : Bool) → ((boot_sig b == boot_signature) && t) ≡ true → IsSigned b × (t ≡ true)
IsSigned-and b t h = (ground arith, ground arith)

and-IsSigned :
    (b : Buf) (t : Bool) → IsSigned b × (t ≡ true) → ((boot_sig b == boot_signature) && t) ≡ true
and-IsSigned b t (sig, h) = ground arith

unless-IsSigned :
    (b : Buf) (t : Bool) → ((boot_sig b == boot_signature) && t) ≡ false → IsSigned b → t ≡ false
unless-IsSigned b t h sig = ground arith

IsSigned-unless :
    (b : Buf) (t : Bool) → (IsSigned b → t ≡ false) → ((boot_sig b == boot_signature) && t) ≡ false
IsSigned-unless b t h = elim (Bool-cases (boot_sig b == boot_signature)) [
  | inl e ↦ let sig : IsSigned b = ground arith in let no = h sig in ground arith
  | inr e ↦ ground arith
]

FatTests-IsFatRecord : (len : ℕ) (b : Buf) → FatTests len b → IsFatRecord len b
FatTests-IsFatRecord len b (inl h) = inl (IsSigned-and b _ h)
FatTests-IsFatRecord len b (inr (jump, ntfs, inl h)) =
    inr (jump, (unless-IsSigned b _ ntfs, inl (IsSigned-and b _ h)))
FatTests-IsFatRecord len b (inr (jump, ntfs, inr h)) =
    inr (jump, (unless-IsSigned b _ ntfs, inr (looks_like_fat-HasFatFields len b h)))

IsFatRecord-FatTests : (len : ℕ) (b : Buf) → IsFatRecord len b → FatTests len b
IsFatRecord-FatTests len b (inl h) = inl (and-IsSigned b _ h)
IsFatRecord-FatTests len b (inr (jump, (ntfs, inl h))) =
    inr (jump, IsSigned-unless b _ ntfs, inl (and-IsSigned b _ h))
IsFatRecord-FatTests len b (inr (jump, (ntfs, inr h))) =
    inr (jump, IsSigned-unless b _ ntfs, inr (HasFatFields-looks_like_fat len b h))

-- A boot record is taken for that of a FAT volume just when it is the record of one, as the
-- description above says.
pub vbr_type-IsFatRecord :
    (len : ℕ) (b : Buf)
    → (vbr_type len b ≡ fs_fat → IsFatRecord len b) × (IsFatRecord len b → vbr_type len b ≡ fs_fat)
vbr_type-IsFatRecord len b = (
  λ h. FatTests-IsFatRecord len b (vbr_type-FatTests len b h),
  λ h. FatTests-vbr_type len b (IsFatRecord-FatTests len b h),
)
