-- ===== src/Scsi/Blocks/Bounds.antt =====
-- How many blocks one command moves, for the block lengths that a unit can be started with.
use libusbhsfs.Base.{
  ℕ, ◌+◌, ◌-◌, ◌*◌, ◌/◌, ◌%◌, ◌^◌, ◌≤◌, ◌<◌, ◌≡◌, refl, sym, subst, Bool, true, false, not, ◌&&◌,
  ◌||◌, arith, ◌==◌, ltb, leb, if◌then◌else◌, all_below, all_below_sound,
}
use libusbhsfs.Scsi.Transfer.{xfer_buf_size}
use libusbhsfs.Scsi.Blocks.{rw10_max_block_count, max_block_count_per_loop}

infix 4 ◌⇔◌
abbrev ◌⇔◌ : Bool → Bool → Bool
true ⇔ b = b
false ⇔ b = not b

⇔_sound : (a b : Bool) → (a ⇔ b) ≡ true → a ≡ b
⇔_sound true b h = sym h
⇔_sound false true h = cc
⇔_sound false false h = refl

-- The lengths that usbHsFsScsiStartDriveLogicalUnit() accepts.
abbrev pub IsBlockLength : ℕ → Type 0
IsBlockLength n = (0 < n) × (n % 512 ≡ 0) × (n ≤ 4096)

abbrev command_limit : Bool → ℕ
command_limit long_lba = if long_lba then rw10_max_block_count + 1 else rw10_max_block_count

-- A test at the block length `512 * (k + 1)`.
abbrev in_bounds : Bool → ℕ → Bool
in_bounds long_lba k =
    let max = max_block_count_per_loop long_lba (512 * (k + 1)) in
    (ltb 0 max && leb max (command_limit long_lba)) && ltb (max * (512 * (k + 1))) (2 ^ 32)

in_bounds_table : (long_lba : Bool) → all_below 8 (in_bounds long_lba) ≡ true
unfolding all_below max_block_count_per_loop
in_bounds_table true = refl
in_bounds_table false = refl

units : (n : ℕ) → IsBlockLength n → 512 * (n / 512 - 1 + 1) ≡ n
units n h = omega arith

abbrev Bounds : Bool → ℕ → Type 0
Bounds long_lba n =
    (0 < max_block_count_per_loop long_lba n)
    × (max_block_count_per_loop long_lba n ≤ command_limit long_lba)
    × (max_block_count_per_loop long_lba n * n < 2 ^ 32)

Bounds-of_table :
    (long_lba : Bool) (k : ℕ) → in_bounds long_lba k ≡ true → Bounds long_lba (512 * (k + 1))
Bounds-of_table long_lba k h = ground arith

-- For a block length that is a multiple of 512 up to 4096, a command moves at least one block, no
-- more than its count field holds, and its bytes do not overflow 32 bits.
pub max_block_count_per_loop-Bounds :
    (long_lba : Bool) (n : ℕ) → IsBlockLength n → Bounds long_lba n
max_block_count_per_loop-Bounds long_lba n h = subst (Bounds long_lba) (units n h) (
    Bounds-of_table long_lba (n / 512 - 1) (
      all_below_sound 8 (in_bounds long_lba) (in_bounds_table long_lba) (n / 512 - 1)
        (omega arith)))

-- Whether a command moves a whole number of transfer buffers.
abbrev is_aligned : Bool → ℕ → Bool
is_aligned long_lba n = max_block_count_per_loop long_lba n % (xfer_buf_size / n) == 0

abbrev is_power : ℕ → Bool
is_power n = ((n == 512) || (n == 1024)) || ((n == 2048) || (n == 4096))

aligned_table :
    (long_lba : Bool)
    → all_below 8 (λ k. is_aligned long_lba (512 * (k + 1)) ⇔ is_power (512 * (k + 1))) ≡ true
unfolding all_below max_block_count_per_loop
aligned_table true = refl
aligned_table false = refl

-- A full command moves a whole number of 8 MiB transfer buffers exactly if the block length is a
-- power of two: for 1536, 2560, 3072 and 3584 bytes it does not.
pub max_block_count_per_loop-aligned :
    (long_lba : Bool) (n : ℕ) → IsBlockLength n → is_aligned long_lba n ≡ is_power n
max_block_count_per_loop-aligned long_lba n h =
    subst (λ m. is_aligned long_lba m ≡ is_power m) (units n h)
      (⇔_sound _ _ (
        all_below_sound 8 (λ k. is_aligned long_lba (512 * (k + 1)) ⇔ is_power (512 * (k + 1)))
          (aligned_table long_lba) (n / 512 - 1) (omega arith)))
