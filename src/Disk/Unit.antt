-- ===== src/Disk/Unit.antt =====
-- A logical unit as a disk: its reads and writes of blocks, over faithful SCSI commands.
use libusbhsfs.Base.{ℕ, ◌*◌, ◌^◌, ◌<◌, ◌≡◌, refl, ap, ◌∙◌, fun_ext, arith, false}
use libusbhsfs.Bytes.{Buf, memcpy, shift}
use libusbhsfs.Usb.{State, Usb, DriveContext, alloc, free}
use libusbhsfs.Scsi.Lun.{LogicalUnitContext}
use libusbhsfs.Scsi.Blocks.{
  read_command, write_command, read_logical_unit_blocks, write_logical_unit_blocks,
  max_block_count_per_loop,
}
use libusbhsfs.Scsi.Blocks.Bounds.{IsBlockLength, max_block_count_per_loop-Bounds}
use libusbhsfs.Scsi.Blocks.Whole.{IsReader, read_logical_unit_blocks-reads}
use libusbhsfs.Scsi.Blocks.Stored.{IsWriter, blocks_loop-writes}
use libusbhsfs.Disk.{Blocks, IsReadable, IsDisk}

abbrev pub unit_blocks : {W : Type 0} → Usb W → DriveContext → ℕ → LogicalUnitContext → Blocks W
unit_blocks usb d fuel l = record {
  read = read_logical_unit_blocks usb d fuel l;
  write = write_logical_unit_blocks usb d fuel l;
}

-- Allocations are of no matter to the unit.
pub record IsApart {W : Type 0} (usb : Usb W) (disk_of : State W → Buf) (Ready : State W → Type 0)
    : Type 0 where
  pub allocates :
      (n : ℕ) (s : State W)
      → Ready s
      → Ready (alloc usb n s).1 × (disk_of (alloc usb n s).1 ≡ disk_of s)
  pub frees : (s : State W) → Ready s → Ready (free usb s).1 × (disk_of (free usb s).1 ≡ disk_of s)

shift_0 : (b : Buf) → shift 0 b ≡ b
unfolding shift
shift_0 b = fun_ext λ i. ap b (omega arith)

-- A unit with a usual block length can be read, protected or not, if each command within the limit
-- reads it faithfully.
pub unit_blocks-IsReadable :
    {W : Type 0} (usb : Usb W) (d : DriveContext) (fuel : ℕ) (l : LogicalUnitContext)
    (disk_of : State W → Buf) (size : ℕ) (Ready : State W → Type 0)
    → ((disk : Buf)
        → IsReader
            (read_command usb d fuel l)
            disk
            l.block_length
            size
            (max_block_count_per_loop l.long_lba l.block_length)
            (λ s. Ready s × (disk_of s ≡ disk)))
    → IsApart usb disk_of Ready
    → IsBlockLength l.block_length
    → size < 2 ^ 64
    → IsReadable usb (unit_blocks usb d fuel l) disk_of l.block_length size Ready
unit_blocks-IsReadable usb d fuel l disk_of size Ready reader apart len small = record {
  reads = λ b addr n s ready fits room.
      let (s', (ready', same), read) =
        read_logical_unit_blocks-reads usb d fuel l (disk_of s) size
          (λ s'. Ready s' × (disk_of s' ≡ disk_of s)) addr n b s (reader (disk_of s)) len small fits
          room (ready, refl) in
      (s', ready', same, read);
  allocates = apart.allocates;
  frees = apart.frees;
}

-- A unit that is not protected is a disk, if each command writes it faithfully too.
pub unit_blocks-IsDisk :
    {W : Type 0} (usb : Usb W) (d : DriveContext) (fuel : ℕ) (l : LogicalUnitContext)
    (disk_of : State W → Buf) (size : ℕ) (Ready : State W → Type 0)
    → ((disk : Buf)
        → IsReader
            (read_command usb d fuel l)
            disk
            l.block_length
            size
            (max_block_count_per_loop l.long_lba l.block_length)
            (λ s. Ready s × (disk_of s ≡ disk)))
    → IsWriter
        (write_command usb d fuel l)
        disk_of
        l.block_length
        size
        (max_block_count_per_loop l.long_lba l.block_length)
        Ready
    → IsApart usb disk_of Ready
    → IsBlockLength l.block_length
    → l.write_protect ≡ false
    → size < 2 ^ 64
    → IsDisk usb (unit_blocks usb d fuel l) disk_of l.block_length size Ready
unfolding write_logical_unit_blocks
unit_blocks-IsDisk usb d fuel l disk_of size Ready reader writer apart len writable small = record {
  readable = unit_blocks-IsReadable usb d fuel l disk_of size Ready reader apart len small;
  writes = λ b addr n s ready fits room.
      let (s', ready', write, stored) =
        blocks_loop-writes (write_command usb d fuel l) disk_of l.block_length size
          (max_block_count_per_loop l.long_lba l.block_length) Ready addr n b s writer
          (max_block_count_per_loop-Bounds l.long_lba l.block_length len).0 small fits room ready in
      (
        s',
        ready',
        stored
            ∙ ap (λ c. memcpy (disk_of s) (addr * l.block_length) c (n * l.block_length))
                (shift_0 b),
        rw writable write,
      );
}
