-- ===== src/Disk.antt =====
-- The layers between the file system libraries and the blocks of a logical unit, and what they rely
-- on: a unit whose blocks can be read, and written.
pub mod Unit
pub mod Ext
pub mod Fat
pub mod Ntfs
use libusbhsfs.Base.{ℕ, ◌+◌, ◌*◌, ◌^◌, ◌≤◌, ◌<◌, ◌≡◌, Bool, true, some}
use libusbhsfs.Bytes.{Buf, memcpy, shift}
use libusbhsfs.Usb.{State, Usb, alloc, free}
use libusbhsfs.Cmd.{Cmd}

-- usbHsFsScsiReadLogicalUnitBlocks() and usbHsFsScsiWriteLogicalUnitBlocks() of one unit.
pub record Blocks (W : Type 0) : Type 0 where
  pub read : Buf → ℕ → ℕ → Cmd W (Bool × Buf)
  pub write : Buf → ℕ → ℕ → Cmd W (Bool × Buf)

-- The unit is a disk of `size` blocks of `len` bytes, as long as `Ready` holds: a read gives the
-- bytes that are there, and neither a read nor an allocation changes the disk. Nothing is asked of
-- writes: a unit that is protected from them is readable.
pub record IsReadable {W : Type 0} (usb : Usb W) (blocks : Blocks W) (disk_of : State W → Buf)
    (len size : ℕ) (Ready : State W → Type 0) : Type 0 where
  pub reads :
      (b : Buf) (addr n : ℕ) (s : State W)
      → Ready s
      → addr + n ≤ size
      → n * len < 2 ^ 64
      → (s' : State W) × Ready s'
        × (disk_of s' ≡ disk_of s)
        × (blocks.read b addr n s
            ≡ some ((true, memcpy b 0 (shift (addr * len) (disk_of s)) (n * len)), s'))
  pub allocates :
      (n : ℕ) (s : State W)
      → Ready s
      → Ready (alloc usb n s).1 × (disk_of (alloc usb n s).1 ≡ disk_of s)
  pub frees : (s : State W) → Ready s → Ready (free usb s).1 × (disk_of (free usb s).1 ≡ disk_of s)

-- And a write puts the caller's bytes there and changes no others.
pub record IsDisk {W : Type 0} (usb : Usb W) (blocks : Blocks W) (disk_of : State W → Buf)
    (len size : ℕ) (Ready : State W → Type 0) : Type 0 where
  pub readable : IsReadable usb blocks disk_of len size Ready
  pub writes :
      (b : Buf) (addr n : ℕ) (s : State W)
      → Ready s
      → addr + n ≤ size
      → n * len < 2 ^ 64
      → (s' : State W) × Ready s'
        × (disk_of s' ≡ memcpy (disk_of s) (addr * len) b (n * len))
        × (blocks.write b addr n s ≡ some ((true, b), s'))
