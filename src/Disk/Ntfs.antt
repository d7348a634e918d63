-- ===== src/Disk/Ntfs.antt =====
-- source/ntfs-3g/ntfs_disk_io.c: the device that ntfs-3g reads and writes. A signed 64-bit number is
-- given by its word, which is 2 ^ 63 or more if it is negative.
pub mod Range
pub mod Seek
pub mod Reads
pub mod Edges
pub mod Filled
pub mod Writes
use libusbhsfs.Base.{
  ℕ, ◌+◌, ◌-◌, ◌*◌, ◌%◌, ◌^◌, Bool, true, false, not, ◌&&◌, ◌||◌, Option, none, some, ◌==◌, ltb,
  leb, if◌then◌else◌,
}
use libusbhsfs.Bytes.{Buf, memcpy, shift, unshift}
use libusbhsfs.Usb.{Usb, alloc, free}
use libusbhsfs.Cmd.{Cmd, ◌>>=◌, ◌>>◌, pure, lift}
use libusbhsfs.Mount.Context.{NtfsDd}
use libusbhsfs.Disk.{Blocks}

-- The values of errno.
pub data Errno : Type 0 where
  ebadf ebusy einvalpart eio einval enomem erofs eopnotsupp : Errno

-- The value of a function that did what it was asked, or errno.
pub data Reply : Type 0 where
  returns : ℕ → Reply
  fails : Errno → Reply

-- What ntfs_io_device_open() fills in of `ntfs_dd`.
pub record Geometry : Type 0 where
  pub sector_offset : ℕ
  pub sector_size : ℕ
  pub sector_count : ℕ
  pub pos : ℕ
  pub len : ℕ
  pub ino : ℕ

-- `struct ntfs_device`: its flags and its descriptor `d_private`.
pub record NtfsDevice : Type 0 where
  pub dd : Option NtfsDd
  pub geometry : Geometry
  pub is_open : Bool
  pub is_block : Bool
  pub is_read_only : Bool
  pub is_dirty : Bool
  pub is_sync : Bool

-- ntfs-3g: ntfs_boot_sector_is_ntfs(), and the fields of NTFS_BOOT_SECTOR.
pub record BootSector : Type 0 where
  pub is_ntfs : Buf → Bool
  pub bytes_per_sector : Buf → ℕ
  pub hidden_sectors : Buf → ℕ
  pub number_of_sectors : Buf → ℕ
  pub volume_serial_number : Buf → ℕ

unfoldable pub geometry_of : BootSector → Buf → Geometry
geometry_of boot vbr = record {
  sector_offset = boot.hidden_sectors vbr;
  sector_size = boot.bytes_per_sector vbr;
  sector_count = boot.number_of_sectors vbr;
  pos = 0;
  len = boot.bytes_per_sector vbr * boot.number_of_sectors vbr % 2 ^ 64;
  ino = boot.volume_serial_number vbr;
}

-- `read_only` is `flags & O_RDONLY`.
unfoldable pub device_open : BootSector → Bool → NtfsDevice → Reply × NtfsDevice
unfolding geometry_of
device_open boot read_only dev = elim dev.dd [
  | none ↦ (fails ebadf, dev)
  | some dd ↦
      if dev.is_open
      then (fails ebusy, dev)
      else if not (boot.is_ntfs dd.vbr)
      then (fails einvalpart, dev)
      else (
        returns 0,
        record dev {
          geometry = geometry_of boot dd.vbr;
          is_read_only = dev.is_read_only || read_only;
          is_block = true;
          is_open = true;
        },
      )
]

unfoldable pub device_sync : NtfsDevice → Reply × NtfsDevice
device_sync dev =
    if dev.is_read_only
    then (fails erofs, dev)
    else (returns 0, record dev { is_dirty = false; is_sync = false })

unfoldable pub device_close : NtfsDevice → Reply × NtfsDevice
unfolding device_sync
device_close dev =
    if not dev.is_open
    then (fails eio, dev)
    else let closed = record dev { is_open = false; is_block = false } in
      (
        returns 0,
        if closed.is_dirty && not closed.is_read_only then (device_sync closed).1 else closed,
      )

-- SEEK_SET, SEEK_CUR, SEEK_END.
pub data Whence : Type 0 where
  seek_set seek_cur seek_end other_whence : Whence

abbrev pub is_negative : ℕ → Bool
is_negative x = leb (2 ^ 63) x

abbrev pub min : ℕ → ℕ → ℕ
min a b = if ltb a b then a else b

-- MAX(offset, 0) of a signed number.
abbrev pub max_0 : ℕ → ℕ
max_0 offset = if is_negative offset then 0 else offset

-- The other sums are unsigned, so that their MAX with 0 is no test.
unfoldable pub seek_pos : Geometry → ℕ → Whence → Option ℕ
seek_pos g offset seek_set = some (min (max_0 offset) g.len)
seek_pos g offset seek_cur = some (min ((g.pos + offset) % 2 ^ 64) g.len)
seek_pos g offset seek_end = some (min ((g.len + offset) % 2 ^ 64) g.len)
seek_pos g offset other_whence = none

unfoldable pub device_seek : NtfsDevice → ℕ → Whence → Reply × NtfsDevice
unfolding seek_pos
device_seek dev offset whence = elim dev.dd [
  | none ↦ (fails ebadf, dev)
  | some dd ↦ elim (seek_pos dev.geometry offset whence) [
    | none ↦ (fails einval, dev)
    | some pos ↦ (returns 0, record dev { geometry = record dev.geometry { pos = pos } })
  ]
]

-- `(u64)floor((double)a / (double)b)` and `(u64)ceil((double)a / (double)b)`.
pub record Doubles : Type 0 where
  pub floor_quotient : ℕ → ℕ → ℕ
  pub ceil_quotient : ℕ → ℕ → ℕ

-- The sectors that `count` bytes at `offset` lie in.
pub record Sectors : Type 0 where
  pub start : ℕ
  pub count : ℕ
  pub buffer_offset : ℕ

unfoldable pub sectors_of : Doubles → NtfsDd → Geometry → ℕ → ℕ → Sectors
sectors_of doubles dd g offset count =
    let buffer_offset = offset % g.sector_size % 2 ^ 32 in
    record {
      start =
          if offset == 0
          then dd.sector_start
          else (dd.sector_start + doubles.floor_quotient offset g.sector_size) % 2 ^ 64;
      count =
          if ltb g.sector_size (buffer_offset + count)
          then doubles.ceil_quotient (buffer_offset + count) g.sector_size
          else 1;
      buffer_offset = buffer_offset;
    }

abbrev pub is_aligned : Sectors → Geometry → ℕ → Bool
is_aligned v g count = v.buffer_offset == 0 && (count % g.sector_size == 0)

-- `offset < 0 || count <= 0`.
abbrev pub is_bad_range : ℕ → ℕ → Bool
is_bad_range offset count = is_negative offset || is_negative count || (count == 0)

module _ {W : Type 0} (usb : Usb W) (doubles : Doubles) (blocks : Blocks W) where
  unfoldable pub read_sectors : ℕ → ℕ → Buf → Cmd W (Bool × Buf)
  read_sectors start count buf = blocks.read buf start (count % 2 ^ 32)

  unfoldable pub write_sectors : ℕ → ℕ → Buf → Cmd W (Bool × Buf)
  write_sectors start count buf = blocks.write buf start (count % 2 ^ 32)

  abbrev pub buffer_size : Sectors → Geometry → ℕ
  buffer_size v g = v.count * g.sector_size % 2 ^ 64

  abbrev pub close_buffer : {A : Type 0} → A → Cmd W A
  close_buffer a = lift (free usb) >> pure a

  -- A read through a buffer, which holds `heap` at first.
  unfoldable pub read_buffered : Sectors → Geometry → ℕ → Buf → Buf → Cmd W (Reply × Buf)
  read_buffered v g count heap buf = do
    has_buffer ← lift (alloc usb (buffer_size v g))
    if not has_buffer then pure (fails enomem, buf) else do
      (ok, buffer) ← read_sectors v.start v.count heap
      close_buffer (
          if ok
          then (returns count, memcpy buf 0 (shift v.buffer_offset buffer) count)
          else (fails eio, buf))

  -- A read of whole sectors goes straight into the caller's buffer.
  unfoldable pub read_direct : Sectors → ℕ → Buf → Cmd W (Reply × Buf)
  read_direct v count buf = do
    (ok, b) ← read_sectors v.start v.count buf
    pure (if ok then returns count else fails eio, b)

  unfoldable pub read_bytes : NtfsDevice → ℕ → ℕ → Buf → Buf → Cmd W (Reply × Buf)
  read_bytes dev offset count heap buf = elim dev.dd [
    | none ↦ pure (fails ebadf, buf)
    | some dd ↦
        if is_bad_range offset count
        then pure (fails einval, buf)
        else let v = sectors_of doubles dd dev.geometry offset count in
          if is_aligned v dev.geometry count
          then read_direct v count buf
          else read_buffered v dev.geometry count heap buf
  ]

  -- A sector at the edge of a write is read into its place in the buffer, if it is `needed`.
  unfoldable pub read_edge : Bool → ℕ → ℕ → Buf → Cmd W (Bool × Buf)
  read_edge needed off sector buffer = if not needed then pure (true, buffer) else do
    (ok, part) ← read_sectors sector 1 (shift off buffer)
    pure (ok, unshift off part buffer)

  -- From the buffer with its edges on.
  unfoldable pub write_buffer : NtfsDevice → Sectors → ℕ → Buf → Buf → Cmd W (Reply × NtfsDevice)
  write_buffer dev v count buf buffer = do
    (ok, _) ← write_sectors v.start v.count (memcpy buffer v.buffer_offset buf count)
    pure (if ok then (returns count, record dev { is_dirty = true }) else (fails eio, dev))

  unfoldable pub fill_edges : Sectors → Geometry → ℕ → Buf → Cmd W (Bool × Buf)
  fill_edges v g count heap = do
    (ok, b) ← read_edge (not (v.buffer_offset == 0)) 0 v.start heap
    if not ok
        then pure (false, b)
        else read_edge (not ((v.buffer_offset + count) % g.sector_size == 0))
            ((v.count - 1) * g.sector_size % 2 ^ 64) ((v.start + v.count + 2 ^ 64 - 1) % 2 ^ 64) b

  unfoldable pub write_buffered : NtfsDevice → Sectors → ℕ → Buf → Buf → Cmd W (Reply × NtfsDevice)
  write_buffered dev v count heap buf = do
    has_buffer ← lift (alloc usb (buffer_size v dev.geometry))
    if not has_buffer then pure (fails enomem, dev) else do
      (ok, buffer) ← fill_edges v dev.geometry count heap
      r ← if not ok then pure (fails eio, dev) else write_buffer dev v count buf buffer
      close_buffer r

  -- A write of whole sectors comes straight from the caller's buffer. It marks nothing as dirty.
  unfoldable pub write_direct : NtfsDevice → Sectors → ℕ → Buf → Cmd W (Reply × NtfsDevice)
  write_direct dev v count buf = do
    (ok, _) ← write_sectors v.start v.count buf
    pure (if ok then returns count else fails eio, dev)

  unfoldable pub write_bytes : NtfsDevice → ℕ → ℕ → Buf → Buf → Cmd W (Reply × NtfsDevice)
  write_bytes dev offset count heap buf = elim dev.dd [
    | none ↦ pure (fails ebadf, dev)
    | some dd ↦
        if dev.is_read_only
        then pure (fails erofs, dev)
        else if is_bad_range offset count
        then pure (fails einval, dev)
        else let v = sectors_of doubles dd dev.geometry offset count in
          if is_aligned v dev.geometry count
          then write_direct dev v count buf
          else write_buffered dev v count heap buf
  ]

  -- The `read` and `write` operations use the position, and leave it as it is.
  unfoldable pub device_read : NtfsDevice → ℕ → Buf → Buf → Cmd W (Reply × Buf)
  device_read dev count heap buf = read_bytes dev dev.geometry.pos count heap buf

  unfoldable pub device_write : NtfsDevice → ℕ → Buf → Buf → Cmd W (Reply × NtfsDevice)
  device_write dev count heap buf = write_bytes dev dev.geometry.pos count heap buf
