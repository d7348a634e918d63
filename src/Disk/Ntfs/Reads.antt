-- ===== src/Disk/Ntfs/Reads.antt =====
-- Reads of any range of bytes, against the bytes of the disk.
use libusbhsfs.Base.{
  ℕ, ◌+◌, ◌*◌, ◌%◌, ◌^◌, ◌≤◌, ◌≡◌, ap, ◌∙◌, fun_ext, Option, if◌then◌else◌, true, false, some,
  arith, Bool-cases, inl, inr,
}
use libusbhsfs.Bytes.{Buf, memcpy, shift}
use libusbhsfs.Usb.{State, Usb, alloc, free}
use libusbhsfs.Cmd.{pure}
use libusbhsfs.Cmd.Rules.{bind-some}
use libusbhsfs.Mount.Context.{NtfsDd}
use libusbhsfs.Disk.{Blocks, IsReadable}
use libusbhsfs.Disk.Ntfs.{
  Doubles, Geometry, Sectors, NtfsDevice, Reply, returns, sectors_of, is_aligned, is_bad_range,
  read_bytes, read_buffered, read_direct, fails, eio, close_buffer, read_sectors, buffer_size,
}
use libusbhsfs.Disk.Ntfs.Range.{
  IsExact, IsInside, Covers, IsInside-Covers, IsInside-le, aligned_lem,
}

pub IsInside-good :
    (dd : NtfsDd) (g : Geometry) (size offset count : ℕ)
    → IsInside dd g size offset count
    → is_bad_range offset count ≡ false
IsInside-good dd g size offset count range =
    let far = range.far in
    let long = range.long in let some_bytes = range.some_bytes in ground arith

-- The wanted bytes of the sectors that were read.
memcpy-shift :
    (buf heap disk : Buf) (at n off from count : ℕ)
    → at + off ≡ from
    → off + count ≤ n
    → memcpy buf 0 (shift off (memcpy heap 0 (shift at disk) n)) count
      ≡ memcpy buf 0 (shift from disk) count
unfolding memcpy shift
memcpy-shift buf heap disk at n off from count same covered = fun_ext λ i.
    let there : at + (off + i) ≡ from + i = omega (arith, same) in
    let byte = ap disk there in ground arith

module _ {W : Type 0} (usb : Usb W) (doubles : Doubles) (blocks : Blocks W)
    (disk_of : State W → Buf) (dev : NtfsDevice) (dd : NtfsDd) (size offset count : ℕ)
    (Ready : State W → Type 0)
    (disk : IsReadable usb blocks disk_of dev.geometry.sector_size size Ready)
    (exact : IsExact doubles) (here : dev.dd ≡ some dd)
    (range : IsInside dd dev.geometry size offset count) where
  abbrev len : ℕ
  len = dev.geometry.sector_size

  abbrev v : Sectors
  v = sectors_of doubles dd dev.geometry offset count

  abbrev bytes : Buf → State W → Buf
  bytes buf s = memcpy buf 0 (shift (dd.sector_start * len + offset) (disk_of s)) count

  covers : Covers len dd.sector_start offset count v
  covers = IsInside-Covers doubles exact dd dev.geometry size offset count range

  read_sectors-reads :
      (b : Buf) (s : State W)
      → Ready s
      → (s' : State W) × Ready s'
        × (disk_of s' ≡ disk_of s)
        × (read_sectors usb doubles blocks v.start v.count b s
            ≡ some ((true, memcpy b 0 (shift (v.start * len) (disk_of s)) (v.count * len)), s'))
  unfolding read_sectors
  read_sectors-reads b s ready =
      let same : v.count % 2 ^ 32 ≡ v.count = omega (arith, covers.small) in
      let (s', ready', kept, read) =
        disk.reads b v.start v.count s ready
          (IsInside-le doubles exact dd dev.geometry size offset count range)
          (omega (arith, covers.tight, covers.below, range.long, range.short)) in
      (s', ready', kept, ap (λ n. blocks.read b v.start n s) same ∙ read)

  abbrev Reads : Buf → State W → Option ((Reply × Buf) × State W) → Type 0
  Reads buf s o =
      (s' : State W) × Ready s'
      × (disk_of s' ≡ disk_of s)
      × (o ≡ some ((returns count, bytes buf s), s'))

  read_direct-Reads :
      (buf : Buf) (s : State W)
      → Ready s
      → is_aligned v dev.geometry count ≡ true
      → Reads buf s (read_direct usb doubles blocks v count buf s)
  unfolding read_direct
  read_direct-Reads buf s ready aligned =
      let (s', ready', same, read) = read_sectors-reads buf s ready in
      let none_before : v.buffer_offset ≡ 0 = ground arith in
      let none_behind : count % len ≡ 0 = ground arith in
      let all =
        aligned_lem len dd.sector_start offset count v (omega (arith, range.big)) covers none_before
          none_behind in
      let from : v.start * len ≡ dd.sector_start * len + offset =
        omega (arith, covers.at, none_before) in
      (
        s',
        ready',
        same,
        bind-some (read_sectors usb doubles blocks v.start v.count buf)
              (λ r. pure (if r.0 then returns count else fails eio, r.1)) s _ read
            ∙ ap (λ b. some ((returns count, b), s'))
                (ap (λ a. memcpy buf 0 (shift a (disk_of s)) (v.count * len)) from
                  ∙ ap (λ n. memcpy buf 0 (shift (dd.sector_start * len + offset) (disk_of s)) n)
                      all),
      )

  read_buffered-Reads :
      (heap buf : Buf) (s : State W)
      → Ready s
      → (alloc usb (buffer_size usb doubles blocks v dev.geometry) s).0 ≡ true
      → Reads buf s (read_buffered usb doubles blocks v dev.geometry count heap buf s)
  unfolding read_buffered
  read_buffered-Reads heap buf s ready has =
      let n = buffer_size usb doubles blocks v dev.geometry in
      let (ready1, same1) = disk.allocates n s ready in
      let (s2, ready2, same2, read) = read_sectors-reads heap (alloc usb n s).1 ready1 in
      let (ready3, same3) = disk.frees s2 ready2 in
      let right =
        memcpy-shift buf heap (disk_of (alloc usb n s).1) (v.start * len) (v.count * len)
          v.buffer_offset (dd.sector_start * len + offset) count covers.at covers.covered in
      (
        (free usb s2).1,
        ready3,
        same3 ∙ same2 ∙ same1,
        rw has (
            bind-some (read_sectors usb doubles blocks v.start v.count heap)
              (λ r. close_buffer usb doubles blocks (
                if r.0
                then (returns count, memcpy buf 0 (shift v.buffer_offset r.1) count)
                else (fails eio, buf)))
              (alloc usb n s).1 _ read
            ∙ ap (λ b. some ((returns count, b), (free usb s2).1))
                (right
                  ∙ ap (λ b. memcpy buf 0 (shift (dd.sector_start * len + offset) b) count) same1)),
      )

  pub read_bytes-Reads :
      (heap buf : Buf) (s : State W)
      → Ready s
      → ((n : ℕ) → (usb.allocate n s.world).0 ≡ true)
      → Reads buf s (read_bytes usb doubles blocks dev offset count heap buf s)
  unfolding read_bytes alloc
  read_bytes-Reads heap buf s ready has =
      let good = IsInside-good dd dev.geometry size offset count range in
      elim (Bool-cases (is_aligned v dev.geometry count)) [
        | inl e ↦ rw (here, good, e) (read_direct-Reads buf s ready e)
        | inr e ↦
            rw (here, good, e)
              (read_buffered-Reads heap buf s ready
                (has (buffer_size usb doubles blocks v dev.geometry)))
      ]

-- A read of a range of bytes of an open volume, aligned to sectors or not, gives these bytes of the
-- disk, changes nothing else of the caller's buffer, and leaves the disk as it was, if the range has at
-- least one byte and fewer than 2 ^ 32, begins at an offset below 2 ^ 53, where the quotients in
-- floating point are exact, and ends on the unit; if the unit has fewer than 2 ^ 63 blocks, which
-- can be read and have the size of the volume's sectors, at least 512 and less than 2 ^ 16 bytes;
-- and if memory can be allocated.
pub read_bytes-reads :
    {W : Type 0} (usb : Usb W) (doubles : Doubles) (blocks : Blocks W) (disk_of : State W → Buf)
    (dev : NtfsDevice) (dd : NtfsDd) (size offset count : ℕ) (Ready : State W → Type 0)
    (heap buf : Buf) (s : State W)
    → IsReadable usb blocks disk_of dev.geometry.sector_size size Ready
    → IsExact doubles
    → dev.dd ≡ some dd
    → IsInside dd dev.geometry size offset count
    → ((n : ℕ) → (usb.allocate n s.world).0 ≡ true)
    → Ready s
    → (s' : State W) × Ready s'
      × (disk_of s' ≡ disk_of s)
      × (read_bytes usb doubles blocks dev offset count heap buf s
          ≡ some (
            (
              returns count,
              memcpy buf 0
                  (shift (dd.sector_start * dev.geometry.sector_size + offset) (disk_of s))
                  count,
            ),
            s',
          ))
read_bytes-reads usb doubles blocks disk_of dev dd size offset count Ready heap buf s disk exact
      here range has ready =
    read_bytes-Reads usb doubles blocks disk_of dev dd size offset count Ready disk exact here range
      heap buf s ready has
