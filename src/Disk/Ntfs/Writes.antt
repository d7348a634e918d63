-- ===== src/Disk/Ntfs/Writes.antt =====
-- Writes of any range of bytes, against the bytes of the disk.
use libusbhsfs.Base.{
  ℕ, ◌+◌, ◌*◌, ◌%◌, ◌≡◌, refl, sym, subst, ap, ◌∙◌, Bool, Option, true, false, not, some,
  if◌then◌else◌, arith, Bool-cases, inl, inr,
}
use libusbhsfs.Bytes.{Buf, memcpy}
use libusbhsfs.Usb.{State, Usb, alloc, free}
use libusbhsfs.Cmd.{Cmd, ◌>>=◌, pure}
use libusbhsfs.Cmd.Rules.{bind-some}
use libusbhsfs.Mount.Context.{NtfsDd}
use libusbhsfs.Disk.{Blocks, IsDisk}
use libusbhsfs.Disk.Ntfs.{
  Doubles, Sectors, NtfsDevice, Reply, returns, fails, eio, sectors_of, is_aligned, write_bytes,
  write_buffered, write_direct, write_buffer, write_sectors, fill_edges, buffer_size, close_buffer,
}
use libusbhsfs.Disk.Ntfs.Range.{IsExact, IsInside, aligned_lem}
use libusbhsfs.Disk.Ntfs.Reads.{IsInside-good}
use libusbhsfs.Disk.Ntfs.Filled.{
  covers, write_sectors-writes, fill_edges_lem, filled_writes, filled,
}

module _ {W : Type 0} (usb : Usb W) (doubles : Doubles) (blocks : Blocks W)
    (disk_of : State W → Buf) (dev : NtfsDevice) (dd : NtfsDd) (size offset count : ℕ)
    (Ready : State W → Type 0)
    (disk : IsDisk usb blocks disk_of dev.geometry.sector_size size Ready) (exact : IsExact doubles)
    (here : dev.dd ≡ some dd) (range : IsInside dd dev.geometry size offset count) where
  abbrev len : ℕ
  len = dev.geometry.sector_size

  abbrev v : Sectors
  v = sectors_of doubles dd dev.geometry offset count

  -- The outcome: the caller's bytes are on the disk.
  abbrev Writes : Buf → State W → Option ((Reply × NtfsDevice) × State W) → Type 0
  Writes buf s o =
      (s' : State W) × Ready s'
      × (disk_of s' ≡ memcpy (disk_of s) (dd.sector_start * len + offset) buf count)
      × ((dev' : NtfsDevice) × (dev' ≡ record dev { is_dirty = dev'.is_dirty })
          × (o ≡ some ((returns count, dev'), s')))

  write_direct-Writes :
      (buf : Buf) (s : State W)
      → Ready s
      → is_aligned v dev.geometry count ≡ true
      → Writes buf s (write_direct usb doubles blocks dev v count buf s)
  unfolding write_direct
  write_direct-Writes buf s ready aligned =
      let (s', ready', stored, write) =
        (write_sectors-writes usb doubles blocks disk_of dev dd size offset count Ready disk exact
            here range)
          buf s ready in
      let none_before : v.buffer_offset ≡ 0 = ground arith in
      let none_behind : count % len ≡ 0 = ground arith in
      let all =
        aligned_lem len dd.sector_start offset count v (omega (arith, range.big))
          (covers usb doubles blocks disk_of dev dd size offset count Ready disk exact here range)
          none_before none_behind in
      let from : v.start * len ≡ dd.sector_start * len + offset = omega (
        arith,
        (covers usb doubles blocks disk_of dev dd size offset count Ready disk exact here range).at,
        none_before,
      ) in
      (
        s',
        ready',
        stored
            ∙ ap (λ a. memcpy (disk_of s) a buf (v.count * len)) from
            ∙ ap (λ n. memcpy (disk_of s) (dd.sector_start * len + offset) buf n) all,
        (
          dev,
          refl,
          bind-some (write_sectors usb doubles blocks v.start v.count buf)
              (λ r. pure (if r.0 then returns count else fails eio, dev)) s _ write,
        ),
      )

  write_buffer-Writes :
      (heap buf : Buf) (s s1 : State W)
      → Ready s1
      → disk_of s1 ≡ disk_of s
      → Writes buf s (
          write_buffer usb doubles blocks dev v count buf
            ((filled usb doubles blocks disk_of dev dd size offset count Ready disk exact here
                range)
              heap s)
            s1)
  unfolding write_buffer
  write_buffer-Writes heap buf s s1 ready same =
      let (s', ready', stored, write) =
        (write_sectors-writes usb doubles blocks disk_of dev dd size offset count Ready disk exact
            here range)
          (memcpy
            ((filled usb doubles blocks disk_of dev dd size offset count Ready disk exact here
                range)
              heap s)
            v.buffer_offset buf count)
          s1 ready in
      (
        s',
        ready',
        stored
            ∙ ap
                (λ d.
                  memcpy d (v.start * len)
                    (memcpy
                      ((filled usb doubles blocks disk_of dev dd size offset count Ready disk exact
                          here range)
                        heap s)
                      v.buffer_offset buf count)
                    (v.count * len))
                same
            ∙ (filled_writes usb doubles blocks disk_of dev dd size offset count Ready disk exact
                  here range)
                heap buf s,
        (
          record dev { is_dirty = true },
          refl,
          bind-some
              (write_sectors usb doubles blocks v.start v.count (
                memcpy
                  ((filled usb doubles blocks disk_of dev dd size offset count Ready disk exact here
                      range)
                    heap s)
                  v.buffer_offset buf count))
              (λ r.
                pure (
                  if r.0
                  then (returns count, record dev { is_dirty = true })
                  else (fails eio, dev)))
              s1 _ write,
        ),
      )

  abbrev behind_buffer : Buf → Bool × Buf → Cmd W (Reply × NtfsDevice)
  behind_buffer buf r =
      (if not r.0
        then pure (fails eio, dev)
        else write_buffer usb doubles blocks dev v count buf r.1)
      >>= λ a. close_buffer usb doubles blocks a

  write_buffered-Writes :
      (heap buf : Buf) (s : State W)
      → Ready s
      → (alloc usb (buffer_size usb doubles blocks v dev.geometry) s).0 ≡ true
      → Writes buf s (write_buffered usb doubles blocks dev v count heap buf s)
  unfolding write_buffered
  write_buffered-Writes heap buf s ready has =
      let n = buffer_size usb doubles blocks v dev.geometry in
      let s1 = (alloc usb n s).1 in
      let (ready1, same1) = disk.readable.allocates n s ready in
      let (s2, ready2, same2, fill) =
        (fill_edges_lem usb doubles blocks disk_of dev dd size offset count Ready disk exact here
            range)
          heap s1 ready1 in
      let (s3, ready3, stored, (dev', kept, write)) =
        write_buffer-Writes heap buf s1 s2 ready2 same2 in
      let (ready4, same4) = disk.readable.frees s3 ready3 in
      (
        (free usb s3).1,
        ready4,
        same4 ∙ stored ∙ ap (λ d. memcpy d (dd.sector_start * len + offset) buf count) same1,
        (
          dev',
          kept,
          rw has (
              bind-some (fill_edges usb doubles blocks v dev.geometry count heap)
                (behind_buffer buf) s1 _ fill
              ∙ bind-some
                  (write_buffer usb doubles blocks dev v count buf (
                    (filled usb doubles blocks disk_of dev dd size offset count Ready disk exact
                        here range)
                      heap s1))
                  (λ a. close_buffer usb doubles blocks a) s2 _ write),
        ),
      )

  pub write_bytes-Writes :
      (heap buf : Buf) (s : State W)
      → Ready s
      → dev.is_read_only ≡ false
      → ((n : ℕ) → (usb.allocate n s.world).0 ≡ true)
      → Writes buf s (write_bytes usb doubles blocks dev offset count heap buf s)
  unfolding write_bytes alloc
  write_bytes-Writes heap buf s ready writable has =
      let good = IsInside-good dd dev.geometry size offset count range in
      elim (Bool-cases (is_aligned v dev.geometry count)) [
        | inl e ↦
            let same : write_bytes usb doubles blocks dev offset count heap buf s
                ≡ write_direct usb doubles blocks dev v count buf s =
              ground arith in
            subst (Writes buf s) (sym same) (write_direct-Writes buf s ready e)
        | inr e ↦
            let same : write_bytes usb doubles blocks dev offset count heap buf s
                ≡ write_buffered usb doubles blocks dev v count heap buf s =
              ground arith in
            subst (Writes buf s) (sym same) (
              write_buffered-Writes heap buf s ready
                (has (buffer_size usb doubles blocks v dev.geometry)))
      ]
