-- ===== src/Disk/Ntfs/Filled.antt =====
-- The buffer that a write of bytes which are not aligned makes, and the disk behind it.
use libusbhsfs.Base.{
  ℕ, zero, suc, ◌+◌, ◌-◌, ◌*◌, ◌%◌, ◌^◌, ◌≤◌, ◌≡◌, refl, ap, ◌∙◌, Bool, true, false, not, some,
  ◌==◌, if◌then◌else◌, arith,
}
use libusbhsfs.Bytes.{Buf, memcpy, shift, unshift}
use libusbhsfs.Usb.{State, Usb}
use libusbhsfs.Cmd.{Cmd, pure}
use libusbhsfs.Cmd.Rules.{bind-some}
use libusbhsfs.Mount.Context.{NtfsDd}
use libusbhsfs.Disk.{Blocks, IsDisk}
use libusbhsfs.Disk.Ntfs.{
  Doubles, Sectors, NtfsDevice, sectors_of, write_sectors, read_sectors, read_edge, fill_edges,
}
use libusbhsfs.Disk.Ntfs.Range.{IsExact, IsInside, Covers, IsInside-Covers, IsInside-le, fills_lem}
use libusbhsfs.Disk.Ntfs.Edges.{edged, both_edges, edges_lem}

product_pred : (c len : ℕ) → 1 ≤ c → (c - 1) * len + len ≡ c * len
product_pred zero len h = absurd (omega (arith, h))
product_pred (suc c) len h =
    let same : suc c - 1 ≡ c = omega arith in omega (arith, ap (λ n. n * len) same)

module _ {W : Type 0} (usb : Usb W) (doubles : Doubles) (blocks : Blocks W)
    (disk_of : State W → Buf) (dev : NtfsDevice) (dd : NtfsDd) (size offset count : ℕ)
    (Ready : State W → Type 0)
    (disk : IsDisk usb blocks disk_of dev.geometry.sector_size size Ready) (exact : IsExact doubles)
    (here : dev.dd ≡ some dd) (range : IsInside dd dev.geometry size offset count) where
  abbrev pub len : ℕ
  len = dev.geometry.sector_size

  abbrev pub v : Sectors
  v = sectors_of doubles dd dev.geometry offset count

  pub covers : Covers len dd.sector_start offset count v
  covers = IsInside-Covers doubles exact dd dev.geometry size offset count range

  within : v.start + v.count ≤ size
  within = IsInside-le doubles exact dd dev.geometry size offset count range

  one_sector :
      (sector : ℕ) (b : Buf) (s : State W)
      → read_sectors usb doubles blocks sector 1 b s ≡ blocks.read b sector 1 s
  unfolding read_sectors
  one_sector sector b s = refl

  -- A sector for the edge, if it is needed.
  read_edge_lem :
      (needed : Bool) (off sector : ℕ) (b : Buf) (s : State W)
      → Ready s
      → sector + 1 ≤ size
      → (s' : State W) × Ready s'
        × (disk_of s' ≡ disk_of s)
        × (read_edge usb doubles blocks needed off sector b s
            ≡ some ((true, edged needed len off (sector * len) (disk_of s) b), s'))
  unfolding read_edge edged
  read_edge_lem false off sector b s ready inside = (s, ready, refl, refl)
  read_edge_lem true off sector b s ready inside =
      let (s', ready', same, read) =
        disk.readable.reads (shift off b) sector 1 s ready inside (omega (arith, range.short)) in
      let one : 1 * len ≡ len = omega arith in
      (
        s',
        ready',
        same,
        bind-some (read_sectors usb doubles blocks sector 1 (shift off b))
              (λ r. pure (r.0, unshift off r.1 b)) s _ (one_sector sector (shift off b) s ∙ read)
            ∙ ap
                (λ n. some (
                  (
                    true,
                    unshift off (memcpy (shift off b) 0 (shift (sector * len) (disk_of s)) n) b,
                  ),
                  s',
                ))
                one,
      )

  pub write_sectors-writes :
      (b : Buf) (s : State W)
      → Ready s
      → (s' : State W) × Ready s'
        × (disk_of s' ≡ memcpy (disk_of s) (v.start * len) b (v.count * len))
        × (write_sectors usb doubles blocks v.start v.count b s ≡ some ((true, b), s'))
  unfolding write_sectors
  write_sectors-writes b s ready =
      let same : v.count % 2 ^ 32 ≡ v.count = omega (arith, covers.small) in
      let (s', ready', stored, write) =
        disk.writes b v.start v.count s ready within
          (omega (arith, covers.tight, covers.below, range.long, range.short)) in
      (s', ready', stored, ap (λ n. blocks.write b v.start n s) same ∙ write)

  -- The last sector of the range, and its place in the buffer.
  abbrev last : ℕ
  last = (v.count - 1) * len

  last_place : last + len ≡ v.count * len
  last_place = product_pred v.count len covers.one

  last_off : last % 2 ^ 64 ≡ last
  last_off = omega (arith, last_place, covers.tight, covers.below, range.long, range.short)

  last_sector : (v.start + v.count + 2 ^ 64 - 1) % 2 ^ 64 ≡ v.start + (v.count - 1)
  last_sector = omega (arith, within, range.small, covers.one)

  abbrev first_needed : Bool
  first_needed = not (v.buffer_offset == 0)

  abbrev last_needed : Bool
  last_needed = not ((v.buffer_offset + count) % len == 0)

  abbrev pub filled : Buf → State W → Buf
  filled heap s = both_edges first_needed last_needed len last (v.start * len) (disk_of s) heap

  filled_lem :
      (heap : Buf) (s s1 : State W)
      → disk_of s1 ≡ disk_of s
      → edged last_needed len last
          ((v.start + (v.count - 1)) * len)
          (disk_of s1)
          (edged first_needed len 0 (v.start * len) (disk_of s) heap)
        ≡ filled heap s
  filled_lem heap s s1 same =
      let base : (v.start + (v.count - 1)) * len ≡ v.start * len + last = omega arith in
      let base_0 : v.start * len ≡ v.start * len + 0 = omega arith in
      ap
        (λ a.
          edged last_needed len last a (disk_of s1)
            (edged first_needed len 0 (v.start * len) (disk_of s) heap))
        base
      ∙ ap
          (λ d.
            edged last_needed len last (v.start * len + last) d
              (edged first_needed len 0 (v.start * len) (disk_of s) heap))
          same
      ∙ ap
          (λ a.
            edged last_needed len last (v.start * len + last) (disk_of s)
              (edged first_needed len 0 a (disk_of s) heap))
          base_0

  pub fill_edges_lem :
      (heap : Buf) (s : State W)
      → Ready s
      → (s' : State W) × Ready s'
        × (disk_of s' ≡ disk_of s)
        × (fill_edges usb doubles blocks v dev.geometry count heap s
            ≡ some ((true, filled heap s), s'))
  unfolding fill_edges
  fill_edges_lem heap s ready =
      let b1 = edged first_needed len 0 (v.start * len) (disk_of s) heap in
      let (s1, ready1, same1, e1) =
        read_edge_lem first_needed 0 v.start heap s ready (omega (arith, within, covers.one)) in
      let (s2, ready2, same2, e2) =
        read_edge_lem last_needed last (v.start + (v.count - 1)) b1 s1 ready1
          (omega (arith, within, covers.one)) in
      let rest : ℕ → ℕ → Buf → Cmd W (Bool × Buf) =
        λ off sector b. read_edge usb doubles blocks last_needed off sector b in
      (
        s2,
        ready2,
        same2 ∙ same1,
        bind-some (read_edge usb doubles blocks first_needed 0 v.start heap)
              (λ r.
                if not r.0
                then pure (false, r.1)
                else rest (last % 2 ^ 64) ((v.start + v.count + 2 ^ 64 - 1) % 2 ^ 64) r.1)
              s _ e1
            ∙ ap (λ off. rest off ((v.start + v.count + 2 ^ 64 - 1) % 2 ^ 64) b1 s1) last_off
            ∙ ap (λ sector. rest last sector b1 s1) last_sector
            ∙ e2
            ∙ ap (λ b. some ((true, b), s2)) (filled_lem heap s s1 same1),
      )

  whole : last_needed ≡ false → v.count * len ≡ v.buffer_offset + count
  whole e =
      fills_lem v.count len (v.buffer_offset + count) (omega (arith, range.big)) (ground arith)
        covers.covered covers.tight

  -- The buffer that is written leaves all but the caller's bytes as they were.
  pub filled_writes :
      (heap buf : Buf) (s : State W)
      → memcpy
          (disk_of s)
          (v.start * len)
          (memcpy (filled heap s) v.buffer_offset buf count)
          (v.count * len)
        ≡ memcpy (disk_of s) (dd.sector_start * len + offset) buf count
  filled_writes heap buf s =
      edges_lem (disk_of s) heap (v.start * len) len (v.count * len) v.buffer_offset count last
        first_needed last_needed covers.below covers.covered covers.tight last_place
        (λ e. ground arith) whole buf
      ∙ ap (λ a. memcpy (disk_of s) a buf count) covers.at
