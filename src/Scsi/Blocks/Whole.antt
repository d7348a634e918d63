-- ===== src/Scsi/Blocks/Whole.antt =====
-- The loop over commands against one transfer of all the blocks.
use libusbhsfs.Base.{
  ℕ, zero, suc, ◌+◌, ◌-◌, ◌*◌, ◌^◌, ◌≤◌, ◌<◌, ◌≡◌, refl, inl, inr, Bool, true, false, some, arith,
  ◌==◌, Bool-cases,
}
use libusbhsfs.Bytes.{Buf, memcpy, shift, unshift}
use libusbhsfs.Usb.{State, Usb, DriveContext}
use libusbhsfs.Cmd.{Cmd, ◌>>=◌}
use libusbhsfs.Scsi.Blocks.{
  blocks_loop, start_span, read_command, read_logical_unit_blocks, max_block_count_per_loop,
}
use libusbhsfs.Scsi.Lun.{LogicalUnitContext}
use libusbhsfs.Scsi.Blocks.Steps.{
  memcpy-zero, span, memcpy_step, chunk, chunk-le, chunk-pos, next_span_lem,
}
use libusbhsfs.Scsi.Blocks.Bounds.{IsBlockLength, max_block_count_per_loop-Bounds}

-- A command that reads `disk`, which has `size` blocks, as long as `Ready` holds: it succeeds, and
-- the buffer then begins with the blocks that were asked for.
pub record IsReader {W : Type 0} (cmd : ℕ → ℕ → Buf → Cmd W (Bool × Buf)) (disk : Buf)
    (len size max : ℕ) (Ready : State W → Type 0) : Type 0 where
  pub next : ℕ → ℕ → Buf → State W → State W
  pub keeps : (a n : ℕ) (b : Buf) (s : State W) → Ready s → Ready (next a n b s)
  pub reads :
      (a n : ℕ) (b : Buf) (s : State W)
      → Ready s
      → n ≤ max
      → a + n ≤ size
      → cmd a n b s ≡ some ((true, memcpy b 0 (shift (a * len) disk) (n * len)), next a n b s)

module _ {W : Type 0} (cmd : ℕ → ℕ → Buf → Cmd W (Bool × Buf)) (disk : Buf) (len size max : ℕ)
    (Ready : State W → Type 0) (reader : IsReader cmd disk len size max Ready) (max_pos : 0 < max)
    (small : size < 2 ^ 64) where
  -- The loop's outcome from a state: it succeeds with all the blocks in place.
  abbrev Fills : ℕ → ℕ → ℕ → ℕ → Buf → State W → Type 0
  Fills rounds a t c b s =
      (s' : State W) × Ready s'
      × (blocks_loop cmd max len rounds (span a t c b) s
          ≡ some ((true, memcpy b t (shift (a * len) disk) (c * len)), s'))

  loop_none :
      (rounds a t c : ℕ) (b : Buf) (s : State W)
      → Ready s
      → (c == 0) ≡ true
      → Fills rounds a t c b s
  unfolding blocks_loop
  loop_none zero a t c b s ready e =
      (s, ready, rw (memcpy-zero b (shift (a * len) disk) t c len e, e) refl)
  loop_none (suc rounds) a t c b s ready e =
      (s, ready, rw (memcpy-zero b (shift (a * len) disk) t c len e, e) refl)

  loop_some :
      (rounds a t c : ℕ) (b : Buf) (s : State W)
      → Ready s
      → (c == 0) ≡ false
      → a + c ≤ size
      → t + c * len < 2 ^ 64
      → let n = chunk max c in
        Fills rounds
          (a + n)
          (t + n * len)
          (c - n)
          (unshift t (memcpy (shift t b) 0 (shift (a * len) disk) (n * len)) b)
          (reader.next a n (shift t b) s)
        → Fills (suc rounds) a t c b s
  unfolding blocks_loop
  loop_some rounds a t c b s ready e fits room (s', ready', rest) = (
    s',
    ready',
    rw
        (
          e,
          reader.reads a (chunk max c) (shift t b) s ready (chunk-le max c).1
              (omega (arith, chunk-le max c)),
          ◌>>=◌,
          next_span_lem max len a t c
              (unshift t (memcpy (shift t b) 0 (shift (a * len) disk) (chunk max c * len)) b) b
              (omega arith) room,
          ← memcpy_step b disk a t c (chunk max c) len (chunk-le max c).0,
        )
        rest,
  )

  loop-Fills :
      (rounds a t c : ℕ) (b : Buf) (s : State W)
      → Ready s
      → c ≤ rounds
      → a + c ≤ size
      → t + c * len < 2 ^ 64
      → Fills rounds a t c b s
  loop-Fills zero a t c b s ready enough fits room = loop_none zero a t c b s ready (ground arith)
  loop-Fills (suc rounds) a t c b s ready enough fits room = elim (Bool-cases (c == 0)) [
    | inl e ↦ loop_none (suc rounds) a t c b s ready e
    | inr e ↦ loop_some rounds a t c b s ready e fits room (
        loop-Fills rounds (a + chunk max c) (t + chunk max c * len) (c - chunk max c) _ _
          (reader.keeps a (chunk max c) (shift t b) s ready)
          (omega (arith, chunk-le max c, chunk-pos max c max_pos e)) (omega (arith, chunk-le max c))
          (grind (arith, chunk-le max c)))
  ]

-- If every command within the limit reads the disk faithfully, the loop succeeds, whatever the
-- number of commands, and the caller's buffer then holds the blocks that were asked for and is
-- otherwise unchanged.
pub blocks_loop-reads :
    {W : Type 0} (cmd : ℕ → ℕ → Buf → Cmd W (Bool × Buf)) (disk : Buf) (len size max : ℕ)
    (Ready : State W → Type 0) (block_addr block_count : ℕ) (buf : Buf) (s : State W)
    → IsReader cmd disk len size max Ready
    → 0 < max
    → size < 2 ^ 64
    → block_addr + block_count ≤ size
    → block_count * len < 2 ^ 64
    → Ready s
    → (s' : State W) × Ready s'
      × (blocks_loop cmd max len block_count (start_span buf block_addr block_count) s
          ≡ some ((true, memcpy buf 0 (shift (block_addr * len) disk) (block_count * len)), s'))
blocks_loop-reads cmd disk len size max Ready addr count buf s reader pos small fits room ready =
    loop-Fills cmd disk len size max Ready reader pos small count addr 0 count buf s ready
      (omega arith) fits (omega arith)

-- So a read of a started unit puts the disk's blocks into the caller's buffer.
pub read_logical_unit_blocks-reads :
    {W : Type 0} (usb : Usb W) (d : DriveContext) (fuel : ℕ) (l : LogicalUnitContext) (disk : Buf)
    (size : ℕ) (Ready : State W → Type 0) (block_addr block_count : ℕ) (buf : Buf) (s : State W)
    → IsReader
        (read_command usb d fuel l)
        disk
        l.block_length
        size
        (max_block_count_per_loop l.long_lba l.block_length)
        Ready
    → IsBlockLength l.block_length
    → size < 2 ^ 64
    → block_addr + block_count ≤ size
    → block_count * l.block_length < 2 ^ 64
    → Ready s
    → (s' : State W) × Ready s'
      × (read_logical_unit_blocks usb d fuel l buf block_addr block_count s
          ≡ some (
            (
              true,
              memcpy buf 0
                  (shift (block_addr * l.block_length) disk)
                  (block_count * l.block_length),
            ),
            s',
          ))
unfolding read_logical_unit_blocks
read_logical_unit_blocks-reads usb d fuel l disk size Ready addr count buf s reader len small fits
      room ready =
    blocks_loop-reads (read_command usb d fuel l) disk l.block_length size
      (max_block_count_per_loop l.long_lba l.block_length) Ready addr count buf s reader
      (max_block_count_per_loop-Bounds l.long_lba l.block_length len).0 small fits room ready
