-- ===== src/Scsi/Blocks.antt =====
-- source/usbhsfs_scsi.c: usbHsFsScsiReadLogicalUnitBlocks() and usbHsFsScsiWriteLogicalUnitBlocks().
-- A round of the loop moves at least one block, so as many rounds as there are blocks are enough.
pub mod Bounds
pub mod Steps
pub mod Stored
pub mod Whole
use libusbhsfs.Base.{
  ℕ, zero, suc, ◌+◌, ◌-◌, ◌*◌, ◌/◌, ◌%◌, ◌^◌, Bool, true, false, not, ◌==◌, ltb, if◌then◌else◌,
}
use libusbhsfs.Bytes.{Buf, shift, unshift, align_down}
use libusbhsfs.Usb.{DriveContext, Usb}
use libusbhsfs.Cmd.{Cmd, ◌>>=◌, pure}
use libusbhsfs.Scsi.Transfer.{xfer_buf_size}
use libusbhsfs.Scsi.Send.{send_read_10, send_read_16, send_write_10, send_write_16}
use libusbhsfs.Scsi.Lun.{LogicalUnitContext}

-- SCSI_RW10_MAX_BLOCK_COUNT.
abbrev pub rw10_max_block_count : ℕ
rw10_max_block_count = 0xffff

-- max_block_count_per_loop.
unfoldable pub max_block_count_per_loop : Bool → ℕ → ℕ
unfolding align_down
max_block_count_per_loop long_lba block_length =
    align_down (if long_lba then rw10_max_block_count + 1 else rw10_max_block_count)
      (xfer_buf_size / block_length)

-- The variables of the loop.
pub record Span : Type 0 where
  pub cur_block_addr : ℕ
  pub data_transferred : ℕ
  pub block_count : ℕ
  pub buf : Buf

abbrev pub xfer_block_count : ℕ → Span → ℕ
xfer_block_count max v = if ltb max v.block_count then max else v.block_count

-- The loop variables behind a command that succeeded and left the buffer as `buf`.
unfoldable pub next_span : ℕ → ℕ → Buf → Span → Span
next_span max block_length buf v = record {
  cur_block_addr = (v.cur_block_addr + xfer_block_count max v) % 2 ^ 64;
  data_transferred = (v.data_transferred + xfer_block_count max v * block_length) % 2 ^ 64;
  block_count = v.block_count - xfer_block_count max v;
  buf = buf;
}

-- The loop, over the command that moves `count` blocks at `addr` from or to a buffer.
unfoldable pub blocks_loop :
    {W : Type 0} → (ℕ → ℕ → Buf → Cmd W (Bool × Buf)) → ℕ → ℕ → ℕ → Span → Cmd W (Bool × Buf)
unfolding shift unshift next_span
blocks_loop cmd max block_length zero v = pure (v.block_count == 0, v.buf)
blocks_loop cmd max block_length (suc rounds) v =
    if v.block_count == 0 then pure (true, v.buf) else do
      (ok, part) ← cmd v.cur_block_addr (xfer_block_count max v) (shift v.data_transferred v.buf)
      let buf = unshift v.data_transferred part v.buf
      if not ok
          then pure (false, buf)
          else blocks_loop cmd max block_length rounds (next_span max block_length buf v)

abbrev pub start_span : Buf → ℕ → ℕ → Span
start_span buf block_addr block_count = record {
  cur_block_addr = block_addr;
  data_transferred = 0;
  block_count = block_count;
  buf = buf;
}

module _ {W : Type 0} (usb : Usb W) (d : DriveContext) (fuel : ℕ) (l : LogicalUnitContext) where
  unfoldable pub read_command : ℕ → ℕ → Buf → Cmd W (Bool × Buf)
  unfolding send_read_10 send_read_16
  read_command addr count buf =
      if l.long_lba
      then send_read_16 usb d fuel l.lun buf addr count l.block_length l.fua_supported
      else send_read_10 usb d fuel l.lun buf (addr % 2 ^ 32) (count % 2 ^ 16) l.block_length
          l.fua_supported

  unfoldable pub read_logical_unit_blocks : Buf → ℕ → ℕ → Cmd W (Bool × Buf)
  unfolding read_command blocks_loop max_block_count_per_loop
  read_logical_unit_blocks buf block_addr block_count =
      blocks_loop read_command (max_block_count_per_loop l.long_lba l.block_length) l.block_length
        block_count (start_span buf block_addr block_count)

  unfoldable pub write_command : ℕ → ℕ → Buf → Cmd W (Bool × Buf)
  unfolding send_write_10 send_write_16
  write_command addr count buf =
      if l.long_lba
      then send_write_16 usb d fuel l.lun buf addr count l.block_length l.fua_supported
      else send_write_10 usb d fuel l.lun buf (addr % 2 ^ 32) (count % 2 ^ 16) l.block_length
          l.fua_supported

  unfoldable pub write_logical_unit_blocks : Buf → ℕ → ℕ → Cmd W (Bool × Buf)
  unfolding write_command blocks_loop max_block_count_per_loop
  write_logical_unit_blocks buf block_addr block_count =
      if l.write_protect
      then pure (false, buf)
      else blocks_loop write_command (max_block_count_per_loop l.long_lba l.block_length)
          l.block_length block_count (start_span buf block_addr block_count)
