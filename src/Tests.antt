-- ===== src/Tests.antt =====
-- Concrete runs of the definitions, and examples that the theorems apply to.
pub mod Disks
pub mod Drives
pub mod Sessions
pub mod Device
pub mod Chains
pub mod Commands
pub mod Requests
pub mod Served
pub mod Leaks
pub mod Libraries
pub mod Managers
pub mod Volumes
pub mod Tables
use libusbhsfs.Base.{
  ℕ, ◌+◌, ◌^◌, ◌/◌, ◌%◌, ◌==◌, length, ◌*◌, ◌≤◌, ◌<◌, ◌≡◌, refl, inl, inr, Bool, true, false, List,
  [], ◌∷◌, some, arith,
}
use libusbhsfs.Bytes.{Buf, memcpy, shift, store_list}
use libusbhsfs.Usb.{State}
use libusbhsfs.Scsi.Wire.{CommandBlockWrapper, cbw_size, cbw_bytes, read_10, read_16}
use libusbhsfs.Scsi.Stage.{data_round, transfer_once, receives}
use libusbhsfs.Scsi.Stage.Complete.{transfer_once_complete}
use libusbhsfs.Scsi.Stage.Frame.{Within, transfer_once-Within}
use libusbhsfs.Scsi.Stage.Genuine.{IsGenuine, transfer_once-IsGenuine}
use libusbhsfs.Scsi.Wire.Layout.{Holds, cbw_bytes-Holds}
use libusbhsfs.Scsi.Cdb.{rw_10_cb, rw_16_cb}
use libusbhsfs.Scsi.Cdb.Fields.{Is10, Is16, rw_10_cb-Is10, rw_16_cb-Is16}
use libusbhsfs.Scsi.Blocks.Bounds.{
  max_block_count_per_loop-Bounds, max_block_count_per_loop-aligned,
}
use libusbhsfs.Request.{post_buffer}
use libusbhsfs.Request.Sizes.{post_buffer-le}
use libusbhsfs.Scsi.Blocks.{Span, start_span, blocks_loop, max_block_count_per_loop}
use libusbhsfs.Scsi.Blocks.Stored.{IsWriter, blocks_loop-writes}
use libusbhsfs.Scsi.Blocks.Whole.{IsReader, blocks_loop-reads}
use libusbhsfs.Scsi.Transfer.{xfer_buf_size}
use libusbhsfs.Utils.{trim_string}
use libusbhsfs.Utils.Trim.{IsTrimOf, trim_string-IsTrimOf}
use libusbhsfs.Cmd.{Cmd}
use libusbhsfs.Scsi.Command.{transfer_command}
use libusbhsfs.Scsi.Command.Outcome.{
  Completed, Confined, transfer_command-Completed, transfer_command-Confined,
}
use libusbhsfs.Scsi.Lun.{LogicalUnitContext}
use libusbhsfs.Scsi.Start.{start_drive_logical_unit}
use libusbhsfs.Scsi.Start.Started.{Outcome, start_drive_logical_unit-Outcome}
use Device.{
  returned, unit_device, unknown_unit, Script, session, endpoint, drive, scripted, one_read, start,
  four_bytes, scripted-ReportsAtMost,
}

four_bytes_ret : (transfer_once (scripted one_read) drive four_bytes (λ _. 0) start).0.ret ≡ true
unfolding transfer_once data_round
four_bytes_ret = refl

transfer_once_complete_example :
    (transfer_once (scripted one_read) drive four_bytes (λ _. 0) start).0.progress.data_transferred
    ≡ 4
transfer_once_complete_example =
    transfer_once_complete (scripted one_read) drive four_bytes (λ _. 0) start four_bytes_ret

transfer_once-IsGenuine_example :
    IsGenuine four_bytes
      (transfer_once (scripted one_read) drive four_bytes (λ _. 0) start).0.progress.csw
transfer_once-IsGenuine_example =
    transfer_once-IsGenuine (scripted one_read) drive four_bytes (λ _. 0) start (inl four_bytes_ret)

transfer_once-Within_example :
    Within 4 true
      (λ _. 0)
      (transfer_once (scripted one_read) drive four_bytes (λ _. 0) start).0.progress
transfer_once-Within_example =
    transfer_once-Within (scripted one_read) drive four_bytes (λ _. 0) start
      (scripted-ReportsAtMost one_read) (omega arith)

post_buffer-le_example :
    (post_buffer (scripted one_read) session (endpoint 0x81) 13 512 true start).0.size ≤ 512
post_buffer-le_example =
    post_buffer-le (scripted one_read) (scripted-ReportsAtMost one_read) session (endpoint 0x81) 13
      512 true start (omega arith)

cbw_bytes-Holds_example :
    (length (cbw_bytes four_bytes) ≡ cbw_size)
    × Holds (store_list (cbw_bytes four_bytes) (λ _. 0)) four_bytes
cbw_bytes-Holds_example =
    cbw_bytes-Holds four_bytes (λ _. 0)
      (record {
        signature = omega arith;
        tag = omega arith;
        data_transfer_length = omega arith;
        block = refl;
      })

rw_10_cb-Is10_example : Is10 (rw_10_cb read_10 0x12345678 0x80 true) read_10 0x12345678 0x80 true
rw_10_cb-Is10_example = rw_10_cb-Is10 read_10 0x12345678 0x80 true (omega arith) (omega arith)

rw_16_cb-Is16_example :
    Is16 (rw_16_cb read_16 0x123456789a 0x10000 false) read_16 0x123456789a 0x10000 false
rw_16_cb-Is16_example = rw_16_cb-Is16 read_16 0x123456789a 0x10000 false (omega arith) (omega arith)

max_block_count_per_loop-Bounds_example :
    (0 < max_block_count_per_loop false 512)
    × (max_block_count_per_loop false 512 ≤ 0xffff)
    × (max_block_count_per_loop false 512 * 512 < 2 ^ 32)
max_block_count_per_loop-Bounds_example =
    max_block_count_per_loop-Bounds false 512 (omega arith, refl, omega arith)

max_block_count_per_loop-aligned_example :
    (max_block_count_per_loop true 1536 % (xfer_buf_size / 1536) == 0) ≡ false
max_block_count_per_loop-aligned_example =
    max_block_count_per_loop-aligned true 1536 (omega arith, refl, omega arith)

-- A text with a space at either end.
abbrev padded : List ℕ
padded = 0x20 ∷ (0x41 ∷ (0x42 ∷ (0x20 ∷ [])))

trim_string-IsTrimOf_example : IsTrimOf padded (trim_string padded)
trim_string-IsTrimOf_example = trim_string-IsTrimOf padded

padded_trimmed : trim_string padded ≡ 0x41 ∷ (0x42 ∷ [])
unfolding trim_string
padded_trimmed = refl

-- A command on memory: it copies the blocks of a disk of 100 blocks of 4 bytes.
abbrev memory_read : Buf → ℕ → ℕ → Buf → Cmd Script (Bool × Buf)
memory_read disk addr count buf =
    λ s. some ((true, memcpy buf 0 (shift (addr * 4) disk) (count * 4)), s)

memory_read-IsReader : (disk : Buf) → IsReader (memory_read disk) disk 4 100 3 (λ s. s ≡ start)
memory_read-IsReader disk = record {
  next = λ a n b s. s;
  keeps = λ a n b s r. r;
  reads = λ a n b s r h k. refl;
}

blocks_loop-reads_example :
    (s' : State Script) × (s' ≡ start)
    × (blocks_loop (memory_read (λ i. i)) 3 4 10 (start_span (λ _. 0) 20 10) start
        ≡ some ((true, memcpy (λ _. 0) 0 (shift (20 * 4) (λ i. i)) (10 * 4)), s'))
blocks_loop-reads_example =
    blocks_loop-reads (memory_read (λ i. i)) (λ i. i) 4 100 3 (λ s. s ≡ start) 20 10 (λ _. 0) start
      (memory_read-IsReader (λ i. i)) (omega arith) (omega arith) (omega arith) (omega arith) refl

-- A command on memory: it stores the blocks in the state's buffer.
abbrev memory_write : ℕ → ℕ → Buf → Cmd Script (Bool × Buf)
memory_write addr count buf =
    λ s. some ((true, buf), record s { xfer_buf = memcpy s.xfer_buf (addr * 4) buf (count * 4) })

memory_write-IsWriter : IsWriter memory_write (λ s. s.xfer_buf) 4 100 3 (λ s. s.live ≡ 0)
memory_write-IsWriter = record {
  next = λ a n b s. record s { xfer_buf = memcpy s.xfer_buf (a * 4) b (n * 4) };
  keeps = λ a n b s r. r;
  stores = λ a n b s r. refl;
  writes = λ a n b s r h k. refl;
}

blocks_loop-writes_example :
    (s' : State Script) × (s'.live ≡ 0)
    × (blocks_loop memory_write 3 4 10 (start_span (λ i. i) 20 10) start
        ≡ some ((true, λ i. i), s'))
    × (s'.xfer_buf ≡ memcpy (λ _. 0) (20 * 4) (shift 0 (λ i. i)) (10 * 4))
blocks_loop-writes_example =
    blocks_loop-writes memory_write (λ s. s.xfer_buf) 4 100 3 (λ s. s.live ≡ 0) 20 10 (λ i. i) start
      memory_write-IsWriter (omega arith) (omega arith) (omega arith) (omega arith) refl
