-- ===== src/Request/Sizes.antt =====
-- The sizes that bulk transfers report.
use Prim.Native.Nat.{bit_and}
use libusbhsfs.Base.{ℕ, ◌+◌, ◌*◌, ◌/◌, ◌%◌, ◌^◌, ◌≤◌, Bool, ◌==◌, if◌then◌else◌, arith}
use libusbhsfs.Bytes.{Buf}
use libusbhsfs.Usb.{EpSession, IfSession, Usb, State}
use libusbhsfs.Packets.{postbuffer_timeout, endpoint_in}
use libusbhsfs.Request.{
  ep_submit_request, read_xfer_report, async_data_xfer, endpoint_data_xfer, clear_stall,
  post_buffer,
}

-- The usb service reports no more bytes than a transfer was posted with.
pub record ReportsAtMost {W : Type 0} (usb : Usb W) : Type 0 where
  pub submitted :
      (ep : EpSession) (cmd size timeout mapped : ℕ) (buf : Buf) (w : W)
      → (usb.ep_submit_request ep cmd size timeout mapped buf w).0.1 ≤ size
  pub reported :
      (ep : EpSession) (size : ℕ) (buf : Buf) (w : W)
      → (usb.ep_get_xfer_report ep (
          usb.event_clear ep
            (usb.event_wait ep postbuffer_timeout buf
              (usb.ep_post_buffer_async ep size buf w).1).1)).0.transferred
        ≤ size

module _ {W : Type 0} (usb : Usb W) (ok : ReportsAtMost usb) where
  ep_submit_request-le :
      (ep : EpSession) (size timeout old m : ℕ) (s : State W)
      → size ≤ m
      → old ≤ m
      → (ep_submit_request usb ep size timeout old s).0.size ≤ m
  unfolding ep_submit_request
  ep_submit_request-le ep size timeout old m s h k = ground (
    arith,
    ok.submitted ep (if bit_and ep.address endpoint_in == 0 then 0 else 1) size timeout
        ((size + 0xfff) % 2 ^ 32 / 2 ^ 12 * 2 ^ 12) s.xfer_buf s.world,
  )

  async_data_xfer-le :
      (ep : EpSession) (size : ℕ) (s : State W) → (async_data_xfer usb ep size s).0.size ≤ size
  unfolding async_data_xfer read_xfer_report
  async_data_xfer-le ep size s = ground (arith, ok.reported ep size s.xfer_buf s.world)

  pub endpoint_data_xfer-le :
      (ep : EpSession) (size old m : ℕ) (s : State W)
      → size ≤ m
      → old ≤ m
      → (endpoint_data_xfer usb ep size old s).0.size ≤ m
  unfolding endpoint_data_xfer
  endpoint_data_xfer-le ep size old m s h k = ground (
    arith,
    async_data_xfer-le ep size s,
    ep_submit_request-le ep size (postbuffer_timeout / 1000000) 0 m s,
  )

  -- If the usb service reports no more bytes than were posted, and the caller's size variable holds at
  -- least the size that is asked for, a bulk transfer reports no more bytes than the variable held, on
  -- every branch, the retry included.
  pub post_buffer-le :
      (ses : IfSession) (ep : EpSession) (size old : ℕ) (retry : Bool) (s : State W)
      → size ≤ old
      → (post_buffer usb ses ep size old retry s).0.size ≤ old
  unfolding post_buffer
  post_buffer-le ses ep size old retry s h = ground (
    arith,
    endpoint_data_xfer-le ep size old old s,
    endpoint_data_xfer-le ep size (endpoint_data_xfer usb ep size old s).0.size old
        (clear_stall usb ses ep (endpoint_data_xfer usb ep size old s).1).1,
  )
