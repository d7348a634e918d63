-- ===== src/Scsi/Transfer.antt =====
-- source/usbhsfs_scsi.c: the stages of one Bulk-Only Transport command, up to the request for
-- sense data. What a call leaves through a pointer is returned.
use libusbhsfs.Base.{
  ℕ, ◌+◌, ◌-◌, ◌%◌, ◌^◌, Bool, true, false, not, ◌&&◌, ◌||◌, Option, none, some, List, ◌==◌,
  if◌then◌else◌,
}
use libusbhsfs.Bytes.{Buf, bswap32, memcpy, memset, store_list}
use libusbhsfs.Usb.{
  failed, DriveContext, is_valid_context, Usb, Io, ◌>>=◌, ◌>>◌, pure, when, service, get_xfer_buf,
  set_xfer_buf,
}
use libusbhsfs.Packets.{endpoint_in, endpoint_out}
use libusbhsfs.Request.{
  mass_storage_reset, get_endpoint_status, clear_endpoint_halt_feature, endpoint_data_xfer,
  post_buffer,
}
use libusbhsfs.Scsi.Wire.{
  cbw_signature, CommandBlockWrapper, cbw_size, cbw_bytes, CommandStatusWrapper, csw_size, csw_of,
  status_phase_error, has_csw_signature,
}

-- USB_XFER_BUF_SIZE.
abbrev pub xfer_buf_size : ℕ
xfer_buf_size = 0x800000

-- The variables of usbHsFsScsiTransferCommand(): data_size, data_transferred, csw, unexpected_csw,
-- and the caller's buffer.
pub record Progress : Type 0 where
  pub data_size : ℕ
  pub data_transferred : ℕ
  pub csw : CommandStatusWrapper
  pub unexpected_csw : Bool
  pub buf : Buf

-- Where the data stage ends: behind the loop, at the label `req_sense`, or at the label `end`.
pub data Exit : Type 0 where
  behind_loop at_req_sense at_end : Exit

-- The sizes at the end of a data stage that a status wrapper cut short, and the cleared rest.
unfoldable pub close_progress : Bool → ℕ → Progress → Progress
unfolding memset
close_progress receive rest_size p =
    let progress = (p.data_transferred + rest_size) % 2 ^ 32 in
    let diff = (p.data_size + 2 ^ 32 - progress) % 2 ^ 32 in
    record p {
      data_size = progress;
      data_transferred = progress;
      buf = if receive && not (diff == 0) then memset p.buf progress 0 diff else p.buf;
    }

-- All meaningful data was transferred, by the status wrapper's residue.
abbrev pub is_complete : Progress → Bool
is_complete p = (p.csw.data_residue == 0) || (p.csw.data_residue == p.data_size)

-- What the loop does once it holds a status wrapper, or has failed to get one.
unfoldable pub settle : Bool → ℕ → Progress → Exit × Progress
unfolding close_progress
settle receive rest_size p =
    if not p.unexpected_csw
    then (at_end, p)
    else if p.csw.status == status_phase_error
    then (at_req_sense, p)
    else if is_complete p
    then (behind_loop, close_progress receive rest_size p)
    else (behind_loop, p)

module _ {W : Type 0} (usb : Usb W) (d : DriveContext) where
  -- usbHsFsDriveClearStallStatus().
  unfoldable pub clear_stall_status : Io W (Unit {0})
  unfolding is_valid_context clear_endpoint_halt_feature
  clear_stall_status = when (is_valid_context d) do
    _ ← clear_endpoint_halt_feature usb d.if_session d.in_ep_1
    _ ← clear_endpoint_halt_feature usb d.if_session d.out_ep_1
    when d.uasp do
      _ ← clear_endpoint_halt_feature usb d.if_session d.in_ep_2
      _ ← clear_endpoint_halt_feature usb d.if_session d.out_ep_2
      pure tt

  unfoldable pub reset_recovery : Io W (Unit {0})
  unfolding mass_storage_reset clear_stall_status
  reset_recovery = do _ ← mass_storage_reset usb d.if_session; clear_stall_status

  -- usbHsFsScsiPrepareCommandBlockWrapper(), and the block that the caller then fills in.
  unfoldable pub prepare_command_block_wrapper :
      ℕ → Bool → ℕ → ℕ → List ℕ → Io W CommandBlockWrapper
  unfolding bswap32
  prepare_command_block_wrapper data_size data_in lun cb_size cb = do
    tag ← service usb.random_get
    pure (record {
      signature = bswap32 cbw_signature;
      tag = tag;
      data_transfer_length = data_size;
      flags = if data_in then endpoint_in else endpoint_out;
      lun = lun;
      cb_length = cb_size;
      cb = cb;
    })

  -- The label `ep_chk` of usbHsFsScsiSendCommandBlockWrapper().
  unfoldable pub check_out_endpoint : Io W (Unit {0})
  unfolding get_endpoint_status reset_recovery
  check_out_endpoint = do
    (rc, status) ← get_endpoint_status usb d.if_session d.out_ep_1
    elim status [ some true ↦ when (not (failed rc)) reset_recovery | _ ↦ pure tt ]

  unfoldable pub send_command_block_wrapper : CommandBlockWrapper → Io W Bool
  unfolding cbw_bytes store_list endpoint_data_xfer check_out_endpoint
  send_command_block_wrapper cbw = do
    buf ← get_xfer_buf
    set_xfer_buf (store_list (cbw_bytes cbw) buf)
    r ← endpoint_data_xfer usb d.out_ep_1 cbw_size 0
    if not (failed r.rc) && (r.size == cbw_size)
        then pure true
        else (do check_out_endpoint; pure false)

  -- usbHsFsScsiReceiveCommandStatusWrapper(); `some` is what it copies to `*out_csw`, and then it
  -- returns true.
  unfoldable pub receive_command_status_wrapper :
      CommandBlockWrapper → Io W (Option CommandStatusWrapper)
  unfolding post_buffer csw_of has_csw_signature reset_recovery
  receive_command_status_wrapper cbw = do
    r ← post_buffer usb d.if_session d.in_ep_1 csw_size 0 true
    buf ← get_xfer_buf
    let csw = csw_of buf
    if failed r.rc
        then pure none
        else if not (r.size == csw_size) || not (has_csw_signature csw) || not (csw.tag == cbw.tag)
        then (do reset_recovery; pure none)
        else (do when (csw.status == status_phase_error) reset_recovery; pure (some csw))

  -- After a short or failed transfer: is a status wrapper in the transfer buffer already?
  unfoldable pub take_unexpected_csw : CommandBlockWrapper → Bool → ℕ → Progress → Io W Progress
  unfolding csw_of has_csw_signature reset_recovery
  take_unexpected_csw cbw receive rest_size p =
      if not (receive && (rest_size == csw_size)) then pure p else do
        xfer_buf ← get_xfer_buf
        let csw = csw_of xfer_buf
        let seen = has_csw_signature csw && (csw.tag == cbw.tag)
        when (seen && (csw.status == status_phase_error)) reset_recovery
        pure (record p { csw = csw; unexpected_csw = seen })

  -- Otherwise the data that did arrive is kept, and a status wrapper is asked for.
  unfoldable pub ask_for_csw : CommandBlockWrapper → Bool → ℕ → Progress → Io W Progress
  unfolding memcpy receive_command_status_wrapper
  ask_for_csw cbw receive rest_size p = if p.unexpected_csw then pure p else do
    xfer_buf ← get_xfer_buf
    let kept =
        if receive && not (rest_size == 0)
        then memcpy p.buf p.data_transferred xfer_buf rest_size
        else p.buf
    csw ← receive_command_status_wrapper cbw
    pure (elim csw [
      | none ↦ record p { buf = kept }
      | some c ↦ record p { csw = c; unexpected_csw = true; buf = kept }
    ])
