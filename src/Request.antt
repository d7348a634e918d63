-- ===== src/Request.antt =====
-- source/usbhsfs_request.c: control requests and bulk transfers on one interface session. A
-- pointer to a session is the session; its NULL test has no counterpart.
pub mod Sizes
pub mod Memory
use Prim.Native.Nat.{bit_and}
use libusbhsfs.Base.{
  ℕ, ◌+◌, ◌-◌, ◌*◌, ◌/◌, ◌%◌, ◌^◌, Bool, true, not, ◌&&◌, ◌||◌, Option, none, some, ◌==◌, ltb, leb,
  if◌then◌else◌,
}
use libusbhsfs.Bytes.{Buf, load_le16}
use libusbhsfs.Usb.{
  Result, success, libnx, bad_input, heap_alloc_failed, io_error, failed, is_timed_out, EpSession,
  IfSession, CtrlReply, Usb, Io, ◌>>=◌, ◌>>◌, pure, when, service, get_xfer_buf, set_xfer_buf,
  alloc, free, ctrl_xfer,
}
use libusbhsfs.Packets.{
  endpoint_in, endpoint_out, request_type_standard, request_type_class, recipient_interface,
  recipient_endpoint, request_bot_get_max_lun, request_bot_reset, dt_config, dt_string,
  config_descriptor_size, string_descriptor_size, postbuffer_timeout, request_type, setup, Xfer,
  xfer, max_lun_of_reply, same_descriptor, total_length, is_config_descriptor, string_data,
  check_string_reply, check_reply, descriptor_setup,
}

module _ {W : Type 0} (usb : Usb W) where
  -- usbHsFsRequestGetMaxLogicalUnits(); `some` is what it writes to `*out`.
  unfoldable pub get_max_logical_units : IfSession → Io W (Result × Option ℕ)
  unfolding alloc free ctrl_xfer max_lun_of_reply check_reply
  get_max_logical_units ses = if not ses.active then pure (libnx bad_input, none) else do
    ok ← alloc usb 1
    if not ok then pure (libnx heap_alloc_failed, none) else do
      r ← ctrl_xfer usb (
          setup (request_type endpoint_in request_type_class recipient_interface)
            request_bot_get_max_lun 0 ses.interface_number 1)
      free usb
      let rc = check_reply 1 r
      pure (rc, if failed rc then none else some (max_lun_of_reply (r.reply 0)))

  unfoldable pub mass_storage_reset : IfSession → Io W Result
  unfolding ctrl_xfer
  mass_storage_reset ses = if not ses.active then pure (libnx bad_input) else do
    r ← ctrl_xfer usb (
        setup (request_type endpoint_out request_type_class recipient_interface) request_bot_reset 0
          ses.interface_number 0)
    pure r.rc

  -- The second half of usbHsFsRequestGetConfigurationDescriptor(), from the full buffer on.
  unfoldable pub get_full_configuration_descriptor : ℕ → Buf → Io W (Result × Option (Buf × ℕ))
  unfolding alloc free ctrl_xfer check_reply same_descriptor
  get_full_configuration_descriptor desc config = do
    ok ← alloc usb (total_length config + 1)
    if not ok then pure (libnx heap_alloc_failed, none) else do
      r ← ctrl_xfer usb (descriptor_setup desc 0 (total_length config))
      let checked = check_reply (total_length config) r
      let rc = if failed checked then checked else same_descriptor config r.reply
      if failed rc
          then (do free usb; pure (rc, none))
          else pure (success, some (r.reply, total_length config))

  -- usbHsFsRequestGetConfigurationDescriptor(); `some` is what it writes to `*out_buf` and
  -- `*out_buf_size`.
  unfoldable pub get_configuration_descriptor : IfSession → ℕ → Io W (Result × Option (Buf × ℕ))
  unfolding get_full_configuration_descriptor is_config_descriptor
  get_configuration_descriptor ses idx =
      if not ses.active || leb ses.num_configurations idx then pure (libnx bad_input, none) else do
        ok ← alloc usb config_descriptor_size
        if not ok then pure (libnx heap_alloc_failed, none) else do
          r ← ctrl_xfer usb (descriptor_setup (dt_config * 2 ^ 8 + idx) 0 config_descriptor_size)
          let rc = check_reply config_descriptor_size r
          out ←
              if failed rc
              then pure (rc, none)
              else if is_config_descriptor r.reply
              then get_full_configuration_descriptor (dt_config * 2 ^ 8 + idx) r.reply
              else pure (libnx io_error, none)
          free usb
          pure out

  -- The copy at the end of usbHsFsRequestGetStringDescriptor().
  unfoldable pub copy_string_descriptor : CtrlReply → Io W (Result × Option (Buf × ℕ))
  unfolding alloc string_data
  copy_string_descriptor r = do
    ok ← alloc usb r.size
    if ok
        then pure (success, some (string_data r.reply r.size, r.size - 2))
        else pure (libnx heap_alloc_failed, none)

  -- usbHsFsRequestGetStringDescriptor().
  unfoldable pub get_string_descriptor : IfSession → ℕ → ℕ → Io W (Result × Option (Buf × ℕ))
  unfolding alloc free ctrl_xfer check_string_reply copy_string_descriptor
  get_string_descriptor ses idx lang_id =
      if not ses.active then pure (libnx bad_input, none) else do
        ok ← alloc usb string_descriptor_size
        if not ok then pure (libnx heap_alloc_failed, none) else do
          r ←
              ctrl_xfer usb
                (descriptor_setup (dt_string * 2 ^ 8 + idx) lang_id string_descriptor_size)
          let rc = check_string_reply r
          out ← if failed rc then pure (rc, none) else copy_string_descriptor r
          free usb
          pure out

  -- usbHsFsRequestGetEndpointStatus(); `some` is what it writes to `*out`.
  unfoldable pub get_endpoint_status : IfSession → EpSession → Io W (Result × Option Bool)
  unfolding alloc free ctrl_xfer check_reply
  get_endpoint_status ses ep =
      if not ses.active || not ep.active then pure (libnx bad_input, none) else do
        ok ← alloc usb 2
        if not ok then pure (libnx heap_alloc_failed, none) else do
          r ← ctrl_xfer usb (
              setup (request_type endpoint_in request_type_standard recipient_endpoint) 0 0
                ep.address 2)
          free usb
          let rc = check_reply 2 r
          pure (rc, if failed rc then none else some (not (load_le16 r.reply 0 == 0)))

  unfoldable pub clear_endpoint_halt_feature : IfSession → EpSession → Io W Result
  unfolding ctrl_xfer
  clear_endpoint_halt_feature ses ep =
      if not ses.active || not ep.active then pure (libnx bad_input) else do
        r ← ctrl_xfer usb (
            setup (request_type endpoint_out request_type_standard recipient_endpoint) 1 0
              ep.address 0)
        pure r.rc

  unfoldable pub set_interface : IfSession → Io W Result
  unfolding ctrl_xfer
  set_interface ses = if not ses.active then pure (libnx bad_input) else do
    r ← ctrl_xfer usb (
        setup (request_type endpoint_out request_type_standard recipient_interface) 11
          ses.alternate_setting ses.interface_number 0)
    pure r.rc

  -- __usbHsEpSubmitRequest(); `*xfer_size` stays `old` if the request fails.
  unfoldable pub ep_submit_request : EpSession → ℕ → ℕ → ℕ → Io W Xfer
  ep_submit_request ep size timeout_ms old = do
    buf ← get_xfer_buf
    (rc, n, buf') ← service (
        usb.ep_submit_request ep (if bit_and ep.address endpoint_in == 0 then 0 else 1) size
          timeout_ms ((size + 0xfff) % 2 ^ 32 / 2 ^ 12 * 2 ^ 12) buf)
    set_xfer_buf buf'
    pure (xfer rc (if failed rc then old else n))

  -- What follows a wait that succeeded.
  unfoldable pub read_xfer_report : EpSession → Io W Xfer
  read_xfer_report ep = do
    report ← service (usb.ep_get_xfer_report ep)
    pure (
        if failed report.rc
        then xfer report.rc 0
        else if ltb report.count 1
        then xfer (libnx bad_input) 0
        else xfer report.res report.transferred)

  -- The branch of usbHsFsRequestEndpointDataXfer() for HOS 2.0.0 and later.
  unfoldable pub async_data_xfer : EpSession → ℕ → Io W Xfer
  unfolding read_xfer_report
  async_data_xfer ep size = do
    buf ← get_xfer_buf
    rc ← service (usb.ep_post_buffer_async ep size buf)
    if failed rc then pure (xfer rc 0) else do
      (rc, buf') ← service (usb.event_wait ep postbuffer_timeout buf)
      set_xfer_buf buf'
      when (not (failed rc) || is_timed_out rc)
          (λ s. (tt, record s { world = usb.event_clear ep s.world }))
      if failed rc then pure (xfer rc 0) else read_xfer_report ep

  -- usbHsFsRequestEndpointDataXfer() on the drive's transfer buffer; `old` is the caller's
  -- `*xfer_size` before the call.
  unfoldable pub endpoint_data_xfer : EpSession → ℕ → ℕ → Io W Xfer
  unfolding ep_submit_request async_data_xfer
  endpoint_data_xfer ep size old =
      if not ep.active || (size == 0)
      then pure (xfer (libnx bad_input) old)
      else if usb.hos_before_2_0_0
      then ep_submit_request ep size (postbuffer_timeout / 1000000) 0
      else async_data_xfer ep size

  -- The part of usbHsFsRequestPostBuffer() that looks for a STALL; it is `rc_halt`.
  unfoldable pub clear_stall : IfSession → EpSession → Io W Result
  unfolding get_endpoint_status clear_endpoint_halt_feature
  clear_stall ses ep = do
    (rc, status) ← get_endpoint_status ses ep
    elim status [
      | some true ↦ if failed rc then pure rc else clear_endpoint_halt_feature ses ep
      | _ ↦ pure rc
    ]

  -- usbHsFsRequestPostBuffer() on the drive's transfer buffer.
  unfoldable pub post_buffer : IfSession → EpSession → ℕ → ℕ → Bool → Io W Xfer
  unfolding endpoint_data_xfer clear_stall
  post_buffer ses ep size old retry =
      if not ses.active || not ep.active || (size == 0)
      then pure (xfer (libnx bad_input) old)
      else do
        r ← endpoint_data_xfer ep size old
        if not (failed r.rc) then pure r else do
          rc_halt ← clear_stall ses ep
          if not (failed rc_halt) && retry then endpoint_data_xfer ep size r.size else pure r
