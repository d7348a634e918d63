-- ===== src/Drive/Endpoints.antt =====
-- source/usbhsfs_drive.c: usbHsFsDriveGetEndpointSession(), usbHsFsDriveSetupEndpointDescriptors()
-- and usbHsFsDriveSetupInterfaceAndEndpointDescriptors(). A loop over descriptors moves on by at
-- least one byte in a round, so as many rounds as there are bytes are enough.
pub mod Closed
pub mod Counts
pub mod Enough
pub mod Found
pub mod Kept
pub mod Opened
pub mod Sessions
pub mod Settled
use libusbhsfs.Base.{
  ℕ, zero, suc, ◌+◌, ◌-◌, ◌*◌, ◌/◌, ◌%◌, ◌^◌, Bool, true, false, not, ◌&&◌, ◌||◌, List, [], ◌∷◌,
  Option, none, some, ◌==◌, ltb, leb, if◌then◌else◌, take,
}
use libusbhsfs.Bytes.{Buf, shift}
use libusbhsfs.Usb.{
  DriveContext, EpSession, Usb, Io, ◌>>=◌, ◌>>◌, pure, when, service, failed, free,
}
use libusbhsfs.Request.{get_configuration_descriptor}
use libusbhsfs.Drive.Interface.{
  EndpointDescriptor, Interface, Hs, interface_protocol, num_endpoints, bulk_only_transport,
  usb_attached_scsi, change_interface_descriptor,
}
unfoldable pub use libusbhsfs.Drive.Descriptors.{
  dt_interface, dt_endpoint, dt_pipe_usage, interface_descriptor_size, endpoint_descriptor_size,
  pipe_usage_descriptor_size, min_config_size, pipe_cmd, pipe_sts, pipe_data_in, pipe_data_out,
  is_input, slot, set_slot, slot_of, all_active, is_wanted, pipe_fits, is_skipped,
  is_bad_descriptor, same_9_bytes, is_uasp_interface,
}
pub use libusbhsfs.Drive.Descriptors.{Slot, in_1, out_1, in_2, out_2}

module _ {W : Type 0} (hs : Hs W) where
  -- The first endpoint of the list that is wanted is opened.
  unfoldable pub open_first :
      Interface → Bool → ℕ → List EndpointDescriptor → EpSession → Io W (Bool × EpSession)
  open_first i input ep_addr [] ep = pure (false, ep)
  open_first i input ep_addr (e ∷ es) ep =
      let rest = open_first i input ep_addr es ep in
      if not (is_wanted input ep_addr e)
      then rest
      else do (rc, ep') ← service (hs.if_open_usb_ep i e ep); pure (not (failed rc), ep')

  unfoldable pub get_endpoint_session :
      Interface → Slot → Bool → ℕ → DriveContext → Io W (Bool × DriveContext)
  get_endpoint_session i which input ep_addr d =
      if not i.session.active then pure (false, d) else do
        (ok, ep) ←
            open_first i input ep_addr (take 15 (if input then i.inputs else i.outputs))
              (slot which d)
        pure (ok, set_slot which ep d)

  unfoldable pub close_slot : Slot → DriveContext → Io W DriveContext
  close_slot which d =
      if not (slot which d).active
      then pure d
      else do ep ← service (hs.ep_close (slot which d)); pure (set_slot which ep d)

  unfoldable pub close_slots : DriveContext → Io W DriveContext
  close_slots d = do
    d1 ← close_slot out_2 d
    d2 ← close_slot in_2 d1
    d3 ← close_slot out_1 d2
    close_slot in_1 d3

  -- The loop over endpoint and pipe usage descriptors. `ep_desc` is the address of the endpoint whose
  -- pipe usage is looked for. It returns whether all endpoints are there, and where it stopped.
  unfoldable pub parse_endpoints :
      Interface → Buf → ℕ → ℕ → ℕ → Option ℕ → DriveContext → Io W ((Bool × ℕ) × DriveContext)
  parse_endpoints i config size zero off ep_desc d = pure ((false, off), d)
  parse_endpoints i config size (suc rounds) off ep_desc d =
      if leb size (off + 1) || is_bad_descriptor config size off
      then pure ((false, off), d)
      else if is_skipped config off ep_desc
      then parse_endpoints i config size rounds (off + config off) ep_desc d
      else elim ep_desc [
        | none ↦ parse_endpoints i config size rounds (off + config off) (some (config (off + 2))) d
        | some ep_addr ↦
            let pipe_id = config (off + 2) in
            if not (pipe_fits (is_input ep_addr) pipe_id)
            then pure ((false, off + config off), d)
            else (get_endpoint_session i (slot_of pipe_id) (is_input ep_addr) ep_addr d
                >>= λ (ok, d').
                    if not ok
                    then pure ((false, off + config off), d')
                    else if all_active d'
                    then pure ((true, off + config off), d')
                    else parse_endpoints i config size rounds (off + config off) none d')
      ]

  -- The end of the function: endpoints that were opened are closed if something went wrong.
  unfoldable pub end_setup : Bool → DriveContext → Io W (Bool × DriveContext)
  end_setup ok d = if ok then pure (true, d) else (close_slots d >>= λ d'. pure (false, d'))

  -- `some` is the configuration with its size and the offset. It returns the offset too.
  unfoldable pub setup_endpoint_descriptors :
      Interface → Buf → ℕ → ℕ → DriveContext → Io W ((Bool × ℕ) × DriveContext)
  setup_endpoint_descriptors i config size off d =
      let uasp = interface_protocol i.descriptor == usb_attached_scsi in
      if not i.session.active || (uasp && ((size == 0) || leb size off))
      then pure ((false, off), d)
      else if uasp
      then (parse_endpoints i config size (size - off) off none d >>= λ ((ok, off'), d').
          end_setup ok d' >>= λ (ok', d''). pure ((ok', off'), d''))
      else (get_endpoint_session i in_1 true 0 d >>= λ (ok1, d1).
          (if ok1 then get_endpoint_session i out_1 false 0 d1 else pure (false, d1))
          >>= λ (ok2, d2). end_setup ok2 d2 >>= λ (ok', d''). pure ((ok', off), d''))

  -- The loop over interface descriptors. It returns whether an interface was set.
  unfoldable pub parse_interfaces :
      Buf → Buf → ℕ → ℕ → ℕ → Interface → DriveContext → Io W (Bool × Interface × DriveContext)
  parse_interfaces orig config size zero off i d = pure (false, i, d)
  parse_interfaces orig config size (suc rounds) off i d =
      if leb size (off + 1) || is_bad_descriptor config size off
      then pure (false, i, d)
      else if not (is_uasp_interface orig config off)
      then parse_interfaces orig config size rounds (off + config off) i d
      else (change_interface_descriptor hs i (shift off config) >>= λ (changed, i').
          if not changed
          then parse_interfaces orig config size rounds (off + config off) i' d
          else (setup_endpoint_descriptors i' config size (off + config off) d
              >>= λ ((ok, off'), d').
                  if ok
                  then pure (true, i', d')
                  else parse_interfaces orig config size rounds off' i' d'))

  -- The Bulk-Only Transport interface, if it is the one of the session and nothing else was found.
  unfoldable pub fall_back : Buf → Interface → DriveContext → Io W (Bool × Interface × DriveContext)
  fall_back orig i d =
      if not (interface_protocol orig == bulk_only_transport) then pure (false, i, d) else do
        (changed, i') ← change_interface_descriptor hs i orig
        if not changed then pure (false, i', d) else do
          ((ok, off), d') ← setup_endpoint_descriptors i' (λ _. 0) 0 0 d
          pure (ok, i', d')

  -- A configuration descriptor that was read is looked through and freed.
  unfoldable pub look_through :
      Usb W → Interface → DriveContext → Option (Buf × ℕ) → Io W (Bool × Interface × DriveContext)
  look_through usb i d none = pure (false, i, d)
  look_through usb i d (some (config, size)) =
      if ltb size min_config_size
      then (free usb >> pure (false, i, d))
      else (parse_interfaces i.descriptor config size size 0 i d >>= λ r. free usb >> pure r)

  unfoldable pub setup_interface_and_endpoint_descriptors :
      Usb W → Interface → DriveContext → Io W (Bool × Interface × DriveContext)
  setup_interface_and_endpoint_descriptors usb i d =
      if not i.session.active then pure (false, i, d) else do
        (rc, out) ← get_configuration_descriptor usb i.session 0
        (ok, i', d') ← look_through usb i d out
        if ok then pure (true, i', d') else fall_back i.descriptor i' d'
