-- ===== src/Drive/Endpoints/Kept.antt =====
-- source/usbhsfs_drive.c: what the opening and the closing of an endpoint session keep,
-- usbHsFsDriveSetupEndpointDescriptors() keeps.
pub mod Whole
use libusbhsfs.Base.{
  ℕ, zero, suc, ◌+◌, ◌-◌, Bool, true, false, not, ◌&&◌, ◌||◌, Option, none, some, ◌==◌, ltb, leb,
  if◌then◌else◌,
}
use libusbhsfs.Bytes.{Buf, shift}
use libusbhsfs.Usb.{DriveContext, Usb, State, Io, ◌>>=◌, ◌>>◌, pure, free}
use libusbhsfs.Request.{get_configuration_descriptor}
use libusbhsfs.Drive.Interface.{
  Interface, Hs, interface_protocol, usb_attached_scsi, bulk_only_transport,
  change_interface_descriptor,
}
use libusbhsfs.Drive.Endpoints.{
  Slot, in_1, out_1, in_2, out_2, slot_of, all_active, pipe_fits, is_input, is_skipped,
  is_bad_descriptor, is_uasp_interface, min_config_size, get_endpoint_session, close_slot,
  close_slots, parse_endpoints, end_setup, setup_endpoint_descriptors, parse_interfaces, fall_back,
  look_through, setup_interface_and_endpoint_descriptors,
}
use libusbhsfs.Drive.Endpoints.Opened.{if_lem}

-- Every call of the setup keeps `P`.
pub record Steps {W : Type 0} (hs : Hs W) (usb : Usb W) (P : DriveContext → State W → Type 0)
    : Type 0 where
  pub opens :
      (i : Interface) (which : Slot) (input : Bool) (ep_addr : ℕ) (d : DriveContext) (s : State W)
      → P d s
      → let r = get_endpoint_session hs i which input ep_addr d s in P r.0.1 r.1
  pub closes :
      (which : Slot) (d : DriveContext) (s : State W)
      → P d s
      → P (close_slot hs which d s).0 (close_slot hs which d s).1
  pub changes :
      (i : Interface) (new : Buf) (d : DriveContext) (s : State W)
      → P d s
      → P d (change_interface_descriptor hs i new s).1
  pub asks :
      (i : Interface) (d : DriveContext) (s : State W)
      → P d s
      → P d (get_configuration_descriptor usb i.session 0 s).1
  pub frees : (d : DriveContext) (s : State W) → P d s → P d (free usb s).1

module _ {W : Type 0} (hs : Hs W) (usb : Usb W) (P : DriveContext → State W → Type 0)
    (steps : Steps hs usb P) where
  abbrev AtEndpoint : ((Bool × ℕ) × DriveContext) × State W → Type 0
  AtEndpoint r = P r.0.1 r.1

  parse_endpoints-Kept :
      (i : Interface) (config : Buf) (size rounds off : ℕ) (ep_desc : Option ℕ) (d : DriveContext)
      (s : State W)
      → P d s
      → AtEndpoint (parse_endpoints hs i config size rounds off ep_desc d s)
  unfolding parse_endpoints
  parse_endpoints-Kept i config size zero off ep_desc d s h = h
  parse_endpoints-Kept i config size (suc rounds) off none d s h =
      let at = off + config off in
      let go = parse_endpoints hs i config size rounds at in
      let next = go (some (config (off + 2))) d in
      if_lem AtEndpoint (leb size (off + 1) || is_bad_descriptor config size off)
        (pure ((false, off), d)) (if is_skipped config off none then go none d else next) s (λ _. h)
        (λ _.
          if_lem AtEndpoint (is_skipped config off none) (go none d) next s
            (λ _. parse_endpoints-Kept i config size rounds at none d s h)
            (λ _. parse_endpoints-Kept i config size rounds at (some (config (off + 2))) d s h))
  parse_endpoints-Kept i config size (suc rounds) off (some ep_addr) d s h =
      let at = off + config off in
      let go = parse_endpoints hs i config size rounds at in
      let pipe_id = config (off + 2) in
      let r = get_endpoint_session hs i (slot_of pipe_id) (is_input ep_addr) ep_addr d s in
      let opened = steps.opens i (slot_of pipe_id) (is_input ep_addr) ep_addr d s h in
      let behind : DriveContext → Io W ((Bool × ℕ) × DriveContext) =
        λ d'. if all_active d' then pure ((true, at), d') else go none d' in
      let open_it : Io W ((Bool × ℕ) × DriveContext) =
        get_endpoint_session hs i (slot_of pipe_id) (is_input ep_addr) ep_addr d >>= λ (ok, d').
        if not ok then pure ((false, at), d') else behind d' in
      let use_it =
        if not (pipe_fits (is_input ep_addr) pipe_id) then pure ((false, at), d) else open_it in
      if_lem AtEndpoint (leb size (off + 1) || is_bad_descriptor config size off)
        (pure ((false, off), d))
        (if is_skipped config off (some ep_addr) then go (some ep_addr) d else use_it) s (λ _. h)
        (λ _.
          if_lem AtEndpoint (is_skipped config off (some ep_addr)) (go (some ep_addr) d) use_it s
            (λ _. parse_endpoints-Kept i config size rounds at (some ep_addr) d s h)
            (λ _.
              if_lem AtEndpoint (not (pipe_fits (is_input ep_addr) pipe_id)) (pure ((false, at), d))
                open_it s (λ _. h)
                (λ _.
                  if_lem AtEndpoint (not r.0.0) (pure ((false, at), r.0.1)) (behind r.0.1) r.1
                    (λ _. opened)
                    (λ _.
                      if_lem AtEndpoint (all_active r.0.1) (pure ((true, at), r.0.1))
                        (go none r.0.1) r.1 (λ _. opened)
                        (λ _.
                          parse_endpoints-Kept i config size rounds at none r.0.1 r.1 opened)))))

  end_setup-Kept :
      (ok : Bool) (d : DriveContext) (s : State W)
      → P d s
      → P (end_setup hs ok d s).0.1 (end_setup hs ok d s).1
  unfolding end_setup close_slots
  end_setup-Kept true d s h = h
  end_setup-Kept false d s h =
      let r1 = close_slot hs out_2 d s in
      let r2 = close_slot hs in_2 r1.0 r1.1 in
      let r3 = close_slot hs out_1 r2.0 r2.1 in
      steps.closes in_1 r3.0 r3.1
        (steps.closes out_1 r2.0 r2.1 (steps.closes in_2 r1.0 r1.1 (steps.closes out_2 d s h)))

  pub setup_endpoints-Kept :
      (i : Interface) (config : Buf) (size off : ℕ) (d : DriveContext) (s : State W)
      → P d s
      → AtEndpoint (setup_endpoint_descriptors hs i config size off d s)
  unfolding setup_endpoint_descriptors
  setup_endpoints-Kept i config size off d s h =
      let uasp = interface_protocol i.descriptor == usb_attached_scsi in
      let open_out : Bool × DriveContext → Io W (Bool × DriveContext) =
        λ (ok1, d1). if ok1 then get_endpoint_session hs i out_1 false 0 d1 else pure (false, d1) in
      let first = get_endpoint_session hs i in_1 true 0 d s in
      let second = open_out first.0 first.1 in
      let parsed = parse_endpoints hs i config size (size - off) off none d s in
      let by_pipes : Io W ((Bool × ℕ) × DriveContext) =
        parse_endpoints hs i config size (size - off) off none d >>= λ ((ok, off'), d').
        end_setup hs ok d' >>= λ (ok', d''). pure ((ok', off'), d'') in
      let by_direction : Io W ((Bool × ℕ) × DriveContext) =
        get_endpoint_session hs i in_1 true 0 d >>= λ (ok1, d1).
        (if ok1 then get_endpoint_session hs i out_1 false 0 d1 else pure (false, d1))
        >>= λ (ok2, d2). end_setup hs ok2 d2 >>= λ (ok', d''). pure ((ok', off), d'') in
      let opened = steps.opens i in_1 true 0 d s h in
      if_lem AtEndpoint (not i.session.active || (uasp && ((size == 0) || leb size off)))
        (pure ((false, off), d)) (if uasp then by_pipes else by_direction) s (λ _. h)
        (λ _.
          if_lem AtEndpoint uasp by_pipes by_direction s
            (λ _.
              end_setup-Kept parsed.0.0.0 parsed.0.1 parsed.1
                (parse_endpoints-Kept i config size (size - off) off none d s h))
            (λ _. end_setup-Kept second.0.0 second.0.1 second.1 (
              if_lem (λ r. P r.0.1 r.1) first.0.0
                (get_endpoint_session hs i out_1 false 0 first.0.1) (pure (false, first.0.1))
                first.1 (λ _. steps.opens i out_1 false 0 first.0.1 first.1 opened) (λ _. opened))))
