-- ===== src/Drive/Endpoints/Kept/Whole.antt =====
-- source/usbhsfs_drive.c: the loop over interfaces, and usbHsFsDriveSetupInterfaceAndEndpointDescriptors().
use libusbhsfs.Base.{
  ℕ, zero, suc, ◌+◌, Bool, true, false, not, ◌||◌, Option, none, some, ◌==◌, ltb, leb,
  if◌then◌else◌,
}
use libusbhsfs.Bytes.{Buf, shift}
use libusbhsfs.Usb.{DriveContext, Usb, State, Io, ◌>>=◌, ◌>>◌, pure, free}
use libusbhsfs.Request.{get_configuration_descriptor}
use libusbhsfs.Drive.Interface.{
  Interface, Hs, interface_protocol, bulk_only_transport, change_interface_descriptor,
}
use libusbhsfs.Drive.Endpoints.{
  is_bad_descriptor, is_uasp_interface, min_config_size, setup_endpoint_descriptors,
  parse_interfaces, fall_back, look_through, setup_interface_and_endpoint_descriptors,
}
use libusbhsfs.Drive.Endpoints.Opened.{if_lem}
use libusbhsfs.Drive.Endpoints.Kept.{Steps, setup_endpoints-Kept}

module _ {W : Type 0} (hs : Hs W) (usb : Usb W) (P : DriveContext → State W → Type 0)
    (steps : Steps hs usb P) where
  abbrev AtInterface : (Bool × Interface × DriveContext) × State W → Type 0
  AtInterface r = P r.0.2 r.1

  parse_interfaces-Kept :
      (orig config : Buf) (size rounds off : ℕ) (i : Interface) (d : DriveContext) (s : State W)
      → P d s
      → AtInterface (parse_interfaces hs orig config size rounds off i d s)
  unfolding parse_interfaces
  parse_interfaces-Kept orig config size zero off i d s h = h
  parse_interfaces-Kept orig config size (suc rounds) off i d s h =
      let at = off + config off in
      let go = parse_interfaces hs orig config size rounds in
      let r = change_interface_descriptor hs i (shift off config) s in
      let changed = steps.changes i (shift off config) d s h in
      let q = setup_endpoint_descriptors hs r.0.1 config size at d r.1 in
      let set_up = setup_endpoints-Kept hs usb P steps r.0.1 config size at d r.1 changed in
      let try : Interface → Io W (Bool × Interface × DriveContext) = λ i'.
        setup_endpoint_descriptors hs i' config size at d >>= λ ((ok, off'), d').
        if ok then pure (true, i', d') else go off' i' d' in
      let use_it : Io W (Bool × Interface × DriveContext) =
        change_interface_descriptor hs i (shift off config) >>= λ (changed, i').
        if not changed then go at i' d else try i' in
      if_lem AtInterface (leb size (off + 1) || is_bad_descriptor config size off)
        (pure (false, i, d)) (if not (is_uasp_interface orig config off) then go at i d else use_it)
        s (λ _. h)
        (λ _.
          if_lem AtInterface (not (is_uasp_interface orig config off)) (go at i d) use_it s
            (λ _. parse_interfaces-Kept orig config size rounds at i d s h)
            (λ _.
              if_lem AtInterface (not r.0.0) (go at r.0.1 d) (try r.0.1) r.1
                (λ _. parse_interfaces-Kept orig config size rounds at r.0.1 d r.1 changed)
                (λ _.
                  if_lem AtInterface q.0.0.0 (pure (true, r.0.1, q.0.1)) (go q.0.0.1 r.0.1 q.0.1)
                    q.1 (λ _. set_up)
                    (λ _.
                      parse_interfaces-Kept orig config size rounds q.0.0.1 r.0.1 q.0.1 q.1
                        set_up))))

  fall_back-Kept :
      (orig : Buf) (i : Interface) (d : DriveContext) (s : State W)
      → P d s
      → AtInterface (fall_back hs orig i d s)
  unfolding fall_back
  fall_back-Kept orig i d s h =
      let r = change_interface_descriptor hs i orig s in
      let changed = steps.changes i orig d s h in
      let set_up : Interface → Io W (Bool × Interface × DriveContext) = λ i'.
        setup_endpoint_descriptors hs i' (λ _. 0) 0 0 d >>= λ ((ok, off), d'). pure (ok, i', d') in
      let change : Io W (Bool × Interface × DriveContext) =
        change_interface_descriptor hs i orig >>= λ (changed, i').
        if not changed then pure (false, i', d) else set_up i' in
      if_lem AtInterface (not (interface_protocol orig == bulk_only_transport)) (pure (false, i, d))
        change s (λ _. h)
        (λ _.
          if_lem AtInterface (not r.0.0) (pure (false, r.0.1, d)) (set_up r.0.1) r.1 (λ _. changed)
            (λ _. setup_endpoints-Kept hs usb P steps r.0.1 (λ _. 0) 0 0 d r.1 changed))

  look_through-Kept :
      (i : Interface) (d : DriveContext) (out : Option (Buf × ℕ)) (s : State W)
      → P d s
      → AtInterface (look_through hs usb i d out s)
  unfolding look_through
  look_through-Kept i d none s h = h
  look_through-Kept i d (some (config, size)) s h =
      let parsed = parse_interfaces hs i.descriptor config size size 0 i d s in
      let parse : Io W (Bool × Interface × DriveContext) =
        parse_interfaces hs i.descriptor config size size 0 i d >>= λ r. free usb >> pure r in
      if_lem AtInterface (ltb size min_config_size) (free usb >> pure (false, i, d)) parse s
        (λ _. steps.frees d s h)
        (λ _.
          steps.frees parsed.0.2 parsed.1
            (parse_interfaces-Kept i.descriptor config size size 0 i d s h))

  pub setup_interface_and_endpoint_descriptors-Kept :
      (i : Interface) (d : DriveContext) (s : State W)
      → P d s
      → AtInterface (setup_interface_and_endpoint_descriptors hs usb i d s)
  unfolding setup_interface_and_endpoint_descriptors
  setup_interface_and_endpoint_descriptors-Kept i d s h =
      let c = get_configuration_descriptor usb i.session 0 s in
      let r = look_through hs usb i d c.0.1 c.1 in
      let looked = look_through-Kept i d c.0.1 c.1 (steps.asks i d s h) in
      let set_up : Io W (Bool × Interface × DriveContext) =
        get_configuration_descriptor usb i.session 0 >>= λ (rc, out).
        look_through hs usb i d out >>= λ (ok, i', d').
        if ok then pure (true, i', d') else fall_back hs i.descriptor i' d' in
      if_lem AtInterface (not i.session.active) (pure (false, i, d)) set_up s (λ _. h)
        (λ _.
          if_lem AtInterface r.0.0 (pure (true, r.0.1, r.0.2))
            (fall_back hs i.descriptor r.0.1 r.0.2) r.1 (λ _. looked)
            (λ _. fall_back-Kept i.descriptor r.0.1 r.0.2 r.1 looked))
