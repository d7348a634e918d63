-- ===== src/Drive/Endpoints/Settled.antt =====
-- source/usbhsfs_drive.c: what usbHsFsDriveSetupInterfaceAndEndpointDescriptors() leaves active.
use libusbhsfs.Base.{
  ℕ, zero, suc, ◌+◌, ◌-◌, ◌≡◌, sym, ap, subst, ◌∙◌, Bool, true, false, not, ◌&&◌, ◌||◌, Option,
  none, some, arith, ◌==◌, ltb, leb, if◌then◌else◌,
}
use libusbhsfs.Bytes.{Buf, shift}
use libusbhsfs.Usb.{DriveContext, Usb, State, Io, ◌>>=◌, ◌>>◌, pure, free}
use libusbhsfs.Request.{get_configuration_descriptor}
use libusbhsfs.Drive.Interface.{
  Interface, Hs, interface_protocol, usb_attached_scsi, bulk_only_transport,
  change_interface_descriptor,
}
use libusbhsfs.Drive.Endpoints.{
  in_1, out_1, set_slot, is_bad_descriptor, is_uasp_interface, min_config_size,
  get_endpoint_session, parse_endpoints, end_setup, setup_endpoint_descriptors, parse_interfaces,
  fall_back, look_through, setup_interface_and_endpoint_descriptors,
}
use libusbhsfs.Drive.Endpoints.Opened.{
  IsHs, IsActive, IsSettled, all_active-IsActive, get_endpoint_session-IsFilled, if_lem,
}
use libusbhsfs.Drive.Endpoints.Closed.{end_setup-IsSettled}
use libusbhsfs.Drive.Endpoints.Found.{parse_endpoints-IsFound}

-- What one of the calls leaves active in the context.
abbrev IsSetUp : {W : Type 0} → Interface → ((Bool × ℕ) × DriveContext) × State W → Type 0
IsSetUp i r = IsSettled r.0.0.0 i r.0.1

abbrev pub IsSetDrive : {W : Type 0} → (Bool × Interface × DriveContext) × State W → Type 0
IsSetDrive r = IsSettled r.0.0 r.0.1 r.0.2

module _ {W : Type 0} (hs : Hs W) (law : IsHs hs) where
  -- The endpoints of the Bulk-Only Transport.
  open_both-IsActive :
      (i : Interface) (d : DriveContext) (s : State W)
      → i.session.active ≡ true
      → IsActive false false d
      → let r =
          (get_endpoint_session hs i in_1 true 0 d >>= λ (ok1, d1).
          if ok1 then get_endpoint_session hs i out_1 false 0 d1 else pure (false, d1))
            s in
        r.0.0 ≡ true → IsActive true false r.0.1
  open_both-IsActive i d s active off =
      let r1 = get_endpoint_session hs i in_1 true 0 d s in
      let set_1 = get_endpoint_session-IsFilled hs law i in_1 true 0 d s active in
      let set_2 = get_endpoint_session-IsFilled hs law i out_1 false 0 r1.0.1 r1.1 active in
      if_lem (λ r. r.0.0 ≡ true → IsActive true false r.0.1) r1.0.0
        (get_endpoint_session hs i out_1 false 0 r1.0.1) (pure (false, r1.0.1)) r1.1
        (λ first second.
          subst (IsActive true false)
            (sym (set_2.is_set ∙ ap (set_slot out_1 set_2.ep) set_1.is_set))
            (record {
              in_1_is = set_1.is_active first;
              out_1_is = set_2.is_active second;
              in_2_is = off.in_2_is;
              out_2_is = off.out_2_is;
            }))
        (λ first second. ground arith)

  setup_endpoints-IsSettled :
      (i : Interface) (config : Buf) (size off : ℕ) (d : DriveContext) (s : State W)
      → IsActive false false d
      → IsSetUp i (setup_endpoint_descriptors hs i config size off d s)
  unfolding setup_endpoint_descriptors
  setup_endpoints-IsSettled i config size off d s closed =
      let uasp = interface_protocol i.descriptor == usb_attached_scsi in
      let parsed = parse_endpoints hs i config size (size - off) off none d s in
      let opened =
        (get_endpoint_session hs i in_1 true 0 d >>= λ (ok1, d1).
        if ok1 then get_endpoint_session hs i out_1 false 0 d1 else pure (false, d1))
          s in
      let refused = not i.session.active || (uasp && ((size == 0) || leb size off)) in
      let by_pipes : Io W ((Bool × ℕ) × DriveContext) =
        parse_endpoints hs i config size (size - off) off none d >>= λ ((ok, off'), d').
        end_setup hs ok d' >>= λ (ok', d''). pure ((ok', off'), d'') in
      let by_direction : Io W ((Bool × ℕ) × DriveContext) =
        get_endpoint_session hs i in_1 true 0 d >>= λ (ok1, d1).
        (if ok1 then get_endpoint_session hs i out_1 false 0 d1 else pure (false, d1))
        >>= λ (ok2, d2). end_setup hs ok2 d2 >>= λ (ok', d''). pure ((ok', off), d'') in
      if_lem (IsSetUp i) refused (pure ((false, off), d)) (if uasp then by_pipes else by_direction)
        s (λ _. closed)
        (λ fine.
          if_lem (IsSetUp i) uasp by_pipes by_direction s
            (λ is_uasp. end_setup-IsSettled hs law i parsed.0.0.0 parsed.0.1 parsed.1 (λ found.
              subst (λ b. IsActive true b parsed.0.1) (sym is_uasp)
                (all_active-IsActive parsed.0.1
                  (parse_endpoints-IsFound hs i config size (size - off) off none d s found))))
            (λ is_bot. end_setup-IsSettled hs law i opened.0.0 opened.0.1 opened.1 (λ both.
              subst (λ b. IsActive true b opened.0.1) (sym is_bot)
                (open_both-IsActive i d s (ground arith) closed both))))

  -- The interface was changed: the loop stops if its endpoints are set up, and goes on if not.
  set_up-IsSettled :
      (i : Interface) (config : Buf) (size off : ℕ) (d : DriveContext)
      (next : ℕ → DriveContext → Io W (Bool × Interface × DriveContext)) (s : State W)
      → IsActive false false d
      → ((off' : ℕ) (d' : DriveContext) (s' : State W)
          → IsActive false false d'
          → IsSetDrive (next off' d' s'))
      → IsSetDrive (
          (setup_endpoint_descriptors hs i config size off d >>= λ ((ok, off'), d').
          if ok then pure (true, i, d') else next off' d')
            s)
  set_up-IsSettled i config size off d next s closed k =
      by_outcome (setup_endpoint_descriptors hs i config size off d s)
        (setup_endpoints-IsSettled i config size off d s closed)
    where
      by_outcome :
          (q : ((Bool × ℕ) × DriveContext) × State W)
          → IsSetUp i q
          → IsSetDrive ((if q.0.0.0 then pure (true, i, q.0.1) else next q.0.0.1 q.0.1) q.1)
      by_outcome (((true, off'), d'), s') h = h
      by_outcome (((false, off'), d'), s') h = k off' d' s' h

  parse_interfaces-IsSettled :
      (orig config : Buf) (size rounds off : ℕ) (i : Interface) (d : DriveContext) (s : State W)
      → IsActive false false d
      → IsSetDrive (parse_interfaces hs orig config size rounds off i d s)
  unfolding parse_interfaces
  parse_interfaces-IsSettled orig config size zero off i d s closed = closed
  parse_interfaces-IsSettled orig config size (suc rounds) off i d s closed =
      let at = off + config off in
      let r = change_interface_descriptor hs i (shift off config) s in
      let skip = parse_interfaces hs orig config size rounds at i d in
      let skip' = parse_interfaces hs orig config size rounds at r.0.1 d in
      let next : ℕ → DriveContext → Io W (Bool × Interface × DriveContext) =
        λ off' d'. parse_interfaces hs orig config size rounds off' r.0.1 d' in
      let try : Interface → Io W (Bool × Interface × DriveContext) = λ i'.
        setup_endpoint_descriptors hs i' config size at d >>= λ ((ok, off'), d').
        if ok
        then pure (true, i', d')
        else parse_interfaces hs orig config size rounds off' i' d' in
      let use_it : Io W (Bool × Interface × DriveContext) =
        change_interface_descriptor hs i (shift off config) >>= λ (changed, i').
        if not changed then parse_interfaces hs orig config size rounds at i' d else try i' in
      if_lem IsSetDrive (leb size (off + 1) || is_bad_descriptor config size off)
        (pure (false, i, d)) (if not (is_uasp_interface orig config off) then skip else use_it) s
        (λ _. closed)
        (λ _.
          if_lem IsSetDrive (not (is_uasp_interface orig config off)) skip use_it s
            (λ _. parse_interfaces-IsSettled orig config size rounds at i d s closed)
            (λ _.
              if_lem IsSetDrive (not r.0.0) skip' (try r.0.1) r.1
                (λ _. parse_interfaces-IsSettled orig config size rounds at r.0.1 d r.1 closed)
                (λ _. set_up-IsSettled r.0.1 config size at d next r.1 closed (λ off' d' s'.
                  parse_interfaces-IsSettled orig config size rounds off' r.0.1 d' s'))))

  fall_back-IsSettled :
      (orig : Buf) (i : Interface) (d : DriveContext) (s : State W)
      → IsActive false false d
      → IsSetDrive (fall_back hs orig i d s)
  unfolding fall_back
  fall_back-IsSettled orig i d s closed =
      let r = change_interface_descriptor hs i orig s in
      let set_up : Interface → Io W (Bool × Interface × DriveContext) = λ i'.
        setup_endpoint_descriptors hs i' (λ _. 0) 0 0 d >>= λ ((ok, off), d'). pure (ok, i', d') in
      let change : Io W (Bool × Interface × DriveContext) =
        change_interface_descriptor hs i orig >>= λ (changed, i').
        if not changed then pure (false, i', d) else set_up i' in
      if_lem IsSetDrive (not (interface_protocol orig == bulk_only_transport)) (pure (false, i, d))
        change s (λ _. closed)
        (λ _.
          if_lem IsSetDrive (not r.0.0) (pure (false, r.0.1, d)) (set_up r.0.1) r.1 (λ _. closed)
            (λ _. setup_endpoints-IsSettled r.0.1 (λ _. 0) 0 0 d r.1 closed))

  -- What was found in the configuration, or the original interface.
  or_fall_back-IsSettled :
      (orig : Buf) (r : (Bool × Interface × DriveContext) × State W)
      → IsSetDrive r
      → IsSetDrive
          ((if r.0.0 then pure (true, r.0.1, r.0.2) else fall_back hs orig r.0.1 r.0.2) r.1)
  or_fall_back-IsSettled orig ((true, i, d), s) h = h
  or_fall_back-IsSettled orig ((false, i, d), s) h = fall_back-IsSettled orig i d s h

  look_through-IsSettled :
      (usb : Usb W) (i : Interface) (d : DriveContext) (out : Option (Buf × ℕ)) (s : State W)
      → IsActive false false d
      → IsSetDrive (look_through hs usb i d out s)
  unfolding look_through free
  look_through-IsSettled usb i d none s closed = closed
  look_through-IsSettled usb i d (some (config, size)) s closed =
      let parse : Io W (Bool × Interface × DriveContext) =
        parse_interfaces hs i.descriptor config size size 0 i d >>= λ r. free usb >> pure r in
      if_lem IsSetDrive (ltb size min_config_size) (free usb >> pure (false, i, d)) parse s
        (λ _. closed) (λ _. parse_interfaces-IsSettled i.descriptor config size size 0 i d s closed)

  -- If none of the four endpoint sessions that a drive's context holds is active, those of the four
  -- that are active behind the setup of its interface are exactly those that the protocol of the
  -- interface in use works with if it succeeds, two for the Bulk-Only Transport and four for USB
  -- Attached SCSI, and none of the four if it fails. Sessions that were overwritten in the context
  -- while they were open are not spoken of. libnx is asked for this: an endpoint session that it opens
  -- is active, one that it closes is not.
  pub setup_interface_and_endpoint_descriptors-IsSettled :
      (usb : Usb W) (i : Interface) (d : DriveContext) (s : State W)
      → IsActive false false d
      → IsSetDrive (setup_interface_and_endpoint_descriptors hs usb i d s)
  unfolding setup_interface_and_endpoint_descriptors
  setup_interface_and_endpoint_descriptors-IsSettled usb i d s closed =
      let c = get_configuration_descriptor usb i.session 0 s in
      let set_up : Io W (Bool × Interface × DriveContext) =
        get_configuration_descriptor usb i.session 0 >>= λ (rc, out).
        look_through hs usb i d out >>= λ (ok, i', d').
        if ok then pure (true, i', d') else fall_back hs i.descriptor i' d' in
      if_lem IsSetDrive (not i.session.active) (pure (false, i, d)) set_up s (λ _. closed)
        (λ _.
          or_fall_back-IsSettled i.descriptor (look_through hs usb i d c.0.1 c.1)
            (look_through-IsSettled usb i d c.0.1 c.1 closed))
