-- ===== src/Drive/Endpoints/Sessions.antt =====
-- source/usbhsfs_drive.c: how many endpoint sessions usbHsFsDriveSetupInterfaceAndEndpointDescriptors()
-- leaves open, those included that no slot of the context holds any more.
use libusbhsfs.Base.{
  ℕ, ◌+◌, ◌≡◌, ◌≤◌, refl, Bool, true, false, not, List, [], ◌∷◌, arith, inl, inr, Bool-cases, ◌==◌,
  if◌then◌else◌, take,
}
use libusbhsfs.Usb.{DriveContext, EpSession, Usb, State, Io, failed, ◌>>=◌, pure, service, free}
use libusbhsfs.Request.{get_configuration_descriptor}
use libusbhsfs.Drive.Interface.{
  EndpointDescriptor, Interface, Hs, interface_protocol, usb_attached_scsi,
  change_interface_descriptor,
}
use libusbhsfs.Drive.Endpoints.{
  Slot, in_1, out_1, in_2, out_2, slot, set_slot, is_wanted, open_first, get_endpoint_session,
  close_slot, setup_interface_and_endpoint_descriptors,
}
use libusbhsfs.Drive.Endpoints.Opened.{IsHs, IsActive, IsSettled, if_lem}
use libusbhsfs.Drive.Endpoints.Kept.{Steps}
use libusbhsfs.Drive.Endpoints.Kept.Whole.{setup_interface_and_endpoint_descriptors-Kept}
use libusbhsfs.Drive.Endpoints.Settled.{setup_interface_and_endpoint_descriptors-IsSettled}
use libusbhsfs.Drive.Endpoints.Counts.{one_if_active, Counts, IsSame, changes-IsSame, asks-IsSame}

-- The slots of a context that hold an active session.
abbrev pub active_sessions : DriveContext → ℕ
active_sessions d =
    one_if_active d.in_ep_1
    + one_if_active d.out_ep_1
    + one_if_active d.in_ep_2
    + one_if_active d.out_ep_2

-- The sessions that an interface works with: four for USB Attached SCSI, two otherwise.
abbrev pub sessions_in_use : Bool → Interface → ℕ
sessions_in_use ok i =
    if ok then (if interface_protocol i.descriptor == usb_attached_scsi then 4 else 2) else 0

set_slot-active :
    (which : Slot) (ep : EpSession) (d : DriveContext)
    → active_sessions (set_slot which ep d) + one_if_active (slot which d)
      ≡ active_sessions d + one_if_active ep
set_slot-active in_1 ep d = omega arith
set_slot-active out_1 ep d = omega arith
set_slot-active in_2 ep d = omega arith
set_slot-active out_2 ep d = omega arith

module _ {W : Type 0} (hs : Hs W) (usb : Usb W) (opened lost : W → ℕ) (law : IsHs hs)
    (counts : Counts hs usb opened lost) where
  -- With `n` open and `m` lost sessions before, those opened since are in the slots or lost.
  abbrev IsAccounted : ℕ → ℕ → DriveContext → State W → Type 0
  IsAccounted n m d s =
      (opened s.world + m ≡ n + active_sessions d + lost s.world) × (m ≤ lost s.world)

  -- The session `ep` became the one of the result.
  abbrev IsReplaced : EpSession → State W → (Bool × EpSession) × State W → Type 0
  IsReplaced ep s r =
      (opened r.1.world + one_if_active ep + lost s.world
        ≡ opened s.world + one_if_active r.0.1 + lost r.1.world)
      × (lost s.world ≤ lost r.1.world)

  open_first-IsReplaced :
      (i : Interface) (input : Bool) (ep_addr : ℕ) (es : List EndpointDescriptor) (ep : EpSession)
      (s : State W)
      → IsReplaced ep s (open_first hs i input ep_addr es ep s)
  unfolding open_first
  open_first-IsReplaced i input ep_addr [] ep s = (omega arith, omega arith)
  open_first-IsReplaced i input ep_addr (e ∷ es) ep s =
      if_lem (IsReplaced ep s) (not (is_wanted input ep_addr e))
        (open_first hs i input ep_addr es ep)
        (λ t.
          let o = hs.if_open_usb_ep i e ep t.world in
          ((not (failed o.0.0), o.0.1), record t { world = o.1 }))
        s (λ _. open_first-IsReplaced i input ep_addr es ep s)
        (λ _. elim (Bool-cases (failed (hs.if_open_usb_ep i e ep s.world).0.0)) [
          | inl f ↦
              let (o, l, grown) = counts.refuses i e ep s.world f in
              (omega (arith, o, l), omega (arith, grown))
          | inr f ↦
              let (o, l) = counts.opens i e ep s.world f in
              let active = law.opens i e ep s.world f in
              (rw active (omega (arith, o, l)), omega (arith, l))
        ])

  opens-IsAccounted :
      (n m : ℕ) (i : Interface) (which : Slot) (input : Bool) (ep_addr : ℕ) (d : DriveContext)
      (s : State W)
      → IsAccounted n m d s
      → let r = get_endpoint_session hs i which input ep_addr d s in IsAccounted n m r.0.1 r.1
  unfolding get_endpoint_session
  opens-IsAccounted n m i which input ep_addr d s (e, l) =
      let es = take 15 (if input then i.inputs else i.outputs) in
      let o = open_first hs i input ep_addr es (slot which d) s in
      let (replaced, grown) = open_first-IsReplaced i input ep_addr es (slot which d) s in
      let moved = set_slot-active which o.0.1 d in
      let open_it : Io W (Bool × DriveContext) =
        open_first hs i input ep_addr es (slot which d) >>= λ (ok, ep).
        pure (ok, set_slot which ep d) in
      if_lem (λ r. IsAccounted n m r.0.1 r.1) (not i.session.active) (pure (false, d)) open_it s
        (λ _. (e, l)) (λ _. (omega (arith, e, l, replaced, grown, moved), omega (arith, l, grown)))

  closes-IsAccounted :
      (n m : ℕ) (which : Slot) (d : DriveContext) (s : State W)
      → IsAccounted n m d s
      → IsAccounted n m (close_slot hs which d s).0 (close_slot hs which d s).1
  unfolding close_slot
  closes-IsAccounted n m which d s (e, l) =
      let ep = slot which d in
      let ep' = (hs.ep_close ep s.world).0 in
      let close : Io W DriveContext =
        service (hs.ep_close ep) >>= λ ep'. pure (set_slot which ep' d) in
      if_lem (λ r. IsAccounted n m r.0 r.1) (not ep.active) (pure d) close s (λ _. (e, l))
        (λ on.
          let active : ep.active ≡ true = ground arith in
          let (o, same) = counts.closes ep s.world active in
          let shut : one_if_active ep' ≡ 0 = rw (law.closes ep s.world) refl in
          let was : one_if_active ep ≡ 1 = rw active refl in
          let moved = set_slot-active which ep' d in
          (omega (arith, e, l, o, same, shut, was, moved), omega (arith, l, same)))

  IsSame-IsAccounted :
      (n m : ℕ) (d : DriveContext) (s s' : State W)
      → IsSame hs usb opened lost counts s s'
      → IsAccounted n m d s
      → IsAccounted n m d s'
  IsSame-IsAccounted n m d s s' (o, same) (e, l) =
      (omega (arith, o, same, e), omega (arith, same, l))

  steps : (n m : ℕ) → Steps hs usb (IsAccounted n m)
  unfolding free
  steps n m = record {
    opens = opens-IsAccounted n m;
    closes = closes-IsAccounted n m;
    changes = λ i new d s h.
        IsSame-IsAccounted n m d s (change_interface_descriptor hs i new s).1
          (changes-IsSame hs usb opened lost counts i new s) h;
    asks = λ i d s h.
        IsSame-IsAccounted n m d s (get_configuration_descriptor usb i.session 0 s).1
          (asks-IsSame hs usb opened lost counts i s) h;
    frees = λ d s h. h;
  }

  active_sessions_lem :
      (ok : Bool) (i : Interface) (d : DriveContext)
      → IsSettled ok i d
      → active_sessions d ≡ sessions_in_use ok i
  active_sessions_lem ok i d h =
      let a = h.in_1_is in
      let b = h.out_1_is in
      let c = h.in_2_is in let e = h.out_2_is in rw (a, b, c, e) (ground arith)

  -- If none of the four endpoint sessions that a drive's context holds is active, then behind the
  -- setup of its interface as many sessions are open as before, plus those that the protocol of the
  -- interface in use works with if it succeeds, two for the Bulk-Only Transport and four for USB
  -- Attached SCSI, and none if it fails, plus those that were lost in the setup, since they were
  -- active when another one was opened in their place. libnx is asked for this: a call opens one
  -- session and makes it active, or fails, opens none, and leaves the session as it was or clears it;
  -- a close of an active session closes one and makes it inactive; no other call opens, closes or
  -- loses any.
  pub setup_interface_and_endpoint_descriptors-IsAccounted :
      (i : Interface) (d : DriveContext) (s : State W)
      → IsActive false false d
      → let r = setup_interface_and_endpoint_descriptors hs usb i d s in
        opened r.1.world + lost s.world
        ≡ opened s.world + sessions_in_use r.0.0 r.0.1 + lost r.1.world
  setup_interface_and_endpoint_descriptors-IsAccounted i d s closed =
      let r = setup_interface_and_endpoint_descriptors hs usb i d s in
      let settled = setup_interface_and_endpoint_descriptors-IsSettled hs law usb i d s closed in
      let none_yet : active_sessions d ≡ 0 = active_sessions_lem false i d closed in
      let (e, l) =
        setup_interface_and_endpoint_descriptors-Kept hs usb
          (IsAccounted (opened s.world) (lost s.world)) (steps (opened s.world) (lost s.world)) i d
          s (omega (arith, none_yet), omega arith) in
      let used = active_sessions_lem r.0.0 r.0.1 r.0.2 settled in omega (arith, e, used)
