-- ===== src/Drive/Endpoints/Counts.antt =====
-- What is asked of libnx for counting endpoint sessions, and the calls of the setup that open and
-- close none.
use libusbhsfs.Base.{ℕ, ◌+◌, ◌*◌, ◌^◌, ◌-◌, ◌≡◌, ◌≤◌, true, false, arith, if◌then◌else◌}
use libusbhsfs.Bytes.{Buf}
use libusbhsfs.Usb.{EpSession, Setup, Usb, State, failed, free, alloc, ctrl_xfer}
use libusbhsfs.Request.{get_configuration_descriptor, get_full_configuration_descriptor}
use libusbhsfs.Packets.{total_length, config_descriptor_size, dt_config, descriptor_setup}
use libusbhsfs.Drive.Interface.{
  EndpointDescriptor, Interface, Hs, interface_number, alternate_setting,
  change_interface_descriptor, change_alternate_setting,
}

abbrev pub one_if_active : EpSession → ℕ
one_if_active ep = if ep.active then 1 else 0

-- What is asked of libnx: `opened` counts the endpoint sessions that are open, and `lost` the active
-- sessions that were handed to a call that opened another one in their place. No other call of the
-- setup changes these numbers.
pub record Counts {W : Type 0} (hs : Hs W) (usb : Usb W) (opened lost : W → ℕ) : Type 0 where
  pub opens :
      (i : Interface) (e : EndpointDescriptor) (ep : EpSession) (w : W)
      → let r = hs.if_open_usb_ep i e ep w in
        failed r.0.0 ≡ false → (opened r.1 ≡ opened w + 1) × (lost r.1 ≡ lost w + one_if_active ep)
  -- A call that fails opens none, and leaves the session as it was or clears it.
  pub refuses :
      (i : Interface) (e : EndpointDescriptor) (ep : EpSession) (w : W)
      → let r = hs.if_open_usb_ep i e ep w in
        failed r.0.0 ≡ true
        → (opened r.1 ≡ opened w)
          × (lost r.1 + one_if_active r.0.1 ≡ lost w + one_if_active ep)
          × (lost w ≤ lost r.1)
  pub closes :
      (ep : EpSession) (w : W)
      → ep.active ≡ true
      → (opened (hs.ep_close ep w).1 ≡ opened w - 1) × (lost (hs.ep_close ep w).1 ≡ lost w)
  pub sets :
      (n : ℕ) (i : Interface) (w : W)
      → (opened (hs.if_set_interface n i w).1 ≡ opened w)
        × (lost (hs.if_set_interface n i w).1 ≡ lost w)
  pub alternates :
      (n : ℕ) (i : Interface) (w : W)
      → (opened (hs.if_get_alternate_interface n i w).1 ≡ opened w)
        × (lost (hs.if_get_alternate_interface n i w).1 ≡ lost w)
  pub transfers :
      (setup : Setup) (w : W)
      → (opened (usb.if_ctrl_xfer setup w).1 ≡ opened w)
        × (lost (usb.if_ctrl_xfer setup w).1 ≡ lost w)
  pub allocates :
      (n : ℕ) (w : W)
      → (opened (usb.allocate n w).1 ≡ opened w) × (lost (usb.allocate n w).1 ≡ lost w)

module _ {W : Type 0} (hs : Hs W) (usb : Usb W) (opened lost : W → ℕ)
    (counts : Counts hs usb opened lost) where
  -- Nothing changes but other parts of the state.
  abbrev pub IsSame : State W → State W → Type 0
  IsSame s s' = (opened s'.world ≡ opened s.world) × (lost s'.world ≡ lost s.world)

  alternates-IsSame :
      (new cur : ℕ) (i : Interface) (s : State W)
      → IsSame s (change_alternate_setting hs new cur i s).1
  unfolding change_alternate_setting
  alternates-IsSame new cur i s =
      let (o, same) = counts.alternates new i s.world in (ground (arith, o), ground (arith, same))

  pub changes-IsSame :
      (i : Interface) (new : Buf) (s : State W)
      → IsSame s (change_interface_descriptor hs i new s).1
  unfolding change_interface_descriptor
  changes-IsSame i new s =
      let n = interface_number new in
      let set = (hs.if_set_interface n i s.world) in
      let s1 = record s { world = set.1 } in
      let (o, same) = counts.sets n i s.world in
      let (o', same') =
        alternates-IsSame (alternate_setting new) (alternate_setting i.descriptor) set.0.1 s1 in
      let (o'', same'') =
        alternates-IsSame (alternate_setting new) (alternate_setting i.descriptor) i s in
      (ground (arith, o, o', o''), ground (arith, same, same', same''))

  full-IsSame :
      (desc : ℕ) (config : Buf) (s : State W)
      → IsSame s (get_full_configuration_descriptor usb desc config s).1
  unfolding get_full_configuration_descriptor alloc free ctrl_xfer
  full-IsSame desc config s =
      let n = total_length config + 1 in
      let (o, same) = counts.allocates n s.world in
      let (o', same') =
        counts.transfers (descriptor_setup desc 0 (total_length config))
          (usb.allocate n s.world).1 in
      (ground (arith, o, o'), ground (arith, same, same'))

  pub asks-IsSame :
      (i : Interface) (s : State W) → IsSame s (get_configuration_descriptor usb i.session 0 s).1
  unfolding get_configuration_descriptor alloc free ctrl_xfer
  asks-IsSame i s =
      let n = config_descriptor_size in
      let a = alloc usb n s in
      let setup = descriptor_setup (dt_config * 2 ^ 8 + 0) 0 n in
      let r = ctrl_xfer usb setup a.1 in
      let (o, same) = counts.allocates n s.world in
      let (o', same') = counts.transfers setup a.1.world in
      let (o'', same'') = full-IsSame (dt_config * 2 ^ 8 + 0) r.0.reply r.1 in
      (ground (arith, o, o', o''), ground (arith, same, same', same''))
