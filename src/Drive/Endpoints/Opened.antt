-- ===== src/Drive/Endpoints/Opened.antt =====
-- source/usbhsfs_drive.c: which endpoint sessions are active, and what usbHsFsDriveGetEndpointSession()
-- leaves of them.
use libusbhsfs.Base.{
  ℕ, ◌≡◌, refl, sym, subst, Bool, true, false, not, ◌&&◌, List, [], ◌∷◌, arith, ◌==◌, if◌then◌else◌,
  take,
}
use libusbhsfs.Usb.{DriveContext, EpSession, IfSession, State, failed, Io, ◌>>=◌, pure}
use libusbhsfs.Drive.Interface.{
  EndpointDescriptor, Interface, Hs, interface_protocol, usb_attached_scsi,
}
use libusbhsfs.Drive.Endpoints.{
  Slot, slot, set_slot, all_active, is_wanted, open_first, get_endpoint_session,
}

-- What is asked of the calls on endpoint sessions: one that was opened is active, one that was
-- closed is not, and so of the interface session.
pub record IsHs {W : Type 0} (hs : Hs W) : Type 0 where
  pub opens :
      (i : Interface) (e : EndpointDescriptor) (ep : EpSession) (w : W)
      → failed (hs.if_open_usb_ep i e ep w).0.0 ≡ false
      → (hs.if_open_usb_ep i e ep w).0.1.active ≡ true
  pub closes_interface : (ses : IfSession) (w : W) → (hs.if_close ses w).0.active ≡ false
  pub closes : (ep : EpSession) (w : W) → (hs.ep_close ep w).0.active ≡ false

-- Whether the first two endpoint sessions are active, and whether the other two are.
pub record IsActive (first second : Bool) (d : DriveContext) : Type 0 where
  pub in_1_is : d.in_ep_1.active ≡ first
  pub out_1_is : d.out_ep_1.active ≡ first
  pub in_2_is : d.in_ep_2.active ≡ second
  pub out_2_is : d.out_ep_2.active ≡ second

-- No session is active if the setup failed; if it succeeded, those are that the protocol of the
-- interface works with, all four for USB Attached SCSI.
abbrev pub IsSettled : Bool → Interface → DriveContext → Type 0
IsSettled ok i d = IsActive ok (ok && (interface_protocol i.descriptor == usb_attached_scsi)) d

-- The session in a slot was replaced, and it is active if that succeeded.
pub record IsFilled (which : Slot) (d : DriveContext) (r : Bool × DriveContext) : Type 0 where
  pub ep : EpSession
  pub is_set : r.1 ≡ set_slot which ep d
  pub is_active : r.0 ≡ true → ep.active ≡ true

pub all_active-IsActive : (d : DriveContext) → all_active d ≡ true → IsActive true true d
all_active-IsActive d all = record {
  in_1_is = ground arith;
  out_1_is = ground arith;
  in_2_is = ground arith;
  out_2_is = ground arith;
}

-- A test decides which call is made.
pub if_lem :
    {W A : Type 0} (P : A × State W → Type 0) (b : Bool) (m n : Io W A) (s : State W)
    → (b ≡ true → P (m s))
    → (b ≡ false → P (n s))
    → P ((if b then m else n) s)
if_lem P true m n s h k = h refl
if_lem P false m n s h k = k refl

module _ {W : Type 0} (hs : Hs W) (law : IsHs hs) where
  open_first-active :
      (i : Interface) (input : Bool) (ep_addr : ℕ) (es : List EndpointDescriptor) (ep : EpSession)
      (s : State W)
      → (open_first hs i input ep_addr es ep s).0.0 ≡ true
      → (open_first hs i input ep_addr es ep s).0.1.active ≡ true
  unfolding open_first
  open_first-active i input ep_addr [] ep s found = ground arith
  open_first-active i input ep_addr (e ∷ es) ep s found =
      if_lem (λ r. r.0.0 ≡ true → r.0.1.active ≡ true) (not (is_wanted input ep_addr e))
        (open_first hs i input ep_addr es ep)
        (λ t.
          let o = hs.if_open_usb_ep i e ep t.world in
          ((not (failed o.0.0), o.0.1), record t { world = o.1 }))
        s (λ _. open_first-active i input ep_addr es ep s)
        (λ _ got. law.opens i e ep s.world (ground arith)) found

  pub get_endpoint_session-IsFilled :
      (i : Interface) (which : Slot) (input : Bool) (ep_addr : ℕ) (d : DriveContext) (s : State W)
      → i.session.active ≡ true
      → IsFilled which d (get_endpoint_session hs i which input ep_addr d s).0
  unfolding get_endpoint_session
  get_endpoint_session-IsFilled i which input ep_addr d s active =
      let es = take 15 (if input then i.inputs else i.outputs) in
      subst
        (λ b.
          IsFilled which d
            ((if not b
                then pure (false, d)
                else (open_first hs i input ep_addr es (slot which d) >>= λ (ok, ep).
                    pure (ok, set_slot which ep d)))
              s).0)
        (sym active)
        (record {
          ep = (open_first hs i input ep_addr es (slot which d) s).0.1;
          is_set = refl;
          is_active = open_first-active i input ep_addr es (slot which d) s;
        })
