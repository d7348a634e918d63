-- ===== src/Drive/Endpoints/Closed.antt =====
-- source/usbhsfs_drive.c: the end of usbHsFsDriveSetupEndpointDescriptors(), which closes what is active.
use libusbhsfs.Base.{◌≡◌, refl, ap, ◌∙◌, Bool, true, false, not, if◌then◌else◌}
use libusbhsfs.Usb.{DriveContext, EpSession, State, ◌>>=◌, pure, service}
use libusbhsfs.Drive.Interface.{Interface, Hs}
use libusbhsfs.Drive.Endpoints.{
  Slot, in_1, out_1, in_2, out_2, slot, set_slot, close_slot, close_slots, end_setup,
}
use libusbhsfs.Drive.Endpoints.Opened.{IsHs, IsActive, IsSettled}

module _ {W : Type 0} (hs : Hs W) (law : IsHs hs) where
  -- The session that close_slot leaves in its slot.
  closed : Slot → DriveContext → State W → EpSession
  closed which d s =
      if not (slot which d).active then slot which d else (hs.ep_close (slot which d) s.world).0

  closed-inactive :
      (which : Slot) (d : DriveContext) (s : State W) → (closed which d s).active ≡ false
  unfolding closed
  closed-inactive which d s = if_inactive (slot which d).active refl
    where
      if_inactive :
          (b : Bool)
          → (slot which d).active ≡ b
          → (if not b then slot which d else (hs.ep_close (slot which d) s.world).0).active ≡ false
      if_inactive true e = law.closes (slot which d) s.world
      if_inactive false e = e

  close_slot-sets :
      (which : Slot) (d : DriveContext) (s : State W)
      → (close_slot hs which d s).0 ≡ set_slot which (closed which d s) d
  unfolding close_slot closed
  close_slot-sets which d s = by_activity which (slot which d).active
    where
      by_activity :
          (which : Slot) (b : Bool)
          → ((if not b
                then pure d
                else (service (hs.ep_close (slot which d)) >>= λ ep. pure (set_slot which ep d)))
              s).0
            ≡ set_slot which
                (if not b then slot which d else (hs.ep_close (slot which d) s.world).0)
                d
      by_activity which true = refl
      by_activity in_1 false = refl
      by_activity in_2 false = refl
      by_activity out_1 false = refl
      by_activity out_2 false = refl

  pub close_slots-IsActive :
      (d : DriveContext) (s : State W) → IsActive false false (close_slots hs d s).0
  unfolding close_slots
  close_slots-IsActive d s =
      let r2 = close_slot hs out_2 d s in
      let r4 = close_slot hs in_2 r2.0 r2.1 in
      let r1 = close_slot hs out_1 r4.0 r4.1 in
      let set_2 = close_slot-sets out_2 d s in
      let set_4 = close_slot-sets in_2 r2.0 r2.1 in
      let set_1 = close_slot-sets out_1 r4.0 r4.1 in
      let set_3 = close_slot-sets in_1 r1.0 r1.1 in
      record {
        in_1_is = ap (λ d. d.in_ep_1.active) set_3 ∙ closed-inactive in_1 r1.0 r1.1;
        out_1_is =
            ap (λ d. d.out_ep_1.active)
              (set_3 ∙ ap (λ d. set_slot in_1 (closed in_1 r1.0 r1.1) d) set_1)
            ∙ closed-inactive out_1 r4.0 r4.1;
        in_2_is =
            ap (λ d. d.in_ep_2.active) set_3
            ∙ ap (λ d. d.in_ep_2.active) set_1
            ∙ ap (λ d. d.in_ep_2.active) set_4
            ∙ closed-inactive in_2 r2.0 r2.1;
        out_2_is =
            ap (λ d. d.out_ep_2.active) set_3
            ∙ ap (λ d. d.out_ep_2.active) set_1
            ∙ ap (λ d. d.out_ep_2.active) set_4
            ∙ ap (λ d. d.out_ep_2.active) set_2
            ∙ closed-inactive out_2 d s;
      }

  pub end_setup-IsSettled :
      (i : Interface) (ok : Bool) (d : DriveContext) (s : State W)
      → (ok ≡ true → IsSettled true i d)
      → IsSettled (end_setup hs ok d s).0.0 i (end_setup hs ok d s).0.1
  unfolding end_setup
  end_setup-IsSettled i true d s h = h refl
  end_setup-IsSettled i false d s h = close_slots-IsActive d s
