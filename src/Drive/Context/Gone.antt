-- ===== src/Drive/Context/Gone.antt =====
-- What the destruction of a drive's context leaves.
use libusbhsfs.Base.{◌≡◌, refl, Bool, false, not, none, arith, if◌then◌else◌}
use libusbhsfs.Usb.{DriveContext, service, free}
use libusbhsfs.Mount.Monad.{MountState, io}
use libusbhsfs.Mount.Probe.{Probe, ◌>>=◌, pure, mnt}
use libusbhsfs.Drive.Endpoints.{close_slots}
use libusbhsfs.Drive.Endpoints.Opened.{IsHs, IsActive}
use libusbhsfs.Drive.Endpoints.Closed.{close_slots-IsActive}
use libusbhsfs.Drive.Units.Rules.{Then, Then-bind, Then-any, Then-if}
use libusbhsfs.Drive.Context.{Drive, Host, free_string, free_units, close_sessions, destroy_context}

-- No session that the context holds is active, and nothing that it holds is allocated.
pub record IsGone (drive : Drive) : Type 0 where
  pub endpoints : IsActive false false drive.context
  pub interface : drive.context.if_session.active ≡ false
  pub buffer : drive.context.has_xfer_buf ≡ false
  pub units : drive.lun_ctx ≡ none
  pub strings :
      (drive.manufacturer ≡ none) × (drive.product_name ≡ none) × (drive.serial_number ≡ none)

abbrev pub Gone : {W : Type 0} → Drive → MountState W → Type 0
Gone drive s = IsGone drive

module _ {W : Type 0} (h : Host W) (law : IsHs h.hs) where
  abbrev IsShut : DriveContext → MountState W → Type 0
  IsShut d s = IsActive false false d × (d.if_session.active ≡ false)

  close_sessions-IsShut : (d : DriveContext) (s : MountState W) → Then IsShut (close_sessions h d s)
  unfolding close_sessions
  close_sessions-IsShut d s =
      let r = close_slots h.hs d s.drive in
      let off = close_slots-IsActive h.hs law d s.drive in
      let close : Probe W DriveContext =
        mnt (io (service (h.hs.if_close r.0.if_session))) >>= λ ses.
        pure (record r.0 { if_session = ses }) in
      Then-if IsShut (not r.0.if_session.active) (pure r.0) close (record s { drive = r.1 })
        (λ e. (off, ground arith))
        (λ _. (
          record {
            in_1_is = off.in_1_is;
            out_1_is = off.out_1_is;
            in_2_is = off.in_2_is;
            out_2_is = off.out_2_is;
          },
          law.closes_interface r.0.if_session r.1.world,
        ))

  pub destroy_context-IsGone :
      (stop_lun : Bool) (drive : Drive) (s : MountState W)
      → Then Gone (destroy_context h stop_lun drive s)
  unfolding destroy_context
  destroy_context-IsGone stop_lun drive s =
      Then-bind (λ _ _. Unit) Gone (free_units h stop_lun drive) _ s (Then-any _)
        (λ _ s1 _.
          Then-bind (λ _ _. Unit) Gone (free_string h drive.manufacturer) _ s1 (Then-any _)
            (λ _ s2 _.
              Then-bind (λ _ _. Unit) Gone (free_string h drive.product_name) _ s2 (Then-any _)
                (λ _ s3 _.
                  Then-bind (λ _ _. Unit) Gone (free_string h drive.serial_number) _ s3 (Then-any _)
                    (λ _ s4 _.
                      Then-bind IsShut Gone (close_sessions h drive.context) _ s4
                        (close_sessions-IsShut drive.context s4)
                        (λ d s5 shut.
                          Then-bind (λ _ _. Unit) Gone
                            (if d.has_xfer_buf then mnt (io (free h.usb)) else pure tt) _ s5
                            (Then-any _)
                            (λ _ s6 _. record {
                              endpoints = record {
                                in_1_is = shut.0.in_1_is;
                                out_1_is = shut.0.out_1_is;
                                in_2_is = shut.0.in_2_is;
                                out_2_is = shut.0.out_2_is;
                              };
                              interface = shut.1;
                              buffer = refl;
                              units = refl;
                              strings = (refl, refl, refl);
                            }))))))
