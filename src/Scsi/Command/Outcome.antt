-- ===== src/Scsi/Command/Outcome.antt =====
-- What usbHsFsScsiTransferCommand() returns, retries and Request Sense included.
use libusbhsfs.Base.{
  ℕ, ◌^◌, ◌≤◌, ◌<◌, ◌≡◌, refl, ◌∙◌, ◌⊎◌, inl, inr, Bool, true, false, ◌||◌, some, arith,
}
use libusbhsfs.Bytes.{Buf}
use libusbhsfs.Usb.{DriveContext, Usb, State}
use libusbhsfs.Cmd.Rules.{After-some}
use libusbhsfs.Request.Sizes.{ReportsAtMost}
use libusbhsfs.Scsi.Wire.{CommandBlockWrapper}
use libusbhsfs.Scsi.Stage.{Tail, receives, was_complete}
use libusbhsfs.Scsi.Stage.Genuine.{IsGenuine, transfer_once-IsGenuine}
use libusbhsfs.Scsi.Stage.Frame.{transfer_once-Within}
use libusbhsfs.Scsi.Stage.Complete.{transfer_once_complete}
use libusbhsfs.Scsi.Command.{transfer_command}
use libusbhsfs.Scsi.Command.Rules.{attempt, Step, transfer_command_rule}

-- There was an attempt whose buffer is `b`, with a status wrapper of its own, which moved all the
-- data or which the code counts as complete.
pub record Completed {W : Type 0} (usb : Usb W) (d : DriveContext) (cbw : CommandBlockWrapper)
    (b : Buf) : Type 0 where
  pub from : Buf
  pub at : State W
  pub buf : b ≡ (attempt usb d cbw from at).progress.buf
  pub genuine : IsGenuine cbw (attempt usb d cbw from at).progress.csw
  pub moved :
      ((attempt usb d cbw from at).progress.data_transferred ≡ cbw.data_transfer_length)
      ⊎ (was_complete (attempt usb d cbw from at) ≡ true)

-- `b` is `before` but for the bytes that a command may receive.
pub record Confined (cbw : CommandBlockWrapper) (before b : Buf) : Type 0 where
  pub outside : (i : ℕ) → cbw.data_transfer_length ≤ i → b i ≡ before i
  pub sent : receives cbw ≡ false → b ≡ before

or_cases : (a b : Bool) → (a || b) ≡ true → (a ≡ true) ⊎ (b ≡ true)
or_cases true b h = inl refl
or_cases false b h = inr h

was_complete_unexpected : (t : Tail) → was_complete t ≡ true → t.progress.unexpected_csw ≡ true
was_complete_unexpected t h = ground arith

module _ {W : Type 0} (usb : Usb W) (d : DriveContext) (cbw : CommandBlockWrapper) where
  Completed-ret :
      (b : Buf) (s : State W)
      → (attempt usb d cbw b s).ret ≡ true
      → Completed usb d cbw (attempt usb d cbw b s).progress.buf
  Completed-ret b s h = record {
    from = b;
    at = s;
    buf = refl;
    genuine = transfer_once-IsGenuine usb d cbw b s (inl h);
    moved = inl (transfer_once_complete usb d cbw b s h);
  }

  Completed-counted :
      (b : Buf) (s : State W)
      → was_complete (attempt usb d cbw b s) ≡ true
      → Completed usb d cbw (attempt usb d cbw b s).progress.buf
  Completed-counted b s h = record {
    from = b;
    at = s;
    buf = refl;
    genuine =
        transfer_once-IsGenuine usb d cbw b s
          (inr (was_complete_unexpected (attempt usb d cbw b s) h));
    moved = inr h;
  }

  Completed-step : Step usb d cbw (λ b r. r.0 ≡ true → Completed usb d cbw r.1)
  Completed-step = record {
    plain = Completed-ret;
    counted = λ b s h. elim (or_cases _ _ h) [
      | inl e ↦ Completed-ret b s e
      | inr e ↦ Completed-counted b s e
    ];
    failed = λ b s h. absurd (cc);
    again = λ b s r h. h;
  }

  module _ (ok : ReportsAtMost usb) (small : cbw.data_transfer_length < 2 ^ 32) where
    Confined-attempt : (b : Buf) (s : State W) → Confined cbw b (attempt usb d cbw b s).progress.buf
    Confined-attempt b s =
        let within = transfer_once-Within usb d cbw b s ok small in
        record { outside = within.outside; sent = within.sent }

    Confined-step : Step usb d cbw (λ b r. Confined cbw b r.1)
    Confined-step = record {
      plain = Confined-attempt;
      counted = Confined-attempt;
      failed = Confined-attempt;
      again = λ b s r h.
          let first = Confined-attempt b s in
          record {
            outside = λ i k. h.outside i k ∙ first.outside i k;
            sent = λ e. h.sent e ∙ first.sent e;
          };
    }

-- If a command succeeds, whatever the device did and however often it was tried, the buffer that
-- it leaves is that of an attempt with a status wrapper with the right signature and tag, which
-- moved all bytes or which the code counts as complete.
pub transfer_command-Completed :
    {W : Type 0} (usb : Usb W) (d : DriveContext) (cbw : CommandBlockWrapper) (fuel : ℕ) (buf : Buf)
    (s : State W) (r : (Bool × Buf) × State W)
    → transfer_command usb d fuel cbw (some buf) s ≡ some r
    → r.0.0 ≡ true
    → Completed usb d cbw r.0.1
transfer_command-Completed usb d cbw fuel buf s r e =
    After-some (λ r _. r.0 ≡ true → Completed usb d cbw r.1) _ r
      (transfer_command_rule usb d cbw _ (Completed-step usb d cbw) fuel buf s) e

-- If the usb service reports no more bytes than were posted, a command changes no byte of its
-- buffer beyond its transfer length, and none at all if it sends data, however often it is tried
-- and whether it succeeds or not.
pub transfer_command-Confined :
    {W : Type 0} (usb : Usb W) (d : DriveContext) (cbw : CommandBlockWrapper) (fuel : ℕ) (buf : Buf)
    (s : State W) (r : (Bool × Buf) × State W)
    → ReportsAtMost usb
    → cbw.data_transfer_length < 2 ^ 32
    → transfer_command usb d fuel cbw (some buf) s ≡ some r
    → Confined cbw buf r.0.1
transfer_command-Confined usb d cbw fuel buf s r ok small e =
    After-some (λ r _. Confined cbw buf r.1) _ r
      (transfer_command_rule usb d cbw _ (Confined-step usb d cbw ok small) fuel buf s) e
