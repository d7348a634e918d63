-- ===== src/Scsi/Command/Served.antt =====
-- A command to a device that keeps to the protocol.
use libusbhsfs.Base.{ℕ, suc, ◌≡◌, ap, sym, subst, ◌∙◌, true, false, not, ◌||◌, some, arith}
use libusbhsfs.Bytes.{Buf, memcpy}
use libusbhsfs.Usb.{DriveContext, Usb, State}
use libusbhsfs.Scsi.Wire.{CommandBlockWrapper, CommandStatusWrapper, status_passed}
use libusbhsfs.Scsi.Stage.{Tail, receives, needs_sense, transfer_once}
use libusbhsfs.Scsi.Stage.Served.{IsSender, progress_at, transfer_once_served}
use libusbhsfs.Scsi.Command.{transfer_command}
use libusbhsfs.Scsi.Command.Rules.{transfer_command_plain}

abbrev served : CommandBlockWrapper → Buf → Buf → CommandStatusWrapper → Tail
served cbw bytes buf csw = record {
  ret = true;
  ended = false;
  progress = progress_at cbw bytes buf csw cbw.data_transfer_length;
}

served_plain :
    (cbw : CommandBlockWrapper) (bytes buf : Buf) (csw : CommandStatusWrapper)
    → csw.status ≡ status_passed
    → (false || not (needs_sense cbw (served cbw bytes buf csw))) ≡ true
unfolding needs_sense
served_plain cbw bytes buf csw e = ground (arith, e)

-- If the device takes the command, sends the bytes that were asked for in order, however many
-- transfers that takes, and then a status wrapper that says Passed, the command succeeds at the
-- first attempt, and the caller's buffer then begins with these bytes and is otherwise unchanged.
pub transfer_command_served :
    {W : Type 0} (usb : Usb W) (d : DriveContext) (cbw : CommandBlockWrapper) (bytes : Buf)
    (csw : CommandStatusWrapper) (Ready : State W → Type 0) (At : ℕ → State W → Type 0) (fuel : ℕ)
    (buf : Buf) (s : State W)
    → IsSender usb d cbw bytes csw Ready At
    → receives cbw ≡ true
    → csw.status ≡ status_passed
    → Ready s
    → transfer_command usb d (suc fuel) cbw (some buf) s
      ≡ some
          ((true, memcpy buf 0 bytes cbw.data_transfer_length), (transfer_once usb d cbw buf s).1)
transfer_command_served usb d cbw bytes csw Ready At fuel buf s sender read passed ready =
    let once = transfer_once_served usb d cbw bytes csw Ready At sender read buf s ready in
    transfer_command_plain usb d cbw fuel buf s (
      subst (λ t. (t.ended || not (needs_sense cbw t)) ≡ true) (sym once)
        (served_plain cbw bytes buf csw passed))
    ∙ ap (λ t. some ((t.ret, t.progress.buf), (transfer_once usb d cbw buf s).1)) once
