-- ===== src/Scsi/Command.antt =====
-- source/usbhsfs_scsi.c: usbHsFsScsiTransferCommand() with its request for sense data and its
-- retries, and the usbHsFsScsiSend...Command() functions. The fuel bounds the nesting of calls of
-- usbHsFsScsiTransferCommand(), which has no bound in the code.
pub mod Rules
pub mod Outcome
pub mod Fuel
pub mod Endless
pub mod Served
use libusbhsfs.Base.{
  ℕ, zero, suc, Bool, true, false, not, ◌&&◌, ◌||◌, Option, none, some, List, ◌==◌, if◌then◌else◌,
}
use libusbhsfs.Bytes.{Buf}
use libusbhsfs.Usb.{DriveContext, Usb, set_medium_present, when}
use libusbhsfs.Cmd.{Cmd, ◌>>=◌, ◌>>◌, pure, out_of_fuel, lift}
use libusbhsfs.Scsi.Wire.{CommandBlockWrapper, sense_data_size}
use libusbhsfs.Scsi.Cdb.{request_sense_cb}
use libusbhsfs.Scsi.Transfer.{prepare_command_block_wrapper}
use libusbhsfs.Scsi.Stage.{
  Tail, answer, no_medium, retry, needs_sense, sense_verdict, transfer_once,
}

abbrev pub zero_buf : Buf
zero_buf = λ _. 0

-- A buffer argument: `none` is NULL.
abbrev pub contents : Option Buf → Buf
contents none = zero_buf
contents (some b) = b

abbrev pub is_null : Option Buf → Bool
is_null none = true
is_null (some _) = false

-- The same pointer, to memory that now holds `b`.
abbrev pub refill : Option Buf → Buf → Option Buf
refill none b = none
refill (some _) b = some b

-- The type of usbHsFsScsiTransferCommand(): what it returns, and the caller's buffer afterwards.
abbrev pub Transfer : Type 0 → Type 0
Transfer W = CommandBlockWrapper → Option Buf → Cmd W (Bool × Buf)

module _ {W : Type 0} (usb : Usb W) (d : DriveContext) where
  -- usbHsFsScsiSendRequestSenseCommand(), over the transfer that it calls.
  unfoldable pub send_request_sense : Transfer W → ℕ → Cmd W (Bool × Buf)
  unfolding prepare_command_block_wrapper request_sense_cb
  send_request_sense transfer lun = do
    cbw ← lift (
        prepare_command_block_wrapper usb d sense_data_size true lun 6
          (request_sense_cb sense_data_size))
    transfer cbw (some zero_buf)

  -- What follows the label `req_sense`, over the nested calls of the transfer.
  unfoldable pub act_on_sense :
      Transfer W → CommandBlockWrapper → Option Buf → Tail → Cmd W (Bool × Buf)
  unfolding send_request_sense sense_verdict
  act_on_sense transfer cbw buf t = do
    (ok, sense) ← send_request_sense transfer cbw.lun
    if not ok then pure (false, t.progress.buf) else elim (sense_verdict t sense) [
      | answer ret ↦ pure (ret, t.progress.buf)
      | no_medium ↦ (do lift (set_medium_present false); pure (false, t.progress.buf))
      | retry wait ↦ (do
        lift (when wait (λ s. (tt, record s { world = usb.sleep 1 s.world })))
        transfer cbw (refill buf t.progress.buf))
    ]

  -- usbHsFsScsiTransferCommand().
  unfoldable pub transfer_command : ℕ → Transfer W
  unfolding transfer_once needs_sense act_on_sense
  transfer_command zero cbw buf = out_of_fuel
  transfer_command (suc fuel) cbw buf =
      if not (cbw.data_transfer_length == 0) && is_null buf then pure (false, zero_buf) else do
        t ← lift (transfer_once usb d cbw (contents buf))
        if t.ended || not (needs_sense cbw t)
            then pure (t.ret, t.progress.buf)
            else act_on_sense (transfer_command fuel) cbw buf t

  -- A command: the wrapper is prepared, the block is filled in, and it is sent.
  unfoldable pub send_command : ℕ → ℕ → Bool → ℕ → ℕ → List ℕ → Option Buf → Cmd W (Bool × Buf)
  unfolding prepare_command_block_wrapper transfer_command
  send_command fuel data_size data_in lun cb_size cb buf = do
    cbw ← lift (prepare_command_block_wrapper usb d data_size data_in lun cb_size cb)
    transfer_command fuel cbw buf
