-- ===== src/Scsi/Stage.antt =====
-- source/usbhsfs_scsi.c: the data stage of usbHsFsScsiTransferCommand() and the status stage behind
-- it. A round of the loop moves at least one byte or ends it, so as many rounds as there are bytes
-- are enough.
pub mod Rules
pub mod Frame
pub mod Complete
pub mod Genuine
pub mod Served
use libusbhsfs.Base.{
  ℕ, zero, suc, ◌+◌, ◌-◌, Bool, true, false, not, ◌&&◌, ◌||◌, Option, none, some, ◌==◌, ltb, leb,
  if◌then◌else◌, get_or,
}
use libusbhsfs.Bytes.{Buf, memcpy, shift}
use libusbhsfs.Usb.{
  failed, DriveContext, Usb, Io, ◌>>=◌, ◌>>◌, pure, when, get_xfer_buf, set_xfer_buf,
}
use libusbhsfs.Packets.{endpoint_in}
use libusbhsfs.Request.{post_buffer}
use libusbhsfs.Scsi.Wire.{
  CommandBlockWrapper, zero_csw, status_passed, status_phase_error, operation_code, request_sense,
  sense_key, additional_sense_code, asc_medium_not_present,
}
use libusbhsfs.Scsi.Transfer.{
  xfer_buf_size, Progress, Exit, behind_loop, at_req_sense, at_end, settle,
  send_command_block_wrapper, receive_command_status_wrapper, take_unexpected_csw, ask_for_csw,
}

-- What is known at the label `req_sense`, or at `end` if `ended`.
pub record Tail : Type 0 where
  pub ret : Bool
  pub ended : Bool
  pub progress : Progress

-- `rest_size` and `xfer_size` at the start of a round.
abbrev pub rest_of : Progress → ℕ
rest_of p = p.data_size - p.data_transferred

unfoldable pub round_size : Progress → ℕ
round_size p = if ltb xfer_buf_size (rest_of p) then xfer_buf_size else rest_of p

abbrev pub start_progress : CommandBlockWrapper → Buf → Progress
start_progress cbw buf = record {
  data_size = cbw.data_transfer_length;
  data_transferred = 0;
  csw = zero_csw;
  unexpected_csw = false;
  buf = buf;
}

-- A whole block arrived or left.
unfoldable pub advance : Bool → Buf → Progress → Progress
unfolding memcpy round_size
advance receive xfer_buf p = record p {
  data_transferred = p.data_transferred + round_size p;
  buf = if receive then memcpy p.buf p.data_transferred xfer_buf (round_size p) else p.buf;
}

abbrev pub receives : CommandBlockWrapper → Bool
receives cbw = cbw.flags == endpoint_in

-- `(ret && csw.bCSWStatus != Passed) || unexpected_csw`, unless the command is Request Sense.
unfoldable pub needs_sense : CommandBlockWrapper → Tail → Bool
needs_sense cbw t =
    ((t.ret && not (t.progress.csw.status == status_passed)) || t.progress.unexpected_csw)
    && not (get_or cbw.cb 0 0 == operation_code request_sense)

-- What the sense data asks for: an answer, an answer with the medium marked as absent, or another
-- try, after a second's sleep if `wait`.
pub data Verdict : Type 0 where
  answer : Bool → Verdict
  no_medium : Verdict
  retry : Bool → Verdict

-- An unexpected status wrapper counts as success if it is no phase error and all data was moved.
abbrev pub was_complete : Tail → Bool
was_complete t =
    t.progress.unexpected_csw
    && ltb t.progress.csw.status status_phase_error
    && leb t.progress.data_size t.progress.data_transferred

unfoldable pub sense_verdict : Tail → Buf → Verdict
unfolding sense_key additional_sense_code
sense_verdict t sense =
    let key = sense_key sense in
    if (key == 0) || (key == 1) || (key == 6) || (key == 15)
    then answer (t.ret || was_complete t)
    else if key == 2
    then (if additional_sense_code sense == asc_medium_not_present then no_medium else retry true)
    else if key == 11
    then retry false
    else answer false

module _ {W : Type 0} (usb : Usb W) (d : DriveContext) where
  -- A round that did not move a whole block.
  unfoldable pub cut_short : CommandBlockWrapper → ℕ → Progress → Io W (Exit × Progress)
  unfolding take_unexpected_csw ask_for_csw settle
  cut_short cbw rest_size p = do
    p ← take_unexpected_csw usb d cbw (receives cbw) rest_size p
    p ← ask_for_csw usb d cbw (receives cbw) rest_size p
    pure (settle (receives cbw) rest_size p)

  -- A round of the loop: `none` if the loop goes on.
  unfoldable pub data_round : CommandBlockWrapper → Progress → Io W (Option Exit × Progress)
  unfolding memcpy shift round_size post_buffer advance cut_short
  data_round cbw p = do
    before ← get_xfer_buf
    when (not (receives cbw))
        (set_xfer_buf (memcpy before 0 (shift p.data_transferred p.buf) (round_size p)))
    r ←
        post_buffer usb d.if_session (if receives cbw then d.in_ep_1 else d.out_ep_1) (round_size p)
          (rest_of p) false
    xfer_buf ← get_xfer_buf
    if not (failed r.rc) && (r.size == round_size p)
        then pure (none, advance (receives cbw) xfer_buf p)
        else do (exit, p) ← cut_short cbw r.size p; pure (some exit, p)

  unfoldable pub data_stage : ℕ → CommandBlockWrapper → Progress → Io W (Exit × Progress)
  data_stage zero cbw p = pure (behind_loop, p)
  data_stage (suc fuel) cbw p =
      if not (ltb p.data_transferred p.data_size) then pure (behind_loop, p) else do
        (exit, p) ← data_round cbw p
        elim exit [ none ↦ data_stage fuel cbw p | some e ↦ pure (e, p) ]

  -- The status wrapper is asked for unless it came already.
  unfoldable pub status_stage : CommandBlockWrapper → Progress → Io W Tail
  unfolding receive_command_status_wrapper
  status_stage cbw p =
      if p.unexpected_csw then pure (record { ret = false; ended = false; progress = p }) else do
        csw ← receive_command_status_wrapper usb d cbw
        pure (elim csw [
          | none ↦ record { ret = false; ended = false; progress = p }
          | some c ↦ record { ret = true; ended = false; progress = record p { csw = c } }
        ])

  -- usbHsFsScsiTransferCommand() up to the label `req_sense`.
  unfoldable pub transfer_once : CommandBlockWrapper → Buf → Io W Tail
  unfolding send_command_block_wrapper data_stage status_stage
  transfer_once cbw buf = do
    sent ← send_command_block_wrapper usb d cbw
    if not sent
        then pure (record { ret = false; ended = true; progress = start_progress cbw buf })
        else do
          (exit, p) ← data_stage cbw.data_transfer_length cbw (start_progress cbw buf)
          elim exit [
            | behind_loop ↦ status_stage cbw p
            | at_req_sense ↦ pure (record { ret = false; ended = false; progress = p })
            | at_end ↦ pure (record { ret = false; ended = true; progress = p })
          ]
