-- ===== src/Scsi/Quiet.antt =====
-- Commands allocate nothing: the number of allocated blocks stays as it was.
pub mod Reads
use libusbhsfs.Base.{
  ℕ, zero, suc, ◌≡◌, refl, ◌∙◌, Bool, true, false, not, ◌&&◌, ◌||◌, inl, inr, Bool-cases,
  Option-cases, Option, none, some, ◌==◌, ltb, if◌then◌else◌, arith,
}
use libusbhsfs.Bytes.{Buf, store_list}
use libusbhsfs.Usb.{
  Result, failed, DriveContext, Usb, State, Io, IfSession, EpSession, when, set_xfer_buf, ◌>>=◌,
}
use libusbhsfs.Request.{
  post_buffer, clear_endpoint_halt_feature, mass_storage_reset, get_endpoint_status,
  endpoint_data_xfer, async_data_xfer, read_xfer_report, clear_stall, ep_submit_request,
}
use libusbhsfs.Request.Memory.{request_memory_lem}
use libusbhsfs.Packets.{Xfer}
use libusbhsfs.Scsi.Wire.{
  CommandBlockWrapper, cbw_size, cbw_bytes, csw_size, csw_of, has_csw_signature, status_phase_error,
}
use libusbhsfs.Scsi.Transfer.{
  Progress, Exit, clear_stall_status, reset_recovery, check_out_endpoint,
  send_command_block_wrapper, receive_command_status_wrapper, take_unexpected_csw, ask_for_csw,
}
use libusbhsfs.Scsi.Stage.{
  cut_short, data_round, data_stage, status_stage, Tail, transfer_once, start_progress, receives,
  rest_of, round_size,
}
use libusbhsfs.Scsi.Stage.Rules.{filled, Exit-cases}

module _ {W : Type 0} (usb : Usb W) (d : DriveContext) where
  reset_recovery-live : (s : State W) → (reset_recovery usb d s).1.live ≡ s.live
  unfolding reset_recovery
  reset_recovery-live s = ground arith

  endpoint_data_xfer-live :
      (ep : EpSession) (size mapped : ℕ) (s : State W)
      → (endpoint_data_xfer usb ep size mapped s).1.live ≡ s.live
  unfolding endpoint_data_xfer
  endpoint_data_xfer-live ep size mapped s = ground arith

  clear_stall-live :
      (ses : IfSession) (ep : EpSession) (s : State W) → (clear_stall usb ses ep s).1.live ≡ s.live
  unfolding clear_stall
  clear_stall-live ses ep s = ground arith

  module _ (ses : IfSession) (ep : EpSession) (size mapped : ℕ) (retry : Bool) (s : State W) where
    abbrev first : Xfer × State W
    first = endpoint_data_xfer usb ep size mapped s

    abbrev halted : Result × State W
    halted = clear_stall usb ses ep first.1

    post_buffer-live : (post_buffer usb ses ep size mapped retry s).1.live ≡ s.live
    unfolding post_buffer
    post_buffer-live = elim (Bool-cases (not ses.active || not ep.active || (size == 0))) [
      | inl e ↦ rw e refl
      | inr e ↦ elim (Bool-cases (not (failed first.0.rc))) [
        | inl f ↦ rw (e, f) (endpoint_data_xfer-live ep size mapped s)
        | inr f ↦ elim (Bool-cases (not (failed halted.0) && retry)) [
          | inl g ↦
              rw (e, f, g)
                (endpoint_data_xfer-live ep size first.0.size halted.1
                  ∙ clear_stall-live ses ep first.1
                  ∙ endpoint_data_xfer-live ep size mapped s)
          | inr g ↦
              rw (e, f, g)
                (clear_stall-live ses ep first.1 ∙ endpoint_data_xfer-live ep size mapped s)
        ]
      ]
    ]

  check_out_endpoint-live : (s : State W) → (check_out_endpoint usb d s).1.live ≡ s.live
  unfolding check_out_endpoint
  check_out_endpoint-live s = ground arith

  send_command_block_wrapper-live :
      (cbw : CommandBlockWrapper) (s : State W)
      → (send_command_block_wrapper usb d cbw s).1.live ≡ s.live
  unfolding send_command_block_wrapper
  send_command_block_wrapper-live cbw s =
      let s1 = record s { xfer_buf = store_list (cbw_bytes cbw) s.xfer_buf } in
      let r = endpoint_data_xfer usb d.out_ep_1 cbw_size 0 s1 in
      elim (Bool-cases (not (failed r.0.rc) && (r.0.size == cbw_size))) [
        | inl e ↦ rw e (endpoint_data_xfer-live d.out_ep_1 cbw_size 0 s1)
        | inr e ↦
            rw e (check_out_endpoint-live r.1 ∙ endpoint_data_xfer-live d.out_ep_1 cbw_size 0 s1)
      ]

  when-live : (b : Bool) (s : State W) → (when b (reset_recovery usb d) s).1.live ≡ s.live
  when-live true s = reset_recovery-live s
  when-live false s = refl

  module _ (cbw : CommandBlockWrapper) where
    receive_command_status_wrapper-live :
        (s : State W) → (receive_command_status_wrapper usb d cbw s).1.live ≡ s.live
    unfolding receive_command_status_wrapper
    receive_command_status_wrapper-live s =
        let r = post_buffer usb d.if_session d.in_ep_1 csw_size 0 true s in
        let csw = csw_of r.1.xfer_buf in
        let posted = post_buffer-live d.if_session d.in_ep_1 csw_size 0 true s in
        elim (Bool-cases (failed r.0.rc)) [
          | inl e ↦ rw e posted
          | inr e ↦
              elim (Bool-cases (
                not (r.0.size == csw_size)
                || not (has_csw_signature csw)
                || not (csw.tag == cbw.tag))) [
                  | inl f ↦ rw (e, f) (reset_recovery-live r.1 ∙ posted)
                  | inr f ↦ rw (e, f) (when-live (csw.status == status_phase_error) r.1 ∙ posted)
                ]
        ]

    take_unexpected_csw-live :
        (receive : Bool) (rest : ℕ) (p : Progress) (s : State W)
        → (take_unexpected_csw usb d cbw receive rest p s).1.live ≡ s.live
    unfolding take_unexpected_csw
    take_unexpected_csw-live receive rest p s =
        elim (Bool-cases (not (receive && (rest == csw_size)))) [
          | inl e ↦ rw e refl
          | inr e ↦ rw e (
              when-live
                (has_csw_signature (csw_of s.xfer_buf)
                  && ((csw_of s.xfer_buf).tag == cbw.tag)
                  && ((csw_of s.xfer_buf).status == status_phase_error))
                s)
        ]

    ask_for_csw-live :
        (receive : Bool) (rest : ℕ) (p : Progress) (s : State W)
        → (ask_for_csw usb d cbw receive rest p s).1.live ≡ s.live
    unfolding ask_for_csw
    ask_for_csw-live receive rest p s = elim (Bool-cases p.unexpected_csw) [
      | inl e ↦ rw e refl
      | inr e ↦ rw e (receive_command_status_wrapper-live s)
    ]

    cut_short-live :
        (rest : ℕ) (p : Progress) (s : State W) → (cut_short usb d cbw rest p s).1.live ≡ s.live
    unfolding cut_short
    cut_short-live rest p s =
        let taken = take_unexpected_csw usb d cbw (receives cbw) rest p s in
        ask_for_csw-live (receives cbw) rest taken.0 taken.1
        ∙ take_unexpected_csw-live (receives cbw) rest p s

    filled-live : (b : Bool) (x : Buf) (s : State W) → (when b (set_xfer_buf x) s).1.live ≡ s.live
    filled-live true x s = refl
    filled-live false x s = refl

    data_round-live : (p : Progress) (s : State W) → (data_round usb d cbw p s).1.live ≡ s.live
    unfolding data_round
    data_round-live p s =
        let s1 = filled usb d cbw p s in
        let ep = if receives cbw then d.in_ep_1 else d.out_ep_1 in
        let r = post_buffer usb d.if_session ep (round_size p) (rest_of p) false s1 in
        let moved =
          post_buffer-live d.if_session ep (round_size p) (rest_of p) false s1
          ∙ filled-live (not (receives cbw)) _ s in
        elim (Bool-cases (not (failed r.0.rc) && (r.0.size == round_size p))) [
          | inl e ↦ rw e moved
          | inr e ↦ rw e (cut_short-live r.0.size p r.1 ∙ moved)
        ]

    data_stage-live :
        (rounds : ℕ) (p : Progress) (s : State W)
        → (data_stage usb d rounds cbw p s).1.live ≡ s.live
    unfolding data_stage
    data_stage-live zero p s = refl
    data_stage-live (suc rounds) p s =
        let r = data_round usb d cbw p s in
        elim (Bool-cases (not (ltb p.data_transferred p.data_size))) [
          | inl e ↦ rw e refl
          | inr e ↦ elim (Option-cases r.0.0) [
            | inl f ↦ rw e (rw (f, ◌>>=◌) (data_stage-live rounds r.0.1 r.1 ∙ data_round-live p s))
            | inr (x, f) ↦ rw e (rw (f, ◌>>=◌) (data_round-live p s))
          ]
        ]

    status_stage-live : (p : Progress) (s : State W) → (status_stage usb d cbw p s).1.live ≡ s.live
    unfolding status_stage
    status_stage-live p s = elim (Bool-cases p.unexpected_csw) [
      | inl e ↦ rw e refl
      | inr e ↦ rw e (receive_command_status_wrapper-live s)
    ]

    pub transfer_once-live :
        (buf : Buf) (s : State W) → (transfer_once usb d cbw buf s).1.live ≡ s.live
    unfolding transfer_once
    transfer_once-live buf s =
        let sent = send_command_block_wrapper usb d cbw s in
        let first = send_command_block_wrapper-live cbw s in
        let n = cbw.data_transfer_length in
        let r = data_stage usb d n cbw (start_progress cbw buf) sent.1 in
        let staged = data_stage-live n (start_progress cbw buf) sent.1 ∙ first in
        elim (Bool-cases (not sent.0)) [
          | inl e ↦ rw e first
          | inr e ↦ elim (Exit-cases r.0.0) [
            | inl f ↦ rw e (rw (f, ◌>>=◌) (status_stage-live r.0.1 r.1 ∙ staged))
            | inr (inl f) ↦ rw e (rw (f, ◌>>=◌) staged)
            | inr (inr f) ↦ rw e (rw (f, ◌>>=◌) staged)
          ]
        ]
