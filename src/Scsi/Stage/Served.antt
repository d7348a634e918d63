-- ===== src/Scsi/Stage/Served.antt =====
-- A command that reads from a device that keeps to the protocol.
use libusbhsfs.Base.{
  ℕ, zero, suc, ◌+◌, ◌-◌, ◌≤◌, ◌<◌, ◌≡◌, refl, ap, ◌∙◌, fun_ext, subst, inl, inr, true, false, not,
  ◌&&◌, none, some, arith, ◌==◌, ltb, ltb→lt, Bool-cases, if◌then◌else◌,
}
use libusbhsfs.Bytes.{Buf, memcpy}
use libusbhsfs.Usb.{failed, DriveContext, Usb, State, ◌>>=◌}
use libusbhsfs.Request.{post_buffer}
use libusbhsfs.Scsi.Wire.{CommandBlockWrapper, CommandStatusWrapper, zero_csw}
use libusbhsfs.Scsi.Transfer.{
  xfer_buf_size, Progress, behind_loop, send_command_block_wrapper, receive_command_status_wrapper,
}
use libusbhsfs.Scsi.Stage.Rules.{data_round_whole, transfer_once_behind_loop}
use libusbhsfs.Scsi.Stage.{
  receives, round_size, advance, start_progress, data_round, data_stage, status_stage,
  transfer_once,
}

-- The size of the transfer behind `k` of `len` bytes.
abbrev pub chunk_at : ℕ → ℕ → ℕ
chunk_at len k = if ltb xfer_buf_size (len - k) then xfer_buf_size else len - k

-- From a state in `Ready` the device takes the command. `At k` holds once it has sent `k` bytes of
-- `bytes`; then the next transfer brings the next bytes, and behind the last one comes the status
-- wrapper `csw`.
pub record IsSender {W : Type 0} (usb : Usb W) (d : DriveContext) (cbw : CommandBlockWrapper)
    (bytes : Buf) (csw : CommandStatusWrapper) (Ready : State W → Type 0)
    (At : ℕ → State W → Type 0) : Type 0 where
  pub taken :
      (s : State W)
      → Ready s
      → ((send_command_block_wrapper usb d cbw s).0 ≡ true)
        × At 0 (send_command_block_wrapper usb d cbw s).1
  pub arrives :
      (k : ℕ) (s : State W)
      → At k s
      → k < cbw.data_transfer_length
      → let n = chunk_at cbw.data_transfer_length k in
        let r = post_buffer usb d.if_session d.in_ep_1 n (cbw.data_transfer_length - k) false s in
        (failed r.0.rc ≡ false)
        × (r.0.size ≡ n)
        × ((i : ℕ) → i < n → r.1.xfer_buf i ≡ bytes (k + i))
        × At (k + n) r.1
  pub ends :
      (s : State W)
      → At cbw.data_transfer_length s
      → (receive_command_status_wrapper usb d cbw s).0 ≡ some csw

-- The variables behind `k` bytes.
abbrev pub progress_at : CommandBlockWrapper → Buf → Buf → CommandStatusWrapper → ℕ → Progress
progress_at cbw bytes buf csw k = record {
  data_size = cbw.data_transfer_length;
  data_transferred = k;
  csw = csw;
  unexpected_csw = false;
  buf = memcpy buf 0 bytes k;
}

memcpy_next :
    (buf bytes x : Buf) (k n : ℕ)
    → ((i : ℕ) → i < n → x i ≡ bytes (k + i))
    → memcpy (memcpy buf 0 bytes k) k x n ≡ memcpy buf 0 bytes (k + n)
unfolding memcpy
memcpy_next buf bytes x k n h = fun_ext λ i.
    let same : k ≤ i → i < k + n → x (i - k) ≡ bytes i =
      λ a b. h (i - k) (omega arith) ∙ ap bytes (omega arith) in
    ground (arith, same)

module _ {W : Type 0} (usb : Usb W) (d : DriveContext) (cbw : CommandBlockWrapper) (bytes : Buf)
    (csw : CommandStatusWrapper) (Ready : State W → Type 0) (At : ℕ → State W → Type 0)
    (sender : IsSender usb d cbw bytes csw Ready At) (read : receives cbw ≡ true) (buf : Buf) where
  abbrev posted_state : ℕ → State W → State W
  posted_state k s =
      (post_buffer usb d.if_session d.in_ep_1 (chunk_at cbw.data_transfer_length k)
        (cbw.data_transfer_length - k) false s).1

  advance_at :
      (k : ℕ) (x : Buf)
      → ((i : ℕ) → i < chunk_at cbw.data_transfer_length k → x i ≡ bytes (k + i))
      → advance true x (progress_at cbw bytes buf zero_csw k)
        ≡ progress_at cbw bytes buf zero_csw (k + chunk_at cbw.data_transfer_length k)
  unfolding advance round_size
  advance_at k x h = λ i. record {
    data_size = cbw.data_transfer_length;
    data_transferred = k + chunk_at cbw.data_transfer_length k;
    csw = zero_csw;
    unexpected_csw = false;
    buf = memcpy_next buf bytes x k (chunk_at cbw.data_transfer_length k) h i;
  }

  round_at :
      (k : ℕ) (s : State W)
      → At k s
      → k < cbw.data_transfer_length
      → data_round usb d cbw (progress_at cbw bytes buf zero_csw k) s ≡ (
        (none, progress_at cbw bytes buf zero_csw (k + chunk_at cbw.data_transfer_length k)),
        posted_state k s,
      )
  unfolding round_size
  round_at k s at more =
      let n = chunk_at cbw.data_transfer_length k in
      let (ok, size, same, next) = sender.arrives k s at more in
      let whole : (not (
              failed
                (post_buffer usb d.if_session d.in_ep_1 n (cbw.data_transfer_length - k) false
                  s).0.rc)
            && ((post_buffer usb d.if_session d.in_ep_1 n (cbw.data_transfer_length - k) false
                  s).0.size
                == n))
          ≡ true =
        ground (arith, ok, size) in
      data_round_whole usb d cbw true (progress_at cbw bytes buf zero_csw k) s read whole
      ∙ (λ i. ((none, advance_at k (posted_state k s).xfer_buf same i), posted_state k s))

  stage_at :
      (fuel k : ℕ) (s : State W)
      → cbw.data_transfer_length - k ≤ fuel
      → k ≤ cbw.data_transfer_length
      → At k s
      → (s' : State W) × At cbw.data_transfer_length s'
        × (data_stage usb d fuel cbw (progress_at cbw bytes buf zero_csw k) s
            ≡ ((behind_loop, progress_at cbw bytes buf zero_csw cbw.data_transfer_length), s'))
  unfolding data_stage
  stage_at zero k s enough below at =
      let same : k ≡ cbw.data_transfer_length = omega arith in
      (
        s,
        subst (λ m. At m s) same at,
        λ i. ((behind_loop, progress_at cbw bytes buf zero_csw (same i)), s),
      )
  stage_at (suc fuel) k s enough below at = elim (Bool-cases (ltb k cbw.data_transfer_length)) [
    | inl more ↦
        let n = chunk_at cbw.data_transfer_length k in
        let (ok, size, same, next) = sender.arrives k s at (ltb→lt k _ more) in
        let round = round_at k s at (ltb→lt k _ more) in
        rw (more, round, ◌>>=◌, ap (λ x. x.0.1) round)
          (stage_at fuel (k + n) (posted_state k s) (ground (arith, more)) (ground (arith, more))
            next)
    | inr over ↦
        let same : k ≡ cbw.data_transfer_length = ground (arith, over) in
        (
          s,
          subst (λ m. At m s) same at,
          rw over (λ i. ((behind_loop, progress_at cbw bytes buf zero_csw (same i)), s)),
        )
  ]

  status_at :
      (s : State W)
      → At cbw.data_transfer_length s
      → (status_stage usb d cbw (progress_at cbw bytes buf zero_csw cbw.data_transfer_length) s).0
        ≡ record {
          ret = true;
          ended = false;
          progress = progress_at cbw bytes buf csw cbw.data_transfer_length;
        }
  unfolding status_stage
  status_at s at = rw (sender.ends s at) refl

  start_at : start_progress cbw buf ≡ progress_at cbw bytes buf zero_csw 0
  unfolding memcpy
  start_at = λ i. record {
    data_size = cbw.data_transfer_length;
    data_transferred = 0;
    csw = zero_csw;
    unexpected_csw = false;
    buf = nothing i;
  }
    where
      nothing : buf ≡ memcpy buf 0 bytes 0
      nothing = fun_ext λ j. ground arith

  from_start :
      (s : State W)
      → At 0 s
      → (s' : State W) × At cbw.data_transfer_length s'
        × (data_stage usb d cbw.data_transfer_length cbw (start_progress cbw buf) s
            ≡ ((behind_loop, progress_at cbw bytes buf zero_csw cbw.data_transfer_length), s'))
  from_start s at =
      rw start_at (stage_at cbw.data_transfer_length 0 s (omega arith) (omega arith) at)

  -- One transfer brings all the bytes and the status wrapper.
  pub transfer_once_served :
      (s : State W)
      → Ready s
      → (transfer_once usb d cbw buf s).0 ≡ record {
        ret = true;
        ended = false;
        progress = progress_at cbw bytes buf csw cbw.data_transfer_length;
      }
  transfer_once_served s ready =
      let (sent, at) = sender.taken s ready in
      let (s', at', stage) = from_start (send_command_block_wrapper usb d cbw s).1 at in
      transfer_once_behind_loop usb d cbw buf s sent (ap (λ x. x.0.0) stage)
      ∙ ap (λ x. (status_stage usb d cbw x.0.1 x.1).0) stage
      ∙ status_at s' at'
