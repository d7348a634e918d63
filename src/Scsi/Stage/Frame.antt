-- ===== src/Scsi/Stage/Frame.antt =====
-- What a transfer writes to the caller's buffer.
use libusbhsfs.Base.{
  ℕ, ◌+◌, ◌-◌, ◌%◌, ◌^◌, ◌≤◌, ◌<◌, ◌≡◌, refl, inl, inr, Bool, true, false, not, ◌&&◌, ◌==◌,
  if◌then◌else◌, arith, ltb, Bool-cases, Option-cases,
}
use libusbhsfs.Bytes.{Buf, memcpy, memset}
use libusbhsfs.Usb.{DriveContext, Usb, State, ◌>>=◌}
use libusbhsfs.Request.Sizes.{ReportsAtMost, post_buffer-le}
use libusbhsfs.Scsi.Wire.{CommandBlockWrapper, CommandStatusWrapper, csw_size}
use libusbhsfs.Scsi.Transfer.{
  Progress, close_progress, settle, take_unexpected_csw, ask_for_csw,
  receive_command_status_wrapper,
}
use libusbhsfs.Scsi.Stage.{
  rest_of, round_size, advance, cut_short, data_round, status_stage, transfer_once, receives,
}
use libusbhsfs.Scsi.Stage.Rules.{posted, data_round_rule, transfer_once_rule}

-- `b` is the caller's buffer as it was. It changes only below `n`, and only if data is received.
pub record Within (n : ℕ) (receive : Bool) (b : Buf) (p : Progress) : Type 0 where
  pub size : p.data_size ≤ n
  pub moved : p.data_transferred ≤ p.data_size
  pub outside : (i : ℕ) → n ≤ i → p.buf i ≡ b i
  pub sent : receive ≡ false → p.buf ≡ b

round_size-le : (p : Progress) → round_size p ≤ rest_of p
unfolding round_size
round_size-le p = ground arith

memcpy_outside : (dst src : Buf) (off len i : ℕ) → off + len ≤ i → memcpy dst off src len i ≡ dst i
unfolding memcpy
memcpy_outside dst src off len i h = ground arith

memset_outside : (dst : Buf) (off v len i : ℕ) → off + len ≤ i → memset dst off v len i ≡ dst i
unfolding memset
memset_outside dst off v len i h = ground arith

-- The status wrapper does not matter.
restatus :
    (n : ℕ) (receive : Bool) (b : Buf) (p : Progress) (c : CommandStatusWrapper) (u : Bool)
    → Within n receive b p
    → Within n receive b (record p { csw = c; unexpected_csw = u })
restatus n receive b p c u v = record {
  size = v.size;
  moved = v.moved;
  outside = v.outside;
  sent = v.sent;
}

module _ (n : ℕ) (fits : n < 2 ^ 32) (b : Buf) where
  advance-Within :
      (receive : Bool) (x : Buf) (p : Progress)
      → Within n receive b p
      → Within n receive b (advance receive x p)
  unfolding advance
  advance-Within receive x p v = record {
    size = v.size;
    moved = omega (arith, round_size-le p, v.moved);
    outside = λ i h. ground (
      arith,
      round_size-le p,
      v.outside i h,
      v.size,
      v.moved,
      memcpy_outside p.buf x p.data_transferred (round_size p) i,
    );
    sent = λ e. ground (arith, v.sent e);
  }

  settle-Within :
      (receive : Bool) (r : ℕ) (p : Progress)
      → r ≤ rest_of p
      → Within n receive b p
      → Within n receive b (settle receive r p).1
  unfolding settle close_progress
  settle-Within receive r p h v = record {
    size = ground (arith, v.size, v.moved);
    moved = ground (arith, v.size, v.moved);
    outside = λ i k. ground (
      arith,
      v.outside i k,
      v.size,
      v.moved,
      memset_outside p.buf ((p.data_transferred + r) % 2 ^ 32) 0
          ((p.data_size + 2 ^ 32 - (p.data_transferred + r) % 2 ^ 32) % 2 ^ 32) i,
    );
    sent = λ e. ground (arith, v.sent e);
  }

  module _ {W : Type 0} (usb : Usb W) (d : DriveContext) (cbw : CommandBlockWrapper) where
    take-Within :
        (receive : Bool) (r : ℕ) (p : Progress) (s : State W)
        → r ≤ rest_of p
        → Within n receive b p
        → let q = (take_unexpected_csw usb d cbw receive r p s).0 in
          Within n receive b q × (r ≤ rest_of q)
    unfolding take_unexpected_csw
    take-Within receive r p s h v = elim (Bool-cases (receive && (r == csw_size))) [
      | inl e ↦
          rw e (record { size = v.size; moved = v.moved; outside = v.outside; sent = v.sent }, h)
      | inr e ↦ rw e (v, h)
    ]

    -- The data that did arrive is kept.
    kept-Within :
        (receive : Bool) (r : ℕ) (p : Progress) (x : Buf) (c : CommandStatusWrapper) (u : Bool)
        → r ≤ rest_of p
        → Within n receive b p
        → Within n receive b (record p {
          csw = c;
          unexpected_csw = u;
          buf = if receive && not (r == 0) then memcpy p.buf p.data_transferred x r else p.buf;
        })
    kept-Within receive r p x c u h v = record {
      size = v.size;
      moved = v.moved;
      outside = λ i k.
          ground
            (arith, v.outside i k, v.size, v.moved, memcpy_outside p.buf x p.data_transferred r i);
      sent = λ e. ground (arith, v.sent e);
    }

    ask-Within :
        (receive : Bool) (r : ℕ) (p : Progress) (s : State W)
        → r ≤ rest_of p
        → Within n receive b p
        → let q = (ask_for_csw usb d cbw receive r p s).0 in Within n receive b q × (r ≤ rest_of q)
    unfolding ask_for_csw
    ask-Within receive r p s h v = elim (Bool-cases p.unexpected_csw) [
      | inl e ↦ rw e (restatus n receive b p p.csw true v, h)
      | inr e ↦ rw e (elim (Option-cases (receive_command_status_wrapper usb d cbw s).0) [
        | inl c ↦ rw (c, ◌>>=◌) (kept-Within receive r p s.xfer_buf p.csw p.unexpected_csw h v, h)
        | inr (w, c) ↦ rw (c, ◌>>=◌) (kept-Within receive r p s.xfer_buf w true h v, h)
      ])
    ]

    cut_short-Within :
        (r : ℕ) (p : Progress) (s : State W)
        → r ≤ rest_of p
        → Within n (receives cbw) b p
        → Within n (receives cbw) b (cut_short usb d cbw r p s).0.1
    unfolding cut_short
    cut_short-Within r p s h v =
        let taken = take-Within (receives cbw) r p s h v in
        let asked = ask-Within (receives cbw) r _ _ taken.1 taken.0 in
        settle-Within (receives cbw) r _ asked.1 asked.0

    data_round-Within :
        ReportsAtMost usb
        → (p : Progress) (s : State W) → Within n (receives cbw) b p
        → ltb p.data_transferred p.data_size ≡ true
        → Within n (receives cbw) b (data_round usb d cbw p s).0.1
    data_round-Within ok p s v more =
        data_round_rule usb d cbw (λ exit. Within n (receives cbw) b) p s
          (λ x. advance-Within (receives cbw) x p v)
          (λ s1 s2.
            cut_short-Within (posted usb d cbw p s1).size p s2
              (post_buffer-le usb ok d.if_session _ (round_size p) (rest_of p) false s1
                (round_size-le p))
              v)

    status_stage-Within :
        (p : Progress) (s : State W)
        → Within n (receives cbw) b p
        → Within n (receives cbw) b (status_stage usb d cbw p s).0.progress
    unfolding status_stage
    status_stage-Within p s v = elim (Bool-cases p.unexpected_csw) [
      | inl e ↦ rw e (restatus n (receives cbw) b p p.csw true v)
      | inr e ↦ rw e (elim (Option-cases (receive_command_status_wrapper usb d cbw s).0) [
        | inl c ↦ rw (c, ◌>>=◌) v
        | inr (w, c) ↦ rw (c, ◌>>=◌) (restatus n (receives cbw) b p w p.unexpected_csw v)
      ])
    ]

-- A transfer writes no byte of the caller's buffer beyond the transfer length, and none at all if
-- it sends data.
pub transfer_once-Within :
    {W : Type 0} (usb : Usb W) (d : DriveContext) (cbw : CommandBlockWrapper) (buf : Buf)
    (s : State W)
    → ReportsAtMost usb
    → cbw.data_transfer_length < 2 ^ 32
    → Within cbw.data_transfer_length (receives cbw) buf (transfer_once usb d cbw buf s).0.progress
transfer_once-Within usb d cbw buf s ok fits =
    transfer_once_rule usb d cbw (Within cbw.data_transfer_length (receives cbw) buf)
      (λ t. Within cbw.data_transfer_length (receives cbw) buf t.progress)
      (data_round-Within cbw.data_transfer_length fits buf usb d cbw ok)
      (status_stage-Within cbw.data_transfer_length fits buf usb d cbw) (λ p ended v. v) buf s
      (record { size = omega arith; moved = omega arith; outside = λ i h. refl; sent = λ e. refl })
