-- ===== src/Scsi/Stage/Rules.antt =====
-- Rules for what a round, the data stage and a whole transfer make of the progress: a property of
-- it is kept if it is kept by a round, and by a round if it is kept by its two outcomes.
use libusbhsfs.Base.{
  ℕ, zero, suc, ◌≡◌, subst, refl, ◌⊎◌, inl, inr, Bool, true, false, not, ◌&&◌, Option, none, some,
  ◌==◌, ltb, Bool-cases, Option-cases, if◌then◌else◌,
}
use libusbhsfs.Bytes.{Buf, memcpy, shift}
use libusbhsfs.Usb.{failed, DriveContext, Usb, State, ◌>>=◌, when, set_xfer_buf}
use libusbhsfs.Packets.{Xfer}
use libusbhsfs.Request.{post_buffer}
use libusbhsfs.Scsi.Wire.{CommandBlockWrapper}
use libusbhsfs.Scsi.Transfer.{
  Progress, Exit, behind_loop, at_req_sense, at_end, send_command_block_wrapper,
}
use libusbhsfs.Scsi.Stage.{
  rest_of, round_size, receives, advance, cut_short, data_round, data_stage, start_progress,
  status_stage, Tail, transfer_once,
}

pub Exit-cases : (e : Exit) → (e ≡ behind_loop) ⊎ ((e ≡ at_req_sense) ⊎ (e ≡ at_end))
Exit-cases behind_loop = inl refl
Exit-cases at_req_sense = inr (inl refl)
Exit-cases at_end = inr (inr refl)

module _ {W : Type 0} (usb : Usb W) (d : DriveContext) (cbw : CommandBlockWrapper) where
  -- The transfer of a round, from the state `s`.
  abbrev pub posted : Progress → State W → Xfer
  posted p s =
      (post_buffer usb d.if_session (if receives cbw then d.in_ep_1 else d.out_ep_1) (round_size p)
        (rest_of p) false s).0

  abbrev pub filled : Progress → State W → State W
  filled p s =
      (when (not (receives cbw))
        (set_xfer_buf (memcpy s.xfer_buf 0 (shift p.data_transferred p.buf) (round_size p))) s).1

  pub data_round_rule {ℓ} :
      (P : Option Exit → Progress → Type ℓ) (p : Progress) (s : State W)
      → ((x : Buf) → P none (advance (receives cbw) x p))
      → ((s1 s2 : State W)
          → let r = (cut_short usb d cbw (posted p s1).size p s2).0 in P (some r.0) r.1)
      → P (data_round usb d cbw p s).0.0 (data_round usb d cbw p s).0.1
  unfolding data_round
  data_round_rule P p s whole short =
      elim (Bool-cases (
        not (failed (posted p (filled p s)).rc)
        && ((posted p (filled p s)).size == round_size p))) [
          | inl e ↦ rw e (
              whole
                (post_buffer usb d.if_session (if receives cbw then d.in_ep_1 else d.out_ep_1)
                  (round_size p) (rest_of p) false (filled p s)).1.xfer_buf)
          | inr e ↦ rw e (short _ _)
        ]

  -- The transfer of a round in a direction, and the state behind it.
  abbrev pub moved : Bool → Progress → State W → Xfer × State W
  moved receive p s =
      post_buffer usb d.if_session (if receive then d.in_ep_1 else d.out_ep_1) (round_size p)
        (rest_of p) false
        (when (not receive)
          (set_xfer_buf (memcpy s.xfer_buf 0 (shift p.data_transferred p.buf) (round_size p))) s).1

  abbrev is_whole : Bool → Progress → State W → Bool
  is_whole receive p s =
      not (failed (moved receive p s).0.rc) && ((moved receive p s).0.size == round_size p)

  whole_round :
      (p : Progress) (s : State W)
      → is_whole (receives cbw) p s ≡ true
      → data_round usb d cbw p s ≡ (
        (none, advance (receives cbw) (moved (receives cbw) p s).1.xfer_buf p),
        (moved (receives cbw) p s).1,
      )
  unfolding data_round
  whole_round p s e = rw e refl

  -- A round that moves a whole block.
  pub data_round_whole :
      (receive : Bool) (p : Progress) (s : State W)
      → receives cbw ≡ receive
      → (not (failed (moved receive p s).0.rc) && ((moved receive p s).0.size == round_size p))
        ≡ true
      → data_round usb d cbw p s
        ≡ ((none, advance receive (moved receive p s).1.xfer_buf p), (moved receive p s).1)
  data_round_whole receive p s e whole =
      subst
        (λ b.
          is_whole b p s ≡ true
          → data_round usb d cbw p s
            ≡ ((none, advance b (moved b p s).1.xfer_buf p), (moved b p s).1))
        e (whole_round p s) whole

  pub data_stage_rule {ℓ} :
      (P : Progress → Type ℓ)
      → ((p : Progress) (s : State W)
          → P p
          → ltb p.data_transferred p.data_size ≡ true
          → P (data_round usb d cbw p s).0.1)
      → (fuel : ℕ) (p : Progress) (s : State W) → P p
      → P (data_stage usb d fuel cbw p s).0.1
  unfolding data_stage
  data_stage_rule P step zero p s h = h
  data_stage_rule P step (suc fuel) p s h = elim (Bool-cases (ltb p.data_transferred p.data_size)) [
    | inr e ↦ rw e h
    | inl e ↦ rw e (elim (Option-cases (data_round usb d cbw p s).0.0) [
      | inl more ↦ rw (more, ◌>>=◌) (data_stage_rule P step fuel _ _ (step p s h e))
      | inr (exit, done) ↦ rw (done, ◌>>=◌) (step p s h e)
    ])
  ]

  pub transfer_once_rule {ℓ κ} :
      (Q : Progress → Type ℓ) (P : Tail → Type κ)
      → ((p : Progress) (s : State W)
          → Q p
          → ltb p.data_transferred p.data_size ≡ true
          → Q (data_round usb d cbw p s).0.1)
      → ((p : Progress) (s : State W) → Q p → P (status_stage usb d cbw p s).0)
      → ((p : Progress) (ended : Bool)
          → Q p
          → P (record { ret = false; ended = ended; progress = p }))
      → (buf : Buf) (s : State W) → Q (start_progress cbw buf)
      → P (transfer_once usb d cbw buf s).0
  unfolding transfer_once
  transfer_once_rule Q P step asked stopped buf s h =
      elim (Bool-cases (send_command_block_wrapper usb d cbw s).0) [
        | inr e ↦ rw (e, ◌>>=◌) (stopped _ true h)
        | inl e ↦
            rw (e, ◌>>=◌)
              (elim (Exit-cases
                (data_stage usb d cbw.data_transfer_length cbw (start_progress cbw buf)
                  (send_command_block_wrapper usb d cbw s).1).0.0) [
                    | inl at ↦ rw (at, ◌>>=◌) (asked _ _ stage)
                    | inr (inl at) ↦ rw (at, ◌>>=◌) (stopped _ false stage)
                    | inr (inr at) ↦ rw (at, ◌>>=◌) (stopped _ true stage)
                  ])
      ]
    where
      stage :
          Q
            (data_stage usb d cbw.data_transfer_length cbw
              (start_progress cbw buf)
              (send_command_block_wrapper usb d cbw s).1).0.1
      stage =
          data_stage_rule Q step cbw.data_transfer_length (start_progress cbw buf)
            (send_command_block_wrapper usb d cbw s).1 h

  abbrev pub staged : Buf → State W → (Exit × Progress) × State W
  staged buf s =
      data_stage usb d cbw.data_transfer_length cbw (start_progress cbw buf)
        (send_command_block_wrapper usb d cbw s).1

  -- If the loop ends behind itself, the status stage is the rest.
  pub transfer_once_behind_loop :
      (buf : Buf) (s : State W)
      → (send_command_block_wrapper usb d cbw s).0 ≡ true
      → (staged buf s).0.0 ≡ behind_loop
      → (transfer_once usb d cbw buf s).0
        ≡ (status_stage usb d cbw (staged buf s).0.1 (staged buf s).1).0
  unfolding transfer_once
  transfer_once_behind_loop buf s sent at = rw (sent, ◌>>=◌) (rw (at, ◌>>=◌) refl)
