-- ===== src/Scsi/Stage/Complete.antt =====
-- How many bytes a transfer moves, and where its loop ends.
use libusbhsfs.Base.{
  ℕ, zero, suc, ◌≤◌, ◌<◌, ◌≡◌, refl, ap, ◌∙◌, inl, inr, Bool, true, false, Option, none, some,
  arith, ltb, Bool-cases, Option-cases,
}
use libusbhsfs.Bytes.{Buf}
use libusbhsfs.Usb.{DriveContext, Usb, State, ◌>>=◌}
use libusbhsfs.Scsi.Wire.{CommandBlockWrapper}
use libusbhsfs.Scsi.Transfer.{
  Progress, Exit, behind_loop, settle, close_progress, take_unexpected_csw, ask_for_csw,
  receive_command_status_wrapper, send_command_block_wrapper,
}
use libusbhsfs.Scsi.Stage.{
  start_progress, rest_of, round_size, advance, cut_short, data_round, data_stage, status_stage,
  transfer_once, receives,
}
use libusbhsfs.Scsi.Stage.Rules.{posted, data_round_rule, Exit-cases, staged}

clash : {b : Bool} → b ≡ true → b ≡ false → ⊥
clash p q = cc

exit_of_some : {a b : Exit} → some a ≡ some b → a ≡ b
exit_of_some e = cc

-- Where a round leaves the loop: it goes on nearer to the end, or it holds a status wrapper if it
-- leaves behind the loop.
pub record Leaves (n : ℕ) (p : Progress) (exit : Option Exit) (q : Progress) : Type 0 where
  pub goes_on :
      exit ≡ none → (q.data_size ≡ n) × (q.data_transferred ≤ q.data_size) × (rest_of q < rest_of p)
  pub stops : exit ≡ some behind_loop → q.unexpected_csw ≡ true

-- The loop ends behind itself with all `n` bytes moved, or with a status wrapper.
abbrev Ends : ℕ → Exit → Progress → Type 0
Ends n exit q = exit ≡ behind_loop → q.unexpected_csw ≡ false → q.data_transferred ≡ n

advance-Leaves :
    (n : ℕ) (receive : Bool) (x : Buf) (p : Progress)
    → p.data_size ≡ n
    → ltb p.data_transferred p.data_size ≡ true
    → Leaves n p none (advance receive x p)
unfolding advance round_size
advance-Leaves n receive x p e more = record { goes_on = λ h. ground arith; stops = λ h. cc }

settle_stops :
    (receive : Bool) (r : ℕ) (p : Progress)
    → (settle receive r p).0 ≡ behind_loop
    → (settle receive r p).1.unexpected_csw ≡ true
unfolding settle close_progress
settle_stops receive r p h = ground arith

module _ {W : Type 0} (usb : Usb W) (d : DriveContext) (cbw : CommandBlockWrapper) where
  cut_short_stops :
      (r : ℕ) (p : Progress) (s : State W)
      → (cut_short usb d cbw r p s).0.0 ≡ behind_loop
      → (cut_short usb d cbw r p s).0.1.unexpected_csw ≡ true
  unfolding cut_short
  cut_short_stops r p s h =
      let taken = take_unexpected_csw usb d cbw (receives cbw) r p s in
      settle_stops (receives cbw) r (ask_for_csw usb d cbw (receives cbw) r taken.0 taken.1).0 h

  data_round-Leaves :
      (n : ℕ) (p : Progress) (s : State W)
      → p.data_size ≡ n
      → ltb p.data_transferred p.data_size ≡ true
      → Leaves n p (data_round usb d cbw p s).0.0 (data_round usb d cbw p s).0.1
  data_round-Leaves n p s e more =
      data_round_rule usb d cbw (Leaves n p) p s (λ x. advance-Leaves n (receives cbw) x p e more)
        (λ s1 s2. record {
          goes_on = λ h. cc;
          stops = λ h. cut_short_stops (posted usb d cbw p s1).size p s2 (exit_of_some h);
        })

  data_stage-Ends :
      (n fuel : ℕ) (p : Progress) (s : State W)
      → rest_of p ≤ fuel
      → p.data_transferred ≤ p.data_size
      → p.data_size ≡ n
      → Ends n (data_stage usb d fuel cbw p s).0.0 (data_stage usb d fuel cbw p s).0.1
  unfolding data_stage
  data_stage-Ends n zero p s enough moved e = λ a b. omega arith
  data_stage-Ends n (suc fuel) p s enough moved e =
      elim (Bool-cases (ltb p.data_transferred p.data_size)) [
        | inr done ↦ rw done (λ a b. ground arith)
        | inl more ↦ rw more (elim (Option-cases (data_round usb d cbw p s).0.0) [
          | inl next ↦
              rw (next, ◌>>=◌)
                (let on = (data_round-Leaves n p s e more).goes_on next in
                  data_stage-Ends n fuel _ _ (omega (arith, on.2)) on.1 on.0)
          | inr (exit, at) ↦
              rw (at, ◌>>=◌)
                (λ a b. absurd (clash ((data_round-Leaves n p s e more).stops (at ∙ ap some a)) b))
        ])
      ]

  status_stage-Done :
      (n : ℕ) (p : Progress) (s : State W)
      → (p.unexpected_csw ≡ false → p.data_transferred ≡ n)
      → (status_stage usb d cbw p s).0.ret ≡ true
      → (status_stage usb d cbw p s).0.progress.data_transferred ≡ n
  unfolding status_stage
  status_stage-Done n p s h e = elim (Bool-cases p.unexpected_csw) [
    | inl u ↦ ground arith
    | inr u ↦ elim (Option-cases (receive_command_status_wrapper usb d cbw s).0) [
      | inl c ↦ ground arith
      | inr (w, c) ↦ ground (arith, h u)
    ]
  ]

  -- If a transfer reports success, all bytes of the command's transfer length were moved.
  pub transfer_once_complete :
      (buf : Buf) (s : State W)
      → (transfer_once usb d cbw buf s).0.ret ≡ true
      → (transfer_once usb d cbw buf s).0.progress.data_transferred ≡ cbw.data_transfer_length
  unfolding transfer_once
  transfer_once_complete buf s = elim (Bool-cases (send_command_block_wrapper usb d cbw s).0) [
    | inr e ↦ rw (e, ◌>>=◌) (λ r. absurd (clash r refl))
    | inl e ↦
        rw (e, ◌>>=◌)
          (elim (Exit-cases (staged usb d cbw buf s).0.0) [
            | inl at ↦
                rw (at, ◌>>=◌)
                  (status_stage-Done cbw.data_transfer_length (staged usb d cbw buf s).0.1
                    (staged usb d cbw buf s).1
                    (data_stage-Ends cbw.data_transfer_length cbw.data_transfer_length
                      (start_progress cbw buf) (send_command_block_wrapper usb d cbw s).1
                      (omega arith) (omega arith) refl at))
            | inr (inl at) ↦ rw (at, ◌>>=◌) (λ r. absurd (clash r refl))
            | inr (inr at) ↦ rw (at, ◌>>=◌) (λ r. absurd (clash r refl))
          ])
  ]
