-- ===== src/Scsi/Quiet/Reads.antt =====
-- Commands, and reads of blocks over several commands, allocate nothing.
use libusbhsfs.Base.{
  ℕ, zero, suc, ◌≡◌, refl, ◌∙◌, Bool, true, false, not, ◌&&◌, ◌||◌, inl, inr, Bool-cases, Option,
  some, ◌==◌, List,
}
use libusbhsfs.Bytes.{Buf, shift}
use libusbhsfs.Usb.{DriveContext, Usb, State}
use libusbhsfs.Cmd.Rules.{After, After-bind, After-if}
use libusbhsfs.Scsi.Wire.{CommandBlockWrapper}
use libusbhsfs.Scsi.Transfer.{prepare_command_block_wrapper}
use libusbhsfs.Scsi.Stage.{transfer_once, needs_sense, sense_verdict, Tail}
use libusbhsfs.Scsi.Command.{
  contents, is_null, refill, zero_buf, send_request_sense, act_on_sense, transfer_command,
  send_command, Transfer,
}
use libusbhsfs.Scsi.Command.Rules.{Verdict-cases}
use libusbhsfs.Scsi.Send.{send_read_10, send_read_16}
use libusbhsfs.Scsi.Lun.{LogicalUnitContext}
use libusbhsfs.Scsi.Blocks.{
  Span, blocks_loop, xfer_block_count, read_command, read_logical_unit_blocks,
  max_block_count_per_loop, start_span,
}
use libusbhsfs.Scsi.Quiet.{transfer_once-live}

-- `n` blocks are allocated.
abbrev pub Live : {W A : Type 0} → ℕ → A → State W → Type 0
Live n a s = s.live ≡ n

module _ {W : Type 0} (usb : Usb W) (d : DriveContext) (n : ℕ) where
  prepare-live :
      (data_size : ℕ) (data_in : Bool) (lun cb_size : ℕ) (cb : List ℕ) (s : State W)
      → (prepare_command_block_wrapper usb d data_size data_in lun cb_size cb s).1.live ≡ s.live
  unfolding prepare_command_block_wrapper
  prepare-live data_size data_in lun cb_size cb s = refl

  -- What is known of a transfer for any wrapper and buffer.
  abbrev IsLive : Transfer W → Type 0
  IsLive transfer =
      (cbw : CommandBlockWrapper) (buf : Option Buf) (s : State W)
      → s.live ≡ n
      → After (Live n) (transfer cbw buf s)

  send_request_sense-Live :
      (transfer : Transfer W) (lun : ℕ) (s : State W)
      → IsLive transfer
      → s.live ≡ n
      → After (Live n) (send_request_sense usb d transfer lun s)
  unfolding send_request_sense
  send_request_sense-Live transfer lun s h e = h _ (some zero_buf) _ e

  act_on_sense-Live :
      (transfer : Transfer W) (cbw : CommandBlockWrapper) (buf : Option Buf) (t : Tail)
      (s : State W)
      → IsLive transfer
      → s.live ≡ n
      → After (Live n) (act_on_sense usb d transfer cbw buf t s)
  unfolding act_on_sense
  act_on_sense-Live transfer cbw buf t s h e =
      After-bind (Live n) (Live n) (send_request_sense usb d transfer cbw.lun) _ s
        (send_request_sense-Live transfer cbw.lun s h e)
        (λ sense s2 e2. elim (Bool-cases (not sense.0)) [
          | inl f ↦ rw f e2
          | inr f ↦ rw f (elim (Verdict-cases (sense_verdict t sense.1)) [
            | inl (r, v) ↦ rw v e2
            | inr (inl v) ↦ rw v e2
            | inr (inr (true, v)) ↦ rw v (h cbw (refill buf t.progress.buf) _ e2)
            | inr (inr (false, v)) ↦ rw v (h cbw (refill buf t.progress.buf) _ e2)
          ])
        ])

  transfer_command-Live : (fuel : ℕ) → IsLive (transfer_command usb d fuel)
  unfolding transfer_command
  transfer_command-Live zero cbw buf s e = tt
  transfer_command-Live (suc fuel) cbw buf s e =
      let t = transfer_once usb d cbw (contents buf) s in
      let e1 = transfer_once-live usb d cbw (contents buf) s ∙ e in
      After-if (Live n) (not (cbw.data_transfer_length == 0) && is_null buf) _ _ s (λ _. e)
        (λ _.
          After-if (Live n) (t.0.ended || not (needs_sense cbw t.0)) _ _ t.1 (λ _. e1)
            (λ _.
              act_on_sense-Live (transfer_command usb d fuel) cbw buf t.0 t.1
                (transfer_command-Live fuel) e1))

  module _ (fuel : ℕ) (l : LogicalUnitContext) where
    read_command-Live :
        (addr count : ℕ) (buf : Buf) (s : State W)
        → s.live ≡ n
        → After (Live n) (read_command usb d fuel l addr count buf s)
    unfolding read_command send_read_10 send_read_16 send_command
    read_command-Live addr count buf s e = elim (Bool-cases l.long_lba) [
      | inl f ↦ rw f (transfer_command-Live fuel _ (some buf) _ e)
      | inr f ↦ rw f (transfer_command-Live fuel _ (some buf) _ e)
    ]

    blocks_loop-Live :
        (max len rounds : ℕ) (v : Span) (s : State W)
        → s.live ≡ n
        → After (Live n) (blocks_loop (read_command usb d fuel l) max len rounds v s)
    unfolding blocks_loop
    blocks_loop-Live max len zero v s e = e
    blocks_loop-Live max len (suc rounds) v s e = elim (Bool-cases (v.block_count == 0)) [
      | inl f ↦ rw f e
      | inr f ↦ rw f (
          After-bind (Live n) (Live n)
            (read_command usb d fuel l v.cur_block_addr (xfer_block_count max v)
              (shift v.data_transferred v.buf))
            _ s
            (read_command-Live v.cur_block_addr (xfer_block_count max v)
              (shift v.data_transferred v.buf) s e)
            (λ r s2 e2. elim (Bool-cases (not r.0)) [
              | inl g ↦ rw g e2
              | inr g ↦ rw g (blocks_loop-Live max len rounds _ s2 e2)
            ]))
    ]

-- A read of blocks leaves the number of allocated blocks as it was.
pub read_logical_unit_blocks-Live :
    {W : Type 0} (usb : Usb W) (d : DriveContext) (fuel : ℕ) (l : LogicalUnitContext) (buf : Buf)
    (addr count : ℕ) (s : State W)
    → After (Live s.live) (read_logical_unit_blocks usb d fuel l buf addr count s)
unfolding read_logical_unit_blocks
read_logical_unit_blocks-Live usb d fuel l buf addr count s =
    blocks_loop-Live usb d s.live fuel l (max_block_count_per_loop l.long_lba l.block_length)
      l.block_length count (start_span buf addr count) s refl
