-- ===== src/Scsi/Stage/Genuine.antt =====
-- Where the status wrapper of a transfer comes from.
use libusbhsfs.Base.{ℕ, ◌≡◌, ◌⊎◌, inl, inr, Bool, true, some, arith, Option-cases, ltb}
use libusbhsfs.Bytes.{Buf}
use libusbhsfs.Usb.{DriveContext, Usb, State}
use libusbhsfs.Scsi.Wire.{CommandBlockWrapper, CommandStatusWrapper, has_csw_signature}
use libusbhsfs.Scsi.Transfer.{
  Progress, close_progress, settle, take_unexpected_csw, ask_for_csw,
  receive_command_status_wrapper,
}
use libusbhsfs.Scsi.Stage.Rules.{data_round_rule, transfer_once_rule}
use libusbhsfs.Scsi.Stage.{
  Tail, advance, cut_short, data_round, status_stage, transfer_once, receives,
}

-- The signature is right, and the tag is the command's.
pub record IsGenuine (cbw : CommandBlockWrapper) (c : CommandStatusWrapper) : Type 0 where
  pub signature : has_csw_signature c ≡ true
  pub tag : c.tag ≡ cbw.tag

abbrev Backed : CommandBlockWrapper → Progress → Type 0
Backed cbw p = p.unexpected_csw ≡ true → IsGenuine cbw p.csw

settle-Backed :
    (cbw : CommandBlockWrapper) (receive : Bool) (rest_size : ℕ) (p : Progress)
    → Backed cbw p
    → Backed cbw (settle receive rest_size p).1
unfolding settle close_progress
settle-Backed cbw receive rest_size p h = ground arith

module _ {W : Type 0} (usb : Usb W) (d : DriveContext) (cbw : CommandBlockWrapper) where
  receive-IsGenuine :
      (s : State W) (c : CommandStatusWrapper)
      → (receive_command_status_wrapper usb d cbw s).0 ≡ some c
      → IsGenuine cbw c
  unfolding receive_command_status_wrapper
  receive-IsGenuine s c = ground arith

  take-Backed :
      (receive : Bool) (rest_size : ℕ) (p : Progress) (s : State W)
      → Backed cbw p
      → Backed cbw (take_unexpected_csw usb d cbw receive rest_size p s).0
  unfolding take_unexpected_csw
  take-Backed receive rest_size p s h = ground arith

  ask-Backed :
      (receive : Bool) (rest_size : ℕ) (p : Progress) (s : State W)
      → Backed cbw p
      → Backed cbw (ask_for_csw usb d cbw receive rest_size p s).0
  unfolding ask_for_csw
  ask-Backed receive rest_size p s h =
      elim (Option-cases (receive_command_status_wrapper usb d cbw s).0) [
        | inl e ↦ ground arith
        | inr (c, e) ↦ ground (arith, receive-IsGenuine s c e)
      ]

  cut_short-Backed :
      (rest_size : ℕ) (p : Progress) (s : State W)
      → Backed cbw p
      → Backed cbw (cut_short usb d cbw rest_size p s).0.1
  unfolding cut_short
  cut_short-Backed rest_size p s h =
      settle-Backed cbw (receives cbw) rest_size _
        (ask-Backed (receives cbw) rest_size _ _ (take-Backed (receives cbw) rest_size p s h))

  data_round-Backed :
      (p : Progress) (s : State W)
      → Backed cbw p
      → ltb p.data_transferred p.data_size ≡ true
      → Backed cbw (data_round usb d cbw p s).0.1
  unfolding advance
  data_round-Backed p s h more =
      data_round_rule usb d cbw (λ exit. Backed cbw) p s (λ x. h)
        (λ s1 s2. cut_short-Backed _ p s2 h)

  -- What a transfer reports before any sense data is asked for.
  abbrev IsBacked : Tail → Type 0
  IsBacked t = (t.ret ≡ true) ⊎ (t.progress.unexpected_csw ≡ true) → IsGenuine cbw t.progress.csw

  status_stage-IsBacked :
      (p : Progress) (s : State W) → Backed cbw p → IsBacked (status_stage usb d cbw p s).0
  unfolding status_stage
  status_stage-IsBacked p s h = elim (Option-cases (receive_command_status_wrapper usb d cbw s).0) [
    | inl e ↦ ground arith
    | inr (c, e) ↦ ground (arith, receive-IsGenuine s c e)
  ]

  -- If a transfer reports success, or a status wrapper that came early, then the wrapper it holds
  -- has the signature and carries this command's tag.
  pub transfer_once-IsGenuine :
      (buf : Buf) (s : State W)
      → ((transfer_once usb d cbw buf s).0.ret ≡ true)
        ⊎ ((transfer_once usb d cbw buf s).0.progress.unexpected_csw ≡ true)
      → IsGenuine cbw (transfer_once usb d cbw buf s).0.progress.csw
  transfer_once-IsGenuine buf s =
      transfer_once_rule usb d cbw (Backed cbw) IsBacked data_round-Backed status_stage-IsBacked
        (λ p ended h. ground arith) buf s (ground arith)
