-- ===== src/Scsi/Command/Fuel.antt =====
-- How much fuel usbHsFsScsiTransferCommand() takes.
use libusbhsfs.Base.{
  ℕ, zero, suc, ◌+◌, ◌-◌, ◌≤◌, ◌≡◌, refl, inl, inr, Bool, true, false, not, ◌&&◌, ◌||◌, Option,
  some, arith, ◌==◌, get_or, Bool-cases, subst, if◌then◌else◌,
}
use libusbhsfs.Bytes.{Buf}
use libusbhsfs.Usb.{DriveContext, Usb, State}
use libusbhsfs.Cmd.Rules.{
  Extends, Extends-bind, Extends-some, Extends-if, Returns, Returns-bind, Returns-if,
}
use libusbhsfs.Scsi.Wire.{CommandBlockWrapper, sense_key, operation_code, request_sense}
use libusbhsfs.Scsi.Stage.{
  Tail, Verdict, answer, no_medium, retry, was_complete, sense_verdict, needs_sense, transfer_once,
}
use libusbhsfs.Scsi.Cdb.{request_sense_cb}
use libusbhsfs.Scsi.Command.{
  zero_buf, Transfer, contents, is_null, act_on_sense, send_request_sense, transfer_command,
}
use libusbhsfs.Scsi.Command.Rules.{Verdict-cases}

abbrev IsFinal : Verdict → Type 0
IsFinal (answer r) = Unit
IsFinal no_medium = Unit
IsFinal (retry wait) = ⊥

IsFinal-if : (b : Bool) (v w : Verdict) → IsFinal v → IsFinal w → IsFinal (if b then v else w)
IsFinal-if true v w p q = p
IsFinal-if false v w p q = q

sense_verdict-IsFinal :
    (t : Tail) (sense : Buf)
    → (sense_key sense == 2) ≡ false
    → (sense_key sense == 11) ≡ false
    → IsFinal (sense_verdict t sense)
unfolding sense_verdict
sense_verdict-IsFinal t sense two eleven =
    let key = sense_key sense in
    rw (two, eleven)
      (IsFinal-if ((key == 0) || (key == 1) || (key == 6) || (key == 15))
        (answer (t.ret || was_complete t)) (answer false) tt tt)

module _ {W : Type 0} (usb : Usb W) (d : DriveContext) where
  act_more :
      (T T' : Transfer W)
      → ((cbw : CommandBlockWrapper) (b : Option Buf) (s : State W)
          → Extends (T cbw b s) (T' cbw b s))
      → (cbw : CommandBlockWrapper) (b : Option Buf) (t : Tail) (s : State W)
      → Extends (act_on_sense usb d T cbw b t s) (act_on_sense usb d T' cbw b t s)
  unfolding act_on_sense send_request_sense
  act_more T T' h cbw b t s =
      Extends-bind (send_request_sense usb d T cbw.lun) (send_request_sense usb d T' cbw.lun) _ _ s
        (h _ _ _)
        (λ sense s2. elim (Bool-cases sense.0) [
          | inr e ↦ rw e refl
          | inl e ↦ rw e (elim (Verdict-cases (sense_verdict t sense.1)) [
            | inl (r, v) ↦ rw v refl
            | inr (inl v) ↦ rw v refl
            | inr (inr (wait, v)) ↦ rw v (h _ _ _)
          ])
        ])

  more :
      (fuel : ℕ) (cbw : CommandBlockWrapper) (b : Option Buf) (s : State W)
      → Extends (transfer_command usb d fuel cbw b s) (transfer_command usb d (suc fuel) cbw b s)
  unfolding transfer_command
  more zero cbw b s = tt
  more (suc fuel) cbw b s =
      Extends-if (not (cbw.data_transfer_length == 0) && is_null b) _ _ _ _ s refl (
        Extends-if
          ((transfer_once usb d cbw (contents b) s).0.ended
            || not (needs_sense cbw (transfer_once usb d cbw (contents b) s).0))
          _ _ _ _ _ refl
          (act_more (transfer_command usb d fuel) (transfer_command usb d (suc fuel)) (more fuel)
            cbw b (transfer_once usb d cbw (contents b) s).0 _))

  -- The sense data never asks for another try.
  pub record NoRetry : Type 0 where
    pub not_asked :
        (lun : ℕ) (s : State W) (r : (Bool × Buf) × State W)
        → send_request_sense usb d (transfer_command usb d 1) lun s ≡ some r
        → ((sense_key r.0.1 == 2) ≡ false) × ((sense_key r.0.1 == 11) ≡ false)

  sense-Returns :
      (cbw : CommandBlockWrapper) (b : Buf) (s : State W)
      → get_or cbw.cb 0 0 ≡ operation_code request_sense
      → Returns (transfer_command usb d 1 cbw (some b) s)
  unfolding transfer_command needs_sense
  sense-Returns cbw b s e =
      Returns-if (not (cbw.data_transfer_length == 0) && is_null (some b)) _ _ s (_, refl)
        (λ _.
          Returns-if
            ((transfer_once usb d cbw b s).0.ended
              || not (needs_sense cbw (transfer_once usb d cbw b s).0))
            _ _ _ (_, refl) (λ h. absurd (ground (arith, e, h))))

  act-Returns :
      NoRetry
      → (cbw : CommandBlockWrapper) (b : Option Buf) (t : Tail) (s : State W)
      → Returns (act_on_sense usb d (transfer_command usb d 1) cbw b t s)
  unfolding act_on_sense send_request_sense request_sense_cb
  act-Returns calm cbw b t s =
      Returns-bind (send_request_sense usb d (transfer_command usb d 1) cbw.lun) _ s
        (sense-Returns _ zero_buf _ refl)
        (λ r e.
          let keys = calm.not_asked cbw.lun s r e in
          elim (Bool-cases r.0.0) [
            | inr ok ↦ rw ok (_, refl)
            | inl ok ↦ rw ok (elim (Verdict-cases (sense_verdict t r.0.1)) [
              | inl (a, v) ↦ rw v (_, refl)
              | inr (inl v) ↦ rw v (_, refl)
              | inr (inr (wait, v)) ↦
                  absurd (subst IsFinal v (sense_verdict-IsFinal t r.0.1 keys.0 keys.1))
            ])
          ])

  more_fuel :
      (n fuel m : ℕ) (cbw : CommandBlockWrapper) (b : Option Buf) (s : State W)
      (r : (Bool × Buf) × State W)
      → m ≡ n + fuel
      → transfer_command usb d fuel cbw b s ≡ some r
      → transfer_command usb d m cbw b s ≡ some r
  more_fuel zero fuel m cbw b s r h e =
      let same : fuel ≡ m = omega arith in
      subst (λ k. transfer_command usb d k cbw b s ≡ some r) same e
  more_fuel (suc n) fuel m cbw b s r h e =
      let same : suc (n + fuel) ≡ m = omega arith in
      subst (λ k. transfer_command usb d k cbw b s ≡ some r) same
        (Extends-some _ _ r (more (n + fuel) cbw b s)
          (more_fuel n fuel (n + fuel) cbw b s r refl e))

  two_calls :
      NoRetry
      → (cbw : CommandBlockWrapper) (b : Option Buf) (s : State W)
      → Returns (transfer_command usb d 2 cbw b s)
  unfolding transfer_command
  two_calls calm cbw b s =
      Returns-if (not (cbw.data_transfer_length == 0) && is_null b) _ _ s (_, refl)
        (λ _.
          Returns-if
            ((transfer_once usb d cbw (contents b) s).0.ended
              || not (needs_sense cbw (transfer_once usb d cbw (contents b) s).0))
            _ _ _ (_, refl)
            (λ _. act-Returns calm cbw b (transfer_once usb d cbw (contents b) s).0 _))

-- More fuel changes no result.
transfer_command_more_fuel :
    {W : Type 0} (usb : Usb W) (d : DriveContext) (fuel m : ℕ) (cbw : CommandBlockWrapper)
    (b : Option Buf) (s : State W) (r : (Bool × Buf) × State W)
    → fuel ≤ m
    → transfer_command usb d fuel cbw b s ≡ some r
    → transfer_command usb d m cbw b s ≡ some r
transfer_command_more_fuel usb d fuel m cbw b s r h =
    more_fuel usb d (m - fuel) fuel m cbw b s r (omega arith)

-- If the sense data never has the sense key Not Ready or Aborted Command, every command returns
-- with at most one nested call: two units of fuel, or more, are enough.
pub transfer_command-Returns :
    {W : Type 0} (usb : Usb W) (d : DriveContext) (fuel : ℕ) (cbw : CommandBlockWrapper)
    (b : Option Buf) (s : State W)
    → NoRetry usb d
    → 2 ≤ fuel
    → Returns (transfer_command usb d fuel cbw b s)
transfer_command-Returns usb d fuel cbw b s calm h =
    let (r, e) = two_calls usb d calm cbw b s in
    (r, transfer_command_more_fuel usb d 2 fuel cbw b s r h e)
