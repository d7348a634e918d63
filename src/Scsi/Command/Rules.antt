-- ===== src/Scsi/Command/Rules.antt =====
-- A rule for usbHsFsScsiTransferCommand(): what every attempt gives, and what a retry keeps of it,
-- holds of its result.
use libusbhsfs.Base.{
  ℕ, zero, suc, ◌≡◌, refl, ◌⊎◌, inl, inr, Bool, true, false, not, ◌&&◌, ◌||◌, some, arith, ◌==◌,
  Bool-cases, subst, if◌then◌else◌,
}
use libusbhsfs.Bytes.{Buf}
use libusbhsfs.Usb.{DriveContext, Usb, State}
use libusbhsfs.Cmd.Rules.{After, After-any, After-map, After-if}
use libusbhsfs.Scsi.Wire.{
  CommandBlockWrapper, sense_key, additional_sense_code, asc_medium_not_present,
}
use libusbhsfs.Scsi.Stage.{
  Tail, Verdict, answer, no_medium, retry, was_complete, sense_verdict, needs_sense, transfer_once,
}
use libusbhsfs.Scsi.Command.{is_null, act_on_sense, send_request_sense, transfer_command}

-- What an answer can be: the success of the attempt, or failure.
abbrev Answers : Tail → Verdict → Type 0
Answers t (answer r) = (r ≡ (t.ret || was_complete t)) ⊎ (r ≡ false)
Answers t no_medium = Unit
Answers t (retry wait) = Unit

Answers-if :
    (t : Tail) (b : Bool) (v w : Verdict)
    → Answers t v
    → Answers t w
    → Answers t (if b then v else w)
Answers-if t true v w p q = p
Answers-if t false v w p q = q

sense_verdict-Answers : (t : Tail) (sense : Buf) → Answers t (sense_verdict t sense)
unfolding sense_verdict
sense_verdict-Answers t sense =
    let key = sense_key sense in
    Answers-if t ((key == 0) || (key == 1) || (key == 6) || (key == 15)) _ _ (inl refl) (
      Answers-if t (key == 2) _ _
        (Answers-if t (additional_sense_code sense == asc_medium_not_present) _ _ tt tt)
        (Answers-if t (key == 11) _ _ tt (inr refl)))

pub Verdict-cases :
    (v : Verdict)
    → ((r : Bool) × (v ≡ answer r)) ⊎ ((v ≡ no_medium) ⊎ ((wait : Bool) × (v ≡ retry wait)))
Verdict-cases (answer r) = inl (r, refl)
Verdict-cases no_medium = inr (inl refl)
Verdict-cases (retry wait) = inr (inr (wait, refl))

module _ {W : Type 0} (usb : Usb W) (d : DriveContext) (cbw : CommandBlockWrapper) where
  -- The attempt from a buffer and a state.
  abbrev pub attempt : Buf → State W → Tail
  attempt b s = (transfer_once usb d cbw b s).0

module _ {ℓ} {W : Type 0} (usb : Usb W) (d : DriveContext) (cbw : CommandBlockWrapper)
    (P : Buf → Bool × Buf → Type ℓ) where
  -- An answer of an attempt is its own, or its success, or failure; a retry goes on from the
  -- attempt's buffer.
  pub record Step : Type ℓ where
    pub plain :
        (b : Buf) (s : State W)
        → P b ((attempt usb d cbw b s).ret, (attempt usb d cbw b s).progress.buf)
    pub counted :
        (b : Buf) (s : State W)
        → P b (
          (attempt usb d cbw b s).ret || was_complete (attempt usb d cbw b s),
          (attempt usb d cbw b s).progress.buf,
        )
    pub failed : (b : Buf) (s : State W) → P b (false, (attempt usb d cbw b s).progress.buf)
    pub again :
        (b : Buf) (s : State W) (r : Bool × Buf) → P (attempt usb d cbw b s).progress.buf r → P b r

  no_null : (b c : Bool) → c ≡ false → (b && c) ≡ true → ⊥
  no_null b c e h = ground arith

  act_rule :
      (step : Step) (fuel : ℕ) (b : Buf) (s s1 : State W)
      → ((b' : Buf) (s' : State W)
          → After (λ r _. P b' r) (transfer_command usb d fuel cbw (some b') s'))
      → After
          (λ r _. P b r)
          (act_on_sense usb d (transfer_command usb d fuel) cbw (some b) (attempt usb d cbw b s) s1)
  unfolding act_on_sense
  act_rule step fuel b s s1 rec =
      After-any (λ r _. P b r) (send_request_sense usb d (transfer_command usb d fuel) cbw.lun) _ s1
        (λ sense s2. elim (Bool-cases sense.0) [
          | inr e ↦ rw e (step.failed b s)
          | inl h ↦ rw h (elim (Verdict-cases (sense_verdict (attempt usb d cbw b s) sense.1)) [
            | inl (r, e) ↦
                rw e
                  (elim (subst (Answers (attempt usb d cbw b s)) e
                    (sense_verdict-Answers (attempt usb d cbw b s) sense.1)) [
                      | inl counted ↦ rw counted (step.counted b s)
                      | inr e ↦ rw e (step.failed b s)
                    ])
            | inr (inl e) ↦ rw e (step.failed b s)
            | inr (inr (wait, e)) ↦ rw e (
                After-map (λ r _. P (attempt usb d cbw b s).progress.buf r) (λ r _. P b r) _
                  (λ r s3. step.again b s r) (rec (attempt usb d cbw b s).progress.buf _))
          ])
        ])

  pub transfer_command_rule :
      Step
      → (fuel : ℕ) (b : Buf) (s : State W)
      → After (λ r _. P b r) (transfer_command usb d fuel cbw (some b) s)
  unfolding transfer_command
  transfer_command_rule step zero b s = tt
  transfer_command_rule step (suc fuel) b s =
      After-if (λ r _. P b r) (not (cbw.data_transfer_length == 0) && is_null (some b)) _ _ s
        (λ h. absurd (no_null _ (is_null (some b)) refl h))
        (λ _.
          After-if (λ r _. P b r)
            ((attempt usb d cbw b s).ended || not (needs_sense cbw (attempt usb d cbw b s))) _ _ _
            (λ _. step.plain b s) (λ _. act_rule step fuel b s _ (transfer_command_rule step fuel)))

module _ {W : Type 0} (usb : Usb W) (d : DriveContext) (cbw : CommandBlockWrapper) where
  no_null_test : (b : Bool) → (b && false) ≡ false
  no_null_test true = refl
  no_null_test false = refl

  -- Without a need for sense data the first attempt is the answer.
  pub transfer_command_plain :
      (fuel : ℕ) (b : Buf) (s : State W)
      → ((attempt usb d cbw b s).ended || not (needs_sense cbw (attempt usb d cbw b s))) ≡ true
      → transfer_command usb d (suc fuel) cbw (some b) s
        ≡ some (
          ((attempt usb d cbw b s).ret, (attempt usb d cbw b s).progress.buf),
          (transfer_once usb d cbw b s).1,
        )
  unfolding transfer_command
  transfer_command_plain fuel b s e =
      rw (no_null_test (not (cbw.data_transfer_length == 0))) (rw e refl)
