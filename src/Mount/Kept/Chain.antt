-- ===== src/Mount/Kept/Chain.antt =====
-- The chain of extended boot records: when it is walked to its end, and when it never is.
use libusbhsfs.Base.{
  ℕ, zero, suc, ◌+◌, ◌%◌, ◌^◌, ◌≡◌, refl, sym, subst, ap, ◌∙◌, Bool, true, false, not, inl, inr,
  Option-cases, Option, none, some, ◌==◌, if◌then◌else◌,
}
use libusbhsfs.Bytes.{Buf}
use libusbhsfs.Usb.{State, Usb}
use libusbhsfs.Cmd.{Cmd}
use libusbhsfs.Cmd.Rules.{After, After-some}
use libusbhsfs.Scsi.Lun.{LogicalUnitContext}
use libusbhsfs.Mount.Monad.{MountState, Libs}
use libusbhsfs.Mount.Probe.{Probe, ◌>>=◌, cmd, pure}
use libusbhsfs.Mount.BootRecord.{boot_sig, boot_signature}
use libusbhsfs.Mount.Table.{
  entry_type, entry_lba, entry_block_count, skip, parse_partition_entry, parse_ebr_chain,
}

-- What is known of an extended boot record that was read at the offset `next`.
abbrev pub AtRecord :
    {W : Type 0} → (Buf → ℕ → ℕ → Cmd W (Bool × Buf)) → ℕ → ℕ → (Bool × Buf → Type 0) → Type 0
AtRecord {W} read lba next Q =
    (b : Buf) (s : State W) → After (λ r _. Q r) (read b ((lba + next) % 2 ^ 64) 1 s)

-- The record leads on: it could be read, has the signature, and names a next one.
abbrev pub LeadsTo : Bool × Buf → ℕ → Type 0
LeadsTo r next =
    (r.0 ≡ true)
    × ((boot_sig r.1 == boot_signature) ≡ true)
    × (entry_lba r.1 0x1ce ≡ next)
    × ((next == 0) ≡ false)

module _ {W : Type 0} (usb : Usb W) (libs : Libs W) (read : Buf → ℕ → ℕ → Cmd W (Bool × Buf))
    (l : LogicalUnitContext) (lba : ℕ) where
  -- The walk behind a record that leads on: its partition, and the rest of the chain.
  abbrev pub walk : ℕ → Buf → ℕ → Probe W Buf
  walk rounds b next =
      parse_partition_entry usb libs read l (skip usb libs read l) (skip usb libs read l) b
        (entry_type b 0x1be) ((lba + next + entry_lba b 0x1be) % 2 ^ 64) (entry_block_count b 0x1be)
      >>= λ b'.
          if entry_lba b 0x1ce == 0
          then pure b'
          else parse_ebr_chain usb libs read l rounds b' lba (entry_lba b 0x1ce)

  -- What follows the read of a record.
  abbrev pub go_on : ℕ → ℕ → Bool × Buf → Probe W Buf
  go_on rounds next r =
      if not r.0
      then pure r.1
      else if boot_sig r.1 == boot_signature
      then walk rounds r.1 next
      else pure r.1

  pub after_read :
      {A : Type 0} (o : Option ((Bool × Buf) × State W)) (f : Bool × Buf → Probe W A)
      (s : MountState W) (r : (Bool × Buf) × State W)
      → o ≡ some r
      → (cmd (λ _. o) >>= f) s ≡ f r.0 (record s { drive = r.1 })
  after_read o f s r e = ap (λ o'. (cmd (λ _. o') >>= f) s) e

  pub chain_step :
      (rounds next : ℕ) (b : Buf) (s : MountState W) (r : (Bool × Buf) × State W)
      → read b ((lba + next) % 2 ^ 64) 1 s.drive ≡ some r
      → parse_ebr_chain usb libs read l (suc rounds) b lba next s
        ≡ go_on rounds next r.0 (record s { drive = r.1 })
  unfolding parse_ebr_chain
  chain_step rounds next b s r e =
      after_read (read b ((lba + next) % 2 ^ 64) 1 s.drive) (go_on rounds next) s r e

  chain_stuck :
      (rounds next : ℕ) (b : Buf) (s : MountState W)
      → read b ((lba + next) % 2 ^ 64) 1 s.drive ≡ none
      → parse_ebr_chain usb libs read l (suc rounds) b lba next s ≡ none
  unfolding parse_ebr_chain
  chain_stuck rounds next b s e = ap (λ o'. (cmd (λ _. o') >>= go_on rounds next) s) e

  never_ends :
      (o : Option (Buf × MountState W)) (f : Buf → Probe W Buf)
      → ((b : Buf) (s : MountState W) → f b s ≡ none)
      → (s : MountState W) → ((λ _. o) >>= f) s ≡ none
  never_ends none f h s = refl
  never_ends (some r) f h s = h r.0 r.1

  -- A record that leads on to a walk without an end.
  on_and_on :
      (rounds next : ℕ) (r : Bool × Buf) (s : MountState W) (after : ℕ)
      → r.0 ≡ true
      → (boot_sig r.1 == boot_signature) ≡ true
      → entry_lba r.1 0x1ce ≡ after
      → (after == 0) ≡ false
      → ((b' : Buf) (s' : MountState W)
          → parse_ebr_chain usb libs read l rounds b' lba after s' ≡ none)
      → go_on rounds next r s ≡ none
  on_and_on rounds next r s after ok sig to more rest =
      let more' : (entry_lba r.1 0x1ce == 0) ≡ false =
        subst (λ n. (n == 0) ≡ false) (sym to) more in
      let rest' : (b' : Buf) (s' : MountState W)
          → parse_ebr_chain usb libs read l rounds b' lba (entry_lba r.1 0x1ce) s' ≡ none =
        subst
          (λ n.
            (b' : Buf) (s' : MountState W)
            → parse_ebr_chain usb libs read l rounds b' lba n s' ≡ none)
          (sym to) rest in
      let first =
        parse_partition_entry usb libs read l (skip usb libs read l) (skip usb libs read l) r.1
          (entry_type r.1 0x1be) ((lba + next + entry_lba r.1 0x1be) % 2 ^ 64)
          (entry_block_count r.1 0x1be) in
      rw (ok, sig)
        (never_ends (first s)
          (λ b'.
            if entry_lba r.1 0x1ce == 0
            then pure b'
            else parse_ebr_chain usb libs read l rounds b' lba (entry_lba r.1 0x1ce))
          (λ b' s'. rw more' (rest' b' s')) s)

  parse_ebr_chain_endless_lem :
      (cycle : ℕ → Bool)
      → ((next : ℕ)
          → cycle next ≡ true
          → AtRecord read lba next (λ r. (after : ℕ) × (cycle after ≡ true) × LeadsTo r after))
      → (rounds next : ℕ) (b : Buf) (s : MountState W) → cycle next ≡ true
      → parse_ebr_chain usb libs read l rounds b lba next s ≡ none
  unfolding parse_ebr_chain
  parse_ebr_chain_endless_lem cycle turns zero next b s here = refl
  parse_ebr_chain_endless_lem cycle turns (suc rounds) next b s here =
      elim (Option-cases (read b ((lba + next) % 2 ^ 64) 1 s.drive)) [
        | inl e ↦ chain_stuck rounds next b s e
        | inr (r, e) ↦
            let (after, there, (ok, sig, to, more)) =
              After-some _ _ r (turns next here b s.drive) e in
            chain_step rounds next b s r e
            ∙ on_and_on rounds next r.0 (record s { drive = r.1 }) after ok sig to more
                (λ b' s'. parse_ebr_chain_endless_lem cycle turns rounds after b' s' there)
      ]

-- If the records of a chain lead on in a cycle, that is, if each record at an offset in the cycle
-- can be read, has the signature and names a next one in the cycle other than 0, the walk of the
-- chain never ends: no number of rounds is enough.
pub parse_ebr_chain_endless :
    {W : Type 0} (usb : Usb W) (libs : Libs W) (read : Buf → ℕ → ℕ → Cmd W (Bool × Buf))
    (l : LogicalUnitContext) (lba : ℕ) (cycle : ℕ → Bool) (rounds next : ℕ) (b : Buf)
    (s : MountState W)
    → ((offset : ℕ)
        → cycle offset ≡ true
        → AtRecord read lba offset (λ r. (after : ℕ) × (cycle after ≡ true) × LeadsTo r after))
    → cycle next ≡ true
    → parse_ebr_chain usb libs read l rounds b lba next s ≡ none
parse_ebr_chain_endless usb libs read l lba cycle rounds next b s turns here =
    parse_ebr_chain_endless_lem usb libs read l lba cycle turns rounds next b s here
