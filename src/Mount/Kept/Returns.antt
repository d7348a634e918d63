-- ===== src/Mount/Kept/Returns.antt =====
-- The parsing of partition tables returns if the reads do and the chains of extended boot records
-- have an end.
use libusbhsfs.Base.{
  ℕ, zero, suc, ◌+◌, ◌*◌, ◌%◌, ◌^◌, ◌<◌, ◌≡◌, refl, sym, ap, subst, Bool, true, inl, inr,
  Bool-cases, Option, none, some, ◌==◌, arith, if◌then◌else◌,
}
use libusbhsfs.Bytes.{Buf, memcpy}
use libusbhsfs.Usb.{State, Usb}
use libusbhsfs.Cmd.{Cmd}
use libusbhsfs.Cmd.Rules.{After-some, Returns}
use libusbhsfs.Scsi.Lun.{LogicalUnitContext}
use libusbhsfs.Mount.Context.{fs_unsupported, fs_invalid}
use libusbhsfs.Mount.Monad.{MountState, Libs}
use libusbhsfs.Mount.Probe.{Probe, ◌>>=◌, pure}
use libusbhsfs.Mount.BootRecord.{boot_sig, boot_signature, vbr_type, inspect_volume_boot_record}
use libusbhsfs.Mount.Table.{
  is_ebr_type, entry_type, entry_lba, entry_block_count, skip, parse_ebr_chain,
  parse_extended_boot_record,
}
use libusbhsfs.Mount.Start.{mount_block_0}
use libusbhsfs.Mount.Volume.{register_volume}
use libusbhsfs.Mount.Kept.{Ends, Keeps, Keeps-bind, Keeps-pure, Keeps-mnt, Keeps-cmd, Leads}
use libusbhsfs.Mount.Kept.Parts.{
  Atoms, parse_partition_entry-Safe, skip-Safe, mount_inspected, mount_inspected-Safe,
}
use libusbhsfs.Mount.Kept.Chain.{AtRecord, LeadsTo, after_read, go_on, chain_step}

-- What a read of block 0 gave is a partition table, and one of its entries names an extended boot
-- record at `lba`. The entries are those of the copy of 512 bytes.
pub record IsBase {W : Type 0} (read : Buf → ℕ → ℕ → Cmd W (Bool × Buf)) (l : LogicalUnitContext)
    (lba : ℕ) : Type 0 where
  pub block : Buf
  pub state : State W
  pub outcome : (Bool × Buf) × State W
  pub was_read : read block 0 1 state ≡ some outcome
  pub ok : outcome.0.0 ≡ true
  pub is_table : (vbr_type l.block_length outcome.0.1 == fs_unsupported) ≡ true
  pub entry : ℕ
  pub is_entry : entry < 4
  pub is_ebr :
      is_ebr_type (entry_type (memcpy (λ _. 0) 0 outcome.0.1 512) (0x1be + entry * 16)) ≡ true
  pub lba_is : entry_lba (memcpy (λ _. 0) 0 outcome.0.1 512) (0x1be + entry * 16) ≡ lba

-- The offsets that the walk of the chain from `lba` comes to.
pub data IsReached {W : Type 0} (read : Buf → ℕ → ℕ → Cmd W (Bool × Buf)) (lba : ℕ)
    : ℕ → Type 0 where
  at_start : IsReached read lba 0
  leads_on :
      (next after : ℕ) (b : Buf) (s : State W) (r : (Bool × Buf) × State W)
      → IsReached read lba next
      → read b ((lba + next) % 2 ^ 64) 1 s ≡ some r
      → LeadsTo r.0 after
      → IsReached read lba after

-- In every chain that the partition table names, every record that leads on leads to one of a
-- smaller rank.
abbrev pub IsRanked :
    {W : Type 0} → (Buf → ℕ → ℕ → Cmd W (Bool × Buf)) → LogicalUnitContext → (ℕ → ℕ → ℕ) → Type 0
IsRanked read l rank =
    (lba next : ℕ)
    → IsBase read l lba
    → IsReached read lba next
    → AtRecord read lba next (λ r. (after : ℕ) → LeadsTo r after → rank lba after < rank lba next)

-- Every read returns.
abbrev pub ReadsReturn : {W : Type 0} → (Buf → ℕ → ℕ → Cmd W (Bool × Buf)) → Type 0
ReadsReturn {W} read = (b : Buf) (addr count : ℕ) (s : State W) → Returns (read b addr count s)

module _ {W : Type 0} (usb : Usb W) (libs : Libs W) (read : Buf → ℕ → ℕ → Cmd W (Bool × Buf))
    (l : LogicalUnitContext) (returns : ReadsReturn read) where
  abbrev Any : MountState W → Type 0
  Any s = Unit

  abbrev Safe : {A : Type 0} → Probe W A → Type 0
  Safe m = Keeps ⊥ Any m

  returning_read :
      (s : MountState W) (o : Option ((Bool × Buf) × State W)) → Returns o → Leads ⊥ Any s o
  returning_read s none (r, e) = absurd (cc)
  returning_read s (some r) h = tt

  atoms : Atoms usb libs read l ⊥ Any
  atoms = record {
    read_Safe = λ b addr count.
        Keeps-cmd ⊥ Any (read b addr count)
          (λ s p. returning_read s (read b addr count s.drive) (returns b addr count s.drive));
    register_Safe =
        λ b lba size t. Keeps-mnt ⊥ Any (register_volume usb libs l b lba size t) (λ s p. tt);
  }

  module _ (rank : ℕ → ℕ → ℕ) (ranked : IsRanked read l rank) (lba : ℕ)
      (base : IsBase read l lba) where
    go_on-Safe :
        (rounds next : ℕ) (r : Bool × Buf)
        → ((b : Buf) (after : ℕ)
            → LeadsTo r after
            → Safe (parse_ebr_chain usb libs read l rounds b lba after))
        → Safe (go_on usb libs read l lba rounds next r)
    go_on-Safe rounds next r rest = elim (Bool-cases r.0) [
      | inr e ↦ rw e (Keeps-pure ⊥ Any r.1)
      | inl e ↦ elim (Bool-cases (boot_sig r.1 == boot_signature)) [
        | inr f ↦ rw (e, f) (Keeps-pure ⊥ Any r.1)
        | inl f ↦
            rw (e, f)
              (Keeps-bind ⊥ Any _ _
                (parse_partition_entry-Safe usb libs read l ⊥ Any atoms (skip usb libs read l)
                  (skip usb libs read l) r.1 (entry_type r.1 0x1be)
                  ((lba + next + entry_lba r.1 0x1be) % 2 ^ 64) (entry_block_count r.1 0x1be)
                  (λ _. skip-Safe usb libs read l ⊥ Any atoms r.1 0)
                  (skip-Safe usb libs read l ⊥ Any atoms r.1 0))
                (λ b'. elim (Bool-cases (entry_lba r.1 0x1ce == 0)) [
                  | inl g ↦ rw g (Keeps-pure ⊥ Any b')
                  | inr g ↦ rw g (rest b' (entry_lba r.1 0x1ce) (e, f, refl, g))
                ]))
      ]
    ]

    parse_ebr_chain-Safe :
        (rounds next : ℕ) (b : Buf)
        → IsReached read lba next
        → rank lba next < rounds
        → Safe (parse_ebr_chain usb libs read l rounds b lba next)
    parse_ebr_chain-Safe zero next b here enough = absurd (omega arith)
    parse_ebr_chain-Safe (suc rounds) next b here enough = record {
      ends = λ s p.
          let (r, e) = returns b ((lba + next) % 2 ^ 64) 1 s.drive in
          let falls = After-some _ _ r (ranked lba next base here b s.drive) e in
          subst (Ends ⊥ Any) (sym (chain_step usb libs read l lba rounds next b s r e)) (
            (go_on-Safe rounds next r.0 (λ b' after leads.
                parse_ebr_chain-Safe rounds after b' (leads_on next after b s.drive r here e leads)
                  (omega (arith, falls after leads, enough)))).ends
              (record s { drive = r.1 }) p);
    }

  -- The inspection of block 0.
  inspected : Bool × Buf → ℕ × Buf
  inspected r = (if r.0 then vbr_type l.block_length r.1 else fs_invalid, r.1)

  inspect_step :
      (b : Buf) (s : MountState W) (r : (Bool × Buf) × State W)
      → read b 0 1 s.drive ≡ some r
      → inspect_volume_boot_record libs read l b 0 s
        ≡ some (inspected r.0, record s { drive = r.1 })
  unfolding inspect_volume_boot_record inspected
  inspect_step b s r e =
      after_read usb libs read l 0 (read b 0 1 s.drive) (λ r'. pure (inspected r')) s r e

  mount_step :
      (rounds : ℕ) (b : Buf) (s : MountState W) (r : (Bool × Buf) × State W)
      → read b 0 1 s.drive ≡ some r
      → mount_block_0 usb libs read l rounds b s
        ≡ mount_inspected usb libs read l ⊥ Any atoms rounds
            (inspected r.0)
            (record s { drive = r.1 })
  unfolding mount_block_0
  mount_step rounds b s r e =
      ap (λ o. ((λ _. o) >>= mount_inspected usb libs read l ⊥ Any atoms rounds) s)
        (inspect_step b s r e)

  mount_block_0_ends :
      (rank : ℕ → ℕ → ℕ) (rounds : ℕ) (b : Buf)
      → IsRanked read l rank
      → ((lba : ℕ) → IsBase read l lba → rank lba 0 < rounds)
      → Safe (mount_block_0 usb libs read l rounds b)
  unfolding parse_extended_boot_record inspected
  mount_block_0_ends rank rounds b ranked enough = record {
    ends = λ s p.
        let (r, e) = returns b 0 1 s.drive in
        subst (Ends ⊥ Any) (sym (mount_step rounds b s r e)) (
          (mount_inspected-Safe usb libs read l ⊥ Any atoms rounds (inspected r.0)
              (λ table b' i small ebr.
                let base : IsBase read l
                    (entry_lba (memcpy (λ _. 0) 0 r.0.1 512) (0x1be + i * 16)) =
                  record {
                    block = b;
                    state = s.drive;
                    outcome = r;
                    was_read = e;
                    ok = ground arith;
                    is_table = ground arith;
                    entry = i;
                    is_entry = small;
                    is_ebr = ebr;
                    lba_is = refl;
                  } in
                parse_ebr_chain-Safe rank ranked _ base rounds 0 b' at_start (enough _ base))).ends
            (record s { drive = r.1 }) p);
  }

ended :
    {W A : Type 0} (o : Option (A × MountState W))
    → Ends ⊥ (λ _. Unit) o
    → (r : A × MountState W) × (o ≡ some r)
ended none h = absurd h
ended (some r) h = (r, refl)

-- If every read returns, and in every chain of extended boot records that a partition table in
-- block 0 names, each record that the walk comes to and that leads on leads to one of a smaller
-- rank, then the mounting of what is at LBA 0 returns, with more rounds than the first record of
-- each of these chains has rank.
pub mount_block_0-Returns :
    {W : Type 0} (usb : Usb W) (libs : Libs W) (read : Buf → ℕ → ℕ → Cmd W (Bool × Buf))
    (l : LogicalUnitContext) (rank : ℕ → ℕ → ℕ) (rounds : ℕ) (b : Buf) (s : MountState W)
    → ReadsReturn read
    → IsRanked read l rank
    → ((lba : ℕ) → IsBase read l lba → rank lba 0 < rounds)
    → (r : Bool × MountState W) × (mount_block_0 usb libs read l rounds b s ≡ some r)
mount_block_0-Returns usb libs read l rank rounds b s returns ranked enough =
    ended _ ((mount_block_0_ends usb libs read l returns rank rounds b ranked enough).ends s tt)
