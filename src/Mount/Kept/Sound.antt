-- ===== src/Mount/Kept/Sound.antt =====
-- The parsing of partition tables keeps the invariant of the volumes.
use libusbhsfs.Base.{ℕ, zero, suc, ◌+◌, ◌%◌, ◌^◌, ◌≡◌, refl, Bool, not, Option, none, some, ◌==◌}
use libusbhsfs.Bytes.{Buf}
use libusbhsfs.Usb.{State, Usb}
use libusbhsfs.Cmd.{Cmd}
use libusbhsfs.Cmd.Rules.{After}
use libusbhsfs.Scsi.Lun.{LogicalUnitContext}
use libusbhsfs.Mount.Monad.{MountState, Libs}
use libusbhsfs.Mount.Probe.{Probe}
use libusbhsfs.Mount.BootRecord.{boot_sig, boot_signature}
use libusbhsfs.Mount.Table.{
  entry_type, entry_lba, entry_block_count, skip, parse_ebr_chain, parse_extended_boot_record,
}
use libusbhsfs.Mount.Start.{mount_block_0}
use libusbhsfs.Mount.Volume.{register_volume}
use libusbhsfs.Mount.Volume.Sound.{IsSound, Restored-IsSound, register_volume-IsSound}
use libusbhsfs.Mount.Kept.{Keeps, Keeps-bind, Keeps-if, Keeps-pure, Keeps-mnt, Keeps-cmd, Leads}
use libusbhsfs.Mount.Kept.Parts.{Atoms, parse_partition_entry-Safe, skip-Safe, mount_block_0-Safe}

-- A read leaves the number of allocated blocks as it was.
abbrev pub IsQuiet : {W : Type 0} → (Buf → ℕ → ℕ → Cmd W (Bool × Buf)) → Type 0
IsQuiet {W} read =
    (b : Buf) (addr count : ℕ) (s : State W)
    → After (λ _ s'. s'.live ≡ s.live) (read b addr count s)

module _ {W : Type 0} (usb : Usb W) (libs : Libs W) (read : Buf → ℕ → ℕ → Cmd W (Bool × Buf))
    (l : LogicalUnitContext) (quiet : IsQuiet read) (base : ℕ) where
  quiet_read :
      (s : MountState W) (o : Option ((Bool × Buf) × State W))
      → IsSound base s
      → After (λ _ d. d.live ≡ s.drive.live) o
      → Leads Unit (IsSound base) s o
  quiet_read s none sound h = tt
  quiet_read s (some r) sound h =
      Restored-IsSound base s (record s { drive = r.1 }) sound (record { state = refl; live = h })

  atoms : Atoms usb libs read l Unit (IsSound base)
  atoms = record {
    read_Safe = λ b addr count.
        Keeps-cmd Unit (IsSound base) (read b addr count)
          (λ s sound. quiet_read s (read b addr count s.drive) sound (quiet b addr count s.drive));
    register_Safe = λ b lba size t.
        Keeps-mnt Unit (IsSound base) (register_volume usb libs l b lba size t)
          (λ s. register_volume-IsSound usb libs l b lba size t base s);
  }

  abbrev Safe : {A : Type 0} → Probe W A → Type 0
  Safe m = Keeps Unit (IsSound base) m

  parse_ebr_chain-Safe :
      (rounds : ℕ) (b : Buf) (lba next : ℕ)
      → Safe (parse_ebr_chain usb libs read l rounds b lba next)
  unfolding parse_ebr_chain
  parse_ebr_chain-Safe zero b lba next = record { ends = λ s sound. tt }
  parse_ebr_chain-Safe (suc rounds) b lba next =
      Keeps-bind Unit (IsSound base) _ _ (atoms.read_Safe b _ 1) (λ r.
        Keeps-if Unit (IsSound base) (not r.0) _ _ (Keeps-pure Unit (IsSound base) r.1) (
          Keeps-if Unit (IsSound base) (boot_sig r.1 == boot_signature) _ _
            (Keeps-bind Unit (IsSound base) _ _
              (parse_partition_entry-Safe usb libs read l Unit (IsSound base) atoms
                (skip usb libs read l) (skip usb libs read l) r.1 (entry_type r.1 0x1be)
                ((lba + next + entry_lba r.1 0x1be) % 2 ^ 64) (entry_block_count r.1 0x1be)
                (λ _. skip-Safe usb libs read l Unit (IsSound base) atoms r.1 0)
                (skip-Safe usb libs read l Unit (IsSound base) atoms r.1 0))
              (λ b'.
                Keeps-if Unit (IsSound base) (entry_lba r.1 0x1ce == 0) _ _
                  (Keeps-pure Unit (IsSound base) b')
                  (parse_ebr_chain-Safe rounds b' lba (entry_lba r.1 0x1ce))))
            (Keeps-pure Unit (IsSound base) r.1)))

  extended-Safe :
      (rounds : ℕ) (b : Buf) (lba : ℕ)
      → Safe (parse_extended_boot_record usb libs read l rounds b lba)
  unfolding parse_extended_boot_record
  extended-Safe rounds b lba = parse_ebr_chain-Safe rounds b lba 0

  pub mount_block_0-IsSound : (rounds : ℕ) (b : Buf) → Safe (mount_block_0 usb libs read l rounds b)
  mount_block_0-IsSound rounds b =
      mount_block_0-Safe usb libs read l Unit (IsSound base) atoms rounds b (extended-Safe rounds)
