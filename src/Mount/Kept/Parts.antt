-- ===== src/Mount/Kept/Parts.antt =====
-- The parsing of partition tables keeps what reads, registrations and extended boot records keep.
use libusbhsfs.Base.{
  ℕ, zero, suc, ◌+◌, ◌*◌, ◌<◌, ◌≡◌, refl, arith, Bool, true, false, not, ◌||◌, ◌==◌, ltb,
  if◌then◌else◌,
}
use libusbhsfs.Bytes.{Buf, memcpy}
use libusbhsfs.Usb.{Usb}
use libusbhsfs.Cmd.{Cmd}
use libusbhsfs.Scsi.Lun.{LogicalUnitContext}
use libusbhsfs.Mount.Context.{fs_unsupported, fs_ext}
use libusbhsfs.Mount.Monad.{MountState, Libs}
use libusbhsfs.Mount.Probe.{Probe, ◌>>=◌, cmd, mnt, pure}
use libusbhsfs.Mount.BootRecord.{bytes_at, inspect_volume_boot_record, inspect_ext_super_block}
use libusbhsfs.Mount.Table.{
  is_ebr_type, entry_type, entry_lba, register_detected, parse_partition_entry, skip,
  parse_extended_boot_record, parse_mbr_entries, parse_master_boot_record,
}
use libusbhsfs.Mount.Gpt.{
  gpt_header, gpt_start, has_header_crc32, inspect_gpt_entry, parse_gpt_entries, parse_gpt_blocks,
  parse_gpt_array, parse_backup_gpt, parse_guid_partition_table,
}
use libusbhsfs.Mount.Start.{mount_block_0}
use libusbhsfs.Mount.Volume.{register_volume}
use libusbhsfs.Mount.Kept.{Keeps, Keeps-bind, Keeps-if, Keeps-if_true, Keeps-pure}

module _ {W : Type 0} (usb : Usb W) (libs : Libs W) (read : Buf → ℕ → ℕ → Cmd W (Bool × Buf))
    (l : LogicalUnitContext) (N : Type 0) (P : MountState W → Type 0) where
  abbrev SafeIn : {A : Type 0} → Probe W A → Type 0
  SafeIn m = Keeps N P m

  -- What the parts of the parsing are made of.
  pub record Atoms : Type 0 where
    pub read_Safe : (b : Buf) (addr count : ℕ) → SafeIn (cmd (read b addr count))
    pub register_Safe :
        (b : Buf) (lba size t : ℕ) → SafeIn (mnt (register_volume usb libs l b lba size t))

module _ {W : Type 0} (usb : Usb W) (libs : Libs W) (read : Buf → ℕ → ℕ → Cmd W (Bool × Buf))
    (l : LogicalUnitContext) (N : Type 0) (P : MountState W → Type 0)
    (atoms : Atoms usb libs read l N P) where
  abbrev Safe : {A : Type 0} → Probe W A → Type 0
  Safe m = Keeps N P m

  register_detected-Safe :
      (b : Buf) (lba size t : ℕ) → Safe (register_detected usb libs read l b lba size t)
  unfolding register_detected
  register_detected-Safe b lba size t =
      Keeps-if N P (ltb fs_unsupported t) _ _
        (Keeps-bind N P (mnt (register_volume usb libs l b lba size t)) (λ _. pure b)
          (atoms.register_Safe b lba size t) (λ _. Keeps-pure N P b))
        (Keeps-pure N P b)

  inspect_volume_boot_record-Safe :
      (b : Buf) (lba : ℕ) → Safe (inspect_volume_boot_record libs read l b lba)
  unfolding inspect_volume_boot_record
  inspect_volume_boot_record-Safe b lba =
      Keeps-bind N P _ _ (atoms.read_Safe b lba 1) (λ r. Keeps-pure N P _)

  inspect_ext_super_block-Safe :
      (b : Buf) (lba : ℕ) → Safe (inspect_ext_super_block libs read l b lba)
  unfolding inspect_ext_super_block
  inspect_ext_super_block-Safe b lba =
      Keeps-if N P _ _ _ (Keeps-bind N P _ _ (atoms.read_Safe _ _ _) (λ r. Keeps-pure N P _))
        (Keeps-bind N P _ _ (atoms.read_Safe _ _ _) (λ r. Keeps-pure N P _))

  -- An extended boot record is only parsed where the type says that there is one.
  pub parse_partition_entry-Safe :
      (ebr gpt : Buf → ℕ → Probe W Buf) (b : Buf) (t lba size : ℕ)
      → (is_ebr_type t ≡ true → Safe (ebr b lba))
      → Safe (gpt b lba)
      → Safe (parse_partition_entry usb libs read l ebr gpt b t lba size)
  unfolding parse_partition_entry
  parse_partition_entry-Safe ebr gpt b t lba size h k =
      Keeps-if N P _ _ _
        (Keeps-bind N P _ _ (inspect_volume_boot_record-Safe b lba)
          (λ r. register_detected-Safe r.1 lba size r.0))
        (Keeps-if N P _ _ _
          (Keeps-bind N P _ _ (inspect_ext_super_block-Safe b lba)
            (λ r. register_detected-Safe r.1 lba size r.0))
          (Keeps-if_true N P _ _ _ h (Keeps-if N P _ _ _ k (Keeps-pure N P b))))

  pub skip-Safe : (b : Buf) (lba : ℕ) → Safe (skip usb libs read l b lba)
  skip-Safe b lba = Keeps-pure N P b

  -- The extended boot records that the entries of `mbr` name keep it.
  abbrev pub Named : ℕ → Buf → Type 0
  Named rounds mbr =
      (b : Buf) (i : ℕ)
      → i < 4
      → is_ebr_type (entry_type mbr (0x1be + i * 16)) ≡ true
      → Safe (parse_extended_boot_record usb libs read l rounds b (entry_lba mbr (0x1be + i * 16)))

  parse_mbr_entries-Safe :
      (gpt : Buf → ℕ → Probe W Buf) (rounds : ℕ) (mbr : Buf) (i n : ℕ) (b : Buf)
      → i + n ≡ 4
      → ((b : Buf) (lba : ℕ) → Safe (gpt b lba))
      → Named rounds mbr
      → Safe (parse_mbr_entries usb libs read l gpt rounds mbr i n b)
  unfolding parse_mbr_entries
  parse_mbr_entries-Safe gpt rounds mbr i zero b e h k = Keeps-pure N P b
  parse_mbr_entries-Safe gpt rounds mbr i (suc n) b e h k =
      Keeps-bind N P _ _
        (parse_partition_entry-Safe _ gpt b _ _ _ (k b i (omega (arith, e))) (h b _))
        (λ b'. parse_mbr_entries-Safe gpt rounds mbr (suc i) n b' (omega (arith, e)) h k)

  parse_master_boot_record-Safe :
      (gpt : Buf → ℕ → Probe W Buf) (rounds : ℕ) (b : Buf)
      → ((b : Buf) (lba : ℕ) → Safe (gpt b lba))
      → Named rounds (memcpy (λ _. 0) 0 b 512)
      → Safe (parse_master_boot_record usb libs read l gpt rounds b)
  unfolding parse_master_boot_record
  parse_master_boot_record-Safe gpt rounds b h k =
      Keeps-bind N P _ _ (parse_mbr_entries-Safe gpt rounds _ 0 _ b refl h k)
        (λ _. record { ends = λ s p. p })

  inspect_gpt_entry-Safe :
      (b : Buf) (off lba : ℕ) → Safe (inspect_gpt_entry usb libs read l b off lba)
  unfolding inspect_gpt_entry
  inspect_gpt_entry-Safe b off lba =
      Keeps-if N P _ _ _
        (Keeps-bind N P _ _ (inspect_volume_boot_record-Safe b lba)
          (λ r. Keeps-if N P _ _ _ (inspect_ext_super_block-Safe r.1 lba) (Keeps-pure N P r)))
        (Keeps-if N P _ _ _ (inspect_ext_super_block-Safe b lba) (Keeps-pure N P _))

  parse_gpt_entries-Safe : (j n : ℕ) (b : Buf) → Safe (parse_gpt_entries usb libs read l j n b)
  unfolding parse_gpt_entries
  parse_gpt_entries-Safe j zero b = Keeps-pure N P b
  parse_gpt_entries-Safe j (suc n) b = Keeps-bind N P _ _ (inspect_gpt_entry-Safe b _ _) (λ r.
      Keeps-bind N P _ _ (register_detected-Safe r.1 _ _ r.0)
        (λ b'. parse_gpt_entries-Safe (suc j) n b'))

  parse_gpt_blocks-Safe :
      (lba i n : ℕ) (b : Buf) → Safe (parse_gpt_blocks usb libs read l lba i n b)
  unfolding parse_gpt_blocks
  parse_gpt_blocks-Safe lba i zero b = Keeps-pure N P b
  parse_gpt_blocks-Safe lba i (suc n) b = Keeps-bind N P _ _ (atoms.read_Safe b _ 1) (λ r.
      Keeps-if N P _ _ _ (Keeps-pure N P r.1) (
        Keeps-bind N P _ _ (parse_gpt_entries-Safe 0 _ r.1)
          (λ b'. parse_gpt_blocks-Safe lba (suc i) n b')))

  parse_gpt_array-Safe : (h b : Buf) → Safe (parse_gpt_array usb libs read l h b)
  unfolding parse_gpt_array
  parse_gpt_array-Safe h b = Keeps-if N P _ _ _ (Keeps-pure N P b) (parse_gpt_blocks-Safe _ 0 _ b)

  parse_backup_gpt-Safe : (h b : Buf) → Safe (parse_backup_gpt usb libs read l h b)
  unfolding parse_backup_gpt
  parse_backup_gpt-Safe h b = Keeps-if N P _ _ _ (Keeps-pure N P b) (
      Keeps-bind N P _ _ (atoms.read_Safe b _ 1)
        (λ r. Keeps-if N P _ _ _ (Keeps-pure N P r.1) (parse_gpt_array-Safe _ r.1)))

  parse_guid_partition_table-Safe :
      (b : Buf) (lba : ℕ) → Safe (parse_guid_partition_table usb libs read l b lba)
  unfolding parse_guid_partition_table
  parse_guid_partition_table-Safe b lba = Keeps-bind N P _ _ (atoms.read_Safe b lba 1) (λ r.
      Keeps-if N P (not r.0 || not (bytes_at (gpt_header r.1) 0 gpt_start)) _ _ (Keeps-pure N P r.1)
        (Keeps-if N P (has_header_crc32 usb libs read l (gpt_header r.1)) _ _
          (parse_gpt_array-Safe (gpt_header r.1) r.1) (parse_backup_gpt-Safe (gpt_header r.1) r.1)))

  -- What is done of the block 0 once it was inspected.
  abbrev pub mount_inspected : ℕ → ℕ × Buf → Probe W Bool
  mount_inspected rounds (fs_type, b) =
      if ltb fs_unsupported fs_type
      then mnt (register_volume usb libs l b 0 l.block_count fs_type)
      else if fs_type == fs_unsupported
      then parse_master_boot_record usb libs read l (parse_guid_partition_table usb libs read l)
          rounds b
      else (inspect_ext_super_block libs read l b 0 >>= λ (ext_type, b').
          if ext_type == fs_ext
          then mnt (register_volume usb libs l b' 0 l.block_count ext_type)
          else pure false)

  pub mount_inspected-Safe :
      (rounds : ℕ) (r : ℕ × Buf)
      → ((r.0 == fs_unsupported) ≡ true → Named rounds (memcpy (λ _. 0) 0 r.1 512))
      → Safe (mount_inspected rounds r)
  mount_inspected-Safe rounds r k =
      Keeps-if N P (ltb fs_unsupported r.0) _ _ (atoms.register_Safe r.1 0 l.block_count r.0) (
        Keeps-if_true N P (r.0 == fs_unsupported) _ _
          (λ e. parse_master_boot_record-Safe _ rounds r.1 parse_guid_partition_table-Safe (k e))
          (Keeps-bind N P _ _ (inspect_ext_super_block-Safe r.1 0) (λ r'.
            Keeps-if N P (r'.0 == fs_ext) _ _ (atoms.register_Safe r'.1 0 l.block_count r'.0)
              (Keeps-pure N P false))))

  pub mount_block_0-Safe :
      (rounds : ℕ) (b : Buf)
      → ((b : Buf) (lba : ℕ) → Safe (parse_extended_boot_record usb libs read l rounds b lba))
      → Safe (mount_block_0 usb libs read l rounds b)
  unfolding mount_block_0
  mount_block_0-Safe rounds b k =
      Keeps-bind N P _ (mount_inspected rounds) (inspect_volume_boot_record-Safe b 0)
        (λ r. mount_inspected-Safe rounds r (λ _ b' i small ebr. k b' _))
