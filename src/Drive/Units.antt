-- ===== src/Drive/Units.antt =====
-- source/usbhsfs_drive.c: the contexts of a drive's logical units: the loop of
-- usbHsFsDriveInitializeContext() that prepares them, and usbHsFsDriveDestroyLogicalUnitContext().
pub mod Kept
pub mod Rules
use libusbhsfs.Base.{
  ℕ, zero, suc, ◌*◌, Bool, true, false, not, ◌||◌, List, [], ◌∷◌, ◌++◌, Option, none, some, ◌==◌,
  leb, if◌then◌else◌,
}
use libusbhsfs.Bytes.{Buf}
use libusbhsfs.Usb.{DriveContext, Usb, is_valid_context, alloc, free}
use libusbhsfs.Packets.{ums_max_lun}
use libusbhsfs.Scsi.Lun.{LogicalUnitContext}
use libusbhsfs.Scsi.Start.{start_drive_logical_unit, stop_drive_logical_unit}
use libusbhsfs.Mount.Context.{FileSystemContext}
use libusbhsfs.Mount.Monad.{MountState, Libs, io, get, put}
use libusbhsfs.Mount.Probe.{Probe, ◌>>=◌, ◌>>◌, pure, mnt, cmd}
use libusbhsfs.Mount.Volume.{destroy_file_system_context}
use libusbhsfs.Mount.Start.{initialize_file_system_contexts}

-- A LUN context with its file system contexts, which stand in the state while the unit is worked on.
pub record StoredUnit : Type 0 where
  pub lun_ctx : LogicalUnitContext
  pub has_fs_ctx : Bool
  pub fs_ctx : List FileSystemContext

-- What calloc() gives, with the index of the unit set.
abbrev pub blank : LogicalUnitContext
blank = record {
  lun = 0;
  removable = false;
  eject_supported = false;
  write_protect = false;
  fua_supported = false;
  vendor_id = [];
  product_id = [];
  serial_number = [];
  long_lba = false;
  block_count = 0;
  block_length = 0;
  capacity = 0;
}

-- The loop's state: the contexts that are counted, and the one behind them, if there is one.
pub record Units : Type 0 where
  pub counted : List StoredUnit
  pub spare : Option LogicalUnitContext

module _ {W : Type 0} (usb : Usb W) (libs : Libs W) (d : DriveContext) (fuel : ℕ) where
  unfoldable pub destroy_file_systems :
      LogicalUnitContext → List FileSystemContext → Probe W (Unit {0})
  unfolding free
  destroy_file_systems l [] = pure tt
  destroy_file_systems l (c ∷ cs) = do
    _ ← mnt (destroy_file_system_context usb libs l d c)
    mnt (io (free usb))
    destroy_file_systems l cs

  -- The array of file system contexts is freed; its count stays.
  unfoldable pub destroy_logical_unit_context : LogicalUnitContext → Bool → Probe W (Unit {0})
  unfolding free
  destroy_logical_unit_context l stop_lun =
      if not (is_valid_context d) || leb ums_max_lun l.lun then pure tt else do
        s ← mnt get
        if not s.has_fs_ctx then pure tt else do
          destroy_file_systems l s.fs_ctx
          mnt (io (free usb))
          mnt (put (λ s. record s { has_fs_ctx = false }))
        if stop_lun then cmd (stop_drive_logical_unit usb d fuel l) else pure tt

  -- One unit is started and its volumes are mounted. It returns the context.
  unfoldable pub prepare_unit : ℕ → Buf → LogicalUnitContext → Probe W (Bool × LogicalUnitContext)
  prepare_unit rounds heap l = do
    (started, l') ← cmd (start_drive_logical_unit usb d fuel l)
    if not started then pure (false, l') else do
      mounted ← initialize_file_system_contexts usb libs d l' fuel rounds heap
      if mounted
          then pure (true, l')
          else (destroy_logical_unit_context l' true >> pure (false, l'))

  -- The context behind those that are counted: a new one, or the one that a failed unit left there.
  -- `context_size` is sizeof(UsbHsFsDriveLogicalUnitContext).
  unfoldable pub take_context : ℕ → Option LogicalUnitContext → Probe W (Option LogicalUnitContext)
  unfolding alloc
  take_context context_size (some l) = pure (some l)
  take_context context_size none = do
    ok ← mnt (io (alloc usb context_size))
    mnt (put (λ s. if ok then record s { has_fs_ctx = false; fs_ctx = [] } else s))
    pure (if ok then some blank else none)

  -- The units from number `i` on, of which there are `n`. It returns whether the loop got to its end.
  unfoldable pub prepare_units : ℕ → ℕ → Buf → ℕ → ℕ → Units → Probe W (Bool × Units)
  prepare_units context_size rounds heap i zero us = pure (true, us)
  prepare_units context_size rounds heap i (suc n) us = do
    found ← take_context context_size us.spare
    elim found [
      | none ↦ pure (false, us)
      | some l ↦
          (prepare_unit rounds heap (record l { lun = i }) >>= λ (ok, l'). mnt get >>= λ s.
          let u : StoredUnit = record {
            lun_ctx = l';
            has_fs_ctx = s.has_fs_ctx;
            fs_ctx = s.fs_ctx;
          } in
          prepare_units context_size rounds heap (suc i) n (
            if ok
            then record { counted = us.counted ++ (u ∷ []); spare = none }
            else record us { spare = some l' }))
    ]

  -- The first loop of usbHsFsDriveDestroyContext().
  unfoldable pub destroy_units : Bool → List StoredUnit → Probe W (Unit {0})
  unfolding free
  destroy_units stop_lun [] = pure tt
  destroy_units stop_lun (u ∷ us) = do
    mnt (put (λ s. record s { has_fs_ctx = u.has_fs_ctx; fs_ctx = u.fs_ctx }))
    destroy_logical_unit_context u.lun_ctx stop_lun
    mnt (io (free usb))
    destroy_units stop_lun us
