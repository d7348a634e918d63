-- ===== src/Drive/Units/Kept.antt =====
-- Which units a drive keeps.
use libusbhsfs.Base.{
  ℕ, zero, suc, ◌+◌, ◌≤◌, ◌≡◌, refl, ◌∙◌, inl, inr, Bool, true, false, not, List, [], ◌∷◌, ◌++◌,
  Option, none, some, arith, length, if◌then◌else◌,
}
use libusbhsfs.Bytes.{Buf}
use libusbhsfs.Usb.{DriveContext, Usb}
use libusbhsfs.Scsi.Lun.{LogicalUnitContext}
use libusbhsfs.Scsi.Start.{start_drive_logical_unit}
use libusbhsfs.Scsi.Start.Started.{IsStarted, Outcome, start_drive_logical_unit-Outcome}
use libusbhsfs.Mount.Monad.{MountState, Libs}
use libusbhsfs.Mount.Probe.{Probe, ◌>>=◌, ◌>>◌, pure, cmd}
use libusbhsfs.Mount.Start.{initialize_file_system_contexts}
use libusbhsfs.Drive.Units.Rules.{Then, Then-bind, Then-any, Then-if, Then-cmd}
use libusbhsfs.Drive.Units.{
  StoredUnit, Units, destroy_logical_unit_context, prepare_unit, take_context, prepare_units,
}

-- Started units, with numbers that ascend from `lo` and are below `n`.
unfoldable pub AreBetween : DriveContext → ℕ → ℕ → List StoredUnit → Type 0
AreBetween d lo n [] = lo ≤ n
AreBetween d lo n (u ∷ us) =
    (lo ≤ u.lun_ctx.lun) × IsStarted d u.lun_ctx u.lun_ctx × AreBetween d (suc u.lun_ctx.lun) n us

pub AreBetween-empty : (d : DriveContext) → AreBetween d 0 0 []
unfolding AreBetween
AreBetween-empty d = omega arith

pub AreBetween-le :
    (d : DriveContext) (lo n m : ℕ) (us : List StoredUnit)
    → n ≤ m
    → AreBetween d lo n us
    → AreBetween d lo m us
unfolding AreBetween
AreBetween-le d lo n m [] le h = omega arith
AreBetween-le d lo n m (u ∷ us) le h = (h.0, h.1, AreBetween-le d (suc u.lun_ctx.lun) n m us le h.2)

AreBetween-append :
    (d : DriveContext) (lo n : ℕ) (us : List StoredUnit) (u : StoredUnit)
    → u.lun_ctx.lun ≡ n
    → IsStarted d u.lun_ctx u.lun_ctx
    → AreBetween d lo n us
    → AreBetween d lo (suc n) (us ++ (u ∷ []))
unfolding AreBetween
AreBetween-append d lo n [] u e started h = (omega arith, started, omega arith)
AreBetween-append d lo n (x ∷ xs) u e started h =
    (h.0, h.1, AreBetween-append d (suc x.lun_ctx.lun) n xs u e started h.2)

pub length-le :
    (d : DriveContext) (lo n : ℕ) (us : List StoredUnit) → AreBetween d lo n us → length us + lo ≤ n
unfolding AreBetween
length-le d lo n [] h = omega arith
length-le d lo n (u ∷ us) h =
    let rest = length-le d (suc u.lun_ctx.lun) n us h.2 in let here = h.0 in ground arith

-- A unit that is kept is started.
abbrev IsPrepared :
    {W : Type 0}
    → DriveContext
    → LogicalUnitContext
    → Bool × LogicalUnitContext
    → MountState W
    → Type 0
IsPrepared d l r s = r.0 ≡ true → IsStarted d l r.1

-- The units are those below `n`.
abbrev pub AreKept : {W : Type 0} → DriveContext → ℕ → Bool × Units → MountState W → Type 0
AreKept d n r s = AreBetween d 0 n r.1.counted

module _ {W : Type 0} (usb : Usb W) (libs : Libs W) (d : DriveContext) (fuel : ℕ) where
  pub prepare_unit-IsPrepared :
      (rounds : ℕ) (heap : Buf) (l : LogicalUnitContext) (s : MountState W)
      → Then (IsPrepared d l) (prepare_unit usb libs d fuel rounds heap l s)
  unfolding prepare_unit
  prepare_unit-IsPrepared rounds heap l s =
      Then-bind (λ r _. Outcome d l r) (IsPrepared d l)
        (cmd (start_drive_logical_unit usb d fuel l)) _ s
        (Then-cmd (Outcome d l) (start_drive_logical_unit usb d fuel l) s
          (start_drive_logical_unit-Outcome usb d fuel l s.drive))
        (λ r s' outcome.
          Then-if (IsPrepared d l) (not r.0) (pure (false, r.1)) (mount r.1) s'
            (λ _ ok. absurd (ground arith))
            (λ e. elim outcome [
              | inl h ↦ mount_started r.1 s' h.1
              | inr h ↦ absurd (ground arith)
            ]))
    where
      undo : LogicalUnitContext → Probe W (Bool × LogicalUnitContext)
      undo l' = destroy_logical_unit_context usb libs d fuel l' true >> pure (false, l')

      mount : LogicalUnitContext → Probe W (Bool × LogicalUnitContext)
      mount l' = initialize_file_system_contexts usb libs d l' fuel rounds heap >>= λ mounted.
          if mounted then pure (true, l') else undo l'

      mount_started :
          (l' : LogicalUnitContext) (s' : MountState W)
          → IsStarted d l l'
          → Then (IsPrepared d l) (mount l' s')
      mount_started l' s' started =
          Then-bind (λ _ _. Unit) (IsPrepared d l)
            (initialize_file_system_contexts usb libs d l' fuel rounds heap)
            (λ mounted. if mounted then pure (true, l') else undo l') s' (Then-any _)
            (λ mounted t _.
              Then-if (IsPrepared d l) mounted (pure (true, l')) (undo l') t (λ _ _. started)
                (λ _.
                  Then-bind (λ _ _. Unit) (IsPrepared d l)
                    (destroy_logical_unit_context usb libs d fuel l' true) (λ _. pure (false, l')) t
                    (Then-any _) (λ _ _ _ ok. absurd (ground arith))))

  -- The units behind one more attempt.
  abbrev next_units : Bool → LogicalUnitContext → Units → MountState W → Units
  next_units ok l us s =
      let u : StoredUnit = record { lun_ctx = l; has_fs_ctx = s.has_fs_ctx; fs_ctx = s.fs_ctx } in
      if ok
      then record { counted = us.counted ++ (u ∷ []); spare = none }
      else record us { spare = some l }

  next_units-AreBetween :
      (i : ℕ) (ok : Bool) (l l' : LogicalUnitContext) (us : Units) (s : MountState W)
      → l.lun ≡ i
      → (ok ≡ true → IsStarted d l l')
      → AreBetween d 0 i us.counted
      → AreBetween d 0 (suc i) (next_units ok l' us s).counted
  next_units-AreBetween i true l l' us s index prepared kept =
      let started = prepared refl in
      AreBetween-append d 0 i us.counted _ (started.lun ∙ index)
        (record {
          lun = refl;
          valid = started.valid;
          block_length = started.block_length;
          capacity = started.capacity;
          short = started.short;
          long = started.long;
        })
        kept
  next_units-AreBetween i false l l' us s index prepared kept =
      AreBetween-le d 0 i (suc i) us.counted (omega arith) kept

  pub prepare_units-AreKept :
      (context_size rounds : ℕ) (heap : Buf) (last i n : ℕ) (us : Units) (s : MountState W)
      → n + i ≤ last
      → AreBetween d 0 i us.counted
      → Then (AreKept d last) (prepare_units usb libs d fuel context_size rounds heap i n us s)
  unfolding prepare_units
  prepare_units-AreKept context_size rounds heap last i zero us s le kept =
      AreBetween-le d 0 i last us.counted (omega arith) kept
  prepare_units-AreKept context_size rounds heap last i (suc n) us s le kept =
      Then-bind (λ _ _. Unit) (AreKept d last) (take_context usb libs d fuel context_size us.spare)
        go_on s (Then-any _)
        (λ found s' _. go_on-AreKept found s' (λ us' t.
          prepare_units-AreKept context_size rounds heap last (suc i) n us' t (omega arith)))
    where
      next : Bool × LogicalUnitContext → Probe W (Bool × Units)
      next r s' =
          prepare_units usb libs d fuel context_size rounds heap (suc i) n
            (next_units r.0 r.1 us s') s'

      go_on : Option LogicalUnitContext → Probe W (Bool × Units)
      go_on none = pure (false, us)
      go_on (some l) = prepare_unit usb libs d fuel rounds heap (record l { lun = i }) >>= next

      go_on-AreKept :
          (found : Option LogicalUnitContext) (s' : MountState W)
          → ((us' : Units) (t : MountState W)
              → AreBetween d 0 (suc i) us'.counted
              → Then
                  (AreKept d last)
                  (prepare_units usb libs d fuel context_size rounds heap (suc i) n us' t))
          → Then (AreKept d last) (go_on found s')
      go_on-AreKept none s' again = AreBetween-le d 0 i last us.counted (omega arith) kept
      go_on-AreKept (some l) s' again =
          Then-bind (IsPrepared d (record l { lun = i })) (AreKept d last)
            (prepare_unit usb libs d fuel rounds heap (record l { lun = i })) next s'
            (prepare_unit-IsPrepared rounds heap (record l { lun = i }) s')
            (λ r t prepared.
              again (next_units r.0 r.1 us t) t
                (next_units-AreBetween i r.0 (record l { lun = i }) r.1 us t refl prepared kept))
