-- ===== src/Scsi/Start/Started.antt =====
-- What the context of a logical unit holds once the unit is started.
use libusbhsfs.Base.{
  ℕ, ◌*◌, ◌-◌, ◌%◌, ◌^◌, ◌<◌, ◌≡◌, refl, inl, inr, Bool, true, false, not, ◌||◌, ◌⊎◌, Option, none,
  some, List, arith, ◌==◌, ltb, leb, Bool-cases, Option-cases, subst, if◌then◌else◌,
}
use libusbhsfs.Bytes.{Buf, load_le32}
use libusbhsfs.Usb.{DriveContext, is_valid_context, Usb, State, set_medium_present}
use libusbhsfs.Packets.{ums_max_lun}
use libusbhsfs.Cmd.{Cmd, lift, pure, ◌>>=◌}
use libusbhsfs.Cmd.Rules.{After, After-bind, After-any, After-if}
use libusbhsfs.Scsi.Wire.{InquiryData, inquiry_of, inquiry_size}
use libusbhsfs.Scsi.Command.{zero_buf}
use libusbhsfs.Scsi.Send.{
  send_inquiry, send_test_unit_ready, send_read_capacity_10, send_read_capacity_16,
}
use libusbhsfs.Scsi.Lun.{LogicalUnitContext, is_valid_logical_unit_context}
use libusbhsfs.Scsi.Unit.{
  Flags, Geometry, geometry_10, geometry_16, is_usable, capacity_of, fill_context, is_supported,
}
use libusbhsfs.Scsi.Blocks.Bounds.{IsBlockLength}
use libusbhsfs.Scsi.Start.{
  get_serial_number, prepare_removable, get_flags, get_geometry, stop_unit, examine,
  start_supported_unit, start_drive_logical_unit,
}

-- The block count fits the commands that the unit will be read with.
pub record Fits (g : Geometry) : Type 0 where
  pub short : g.long_lba ≡ false → g.block_count < 2 ^ 32
  pub long : g.block_count < 2 ^ 64

pub record IsStarted (d : DriveContext) (l l' : LogicalUnitContext) : Type 0 where
  pub lun : l'.lun ≡ l.lun
  pub valid : is_valid_logical_unit_context d l' ≡ true
  pub block_length : IsBlockLength l'.block_length
  pub capacity : l'.capacity ≡ l'.block_count * l'.block_length % 2 ^ 64
  pub short : l'.long_lba ≡ false → l'.block_count < 2 ^ 32
  pub long : l'.block_count < 2 ^ 64

-- Success with a started context, or the context as it was.
abbrev pub Outcome : DriveContext → LogicalUnitContext → Bool × LogicalUnitContext → Type 0
Outcome d l r = ((r.0 ≡ true) × IsStarted d l r.1) ⊎ ((r.0 ≡ false) × (r.1 ≡ l))

geometry_10-Fits : (b : Buf) → Fits (geometry_10 b)
unfolding geometry_10
geometry_10-Fits b = record { short = λ h. omega arith; long = omega arith }

geometry_16-Fits : (b : Buf) → Fits (geometry_16 b)
unfolding geometry_16
geometry_16-Fits b = record { short = λ h. absurd (cc); long = omega arith }

abbrev Found : Option (Flags × Geometry) → Type 0
Found none = Unit
Found (some (flags, g)) = Fits g × (is_usable g ≡ true)

abbrev Measured : Option Geometry → Type 0
Measured none = Unit
Measured (some g) = Fits g

fill_context-IsStarted :
    (d : DriveContext) (i : InquiryData) (eject : Bool) (flags : Flags) (std : Buf)
    (serial : List ℕ) (g : Geometry) (l : LogicalUnitContext)
    → is_valid_context d ≡ true
    → ltb l.lun ums_max_lun ≡ true
    → Fits g
    → is_usable g ≡ true
    → IsStarted d l (fill_context i eject flags std serial g l)
unfolding fill_context is_usable capacity_of is_valid_logical_unit_context
fill_context-IsStarted d i eject flags std serial g l valid lun fits usable = record {
  lun = refl;
  valid = ground arith;
  block_length = ground arith;
  capacity = refl;
  short = fits.short;
  long = fits.long;
}

module _ {W : Type 0} (usb : Usb W) (d : DriveContext) (fuel lun : ℕ) where
  get_geometry-Measured : (s : State W) → After (λ o _. Measured o) (get_geometry usb d fuel lun s)
  unfolding get_geometry
  get_geometry-Measured s =
      After-any (λ o _. Measured o) (send_read_capacity_10 usb d fuel lun zero_buf) _ s
        (λ short s1.
          After-if (λ o _. Measured o) (not short.0) _ _ s1 (λ _. tt)
            (λ _.
              After-if (λ o _. Measured o) (not (load_le32 short.1 0 == 2 ^ 32 - 1)) _ _ s1
                (λ _. geometry_10-Fits short.1)
                (λ _.
                  After-any (λ o _. Measured o) (send_read_capacity_16 usb d fuel lun zero_buf) _ s1
                    (λ long s2. elim (Bool-cases long.0) [
                      | inl e ↦ rw e (geometry_16-Fits long.1)
                      | inr e ↦ rw e tt
                    ]))))

  Found-of :
      (flags : Flags) (o : Option Geometry)
      → Measured o
      → Found (elim o [ none ↦ none | some g ↦ if is_usable g then some (flags, g) else none ])
  Found-of flags none m = tt
  Found-of flags (some g) m = elim (Bool-cases (is_usable g)) [
    | inl e ↦ rw e (m, e)
    | inr e ↦ rw e tt
  ]

  examine-Found : (s : State W) → After (λ o _. Found o) (examine usb d fuel lun s)
  unfolding examine
  examine-Found s =
      After-any (λ o _. Found o) (get_flags usb d fuel lun) _ s
        (λ flags s1.
          After-any (λ o _. Found o) (send_test_unit_ready usb d fuel lun) _ s1
            (λ ready s2.
              After-if (λ o _. Found o) (not ready.0) _ _ s2 (λ _. tt)
                (λ _.
                  After-bind (λ o _. Measured o) (λ o _. Found o) (get_geometry usb d fuel lun) _ s2
                    (get_geometry-Measured s2) (λ o s3 m. Found-of flags o m))))

module _ {W : Type 0} (usb : Usb W) (d : DriveContext) (fuel : ℕ) (l : LogicalUnitContext)
    (valid : is_valid_context d ≡ true) (lun : ltb l.lun ums_max_lun ≡ true) where
  start_supported_unit-Outcome :
      (std : Buf) (serial : List ℕ) (s : State W)
      → After (λ r _. Outcome d l r) (start_supported_unit usb d fuel l std serial s)
  unfolding start_supported_unit
  start_supported_unit-Outcome std serial s =
      After-any (λ r _. Outcome d l r) (prepare_removable usb d fuel l.lun (inquiry_of std)) _ s
        (λ go s1.
          After-bind (λ o _. Found o) (λ r _. Outcome d l r)
            (if go.0 then examine usb d fuel l.lun else pure none) _ s1
            (After-if (λ o _. Found o) go.0 _ _ s1 (λ _. examine-Found usb d fuel l.lun s1)
              (λ _. tt))
            (λ o s2 f. elim (Option-cases o) [
              | inl e ↦ rw e (
                  After-any (λ r _. Outcome d l r)
                    (if go.1 then stop_unit usb d fuel l.lun else pure tt) _ s2
                    (λ _ _. inr (refl, refl)))
              | inr ((flags, g), e) ↦
                  let found : Found (some (flags, g)) = subst Found e f in
                  rw e (
                    inl (
                      refl,
                      fill_context-IsStarted d (inquiry_of std) go.1 flags std serial g l valid lun
                          found.0 found.1,
                    ))
            ]))

  -- What follows the reply to Inquiry.
  abbrev behind_inquiry : Bool × Buf → Cmd W (Bool × LogicalUnitContext)
  behind_inquiry (ok, std) = if not ok then pure (false, l) else do
    serial ← get_serial_number usb d fuel l.lun std
    if is_supported (inquiry_of std)
        then start_supported_unit usb d fuel l std serial
        else pure (false, l)

  behind_inquiry-Outcome :
      (std : Bool × Buf) (s : State W) → After (λ r _. Outcome d l r) (behind_inquiry std s)
  behind_inquiry-Outcome (ok, std) s =
      After-if (λ r _. Outcome d l r) (not ok) _ _ s (λ _. inr (refl, refl))
        (λ _.
          After-any (λ r _. Outcome d l r) (get_serial_number usb d fuel l.lun std) _ s
            (λ serial s1. elim (Bool-cases (is_supported (inquiry_of std))) [
              | inl e ↦ rw e (start_supported_unit-Outcome std serial s1)
              | inr e ↦ rw e (inr (refl, refl))
            ]))

  start_valid_unit :
      (s : State W) → After (λ r _. Outcome d l r) (start_drive_logical_unit usb d fuel l s)
  unfolding start_drive_logical_unit
  start_valid_unit s =
      After-if (λ r _. Outcome d l r) (not (is_valid_context d) || leb ums_max_lun l.lun) _ _ s
        (λ _. inr (refl, refl))
        (λ _.
          After-any (λ r _. Outcome d l r) (lift (set_medium_present true)) _ s
            (λ _ s1.
              After-any (λ r _. Outcome d l r)
                (send_inquiry usb d fuel l.lun false 0 inquiry_size zero_buf) behind_inquiry s1
                behind_inquiry-Outcome))

start_invalid_unit :
    {W : Type 0} (usb : Usb W) (d : DriveContext) (fuel : ℕ) (l : LogicalUnitContext) (s : State W)
    → (not (is_valid_context d) || leb ums_max_lun l.lun) ≡ true
    → After (λ r _. Outcome d l r) (start_drive_logical_unit usb d fuel l s)
unfolding start_drive_logical_unit
start_invalid_unit usb d fuel l s e = rw e (inr (refl, refl))

-- Whatever the device answers: if starting a unit returns, either it succeeded and the context is
-- valid, with a block length that the block reads can work with, the capacity in bytes and a block
-- count that the read commands can address; or it failed and the context is as it was.
pub start_drive_logical_unit-Outcome :
    {W : Type 0} (usb : Usb W) (d : DriveContext) (fuel : ℕ) (l : LogicalUnitContext) (s : State W)
    (r : (Bool × LogicalUnitContext) × State W)
    → start_drive_logical_unit usb d fuel l s ≡ some r
    → Outcome d l r.0
start_drive_logical_unit-Outcome usb d fuel l s r e =
    subst (After (λ r _. Outcome d l r)) e (elim (Bool-cases (is_valid_context d)) [
      | inr v ↦ start_invalid_unit usb d fuel l s (ground arith)
      | inl v ↦ elim (Bool-cases (ltb l.lun ums_max_lun)) [
        | inl u ↦ start_valid_unit usb d fuel l v u s
        | inr u ↦ start_invalid_unit usb d fuel l s (ground arith)
      ]
    ])
