-- ===== src/Scsi/Start.antt =====
-- source/usbhsfs_scsi.c: usbHsFsScsiStartDriveLogicalUnit() and usbHsFsScsiStopDriveLogicalUnit().
pub mod Started
use libusbhsfs.Base.{
  ℕ, ◌+◌, ◌-◌, ◌^◌, Bool, true, false, not, ◌||◌, Option, none, some, List, ◌==◌, leb,
  if◌then◌else◌,
}
use libusbhsfs.Bytes.{Buf, load_le32}
use libusbhsfs.Usb.{DriveContext, is_valid_context, Usb, set_medium_present}
use libusbhsfs.Packets.{ums_max_lun}
use libusbhsfs.Cmd.{Cmd, ◌>>=◌, ◌>>◌, pure, lift}
use libusbhsfs.Scsi.Wire.{inquiry_size, InquiryData, inquiry_of}
use libusbhsfs.Scsi.Command.{zero_buf}
use libusbhsfs.Scsi.Send.{
  send_test_unit_ready, send_inquiry, send_mode_sense_6, send_start_stop_unit,
  send_prevent_allow_medium_removal, send_read_capacity_10, send_mode_sense_10,
  send_read_capacity_16,
}
use libusbhsfs.Scsi.Lun.{LogicalUnitContext, is_valid_logical_unit_context}
use libusbhsfs.Scsi.Unit.{
  vpd_unit_serial_number, mode_page_code_all, serial_number_of, page_serial_number, is_supported,
  Flags, flags_of, Geometry, geometry_10, geometry_16, is_usable, fill_context,
}

module _ {W : Type 0} (usb : Usb W) (d : DriveContext) (fuel lun : ℕ) where
  unfoldable pub get_serial_number : Buf → Cmd W (List ℕ)
  unfolding send_inquiry page_serial_number
  get_serial_number std = do
    (ok, head) ← send_inquiry usb d fuel lun true vpd_unit_serial_number 4 zero_buf
    if not ok || (head 3 == 0) then pure (serial_number_of std) else do
      (ok, page) ← send_inquiry usb d fuel lun true vpd_unit_serial_number (4 + head 3) head
      pure (if ok then page_serial_number std page (head 3) else serial_number_of std)

  -- The steps for removable units: whether to go on, and whether ejection is supported.
  unfoldable pub prepare_removable : InquiryData → Cmd W (Bool × Bool)
  unfolding send_prevent_allow_medium_removal send_start_stop_unit
  prepare_removable i = if i.rmb == 0 then pure (true, false) else do
    (ok, _) ← send_prevent_allow_medium_removal usb d fuel lun true
    if ok
        then (do (started, _) ← send_start_stop_unit usb d fuel lun true; pure (started, started))
        else λ s. some ((s.medium_present, false), s)

  -- Mode Sense (6), or Mode Sense (10) if that fails.
  unfoldable pub get_flags : Cmd W Flags
  unfolding send_mode_sense_6 send_mode_sense_10 flags_of
  get_flags = do
    (ok, header) ← send_mode_sense_6 usb d fuel lun 0 mode_page_code_all 0 4 zero_buf
    if ok then pure (flags_of (header 2)) else do
      (ok, header) ← send_mode_sense_10 usb d fuel lun false 0 mode_page_code_all 0 8 zero_buf
      pure (
          if ok
          then flags_of (header 3)
          else record { write_protect = false; fua_supported = false })

  -- Read Capacity (10), and Read Capacity (16) where that shows SCSI_READ_CAPACITY_10_MAX_LBA.
  unfoldable pub get_geometry : Cmd W (Option Geometry)
  unfolding send_read_capacity_10 send_read_capacity_16 geometry_10 geometry_16
  get_geometry = do
    (ok, short) ← send_read_capacity_10 usb d fuel lun zero_buf
    if not ok
        then pure none
        else if not (load_le32 short 0 == 2 ^ 32 - 1)
        then pure (some (geometry_10 short))
        else do
          (ok, long) ← send_read_capacity_16 usb d fuel lun zero_buf
          pure (if ok then some (geometry_16 long) else none)

  -- Prevent/Allow Medium Removal, then Start Stop Unit.
  unfoldable pub stop_unit : Cmd W (Unit {0})
  unfolding send_prevent_allow_medium_removal send_start_stop_unit
  stop_unit = do
    (ok, _) ← send_prevent_allow_medium_removal usb d fuel lun false
    if not ok then pure tt else do _ ← send_start_stop_unit usb d fuel lun false; pure tt

  -- From Mode Sense to the verified geometry, of a unit that is not to be given up yet.
  unfoldable pub examine : Cmd W (Option (Flags × Geometry))
  unfolding get_flags get_geometry is_usable send_test_unit_ready
  examine = do
    flags ← get_flags
    (ready, _) ← send_test_unit_ready usb d fuel lun
    if not ready then pure none else do
      geometry ← get_geometry
      pure (elim geometry [ none ↦ none | some g ↦ if is_usable g then some (flags, g) else none ])

module _ {W : Type 0} (usb : Usb W) (d : DriveContext) (fuel : ℕ) (l : LogicalUnitContext) where
  -- The part of usbHsFsScsiStartDriveLogicalUnit() behind the checks of the inquiry data.
  unfoldable pub start_supported_unit : Buf → List ℕ → Cmd W (Bool × LogicalUnitContext)
  unfolding prepare_removable examine stop_unit fill_context inquiry_of
  start_supported_unit std serial = do
    (go_on, eject) ← prepare_removable usb d fuel l.lun (inquiry_of std)
    found ← if go_on then examine usb d fuel l.lun else pure none
    elim found [
      | some (flags, g) ↦ pure (true, fill_context (inquiry_of std) eject flags std serial g l)
      | none ↦ (do if eject then stop_unit usb d fuel l.lun else pure tt; pure (false, l))
    ]

  unfoldable pub start_drive_logical_unit : Cmd W (Bool × LogicalUnitContext)
  unfolding is_valid_context send_inquiry get_serial_number is_supported start_supported_unit
  start_drive_logical_unit =
      if not (is_valid_context d) || leb ums_max_lun l.lun then pure (false, l) else do
        lift (set_medium_present true)
        (ok, std) ← send_inquiry usb d fuel l.lun false 0 inquiry_size zero_buf
        if not ok then pure (false, l) else do
          serial ← get_serial_number usb d fuel l.lun std
          if is_supported (inquiry_of std) then start_supported_unit std serial else pure (false, l)

  unfoldable pub stop_drive_logical_unit : Cmd W (Unit {0})
  unfolding is_valid_logical_unit_context stop_unit
  stop_drive_logical_unit =
      if not (is_valid_logical_unit_context d l) || not l.removable || not l.eject_supported
      then pure tt
      else stop_unit usb d fuel l.lun
