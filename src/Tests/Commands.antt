-- ===== src/Tests/Commands.antt =====
-- Runs of whole commands, and examples that their theorems apply to.
use libusbhsfs.Base.{ℕ, ◌==◌, none, ◌*◌, ◌≡◌, refl, Bool, true, false, some, arith}
use libusbhsfs.Bytes.{Buf}
use libusbhsfs.Usb.{State}
use libusbhsfs.Scsi.Stage.{data_round}
use libusbhsfs.Scsi.Command.{transfer_command}
use libusbhsfs.Scsi.Command.Outcome.{
  Completed, Confined, transfer_command-Completed, transfer_command-Confined,
}
use libusbhsfs.Scsi.Lun.{LogicalUnitContext}
use libusbhsfs.Scsi.Start.{start_drive_logical_unit}
use libusbhsfs.Scsi.Start.Started.{Outcome, start_drive_logical_unit-Outcome}
use libusbhsfs.Tests.Device.{
  returned, unit_device, unknown_unit, Script, drive, scripted, one_read, start, four_bytes,
  scripted-ReportsAtMost,
}
use libusbhsfs.Cmd.Rules.{After, After-some, Returns}
use libusbhsfs.Scsi.Wire.{sense_key}
use libusbhsfs.Scsi.Command.{send_request_sense}
use libusbhsfs.Scsi.Command.Fuel.{NoRetry, transfer_command-Returns}
use libusbhsfs.Scsi.Command.Endless.{aborting, bulk_drive, is_ready, transfer_command_endless}

abbrev read_outcome : (Bool × Buf) × State Script
read_outcome =
    returned (transfer_command (scripted one_read) drive 1 four_bytes (some (λ _. 0)) start)
      ((false, λ _. 0), start)

four_bytes_outcome :
    transfer_command (scripted one_read) drive 1 four_bytes (some (λ _. 0)) start
    ≡ some read_outcome
unfolding transfer_command data_round
four_bytes_outcome = refl

four_bytes_succeeds : read_outcome.0.0 ≡ true
unfolding transfer_command data_round
four_bytes_succeeds = refl

transfer_command-Completed_example : Completed (scripted one_read) drive four_bytes read_outcome.0.1
transfer_command-Completed_example =
    transfer_command-Completed (scripted one_read) drive four_bytes 1 (λ _. 0) start read_outcome
      four_bytes_outcome four_bytes_succeeds

transfer_command-Confined_example : Confined four_bytes (λ _. 0) read_outcome.0.1
transfer_command-Confined_example =
    transfer_command-Confined (scripted one_read) drive four_bytes 1 (λ _. 0) start read_outcome
      (scripted-ReportsAtMost one_read) (omega arith) four_bytes_outcome

abbrev started : (Bool × LogicalUnitContext) × State Script
started =
    returned (start_drive_logical_unit unit_device drive 1 unknown_unit start)
      ((false, unknown_unit), start)

start_outcome : start_drive_logical_unit unit_device drive 1 unknown_unit start ≡ some started
unfolding start_drive_logical_unit data_round
start_outcome = refl

started_geometry : (started.0.0 ≡ true) × (started.0.1.capacity ≡ 4096 * 512)
unfolding start_drive_logical_unit data_round
started_geometry = (refl, refl)

start_drive_logical_unit-Outcome_example : Outcome drive unknown_unit started.0
start_drive_logical_unit-Outcome_example =
    start_drive_logical_unit-Outcome unit_device drive 1 unknown_unit start started start_outcome

abbrev IsCalm : Bool × Buf → State Script → Type 0
IsCalm r s = ((sense_key r.1 == 2) ≡ false) × ((sense_key r.1 == 11) ≡ false)

unit_device-IsCalm :
    (lun : ℕ) (s : State Script)
    → After IsCalm
        (send_request_sense unit_device drive (transfer_command unit_device drive 1) lun s)
unfolding send_request_sense transfer_command data_round sense_key
unit_device-IsCalm lun s = (refl, refl)

unit_device-NoRetry : NoRetry unit_device drive
unit_device-NoRetry = record {
  not_asked = λ lun s r e. After-some IsCalm _ r (unit_device-IsCalm lun s) e;
}

transfer_command-Returns_example :
    Returns (transfer_command unit_device drive 3 four_bytes (some (λ _. 0)) start)
transfer_command-Returns_example =
    transfer_command-Returns unit_device drive 3 four_bytes (some (λ _. 0)) start
      unit_device-NoRetry (omega arith)

transfer_command_endless_example :
    transfer_command aborting bulk_drive 1000 is_ready none start ≡ none
transfer_command_endless_example = transfer_command_endless 1000 start
