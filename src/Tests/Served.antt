-- ===== src/Tests/Served.antt =====
-- A read of 20 MiB, in three transfers, from a device that sends the byte 7.
use libusbhsfs.Base.{
  ℕ, ◌-◌, ◌%◌, ◌≤◌, ◌<◌, ◌≡◌, refl, true, false, some, arith, ◌==◌, ltb, if◌then◌else◌,
}
use libusbhsfs.Bytes.{memcpy, store_list}
use libusbhsfs.Usb.{success, failed, Usb, State}
use libusbhsfs.Request.{post_buffer}
use libusbhsfs.Scsi.Wire.{CommandBlockWrapper, CommandStatusWrapper, read_10}
use libusbhsfs.Scsi.Cdb.{cb_of}
use libusbhsfs.Scsi.Transfer.{send_command_block_wrapper, receive_command_status_wrapper}
use libusbhsfs.Scsi.Stage.{transfer_once}
use libusbhsfs.Scsi.Stage.Served.{IsSender, chunk_at}
use libusbhsfs.Scsi.Command.{transfer_command}
use libusbhsfs.Scsi.Command.Served.{transfer_command_served}
use libusbhsfs.Tests.Device.{Script, drive, status_bytes, scripted, one_read, start}

abbrev sevens : Usb Script
sevens = record (scripted one_read) {
  event_wait = λ ep timeout buf w. (
    (
      success,
      if ltb 31 w.1 then (λ _. 7) else if w.1 == 13 then store_list (status_bytes 0) buf else buf,
    ),
    w,
  );
}

abbrev long_read : CommandBlockWrapper
long_read = record {
  signature = 0x43425355;
  tag = 5;
  data_transfer_length = 0x1400000;
  flags = 0x80;
  lun = 0;
  cb_length = 10;
  cb = cb_of read_10;
}

abbrev passed_csw : CommandStatusWrapper
passed_csw = record { signature = 0x53425355; tag = 5; data_residue = 0; status = 0 }

-- The transfers begin at multiples of 4 MiB.
abbrev IsBoundary : ℕ → State Script → Type 0
IsBoundary k s = (k % 0x400000 ≡ 0) × (k ≤ 0x1400000)

block_arrives :
    (n m : ℕ) (s : State Script)
    → 31 < n
    → let r = post_buffer sevens drive.if_session drive.in_ep_1 n m false s in
      (failed r.0.rc ≡ false) × (r.0.size ≡ n) × ((i : ℕ) → i < n → r.1.xfer_buf i ≡ 7)
unfolding post_buffer
block_arrives n m s h =
    let some_bytes : (n == 0) ≡ false = ground arith in
    let many_bytes : ltb 31 n ≡ true = ground arith in
    rw (some_bytes, many_bytes) (refl, refl, λ i k. refl)

sevens-IsSender : IsSender sevens drive long_read (λ _. 7) passed_csw (λ s. s.live ≡ 0) IsBoundary
unfolding send_command_block_wrapper receive_command_status_wrapper
sevens-IsSender = record {
  taken = λ s ready. (refl, (omega arith, omega arith));
  arrives = λ k s at more.
      let large : 31 < chunk_at 0x1400000 k = ground (arith, at) in
      let (ok, size, same) = block_arrives (chunk_at 0x1400000 k) (0x1400000 - k) s large in
      (ok, size, same, (ground (arith, at), ground (arith, at)));
  ends = λ s at. refl;
}

transfer_command_served_example :
    transfer_command sevens drive 1 long_read (some (λ _. 0)) start
    ≡ some (
      (true, memcpy (λ _. 0) 0 (λ _. 7) 0x1400000),
      (transfer_once sevens drive long_read (λ _. 0) start).1,
    )
transfer_command_served_example =
    transfer_command_served sevens drive long_read (λ _. 7) passed_csw (λ s. s.live ≡ 0) IsBoundary
      0 (λ _. 0) start sevens-IsSender refl refl refl
