-- ===== src/Scsi/Send.antt =====
-- source/usbhsfs_scsi.c: the usbHsFsScsiSend...Command() functions. `fuel` bounds the nesting of
-- calls of usbHsFsScsiTransferCommand().
use libusbhsfs.Base.{ℕ, ◌*◌, ◌%◌, ◌^◌, Bool, true, false, none, some}
use libusbhsfs.Bytes.{Buf}
use libusbhsfs.Usb.{DriveContext, Usb}
use libusbhsfs.Cmd.{Cmd}
use libusbhsfs.Scsi.Cdb.{
  test_unit_ready_cb, inquiry_cb, mode_sense_6_cb, start_stop_unit_cb,
  prevent_allow_medium_removal_cb, read_capacity_10_cb, read_10_cb, write_10_cb,
  synchronize_cache_10_cb, mode_sense_10_cb, read_16_cb, write_16_cb, synchronize_cache_16_cb,
  read_capacity_16_cb,
}
use libusbhsfs.Scsi.Command.{send_command}

-- sizeof(ScsiReadCapacity10Data) and sizeof(ScsiReadCapacity16Data).
abbrev pub read_capacity_10_size : ℕ
read_capacity_10_size = 8

abbrev pub read_capacity_16_size : ℕ
read_capacity_16_size = 0x20

module _ {W : Type 0} (usb : Usb W) (d : DriveContext) (fuel lun : ℕ) where
  unfoldable pub send_test_unit_ready : Cmd W (Bool × Buf)
  unfolding send_command test_unit_ready_cb
  send_test_unit_ready = send_command usb d fuel 0 false lun 6 test_unit_ready_cb none

  unfoldable pub send_inquiry : Bool → ℕ → ℕ → Buf → Cmd W (Bool × Buf)
  unfolding send_command inquiry_cb
  send_inquiry evpd vpd_page_code allocation_length buf =
      send_command usb d fuel allocation_length true lun 6
        (inquiry_cb evpd vpd_page_code allocation_length) (some buf)

  unfoldable pub send_mode_sense_6 : ℕ → ℕ → ℕ → ℕ → Buf → Cmd W (Bool × Buf)
  unfolding send_command mode_sense_6_cb
  send_mode_sense_6 page_control page_code subpage_code allocation_length buf =
      send_command usb d fuel allocation_length true lun 6
        (mode_sense_6_cb page_control page_code subpage_code allocation_length) (some buf)

  unfoldable pub send_start_stop_unit : Bool → Cmd W (Bool × Buf)
  unfolding send_command start_stop_unit_cb
  send_start_stop_unit start = send_command usb d fuel 0 false lun 6 (start_stop_unit_cb start) none

  unfoldable pub send_prevent_allow_medium_removal : Bool → Cmd W (Bool × Buf)
  unfolding send_command prevent_allow_medium_removal_cb
  send_prevent_allow_medium_removal prevent =
      send_command usb d fuel 0 false lun 6 (prevent_allow_medium_removal_cb prevent) none

  unfoldable pub send_read_capacity_10 : Buf → Cmd W (Bool × Buf)
  unfolding send_command read_capacity_10_cb
  send_read_capacity_10 buf =
      send_command usb d fuel read_capacity_10_size true lun 10 read_capacity_10_cb (some buf)

  unfoldable pub send_read_10 : Buf → ℕ → ℕ → ℕ → Bool → Cmd W (Bool × Buf)
  unfolding send_command read_10_cb
  send_read_10 buf block_addr block_count block_length fua =
      send_command usb d fuel (block_count * block_length % 2 ^ 32) true lun 10
        (read_10_cb block_addr block_count fua) (some buf)

  unfoldable pub send_write_10 : Buf → ℕ → ℕ → ℕ → Bool → Cmd W (Bool × Buf)
  unfolding send_command write_10_cb
  send_write_10 buf block_addr block_count block_length fua =
      send_command usb d fuel (block_count * block_length % 2 ^ 32) false lun 10
        (write_10_cb block_addr block_count fua) (some buf)

  unfoldable pub send_synchronize_cache_10 : ℕ → ℕ → Cmd W (Bool × Buf)
  unfolding send_command synchronize_cache_10_cb
  send_synchronize_cache_10 block_addr block_count =
      send_command usb d fuel 0 false lun 10 (synchronize_cache_10_cb block_addr block_count) none

  unfoldable pub send_mode_sense_10 : Bool → ℕ → ℕ → ℕ → ℕ → Buf → Cmd W (Bool × Buf)
  unfolding send_command mode_sense_10_cb
  send_mode_sense_10 long_lba page_control page_code subpage_code allocation_length buf =
      send_command usb d fuel allocation_length true lun 10
        (mode_sense_10_cb long_lba page_control page_code subpage_code allocation_length) (some buf)

  unfoldable pub send_read_16 : Buf → ℕ → ℕ → ℕ → Bool → Cmd W (Bool × Buf)
  unfolding send_command read_16_cb
  send_read_16 buf block_addr block_count block_length fua =
      send_command usb d fuel (block_count * block_length % 2 ^ 32) true lun 16
        (read_16_cb block_addr block_count fua) (some buf)

  unfoldable pub send_write_16 : Buf → ℕ → ℕ → ℕ → Bool → Cmd W (Bool × Buf)
  unfolding send_command write_16_cb
  send_write_16 buf block_addr block_count block_length fua =
      send_command usb d fuel (block_count * block_length % 2 ^ 32) false lun 16
        (write_16_cb block_addr block_count fua) (some buf)

  unfoldable pub send_synchronize_cache_16 : ℕ → ℕ → Cmd W (Bool × Buf)
  unfolding send_command synchronize_cache_16_cb
  send_synchronize_cache_16 block_addr block_count =
      send_command usb d fuel 0 false lun 16 (synchronize_cache_16_cb block_addr block_count) none

  unfoldable pub send_read_capacity_16 : Buf → Cmd W (Bool × Buf)
  unfolding send_command read_capacity_16_cb
  send_read_capacity_16 buf =
      send_command usb d fuel read_capacity_16_size true lun 16
        (read_capacity_16_cb read_capacity_16_size) (some buf)
