-- ===== src/Tests/Device.antt =====
-- A scripted usb service and a drive for the tests: every transfer succeeds in full. The first
-- one takes a command, the next ones send `data`, and the `at`-th sends a status wrapper.
use libusbhsfs.Base.{
  ℕ, zero, suc, true, false, List, [], ◌∷◌, Option, none, some, ◌==◌, if◌then◌else◌, get_or, arith,
}
use libusbhsfs.Bytes.{Buf, store_list}
use libusbhsfs.Usb.{success, EpSession, IfSession, DriveContext, Usb, State}
use libusbhsfs.Request.Sizes.{ReportsAtMost}
use libusbhsfs.Scsi.Wire.{CommandBlockWrapper, inquiry, read_capacity_10, operation_code}
use libusbhsfs.Scsi.Lun.{LogicalUnitContext}
use libusbhsfs.Scsi.Cdb.{cb_of}

-- Transfers so far, and the size of the one in flight.
abbrev pub Script : Type 0
Script = ℕ × ℕ

abbrev pub session : IfSession
session = record {
  active = true;
  interface_number = 0;
  alternate_setting = 0;
  num_configurations = 1;
}

abbrev pub endpoint : ℕ → EpSession
endpoint address = record { active = true; address = address }

abbrev pub drive : DriveContext
drive = record {
  has_xfer_buf = true;
  uasp = false;
  if_session = session;
  in_ep_1 = endpoint 0x81;
  in_ep_2 = endpoint 0;
  out_ep_1 = endpoint 2;
  out_ep_2 = endpoint 0;
}

-- The signature USBS, the tag 5, no residue, and a status.
abbrev pub status_bytes : ℕ → List ℕ
status_bytes status =
    0x55 ∷ (0x53 ∷ (0x42 ∷ (0x53 ∷ (5 ∷ (0 ∷ (0 ∷ (0 ∷ (0 ∷ (0 ∷ (0 ∷ (0 ∷ (status ∷ []))))))))))))

abbrev pub scripted : (ℕ → Buf → Buf) → Usb Script
scripted answer = record {
  hos_before_2_0_0 = false;
  if_ctrl_xfer = λ setup w. (record { rc = success; reply = λ _. 0; size = setup.length }, w);
  ep_submit_request = λ ep cmd size timeout mapped buf w. ((success, size, buf), w);
  ep_post_buffer_async = λ ep size buf w. (success, (w.0, size));
  event_wait = λ ep timeout buf w. ((success, answer w.0 buf), (suc w.0, w.1));
  event_clear = λ ep w. w;
  ep_get_xfer_report =
      λ ep w. (record { rc = success; count = 1; transferred = w.1; res = success }, w);
  allocate = λ n w. (true, w);
  random_get = λ w. (5, w);
  sleep = λ n w. w;
}

-- One command with data and a status that says Passed.
abbrev pub one_read : ℕ → Buf → Buf
one_read zero buf = buf
one_read (suc zero) buf = λ i. 7
one_read (suc (suc n)) buf = store_list (status_bytes 0) buf

abbrev pub start : State Script
start = record { world = (0, 0); xfer_buf = λ _. 0; medium_present = true; live = 0 }

-- A wrapper that asks for 4 bytes.
abbrev pub four_bytes : CommandBlockWrapper
four_bytes = record {
  signature = 0x43425355;
  tag = 5;
  data_transfer_length = 4;
  flags = 0x80;
  lun = 0;
  cb_length = 6;
  cb = cb_of inquiry;
}

pub scripted-ReportsAtMost : (answer : ℕ → Buf → Buf) → ReportsAtMost (scripted answer)
scripted-ReportsAtMost answer = record {
  submitted = λ ep cmd size timeout mapped buf w. omega arith;
  reported = λ ep size buf w. omega arith;
}

-- What a call returned, if it returned.
abbrev pub returned : {A : Type 0} → Option A → A → A
returned none a = a
returned (some r) a = r

-- A device that keeps the operation code of the last command, answers every command with data and
-- lets it pass: a unit of 4096 blocks of 512 bytes that is not removable.
abbrev pub reply_to : ℕ → ℕ → ℕ
reply_to opcode i =
    if opcode == operation_code read_capacity_10
    then get_or (0 ∷ (0 ∷ (0x10 ∷ (0 ∷ (0 ∷ (0 ∷ (2 ∷ (0 ∷ [])))))))) i 0
    else 0

abbrev pub answer_by_size : Script → Buf → Buf
answer_by_size (opcode, size) buf =
    if size == 31
    then buf
    else if size == 13
    then store_list (status_bytes 0) buf
    else reply_to opcode

abbrev pub unit_device : Usb Script
unit_device = record (scripted one_read) {
  event_wait = λ ep timeout buf w.
      ((success, answer_by_size w buf), (if w.1 == 31 then buf 15 else w.0, w.1));
}

abbrev pub unknown_unit : LogicalUnitContext
unknown_unit = record {
  lun = 0;
  removable = false;
  eject_supported = false;
  write_protect = false;
  fua_supported = false;
  vendor_id = [];
  product_id = [];
  serial_number = [];
  long_lba = false;
  block_count = 0;
  block_length = 0;
  capacity = 0;
}
