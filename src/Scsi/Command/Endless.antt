-- ===== src/Scsi/Command/Endless.antt =====
-- usbHsFsScsiTransferCommand() on a device that asks for another try each time.
use libusbhsfs.Base.{
  ℕ, zero, suc, ◌≡◌, refl, Bool, true, false, List, [], ◌∷◌, none, ◌==◌, if◌then◌else◌,
}
use libusbhsfs.Bytes.{Buf, store_list}
use libusbhsfs.Usb.{success, EpSession, DriveContext, Usb, State}
use libusbhsfs.Scsi.Wire.{CommandBlockWrapper, test_unit_ready, sense_key}
use libusbhsfs.Scsi.Cdb.{cb_of}
use libusbhsfs.Cmd.Rules.{After, Never-bind}
use libusbhsfs.Scsi.Stage.{Tail, retry, sense_verdict, data_round, transfer_once}
use libusbhsfs.Scsi.Command.{zero_buf, Transfer, act_on_sense, send_request_sense, transfer_command}

-- The operation code of the command that runs, and the size of the transfer in flight.
abbrev pub Pending : Type 0
Pending = ℕ × ℕ

-- The status wrapper: Passed for Request Sense, Failed for every other command; and sense data
-- with the key Aborted Command.
abbrev status_of : ℕ → List ℕ
status_of opcode =
    0x55
    ∷ (0x53
        ∷ (0x42
            ∷ (0x53
                ∷ (5
                    ∷ (0
                        ∷ (0
                            ∷ (0
                                ∷ (0
                                    ∷ (0
                                        ∷ (0 ∷ (0 ∷ ((if opcode == 3 then 0 else 1) ∷ []))))))))))))

abbrev aborted : List ℕ
aborted = 0x70 ∷ (0 ∷ (0x0b ∷ []))

abbrev arriving : Pending → Buf → Buf
arriving (opcode, size) buf =
    if size == 31
    then buf
    else if size == 13
    then store_list (status_of opcode) buf
    else store_list aborted buf

abbrev pub aborting : Usb Pending
aborting = record {
  hos_before_2_0_0 = false;
  if_ctrl_xfer = λ setup w. (record { rc = success; reply = λ _. 0; size = setup.length }, w);
  ep_submit_request = λ ep cmd size timeout mapped buf w. ((success, size, buf), w);
  ep_post_buffer_async = λ ep size buf w. (success, (w.0, size));
  event_wait =
      λ ep timeout buf w. ((success, arriving w buf), (if w.1 == 31 then buf 15 else w.0, w.1));
  event_clear = λ ep w. w;
  ep_get_xfer_report =
      λ ep w. (record { rc = success; count = 1; transferred = w.1; res = success }, w);
  allocate = λ n w. (true, w);
  random_get = λ w. (5, w);
  sleep = λ n w. w;
}

abbrev endpoint : ℕ → EpSession
endpoint address = record { active = true; address = address }

abbrev pub bulk_drive : DriveContext
bulk_drive = record {
  has_xfer_buf = true;
  uasp = false;
  if_session = record {
    active = true;
    interface_number = 0;
    alternate_setting = 0;
    num_configurations = 1;
  };
  in_ep_1 = endpoint 0x81;
  in_ep_2 = endpoint 0;
  out_ep_1 = endpoint 2;
  out_ep_2 = endpoint 0;
}

abbrev pub is_ready : CommandBlockWrapper
is_ready = record {
  signature = 0x43425355;
  tag = 5;
  data_transfer_length = 0;
  flags = 0;
  lun = 0;
  cb_length = 6;
  cb = cb_of test_unit_ready;
}

asks_again : (t : Tail) (sense : Buf) → sense_key sense ≡ 11 → sense_verdict t sense ≡ retry false
unfolding sense_verdict
asks_again t sense e = rw e refl

-- The sense data arrives, and its key is Aborted Command.
abbrev IsAborted : Bool × Buf → State Pending → Type 0
IsAborted r s = (r.0 ≡ true) × (sense_key r.1 ≡ 11)

act_none :
    (T : Transfer Pending) (t : Tail) (s : State Pending)
    → After IsAborted (send_request_sense aborting bulk_drive T 0 s)
    → ((s' : State Pending) → T is_ready none s' ≡ none)
    → act_on_sense aborting bulk_drive T is_ready none t s ≡ none
unfolding act_on_sense
act_none T t s h none_left =
    Never-bind IsAborted (send_request_sense aborting bulk_drive T 0) _ s h
      (λ sense s2 (ok, key). rw (ok, asks_again t sense.1 key) (none_left _))

sense_arrives :
    (fuel : ℕ) (s : State Pending)
    → After IsAborted (
        send_request_sense aborting bulk_drive
          (transfer_command aborting bulk_drive (suc fuel))
          0
          s)
unfolding send_request_sense transfer_command data_round sense_key
sense_arrives fuel s = (refl, refl)

-- No fuel is enough for a Test Unit Ready on a device that fails it and then always reports an
-- aborted command: the retries have no bound.
pub transfer_command_endless :
    (fuel : ℕ) (s : State Pending)
    → transfer_command aborting bulk_drive fuel is_ready none s ≡ none
unfolding transfer_command data_round
transfer_command_endless zero s = refl
transfer_command_endless (suc zero) s = refl
transfer_command_endless (suc (suc fuel)) s =
    act_none (transfer_command aborting bulk_drive (suc fuel))
      (transfer_once aborting bulk_drive is_ready zero_buf s).0
      (transfer_once aborting bulk_drive is_ready zero_buf s).1
      (sense_arrives fuel (transfer_once aborting bulk_drive is_ready zero_buf s).1)
      (transfer_command_endless (suc fuel))
