-- ===== src/Tests/Sessions.antt =====
-- Sessions of libnx that open and close, and a drive with two interfaces.
use libusbhsfs.Base.{ℕ, refl, true, false, List, [], ◌∷◌, none, some}
use libusbhsfs.Bytes.{Buf, store_list}
use libusbhsfs.Usb.{DriveContext, EpSession, success}
use libusbhsfs.Drive.Interface.{EndpointDescriptor, Interface, Hs}
use libusbhsfs.Drive.Endpoints.Opened.{IsHs, IsActive}
use libusbhsfs.Drive.Strings.{Utf16}
use libusbhsfs.Drive.Context.{Drive, Host}
use libusbhsfs.Tests.Libraries.{libraries}
use libusbhsfs.Tests.Device.{Script, drive, session, unit_device}

-- The interface descriptor of setting 1, for USB Attached SCSI.
abbrev uasp_descriptor : List ℕ
uasp_descriptor = 9 ∷ (4 ∷ (0 ∷ (1 ∷ (4 ∷ (8 ∷ (6 ∷ (98 ∷ (0 ∷ []))))))))

-- Sessions open and close as they are asked to, and an interface gets the setting it is set to.
abbrev pub libnx_sessions : Hs Script
libnx_sessions = record {
  acquire_usb_if = λ i w. ((success, i), w);
  if_close = λ ses w. (record ses { active = false }, w);
  if_set_interface = λ n i w. ((success, i), w);
  if_get_alternate_interface =
      λ n i w. ((success, record i { descriptor = store_list uasp_descriptor i.descriptor }), w);
  if_open_usb_ep = λ i e ep w. ((success, record { active = true; address = e.address }), w);
  ep_close = λ ep w. (record ep { active = false }, w);
}

pub libnx_sessions-IsHs : IsHs libnx_sessions
libnx_sessions-IsHs = record {
  opens = λ i e ep w ok. refl;
  closes_interface = λ ses w. refl;
  closes = λ ep w. refl;
}

abbrev pub bulk : ℕ → EndpointDescriptor
bulk address = record { length = 7; address = address; attributes = 2; max_packet_size = 512 }

-- Setting 0, for the Bulk-Only Transport, with the endpoints of both settings.
abbrev pub interface : Interface
interface = record {
  session = session;
  device = record {
    vendor = 0x1234;
    product = 1;
    manufacturer_index = 1;
    product_name_index = 0;
    serial_number_index = 2;
  };
  descriptor = store_list (9 ∷ (4 ∷ (0 ∷ (0 ∷ (2 ∷ (8 ∷ (6 ∷ (80 ∷ (0 ∷ []))))))))) (λ _. 0);
  inputs = bulk 0x81 ∷ (bulk 0x82 ∷ (bulk 0x83 ∷ []));
  outputs = bulk 1 ∷ (bulk 2 ∷ (bulk 4 ∷ []));
}

abbrev pub closed_session : EpSession
closed_session = record { active = false; address = 0 }

abbrev pub closed_drive : DriveContext
closed_drive = record drive {
  has_xfer_buf = false;
  in_ep_1 = closed_session;
  in_ep_2 = closed_session;
  out_ep_1 = closed_session;
  out_ep_2 = closed_session;
}

pub closed_drive-IsActive : IsActive false false closed_drive
closed_drive-IsActive = record { in_1_is = refl; out_1_is = refl; in_2_is = refl; out_2_is = refl }

-- A configuration of 85 bytes: setting 0 with two endpoints, setting 1 with four and their pipes.
abbrev pub configuration : Buf
configuration =
    store_list
      (9
        ∷ (2
            ∷ (85
                ∷ (0
                    ∷ (1
                        ∷ (1
                            ∷ (0
                                ∷ (0
                                    ∷ (0
                                        ∷ (9
                                            ∷ (4
                                                ∷ (0
                                                    ∷ (0
                                                        ∷ (2
                                                            ∷ (8
                                                            ∷ (6
                                                            ∷ (80
                                                            ∷ (0
                                                            ∷ (7
                                                            ∷ (5
                                                            ∷ (129
                                                            ∷ (2
                                                            ∷ (0
                                                            ∷ (2
                                                            ∷ (0
                                                            ∷ (7
                                                            ∷ (5
                                                            ∷ (2
                                                            ∷ (2
                                                            ∷ (0
                                                            ∷ (2
                                                            ∷ (0
                                                            ∷ (9
                                                            ∷ (4
                                                            ∷ (0
                                                            ∷ (1
                                                            ∷ (4
                                                            ∷ (8
                                                            ∷ (6
                                                            ∷ (98
                                                            ∷ (0
                                                            ∷ (7
                                                            ∷ (5
                                                            ∷ (1
                                                            ∷ (2
                                                            ∷ (0
                                                            ∷ (2
                                                            ∷ (0
                                                            ∷ (4
                                                            ∷ (36
                                                            ∷ (1
                                                            ∷ (0
                                                            ∷ (7
                                                            ∷ (5
                                                            ∷ (130
                                                            ∷ (2
                                                            ∷ (0
                                                            ∷ (2
                                                            ∷ (0
                                                            ∷ (4
                                                            ∷ (36
                                                            ∷ (2
                                                            ∷ (0
                                                            ∷ (7
                                                            ∷ (5
                                                            ∷ (131
                                                            ∷ (2
                                                            ∷ (0
                                                            ∷ (2
                                                            ∷ (0
                                                            ∷ (4
                                                            ∷ (36
                                                            ∷ (3
                                                            ∷ (0
                                                            ∷ (7
                                                            ∷ (5
                                                            ∷ (4
                                                            ∷ (2
                                                            ∷ (0
                                                            ∷ (2 ∷ (0 ∷ (4 ∷ (36 ∷ (4 ∷ (0 ∷ [])))))
                                                            ))))))))))))))))))))))))))))))))))))))))
                                                            ))))))))))))))))))))))))))))))))))))))))
      (λ _. 0)

-- Every string is one character.
abbrev pub one_character : Utf16
one_character = record { utf8_size = λ b. some 1; to_utf8 = λ b n. some (b 0 ∷ []) }

abbrev pub host : Host Script
host = record {
  usb = unit_device;
  libs = libraries;
  hs = libnx_sessions;
  utf16 = one_character;
  context_size = 0x98;
  heap = λ _. 0;
  fuel = 3;
  rounds = 3;
}

abbrev pub empty_drive : Drive
empty_drive = record {
  context = closed_drive;
  vid = 0;
  pid = 0;
  manufacturer = none;
  product_name = none;
  serial_number = none;
  max_lun = 0;
  lun_ctx = none;
}
