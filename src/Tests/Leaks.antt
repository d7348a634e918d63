-- ===== src/Tests/Leaks.antt =====
-- A drive whose descriptors name the same pipe four times.
use libusbhsfs.Base.{ℕ, ◌+◌, ◌-◌, ◌≡◌, refl, true, false, List, [], ◌∷◌, ◌++◌, if◌then◌else◌}
use libusbhsfs.Bytes.{Buf, store_list, shift}
use libusbhsfs.Usb.{Usb, success, alloc, ctrl_xfer, free}
use libusbhsfs.Drive.Interface.{Hs, change_interface_descriptor, change_alternate_setting}
use libusbhsfs.Request.{get_configuration_descriptor, get_full_configuration_descriptor}
use libusbhsfs.Packets.{check_reply, is_config_descriptor, same_bytes, same_descriptor}
use libusbhsfs.Drive.Endpoints.{
  look_through, parse_interfaces, is_bad_descriptor, is_uasp_interface, setup_endpoint_descriptors,
  end_setup, parse_endpoints, is_skipped, pipe_fits, get_endpoint_session, open_first, is_wanted,
  fall_back, same_9_bytes, close_slot, close_slots, setup_interface_and_endpoint_descriptors,
}
use libusbhsfs.Drive.Endpoints.Opened.{IsHs}
use libusbhsfs.Drive.Endpoints.Counts.{Counts}
use libusbhsfs.Drive.Endpoints.Sessions.{
  sessions_in_use, setup_interface_and_endpoint_descriptors-IsAccounted,
}
use libusbhsfs.Tests.Device.{Script, scripted, one_read, start}
use libusbhsfs.Tests.Sessions.{libnx_sessions, interface, closed_drive, closed_drive-IsActive}

-- The world counts the open sessions and the lost ones.
abbrev counted_sessions : Hs Script
counted_sessions = record libnx_sessions {
  if_open_usb_ep = λ i e ep w. (
    (success, record { active = true; address = e.address }),
    (w.0 + 1, w.1 + (if ep.active then 1 else 0)),
  );
  ep_close = λ ep w. (record ep { active = false }, (w.0 - 1, w.1));
}

-- Endpoint 1, to the host, as the pipe for data.
abbrev data_in : List ℕ
data_in = 7 ∷ (5 ∷ (129 ∷ (2 ∷ (0 ∷ (2 ∷ (0 ∷ (4 ∷ (36 ∷ (3 ∷ (0 ∷ []))))))))))

abbrev uasp_setting : List ℕ
uasp_setting = 9 ∷ (4 ∷ (0 ∷ (1 ∷ (4 ∷ (8 ∷ (6 ∷ (98 ∷ (0 ∷ []))))))))

abbrev header : List ℕ
header = 9 ∷ (2 ∷ (62 ∷ (0 ∷ (1 ∷ (1 ∷ (0 ∷ (0 ∷ (0 ∷ []))))))))

abbrev same_pipes : Buf
same_pipes =
    store_list (header ++ uasp_setting ++ data_in ++ data_in ++ data_in ++ data_in) (λ _. 0)

abbrev offering : Usb Script
offering = record (scripted one_read) {
  if_ctrl_xfer = λ setup w. (record { rc = success; reply = same_pipes; size = setup.length }, w);
}

counted_sessions-IsHs : IsHs counted_sessions
counted_sessions-IsHs = record {
  opens = λ i e ep w ok. refl;
  closes_interface = λ ses w. refl;
  closes = λ ep w. refl;
}

counted_sessions-Counts : Counts counted_sessions offering (λ w. w.0) (λ w. w.1)
counted_sessions-Counts = record {
  opens = λ i e ep w ok. (refl, refl);
  refuses = λ i e ep w fails. absurd (cc (fails));
  closes = λ ep w active. (refl, refl);
  sets = λ n i w. (refl, refl);
  alternates = λ n i w. (refl, refl);
  transfers = λ setup w. (refl, refl);
  allocates = λ n w. (refl, refl);
}

setup_interface_and_endpoint_descriptors-IsAccounted_example :
    let r =
      setup_interface_and_endpoint_descriptors counted_sessions offering interface closed_drive
        start in
    r.1.world.0 + 0 ≡ 0 + sessions_in_use r.0.0 r.0.1 + r.1.world.1
setup_interface_and_endpoint_descriptors-IsAccounted_example =
    setup_interface_and_endpoint_descriptors-IsAccounted counted_sessions offering (λ w. w.0)
      (λ w. w.1) counted_sessions-IsHs counted_sessions-Counts interface closed_drive start
      closed_drive-IsActive

-- The setup fails, and three sessions that were lost stay open.
world_behind :
    (setup_interface_and_endpoint_descriptors counted_sessions offering interface closed_drive
      start).1.world
    ≡ (3, 3)
unfolding setup_interface_and_endpoint_descriptors look_through get_configuration_descriptor
    store_list parse_interfaces is_bad_descriptor is_uasp_interface shift
    change_interface_descriptor setup_endpoint_descriptors end_setup parse_endpoints is_skipped
    pipe_fits get_endpoint_session open_first is_wanted fall_back same_9_bytes close_slot
    close_slots change_alternate_setting check_reply is_config_descriptor same_bytes same_descriptor
    get_full_configuration_descriptor alloc ctrl_xfer free
world_behind = refl
