-- ===== src/Tests/Drives.antt =====
-- The setup of drives at concrete inputs.
use libusbhsfs.Base.{◌+◌, ◌≡◌, refl, true, [], ◌∷◌, arith}
use libusbhsfs.Bytes.{store_list, shift}
use libusbhsfs.Request.Memory.{owned}
use libusbhsfs.Drive.Interface.{change_alternate_setting, change_interface_descriptor}
use libusbhsfs.Drive.Endpoints.{
  is_wanted, pipe_fits, is_skipped, is_bad_descriptor, same_9_bytes, is_uasp_interface, all_active,
  open_first, get_endpoint_session, parse_endpoints, end_setup, setup_endpoint_descriptors,
  parse_interfaces, setup_interface_and_endpoint_descriptors,
}
use libusbhsfs.Drive.Endpoints.Settled.{
  IsSetDrive, setup_interface_and_endpoint_descriptors-IsSettled,
}
use libusbhsfs.Drive.Endpoints.Enough.{parse_interfaces_enough}
use libusbhsfs.Drive.Strings.{select_language, get_device_strings}
use libusbhsfs.Drive.Strings.Memory.{get_device_strings-live}
use libusbhsfs.Drive.Units.Rules.{Then}
use libusbhsfs.Drive.Context.{initialize_context}
use libusbhsfs.Drive.Context.Outcome.{IsInitialized, initialize_context-IsInitialized}
use libusbhsfs.Tests.Device.{scripted, one_read, session, start}
use libusbhsfs.Tests.Libraries.{no_volumes}
use libusbhsfs.Tests.Sessions.{
  one_character, host, empty_drive, libnx_sessions, libnx_sessions-IsHs, interface, closed_drive,
  closed_drive-IsActive, configuration,
}

setup_interface_and_endpoint_descriptors-IsSettled_example : IsSetDrive (
    setup_interface_and_endpoint_descriptors libnx_sessions
      (scripted one_read)
      interface
      closed_drive
      start)
setup_interface_and_endpoint_descriptors-IsSettled_example =
    setup_interface_and_endpoint_descriptors-IsSettled libnx_sessions libnx_sessions-IsHs
      (scripted one_read) interface closed_drive start closed_drive-IsActive

finds_four_endpoints :
    let r =
      parse_interfaces libnx_sessions interface.descriptor configuration 85 85 0 interface
        closed_drive start in
    (r.0.0 ≡ true) × (all_active r.0.2 ≡ true)
unfolding parse_interfaces parse_endpoints setup_endpoint_descriptors end_setup get_endpoint_session
    open_first is_wanted pipe_fits is_skipped is_bad_descriptor same_9_bytes is_uasp_interface
    change_interface_descriptor change_alternate_setting store_list shift
finds_four_endpoints = (refl, refl)

parse_interfaces_enough_example :
    parse_interfaces libnx_sessions interface.descriptor configuration 85 1000 0 interface
      closed_drive start
    ≡ parse_interfaces libnx_sessions interface.descriptor configuration 85 85 0 interface
        closed_drive start
parse_interfaces_enough_example =
    parse_interfaces_enough libnx_sessions interface.descriptor configuration 85 85 1000 0 interface
      closed_drive start (omega arith) (omega arith)

-- A drive with German only, behind which there is a 0.
falls_back_to_english : select_language (0x407 ∷ (0 ∷ [])) ≡ 0x409
unfolding select_language
falls_back_to_english = refl

get_device_strings-live_example :
    let r = get_device_strings (scripted one_read) one_character session interface.device start in
    r.1.live ≡ start.live + owned r.0.0 + owned r.0.1 + owned r.0.2
get_device_strings-live_example =
    get_device_strings-live (scripted one_read) one_character session interface.device start

initialize_context-IsInitialized_example :
    Then (λ r _. IsInitialized r.0 r.1) (initialize_context host interface empty_drive no_volumes)
initialize_context-IsInitialized_example =
    initialize_context-IsInitialized host libnx_sessions-IsHs interface empty_drive no_volumes
      closed_drive-IsActive
