-- ===== src/Tests/Requests.antt =====
-- Control requests at concrete replies.
use libusbhsfs.Base.{ℕ, ◌+◌, ◌%◌, ◌≤◌, ◌≡◌, refl, List, [], ◌∷◌, some, ◌==◌, get_or}
use libusbhsfs.Usb.{success, Usb, ctrl_xfer}
use libusbhsfs.Packets.{ums_max_lun}
use libusbhsfs.Request.{
  get_max_logical_units, get_configuration_descriptor, get_string_descriptor, get_endpoint_status,
}
use libusbhsfs.Request.Memory.{
  IsWhole, owned, request_memory_lem, get_configuration_descriptor-IsWhole,
  get_max_logical_units-le,
}
use libusbhsfs.Tests.Device.{Script, session, endpoint, scripted, one_read, start}

-- Every control request is answered in full from these bytes.
abbrev replying : List ℕ → Usb Script
replying bytes = record (scripted one_read) {
  if_ctrl_xfer =
      λ setup w. (record { rc = success; reply = λ i. get_or bytes i 0; size = setup.length }, w);
}

-- A configuration descriptor of 32 bytes.
abbrev config_bytes : List ℕ
config_bytes = 9 ∷ (2 ∷ (32 ∷ []))

two_units : (get_max_logical_units (replying (1 ∷ [])) session start).0.1 ≡ some 2
unfolding get_max_logical_units
two_units = refl

-- The reply 255 gives no unit at all.
no_units : (get_max_logical_units (replying (255 ∷ [])) session start).0.1 ≡ some 0
unfolding get_max_logical_units
no_units = refl

get_max_logical_units-le_example : (2 ≤ ums_max_lun) × ((2 == 0) ≡ (1 % 256 == 255))
unfolding ctrl_xfer
get_max_logical_units-le_example =
    get_max_logical_units-le (replying (1 ∷ [])) session start 2 two_units

config_found :
    (get_configuration_descriptor (replying config_bytes) session 0 start).0.1
    ≡ some (λ i. get_or config_bytes i 0, 32)
unfolding get_configuration_descriptor
config_found = refl

get_configuration_descriptor-IsWhole_example : IsWhole (λ i. get_or config_bytes i 0) 32
get_configuration_descriptor-IsWhole_example =
    get_configuration_descriptor-IsWhole (replying config_bytes) session 0 start
      (λ i. get_or config_bytes i 0) 32 config_found

request_memory_lem_example :
    ((get_max_logical_units (replying config_bytes) session start).1.live ≡ 0)
    × ((get_endpoint_status (replying config_bytes) session (endpoint 0x81) start).1.live ≡ 0)
    × ((get_configuration_descriptor (replying config_bytes) session 0 start).1.live
        ≡ 0 + owned (get_configuration_descriptor (replying config_bytes) session 0 start).0.1)
    × ((get_string_descriptor (replying config_bytes) session 1 0x409 start).1.live
        ≡ 0 + owned (get_string_descriptor (replying config_bytes) session 1 0x409 start).0.1)
request_memory_lem_example =
    request_memory_lem (replying config_bytes) session (endpoint 0x81) 0 1 0x409 start
