-- ===== src/Drive/Descriptors.antt =====
-- source/usbhsfs_drive.c, source/usb_common.h: the tests of the descriptors in a configuration, and
-- the endpoint sessions of a drive.
use libusbhsfs.Base.{
  ℕ, zero, suc, ◌+◌, ◌*◌, ◌/◌, ◌%◌, ◌^◌, Bool, true, not, ◌&&◌, ◌||◌, Option, none, some, ◌==◌, ltb,
  if◌then◌else◌,
}
use libusbhsfs.Bytes.{Buf, shift}
use libusbhsfs.Usb.{DriveContext, EpSession}
use libusbhsfs.Drive.Interface.{
  EndpointDescriptor, interface_protocol, num_endpoints, usb_attached_scsi,
}

-- USB_DT_INTERFACE, USB_DT_ENDPOINT and USB_DT_PIPE_USAGE, and the sizes of these descriptors.
abbrev pub dt_interface : ℕ
dt_interface = 4

abbrev pub dt_endpoint : ℕ
dt_endpoint = 5

abbrev pub dt_pipe_usage : ℕ
dt_pipe_usage = 0x24

abbrev pub interface_descriptor_size : ℕ
interface_descriptor_size = 9

abbrev pub endpoint_descriptor_size : ℕ
endpoint_descriptor_size = 7

abbrev pub pipe_usage_descriptor_size : ℕ
pipe_usage_descriptor_size = 4

-- A configuration, an interface, and four endpoints with their pipe usages.
abbrev pub min_config_size : ℕ
min_config_size = 9 + 9 + (endpoint_descriptor_size + pipe_usage_descriptor_size) * 4

-- USB_PIPE_USAGE_ID_*.
abbrev pub pipe_cmd : ℕ
pipe_cmd = 1

abbrev pub pipe_sts : ℕ
pipe_sts = 2

abbrev pub pipe_data_in : ℕ
pipe_data_in = 3

abbrev pub pipe_data_out : ℕ
pipe_data_out = 4

-- `address & USB_ENDPOINT_IN`.
abbrev pub is_input : ℕ → Bool
is_input address = address / 2 ^ 7 % 2 == 1

-- The four endpoint sessions of a drive.
pub data Slot : Type 0 where
  in_1 out_1 in_2 out_2 : Slot

abbrev pub slot : Slot → DriveContext → EpSession
slot in_1 d = d.in_ep_1
slot out_1 d = d.out_ep_1
slot in_2 d = d.in_ep_2
slot out_2 d = d.out_ep_2

abbrev pub set_slot : Slot → EpSession → DriveContext → DriveContext
set_slot in_1 ep d = record d { in_ep_1 = ep }
set_slot out_1 ep d = record d { out_ep_1 = ep }
set_slot in_2 ep d = record d { in_ep_2 = ep }
set_slot out_2 ep d = record d { out_ep_2 = ep }

abbrev pub slot_of : ℕ → Slot
slot_of pipe_id =
    if pipe_id == pipe_cmd
    then out_1
    else if pipe_id == pipe_sts
    then in_1
    else if pipe_id == pipe_data_in
    then in_2
    else out_2

abbrev pub all_active : DriveContext → Bool
all_active d = d.in_ep_1.active && d.out_ep_1.active && d.in_ep_2.active && d.out_ep_2.active

-- An endpoint that is asked for, by its address, or by its direction if `ep_addr` is 0; a bulk one.
unfoldable pub is_wanted : Bool → ℕ → EndpointDescriptor → Bool
is_wanted input ep_addr e =
    not (e.length == 0)
    && (if ep_addr == 0
        then (if input then is_input e.address else not (is_input e.address))
        else e.address == ep_addr)
    && (e.attributes % 4 == 2)

-- Whether the pipe fits the direction of its endpoint.
unfoldable pub pipe_fits : Bool → ℕ → Bool
pipe_fits input pipe_id =
    if input
    then (pipe_id == pipe_sts) || (pipe_id == pipe_data_in)
    else (pipe_id == pipe_cmd) || (pipe_id == pipe_data_out)

-- A descriptor at `off` that is no endpoint where one is looked for, or no pipe usage behind one.
unfoldable pub is_skipped : Buf → ℕ → Option ℕ → Bool
is_skipped config off none =
    not (config (off + 1) == dt_endpoint) || not (config off == endpoint_descriptor_size)
is_skipped config off (some ep) =
    not (config (off + 1) == dt_pipe_usage) || not (config off == pipe_usage_descriptor_size)

-- The test of a descriptor's size: it is 0, or goes beyond the end.
unfoldable pub is_bad_descriptor : Buf → ℕ → ℕ → Bool
is_bad_descriptor config size off = (config off == 0) || ltb size (off + config off)

unfoldable pub same_9_bytes : ℕ → Buf → Buf → Bool
same_9_bytes zero a b = true
same_9_bytes (suc n) a b = (a n == b n) && same_9_bytes n a b

-- A descriptor at `off` of an interface for USB Attached SCSI with four endpoints, which is not the
-- one of the session if that one is of another protocol.
unfoldable pub is_uasp_interface : Buf → Buf → ℕ → Bool
unfolding same_9_bytes
is_uasp_interface orig config off =
    (config (off + 1) == dt_interface)
    && (config off == interface_descriptor_size)
    && not (
        not (interface_protocol orig == usb_attached_scsi)
        && same_9_bytes 9 (shift off config) orig)
    && (interface_protocol (shift off config) == usb_attached_scsi)
    && (num_endpoints (shift off config) == 4)
