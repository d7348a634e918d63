-- ===== src/Packets.antt =====
-- usb_common.h and source/usbhsfs_request.c: setup packets, and what the code reads in replies.
use Prim.Native.Nat.{bit_or}
use libusbhsfs.Base.{
  ℕ, zero, suc, ◌+◌, ◌-◌, ◌*◌, ◌%◌, Bool, true, not, ◌&&◌, ◌||◌, ◌==◌, ltb, if◌then◌else◌,
}
use libusbhsfs.Bytes.{Buf, load_le16, memcpy, shift}
use libusbhsfs.Usb.{Result, success, libnx, bad_usb_comms_read, io_error, failed, Setup, CtrlReply}

-- Values of the USB standard, and those of usb_common.h.
abbrev pub endpoint_in : ℕ
endpoint_in = 0x80

abbrev pub endpoint_out : ℕ
endpoint_out = 0

abbrev pub request_type_standard : ℕ
request_type_standard = 0

abbrev pub request_type_class : ℕ
request_type_class = 0x20

abbrev pub recipient_device : ℕ
recipient_device = 0

abbrev pub recipient_interface : ℕ
recipient_interface = 1

abbrev pub recipient_endpoint : ℕ
recipient_endpoint = 2

abbrev pub request_bot_get_max_lun : ℕ
request_bot_get_max_lun = 0xfe

abbrev pub request_bot_reset : ℕ
request_bot_reset = 0xff

abbrev pub ums_max_lun : ℕ
ums_max_lun = 16

abbrev pub dt_config : ℕ
dt_config = 2

abbrev pub dt_string : ℕ
dt_string = 3

-- sizeof(struct usb_config_descriptor) and sizeof(struct _usb_string_descriptor).
abbrev pub config_descriptor_size : ℕ
config_descriptor_size = 9

abbrev pub string_descriptor_size : ℕ
string_descriptor_size = 2 + 2 * 0x7e

-- In nanoseconds.
abbrev pub postbuffer_timeout : ℕ
postbuffer_timeout = 10000000000

abbrev pub request_type : ℕ → ℕ → ℕ → ℕ
request_type direction type recipient = bit_or (bit_or direction type) recipient

abbrev pub setup : ℕ → ℕ → ℕ → ℕ → ℕ → Setup
setup t r v i l = record { request_type = t; request = r; value = v; index = i; length = l }

-- A transfer's result and the caller's `*xfer_size` after it.
pub record Xfer : Type 0 where
  pub rc : Result
  pub size : ℕ

abbrev pub xfer : Result → ℕ → Xfer
xfer rc size = record { rc = rc; size = size }

-- `*max_lun + 1` in a u8, and the fallback to one unit.
unfoldable pub max_lun_of_reply : ℕ → ℕ
max_lun_of_reply b = let n = (b + 1) % 256 in if ltb ums_max_lun n then 1 else n

-- memcmp(a, b, n) == 0.
unfoldable pub same_bytes : ℕ → Buf → Buf → Bool
same_bytes zero a b = true
same_bytes (suc n) a b = (a n == b n) && same_bytes n a b

unfoldable pub same_descriptor : Buf → Buf → Result
unfolding same_bytes
same_descriptor a b = if same_bytes config_descriptor_size a b then success else libnx io_error

-- wTotalLength, and whether the minimal configuration descriptor is a descriptor.
abbrev pub total_length : Buf → ℕ
total_length b = load_le16 b 2

unfoldable pub is_config_descriptor : Buf → Bool
is_config_descriptor b =
    (b 0 == config_descriptor_size) && (b 1 == dt_config) && ltb (b 0) (total_length b)

-- The string descriptor's data: two bytes less, in memory that calloc() has cleared.
unfoldable pub string_data : Buf → ℕ → Buf
unfolding memcpy shift
string_data desc size = memcpy (λ _. 0) 0 (shift 2 desc) (size - 2)

-- What a string request makes of the transfer's result.
unfoldable pub check_string_reply : CtrlReply → Result
check_string_reply r =
    if failed r.rc
    then r.rc
    else if (r.size == 0) || not (r.size % 2 == 0)
    then libnx bad_usb_comms_read
    else if not (r.reply 0 == r.size) || not (r.reply 1 == dt_string)
    then libnx io_error
    else success

-- What a request for exactly `len` bytes makes of the transfer's result.
unfoldable pub check_reply : ℕ → CtrlReply → Result
check_reply len r =
    if failed r.rc then r.rc else if not (r.size == len) then libnx bad_usb_comms_read else success

-- The setup packet of a GET_DESCRIPTOR request.
abbrev pub descriptor_setup : ℕ → ℕ → ℕ → Setup
descriptor_setup desc index len =
    setup (request_type endpoint_in request_type_standard recipient_device) 6 desc index len
