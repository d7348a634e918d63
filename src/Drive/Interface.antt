-- ===== src/Drive/Interface.antt =====
-- source/usbhsfs_drive.c, libnx: the interface that a drive is on, the endpoints that it offers, and
-- usbHsFsDriveChangeInterfaceDescriptor().
use libusbhsfs.Base.{ℕ, Bool, true, false, not, ◌&&◌, List, ◌==◌, if◌then◌else◌}
use libusbhsfs.Bytes.{Buf}
use libusbhsfs.Usb.{Result, failed, IfSession, EpSession, Io, ◌>>=◌, pure, service}

-- The fields of `struct usb_endpoint_descriptor` that are read.
pub record EndpointDescriptor : Type 0 where
  pub length : ℕ
  pub address : ℕ
  pub attributes : ℕ
  pub max_packet_size : ℕ

-- The fields of `struct usb_device_descriptor` that are read: the ids, and the indexes of strings.
pub record DeviceDescriptor : Type 0 where
  pub vendor : ℕ
  pub product : ℕ
  pub manufacturer_index : ℕ
  pub product_name_index : ℕ
  pub serial_number_index : ℕ

-- The interface of the session: `descriptor` is its descriptor of 9 bytes, `inputs` and `outputs`
-- are the 15 endpoint descriptors of each direction. The descriptor's fields 2, 3 and 7 are its
-- number, its alternate setting and its protocol.
pub record Interface : Type 0 where
  pub session : IfSession
  pub device : DeviceDescriptor
  pub descriptor : Buf
  pub inputs : List EndpointDescriptor
  pub outputs : List EndpointDescriptor

abbrev pub interface_number : Buf → ℕ
interface_number descriptor = descriptor 2

abbrev pub alternate_setting : Buf → ℕ
alternate_setting descriptor = descriptor 3

abbrev pub num_endpoints : Buf → ℕ
num_endpoints descriptor = descriptor 4

abbrev pub interface_protocol : Buf → ℕ
interface_protocol descriptor = descriptor 7

-- USB_PROTOCOL_BULK_ONLY_TRANSPORT and USB_PROTOCOL_USB_ATTACHED_SCSI.
abbrev pub bulk_only_transport : ℕ
bulk_only_transport = 0x50

abbrev pub usb_attached_scsi : ℕ
usb_attached_scsi = 0x62

-- The calls of libnx on sessions. Those that fail may change what they are given too.
pub record Hs (W : Type 0) : Type 0 where
  -- usbHsAcquireUsbIf of the interface that was found, and usbHsIfClose.
  pub acquire_usb_if : Interface → W → (Result × Interface) × W
  pub if_close : IfSession → W → IfSession × W
  -- usbHsIfSetInterface and usbHsIfGetAlternateInterface of a number.
  pub if_set_interface : ℕ → Interface → W → (Result × Interface) × W
  pub if_get_alternate_interface : ℕ → Interface → W → (Result × Interface) × W
  -- usbHsIfOpenUsbEp of a descriptor, and usbHsEpClose.
  pub if_open_usb_ep : Interface → EndpointDescriptor → EpSession → W → (Result × EpSession) × W
  pub ep_close : EpSession → W → EpSession × W

module _ {W : Type 0} (hs : Hs W) where
  -- usbHsIfGetAlternateInterface(), if the setting is another one.
  unfoldable pub change_alternate_setting : ℕ → ℕ → Interface → Io W (Bool × Interface)
  change_alternate_setting new_setting cur_setting i =
      if new_setting == cur_setting then pure (true, i) else do
        (rc, i') ← service (hs.if_get_alternate_interface new_setting i)
        pure (not (failed rc), i')

  -- The current numbers are those before the first call.
  unfoldable pub change_interface_descriptor : Interface → Buf → Io W (Bool × Interface)
  unfolding change_alternate_setting
  change_interface_descriptor i new =
      let cur_num = interface_number i.descriptor in
      let cur_setting = alternate_setting i.descriptor in
      if not i.session.active
      then pure (false, i)
      else if (interface_number new == cur_num) && (alternate_setting new == cur_setting)
      then pure (true, i)
      else if interface_number new == cur_num
      then change_alternate_setting (alternate_setting new) cur_setting i
      else do
        (rc, i') ← service (hs.if_set_interface (interface_number new) i)
        if failed rc
            then pure (false, i')
            else change_alternate_setting (alternate_setting new) cur_setting i'
