-- ===== src/Drive/Strings.antt =====
-- source/usbhsfs_drive.c: usbHsFsDriveGetDeviceStrings() and
-- usbHsFsDriveGetUtf8StringFromStringDescriptor().
pub mod Memory
use libusbhsfs.Base.{
  ℕ, zero, suc, ◌+◌, ◌/◌, Bool, not, ◌&&◌, ◌||◌, List, [], ◌∷◌, Option, none, some, ◌==◌,
  if◌then◌else◌,
}
use libusbhsfs.Bytes.{Buf, load_le16}
use libusbhsfs.Usb.{IfSession, Usb, Io, ◌>>=◌, ◌>>◌, pure, failed, alloc, free}
use libusbhsfs.Request.{get_string_descriptor}
use libusbhsfs.Drive.Interface.{DeviceDescriptor}

-- USB_LANGID_ENUS.
abbrev pub langid_enus : ℕ
langid_enus = 0x409

-- The loop over the ids of the supported languages: English, or the last id if the loop gets there.
unfoldable pub select_language : List ℕ → ℕ
select_language [] = langid_enus
select_language (id ∷ ids) =
    let rest = select_language ids in
    if id == 0 then rest else if id == langid_enus then langid_enus else last_or id rest ids
  where
    last_or : ℕ → ℕ → List ℕ → ℕ
    last_or id rest [] = id
    last_or id rest (x ∷ xs) = rest

-- `n` numbers of 16 bits at `off`.
unfoldable pub u16_list : Buf → ℕ → ℕ → List ℕ
u16_list b off zero = []
u16_list b off (suc n) = load_le16 b off ∷ u16_list b (off + 2) n

-- utf16_to_utf8() of libnx: the number of bytes that a string takes, and the string of at most so
-- many. `none` is a number that is not positive.
pub record Utf16 : Type 0 where
  pub utf8_size : Buf → Option ℕ
  pub to_utf8 : Buf → ℕ → Option (List ℕ)

module _ {W : Type 0} (usb : Usb W) (utf16 : Utf16) where
  -- From the string descriptor's data on, which is freed.
  unfoldable pub convert_string : Buf → Io W (Option (List ℕ))
  unfolding alloc free
  convert_string string_data = elim (utf16.utf8_size string_data) [
    | none ↦ (free usb >> pure none)
    | some units ↦
        (alloc usb (units + 1) >>= λ has_str.
        if not has_str then (free usb >> pure none) else elim (utf16.to_utf8 string_data units) [
          | none ↦ (free usb >> (free usb >> pure none))
          | some str ↦ (free usb >> pure (some str))
        ])
  ]

  unfoldable pub get_utf8_string : IfSession → ℕ → ℕ → Io W (Option (List ℕ))
  get_utf8_string ses idx lang_id =
      if not ses.active || (idx == 0) || (lang_id == 0) then pure none else do
        (rc, out) ← get_string_descriptor usb ses idx lang_id
        elim out [ none ↦ pure none | some (string_data, size) ↦ convert_string string_data ]

  -- The three strings, from the string descriptor that holds the language ids on, which is freed.
  unfoldable pub read_strings :
      IfSession
      → DeviceDescriptor
      → Option (Buf × ℕ)
      → Io W (Option (List ℕ) × Option (List ℕ) × Option (List ℕ))
  unfolding free
  read_strings ses device none = pure (none, none, none)
  read_strings ses device (some (lang_ids, size)) =
      let lang_id = select_language (u16_list lang_ids 0 (size / 2)) in
      (free usb >> (do
        manufacturer ← get_utf8_string ses device.manufacturer_index lang_id
        product_name ← get_utf8_string ses device.product_name_index lang_id
        serial_number ← get_utf8_string ses device.serial_number_index lang_id
        pure (manufacturer, product_name, serial_number)))

  unfoldable pub get_device_strings :
      IfSession → DeviceDescriptor → Io W (Option (List ℕ) × Option (List ℕ) × Option (List ℕ))
  get_device_strings ses device =
      if not ses.active
        || ((device.manufacturer_index == 0)
            && (device.product_name_index == 0)
            && (device.serial_number_index == 0))
      then pure (none, none, none)
      else do (rc, out) ← get_string_descriptor usb ses 0 0; read_strings ses device out
