-- ===== src/Drive/Strings/Memory.antt =====
-- source/usbhsfs_drive.c: what reading a drive's strings leaves allocated.
use libusbhsfs.Base.{
  ℕ, suc, ◌+◌, ◌/◌, ◌≡◌, false, not, ◌||◌, ◌&&◌, List, Option, none, some, ◌==◌, arith, Bool-cases,
  inl, inr,
}
use libusbhsfs.Bytes.{Buf}
use libusbhsfs.Usb.{IfSession, Result, State, Usb, alloc, free}
use libusbhsfs.Request.{get_string_descriptor}
use libusbhsfs.Request.Memory.{owned, request_memory_lem}
use libusbhsfs.Drive.Interface.{DeviceDescriptor}
use libusbhsfs.Drive.Strings.{
  Utf16, select_language, u16_list, convert_string, get_utf8_string, read_strings,
  get_device_strings,
}

module _ {W : Type 0} (usb : Usb W) (utf16 : Utf16) where
  descriptor_live :
      (ses : IfSession) (idx lang : ℕ) (s : State W)
      → (get_string_descriptor usb ses idx lang s).1.live
        ≡ s.live + owned (get_string_descriptor usb ses idx lang s).0.1
  descriptor_live ses idx lang s =
      (request_memory_lem usb ses (record { active = false; address = 0 }) 0 idx lang s).3

  convert_string-live :
      (b : Buf) (s : State W) (n : ℕ)
      → s.live ≡ suc n
      → (convert_string usb utf16 b s).1.live ≡ n + owned (convert_string usb utf16 b s).0
  unfolding convert_string alloc free
  convert_string-live b s n e = ground arith

  get_utf8_string-live :
      (ses : IfSession) (idx lang : ℕ) (s : State W)
      → (get_utf8_string usb utf16 ses idx lang s).1.live
        ≡ s.live + owned (get_utf8_string usb utf16 ses idx lang s).0
  unfolding get_utf8_string
  get_utf8_string-live ses idx lang s =
      let r = get_string_descriptor usb ses idx lang s in
      elim (Bool-cases (not ses.active || (idx == 0) || (lang == 0))) [
        | inl e ↦ rw e (omega arith)
        | inr e ↦ rw e (of_descriptor r (descriptor_live ses idx lang s))
      ]
    where
      of_descriptor :
          (r : (Result × Option (Buf × ℕ)) × State W)
          → r.1.live ≡ s.live + owned r.0.1
          → let c = elim r.0.1 as (λ _. State W → Option (List ℕ) × State W) [
            | none ↦ (λ t. (none, t))
            | some (b, size) ↦ convert_string usb utf16 b
          ] in
            (c r.1).1.live ≡ s.live + owned (c r.1).0
      of_descriptor ((rc, none), t) e = e
      of_descriptor ((rc, some (b, size)), t) e = convert_string-live b t s.live (omega (arith, e))

  read_strings-live :
      (ses : IfSession) (device : DeviceDescriptor) (out : Option (Buf × ℕ)) (s : State W) (n : ℕ)
      → s.live ≡ n + owned out
      → let r = read_strings usb utf16 ses device out s in
        r.1.live ≡ n + owned r.0.0 + owned r.0.1 + owned r.0.2
  unfolding read_strings free
  read_strings-live ses device none s n e = omega (arith, e)
  read_strings-live ses device (some (lang_ids, size)) s n e =
      let lang = select_language (u16_list lang_ids 0 (size / 2)) in
      let t1 = (free usb s).1 in
      let r1 = get_utf8_string usb utf16 ses device.manufacturer_index lang t1 in
      let r2 = get_utf8_string usb utf16 ses device.product_name_index lang r1.1 in
      let e1 = get_utf8_string-live ses device.manufacturer_index lang t1 in
      let e2 = get_utf8_string-live ses device.product_name_index lang r1.1 in
      let e3 = get_utf8_string-live ses device.serial_number_index lang r2.1 in
      omega (arith, e, e1, e2, e3)

  -- Reading the strings of a drive leaves nothing allocated but the strings that it returns, on
  -- every path.
  pub get_device_strings-live :
      (ses : IfSession) (device : DeviceDescriptor) (s : State W)
      → let r = get_device_strings usb utf16 ses device s in
        r.1.live ≡ s.live + owned r.0.0 + owned r.0.1 + owned r.0.2
  unfolding get_device_strings
  get_device_strings-live ses device s =
      let r = get_string_descriptor usb ses 0 0 s in
      let refused =
        not ses.active
        || ((device.manufacturer_index == 0)
            && (device.product_name_index == 0)
            && (device.serial_number_index == 0)) in
      elim (Bool-cases refused) [
        | inl e ↦ rw e (omega arith)
        | inr e ↦ rw e (read_strings-live ses device r.0.1 r.1 s.live (descriptor_live ses 0 0 s))
      ]
