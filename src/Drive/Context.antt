-- ===== src/Drive/Context.antt =====
-- source/usbhsfs_drive.c: usbHsFsDriveInitializeContext() and usbHsFsDriveDestroyContext().
pub mod Gone
pub mod Outcome
pub mod Returns
use libusbhsfs.Base.{
  ℕ, ◌+◌, ◌*◌, Bool, true, false, not, ◌&&◌, List, [], ◌∷◌, Option, none, some, ◌==◌, ltb,
  if◌then◌else◌, length,
}
use libusbhsfs.Bytes.{Buf}
use libusbhsfs.Usb.{
  DriveContext, EpSession, IfSession, Result, libnx, failed, Usb, Io, service, alloc, free,
}
use libusbhsfs.Request.{get_max_logical_units}
use libusbhsfs.Scsi.Transfer.{xfer_buf_size, clear_stall_status}
use libusbhsfs.Mount.Monad.{MountState, Libs, io}
use libusbhsfs.Mount.Probe.{Probe, ◌>>=◌, ◌>>◌, pure, mnt}
use libusbhsfs.Drive.Interface.{Interface, Hs, interface_protocol, usb_attached_scsi}
use libusbhsfs.Drive.Endpoints.{close_slots, setup_interface_and_endpoint_descriptors}
use libusbhsfs.Drive.Strings.{Utf16, get_device_strings}
use libusbhsfs.Drive.Units.{StoredUnit, Units, prepare_units, destroy_units}

-- `UsbHsFsDriveContext`. `lun_ctx` is `none` if the array is not allocated, and `lun_count` is the
-- length of the list.
pub record Drive : Type 0 where
  pub context : DriveContext
  pub vid : ℕ
  pub pid : ℕ
  pub manufacturer : Option (List ℕ)
  pub product_name : Option (List ℕ)
  pub serial_number : Option (List ℕ)
  pub max_lun : ℕ
  pub lun_ctx : Option (List StoredUnit)

-- R_MODULE(rc) == Module_Libnx.
abbrev pub is_libnx_error : Result → Bool
is_libnx_error (libnx e) = true
is_libnx_error _ = false

-- What the library passes on to the drive: libnx's sessions, strings, sizes and random contents of
-- allocated memory. `rounds` bounds the chains of extended boot records.
pub record Host (W : Type 0) : Type 0 where
  pub usb : Usb W
  pub libs : Libs W
  pub hs : Hs W
  pub utf16 : Utf16
  pub context_size : ℕ
  pub heap : Buf
  pub fuel : ℕ
  pub rounds : ℕ

module _ {W : Type 0} (h : Host W) where
  -- free() of a string, if there is one.
  unfoldable pub free_string : Option (List ℕ) → Probe W (Unit {0})
  unfolding free
  free_string none = pure tt
  free_string (some str) = mnt (io (free h.usb))

  unfoldable pub free_units : Bool → Drive → Probe W (Unit {0})
  unfolding free
  free_units stop_lun drive = elim drive.lun_ctx [
    | none ↦ pure tt
    | some us ↦
        (destroy_units h.usb h.libs drive.context h.fuel stop_lun us >> mnt (io (free h.usb)))
  ]

  -- The endpoint sessions and the interface session, if they are active.
  unfoldable pub close_sessions : DriveContext → Probe W DriveContext
  close_sessions d = do
    d' ← mnt (io (close_slots h.hs d))
    if not d'.if_session.active then pure d' else do
      ses ← mnt (io (service (h.hs.if_close d'.if_session)))
      pure (record d' { if_session = ses })

  unfoldable pub destroy_context : Bool → Drive → Probe W Drive
  unfolding free
  destroy_context stop_lun drive = do
    free_units stop_lun drive
    free_string drive.manufacturer
    free_string drive.product_name
    free_string drive.serial_number
    d ← close_sessions drive.context
    (if d.has_xfer_buf then mnt (io (free h.usb)) else pure tt)
    pure (record drive {
      context = record d { has_xfer_buf = false };
      manufacturer = none;
      product_name = none;
      serial_number = none;
      lun_ctx = none;
    })

  -- The end of usbHsFsDriveInitializeContext() when something went wrong.
  unfoldable pub give_up : Drive → Probe W (Bool × Drive)
  give_up drive = do drive' ← destroy_context true drive; pure (false, drive')

  -- Its end behind the loop over the units.
  unfoldable pub finish_units : Drive → Bool × Units → Probe W (Bool × Drive)
  unfolding free
  finish_units drive (to_end, us) =
      let with_units = record drive { lun_ctx = some us.counted } in
      if not to_end
      then give_up with_units
      else if length us.counted == 0
      then (elim us.spare [ none ↦ pure tt | some l ↦ mnt (io (free h.usb)) ] >> give_up with_units)
      else if ltb (length us.counted) drive.max_lun
      then (mnt (io (service (h.usb.allocate (length us.counted * 8)))) >>= λ _.
          pure (true, with_units))
      else pure (true, with_units)

  -- GET MAX LUN, with a single unit as the fallback.
  unfoldable pub find_max_lun : DriveContext → Io W ℕ
  find_max_lun d s =
      let r = get_max_logical_units h.usb d.if_session s in
      elim r.0.1 [
        | some max ↦ (max, r.1)
        | none ↦ (1, (if is_libnx_error r.0.0 then r.1 else (clear_stall_status h.usb d r.1).1))
      ]

  -- The array of LUN contexts is allocated and filled; not for USB Attached SCSI.
  unfoldable pub prepare_lun_contexts : Drive → Probe W (Bool × Drive)
  unfolding alloc
  prepare_lun_contexts drive = if drive.context.uasp then give_up drive else do
    has_array ← mnt (io (alloc h.usb (drive.max_lun * 8)))
    if not has_array then give_up drive else do
      r ←
          prepare_units h.usb h.libs drive.context h.fuel h.context_size h.rounds h.heap 0
            drive.max_lun (record { counted = []; spare = none })
      finish_units drive r

  -- Behind the setup of the interface.
  unfoldable pub prepare_drive : Interface → Drive → Probe W (Bool × Drive)
  prepare_drive i drive = do
    (manufacturer, product_name, serial_number) ←
        mnt (io (get_device_strings h.usb h.utf16 i.session i.device))
    let uasp = interface_protocol i.descriptor == usb_attached_scsi
    let d = record drive.context { uasp = uasp }
    max_lun ← mnt (io (find_max_lun d))
    prepare_lun_contexts (record drive {
      context = d;
      vid = i.device.vendor;
      pid = i.device.product;
      manufacturer = manufacturer;
      product_name = product_name;
      serial_number = serial_number;
      max_lun = max_lun;
    })

  -- From the setup of the interface on.
  unfoldable pub set_up_drive : Interface → Drive → Probe W (Bool × Drive)
  set_up_drive i drive = do
    (ok, i', d) ← mnt (io (setup_interface_and_endpoint_descriptors h.hs h.usb i drive.context))
    let drive' = record drive { context = record d { if_session = i'.session } }
    if ok then prepare_drive i' drive' else give_up drive'

  -- `i` is the interface that was found, and `drive` is empty.
  unfoldable pub initialize_context : Interface → Drive → Probe W (Bool × Drive)
  unfolding alloc
  initialize_context i drive = do
    has_buf ← mnt (io (alloc h.usb xfer_buf_size))
    if not has_buf then give_up drive else do
      (rc, i') ← mnt (io (service (h.hs.acquire_usb_if i)))
      let d = record drive.context { has_xfer_buf = true; if_session = i'.session }
      let drive' = record drive { context = d }
      if failed rc then give_up drive' else set_up_drive i' drive'
