-- ===== src/Mount/Devoptab/Default.antt =====
-- The default device: usbHsFsMountSetDefaultDevoptabDevice() of source/usbhsfs_mount.c.
use libusbhsfs.Base.{
  ℕ, ◌≡◌, ◌⊎◌, inl, inr, true, List, [], Option, none, some, false, arith, Bool-cases, Option-cases,
}
use libusbhsfs.Usb.{DriveContext, Usb}
use libusbhsfs.Scsi.Lun.{LogicalUnitContext}
use libusbhsfs.Mount.Context.{FileSystemContext, is_valid_file_system_context}
use libusbhsfs.Mount.Monad.{MountState, Libs}
use libusbhsfs.Mount.Devoptab.{set_default_devoptab_device, with_colon}

-- The name by which the library is asked for the device of a context.
abbrev pub name_of : FileSystemContext → List ℕ
name_of c = with_colon (elim c.name [ none ↦ [] | some name ↦ name ])

-- The call of the library by which the device of `c` becomes the default one, and the noted id.
abbrev pub switched : {W : Type 0} → Libs W → FileSystemContext → ℕ → MountState W → MountState W
switched libs c device s = record s {
  drive = record s.drive { world = libs.set_default_device (some device) s.drive.world };
  default_device_id = c.device_id;
}

-- Nothing was changed, or just the default device of the library and the noted id.
pub record IsDefault {W : Type 0} (libs : Libs W) (c : FileSystemContext) (s s' : MountState W)
    : Type 0 where
  pub is_default : libs.default_device_is c s'.drive.world ≡ true
  pub changes :
      (s' ≡ s)
      ⊎ ((device : ℕ) × (libs.find_device (name_of c) s.drive.world ≡ some device)
          × (s' ≡ switched libs c device s))

module _ {W : Type 0} (usb : Usb W) (libs : Libs W) (d : DriveContext) (l : LogicalUnitContext)
    (c : FileSystemContext) (s : MountState W) where
  abbrev known : Option ℕ
  known = libs.find_device (name_of c) s.drive.world

  switches :
      (device : ℕ)
      → known ≡ some device
      → (libs.default_device_is c s.drive.world ≡ false)
      → (set_default_devoptab_device usb libs d l c s).0 ≡ true
      → (set_default_devoptab_device usb libs d l c s).1 ≡ switched libs c device s
  unfolding set_default_devoptab_device
  switches device e other ok = ground arith

  is_unknown :
      known ≡ none
      → (libs.default_device_is c s.drive.world ≡ false)
      → (set_default_devoptab_device usb libs d l c s).0 ≡ false
  unfolding set_default_devoptab_device
  is_unknown e other = ground arith

  keeps :
      (libs.default_device_is c s.drive.world ≡ true)
      → (set_default_devoptab_device usb libs d l c s).1 ≡ s
  unfolding set_default_devoptab_device
  keeps same = ground arith

  is_valid :
      (set_default_devoptab_device usb libs d l c s).0 ≡ true
      → is_valid_file_system_context d l c ≡ true
  unfolding set_default_devoptab_device
  is_valid ok = ground arith

  becomes_default :
      (set_default_devoptab_device usb libs d l c s).0 ≡ true
      → libs.default_device_is c (set_default_devoptab_device usb libs d l c s).1.drive.world ≡ true
  unfolding set_default_devoptab_device
  becomes_default ok = ground arith

  -- If setting the default device succeeds, the context was valid and its device is the default one,
  -- and either nothing was changed, or the library knows the device by the name of the context and
  -- was told to make it the default one, its id is noted, and nothing else of the state was changed.
  pub set_default_devoptab_device-IsDefault :
      (set_default_devoptab_device usb libs d l c s).0 ≡ true
      → (is_valid_file_system_context d l c ≡ true)
        × IsDefault libs c s (set_default_devoptab_device usb libs d l c s).1
  set_default_devoptab_device-IsDefault ok = (
    is_valid ok,
    record {
      is_default = becomes_default ok;
      changes = elim (Bool-cases (libs.default_device_is c s.drive.world)) [
        | inl e ↦ inl (keeps e)
        | inr e ↦ elim (Option-cases known) [
          | inl f ↦ absurd (cc (ok, is_unknown f e))
          | inr (device, f) ↦ inr (device, f, switches device f e ok)
        ]
      ];
    },
  )
