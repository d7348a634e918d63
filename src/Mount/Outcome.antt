-- ===== src/Mount/Outcome.antt =====
-- What the registration of a devoptab device leaves behind, whether it succeeds or not.
pub mod Mounted
pub mod OfFat
pub mod NtfsMount
pub mod OfNtfs
pub mod ExtMount
pub mod OfExt
use libusbhsfs.Base.{
  ℕ, suc, ◌+◌, ◌-◌, ◌≡◌, refl, Bool, true, false, not, List, [], ◌∷◌, ◌++◌, Option, none, some,
  ◌==◌, if◌then◌else◌, length, arith,
}
use libusbhsfs.Usb.{Usb, alloc, free}
use libusbhsfs.Mount.Context.{
  FileSystemContext, FatFs, NtfsVd, ExtVd, BlockDevice, fs_fat, fs_ntfs, fs_ext, is_some,
}
use libusbhsfs.Mount.Monad.{MountState, Libs, grow}
use libusbhsfs.Mount.DeviceId.{available_device_id}
use libusbhsfs.Mount.Devoptab.{
  register_devoptab_device, add_device, abandon_device, interface_of, mount_name,
}

abbrev pub one_if : Bool → ℕ
one_if b = if b then 1 else 0

-- All of the mount state is as before, and of the drive below the number of allocated blocks.
pub record Restored {W : Type 0} (s s' : MountState W) : Type 0 where
  pub state : s' ≡ record s { drive = s'.drive }
  pub live : s'.drive.live ≡ s.drive.live

-- The context `c` with the device that it gets in the state `s`.
abbrev pub with_device :
    {W : Type 0} → Libs W → MountState W → FileSystemContext → FileSystemContext
with_device libs s c =
    let id = available_device_id s.has_device_ids s.device_ids in
    record c {
      device_id = id;
      name = some (mount_name libs id);
      cwd = some (0x2f ∷ []);
      device = interface_of c.fs_type;
    }

-- The context `c` has become `c'`, with a device of its own, whose id is in use now.
pub record HasDevice {W : Type 0} (libs : Libs W) (s s' : MountState W) (c c' : FileSystemContext)
    : Type 0 where
  pub context : c' ≡ with_device libs s c
  pub interface : is_some (interface_of c.fs_type) ≡ true
  pub state : s' ≡ record s {
    drive = s'.drive;
    has_device_ids = true;
    device_ids = s.device_ids ++ (c'.device_id ∷ []);
  }
  pub live : s'.drive.live ≡ s.drive.live + 3 + one_if (not s.has_device_ids)

-- A context without a device.
pub record NoDevice (c : FileSystemContext) : Type 0 where
  pub name : c.name ≡ none
  pub cwd : c.cwd ≡ none
  pub device : c.device ≡ none

module _ {W : Type 0} (usb : Usb W) (libs : Libs W) (c : FileSystemContext) (s : MountState W) where
  pub register_devoptab_device-Restored :
      NoDevice c
      → (register_devoptab_device usb libs c s).0.0 ≡ false
      → Restored s (register_devoptab_device usb libs c s).1
  unfolding register_devoptab_device alloc add_device abandon_device interface_of grow free
  register_devoptab_device-Restored fresh failed =
      let d = fresh.device in
      let w = fresh.cwd in
      let n = fresh.name in record { state = ground arith; live = ground arith }

  pub register_devoptab_device-HasDevice :
      (register_devoptab_device usb libs c s).0.0 ≡ true
      → HasDevice libs s
          (register_devoptab_device usb libs c s).1
          c
          (register_devoptab_device usb libs c s).0.1
  unfolding register_devoptab_device alloc add_device abandon_device interface_of grow free
  register_devoptab_device-HasDevice ok = record {
    context = ground arith;
    interface = ground arith;
    state = ground arith;
    live = ground arith;
  }
