-- ===== src/Mount/Devoptab.antt =====
-- source/usbhsfs_mount.c: usbHsFsMountRegisterDevoptabDevice(),
-- usbHsFsMountUnsetDefaultDevoptabDevice(), usbHsFsMountSetDefaultDevoptabDevice(), and the mount
-- flags and the number of devices.
pub mod Default
use libusbhsfs.Base.{
  ℕ, ◌+◌, ◌*◌, Bool, true, false, not, ◌&&◌, ◌||◌, List, [], ◌∷◌, ◌++◌, Option, none, some, ◌==◌,
  leb, if◌then◌else◌, length,
}
use libusbhsfs.Usb.{DriveContext, Usb, alloc, free}
use libusbhsfs.Scsi.Lun.{LogicalUnitContext}
use libusbhsfs.Mount.Context.{
  FileSystemContext, Interface, ffdev, ntfsdev, extdev, fs_fat, fs_ntfs, fs_ext, is_some,
  is_valid_file_system_context,
}
use libusbhsfs.Mount.Monad.{Libs, Mnt, ◌>>=◌, ◌>>◌, pure, when, get, put, io, world, grow, devoptab}
use libusbhsfs.Mount.DeviceId.{available_device_id}

-- The name "sdmc:".
abbrev pub sdmc : List ℕ
sdmc = 0x73 ∷ (0x64 ∷ (0x6d ∷ (0x63 ∷ (0x3a ∷ []))))

-- MOUNT_NAME_LENGTH.
abbrev pub mount_name_length : ℕ
mount_name_length = 32

-- DEVOPTAB_INVALID_ID.
abbrev pub devoptab_invalid_id : ℕ
devoptab_invalid_id = 0xffffffff

-- sprintf(name, MOUNT_NAME_PREFIX "%u", id), and sprintf(name, "%s:", name).
unfoldable pub mount_name : {W : Type 0} → Libs W → ℕ → List ℕ
mount_name libs id = 0x75 ∷ (0x6d ∷ (0x73 ∷ libs.print_u32 id))

abbrev pub with_colon : List ℕ → List ℕ
with_colon name = name ++ (0x3a ∷ [])

-- Whether the name of the default device is that of the device with this id.
unfoldable pub is_named : {W : Type 0} → Libs W → ℕ → Option (List ℕ) → Bool
is_named libs device_id none = false
is_named libs device_id (some name) = leb 4 (length name) && elim (libs.scan_mount_name name) [
  | none ↦ false
  | some cur_device_id ↦ cur_device_id == device_id
]

-- *_get_devoptab() of the file system type.
unfoldable pub interface_of : ℕ → Option Interface
interface_of fs_type =
    if fs_type == fs_fat
    then some ffdev
    else if fs_type == fs_ntfs
    then some ntfsdev
    else if fs_type == fs_ext
    then some extdev
    else none

module _ {W : Type 0} (usb : Usb W) (libs : Libs W) where
  -- The end of the function when something went wrong. `added` is `ad_res >= 0`.
  unfoldable pub abandon_device :
      Bool → List ℕ → FileSystemContext → Mnt W (Bool × FileSystemContext)
  unfolding free
  abandon_device added name c = do
    when added (world (libs.remove_device name))
    when (is_some c.device) (io (free usb))
    when (is_some c.cwd) (io (free usb))
    when (is_some c.name) (io (free usb))
    pure (false, record c { device = none; cwd = none; name = none })

  -- From AddDevice() on.
  unfoldable pub add_device : List ℕ → FileSystemContext → Mnt W (Bool × FileSystemContext)
  unfolding abandon_device grow
  add_device name c = do
    ad_res ←
        io
          (λ s. ((libs.add_device c s.world).0, record s { world = (libs.add_device c s.world).1 }))
    if not (is_some ad_res) then abandon_device false name c else do
      s ← get
      ok ← grow usb s.has_device_ids ((length s.device_ids + 1) * 4)
      if not ok then abandon_device true name c else do
        put λ s. record s { has_device_ids = true; device_ids = s.device_ids ++ (c.device_id ∷ []) }
        pure (true, c)

  unfoldable pub register_devoptab_device : FileSystemContext → Mnt W (Bool × FileSystemContext)
  unfolding alloc add_device abandon_device interface_of mount_name available_device_id
  register_devoptab_device c = do
    has_name ← io (alloc usb mount_name_length)
    if not has_name then abandon_device false [] (record c { name = none }) else do
      s ← get
      let id = available_device_id s.has_device_ids s.device_ids
      let named = record c { device_id = id; name = some (mount_name libs id) }
      let name = with_colon (mount_name libs id)
      has_cwd ← io (alloc usb (libs.fs_max_path + 1))
      if not has_cwd then abandon_device false name (record named { cwd = none }) else do
        let placed = record named { cwd = some (0x2f ∷ []) }
        has_device ← io (alloc usb (libs.sizeof devoptab))
        if not has_device
            then abandon_device false name (record placed { device = none })
            else elim (interface_of c.fs_type) [
              -- The allocated device is freed, whatever it holds.
              | none ↦ abandon_device false name (record placed { device = some ffdev })
              | some interface ↦ add_device name (record placed { device = some interface })
            ]

  unfoldable pub unset_default_devoptab_device : ℕ → Mnt W (Unit {0})
  unfolding is_named
  unset_default_devoptab_device device_id = do
    s ← get
    if s.default_device_id == devoptab_invalid_id || not (s.default_device_id == device_id)
        then pure tt
        else do
          when (is_named libs device_id (libs.default_device_name s.drive.world))
              (world λ w. libs.set_default_device (libs.find_device sdmc w) w)
          put λ s. record s { default_device_id = devoptab_invalid_id }

  unfoldable pub set_default_devoptab_device :
      DriveContext → LogicalUnitContext → FileSystemContext → Mnt W Bool
  unfolding is_valid_file_system_context
  set_default_devoptab_device d l c = do
    s ← get
    if length s.device_ids == 0 || not s.has_device_ids || not (is_valid_file_system_context d l c)
        then pure false
        else if libs.default_device_is c s.drive.world
        then pure true
        else elim (libs.find_device (with_colon (elim c.name [ none ↦ [] | some name ↦ name ]))
            s.drive.world) [
              | none ↦ pure false
              | some device ↦ do
                world (libs.set_default_device (some device))
                s' ← get
                if not (libs.default_device_is c s'.drive.world)
                    then pure false
                    else do put λ s. record s { default_device_id = c.device_id }; pure true
            ]

unfoldable pub get_devoptab_device_count : {W : Type 0} → Mnt W ℕ
get_devoptab_device_count = λ s. (length s.device_ids, s)

unfoldable pub get_file_system_mount_flags : {W : Type 0} → Mnt W ℕ
get_file_system_mount_flags = λ s. (s.mount_flags, s)

unfoldable pub set_file_system_mount_flags : {W : Type 0} → ℕ → Mnt W (Unit {0})
set_file_system_mount_flags flags = put λ s. record s { mount_flags = flags }
