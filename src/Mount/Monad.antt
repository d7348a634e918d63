-- ===== src/Mount/Monad.antt =====
-- source/usbhsfs_mount.c: the state that mounting changes, the services it asks for, and the two
-- monads over that state: calls that always return, and calls that read the logical unit.
use libusbhsfs.Base.{ℕ, suc, Bool, not, ◌&&◌, if◌then◌else◌, List, Option}
use libusbhsfs.Bytes.{Buf}
use libusbhsfs.Usb.{State, Usb, Io, service}
use libusbhsfs.Mount.Context.{FatFs, NtfsVd, ExtVd, FileSystemContext}

-- The globals of usbhsfs_mount.c, and the file system contexts of the logical unit. A `has_` field
-- says that the array behind the list is allocated, which is so of an empty array for a while.
pub record MountState (W : Type 0) : Type 0 where
  pub drive : State W
  pub has_fs_ctx : Bool
  pub fs_ctx : List FileSystemContext
  pub has_device_ids : Bool
  pub device_ids : List ℕ
  pub default_device_id : ℕ
  pub fat_volumes : List Bool
  pub mount_flags : ℕ

-- The objects that are allocated one at a time.
pub data Object : Type 0 where
  file_system_context devoptab fat_fs ntfs_vd ntfs_dd ext_vd blockdev blockdev_iface : Object

-- The C library, newlib's devoptab table, FatFs, ntfs-3g and lwext4. The text of a number is
-- sprintf's for "%u". A device index is `none` when it is negative.
pub record Libs (W : Type 0) : Type 0 where
  pub print_u32 : ℕ → List ℕ
  -- sscanf(name, "ums%u", &id) == 1.
  pub scan_mount_name : List ℕ → Option ℕ
  pub add_device : FileSystemContext → W → Option ℕ × W
  pub remove_device : List ℕ → W → W
  pub find_device : List ℕ → W → Option ℕ
  pub set_default_device : Option ℕ → W → W
  -- GetDeviceOpTab(""): its name, and whether its device data is this context.
  pub default_device_name : W → Option (List ℕ)
  pub default_device_is : FileSystemContext → W → Bool
  -- ff_mount() of an object, which it fills in: FR_OK is 0.
  pub ff_mount : FatFs → List ℕ → Io W (ℕ × FatFs)
  pub ff_unmount : List ℕ → Io W (Unit {0})
  pub ntfs_device_alloc : List ℕ → NtfsVd → Io W Bool
  pub ntfs_device_free : NtfsVd → Io W (Unit {0})
  pub ntfs_device_mount : NtfsVd → Io W Bool
  pub ntfs_create_lru_caches : NtfsVd → Io W (Unit {0})
  pub ntfs_set_ignore_case : NtfsVd → Io W (Unit {0})
  -- Show system files, show hidden files.
  pub ntfs_set_shown_files : NtfsVd → Bool → Bool → Io W (Unit {0})
  -- Whether the free space could be read.
  pub ntfs_volume_get_free_space : NtfsVd → Io W Bool
  pub ntfs_umount : NtfsVd → Io W (Unit {0})
  -- These return 0 on success. ext4_mount takes the device name, the mount point and read_only.
  pub ext4_device_register : ExtVd → List ℕ → Io W ℕ
  pub ext4_device_unregister : List ℕ → Io W ℕ
  pub ext4_mount : List ℕ → List ℕ → Bool → Io W ℕ
  pub ext4_umount : List ℕ → Io W ℕ
  pub ext4_recover : List ℕ → Io W ℕ
  pub ext4_journal_start : List ℕ → Io W ℕ
  pub ext4_journal_stop : List ℕ → Io W ℕ
  -- The mounted volume's superblock: EXT4_FCOM_HAS_JOURNAL, and whether a feature is set beyond
  -- those that EXT3 and EXT2 support.
  pub ext4_has_journal : ExtVd → W → Bool
  pub beyond_ext3 : ExtVd → W → Bool
  pub beyond_ext2 : ExtVd → W → Bool
  -- ext4_sb_check() of a superblock, and crc32Calculate() of the first bytes of a buffer.
  pub ext4_sb_check : Buf → Bool
  pub crc32 : Buf → ℕ → ℕ
  -- FS_MAX_PATH of libnx, and `sizeof`.
  pub fs_max_path : ℕ
  pub sizeof : Object → ℕ

-- A call that always returns.
abbrev pub Mnt : Type 0 → Type 0 → Type 0
Mnt W A = MountState W → A × MountState W

infixl 5 ◌>>=◌ ◌>>◌
abbrev pub ◌>>=◌ : {W A B : Type 0} → Mnt W A → (A → Mnt W B) → Mnt W B
◌>>=◌ m f = λ s. f (m s).0 (m s).1

abbrev pub ◌>>◌ : {W B : Type 0} → Mnt W (Unit {0}) → Mnt W B → Mnt W B
◌>>◌ m k = λ s. k (m s).1

abbrev pub pure : {W A : Type 0} → A → Mnt W A
pure a = λ s. (a, s)

abbrev pub when : {W : Type 0} → Bool → Mnt W (Unit {0}) → Mnt W (Unit {0})
when b m = if b then m else pure tt

abbrev pub get : {W : Type 0} → Mnt W (MountState W)
get = λ s. (s, s)

abbrev pub put : {W : Type 0} → (MountState W → MountState W) → Mnt W (Unit {0})
put f = λ s. (tt, f s)

-- A call on the drive's state.
abbrev pub io : {W A : Type 0} → Io W A → Mnt W A
io m = λ s. ((m s.drive).0, record s { drive = (m s.drive).1 })

-- A call of a library that may use the drive. The blocks it holds for itself are not counted.
abbrev pub extern : {W A : Type 0} → Io W A → Mnt W A
extern m = λ s. ((m s.drive).0, record s { drive = record (m s.drive).1 { live = s.drive.live } })

-- A call of a service without a value, on the state of the services.
abbrev pub world : {W : Type 0} → (W → W) → Mnt W (Unit {0})
world f = put (λ s. record s { drive = record s.drive { world = f s.drive.world } })

-- realloc() of an array to a larger and to a smaller size: the first makes a block if there was
-- none, the second leaves the blocks as they are. A failure leaves the array as it was.
unfoldable pub grow : {W : Type 0} → Usb W → Bool → ℕ → Mnt W Bool
grow usb had size = do
  ok ← io (service (usb.allocate size))
  put λ s. record s {
    drive = record s.drive { live = if ok && not had then suc s.drive.live else s.drive.live };
  }
  pure ok

unfoldable pub shrink : {W : Type 0} → Usb W → ℕ → Mnt W Bool
shrink usb size = io (service (usb.allocate size))
