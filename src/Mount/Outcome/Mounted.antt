-- ===== src/Mount/Outcome/Mounted.antt =====
-- What the registration of a file system leaves behind when it succeeds.
use libusbhsfs.Base.{
  ℕ, ◌+◌, ◌-◌, ◌≡◌, ap, ◌∙◌, Bool, true, not, List, [], ◌∷◌, ◌++◌, Option, none, some, ◌==◌,
  if◌then◌else◌, set, arith,
}
use libusbhsfs.Usb.{State}
use libusbhsfs.Mount.Context.{
  FileSystemContext, FatFs, NtfsVd, ExtVd, BlockDevice, fs_fat, fs_ntfs, fs_ext, is_some,
  has_fs_object,
}
use libusbhsfs.Mount.Monad.{MountState, Libs}
use libusbhsfs.Mount.DeviceId.{available_device_id}
use libusbhsfs.Mount.Devoptab.{interface_of, mount_name}
use libusbhsfs.Mount.Fat.{free_volume, volume_name}
use libusbhsfs.Mount.Outcome.{one_if, NoDevice, Restored}

-- The blocks of the file system object of a context's own type.
unfoldable pub blockdev_blocks : Option BlockDevice → ℕ
blockdev_blocks none = 0
blockdev_blocks (some b) = 1 + (if b.has_bdif then 1 + one_if b.has_ph_bbuf else 0)

unfoldable pub ntfs_blocks : Option NtfsVd → ℕ
ntfs_blocks none = 0
ntfs_blocks (some v) = 1 + one_if (is_some v.dd)

unfoldable pub ext_blocks : Option ExtVd → ℕ
unfolding blockdev_blocks
ext_blocks none = 0
ext_blocks (some v) = 1 + blockdev_blocks v.bdev

unfoldable pub object_blocks : FileSystemContext → ℕ
unfolding ntfs_blocks ext_blocks
object_blocks c =
    if c.fs_type == fs_fat
    then one_if (is_some c.fatfs)
    else if c.fs_type == fs_ntfs
    then ntfs_blocks c.ntfs
    else if c.fs_type == fs_ext
    then ext_blocks c.ext
    else 0

-- The table of FatFs volumes once a context of this type has taken its slot.
unfoldable pub volumes_with : ℕ → List Bool → List Bool
unfolding free_volume
volumes_with fs_type table =
    if fs_type == fs_fat
    then elim (free_volume 0 table) [ none ↦ table | some pdrv ↦ set table pdrv true ]
    else table

-- ff_mount() notes the number in the volume's name in an object that it mounts.
abbrev pub NotesDrive : {W : Type 0} → Libs W → Type 0
NotesDrive {W} libs =
    (fatfs : FatFs) (pdrv : ℕ) (d : State W)
    → (libs.ff_mount fatfs (volume_name libs pdrv) d).0.0 ≡ 0
    → (libs.ff_mount fatfs (volume_name libs pdrv) d).0.1.pdrv ≡ pdrv

-- The object of a FAT volume knows the slot that it got, the first one that was free.
pub record HasSlot (table : List Bool) (c : FileSystemContext) : Type 0 where
  pub slot : ℕ
  pub free : free_volume 0 table ≡ some slot
  pub object : FatFs
  pub here : c.fatfs ≡ some object
  pub noted : object.pdrv ≡ slot

-- The context `c` has become `c'`, which has a file system object and a devoptab device.
pub record Mounted {W : Type 0} (libs : Libs W) (s s' : MountState W) (c c' : FileSystemContext)
    : Type 0 where
  pub fs_idx : c'.fs_idx ≡ c.fs_idx
  pub fs_type : c'.fs_type ≡ c.fs_type
  pub device_id : c'.device_id ≡ available_device_id s.has_device_ids s.device_ids
  pub name : c'.name ≡ some (mount_name libs c'.device_id)
  pub cwd : c'.cwd ≡ some (0x2f ∷ [])
  pub device : c'.device ≡ interface_of c.fs_type
  pub interface : is_some (interface_of c.fs_type) ≡ true
  pub object : has_fs_object c' ≡ true
  pub has_slot : NotesDrive libs → c.fs_type ≡ fs_fat → HasSlot s.fat_volumes c'
  pub state : s' ≡ record s {
    drive = s'.drive;
    has_device_ids = true;
    device_ids = s.device_ids ++ (c'.device_id ∷ []);
    fat_volumes = volumes_with c.fs_type s.fat_volumes;
  }
  pub live : s'.drive.live ≡ s.drive.live + 3 + object_blocks c' + one_if (not s.has_device_ids)

-- The state of the drive before is of no matter, but for the count of blocks.
pub Mounted-drive :
    {W : Type 0} (libs : Libs W) (s : MountState W) (d : State W) (s' : MountState W)
    (c c' : FileSystemContext)
    → Mounted libs (record s { drive = d }) s' c c'
    → d.live ≡ s.drive.live
    → Mounted libs s s' c c'
Mounted-drive libs s d s' c c' m same = record {
  fs_idx = m.fs_idx;
  fs_type = m.fs_type;
  device_id = m.device_id;
  name = m.name;
  cwd = m.cwd;
  device = m.device;
  interface = m.interface;
  object = m.object;
  has_slot = m.has_slot;
  state = m.state;
  live = m.live ∙ ap (λ n. n + 3 + object_blocks c' + one_if (not s.has_device_ids)) same;
}

-- Nor is the id that the context had before.
pub Mounted-renamed :
    {W : Type 0} (libs : Libs W) (s s' : MountState W) (c c' : FileSystemContext) (id : ℕ)
    → Mounted libs s s' (record c { device_id = id }) c'
    → Mounted libs s s' c c'
Mounted-renamed libs s s' c c' id m = record {
  fs_idx = m.fs_idx;
  fs_type = m.fs_type;
  device_id = m.device_id;
  name = m.name;
  cwd = m.cwd;
  device = m.device;
  interface = m.interface;
  object = m.object;
  has_slot = m.has_slot;
  state = m.state;
  live = m.live;
}

-- The state is as before but for `n` blocks.
abbrev pub Freed : {W : Type 0} → ℕ → MountState W → MountState W → Type 0
Freed n s s' = (s' ≡ record s { drive = s'.drive }) × (s'.drive.live ≡ s.drive.live - n)

pub Freed-trans :
    {W : Type 0} (n : ℕ) (s s1 s2 : MountState W) → Restored s s1 → Freed n s1 s2 → Freed n s s2
Freed-trans n s s1 s2 r f =
    let a = r.state in let b = f.0 in let u = r.live in let v = f.1 in (ground arith, ground arith)

-- A context as calloc() and the first assignments leave it.
pub record IsNew (c : FileSystemContext) : Type 0 where
  pub no_device : NoDevice c
  pub fatfs : c.fatfs ≡ none
  pub ntfs : c.ntfs ≡ none
  pub ext : c.ext ≡ none
