-- ===== src/Mount/Volume/Registered.antt =====
-- What the registration of a volume leaves behind.
use libusbhsfs.Base.{
  ℕ, ◌+◌, ◌-◌, ◌≡◌, ◌⊎◌, refl, ap, ◌∙◌, Bool, true, false, not, List, [], ◌∷◌, ◌++◌, some, ◌==◌,
  arith, inl, inr, Bool-cases, length, set, take, length-append, ◌*◌,
}
use libusbhsfs.Bytes.{Buf}
use libusbhsfs.Usb.{Usb, State, alloc, free}
use libusbhsfs.Scsi.Lun.{LogicalUnitContext}
use libusbhsfs.Mount.Context.{FileSystemContext, fs_fat, fs_ntfs, fs_ext, is_some, has_fs_object}
use libusbhsfs.Mount.DeviceId.{available_device_id}
use libusbhsfs.Mount.Devoptab.{mount_name, interface_of}
use libusbhsfs.Mount.Monad.{MountState, Libs, io, grow, shrink, file_system_context}
use libusbhsfs.Mount.Volume.{
  register_file_system, register_volume, new_context, drop_volume, release_fs_array,
}
use libusbhsfs.Mount.Fat.{register_fat_volume}
use libusbhsfs.Mount.Ntfs.{register_ntfs_volume}
use libusbhsfs.Mount.Ext.{register_ext_volume}
use libusbhsfs.Mount.Outcome.{Restored, one_if}
use libusbhsfs.Mount.Outcome.Mounted.{
  Mounted, IsNew, NotesDrive, HasSlot, object_blocks, volumes_with,
}
use libusbhsfs.Mount.Outcome.OfFat.{register_fat_volume-Restored, register_fat_volume-Mounted}
use libusbhsfs.Mount.Outcome.OfNtfs.{register_ntfs_volume-Restored, register_ntfs_volume-Mounted}
use libusbhsfs.Mount.Outcome.OfExt.{register_ext_volume-Restored, register_ext_volume-Mounted}

take-all_but_last : {A : Type 0} (xs : List A) (x : A) → take (length xs) (xs ++ (x ∷ [])) ≡ xs
take-all_but_last [] x = refl
take-all_but_last (y ∷ xs) x = ap (λ t. y ∷ t) (take-all_but_last xs x)

take-append :
    {A : Type 0} (xs : List A) (x : A) → take (length (xs ++ (x ∷ [])) - 1) (xs ++ (x ∷ [])) ≡ xs
take-append xs x =
    let shorter : length (xs ++ (x ∷ [])) - 1 ≡ length xs =
      omega (arith, length-append xs (x ∷ [])) in
    ap (λ n. take n (xs ++ (x ∷ []))) shorter ∙ take-all_but_last xs x

set-last :
    {A : Type 0} (xs : List A) (x y : A) → set (xs ++ (x ∷ [])) (length xs) y ≡ xs ++ (y ∷ [])
set-last [] x y = refl
set-last (z ∷ xs) x y = ap (λ t. z ∷ t) (set-last xs x y)

-- A volume was registered: the unit has one more context, which is mounted, and its device has an
-- id that was the first one available.
pub record Registered {W : Type 0} (libs : Libs W) (fs_type : ℕ) (s s' : MountState W)
    : Type 0 where
  pub context : FileSystemContext
  pub fs_idx : context.fs_idx ≡ length s.fs_ctx
  pub type : context.fs_type ≡ fs_type
  pub device_id : context.device_id ≡ available_device_id s.has_device_ids s.device_ids
  pub name : context.name ≡ some (mount_name libs context.device_id)
  pub cwd : context.cwd ≡ some (0x2f ∷ [])
  pub device : context.device ≡ interface_of fs_type
  pub interface : is_some (interface_of fs_type) ≡ true
  pub object : has_fs_object context ≡ true
  pub has_slot : NotesDrive libs → fs_type ≡ fs_fat → HasSlot s.fat_volumes context
  pub state : s' ≡ record s {
    drive = s'.drive;
    has_fs_ctx = true;
    fs_ctx = s.fs_ctx ++ (context ∷ []);
    has_device_ids = true;
    device_ids = s.device_ids ++ (context.device_id ∷ []);
    fat_volumes = volumes_with fs_type s.fat_volumes;
  }
  pub live :
      s'.drive.live
      ≡ s.drive.live
        + 4
        + object_blocks context
        + one_if (not s.has_device_ids)
        + one_if (not s.has_fs_ctx)

module _ {W : Type 0} (usb : Usb W) (libs : Libs W) (l : LogicalUnitContext) where
  module _ (c : FileSystemContext) (block : Buf) (addr count : ℕ) (s : MountState W)
      (new : IsNew c) where
    abbrev file_system : (Bool × FileSystemContext) × MountState W
    file_system = register_file_system usb libs l c block addr count s

    -- The four branches of the type.
    register_file_system_cases :
        (P : (Bool × FileSystemContext) × MountState W → Type 0)
        → (c.fs_type ≡ fs_fat → P (register_fat_volume usb libs l c block addr s))
        → (c.fs_type ≡ fs_ntfs → P (register_ntfs_volume usb libs l c block addr s))
        → (c.fs_type ≡ fs_ext → P (register_ext_volume usb libs l c addr count s))
        → P ((false, c), s)
        → P file_system
    unfolding register_file_system
    register_file_system_cases P fat ntfs ext other = elim (Bool-cases (c.fs_type == fs_fat)) [
      | inl e ↦ rw e (fat (ground arith))
      | inr e ↦ elim (Bool-cases (c.fs_type == fs_ntfs)) [
        | inl f ↦ rw (e, f) (ntfs (ground arith))
        | inr f ↦ elim (Bool-cases (c.fs_type == fs_ext)) [
          | inl g ↦ rw (e, f, g) (ext (ground arith))
          | inr g ↦ rw (e, f, g) other
        ]
      ]
    ]

    pub register_file_system-Restored : file_system.0.0 ≡ false → Restored s file_system.1
    register_file_system-Restored =
        register_file_system_cases (λ r. r.0.0 ≡ false → Restored s r.1)
          (λ e. register_fat_volume-Restored usb libs l c block addr s new)
          (λ e. register_ntfs_volume-Restored usb libs l c block addr s new)
          (λ e. register_ext_volume-Restored usb libs l c addr count s new)
          (λ f. record { state = refl; live = refl })

    pub register_file_system-Mounted :
        file_system.0.0 ≡ true → Mounted libs s file_system.1 c file_system.0.1
    register_file_system-Mounted =
        register_file_system_cases (λ r. r.0.0 ≡ true → Mounted libs s r.1 c r.0.1)
          (λ e. register_fat_volume-Mounted usb libs l c block addr s new e)
          (λ e. register_ntfs_volume-Mounted usb libs l c block addr s new e)
          (λ e. register_ext_volume-Mounted usb libs l c addr count s new e)
          (λ f. absurd (ground arith))

  -- The state in which the file system is mounted: the array has grown and ends in a new context.
  module _ (block : Buf) (addr count fs_type : ℕ) (s : MountState W) where
    abbrev fresh : FileSystemContext
    fresh = new_context (length s.fs_ctx) fs_type s.mount_flags

    abbrev grown : Bool × MountState W
    grown = grow usb s.has_fs_ctx ((length s.fs_ctx + 1) * 8) s

    abbrev placed : MountState W
    placed =
        let s2 =
          (io (alloc usb (libs.sizeof file_system_context))
            (record grown.1 { has_fs_ctx = true })).1 in
        record s2 { fs_ctx = s2.fs_ctx ++ (fresh ∷ []) }

    abbrev mounted : (Bool × FileSystemContext) × MountState W
    mounted = register_file_system usb libs l fresh block addr count placed

    fresh-IsNew : IsNew fresh
    unfolding new_context
    fresh-IsNew = record {
      no_device = record { name = refl; cwd = refl; device = refl };
      fatfs = refl;
      ntfs = refl;
      ext = refl;
    }

    -- The drive below is as it was but for the services, or, if the registration of the file system
    -- was tried, as that left it but for the services and the number of blocks.
    abbrev pub IsLeft : State W → Type 0
    IsLeft drive =
        (drive ≡ record s.drive { world = drive.world; live = drive.live })
        ⊎ (drive ≡ record mounted.1.drive { world = drive.world; live = drive.live })

    register_volume-IsLeft : IsLeft (register_volume usb libs l block addr count fs_type s).1.drive
    unfolding register_volume grow alloc free shrink drop_volume release_fs_array
    register_volume-IsLeft = elim (Bool-cases grown.0) [
      | inr e ↦ inl (ground arith)
      | inl e ↦
          elim (Bool-cases
            (io (alloc usb (libs.sizeof file_system_context))
              (record grown.1 { has_fs_ctx = true })).0) [
                | inr f ↦ inl (ground arith)
                | inl f ↦ inr (ground arith)
              ]
    ]

    register_volume_restores :
        s.has_fs_ctx ≡ not (length s.fs_ctx == 0)
        → (register_volume usb libs l block addr count fs_type s).0 ≡ false
        → Restored s (register_volume usb libs l block addr count fs_type s).1
    unfolding register_volume grow alloc free shrink drop_volume release_fs_array
    register_volume_restores array failed =
        let restored = register_file_system-Restored fresh block addr count placed fresh-IsNew in
        let state1 : mounted.0.0 ≡ false → mounted.1 ≡ record placed { drive = mounted.1.drive } =
          λ f. (restored f).state in
        let live1 : mounted.0.0 ≡ false → mounted.1.drive.live ≡ placed.drive.live =
          λ f. (restored f).live in
        let back = take-append s.fs_ctx fresh in
        let size = length-append s.fs_ctx (fresh ∷ []) in
        record { state = ground arith; live = ground arith }

    -- If the registration of a volume fails, at whatever step, the contexts, the device ids, the
    -- slots of FAT volumes, the default device's noted id and the mount flags are as they were, and
    -- as many blocks are allocated as before, if the array of contexts was allocated just when it had
    -- entries. The transfer buffer and the flag of a present medium are as they were, or as the
    -- registration of the file system left them, whose calls of the libraries may use the drive.
    pub register_volume-Restored :
        s.has_fs_ctx ≡ not (length s.fs_ctx == 0)
        → (register_volume usb libs l block addr count fs_type s).0 ≡ false
        → Restored s (register_volume usb libs l block addr count fs_type s).1
          × IsLeft (register_volume usb libs l block addr count fs_type s).1.drive
    register_volume-Restored array failed =
        (register_volume_restores array failed, register_volume-IsLeft)

    -- If it succeeds, the unit has the new volume.
    pub register_volume-Registered :
        (register_volume usb libs l block addr count fs_type s).0 ≡ true
        → Registered libs fs_type s (register_volume usb libs l block addr count fs_type s).1
    unfolding register_volume grow alloc drop_volume release_fs_array new_context
    register_volume-Registered ok =
        let got : mounted.0.0 ≡ true = ground arith in
        let m = register_file_system-Mounted fresh block addr count placed fresh-IsNew got in
        let last = set-last s.fs_ctx fresh mounted.0.1 in
        record {
          context = mounted.0.1;
          fs_idx = m.fs_idx;
          type = m.fs_type;
          device_id = m.device_id;
          name = m.name;
          cwd = m.cwd;
          device = m.device;
          interface = m.interface;
          object = m.object;
          has_slot = m.has_slot;
          state = ground arith;
          live = ground arith;
        }
