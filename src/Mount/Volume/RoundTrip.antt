-- ===== src/Mount/Volume/RoundTrip.antt =====
-- The registration of a volume and the destruction of its context.
use libusbhsfs.Base.{
  ℕ, ◌+◌, ◌^◌, ◌<◌, ◌≡◌, sym, subst, ap, ◌∙◌, Bool, true, false, not, List, [], ◌∷◌, ◌++◌, some,
  ◌==◌, arith, length, length-append,
}
use libusbhsfs.Bytes.{Buf}
use libusbhsfs.Usb.{DriveContext, Usb}
use libusbhsfs.Scsi.Lun.{LogicalUnitContext, is_valid_logical_unit_context}
use libusbhsfs.Mount.Context.{FileSystemContext, is_valid_file_system_context}
use libusbhsfs.Mount.Monad.{MountState, Libs}
use libusbhsfs.Mount.DeviceId.{available_device_id, find_available}
use libusbhsfs.Mount.DeviceId.Least.{member, remove_first, member-append, remove_first-append}
use libusbhsfs.Mount.DeviceId.Enough.{find_available-IsLeastUnused, IsLeastUnused}
use libusbhsfs.Mount.Devoptab.{interface_of}
use libusbhsfs.Mount.Volume.{register_volume, destroy_file_system_context}
use libusbhsfs.Mount.Outcome.{one_if}
use libusbhsfs.Mount.Outcome.Mounted.{NotesDrive, volumes_with}
use libusbhsfs.Mount.Volume.Slot.{volumes-HasSlot}
use libusbhsfs.Mount.Volume.Registered.{Registered, register_volume-Registered}
use libusbhsfs.Mount.Volume.Destroyed.{volumes_without, destroy_file_system_context-Destroyed}

available-found :
    (has_ids : Bool) (ids : List ℕ) (r : ℕ)
    → find_available has_ids ids ≡ some r
    → available_device_id has_ids ids ≡ r
unfolding available_device_id
available-found has_ids ids r found = ground arith

-- The id that a new device gets is the least one that is not in use.
pub available_device_id-IsLeastUnused :
    (has_ids : Bool) (ids : List ℕ)
    → has_ids ≡ not (length ids == 0)
    → length ids < 2 ^ 32
    → IsLeastUnused ids (available_device_id has_ids ids)
unfolding find_available
available_device_id-IsLeastUnused has_ids ids array small =
    let (r, found, least) = find_available-IsLeastUnused ids small in
    let here : find_available has_ids ids ≡ some r = ground arith in
    subst (IsLeastUnused ids) (sym (available-found has_ids ids r here)) least

module _ {W : Type 0} (usb : Usb W) (libs : Libs W) (d : DriveContext) (l : LogicalUnitContext)
    (s s' : MountState W) (fs_type : ℕ) where
  -- A context that was registered is valid.
  pub Registered-valid :
      (r : Registered libs fs_type s s')
      → is_valid_logical_unit_context d l ≡ true
      → is_valid_file_system_context d l r.context ≡ true
  unfolding is_valid_file_system_context interface_of
  Registered-valid r valid =
      let c = r.context in
      let known = r.interface in
      let type = r.type in
      let name = r.name in
      let cwd = r.cwd in let device = r.device in let object = r.object in ground arith

  Registered-destroyed :
      s.has_device_ids ≡ not (length s.device_ids == 0)
      → length s.device_ids < 2 ^ 32
      → NotesDrive libs
      → (r : Registered libs fs_type s s') → is_valid_logical_unit_context d l ≡ true
      → let t = (destroy_file_system_context usb libs l d r.context s').1 in
        (t.device_ids ≡ s.device_ids)
        × (t.has_device_ids ≡ s.has_device_ids)
        × (t.fat_volumes ≡ s.fat_volumes)
        × (t.drive.live ≡ s.drive.live + 1 + one_if (not s.has_fs_ctx))
  Registered-destroyed array small notes r valid =
      let c = r.context in
      let state = r.state in
      let live = r.live in
      let chosen = r.device_id in
      let unused =
        (available_device_id-IsLeastUnused s.has_device_ids s.device_ids array small).unused in
      let new : member c.device_id s.device_ids ≡ false =
        subst (λ i. member i s.device_ids ≡ false) (sym chosen) unused in
      let ids : s'.device_ids ≡ s.device_ids ++ (c.device_id ∷ []) = ap (λ t. t.device_ids) state in
      let used : member c.device_id s'.device_ids ≡ true =
        subst (λ t. member c.device_id t ≡ true) (sym ids)
          (member-append s.device_ids c.device_id) in
      let has : s'.has_device_ids ≡ true = ap (λ t. t.has_device_ids) state in
      let size : length s'.device_ids ≡ length s.device_ids + 1 =
        ap length ids ∙ length-append s.device_ids (c.device_id ∷ []) in
      let gone =
        destroy_file_system_context-Destroyed usb libs l d c s' (Registered-valid r valid) used has
          (ground arith) in
      let left = gone.live in
      let type = r.type in
      let taken : s'.fat_volumes ≡ volumes_with c.fs_type s.fat_volumes =
        ap (λ t. t.fat_volumes) state ∙ ap (λ t. volumes_with t s.fat_volumes) (sym type) in
      let back = volumes-HasSlot s.fat_volumes c (λ fat. r.has_slot notes (sym type ∙ fat)) in
      let has_left = gone.has_device_ids in
      (
        gone.device_ids
            ∙ ap (remove_first c.device_id) ids
            ∙ remove_first-append s.device_ids c.device_id new,
        ground arith,
        gone.fat_volumes ∙ ap (volumes_without c) taken ∙ back,
        ground arith,
      )

-- If a volume is registered on a started unit, and the array of ids is allocated just when it has
-- ids, fewer than 2 ^ 32, then the unit has one context more, and the destruction of that context
-- leaves the ids and the slots of FAT volumes as they were before, and of what was allocated only
-- the context and, if it is new, the unit's array of contexts, which the caller frees. ff_mount() is
-- taken to note the number of the slot in the object that it mounts.
pub destroy-register_volume :
    {W : Type 0} (usb : Usb W) (libs : Libs W) (d : DriveContext) (l : LogicalUnitContext)
    (block : Buf) (addr count fs_type : ℕ) (s : MountState W)
    → s.has_device_ids ≡ not (length s.device_ids == 0)
    → length s.device_ids < 2 ^ 32
    → NotesDrive libs
    → is_valid_logical_unit_context d l ≡ true
    → (register_volume usb libs l block addr count fs_type s).0 ≡ true
    → let s' = (register_volume usb libs l block addr count fs_type s).1 in
      (c : FileSystemContext) × (s'.fs_ctx ≡ s.fs_ctx ++ (c ∷ []))
      × (let t = (destroy_file_system_context usb libs l d c s').1 in
          (t.device_ids ≡ s.device_ids)
          × (t.has_device_ids ≡ s.has_device_ids)
          × (t.fat_volumes ≡ s.fat_volumes)
          × (t.drive.live ≡ s.drive.live + 1 + one_if (not s.has_fs_ctx)))
destroy-register_volume usb libs d l block addr count fs_type s array small notes valid ok =
    let r = register_volume-Registered usb libs l block addr count fs_type s ok in
    (
      r.context,
      ap (λ t. t.fs_ctx) r.state,
      Registered-destroyed usb libs d l s _ fs_type array small notes r valid,
    )
