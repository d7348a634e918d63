-- ===== src/Manager/Drives.antt =====
-- source/usbhsfs_manager.c: drives that are added to the list and removed from it.
use libusbhsfs.Base.{
  ℕ, zero, suc, ◌+◌, ◌*◌, Bool, true, false, not, ◌||◌, List, [], ◌∷◌, ◌++◌, Option, none, some,
  ◌==◌, ltb, leb, if◌then◌else◌, length, get_elem?,
}
use libusbhsfs.Usb.{Result, failed, alloc, free, service}
use libusbhsfs.Mount.Context.{FatFs}
use libusbhsfs.Mount.DeviceId.Least.{member}
use libusbhsfs.Mount.Devoptab.{get_devoptab_device_count}
use libusbhsfs.Mount.Monad.{io, grow}
use libusbhsfs.Mount.Probe.{Probe, ◌>>=◌, ◌>>◌, pure, mnt}
use libusbhsfs.Drive.Interface.{Interface, interface_protocol, bulk_only_transport}
use libusbhsfs.Drive.Context.{Drive, Host, destroy_context, initialize_context}
use libusbhsfs.Manager.{ManagedDrive, DriveList, Device, max_usb_interfaces, populate_device_list}

-- An interface that libnx found: its id, and what its session is made from.
pub record FoundInterface : Type 0 where
  pub id : ℕ
  pub interface : Interface

-- usbHsQueryAcquiredInterfaces, as ids, and usbHsQueryAvailableInterfaces; of a context: what
-- calloc() gives, and its size.
pub record Queries (W : Type 0) : Type 0 where
  pub acquired : W → (Result × List ℕ) × W
  pub available : W → (Result × List FoundInterface) × W
  pub empty_drive : Drive
  pub drive_size : ℕ

unfoldable pub remove_at : ℕ → List ManagedDrive → List ManagedDrive
remove_at i [] = []
remove_at zero (m ∷ ms) = ms
remove_at (suc i) (m ∷ ms) = m ∷ remove_at i ms

-- The index of the first drive on an interface.
unfoldable pub find_drive : ℕ → List ManagedDrive → Option ℕ
find_drive id [] = none
find_drive id (m ∷ ms) =
    if m.usb_if_id == id
    then some 0
    else elim (find_drive id ms) [ none ↦ none | some i ↦ some (suc i) ]

module _ {W : Type 0} (h : Host W) (queries : Queries W) where
  -- The array behind the removal of one of its entries.
  unfoldable pub shrink_drives : List ManagedDrive → Probe W DriveList
  unfolding free
  shrink_drives left =
      if length left == 0
      then (mnt (io (free h.usb)) >> pure (record { has_drives = false; drives = [] }))
      else (mnt (io (service (h.usb.allocate (length left * 8)))) >>= λ _.
          pure (record { has_drives = true; drives = left }))

  unfoldable pub remove_drive_context_from_list_by_index : ℕ → Bool → DriveList → Probe W DriveList
  unfolding free
  remove_drive_context_from_list_by_index i stop_lun list = elim (get_elem? list.drives i) [
    | none ↦ pure list
    | some m ↦
        (destroy_context h stop_lun m.drive >>= λ _.
        mnt (io (free h.usb)) >> shrink_drives (remove_at i list.drives))
  ]

  unfoldable pub add_drive_context_to_list : FoundInterface → DriveList → Probe W (Bool × DriveList)
  unfolding grow alloc free
  add_drive_context_to_list f list = do
    has_array ← mnt (grow h.usb list.has_drives ((length list.drives + 1) * 8))
    if not has_array then pure (false, list) else do
      has_drive ← mnt (io (alloc h.usb queries.drive_size))
      if not has_drive then pure (false, record list { has_drives = true }) else do
        (ok, drive) ← initialize_context h f.interface queries.empty_drive
        let m : ManagedDrive = record { usb_if_id = f.id; drive = drive }
        if ok
            then pure (true, record { has_drives = true; drives = list.drives ++ (m ∷ []) })
            else (mnt (io (free h.usb)) >> shrink_drives list.drives >>= λ list'.
                pure (false, list'))

  -- The loop over the drives from index `i` on, in which `ids` are the interfaces that are left. It
  -- returns the number of drives that it removed.
  unfoldable pub remove_missing : List ℕ → ℕ → ℕ → DriveList → ℕ → Probe W (DriveList × ℕ)
  remove_missing ids zero i list count = pure (list, count)
  remove_missing ids (suc rounds) i list count = elim (get_elem? list.drives i) [
    | none ↦ pure (list, count)
    | some m ↦
        if member m.usb_if_id ids
        then remove_missing ids rounds (suc i) list count
        else (remove_drive_context_from_list_by_index i false list >>= λ list'.
            remove_missing ids rounds i list' (suc count))
  ]

  unfoldable pub add_found : List FoundInterface → DriveList → ℕ → Probe W (DriveList × ℕ)
  add_found [] list count = pure (list, count)
  add_found (f ∷ fs) list count =
      if not (interface_protocol f.interface.descriptor == bulk_only_transport)
      then add_found fs list count
      else (add_drive_context_to_list f list >>= λ (ok, list').
          add_found fs list' (if ok then suc count else count))

  unfoldable pub update_drive_contexts : Bool → DriveList → Probe W (Bool × DriveList)
  update_drive_contexts true list =
      if not list.has_drives || (length list.drives == 0) then pure (false, list) else do
        (rc, ids) ← mnt (io (service queries.acquired))
        if failed rc then pure (false, list) else do
          (list', count) ← remove_missing ids (length list.drives) 0 list 0
          pure (ltb 0 count, list')
  update_drive_contexts false list =
      if leb max_usb_interfaces (length list.drives) then pure (false, list) else do
        (rc, found) ← mnt (io (service queries.available))
        if failed rc
            then pure (false, list)
            else do (list', count) ← add_found found list 0; pure (ltb 0 count, list')

  -- usbHsFsUnmountDevice() of the device's interface, without its event and callback.
  unfoldable pub unmount_device : Bool → ℕ → DriveList → Probe W (Bool × DriveList)
  unmount_device initialized usb_if_id list =
      if not initialized || not list.has_drives
      then pure (false, list)
      else elim (find_drive usb_if_id list.drives) [
        | none ↦ pure (false, list)
        | some i ↦
            (remove_drive_context_from_list_by_index i true list >>= λ list'. pure (true, list'))
      ]

  unfoldable pub list_mounted_devices : (FatFs → ℕ) → Bool → ℕ → DriveList → Probe W (List Device)
  unfolding populate_device_list
  list_mounted_devices fat_type initialized max_count list = do
    count ← mnt get_devoptab_device_count
    let device_count = if initialized then count else 0
    if not list.has_drives || (length list.drives == 0) || (device_count == 0) || (max_count == 0)
        then pure []
        else pure (populate_device_list fat_type device_count max_count list.drives)
