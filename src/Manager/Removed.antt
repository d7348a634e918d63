-- ===== src/Manager/Removed.antt =====
-- source/usbhsfs_manager.c: which drives are left when some are gone.
use libusbhsfs.Base.{
  ℕ, suc, ◌+◌, ◌*◌, ◌≡◌, refl, sym, ap, ◌∙◌, Bool, true, false, not, ◌||◌, List, [], ◌∷◌, ◌++◌,
  none, some, arith, ltb, ◌==◌, if◌then◌else◌, length, get_elem?, length-append, subst,
}
use libusbhsfs.Usb.{success, failed, service, free}
use libusbhsfs.Mount.DeviceId.Least.{member}
use libusbhsfs.Mount.Monad.{MountState, io}
use libusbhsfs.Mount.Probe.{Probe, ◌>>=◌, ◌>>◌, pure, mnt}
use libusbhsfs.Drive.Context.{Host, destroy_context}
use libusbhsfs.Drive.Context.Returns.{
  Surely, Surely-bind, Surely-if, Surely-map, destroy_context_returns,
}
use libusbhsfs.Manager.{ManagedDrive, DriveList}
use libusbhsfs.Manager.Drives.{
  Queries, remove_at, shrink_drives, remove_drive_context_from_list_by_index, remove_missing,
  update_drive_contexts,
}
use libusbhsfs.Manager.Surviving.{
  surviving, get_elem-append, remove_at-append, append_assoc, Holds, no_drives, nothing_removed,
}

-- What an update for removed drives leaves and returns.
abbrev pub IsUpdated : {W : Type 0} → List ℕ → DriveList → Bool × DriveList → MountState W → Type 0
IsUpdated ids list r s =
    Holds (surviving ids list.drives) r.1
    × (r.0 ≡ ltb (length (surviving ids list.drives)) (length list.drives))

module _ {W : Type 0} (h : Host W) (queries : Queries W) where
  abbrev IsLeft : List ManagedDrive → DriveList → MountState W → Type 0
  IsLeft drives list s = Holds drives list

  shrink_drives-Holds :
      (left : List ManagedDrive) (s : MountState W)
      → Surely (IsLeft left) (shrink_drives h queries left s)
  unfolding shrink_drives
  shrink_drives-Holds left s =
      let nothing : Probe W DriveList =
        mnt (io (free h.usb)) >> pure (record { has_drives = false; drives = [] }) in
      let shorter : Probe W DriveList =
        mnt (io (service (h.usb.allocate (length left * 8)))) >>= λ _.
        pure (record { has_drives = true; drives = left }) in
      Surely-if (IsLeft left) (length left == 0) nothing shorter s
        (λ e. record { entries = no_drives left e; array = refl })
        (λ e. record { entries = refl; array = ground arith })

  -- The drive behind `kept` is removed.
  remove-Holds :
      (kept : List ManagedDrive) (m : ManagedDrive) (rest : List ManagedDrive) (list : DriveList)
      (s : MountState W)
      → list.drives ≡ kept ++ (m ∷ rest)
      → Surely
          (IsLeft (kept ++ rest))
          (remove_drive_context_from_list_by_index h queries (length kept) false list s)
  unfolding remove_drive_context_from_list_by_index
  remove-Holds kept m rest list s e =
      let found : get_elem? list.drives (length kept) ≡ some m =
        ap (λ ds. get_elem? ds (length kept)) e ∙ get_elem-append kept m rest in
      let left : remove_at (length kept) list.drives ≡ kept ++ rest =
        ap (remove_at (length kept)) e ∙ remove_at-append kept m rest in
      subst
        (λ o. Surely (IsLeft (kept ++ rest)) (
          (elim o as (λ _. Probe W DriveList) [
            | none ↦ pure list
            | some m' ↦
                (destroy_context h false m'.drive >>= λ _.
                mnt (io (free h.usb))
                >> shrink_drives h queries (remove_at (length kept) list.drives))
          ])
            s))
        (sym found)
        (Surely-bind (λ _ _. Unit) (IsLeft (kept ++ rest)) (destroy_context h false m.drive) _ s
          (destroy_context_returns h m.drive s)
          (λ _ t _.
            subst
              (λ ds. Surely (IsLeft ds) (
                shrink_drives h queries (remove_at (length kept) list.drives)
                  (io (free h.usb) t).1))
              left
              (shrink_drives-Holds (remove_at (length kept) list.drives) (io (free h.usb) t).1)))

  -- What the loop over `rest` leaves, behind `kept`.
  abbrev IsSwept :
      List ManagedDrive → List ManagedDrive → List ℕ → ℕ → DriveList × ℕ → MountState W → Type 0
  IsSwept kept rest ids count r s =
      Holds (kept ++ surviving ids rest) r.0
      × (r.1 + length (surviving ids rest) ≡ count + length rest)

  remove_missing-IsSwept :
      (ids : List ℕ) (kept rest : List ManagedDrive) (list : DriveList) (count : ℕ)
      (s : MountState W)
      → Holds (kept ++ rest) list
      → Surely
          (IsSwept kept rest ids count)
          (remove_missing h queries ids (length rest) (length kept) list count s)
  unfolding remove_missing surviving
  remove_missing-IsSwept ids kept [] list count s holds = (holds, refl)
  remove_missing-IsSwept ids kept (m ∷ rest) list count s holds =
      let n = length rest in
      let found : get_elem? list.drives (length kept) ≡ some m =
        ap (λ ds. get_elem? ds (length kept)) holds.entries ∙ get_elem-append kept m rest in
      let keep : Probe W (DriveList × ℕ) =
        remove_missing h queries ids n (suc (length kept)) list count in
      let drop : Probe W (DriveList × ℕ) =
        remove_drive_context_from_list_by_index h queries (length kept) false list >>= λ list'.
        remove_missing h queries ids n (length kept) list' (suc count) in
      subst
        (λ o. Surely (IsSwept kept (m ∷ rest) ids count) (
          (elim o as (λ _. Probe W (DriveList × ℕ)) [
            | none ↦ pure (list, count)
            | some m' ↦
                if member m'.usb_if_id ids
                then remove_missing h queries ids n (suc (length kept)) list count
                else (remove_drive_context_from_list_by_index h queries (length kept) false list
                    >>= λ list'. remove_missing h queries ids n (length kept) list' (suc count))
          ])
            s))
        (sym found)
        (Surely-if (IsSwept kept (m ∷ rest) ids count) (member m.usb_if_id ids) keep drop s
          (λ e.
            let kept' = kept ++ (m ∷ []) in
            let one_more : length kept' ≡ suc (length kept) =
              omega (arith, length-append kept (m ∷ [])) in
            let all : surviving ids (m ∷ rest) ≡ m ∷ surviving ids rest = rw e refl in
            Surely-map (IsSwept kept' rest ids count) (IsSwept kept (m ∷ rest) ids count) (keep s)
              (λ r t swept. (
                record {
                  entries =
                      swept.0.entries
                      ∙ append_assoc kept m (surviving ids rest)
                      ∙ ap (λ ms. kept ++ ms) (sym all);
                  array = swept.0.array;
                },
                omega (arith, swept.1, ap length all),
              ))
              (subst
                (λ k.
                  Surely (IsSwept kept' rest ids count)
                    (remove_missing h queries ids n k list count s))
                one_more
                (remove_missing-IsSwept ids kept' rest list count s (record {
                  entries = holds.entries ∙ sym (append_assoc kept m rest);
                  array = holds.array;
                }))))
          (λ e.
            let fewer : surviving ids (m ∷ rest) ≡ surviving ids rest = rw e refl in
            Surely-bind (IsLeft (kept ++ rest)) (IsSwept kept (m ∷ rest) ids count)
              (remove_drive_context_from_list_by_index h queries (length kept) false list) _ s
              (remove-Holds kept m rest list s holds.entries)
              (λ list' t left.
                Surely-map (IsSwept kept rest ids (suc count)) (IsSwept kept (m ∷ rest) ids count)
                  (remove_missing h queries ids n (length kept) list' (suc count) t)
                  (λ r t' swept. (
                    record {
                      entries = swept.0.entries ∙ ap (λ ms. kept ++ ms) (sym fewer);
                      array = swept.0.array;
                    },
                    omega (arith, swept.1, ap length fewer),
                  ))
                  (remove_missing-IsSwept ids kept rest list' (suc count) t left))))

  -- If the query of the acquired interfaces succeeds and the array of drives is allocated just when
  -- it has entries, the update for removed drives returns, leaves exactly the drives whose
  -- interface is still acquired, in their order, with the array allocated just when there is one,
  -- and reports whether a drive was removed.
  pub update_drive_contexts-surviving :
      (list : DriveList) (ids : List ℕ) (s : MountState W)
      → list.has_drives ≡ not (length list.drives == 0)
      → (queries.acquired s.drive.world).0 ≡ (success, ids)
      → Surely (IsUpdated ids list) (update_drive_contexts h queries true list s)
  unfolding update_drive_contexts surviving
  update_drive_contexts-surviving list ids s array answered =
      let q = queries.acquired s.drive.world in
      let t = record s { drive = record s.drive { world = q.1 } } in
      let sweep : List ℕ → Probe W (Bool × DriveList) = λ left.
        remove_missing h queries left (length list.drives) 0 list 0 >>= λ (list', count).
        pure (ltb 0 count, list') in
      let look : Probe W (Bool × DriveList) = mnt (io (service queries.acquired)) >>= λ (rc, left).
      if failed rc then pure (false, list) else sweep left in
      Surely-if (IsUpdated ids list) (not list.has_drives || (length list.drives == 0))
        (pure (false, list)) look s
        (λ e.
          let same = nothing_removed ids list.drives (ground arith) in
          (record { entries = sym same; array = array }, ground (arith, ap length same)))
        (λ e.
          subst
            (λ x.
              Surely (IsUpdated ids list)
                ((if failed x.0 then pure (false, list) else sweep x.1) t))
            (sym answered)
            (Surely-bind (IsSwept [] list.drives ids 0) (IsUpdated ids list)
              (remove_missing h queries ids (length list.drives) 0 list 0) _ t
              (remove_missing-IsSwept ids [] list.drives list 0 t
                (record { entries = refl; array = array }))
              (λ r t' swept. (swept.0, ground (arith, swept.1)))))
