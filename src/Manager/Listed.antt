-- ===== src/Manager/Listed.antt =====
-- source/usbhsfs_manager.c: which devices usbHsFsPopulateDeviceList() lists.
use libusbhsfs.Base.{
  ℕ, zero, suc, ◌+◌, ◌-◌, ◌<◌, ◌≤◌, ◌≡◌, refl, sym, ap, ◌∙◌, Bool, true, false, ◌||◌, List, [], ◌∷◌,
  ◌++◌, arith, leb, if◌then◌else◌, length, take, length-append, Bool-cases, inl, inr,
}
use libusbhsfs.Scsi.Lun.{LogicalUnitContext}
use libusbhsfs.Mount.Context.{FatFs, FileSystemContext}
use libusbhsfs.Drive.Units.{StoredUnit}
use libusbhsfs.Manager.{
  ManagedDrive, Device, fill_device_element, units_of, populate_file_systems, populate_units,
  populate_drives, populate_device_list,
}

-- Every volume of every unit of every drive.
unfoldable pub file_systems :
    (FatFs → ℕ) → ManagedDrive → LogicalUnitContext → List FileSystemContext → List Device
file_systems fat_type m l [] = []
file_systems fat_type m l (c ∷ cs) =
    fill_device_element fat_type m l c ∷ file_systems fat_type m l cs

unfoldable pub devices_of_units : (FatFs → ℕ) → ManagedDrive → List StoredUnit → List Device
unfolding file_systems
devices_of_units fat_type m [] = []
devices_of_units fat_type m (u ∷ us) =
    file_systems fat_type m u.lun_ctx u.fs_ctx ++ devices_of_units fat_type m us

unfoldable pub all_devices : (FatFs → ℕ) → List ManagedDrive → List Device
unfolding devices_of_units
all_devices fat_type [] = []
all_devices fat_type (m ∷ ms) = devices_of_units fat_type m (units_of m) ++ all_devices fat_type ms

-- What a loop adds when `room` more elements fit: the first ones of all that it could add, and
-- whether there is no room left behind them.
record Fills (room : ℕ) (all : List Device) (r : List Device × Bool) : Type 0 where
  added : r.0 ≡ take room all
  full : r.1 ≡ leb room (length all)

-- Where a list is cut.
take_short : {A : Type 0} (n : ℕ) (xs ys : List A) → n ≤ length xs → take n (xs ++ ys) ≡ take n xs
take_short zero xs ys le = refl
take_short (suc n) [] ys le = absurd (omega (arith, le))
take_short (suc n) (x ∷ xs) ys le = ap (λ t. x ∷ t) (take_short n xs ys (omega arith))

take_long :
    {A : Type 0} (n : ℕ) (xs ys : List A)
    → length xs ≤ n
    → take n (xs ++ ys) ≡ xs ++ take (n - length xs) ys
take_long n [] ys le = ap (λ k. take k ys) (omega arith)
take_long zero (x ∷ xs) ys le = absurd (omega (arith, le))
take_long (suc n) (x ∷ xs) ys le =
    let shorter : suc n - length (x ∷ xs) ≡ n - length xs = omega arith in
    ap (λ t. x ∷ t) (take_long n xs ys (omega arith) ∙ ap (λ k. xs ++ take k ys) (sym shorter))

take_all : {A : Type 0} (n : ℕ) (xs : List A) → length xs ≤ n → take n xs ≡ xs
take_all zero [] le = refl
take_all zero (x ∷ xs) le = absurd (omega (arith, le))
take_all (suc n) [] le = refl
take_all (suc n) (x ∷ xs) le = ap (λ t. x ∷ t) (take_all n xs (omega arith))

-- One list of volumes, and then the rest if there is room.
Fills-append :
    (room : ℕ) (xs ys : List Device) (here rest : List Device × Bool)
    → Fills room xs here
    → (length xs < room → here.0 ≡ xs → Fills (room - length xs) ys rest)
    → Fills room (xs ++ ys) (if here.1 then here else (here.0 ++ rest.0, rest.1))
Fills-append room xs ys here rest h k = elim (Bool-cases here.1) [
  | inl e ↦
      let le : room ≤ length xs = ground (arith, h.full) in
      rw e (record {
        added = h.added ∙ sym (take_short room xs ys le);
        full = ground (arith, length-append xs ys);
      })
  | inr e ↦
      let lt : length xs < room = ground (arith, h.full) in
      let whole : here.0 ≡ xs = h.added ∙ take_all room xs (omega arith) in
      let r = k lt whole in
      rw e (record {
        added =
            ap (λ zs. zs ++ rest.0) whole
            ∙ ap (λ zs. xs ++ zs) r.added
            ∙ sym (take_long room xs ys (omega arith));
        full = ground (arith, length-append xs ys, r.full);
      })
]

module _ (fat_type : FatFs → ℕ) (device_count max_count : ℕ) where
  -- Up to both limits, `room` more elements fit behind `ret`.
  abbrev Fits : ℕ → ℕ → Type 0
  Fits ret room =
      (1 ≤ room) × (room + ret ≡ (if leb max_count device_count then max_count else device_count))

  populate_file_systems-Fills :
      (m : ManagedDrive) (l : LogicalUnitContext) (cs : List FileSystemContext) (ret room : ℕ)
      → Fits ret room
      → Fills room
          (file_systems fat_type m l cs)
          (populate_file_systems fat_type device_count max_count m l cs ret)
  unfolding populate_file_systems file_systems
  populate_file_systems-Fills m l [] ret zero fits = absurd (omega (arith, fits))
  populate_file_systems-Fills m l [] ret (suc room) fits = record {
    added = refl;
    full = ground arith;
  }
  populate_file_systems-Fills m l (c ∷ cs) ret zero fits = absurd (omega (arith, fits))
  populate_file_systems-Fills m l (c ∷ cs) ret (suc zero) fits =
      let last : leb max_count (suc ret) || leb device_count (suc ret) ≡ true = ground arith in
      rw last (record { added = refl; full = ground arith })
  populate_file_systems-Fills m l (c ∷ cs) ret (suc (suc room)) fits =
      let more : leb max_count (suc ret) || leb device_count (suc ret) ≡ false = ground arith in
      let r = populate_file_systems-Fills m l cs (suc ret) (suc room) (omega (arith, fits)) in
      rw more (record {
        added = ap (λ ds. fill_device_element fat_type m l c ∷ ds) r.added;
        full = ground (arith, r.full);
      })

  populate_units-Fills :
      (m : ManagedDrive) (us : List StoredUnit) (ret room : ℕ)
      → Fits ret room
      → Fills room
          (devices_of_units fat_type m us)
          (populate_units fat_type device_count max_count m us ret)
  unfolding populate_units devices_of_units
  populate_units-Fills m [] ret zero fits = absurd (omega (arith, fits))
  populate_units-Fills m [] ret (suc room) fits = record { added = refl; full = ground arith }
  populate_units-Fills m (u ∷ us) ret room fits =
      let xs = file_systems fat_type m u.lun_ctx u.fs_ctx in
      let here = populate_file_systems fat_type device_count max_count m u.lun_ctx u.fs_ctx ret in
      Fills-append room xs (devices_of_units fat_type m us) here _
        (populate_file_systems-Fills m u.lun_ctx u.fs_ctx ret room fits)
        (λ lt whole.
          populate_units-Fills m us (ret + length here.0) (room - length xs)
            (let same : length here.0 ≡ length xs = ap length whole in omega (arith, fits, same)))

  populate_drives-Fills :
      (ms : List ManagedDrive) (ret room : ℕ)
      → Fits ret room
      → Fills room
          (all_devices fat_type ms)
          (populate_drives fat_type device_count max_count ms ret)
  unfolding populate_drives all_devices
  populate_drives-Fills [] ret zero fits = absurd (omega (arith, fits))
  populate_drives-Fills [] ret (suc room) fits = record { added = refl; full = ground arith }
  populate_drives-Fills (m ∷ ms) ret room fits =
      let xs = devices_of_units fat_type m (units_of m) in
      let here = populate_units fat_type device_count max_count m (units_of m) ret in
      Fills-append room xs (all_devices fat_type ms) here _
        (populate_units-Fills m (units_of m) ret room fits)
        (λ lt whole.
          populate_drives-Fills ms (ret + length here.0) (room - length xs)
            (let same : length here.0 ≡ length xs = ap length whole in omega (arith, fits, same)))

-- If neither limit is 0, the list holds the first volumes of all units of all drives, in their order,
-- as many as the smaller limit allows.
pub populate_device_list-all_devices :
    (fat_type : FatFs → ℕ) (device_count max_count : ℕ) (drives : List ManagedDrive)
    → 1 ≤ device_count
    → 1 ≤ max_count
    → populate_device_list fat_type device_count max_count drives
      ≡ take
          (if leb max_count device_count then max_count else device_count)
          (all_devices fat_type drives)
unfolding populate_device_list
populate_device_list-all_devices fat_type device_count max_count drives some_device some_room =
    (populate_drives-Fills fat_type device_count max_count drives 0
      (if leb max_count device_count then max_count else device_count)
      (ground arith, ground arith)).added
