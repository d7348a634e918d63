-- ===== src/Manager/Surviving.antt =====
-- Lists of drives, and those of them whose interface is still there.
use libusbhsfs.Base.{
  ℕ, ◌≡◌, refl, ap, true, not, List, [], ◌∷◌, ◌++◌, some, arith, ◌==◌, if◌then◌else◌, length,
  get_elem?,
}
use libusbhsfs.Mount.DeviceId.Least.{member}
use libusbhsfs.Manager.{ManagedDrive, DriveList}
use libusbhsfs.Manager.Drives.{remove_at}

-- The drives whose interface is in the list, in their order.
unfoldable pub surviving : List ℕ → List ManagedDrive → List ManagedDrive
surviving ids [] = []
surviving ids (m ∷ ms) =
    let rest = surviving ids ms in if member m.usb_if_id ids then m ∷ rest else rest

pub get_elem-append :
    (kept : List ManagedDrive) (m : ManagedDrive) (rest : List ManagedDrive)
    → get_elem? (kept ++ (m ∷ rest)) (length kept) ≡ some m
get_elem-append [] m rest = refl
get_elem-append (k ∷ kept) m rest = get_elem-append kept m rest

pub remove_at-append :
    (kept : List ManagedDrive) (m : ManagedDrive) (rest : List ManagedDrive)
    → remove_at (length kept) (kept ++ (m ∷ rest)) ≡ kept ++ rest
unfolding remove_at
remove_at-append [] m rest = refl
remove_at-append (k ∷ kept) m rest = ap (λ t. k ∷ t) (remove_at-append kept m rest)

pub append_assoc :
    (kept : List ManagedDrive) (m : ManagedDrive) (rest : List ManagedDrive)
    → (kept ++ (m ∷ [])) ++ rest ≡ kept ++ (m ∷ rest)
append_assoc [] m rest = refl
append_assoc (k ∷ kept) m rest = ap (λ t. k ∷ t) (append_assoc kept m rest)

-- The array is allocated just when it has entries, and these are `drives`.
pub record Holds (drives : List ManagedDrive) (list : DriveList) : Type 0 where
  pub entries : list.drives ≡ drives
  pub array : list.has_drives ≡ not (length list.drives == 0)

pub no_drives : (ms : List ManagedDrive) → (length ms == 0) ≡ true → [] ≡ ms
no_drives [] e = refl
no_drives (m ∷ ms) e = absurd (ground arith)

pub nothing_removed :
    (ids : List ℕ) (ms : List ManagedDrive) → (length ms == 0) ≡ true → surviving ids ms ≡ ms
unfolding surviving
nothing_removed ids [] e = refl
nothing_removed ids (m ∷ ms) e = absurd (ground arith)
