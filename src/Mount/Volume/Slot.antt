-- ===== src/Mount/Volume/Slot.antt =====
-- The slot of a FAT volume, which is taken and given back.
use libusbhsfs.Base.{
  ℕ, zero, suc, ◌+◌, ◌≤◌, ◌≡◌, refl, ap, Bool, true, false, List, [], ◌∷◌, some, ◌==◌, arith, set,
  Bool-cases, inl, inr,
}
use libusbhsfs.Mount.Context.{FileSystemContext, fs_fat}
use libusbhsfs.Mount.Fat.{free_volume}
use libusbhsfs.Mount.Outcome.Mounted.{HasSlot, volumes_with}
use libusbhsfs.Mount.Volume.Destroyed.{volumes_without}

free_volume-le : (n m : ℕ) (table : List Bool) → free_volume n table ≡ some m → n ≤ m
unfolding free_volume
free_volume-le n m [] h = absurd (ground arith)
free_volume-le n m (false ∷ table) h = ground arith
free_volume-le n m (true ∷ table) h =
    let rest = free_volume-le (suc n) m table h in omega (arith, rest)

-- A slot that was the first free one is taken and given back.
set-free_volume :
    (n k : ℕ) (table : List Bool)
    → free_volume n table ≡ some (n + k)
    → set (set table k true) k false ≡ table
unfolding free_volume
set-free_volume n k [] h = absurd (ground arith)
set-free_volume n zero (false ∷ table) h = refl
set-free_volume n (suc k) (false ∷ table) h = absurd (ground arith)
set-free_volume n zero (true ∷ table) h =
    let below = free_volume-le (suc n) (n + 0) table h in absurd (omega (arith, below))
set-free_volume n (suc k) (true ∷ table) h =
    let next : free_volume (suc n) table ≡ some (suc n + k) = ground arith in
    ap (λ t. true ∷ t) (set-free_volume (suc n) k table next)

-- Only a FAT volume has a slot.
pub volumes-HasSlot :
    (table : List Bool) (c : FileSystemContext)
    → (c.fs_type ≡ fs_fat → HasSlot table c)
    → volumes_without c (volumes_with c.fs_type table) ≡ table
unfolding volumes_without volumes_with
volumes-HasSlot table c has = elim (Bool-cases (c.fs_type == fs_fat)) [
  | inl e ↦
      let h = has (ground arith) in
      let free = h.free in
      let here = h.here in
      let noted = h.noted in
      let first : free_volume 0 table ≡ some (0 + h.slot) = ground arith in
      let back = set-free_volume 0 h.slot table first in ground arith
  | inr e ↦ ground arith
]
