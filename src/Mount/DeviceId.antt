-- ===== src/Mount/DeviceId.antt =====
-- source/usbhsfs_mount.c: usbHsFsMountGetAvailableDevoptabDeviceId().
pub mod Least
pub mod Enough
use libusbhsfs.Base.{
  ℕ, zero, suc, ◌+◌, ◌*◌, ◌%◌, ◌^◌, Bool, ◌&&◌, ◌||◌, not, List, Option, none, some, ◌==◌, leb,
  if◌then◌else◌, length, get_or,
}

-- The `while(true)` loop: `i` is the index, `ret` the candidate.
unfoldable pub available_loop : ℕ → List ℕ → ℕ → ℕ → Option ℕ
available_loop zero ids i ret = none
available_loop (suc fuel) ids i ret =
    if leb (length ids) i
    then some ret
    else let hit = ret == get_or ids i 0 in
      available_loop fuel ids (if hit then 0 else suc i) (if hit then (ret + 1) % 2 ^ 32 else ret)

abbrev pub loop_fuel : List ℕ → ℕ
loop_fuel ids = suc (length ids) * suc (length ids) + 1

-- `has_ids` is `g_devoptabDeviceIds != NULL`.
unfoldable pub find_available : Bool → List ℕ → Option ℕ
unfolding available_loop
find_available has_ids ids =
    if length ids == 0 || not has_ids then some 0 else available_loop (loop_fuel ids) ids 0 0

unfoldable pub available_device_id : Bool → List ℕ → ℕ
unfolding find_available
available_device_id has_ids ids = elim (find_available has_ids ids) [ none ↦ 0 | some ret ↦ ret ]
