-- ===== src/Disk/Ntfs/Seek.antt =====
-- The position of the device.
use libusbhsfs.Base.{ℕ, ◌+◌, ◌-◌, ◌^◌, ◌%◌, ◌≤◌, ◌<◌, ◌≡◌, ltb, some, arith, if◌then◌else◌}
use libusbhsfs.Disk.Ntfs.{Geometry, Whence, seek_set, seek_cur, seek_end, other_whence, seek_pos}

pub seek_pos-le :
    (g : Geometry) (offset pos : ℕ) (whence : Whence)
    → seek_pos g offset whence ≡ some pos
    → pos ≤ g.len
unfolding seek_pos
seek_pos-le g offset pos seek_set h = ground arith
seek_pos-le g offset pos seek_cur h = ground arith
seek_pos-le g offset pos seek_end h = ground arith
seek_pos-le g offset pos other_whence h = absurd (ground arith)

-- A seek backwards from the position, by fewer than 2 ^ 63 bytes, goes there, if there are as many
-- bytes before it; otherwise it goes to the end of the volume, not to its start, if the position is
-- in the volume and the volume is shorter than 2 ^ 63 bytes.
pub seek_pos-back :
    (g : Geometry) (back : ℕ)
    → 0 < back
    → back < 2 ^ 63
    → g.pos ≤ g.len
    → g.len < 2 ^ 63
    → seek_pos g (2 ^ 64 - back) seek_cur ≡ some (if ltb g.pos back then g.len else g.pos - back)
unfolding seek_pos
seek_pos-back g back some_back below inside small =
    let word : (g.pos + (2 ^ 64 - back)) % 2 ^ 64
        ≡ (if ltb g.pos back then g.pos + (2 ^ 64 - back) else g.pos - back) =
      ground arith in
    ground arith
