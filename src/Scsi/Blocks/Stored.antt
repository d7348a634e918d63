-- ===== src/Scsi/Blocks/Stored.antt =====
-- The loop over write commands against one change of the disk.
use libusbhsfs.Base.{
  ℕ, zero, suc, ◌+◌, ◌-◌, ◌*◌, ◌^◌, ◌≤◌, ◌<◌, ◌≡◌, refl, sym, ap, ◌∙◌, fun_ext, inl, inr, Bool,
  true, false, some, arith, ◌==◌, Bool-cases,
}
use libusbhsfs.Bytes.{Buf, memcpy, shift, unshift}
use libusbhsfs.Usb.{State}
use libusbhsfs.Cmd.{Cmd, ◌>>=◌}
use libusbhsfs.Scsi.Blocks.{blocks_loop, start_span}
use libusbhsfs.Scsi.Blocks.Steps.{
  memcpy-join, memcpy-zero, span, chunk, chunk-le, chunk-pos, next_span_lem,
}

-- A command that writes to the disk that `disk_of` finds in the state, as long as `Ready` holds: it
-- succeeds, keeps the caller's buffer, and puts its blocks where they belong.
pub record IsWriter {W : Type 0} (cmd : ℕ → ℕ → Buf → Cmd W (Bool × Buf)) (disk_of : State W → Buf)
    (len size max : ℕ) (Ready : State W → Type 0) : Type 0 where
  pub next : ℕ → ℕ → Buf → State W → State W
  pub keeps : (a n : ℕ) (b : Buf) (s : State W) → Ready s → Ready (next a n b s)
  pub stores :
      (a n : ℕ) (b : Buf) (s : State W)
      → Ready s
      → disk_of (next a n b s) ≡ memcpy (disk_of s) (a * len) b (n * len)
  pub writes :
      (a n : ℕ) (b : Buf) (s : State W)
      → Ready s
      → n ≤ max
      → a + n ≤ size
      → cmd a n b s ≡ some ((true, b), next a n b s)

unshift-shift : (t : ℕ) (b : Buf) → unshift t (shift t b) b ≡ b
unfolding unshift shift
unshift-shift t b = fun_ext λ i. ground (arith, back)
  where
    back : (i : ℕ) → t ≤ i → b (t + (i - t)) ≡ b i
    back i h = let same : t + (i - t) ≡ i = omega arith in ap b same

-- The disk behind the first command and the rest of the loop.
disk_step :
    (disk b : Buf) (a t c n len : ℕ)
    → n ≤ c
    → memcpy
        (memcpy disk (a * len) (shift t b) (n * len))
        ((a + n) * len)
        (shift (t + n * len) b)
        ((c - n) * len)
      ≡ memcpy disk (a * len) (shift t b) (c * len)
disk_step disk b a t c n len h =
    rw (addr, memcpy-join disk b (a * len) (n * len) ((c - n) * len) t, count)
  where
    addr : (a + n) * len ≡ a * len + n * len
    addr = omega arith

    count : n * len + (c - n) * len ≡ c * len
    count = grind arith

module _ {W : Type 0} (cmd : ℕ → ℕ → Buf → Cmd W (Bool × Buf)) (disk_of : State W → Buf)
    (len size max : ℕ) (Ready : State W → Type 0) (writer : IsWriter cmd disk_of len size max Ready)
    (max_pos : 0 < max) (small : size < 2 ^ 64) where
  -- The loop's outcome from a state: it succeeds, and the disk holds the blocks.
  abbrev Stores : ℕ → ℕ → ℕ → ℕ → Buf → State W → Type 0
  Stores rounds a t c b s =
      (s' : State W) × Ready s'
      × (blocks_loop cmd max len rounds (span a t c b) s ≡ some ((true, b), s'))
      × (disk_of s' ≡ memcpy (disk_of s) (a * len) (shift t b) (c * len))

  none_left :
      (rounds a t c : ℕ) (b : Buf) (s : State W)
      → Ready s
      → (c == 0) ≡ true
      → Stores rounds a t c b s
  unfolding blocks_loop
  none_left zero a t c b s ready e =
      (s, ready, rw e refl, sym (memcpy-zero (disk_of s) (shift t b) (a * len) c len e))
  none_left (suc rounds) a t c b s ready e =
      (s, ready, rw e refl, sym (memcpy-zero (disk_of s) (shift t b) (a * len) c len e))

  some_left :
      (rounds a t c : ℕ) (b : Buf) (s : State W)
      → Ready s
      → (c == 0) ≡ false
      → a + c ≤ size
      → t + c * len < 2 ^ 64
      → let n = chunk max c in
        Stores rounds (a + n) (t + n * len) (c - n) b (writer.next a n (shift t b) s)
        → Stores (suc rounds) a t c b s
  unfolding blocks_loop
  some_left rounds a t c b s ready e fits room (s', ready', rest, stored) = (
    s',
    ready',
    rw
        (
          e,
          writer.writes a (chunk max c) (shift t b) s ready (chunk-le max c).1
              (omega (arith, chunk-le max c)),
          ◌>>=◌,
          unshift-shift t b,
          next_span_lem max len a t c b b (omega arith) room,
        )
        rest,
    stored
        ∙ rw (writer.stores a (chunk max c) (shift t b) s ready)
            (disk_step (disk_of s) b a t c (chunk max c) len (chunk-le max c).0),
  )

  loop-Stores :
      (rounds a t c : ℕ) (b : Buf) (s : State W)
      → Ready s
      → c ≤ rounds
      → a + c ≤ size
      → t + c * len < 2 ^ 64
      → Stores rounds a t c b s
  loop-Stores zero a t c b s ready enough fits room = none_left zero a t c b s ready (ground arith)
  loop-Stores (suc rounds) a t c b s ready enough fits room = elim (Bool-cases (c == 0)) [
    | inl e ↦ none_left (suc rounds) a t c b s ready e
    | inr e ↦ some_left rounds a t c b s ready e fits room (
        loop-Stores rounds (a + chunk max c) (t + chunk max c * len) (c - chunk max c) b _
          (writer.keeps a (chunk max c) (shift t b) s ready)
          (omega (arith, chunk-le max c, chunk-pos max c max_pos e)) (omega (arith, chunk-le max c))
          (grind (arith, chunk-le max c)))
  ]

-- If every command within the limit writes its blocks to the disk faithfully, the loop succeeds,
-- whatever the number of commands, the caller's buffer is unchanged, and the disk then holds the
-- caller's blocks where they belong and is otherwise unchanged.
pub blocks_loop-writes :
    {W : Type 0} (cmd : ℕ → ℕ → Buf → Cmd W (Bool × Buf)) (disk_of : State W → Buf)
    (len size max : ℕ) (Ready : State W → Type 0) (block_addr block_count : ℕ) (buf : Buf)
    (s : State W)
    → IsWriter cmd disk_of len size max Ready
    → 0 < max
    → size < 2 ^ 64
    → block_addr + block_count ≤ size
    → block_count * len < 2 ^ 64
    → Ready s
    → (s' : State W) × Ready s'
      × (blocks_loop cmd max len block_count (start_span buf block_addr block_count) s
          ≡ some ((true, buf), s'))
      × (disk_of s' ≡ memcpy (disk_of s) (block_addr * len) (shift 0 buf) (block_count * len))
blocks_loop-writes cmd disk_of len size max Ready addr count buf s writer pos small fits room
      ready =
    loop-Stores cmd disk_of len size max Ready writer pos small count addr 0 count buf s ready
      (omega arith) fits (omega arith)
