-- ===== src/Scsi/Blocks/Steps.antt =====
-- One round of the loop over commands: the variables behind it, and how copies join.
use libusbhsfs.Base.{
  ℕ, ◌+◌, ◌-◌, ◌*◌, ◌%◌, ◌^◌, ◌≤◌, ◌<◌, ◌≡◌, fun_ext, true, false, arith, ◌==◌, ltb, if◌then◌else◌,
}
use libusbhsfs.Bytes.{Buf, memcpy, shift, unshift}
use libusbhsfs.Scsi.Blocks.{Span, next_span}

-- Copying a part behind what is copied already.
pub memcpy-append :
    (b src : Buf) (off n m : ℕ)
    → unshift off (memcpy (shift off b) 0 (shift n src) m) b ≡ memcpy b off (shift n src) m
unfolding unshift memcpy shift
memcpy-append b src off n m = fun_ext λ i. ground arith

pub memcpy-join :
    (b src : Buf) (off n m k : ℕ)
    → memcpy (memcpy b off (shift k src) n) (off + n) (shift (k + n) src) m
      ≡ memcpy b off (shift k src) (n + m)
unfolding memcpy shift
memcpy-join b src off n m k = fun_ext λ i. ground arith

pub memcpy-zero : (b src : Buf) (off c len : ℕ) → (c == 0) ≡ true → memcpy b off src (c * len) ≡ b
unfolding memcpy
memcpy-zero b src off c len e =
    let none_left : c * len ≡ 0 = grind arith in fun_ext λ i. ground (arith, none_left)

abbrev pub span : ℕ → ℕ → ℕ → Buf → Span
span a t c b = record { cur_block_addr = a; data_transferred = t; block_count = c; buf = b }

-- The buffer behind the first command and the rest of the loop.
pub memcpy_step :
    (b disk : Buf) (a t c n len : ℕ)
    → n ≤ c
    → memcpy
        (unshift t (memcpy (shift t b) 0 (shift (a * len) disk) (n * len)) b)
        (t + n * len)
        (shift ((a + n) * len) disk)
        ((c - n) * len)
      ≡ memcpy b t (shift (a * len) disk) (c * len)
memcpy_step b disk a t c n len h = rw (
  memcpy-append b disk t (a * len) (n * len),
  addr,
  memcpy-join b disk t (n * len) ((c - n) * len) (a * len),
  count,
)
  where
    addr : (a + n) * len ≡ a * len + n * len
    addr = omega arith

    count : n * len + (c - n) * len ≡ c * len
    count = grind arith

wrap_addr : (a c n : ℕ) → n ≤ c → a + c < 2 ^ 64 → (a + n) % 2 ^ 64 ≡ a + n
wrap_addr a c n h k = omega arith

wrap_transferred :
    (t c n len : ℕ) → n ≤ c → t + c * len < 2 ^ 64 → (t + n * len) % 2 ^ 64 ≡ t + n * len
wrap_transferred t c n len h k = let below : n * len ≤ c * len = grind arith in omega (arith, below)

abbrev pub chunk : ℕ → ℕ → ℕ
chunk max c = if ltb max c then max else c

pub chunk-le : (max c : ℕ) → (chunk max c ≤ c) × (chunk max c ≤ max)
chunk-le max c = ground arith

pub chunk-pos : (max c : ℕ) → 0 < max → (c == 0) ≡ false → 0 < chunk max c
chunk-pos max c h e = ground arith

pub next_span_lem :
    (max len a t c : ℕ) (buf b : Buf)
    → a + c < 2 ^ 64
    → t + c * len < 2 ^ 64
    → next_span max len buf (span a t c b)
      ≡ span (a + chunk max c) (t + chunk max c * len) (c - chunk max c) buf
unfolding next_span
next_span_lem max len a t c buf b h k = λ i. record {
  cur_block_addr = wrap_addr a c (chunk max c) (chunk-le max c).0 h i;
  data_transferred = wrap_transferred t c (chunk max c) len (chunk-le max c).0 k i;
  block_count = c - chunk max c;
  buf = buf;
}
