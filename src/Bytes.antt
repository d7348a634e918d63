-- ===== src/Bytes.antt =====
-- Machine words as byte sequences, and memory. A `Buf` is the memory behind a pointer: it gives
-- the byte at each offset.
use Prim.Native.Nat.{bit_and}
use libusbhsfs.Base.{
  ℕ, zero, suc, ◌+◌, ◌-◌, ◌*◌, ◌/◌, ◌%◌, ◌^◌, List, [], ◌∷◌, ◌&&◌, ltb, leb, if◌then◌else◌, get_or,
}

abbrev pub Buf : Type 0
Buf = ℕ → ℕ

-- Byte `i` of a word, counted from the least significant one.
abbrev pub byte : ℕ → ℕ → ℕ
byte x i = x / 2 ^ (8 * i) % 256

-- `__builtin_bswap16`, `32` and `64`.
unfoldable pub bswap16 : ℕ → ℕ
bswap16 x = byte x 0 * 2 ^ 8 + byte x 1

unfoldable pub bswap32 : ℕ → ℕ
bswap32 x = byte x 0 * 2 ^ 24 + byte x 1 * 2 ^ 16 + byte x 2 * 2 ^ 8 + byte x 3

unfoldable pub bswap64 : ℕ → ℕ
unfolding bswap32
bswap64 x = bswap32 (x % 2 ^ 32) * 2 ^ 32 + bswap32 (x / 2 ^ 32 % 2 ^ 32)

-- The bytes of a word as they lie in memory: least significant first.
unfoldable pub le_bytes : ℕ → ℕ → List ℕ
le_bytes zero x = []
le_bytes (suc n) x = (x % 256) ∷ le_bytes n (x / 256)

-- The word whose bytes lie at `off`, least significant first.
abbrev pub load_le16 : Buf → ℕ → ℕ
load_le16 b off = b off + b (off + 1) * 2 ^ 8

abbrev pub load_le32 : Buf → ℕ → ℕ
load_le32 b off = b off + b (off + 1) * 2 ^ 8 + b (off + 2) * 2 ^ 16 + b (off + 3) * 2 ^ 24

abbrev pub load_le64 : Buf → ℕ → ℕ
load_le64 b off = load_le32 b off + load_le32 b (off + 4) * 2 ^ 32

-- `memcpy(dst + off, src, n)` and `memset(dst + off, v, n)`.
unfoldable pub memcpy : Buf → ℕ → Buf → ℕ → Buf
memcpy dst off src n = λ i. if leb off i && ltb i (off + n) then src (i - off) else dst i

unfoldable pub memset : Buf → ℕ → ℕ → ℕ → Buf
memset dst off v n = λ i. if leb off i && ltb i (off + n) then v else dst i

-- `memcpy` from a list of bytes to the start of a buffer.
unfoldable pub store_list : List ℕ → Buf → Buf
store_list bytes dst = λ i. get_or bytes i (dst i)

-- The memory behind `dst + off`, and `dst` after a change of the memory behind `dst + off`.
unfoldable pub shift : ℕ → Buf → Buf
shift off b = λ i. b (off + i)

unfoldable pub unshift : ℕ → Buf → Buf → Buf
unshift off part b = λ i. if leb off i then part (i - off) else b i

-- `ALIGN_DOWN(x, y)` on 32-bit words: `x & ~(y - 1)`.
unfoldable pub align_down : ℕ → ℕ → ℕ
align_down x y = bit_and x ((2 ^ 32 - y) % 2 ^ 32)
