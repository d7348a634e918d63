-- ===== src/Disk/Ntfs/Range.antt =====
-- The sectors that a range of bytes lies in.
use native.Mathlib.Omega.{div_any}
use native.Mathlib.Nat.{mod-lt, div-le_self, mul-le-mul_left, mul-le-mul_right}
use libusbhsfs.Base.{
  ℕ, zero, suc, ◌+◌, ◌-◌, ◌*◌, ◌/◌, ◌%◌, ◌^◌, ◌≤◌, ◌<◌, ◌≡◌, ◌==◌, ltb, leb, if◌then◌else◌, arith,
  Bool-cases, inl, inr,
}
use libusbhsfs.Mount.Context.{NtfsDd}
use libusbhsfs.Disk.Ntfs.{Doubles, Geometry, Sectors, sectors_of}

-- A double holds whole numbers up to 2 ^ 53: below it a quotient is rounded as the exact one is.
pub record IsExact (doubles : Doubles) : Type 0 where
  pub floors : (a b : ℕ) → a < 2 ^ 53 → 0 < b → doubles.floor_quotient a b ≡ a / b
  pub ceils : (a b : ℕ) → a < 2 ^ 53 → 0 < b → doubles.ceil_quotient a b ≡ (a + b - 1) / b

-- `v` are the sectors of `len` bytes, of a volume that begins at `start`, in which `count` bytes at
-- `offset` lie, and no others.
pub record Covers (len start offset count : ℕ) (v : Sectors) : Type 0 where
  pub offset_in : v.buffer_offset ≡ offset % len
  pub at : v.start * len + v.buffer_offset ≡ start * len + offset
  pub below : v.buffer_offset < len
  pub covered : v.buffer_offset + count ≤ v.count * len
  pub tight : v.count * len < v.buffer_offset + count + len
  pub one : 1 ≤ v.count
  pub small : v.count < 2 ^ 32

quotient_lem : (a b : ℕ) → 0 < b → (a % b < b) × (a / b * b + a % b ≡ a)
quotient_lem a b pos = (mod-lt a pos, omega (arith, div_any a b))

pos_of_product : (c len n : ℕ) → 0 < n → n ≤ c * len → 1 ≤ c
pos_of_product zero len n pos h = absurd (omega (arith, pos, h))
pos_of_product (suc c) len n pos h = omega arith

small_of_product : (c len : ℕ) → 512 ≤ len → c * len < 2 ^ 40 → c < 2 ^ 32
small_of_product c len big h = omega (arith, mul-le-mul_left c big)

module _ (doubles : Doubles) (exact : IsExact doubles) (len : ℕ) (big : 512 ≤ len)
    (short : len < 2 ^ 16) where
  -- The number of sectors, for `a` bytes from the start of the first one.
  abbrev number : ℕ → ℕ
  number a = if ltb len a then doubles.ceil_quotient a len else 1

  number_lem : (a : ℕ) → 0 < a → a < 2 ^ 53 → (a ≤ number a * len) × (number a * len < a + len)
  number_lem a pos far =
      let ceil = exact.ceils a len far (omega (arith, big)) in
      let (m, e) = quotient_lem (a + len - 1) len (omega (arith, big)) in
      let bounds : (a ≤ (a + len - 1) / len * len) × ((a + len - 1) / len * len < a + len) =
        (omega (arith, m, e), omega (arith, m, e)) in
      elim (Bool-cases (ltb len a)) [
        | inl h ↦ rw (h, ceil) bounds
        | inr h ↦ rw h (ground arith, ground arith)
      ]

  abbrev first : ℕ → ℕ → ℕ
  first start offset =
      if offset == 0 then start else (start + doubles.floor_quotient offset len) % 2 ^ 64

  first_lem :
      (start offset : ℕ)
      → offset < 2 ^ 53
      → start + offset < 2 ^ 64
      → first start offset * len + offset % len ≡ start * len + offset
  first_lem start offset far fits =
      let floor = exact.floors offset len far (omega (arith, big)) in
      let (m, e) = quotient_lem offset len (omega (arith, big)) in
      let below : offset / len ≤ offset = div-le_self offset len in
      let same : (start + offset / len) % 2 ^ 64 ≡ start + offset / len =
        omega (arith, below, fits) in
      elim (Bool-cases (offset == 0)) [
        | inl h ↦
            let zero_offset : offset ≡ 0 = ground arith in rw h (omega (arith, e, zero_offset))
        | inr h ↦ rw (h, floor, same) (omega (arith, e))
      ]

module _ (doubles : Doubles) (exact : IsExact doubles) (dd : NtfsDd) (g : Geometry)
    (offset count : ℕ) (big : 512 ≤ g.sector_size) (short : g.sector_size < 2 ^ 16)
    (some_bytes : 0 < count) (far : offset < 2 ^ 53) (long : count < 2 ^ 32)
    (fits : dd.sector_start + offset < 2 ^ 64) where
  pub sectors_of-Covers :
      Covers g.sector_size dd.sector_start offset count (sectors_of doubles dd g offset count)
  unfolding sectors_of
  sectors_of-Covers =
      let (below, e) = quotient_lem offset g.sector_size (omega (arith, big)) in
      let r : offset % g.sector_size % 2 ^ 32 ≡ offset % g.sector_size =
        omega (arith, below, short) in
      let (covered, tight) =
        number_lem doubles exact g.sector_size big short (offset % g.sector_size % 2 ^ 32 + count)
          (omega (arith, some_bytes)) (omega (arith, long)) in
      record {
        offset_in = r;
        at = rw r (first_lem doubles exact g.sector_size big short dd.sector_start offset far fits);
        below = rw r below;
        covered = covered;
        tight = tight;
        one =
            pos_of_product _ g.sector_size (offset % g.sector_size % 2 ^ 32 + count)
              (omega (arith, some_bytes)) covered;
        small = small_of_product _ g.sector_size big (omega (arith, tight, long, short));
      }

-- The range lies on a volume of a unit with `size` sectors.
pub record IsInside (dd : NtfsDd) (g : Geometry) (size offset count : ℕ) : Type 0 where
  pub big : 512 ≤ g.sector_size
  pub short : g.sector_size < 2 ^ 16
  pub some_bytes : 0 < count
  pub far : offset < 2 ^ 53
  pub long : count < 2 ^ 32
  pub inside : dd.sector_start * g.sector_size + offset + count ≤ size * g.sector_size
  pub small : size < 2 ^ 63

le_of_product : (a b len : ℕ) → a * len < (b + 1) * len → a ≤ b
le_of_product a b len h = elim (Bool-cases (leb a b)) [
  | inl e ↦ ground arith
  | inr e ↦
      let more : b + 1 ≤ a = ground arith in absurd (omega (arith, h, mul-le-mul_right len more))
]

module _ (doubles : Doubles) (exact : IsExact doubles) (dd : NtfsDd) (g : Geometry)
    (size offset count : ℕ) (range : IsInside dd g size offset count) where
  pub IsInside-Covers :
      Covers g.sector_size dd.sector_start offset count (sectors_of doubles dd g offset count)
  IsInside-Covers =
      let start =
        le_of_product dd.sector_start size g.sector_size (omega (arith, range.inside, range.big)) in
      sectors_of-Covers doubles exact dd g offset count range.big range.short range.some_bytes
        range.far range.long (omega (arith, start, range.small, range.far))

  -- The sectors are there.
  pub IsInside-le : let v = sectors_of doubles dd g offset count in v.start + v.count ≤ size
  IsInside-le =
      let v = sectors_of doubles dd g offset count in
      let c = IsInside-Covers in
      le_of_product (v.start + v.count) size g.sector_size
        (omega (arith, c.at, c.tight, range.inside))

-- Bytes that end with a sector fill it.
pub fills_lem :
    (c len n : ℕ) → 0 < len → n % len ≡ 0 → n ≤ c * len → c * len < n + len → c * len ≡ n
fills_lem c len n pos whole lower upper =
    let (m, e) = quotient_lem n len pos in
    let bound = le_of_product c (n / len) len (omega (arith, upper, e, whole)) in
    omega (arith, lower, e, whole, mul-le-mul_right len bound)

pub aligned_lem :
    (len start offset count : ℕ) (v : Sectors)
    → 0 < len
    → Covers len start offset count v
    → v.buffer_offset ≡ 0
    → count % len ≡ 0
    → v.count * len ≡ count
aligned_lem len start offset count v pos c none_before none_behind =
    fills_lem v.count len count pos none_behind (omega (arith, c.covered, none_before))
      (omega (arith, c.tight, none_before))
