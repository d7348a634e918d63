-- ===== src/Disk/Ntfs/Edges.antt =====
-- The buffer of a write that is not aligned: the disk's bytes before and behind the caller's.
use libusbhsfs.Base.{
  ℕ, ◌+◌, ◌-◌, ◌≤◌, ◌<◌, ◌≡◌, refl, ap, ◌∙◌, fun_ext, Bool, true, false, ltb, if◌then◌else◌, arith,
  Bool-cases, inl, inr,
}
use libusbhsfs.Bytes.{Buf, memcpy, shift, unshift}

-- The buffer with the sector that lies at `base` of the disk in place at `off`, if it is needed.
unfoldable pub edged : Bool → ℕ → ℕ → ℕ → Buf → Buf → Buf
edged needed len off base disk buffer =
    if needed
    then unshift off (memcpy (shift off buffer) 0 (shift base disk) len) buffer
    else buffer

-- Inside the sector the edge is the disk, before it the buffer is as it was.
pub edged_inside :
    (len off at : ℕ) (disk buffer : Buf) (i : ℕ)
    → off ≤ i
    → i < off + len
    → edged true len off (at + off) disk buffer i ≡ disk (at + i)
unfolding edged memcpy shift unshift
edged_inside len off at disk buffer i from below =
    let there : at + off + (i - off) ≡ at + i = omega (arith, from) in
    let byte = ap disk there in ground arith

pub edged_before :
    (needed : Bool) (len off at : ℕ) (disk buffer : Buf) (i : ℕ)
    → i < off
    → edged needed len off at disk buffer i ≡ buffer i
unfolding edged memcpy shift unshift
edged_before true len off at disk buffer i below = ground arith
edged_before false len off at disk buffer i below = refl

-- A buffer that is the disk but for the caller's bytes.
write_through :
    (disk mid buf : Buf) (at all off count i : ℕ)
    → off + count ≤ all
    → ((j : ℕ) → j < off → mid j ≡ disk (at + j))
    → ((j : ℕ) → off + count ≤ j → j < all → mid j ≡ disk (at + j))
    → memcpy disk at (memcpy mid off buf count) all i ≡ memcpy disk (at + off) buf count i
unfolding memcpy
write_through disk mid buf at all off count i covered before behind =
    let here : i - at < off → mid (i - at) ≡ disk (at + (i - at)) = before (i - at) in
    let there : off + count ≤ i - at → i - at < all → mid (i - at) ≡ disk (at + (i - at)) =
      behind (i - at) in
    let same : at ≤ i → disk (at + (i - at)) ≡ disk i = λ h. ap disk (omega (arith, h)) in
    let inner : at ≤ i → buf (i - at - off) ≡ buf (i - (at + off)) =
      λ h. ap buf (omega (arith, h)) in
    ground arith

-- `last` is the offset of the last sector in the buffer, and `at` the place of the first one on the
-- disk.
abbrev pub both_edges : Bool → Bool → ℕ → ℕ → ℕ → Buf → Buf → Buf
both_edges first_needed last_needed len last at disk heap =
    edged last_needed len last (at + last) disk (edged first_needed len 0 (at + 0) disk heap)

module _ (disk heap : Buf) (at len all off count last : ℕ) (first_needed last_needed : Bool)
    (below : off < len) (covered : off + count ≤ all) (tight : all < off + count + len)
    (last_sector : last + len ≡ all) (first : first_needed ≡ false → off ≡ 0)
    (whole : last_needed ≡ false → all ≡ off + count) where
  abbrev mid : Buf
  mid = both_edges first_needed last_needed len last at disk heap

  behind : (i : ℕ) → off + count ≤ i → i < all → mid i ≡ disk (at + i)
  behind i from inside = elim (Bool-cases last_needed) [
    | inl e ↦ rw e (
        edged_inside len last at disk (edged first_needed len 0 (at + 0) disk heap) i (omega arith)
          (omega arith))
    | inr e ↦ absurd (omega (arith, whole e, from, inside))
  ]

  first_edge : (i : ℕ) → i < off → edged first_needed len 0 (at + 0) disk heap i ≡ disk (at + i)
  first_edge i inside = elim (Bool-cases first_needed) [
    | inl e ↦ rw e (edged_inside len 0 at disk heap i (omega arith) (omega arith))
    | inr e ↦ absurd (omega (arith, first e, inside))
  ]

  before : (i : ℕ) → i < off → mid i ≡ disk (at + i)
  unfolding edged
  before i inside = elim (Bool-cases (ltb i last)) [
    | inl e ↦
        edged_before last_needed len last (at + last) disk
          (edged first_needed len 0 (at + 0) disk heap) i (ground arith)
        ∙ first_edge i inside
    | inr e ↦ elim (Bool-cases last_needed) [
      | inl f ↦ rw f (
          edged_inside len last at disk (edged first_needed len 0 (at + 0) disk heap) i
            (ground arith) (omega arith))
      | inr f ↦ rw f (first_edge i inside)
    ]
  ]

  -- The disk behind the write of the buffer: only the caller's bytes are new.
  pub edges_lem :
      (buf : Buf) → memcpy disk at (memcpy mid off buf count) all ≡ memcpy disk (at + off) buf count
  edges_lem buf = fun_ext λ i. write_through disk mid buf at all off count i covered before behind
