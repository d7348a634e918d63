-- ===== src/Scsi/Wire/Layout.antt =====
-- The command block wrapper as a device reads it from the 31 bytes.
use libusbhsfs.Base.{
  ℕ, zero, suc, ◌+◌, ◌^◌, ◌<◌, ◌≡◌, refl, ap, ◌∙◌, List, [], ◌∷◌, ◌++◌, arith, length, get_or,
}
use libusbhsfs.Bytes.{Buf, le_bytes, load_le32, store_list}
use libusbhsfs.Scsi.Wire.{CommandBlockWrapper, cbw_size, cbw_bytes}

get_or-append :
    (xs ys : List ℕ) (i k d : ℕ) → k ≡ length xs + i → get_or (xs ++ ys) k d ≡ get_or ys i d
get_or-append [] ys i k d h = ap (λ j. get_or ys j d) (omega arith)
get_or-append (x ∷ xs) ys i zero d h = absurd (omega arith)
get_or-append (x ∷ xs) ys i (suc k) d h = get_or-append xs ys i k d (omega arith)

get_or-default : (xs : List ℕ) (i d : ℕ) → i < length xs → get_or xs i d ≡ get_or xs i 0
get_or-default [] i d h = absurd (omega arith)
get_or-default (x ∷ xs) zero d h = refl
get_or-default (x ∷ xs) (suc i) d h = get_or-default xs i d (omega arith)

-- The bytes in front of the command block.
abbrev header : CommandBlockWrapper → List ℕ
unfolding le_bytes
header c =
    le_bytes 4 c.signature
    ++ (le_bytes 4 c.tag
        ++ (le_bytes 4 c.data_transfer_length ++ (c.flags ∷ c.lun ∷ c.cb_length ∷ [])))

-- The fields are in range and the command block has its 16 bytes.
pub record InRange (c : CommandBlockWrapper) : Type 0 where
  pub signature : c.signature < 2 ^ 32
  pub tag : c.tag < 2 ^ 32
  pub data_transfer_length : c.data_transfer_length < 2 ^ 32
  pub block : length c.cb ≡ 16

-- What the device finds in memory.
pub record Holds (b : Buf) (c : CommandBlockWrapper) : Type 0 where
  pub signature : load_le32 b 0 ≡ c.signature
  pub tag : load_le32 b 4 ≡ c.tag
  pub data_transfer_length : load_le32 b 8 ≡ c.data_transfer_length
  pub flags : b 12 ≡ c.flags
  pub lun : b 13 ≡ c.lun
  pub cb_length : b 14 ≡ c.cb_length
  pub block : (i : ℕ) → i < 16 → b (15 + i) ≡ get_or c.cb i 0

-- A wrapper fills 31 bytes, and every field of it is read back from memory.
pub cbw_bytes-Holds :
    (c : CommandBlockWrapper) (b : Buf)
    → InRange c
    → (length (cbw_bytes c) ≡ cbw_size) × Holds (store_list (cbw_bytes c) b) c
unfolding cbw_bytes store_list
cbw_bytes-Holds c b r = (
  omega arith,
  record {
    signature = omega arith;
    tag = omega arith;
    data_transfer_length = omega arith;
    flags = refl;
    lun = refl;
    cb_length = refl;
    block = λ i h.
        get_or-append (header c) c.cb i (15 + i) (b (15 + i)) (omega arith)
        ∙ get_or-default c.cb i (b (15 + i)) (omega arith);
  },
)
