-- ===== src/Scsi/Cdb/Fields.antt =====
-- The command blocks read back as the SCSI standard defines their fields.
use libusbhsfs.Base.{
  ℕ, zero, suc, ◌+◌, ◌*◌, ◌^◌, ◌<◌, ◌≡◌, refl, Bool, List, arith, if◌then◌else◌, length, get_or,
}
use libusbhsfs.Scsi.Wire.{OperationCode, operation_code}
use libusbhsfs.Scsi.Cdb.{rw_10_cb, rw_16_cb}

-- The big-endian number in `n` bytes at `off`.
abbrev pub field : List ℕ → ℕ → ℕ → ℕ
field cb off zero = 0
field cb off (suc n) = field cb off n * 256 + get_or cb (off + n) 0

-- A 10-byte read or write: operation code, FUA bit, logical block address, transfer length.
pub record Is10 (cb : List ℕ) (op : OperationCode) (lba count : ℕ) (fua : Bool) : Type 0 where
  pub size : length cb ≡ 16
  pub operation : field cb 0 1 ≡ operation_code op
  pub force_unit_access : field cb 1 1 ≡ (if fua then 8 else 0)
  pub address : field cb 2 4 ≡ lba
  pub transfer_length : field cb 7 2 ≡ count

pub record Is16 (cb : List ℕ) (op : OperationCode) (lba count : ℕ) (fua : Bool) : Type 0 where
  pub size : length cb ≡ 16
  pub operation : field cb 0 1 ≡ operation_code op
  pub force_unit_access : field cb 1 1 ≡ (if fua then 8 else 0)
  pub address : field cb 2 8 ≡ lba
  pub transfer_length : field cb 10 4 ≡ count

-- The address and the block count are read back from the block, if they fit their fields.
pub rw_10_cb-Is10 :
    (op : OperationCode) (lba count : ℕ) (fua : Bool)
    → lba < 2 ^ 32
    → count < 2 ^ 16
    → Is10 (rw_10_cb op lba count fua) op lba count fua
unfolding rw_10_cb
rw_10_cb-Is10 op lba count fua h k = record {
  size = refl;
  operation = omega arith;
  force_unit_access = omega arith;
  address = omega arith;
  transfer_length = omega arith;
}

-- The same for the 16-byte commands, with a 64-bit address and a 32-bit count.
pub rw_16_cb-Is16 :
    (op : OperationCode) (lba count : ℕ) (fua : Bool)
    → lba < 2 ^ 64
    → count < 2 ^ 32
    → Is16 (rw_16_cb op lba count fua) op lba count fua
unfolding rw_16_cb
rw_16_cb-Is16 op lba count fua h k = record {
  size = refl;
  operation = omega arith;
  force_unit_access = omega arith;
  address = omega arith;
  transfer_length = omega arith;
}
