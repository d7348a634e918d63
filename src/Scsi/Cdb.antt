-- ===== src/Scsi/Cdb.antt =====
-- source/usbhsfs_scsi.c: the command blocks that each usbHsFsScsiSend...Command() builds.
pub mod Fields
use Prim.Native.Nat.{bit_or, bit_and}
use libusbhsfs.Base.{ℕ, suc, ◌*◌, ◌%◌, ◌^◌, Bool, List, [], ◌∷◌, if◌then◌else◌, set, replicate}
use libusbhsfs.Bytes.{bswap16, bswap32, bswap64, le_bytes}
use libusbhsfs.Scsi.Wire.{
  OperationCode, operation_code, test_unit_ready, request_sense, inquiry, mode_sense_6,
  start_stop_unit, prevent_allow_medium_removal, read_capacity_10, read_10, write_10,
  synchronize_cache_10, mode_sense_10, read_16, write_16, synchronize_cache_16, service_action_in,
}

-- CBWCB with all bytes zero but the operation code.
abbrev pub cb_of : OperationCode → List ℕ
cb_of op = operation_code op ∷ replicate 15 0

-- memcpy(&(cbw.CBWCB[off]), ...).
unfoldable pub put : ℕ → List ℕ → List ℕ → List ℕ
put off [] cb = cb
put off (b ∷ bs) cb = put (suc off) bs (set cb off b)

-- The big-endian field at `off`: the word is byte-swapped, then copied as it lies in memory.
unfoldable pub put_be16 : ℕ → ℕ → List ℕ → List ℕ
unfolding put bswap16 le_bytes
put_be16 off x = put off (le_bytes 2 (bswap16 x))

unfoldable pub put_be32 : ℕ → ℕ → List ℕ → List ℕ
unfolding put bswap32 le_bytes
put_be32 off x = put off (le_bytes 4 (bswap32 x))

unfoldable pub put_be64 : ℕ → ℕ → List ℕ → List ℕ
unfolding put bswap64 le_bytes
put_be64 off x = put off (le_bytes 8 (bswap64 x))

unfoldable pub test_unit_ready_cb : List ℕ
test_unit_ready_cb = cb_of test_unit_ready

-- The allocation length is the transfer length, truncated to a byte.
unfoldable pub request_sense_cb : ℕ → List ℕ
request_sense_cb transfer_length = set (set (cb_of request_sense) 1 0) 4 (transfer_length % 2 ^ 8)

unfoldable pub inquiry_cb : Bool → ℕ → ℕ → List ℕ
unfolding put_be16
inquiry_cb evpd vpd_page_code allocation_length =
    put_be16 3 allocation_length
      (set (set (cb_of inquiry) 1 (if evpd then 1 else 0)) 2 (if evpd then vpd_page_code else 0))

-- `((page_control << 6) & 0xC0) | (page_code & 0x3F)`.
unfoldable pub mode_page : ℕ → ℕ → ℕ
mode_page page_control page_code =
    bit_or (bit_and (page_control * 2 ^ 6) 0xc0) (bit_and page_code 0x3f)

unfoldable pub mode_sense_6_cb : ℕ → ℕ → ℕ → ℕ → List ℕ
unfolding mode_page
mode_sense_6_cb page_control page_code subpage_code allocation_length =
    set
      (set (set (set (cb_of mode_sense_6) 1 0) 2 (mode_page page_control page_code)) 3 subpage_code)
      4 allocation_length

-- Start: LOEJ cleared, START set. Stop: LOEJ set, START cleared.
unfoldable pub start_stop_unit_cb : Bool → List ℕ
start_stop_unit_cb start =
    set (set (set (set (cb_of start_stop_unit) 1 0) 2 0) 3 0) 4 (if start then 1 else 2)

unfoldable pub prevent_allow_medium_removal_cb : Bool → List ℕ
prevent_allow_medium_removal_cb prevent =
    set (cb_of prevent_allow_medium_removal) 4 (if prevent then 1 else 0)

unfoldable pub read_capacity_10_cb : List ℕ
read_capacity_10_cb = cb_of read_capacity_10

-- The block of a 10-byte read or write.
unfoldable pub rw_10_cb : OperationCode → ℕ → ℕ → Bool → List ℕ
unfolding put_be16 put_be32
rw_10_cb op block_addr block_count fua =
    put_be16 7 block_count (put_be32 2 block_addr (set (cb_of op) 1 (if fua then 2 ^ 3 else 0)))

unfoldable pub read_10_cb : ℕ → ℕ → Bool → List ℕ
unfolding rw_10_cb
read_10_cb = rw_10_cb read_10

unfoldable pub write_10_cb : ℕ → ℕ → Bool → List ℕ
unfolding rw_10_cb
write_10_cb = rw_10_cb write_10

unfoldable pub synchronize_cache_10_cb : ℕ → ℕ → List ℕ
unfolding put_be16 put_be32
synchronize_cache_10_cb block_addr block_count =
    put_be16 7 block_count (put_be32 2 block_addr (set (cb_of synchronize_cache_10) 1 0))

unfoldable pub mode_sense_10_cb : Bool → ℕ → ℕ → ℕ → ℕ → List ℕ
unfolding put_be16 mode_page
mode_sense_10_cb long_lba page_control page_code subpage_code allocation_length =
    put_be16 7 allocation_length (
      set
        (set (set (cb_of mode_sense_10) 1 (if long_lba then 2 ^ 4 else 0)) 2
          (mode_page page_control page_code))
        3 subpage_code)

-- The block of a 16-byte read or write.
unfoldable pub rw_16_cb : OperationCode → ℕ → ℕ → Bool → List ℕ
unfolding put_be32 put_be64
rw_16_cb op block_addr block_count fua =
    put_be32 10 block_count (put_be64 2 block_addr (set (cb_of op) 1 (if fua then 2 ^ 3 else 0)))

unfoldable pub read_16_cb : ℕ → ℕ → Bool → List ℕ
unfolding rw_16_cb
read_16_cb = rw_16_cb read_16

unfoldable pub write_16_cb : ℕ → ℕ → Bool → List ℕ
unfolding rw_16_cb
write_16_cb = rw_16_cb write_16

unfoldable pub synchronize_cache_16_cb : ℕ → ℕ → List ℕ
unfolding put_be32 put_be64
synchronize_cache_16_cb block_addr block_count =
    put_be32 10 block_count (put_be64 2 block_addr (set (cb_of synchronize_cache_16) 1 0))

-- Service action SCSI_SERVICE_ACTION_IN_READ_CAPACITY_16.
unfoldable pub read_capacity_16_cb : ℕ → List ℕ
unfolding put_be32
read_capacity_16_cb transfer_length =
    put_be32 10 transfer_length (set (cb_of service_action_in) 1 0x10)
