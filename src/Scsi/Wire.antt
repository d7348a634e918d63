-- ===== src/Scsi/Wire.antt =====
-- source/usbhsfs_scsi.c: the structures that travel over the wire, and the fields that are read.
pub mod Layout
use libusbhsfs.Base.{ℕ, ◌/◌, ◌%◌, ◌^◌, Bool, ◌||◌, List, ◌∷◌, ◌++◌, ◌==◌}
use libusbhsfs.Bytes.{Buf, bswap32, le_bytes, load_le32}

abbrev pub cbw_signature : ℕ
cbw_signature = 0x55534243

abbrev pub csw_signature : ℕ
csw_signature = 0x55534253

-- ScsiCommandOperationCode.
pub data OperationCode : Type 0 where
  test_unit_ready request_sense inquiry mode_sense_6 start_stop_unit prevent_allow_medium_removal
        read_capacity_10 read_10 write_10 synchronize_cache_10 mode_sense_10 read_16 write_16
        synchronize_cache_16 service_action_in :
      OperationCode

abbrev pub operation_code : OperationCode → ℕ
operation_code test_unit_ready = 0x0
operation_code request_sense = 0x3
operation_code inquiry = 0x12
operation_code mode_sense_6 = 0x1a
operation_code start_stop_unit = 0x1b
operation_code prevent_allow_medium_removal = 0x1e
operation_code read_capacity_10 = 0x25
operation_code read_10 = 0x28
operation_code write_10 = 0x2a
operation_code synchronize_cache_10 = 0x35
operation_code mode_sense_10 = 0x5a
operation_code read_16 = 0x88
operation_code write_16 = 0x8a
operation_code synchronize_cache_16 = 0x91
operation_code service_action_in = 0x9e

-- ScsiCommandBlockWrapper; `cb` is CBWCB, 16 bytes.
pub record CommandBlockWrapper : Type 0 where
  pub signature : ℕ
  pub tag : ℕ
  pub data_transfer_length : ℕ
  pub flags : ℕ
  pub lun : ℕ
  pub cb_length : ℕ
  pub cb : List ℕ

abbrev pub cbw_size : ℕ
cbw_size = 0x1f

-- The packed structure as it lies in memory.
unfoldable pub cbw_bytes : CommandBlockWrapper → List ℕ
unfolding le_bytes
cbw_bytes c =
    le_bytes 4 c.signature
    ++ (le_bytes 4 c.tag
        ++ (le_bytes 4 c.data_transfer_length ++ (c.flags ∷ c.lun ∷ c.cb_length ∷ c.cb)))

-- ScsiCommandStatusWrapper.
pub record CommandStatusWrapper : Type 0 where
  pub signature : ℕ
  pub tag : ℕ
  pub data_residue : ℕ
  pub status : ℕ

abbrev pub csw_size : ℕ
csw_size = 0xd

-- The all-zero structure that a local variable starts as.
abbrev pub zero_csw : CommandStatusWrapper
zero_csw = record { signature = 0; tag = 0; data_residue = 0; status = 0 }

unfoldable pub csw_of : Buf → CommandStatusWrapper
csw_of b = record {
  signature = load_le32 b 0;
  tag = load_le32 b 4;
  data_residue = load_le32 b 8;
  status = b 12;
}

-- ScsiCommandStatus.
abbrev pub status_passed : ℕ
status_passed = 0

abbrev pub status_phase_error : ℕ
status_phase_error = 2

-- The signature is accepted in either byte order.
unfoldable pub has_csw_signature : CommandStatusWrapper → Bool
unfolding bswap32
has_csw_signature c = (c.signature == csw_signature) || (c.signature == bswap32 csw_signature)

-- ScsiRequestSenseDataFixedFormat: the sense key (a 4-bit field) and the additional sense code.
abbrev pub sense_data_size : ℕ
sense_data_size = 0x12

unfoldable pub sense_key : Buf → ℕ
sense_key b = b 2 % 16

unfoldable pub additional_sense_code : Buf → ℕ
additional_sense_code b = b 12

abbrev pub asc_medium_not_present : ℕ
asc_medium_not_present = 0x3a

-- ScsiInquiryStandardData: the fields that are read.
abbrev pub inquiry_size : ℕ
inquiry_size = 0x2c

pub record InquiryData : Type 0 where
  pub peripheral_device_type : ℕ
  pub peripheral_qualifier : ℕ
  pub rmb : ℕ
  pub version : ℕ

unfoldable pub inquiry_of : Buf → InquiryData
inquiry_of b = record {
  peripheral_device_type = b 0 % 2 ^ 5;
  peripheral_qualifier = b 0 / 2 ^ 5 % 2 ^ 3;
  rmb = b 1 / 2 ^ 7 % 2;
  version = b 2;
}

-- ScsiModeParameterHeader6 and ScsiModeParameterHeader10: the byte with WP and DPOFUA stands at
-- offset 2 and 3.
unfoldable pub wp : ℕ → ℕ
wp b = b / 2 ^ 7 % 2

unfoldable pub dpofua : ℕ → ℕ
dpofua b = b / 2 ^ 4 % 2
