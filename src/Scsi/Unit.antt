-- ===== src/Scsi/Unit.antt =====
-- source/usbhsfs_scsi.c: what usbHsFsScsiStartDriveLogicalUnit() reads from the replies of a unit
-- and writes to its context.
use libusbhsfs.Base.{
  ℕ, ◌*◌, ◌%◌, ◌^◌, Bool, true, false, not, ◌&&◌, List, [], ◌∷◌, ◌==◌, leb, if◌then◌else◌, take,
}
use libusbhsfs.Bytes.{Buf, bswap32, bswap64, load_le32, load_le64}
use libusbhsfs.Utils.{bytes_at, c_string, trim_string, is_ascii_string}
use libusbhsfs.Scsi.Wire.{InquiryData, wp, dpofua}
use libusbhsfs.Scsi.Lun.{LogicalUnitContext}

-- BLKDEV_MIN_BLOCK_SIZE and BLKDEV_MAX_BLOCK_SIZE.
abbrev pub blkdev_min_block_size : ℕ
blkdev_min_block_size = 512

abbrev pub blkdev_max_block_size : ℕ
blkdev_max_block_size = 4096

-- ScsiInquiryVitalProductDataPageCode_UnitSerialNumber, SCSI_MODE_PAGE_CODE_ALL.
abbrev pub vpd_unit_serial_number : ℕ
vpd_unit_serial_number = 0x80

abbrev pub mode_page_code_all : ℕ
mode_page_code_all = 0x3f

-- Offsets and lengths in ScsiInquiryStandardData.
abbrev pub vendor_id_of : Buf → List ℕ
unfolding c_string bytes_at
vendor_id_of b = c_string (bytes_at b 8 8)

abbrev pub product_id_of : Buf → List ℕ
unfolding c_string bytes_at
product_id_of b = c_string (bytes_at b 16 16)

abbrev pub serial_number_of : Buf → List ℕ
unfolding c_string bytes_at
serial_number_of b = c_string (bytes_at b 36 8)

-- The full Unit Serial Number page, of `n` bytes behind its header; the standard data if it is
-- empty.
unfoldable pub page_serial_number : Buf → Buf → ℕ → List ℕ
unfolding c_string bytes_at
page_serial_number std vpd n = or_standard (c_string (bytes_at vpd 4 n))
  where
    or_standard : List ℕ → List ℕ
    or_standard [] = serial_number_of std
    or_standard (x ∷ xs) = x ∷ xs

-- A connected direct access block device, of a known version of the standard.
unfoldable pub is_supported : InquiryData → Bool
is_supported i = (i.peripheral_qualifier == 0) && (i.peripheral_device_type == 0) && leb i.version 7

-- What the Mode Sense commands tell.
pub record Flags : Type 0 where
  pub write_protect : Bool
  pub fua_supported : Bool

unfoldable pub flags_of : ℕ → Flags
unfolding wp dpofua
flags_of b = record { write_protect = wp b == 1; fua_supported = dpofua b == 1 }

-- What the Read Capacity commands tell.
pub record Geometry : Type 0 where
  pub long_lba : Bool
  pub block_count : ℕ
  pub block_length : ℕ

unfoldable pub geometry_10 : Buf → Geometry
unfolding bswap32
geometry_10 b = record {
  long_lba = false;
  block_count = bswap32 (load_le32 b 0);
  block_length = bswap32 (load_le32 b 4);
}

unfoldable pub geometry_16 : Buf → Geometry
unfolding bswap32 bswap64
geometry_16 b = record {
  long_lba = true;
  block_count = bswap64 (load_le64 b 0);
  block_length = bswap32 (load_le32 b 8);
}

unfoldable pub capacity_of : Geometry → ℕ
capacity_of g = g.block_count * g.block_length % 2 ^ 64

unfoldable pub is_usable : Geometry → Bool
unfolding capacity_of
is_usable g =
    not (g.block_length == 0)
    && (g.block_length % blkdev_min_block_size == 0)
    && leb g.block_length blkdev_max_block_size
    && not (capacity_of g == 0)

-- The `Fill LUN context` part. snprintf() leaves at most 63 bytes of the serial number.
unfoldable pub fill_context :
    InquiryData → Bool → Flags → Buf → List ℕ → Geometry → LogicalUnitContext → LogicalUnitContext
unfolding trim_string is_ascii_string capacity_of
fill_context i eject flags std serial g l = record {
  lun = l.lun;
  removable = not (i.rmb == 0);
  eject_supported = eject;
  write_protect = flags.write_protect;
  fua_supported = flags.fua_supported;
  vendor_id = trim_string (vendor_id_of std);
  product_id = trim_string (product_id_of std);
  serial_number = if is_ascii_string serial then trim_string (take 63 serial) else l.serial_number;
  long_lba = g.long_lba;
  block_count = g.block_count;
  block_length = g.block_length;
  capacity = capacity_of g;
}
