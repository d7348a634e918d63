-- ===== src/Mount/Kept/Whole.antt =====
-- The mounting of a unit keeps the invariant of the volumes.
use libusbhsfs.Usb.{Usb}
