-- ===== src/Drive.antt =====
-- source/usbhsfs_drive.c: the interface, the endpoints, the strings and the units of a drive.
pub mod Interface
pub mod Descriptors
pub mod Endpoints
pub mod Strings
pub mod Units
pub mod Context
