-- ===== src/Lib.antt =====
-- libusbhsfs, a USB mass storage host for the Nintendo Switch: the path from a read or write of
-- blocks on a logical unit down to the transfers on the USB endpoints, the setup of drives and the
-- mounting of the volumes that their logical units hold, and the reads and writes of bytes and
-- sectors that the file systems then make.
--
-- The program. usbhsfs_manager.c waits for USB interfaces and keeps a list of drives;
-- usbhsfs_drive.c opens an interface and its endpoints and starts the drive's logical units;
-- usbhsfs_mount.c finds their file systems and hands them to FatFs, ntfs-3g or lwext4, which read
-- and write blocks through usbhsfs_scsi.c. That file speaks SCSI over the Bulk-Only Transport, on
-- the transfers and control requests of usbhsfs_request.c.
--
-- The files.
--   Base             numbers, lists, Boolean tests and the lemmas on them that the others share
--   Bytes            memory, byte order, memcpy, memset (source/usbhsfs_utils.h, the C library)
--   Utils            usbHsFsUtilsTrimString, usbHsFsUtilsIsAsciiString (source/usbhsfs_utils.c)
--   Usb              sessions, results, the usb service, the state and the monad of calls over it
--   Packets          setup packets, and what a request makes of a reply (source/usb_common.h)
--   Request          source/usbhsfs_request.c, function by function without the usbHsFsRequest prefix
--   Cmd              the monad of calls that can send a command again
--   Scsi/Wire, Cdb   the formats of source/usbhsfs_scsi.c, and its command blocks
--   Scsi/Transfer    the stages of usbHsFsScsiTransferCommand() as functions of their own
--   Scsi/Stage       its data loop and status stage, up to the label req_sense
--   Scsi/Command     Request Sense, retries, and the whole of usbHsFsScsiTransferCommand()
--   Scsi/Send        the usbHsFsScsiSend...Command() functions
--   Scsi/Lun, Unit, Start
--                    the logical unit context, what starting a unit reads, starting and stopping
--   Scsi/Blocks      usbHsFsScsiReadLogicalUnitBlocks() and usbHsFsScsiWriteLogicalUnitBlocks()
--   Scsi/Quiet       what the reads of a unit leave of the allocated memory
--   Mount/Context    contexts of file systems (source/usbhsfs_drive.h, and the file system headers)
--   Mount/Monad, Probe
--                    the state of source/usbhsfs_mount.c, the libraries it calls, the two monads
--   Mount/DeviceId, Devoptab
--                    device ids, and usbHsFsMount...DevoptabDevice()
--   Mount/Fat, Ntfs, Ext, ExtDisk
--                    usbHsFsMountRegister...Volume() and usbHsFsMountUnregister...Volume(),
--                    source/lwext4/ext.c, and the block device of source/lwext4/ext_disk_io.c
--   Mount/Volume     usbHsFsMountRegisterVolume(), and the destruction of a file system context
--   Mount/BootRecord, Table, Gpt, Start
--                    boot records, MBR and EBR chains, GPT, and what is at LBA 0, to
--                    usbHsFsMountInitializeLogicalUnitFileSystemContexts()
--   Mount/Outcome    what a registration leaves behind, by the type of the file system
--   Mount/Kept       what the parsing of partition tables keeps
--   Disk             what the block reads and writes below a file system promise, and that a unit keeps it
--   Disk/Fat, Ext    source/fatfs/diskio.c, and the calls of source/lwext4/ext_disk_io.c
--   Disk/Ntfs        source/ntfs-3g/ntfs_disk_io.c: opening, seeking, and bytes at any offset
--   Drive/Interface, Descriptors, Endpoints
--                    source/usbhsfs_drive.c: interfaces, their descriptors, the endpoint sessions
--   Drive/Strings    its strings
--   Drive/Units, Context
--                    its logical units, usbHsFsDriveInitializeContext() and ...DestroyContext()
--   Manager, Manager/Drives
--                    source/usbhsfs_manager.c: the list of drives and of the devices on them
--   Tests            runs of the definitions at concrete inputs
--
-- The model. libnx and the C allocator are the record Usb.Usb over a state of their own, which
-- holds the device too; nothing is assumed of it but what a theorem names. The state of a call is
-- that state, the drive's transfer buffer, the flag g_mediumPresent, and the number of allocated
-- blocks. Memory is a function from offsets to bytes. A value that the code returns through a
-- pointer is returned. Unsigned arithmetic that can wrap has its modulus written out. Pointers that
-- the callers never pass as NULL have no NULL test, and logging is left out.
--
-- Mounting is the code of the build with GPL_BUILD. newlib's table of devices, FatFs, ntfs-3g, lwext4
-- and crc32Calculate() are the record Mount.Monad.Libs; the blocks that they allocate for themselves
-- are not counted. The globals of usbhsfs_mount.c and the contexts of the unit are one record with the
-- state of the drive, and a context that is being set up is passed on and returned. What a new buffer
-- holds is a parameter.
--
-- In the disk layer of ntfs-3g a signed number of 64 bits is its word. The quotients that it computes in
-- floating point are a parameter, and so are the fields of the boot sector, of ntfs-3g. FatFs'
-- drive numbers are looked up by a parameter there, which stands for the lookup in Manager.
--
-- In usbhsfs_drive.c the calls of libnx on sessions are the record Drive.Interface.Hs. The file system
-- contexts of a unit stand in the state of mounting while it is prepared or destroyed, and with the
-- unit otherwise. The array of LUN contexts is the list of those that lun_count counts, and the
-- context behind them that a failed unit left.
--
-- The manager's list of drives is the list of its pointers, none of which is NULL there; a drive is
-- known by the id of its interface. The loop that removes drives has as many rounds as there are.
--
-- Fuel. The loops over descriptors have as many rounds as the configuration has bytes, the data loop
-- as many as the command has bytes, the block loop as many as there are blocks, and a round moves at
-- least one. The nesting of usbHsFsScsiTransferCommand() has no bound in the code, so its fuel is a
-- parameter: none means that it ran out. Neither has the walk of extended boot records: the number of
-- its rounds is a parameter too. The search for a device id starts over behind each id in use, so it
-- has (n + 1) * (n + 1) + 1 rounds for n ids.
--
-- Not modelled. Of usbhsfs_manager.c the threads, events, callback and mutex, the initialization and the
-- bus reset, and SX OS; the devoptab layers of the file systems but for lwext4/ext.c;
-- ntfs_io_device_stat() and ntfs_io_device_ioctl(), ff_get_fattime(); the mutex of the default device;
-- usbhsfs_log.c, which only prints; source/sxos, which only sends requests to another service; FatFs,
-- another project's code.
pub mod Base
pub mod Bytes
pub mod Cmd
pub mod Disk
pub mod Drive
pub mod Manager
pub mod Mount
pub mod Packets
pub mod Request
pub mod Scsi
pub mod Tests
pub mod Usb
pub mod Utils
