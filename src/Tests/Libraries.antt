-- ===== src/Tests/Libraries.antt =====
-- Libraries for the tests: every call succeeds, but for those that a test replaces.
use libusbhsfs.Base.{true, false, [], ◌∷◌, none, some, get_or, ◌==◌}
use libusbhsfs.Mount.Monad.{Libs, MountState}
use libusbhsfs.Scsi.Lun.{LogicalUnitContext}
use libusbhsfs.Tests.Device.{Script, start, unknown_unit}

-- The number of a device is one digit.
abbrev pub libraries : Libs Script
libraries = record {
  print_u32 = λ n. n ∷ [];
  scan_mount_name = λ name. none;
  add_device = λ c w. (some 3, w);
  remove_device = λ name w. w;
  find_device = λ name w. some 3;
  set_default_device = λ device w. w;
  default_device_name = λ w. none;
  default_device_is = λ c w. false;
  ff_mount = λ fatfs name s. ((0, record fatfs { pdrv = get_or name 0 0 }), s);
  ff_unmount = λ name s. (tt, s);
  ntfs_device_alloc = λ name v s. (true, s);
  ntfs_device_free = λ v s. (tt, s);
  ntfs_device_mount = λ v s. (true, s);
  ntfs_create_lru_caches = λ v s. (tt, s);
  ntfs_set_ignore_case = λ v s. (tt, s);
  ntfs_set_shown_files = λ v system hidden s. (tt, s);
  ntfs_volume_get_free_space = λ v s. (true, s);
  ntfs_umount = λ v s. (tt, s);
  ext4_device_register = λ v name s. (0, s);
  ext4_device_unregister = λ name s. (0, s);
  ext4_mount = λ name at ro s. (0, s);
  ext4_umount = λ at s. (0, s);
  ext4_recover = λ at s. (0, s);
  ext4_journal_start = λ at s. (0, s);
  ext4_journal_stop = λ at s. (0, s);
  ext4_has_journal = λ v w. true;
  beyond_ext3 = λ v w. true;
  beyond_ext2 = λ v w. true;
  ext4_sb_check = λ b. false;
  crc32 = λ b n. 0;
  fs_max_path = 0x301;
  sizeof = λ object. 8;
}

-- FatFs refuses every volume.
abbrev pub no_fat : Libs Script
no_fat = record libraries { ff_mount = λ fatfs name s. ((13, fatfs), s) }

abbrev pub no_volumes : MountState Script
no_volumes = record {
  drive = start;
  has_fs_ctx = false;
  fs_ctx = [];
  has_device_ids = false;
  device_ids = [];
  default_device_id = 0xffffffff;
  fat_volumes = false ∷ (false ∷ []);
  mount_flags = 0x1a;
}

-- Another unit's device has the id 0.
abbrev pub one_device : MountState Script
one_device = record no_volumes {
  drive = record start { live = 1 };
  has_device_ids = true;
  device_ids = 0 ∷ [];
}

abbrev pub started_unit : LogicalUnitContext
started_unit = record unknown_unit { block_count = 4096; block_length = 512; capacity = 0x200000 }

-- The number of transfers so far is the index of the default device.
abbrev pub counting : Libs Script
counting = record libraries {
  set_default_device = λ device w. (elim device [ none ↦ 0 | some i ↦ i ], w.1);
  default_device_is = λ c w. w.0 == 3;
}
