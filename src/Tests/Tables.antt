-- ===== src/Tests/Tables.antt =====
-- The parsing of partition tables at concrete inputs.
use libusbhsfs.Base.{
  ℕ, ◌+◌, ◌≤◌, ◌≡◌, refl, Bool, true, false, [], ◌∷◌, none, some, ◌==◌, arith, if◌then◌else◌,
}
use libusbhsfs.Bytes.{Buf}
use libusbhsfs.Cmd.{Cmd}
use libusbhsfs.Mount.Context.{fs_fat, FileSystemContext, ffdev, is_valid_file_system_context}
use libusbhsfs.Mount.Monad.{MountState}
use libusbhsfs.Mount.BootRecord.{boot_sig, vbr_type, bytes_at, has_jump_code, looks_like_fat}
use libusbhsfs.Mount.BootRecord.Fat.{IsFatRecord, vbr_type-IsFatRecord}
use libusbhsfs.Mount.Table.{parse_ebr_chain}
use libusbhsfs.Mount.DeviceId.Least.{is_distinct, member}
use libusbhsfs.Mount.Volume.Sound.{IsSound, all_mounted, context_blocks, register_volume-IsSound}
use libusbhsfs.Mount.Volume.Destroyed.{Destroyed, destroy_file_system_context-Destroyed}
use libusbhsfs.Mount.Volume.{register_volume, destroy_file_system_context}
use libusbhsfs.Mount.Outcome.Mounted.{object_blocks}
use libusbhsfs.Mount.Kept.Chain.{parse_ebr_chain_endless}
use libusbhsfs.Tests.Device.{Script, drive, scripted, one_read}
use libusbhsfs.Mount.Devoptab.{set_default_devoptab_device}
use libusbhsfs.Mount.Devoptab.Default.{IsDefault, set_default_devoptab_device-IsDefault}
use libusbhsfs.Tests.Libraries.{counting, libraries, no_volumes, one_device, started_unit}

one_device-IsSound : IsSound 0 one_device
unfolding is_distinct all_mounted context_blocks
one_device-IsSound = record {
  fs_array = refl;
  ids_array = refl;
  distinct = λ small. refl;
  mounted = refl;
  ledger = refl;
}

register_volume-IsSound_example :
    IsSound 0
      (register_volume
        (scripted one_read)
        libraries
        started_unit
        (λ _. 0)
        0
        4096
        fs_fat
        one_device).1
register_volume-IsSound_example =
    register_volume-IsSound (scripted one_read) libraries started_unit (λ _. 0) 0 4096 fs_fat 0
      one_device one_device-IsSound

-- A unit whose every block is an extended boot record, which names the one behind it as the next.
abbrev looping_record : Buf
looping_record i = if i == 510 then 0x55 else if i == 511 then 0xaa else if i == 0x1d6 then 1 else 0

abbrev looping : Buf → ℕ → ℕ → Cmd Script (Bool × Buf)
looping b addr count = λ s. some ((true, looping_record), s)

parse_ebr_chain_endless_example :
    parse_ebr_chain (scripted one_read) libraries looping started_unit 1000 (λ _. 0) 63 0 no_volumes
    ≡ none
unfolding boot_sig
parse_ebr_chain_endless_example =
    parse_ebr_chain_endless (scripted one_read) libraries looping started_unit 63 (λ offset. true)
      1000 0 (λ _. 0) no_volumes (λ offset here b s. (1, refl, (refl, refl, refl, refl))) refl

-- The fields of a FAT16 volume without a signature: sectors of 512 bytes, clusters of 4, one sector
-- in reserve, no FAT, 512 root entries, 40960 sectors, 32 of them for a FAT.
abbrev old_fat : Buf
old_fat i =
    if i == 0
    then 0xeb
    else if i == 12
    then 2
    else if i == 13
    then 4
    else if i == 14
    then 1
    else if i == 18
    then 2
    else if i == 20
    then 0xa0
    else if i == 22
    then 32
    else 0

vbr_type-IsFatRecord_example :
    (vbr_type 512 old_fat ≡ fs_fat → IsFatRecord 512 old_fat)
    × (IsFatRecord 512 old_fat → vbr_type 512 old_fat ≡ fs_fat)
vbr_type-IsFatRecord_example = vbr_type-IsFatRecord 512 old_fat

old_fat_type : vbr_type 512 old_fat ≡ fs_fat
unfolding vbr_type boot_sig bytes_at has_jump_code looks_like_fat
old_fat_type = refl

-- A FAT volume with the id 0, which is the default device, in slot 0.
abbrev fat_context : FileSystemContext
fat_context = record {
  fs_idx = 0;
  fs_type = fs_fat;
  flags = 0;
  fatfs = some (record { ro_flag = false; winsect = 0; win = λ _. 0; pdrv = 0 });
  ntfs = none;
  ext = none;
  device_id = 0;
  name = some [];
  cwd = some [];
  device = some ffdev;
}

abbrev fat_mounted : MountState Script
fat_mounted = record one_device {
  drive = record one_device.drive { live = 7 };
  default_device_id = 0;
  fat_volumes = true ∷ (false ∷ []);
}

fat_context_valid : is_valid_file_system_context drive started_unit fat_context ≡ true
unfolding is_valid_file_system_context
fat_context_valid = refl

fat_context_used : member 0 fat_mounted.device_ids ≡ true
unfolding member
fat_context_used = refl

owned_blocks : 3 + object_blocks fat_context + 1 ≤ 7
unfolding object_blocks
owned_blocks = omega arith

destroy_file_system_context-Destroyed_example :
    Destroyed
      (scripted one_read)
      libraries
      started_unit
      fat_context
      fat_mounted
      (destroy_file_system_context
        (scripted one_read)
        libraries
        started_unit
        drive
        fat_context
        fat_mounted).1
destroy_file_system_context-Destroyed_example =
    destroy_file_system_context-Destroyed (scripted one_read) libraries started_unit drive
      fat_context fat_mounted fat_context_valid fat_context_used refl owned_blocks

set_as_default :
    (set_default_devoptab_device
      (scripted one_read)
      counting
      drive
      started_unit
      fat_context
      fat_mounted).0
    ≡ true
unfolding set_default_devoptab_device
set_as_default = refl

set_default_devoptab_device-IsDefault_example :
    (is_valid_file_system_context drive started_unit fat_context ≡ true)
    × IsDefault counting fat_context fat_mounted
        (set_default_devoptab_device
          (scripted one_read)
          counting
          drive
          started_unit
          fat_context
          fat_mounted).1
set_default_devoptab_device-IsDefault_example =
    set_default_devoptab_device-IsDefault (scripted one_read) counting drive started_unit
      fat_context fat_mounted set_as_default
