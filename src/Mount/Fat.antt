-- ===== src/Mount/Fat.antt =====
-- source/usbhsfs_mount.c: usbHsFsMountRegisterFatVolume() and usbHsFsMountUnregisterFatVolume().
use libusbhsfs.Base.{
  ℕ, suc, Bool, true, false, not, ◌||◌, List, [], ◌∷◌, Option, none, some, ◌==◌, if◌then◌else◌, set,
}
use libusbhsfs.Bytes.{Buf, memcpy}
use libusbhsfs.Usb.{Usb, alloc, free}
use libusbhsfs.Scsi.Lun.{LogicalUnitContext}
use libusbhsfs.Mount.Context.{FatFs, FileSystemContext, has_bit, read_only}
use libusbhsfs.Mount.Monad.{Libs, Mnt, ◌>>=◌, ◌>>◌, pure, get, put, io, extern, fat_fs}
use libusbhsfs.Mount.Devoptab.{with_colon, register_devoptab_device}

-- FF_VOLUMES.
abbrev pub ff_volumes : ℕ
ff_volumes = 64

-- The first slot from `pdrv` on that is free.
unfoldable pub free_volume : ℕ → List Bool → Option ℕ
free_volume pdrv [] = none
free_volume pdrv (false ∷ table) = some pdrv
free_volume pdrv (true ∷ table) = free_volume (suc pdrv) table

-- sprintf(name, "%u:", pdrv).
abbrev pub volume_name : {W : Type 0} → Libs W → ℕ → List ℕ
volume_name libs pdrv = with_colon (libs.print_u32 pdrv)

-- The object before ff_mount(), from calloc().
unfoldable pub new_fatfs : LogicalUnitContext → ℕ → Buf → ℕ → FatFs
unfolding memcpy
new_fatfs l flags block block_addr = record {
  ro_flag = has_bit flags read_only || l.write_protect;
  winsect = block_addr;
  win = memcpy (λ _. 0) 0 block 512;
  pdrv = 0;
}

module _ {W : Type 0} (usb : Usb W) (libs : Libs W) (l : LogicalUnitContext) where
  unfoldable pub mount_fat_volume : ℕ → FileSystemContext → FatFs → Mnt W (Bool × FileSystemContext)
  unfolding free
  mount_fat_volume pdrv c fatfs = do
    (ff_res, mounted) ← extern (libs.ff_mount fatfs (volume_name libs pdrv))
    if not (ff_res == 0) then io (free usb) >> pure (false, record c { fatfs = none }) else do
      (ok, c') ← register_devoptab_device usb libs (record c { fatfs = some mounted })
      if ok
          then put (λ s. record s { fat_volumes = set s.fat_volumes pdrv true }) >> pure (true, c')
          else do
            extern (libs.ff_unmount (volume_name libs pdrv))
            io (free usb)
            pure (false, record c' { fatfs = none })

  unfoldable pub register_fat_volume :
      FileSystemContext → Buf → ℕ → Mnt W (Bool × FileSystemContext)
  unfolding alloc free_volume new_fatfs
  register_fat_volume c block block_addr = do
    s ← get
    elim (free_volume 0 s.fat_volumes) [
      | none ↦ pure (false, c)
      | some pdrv ↦ do
        ok ← io (alloc usb (libs.sizeof fat_fs))
        if not ok
            then pure (false, record c { fatfs = none })
            else mount_fat_volume pdrv c (new_fatfs l c.flags block block_addr)
    ]

  -- The context has an object: only a valid one is destroyed.
  unfoldable pub unregister_fat_volume : FileSystemContext → Mnt W FileSystemContext
  unfolding free
  unregister_fat_volume c = elim c.fatfs [
    | none ↦ pure c
    | some fatfs ↦ do
      put λ s. record s { fat_volumes = set s.fat_volumes fatfs.pdrv false }
      extern (libs.ff_unmount (volume_name libs fatfs.pdrv))
      io (free usb)
      pure (record c { fatfs = none })
  ]
