-- ===== src/Disk/Ext.antt =====
-- source/lwext4/ext_disk_io.c: the operations of the block device that lwext4 reads and writes. They
-- give 0, or EIO.
use libusbhsfs.Base.{ℕ, if◌then◌else◌}
use libusbhsfs.Bytes.{Buf}
use libusbhsfs.Cmd.{Cmd, ◌>>=◌, pure}
use libusbhsfs.Disk.{Blocks}

abbrev pub errno_eio : ℕ
errno_eio = 5

-- ext_blockdev_open(), ext_blockdev_close(), ext_blockdev_lock(), ext_blockdev_unlock().
unfoldable pub blockdev_open : ℕ
blockdev_open = 0

unfoldable pub blockdev_close : ℕ
blockdev_close = 0

unfoldable pub blockdev_lock : ℕ
blockdev_lock = 0

unfoldable pub blockdev_unlock : ℕ
blockdev_unlock = 0

module _ {W : Type 0} (blocks : Blocks W) where
  unfoldable pub blockdev_bread : Buf → ℕ → ℕ → Cmd W (ℕ × Buf)
  blockdev_bread buf blk_id blk_cnt = do
    (ok, b) ← blocks.read buf blk_id blk_cnt
    pure (if ok then 0 else errno_eio, b)

  unfoldable pub blockdev_bwrite : Buf → ℕ → ℕ → Cmd W ℕ
  blockdev_bwrite buf blk_id blk_cnt = do
    (ok, _) ← blocks.write buf blk_id blk_cnt
    pure (if ok then 0 else errno_eio)
