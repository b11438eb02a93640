-- ===== src/Sync.antt =====
-- Flushing the volume in ff.c: `sync_fs`.
pub mod Flush
pub mod Fsinfo
pub mod Elsewhere
use zephyr_fatfs_aflplusplus.Base.{ℕ, ◌+◌, ◌==◌, if◌then◌else◌, none, some, u32}
use zephyr_fatfs_aflplusplus.Diskio.{Bytes, disk_write, disk_ioctl}
use zephyr_fatfs_aflplusplus.Volume.{Geometry, Fatfs, fat32, Act, done, fail, disk_err, ◌>>◌}
use zephyr_fatfs_aflplusplus.Window.{sync_window, st_dword}

-- The FSINFO sector; the bytes that it does not use are 0.
unfoldable pub fsinfo : ℕ → ℕ → Bytes
unfolding st_dword
fsinfo free last =
    st_dword
      (st_dword (st_dword (st_dword (st_dword (λ i. 0) 0 0x41615252) 484 0x61417272) 488 free) 492
        last)
      498 0xAA550000

module _ (g : Geometry) where
  -- The result of the write is not looked at.
  unfoldable pub write_fsinfo : Fatfs → Fatfs
  write_fsinfo v =
      let win = fsinfo v.free_clst v.last_clst in
      let sect = u32 (g.volbase + 1) in
      record v {
        fsi_flag = 0;
        win = win;
        winsect = sect;
        disk = elim (disk_write v.disk win sect 1) [ none ↦ v.disk | some d ↦ d ];
      }

  unfoldable pub update_fsinfo : Act (Unit {0})
  update_fsinfo v =
      if v.fsi_flag == 1
      then elim g.fs_type [
        | fat32 ↦ done tt (write_fsinfo v)
        | _ ↦ done tt (record v { fsi_flag = 0 })
      ]
      else done tt v

  unfoldable pub sync_fs : Act (Unit {0})
  sync_fs = do
    sync_window g
    update_fsinfo
    (λ v. if (disk_ioctl 0).0 == 0 then done tt v else fail disk_err v)
