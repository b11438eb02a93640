-- ===== src/Sync/Flush.antt =====
-- `sync_fs` of ff.c: the window and the counters behind it.
use zephyr_fatfs_aflplusplus.Base.{
  ℕ, ◌+◌, ◌*◌, ◌<◌, ◌≡◌, ◌≢◌, inl, inr, refl, true, false, arith, ◌==◌, Bool-cases, u32, ◌∙◌,
}
use zephyr_fatfs_aflplusplus.Diskio.{disk_sectors, disk_ioctl}
use zephyr_fatfs_aflplusplus.Diskio.Laws.{disk_write_on_drive}
use zephyr_fatfs_aflplusplus.Volume.{Geometry, Fatfs, FsType, fat12, fat16, fat32, done}
use zephyr_fatfs_aflplusplus.Volume.Ends
use zephyr_fatfs_aflplusplus.Volume.Ends.{Ends, returns}
use zephyr_fatfs_aflplusplus.Window.Laws.{IsSound, IsPlaced, sync_window-IsKept}
use zephyr_fatfs_aflplusplus.Fat.Get.{Never}
use zephyr_fatfs_aflplusplus.Sync.{fsinfo, write_fsinfo, update_fsinfo, sync_fs}

-- The window is clean, no change of the counters is pending, and the counters are as before; where
-- they had changed on a FAT32 volume with its FSINFO sector on the drive, this sector holds them.
pub record IsFlushed (g : Geometry) (v w : Fatfs) : Type 0 where
  pub clean : w.wflag ≡ false
  pub counted : w.fsi_flag ≢ 1
  pub free_clst : w.free_clst ≡ v.free_clst
  pub last_clst : w.last_clst ≡ v.last_clst
  pub written :
      g.fs_type ≡ fat32
      → v.fsi_flag ≡ 1
      → g.volbase + 1 < disk_sectors
      → (i : ℕ) → i < 512
      → w.disk ((g.volbase + 1) * 512 + i) ≡ fsinfo v.free_clst v.last_clst i

module _ (g : Geometry) where
  write_fsinfo-disk :
      (v : Fatfs) (i : ℕ)
      → g.volbase + 1 < disk_sectors
      → i < 512
      → (write_fsinfo g v).disk ((g.volbase + 1) * 512 + i) ≡ fsinfo v.free_clst v.last_clst i
  unfolding write_fsinfo
  write_fsinfo-disk v i low small =
      let (d, e, at) =
        disk_write_on_drive v.disk (fsinfo v.free_clst v.last_clst) (u32 (g.volbase + 1))
          (ground arith) in
      rw (write_fsinfo, e) (ground (arith, at ((g.volbase + 1) * 512 + i)))

  reset-IsFlushed :
      (v : Fatfs) → v.wflag ≡ false → g.fs_type ≢ fat32 → IsFlushed g v (record v { fsi_flag = 0 })
  reset-IsFlushed v clean ne = record {
    clean = clean;
    counted = λ z. omega arith;
    free_clst = refl;
    last_clst = refl;
    written = λ is. absurd (ne is);
  }

  wrote-IsFlushed : (v : Fatfs) → v.wflag ≡ false → IsFlushed g v (write_fsinfo g v)
  unfolding write_fsinfo
  wrote-IsFlushed v clean = record {
    clean = clean;
    counted = λ z. omega arith;
    free_clst = refl;
    last_clst = refl;
    written = λ is changed low i small. write_fsinfo-disk v i low small;
  }

  update_fsinfo-IsFlushed :
      (t : FsType) (v : Fatfs)
      → g.fs_type ≡ t
      → v.wflag ≡ false
      → Ends (λ _ w. IsFlushed g v w) Never (update_fsinfo g v)
  unfolding update_fsinfo
  update_fsinfo-IsFlushed t v e clean = elim (Bool-cases (v.fsi_flag == 1)) [
    | inr same ↦ rw same (
        returns (record {
          clean = clean;
          counted = ground arith;
          free_clst = refl;
          last_clst = refl;
          written = λ a b. absurd (ground arith);
        }))
    | inl changed ↦ by_type t e changed
  ]
    where
      by_type :
          (t : FsType)
          → g.fs_type ≡ t
          → (v.fsi_flag == 1) ≡ true
          → Ends (λ _ w. IsFlushed g v w) Never (update_fsinfo g v)
      by_type fat12 e changed =
          Ends.by_eq {r' = done tt (record v { fsi_flag = 0 })} (ground arith)
            (returns (reset-IsFlushed v clean (λ is. ground arith)))
      by_type fat16 e changed =
          Ends.by_eq {r' = done tt (record v { fsi_flag = 0 })} (ground arith)
            (returns (reset-IsFlushed v clean (λ is. ground arith)))
      by_type fat32 e changed =
          Ends.by_eq {r' = done tt (write_fsinfo g v)} (ground arith)
            (returns (wrote-IsFlushed v clean))

  -- `sync_fs` leaves the window clean and no change of the counters pending; where the counters of a
  -- FAT32 volume had changed and its FSINFO sector is on the drive, this sector then holds them. A
  -- disk error of the window, the only one, changes nothing.
  pub sync_fs-IsFlushed :
      (placed : IsPlaced g) {v : Fatfs}
      → IsSound v
      → Ends (λ _ w. IsFlushed g v w) (λ w. w ≡ v) (sync_fs g v)
  unfolding sync_fs disk_ioctl
  sync_fs-IsFlushed placed {v} s =
      Ends.bind (sync_window-IsKept g placed s) (λ w e. e)
        λ _ w (kept, clean, at, same).
          Ends.bind (update_fsinfo-IsFlushed g.fs_type w refl clean) (λ u never. absurd never)
            λ _ u f. returns (record {
              clean = f.clean;
              counted = f.counted;
              free_clst = f.free_clst ∙ kept.free_clst;
              last_clst = f.last_clst ∙ kept.last_clst;
              written = λ is changed low i small. ground (
                arith,
                f.written is (kept.fsi_flag ∙ changed) low i small,
                kept.free_clst,
                kept.last_clst,
              );
            })
