-- ===== src/Mount/Probe.antt =====
-- Reads through a clean window: `move_window` while ff.c looks for a volume, and the counters of
-- FSINFO in `mount_volume`.
use mathlib.Core.Path.{fun_ext}
use zephyr_fatfs_aflplusplus.Base.{
  ℕ, ◌+◌, ◌≤◌, ◌<◌, ◌≡◌, ◌≢◌, inl, inr, refl, ◌∙◌, false, arith, ◌==◌, ◌&&◌, u32, Bool-cases,
}
use zephyr_fatfs_aflplusplus.Diskio.{AreBytes, disk_sectors}
use zephyr_fatfs_aflplusplus.Diskio.Laws.{disk_read-sector, disk_read_fails}
use zephyr_fatfs_aflplusplus.Volume.{
  Geometry, Fatfs, fat12, fat16, fat32, FsType, done, fail, disk_err, on_fail,
}
use zephyr_fatfs_aflplusplus.Volume.Ends
use zephyr_fatfs_aflplusplus.Volume.Ends.{Ends, returns, fails}
use zephyr_fatfs_aflplusplus.Window.{
  no_sector, sync_window, load_window, move_window, ld_word, ld_dword,
}
use zephyr_fatfs_aflplusplus.Window.Laws.{IsSound, IsPlaced, filled-IsKept, lost-IsKept}
use zephyr_fatfs_aflplusplus.Mount.{load_fsinfo, read_fsinfo, unknown}
use zephyr_fatfs_aflplusplus.Mount.Found.{sector}

abbrev pub Never : Fatfs → Type 0
Never v = ⊥

-- The volume is sound and its window clean.
pub record IsClean (v : Fatfs) : Type 0 where
  pub sound : IsSound v
  pub clean : v.wflag ≡ false

abbrev pub IsKeptClean : Fatfs → Fatfs → Type 0
IsKeptClean v w = IsClean w × (w.disk ≡ v.disk)

abbrev blank : Geometry
blank = record {
  fs_type = fat12;
  n_fats = 1;
  n_rootdir = 0;
  csize = 1;
  n_fatent = 2;
  fsize = 0;
  volbase = 0;
  fatbase = 0;
  dirbase = 0;
  database = 0;
}

blank-IsPlaced : IsPlaced blank
blank-IsPlaced = record { fats_fit = omega arith }

module _ (g : Geometry) where
  -- Moving a clean window is a read of the drive, which fails beyond its end.
  pub move-IsClean :
      (sect : ℕ) {v : Fatfs}
      → IsClean v
      → sect ≢ v.winsect
      → Ends
          (λ _ w.
            IsClean w
            × (w.disk ≡ v.disk)
            × (sect < disk_sectors)
            × (w.winsect ≡ sect)
            × (w.win ≡ sector v.disk sect))
          (λ w. IsClean w × (w.disk ≡ v.disk) × (disk_sectors ≤ sect) × (w.win ≡ v.win))
          (move_window g sect v)
  unfolding move_window sync_window load_window
  move-IsClean sect {v} c elsewhere =
      let away : (sect == v.winsect) ≡ false = ground arith in
      elim (disk_read-sector v.disk sect) [
        | inl e ↦
            Ends.by_eq {r' = fail disk_err (record v { winsect = no_sector })}
              (ground (arith, c.clean))
              (fails (
                record {
                  sound = (lost-IsKept blank blank-IsPlaced c.sound c.clean).sound;
                  clean = c.clean;
                },
                refl,
                disk_read_fails v.disk sect e,
                refl,
              ))
        | inr (b, e, low, at) ↦
            Ends.by_eq {r' = done tt (record v { winsect = sect; win = b })}
              (ground (arith, c.clean))
              (returns (
                record {
                  sound = (filled-IsKept blank blank-IsPlaced sect b c.sound c.clean at).sound;
                  clean = c.clean;
                },
                refl,
                low,
                refl,
                fun_ext at,
              ))
      ]

  pub forgotten-IsClean :
      (v : Fatfs)
      → AreBytes v.win
      → AreBytes v.disk
      → IsClean (record v { wflag = false; winsect = no_sector })
  forgotten-IsClean v hw hd = record {
    sound = record { coherent = λ a _ low. absurd (omega arith); win_bytes = hw; disk_bytes = hd };
    clean = refl;
  }

  move_any-IsClean :
      (sect : ℕ) {v : Fatfs}
      → IsClean v
      → Ends (λ _ w. IsKeptClean v w) (IsKeptClean v) (move_window g sect v)
  unfolding move_window
  move_any-IsClean sect {v} c = elim (Bool-cases (sect == v.winsect)) [
    | inl here ↦ Ends.by_eq {r' = done tt v} (ground arith) (returns (c, refl))
    | inr away ↦
        Ends.mono (move-IsClean sect c (ground arith)) (λ _ w (c, d, _, _, _). (c, d))
          (λ w (c, d, _, _). (c, d))
  ]

  fsinfo_of-IsSound : {v : Fatfs} → IsClean v → IsKeptClean v (read_fsinfo v)
  unfolding read_fsinfo
  fsinfo_of-IsSound {v} c =
      let s = c.sound in
      elim (Bool-cases (
        ld_dword v.win 0 == 0x41615252
        && (ld_dword v.win 484 == 0x61417272 && ld_dword v.win 498 == 0xAA550000))) [
          | inl there ↦ rw there (
            (record {
              sound = record {
                coherent = s.coherent;
                win_bytes = s.win_bytes;
                disk_bytes = s.disk_bytes;
              };
              clean = c.clean;
            }),
            refl,
          )
          | inr not_there ↦ rw not_there (
            (record {
              sound = record {
                coherent = s.coherent;
                win_bytes = s.win_bytes;
                disk_bytes = s.disk_bytes;
              };
              clean = c.clean;
            }),
            refl,
          )
        ]

  -- The counters come from FSINFO or are unknown; a disk error there is no error.
  pub load_fsinfo-IsClean :
      {v : Fatfs} → IsClean v → Ends (λ _ w. IsKeptClean v w) Never (load_fsinfo g v)
  unfolding load_fsinfo
  load_fsinfo-IsClean {v} c = by_type g.fs_type refl
    where
      v' : Fatfs
      v' = record v { last_clst = unknown; free_clst = unknown; fsi_flag = 0x80 }

      c' : IsClean v'
      c' = record {
        sound = record {
          coherent = c.sound.coherent;
          win_bytes = c.sound.win_bytes;
          disk_bytes = c.sound.disk_bytes;
        };
        clean = c.clean;
      }

      by_type : (t : FsType) → g.fs_type ≡ t → Ends (λ _ w. IsKeptClean v w) Never (load_fsinfo g v)
      by_type fat12 e = Ends.by_eq {r' = done tt v'} (ground arith) (returns (c', refl))
      by_type fat16 e = Ends.by_eq {r' = done tt v'} (ground arith) (returns (c', refl))
      by_type fat32 e = elim (Bool-cases (ld_word v.win 48 == 1)) [
        | inl on ↦
            Ends.by_eq
              {r' = on_fail (move_window g (u32 (g.volbase + 1)) v')
                (λ _ w. done tt (read_fsinfo w)) (λ _ w. done tt w)}
              (ground arith)
              (Ends.handle (move_any-IsClean (u32 (g.volbase + 1)) c') (λ e w k. returns k)
                (λ _ w (k, d). let (k', d') = fsinfo_of-IsSound k in returns (k', d' ∙ d)))
        | inr off ↦ Ends.by_eq {r' = done tt v'} (ground arith) (returns (c', refl))
      ]
