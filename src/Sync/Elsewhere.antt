-- ===== src/Sync/Elsewhere.antt =====
-- What `sync_fs` of ff.c leaves on the volume, outside the FSINFO sector.
use zephyr_fatfs_aflplusplus.Base.{
  ℕ, ◌+◌, ◌/◌, ◌%◌, ◌<◌, ◌≡◌, ◌≢◌, inl, inr, refl, sym, ◌∙◌, none, some, true, false, arith, ◌==◌,
  Bool-cases, u32,
}
use zephyr_fatfs_aflplusplus.Diskio.{Bytes, disk_ioctl}
use zephyr_fatfs_aflplusplus.Diskio.Laws.{disk_write-sector, disk_write_on_drive}
use zephyr_fatfs_aflplusplus.Volume.{
  Geometry, Fatfs, FsType, fat12, fat16, fat32, view, done, put_byte,
}
use zephyr_fatfs_aflplusplus.Volume.Ends
use zephyr_fatfs_aflplusplus.Volume.Ends.{Ends, returns}
use zephyr_fatfs_aflplusplus.Window.{st_dword}
use zephyr_fatfs_aflplusplus.Window.Laws.{IsSound, IsPlaced, IsPlain, sync_window-IsKept}
use zephyr_fatfs_aflplusplus.Fat.Get.{Never}
use zephyr_fatfs_aflplusplus.Sync.{fsinfo, write_fsinfo, update_fsinfo, sync_fs}

-- The bytes outside a second FAT and the FSINFO sector are what they were.
pub record IsSynced (g : Geometry) (v w : Fatfs) : Type 0 where
  pub sound : IsSound w
  pub same : (a : ℕ) → IsPlain g (a / 512) → a / 512 ≢ u32 (g.volbase + 1) → view w a ≡ view v a

st_dword_bytes : (p : Bytes) (k n : ℕ) → ((i : ℕ) → p i < 256) → (i : ℕ) → st_dword p k n i < 256
unfolding st_dword put_byte
st_dword_bytes p k n h i = ground (arith, h i)

fsinfo_bytes : (free last i : ℕ) → fsinfo free last i < 256
unfolding fsinfo
fsinfo_bytes free last =
    let p0 = st_dword_bytes (λ i. 0) 0 0x41615252 (λ i. omega arith) in
    let p1 = st_dword_bytes _ 484 0x61417272 p0 in
    let p2 = st_dword_bytes _ 488 free p1 in
    let p3 = st_dword_bytes _ 492 last p2 in st_dword_bytes _ 498 0xAA550000 p3

lost : (d : Bytes) → none ≡ some d → ⊥
lost d e = ground arith

module _ (g : Geometry) where
  write_fsinfo-IsSynced :
      (v : Fatfs) → IsSound v → v.wflag ≡ false → IsSynced g v (write_fsinfo g v)
  unfolding write_fsinfo
  write_fsinfo-IsSynced v s clean =
      let win = fsinfo v.free_clst v.last_clst in
      let sect = u32 (g.volbase + 1) in
      elim (disk_write-sector v.disk win sect) [
        | inl e ↦
            rw (write_fsinfo, e)
              (record {
                sound = record {
                  coherent = λ a c low at.
                      let (d, e2, _) = disk_write_on_drive v.disk win sect low in
                      absurd (lost d (sym e ∙ e2));
                  win_bytes = fsinfo_bytes v.free_clst v.last_clst;
                  disk_bytes = s.disk_bytes;
                };
                same = λ a plain ne. ground (arith, s.coherent a);
              })
        | inr (d, e, low, at) ↦
            rw (write_fsinfo, e)
              (record {
                sound = record {
                  coherent = λ a c l h. ground (arith, at a);
                  win_bytes = fsinfo_bytes v.free_clst v.last_clst;
                  disk_bytes = λ a.
                      ground (
                        arith,
                        at a,
                        s.disk_bytes a,
                        fsinfo_bytes v.free_clst v.last_clst (a % 512),
                      );
                };
                same = λ a plain ne. ground (arith, at a, s.coherent a);
              })
      ]

  update_fsinfo-IsSynced :
      (t : FsType) (v : Fatfs)
      → g.fs_type ≡ t
      → IsSound v
      → v.wflag ≡ false
      → Ends (λ _ w. IsSynced g v w) Never (update_fsinfo g v)
  unfolding update_fsinfo
  update_fsinfo-IsSynced t v e s clean = elim (Bool-cases (v.fsi_flag == 1)) [
    | inr same ↦ rw same (returns (record { sound = s; same = λ a plain ne. refl }))
    | inl changed ↦ by_type t e changed
  ]
    where
      reset : IsSynced g v (record v { fsi_flag = 0 })
      reset = record {
        sound = record {
          coherent = s.coherent;
          win_bytes = s.win_bytes;
          disk_bytes = s.disk_bytes;
        };
        same = λ a plain ne. refl;
      }

      by_type :
          (t : FsType)
          → g.fs_type ≡ t
          → (v.fsi_flag == 1) ≡ true
          → Ends (λ _ w. IsSynced g v w) Never (update_fsinfo g v)
      by_type fat12 e changed =
          Ends.by_eq {r' = done tt (record v { fsi_flag = 0 })} (ground arith) (returns reset)
      by_type fat16 e changed =
          Ends.by_eq {r' = done tt (record v { fsi_flag = 0 })} (ground arith) (returns reset)
      by_type fat32 e changed =
          Ends.by_eq {r' = done tt (write_fsinfo g v)} (ground arith)
            (returns (write_fsinfo-IsSynced v s clean))

  -- `sync_fs` changes no byte outside a second FAT and the FSINFO sector.
  pub sync_fs-IsSynced :
      (placed : IsPlaced g) {v : Fatfs}
      → IsSound v
      → Ends (λ _ w. IsSynced g v w) (λ w. w ≡ v) (sync_fs g v)
  unfolding sync_fs disk_ioctl
  sync_fs-IsSynced placed {v} s =
      Ends.bind (sync_window-IsKept g placed s) (λ w e. e)
        λ _ w (kept, clean, at, same).
          Ends.bind (update_fsinfo-IsSynced g.fs_type w refl kept.sound clean)
            (λ u never. absurd never)
            λ _ u f. returns (record {
              sound = f.sound;
              same = λ a plain ne. f.same a plain ne ∙ kept.same a plain;
            })
