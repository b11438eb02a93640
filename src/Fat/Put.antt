-- ===== src/Fat/Put.antt =====
-- `put_fat` of ff.c against the entries of the FAT.
use zephyr_fatfs_aflplusplus.Base.{
  ℕ, ◌+◌, ◌*◌, ◌/◌, ◌%◌, ◌^◌, ◌≤◌, ◌<◌, ◌≡◌, ◌≢◌, ◌⊎◌, refl, subst, arith, low_bits, join, u32,
}
use zephyr_fatfs_aflplusplus.Volume.{Geometry, Fatfs, FsType, fat12, fat16, fat32, view}
use zephyr_fatfs_aflplusplus.Volume.Ends
use zephyr_fatfs_aflplusplus.Volume.Ends.{Ends, returns, fails}
use zephyr_fatfs_aflplusplus.Window.{ld_dword}
use zephyr_fatfs_aflplusplus.Window.Laws.{IsSound, IsPlain, move_window-IsKept}
use zephyr_fatfs_aflplusplus.Fat.{put_fat, put_fat12, put_fat16, put_fat32}
use zephyr_fatfs_aflplusplus.Fat.Entry.{offset, width, bits, HasFat, IsCluster, entry}
use zephyr_fatfs_aflplusplus.Fat.Store.{IsEditedAs, Set, store16-Set, store32-Set}
use zephyr_fatfs_aflplusplus.Fat.Twelve.{Kept-IsEditedAs, put_fat12-Set}

module _ (g : Geometry) (has : HasFat g) where
  put_fat16-Set :
      (c val : ℕ) {v : Fatfs}
      → IsSound v
      → c * 2 + 2 ≤ g.fsize * 512
      → Ends (λ _. Set fat16 g v c val) (IsEditedAs fat16 g c v) (put_fat16 g c val v)
  unfolding put_fat16
  put_fat16-Set c val {v} s room =
      Ends.bind (move_window-IsKept g has.placed (u32 (g.fatbase + c / 256)) s)
        (λ w. Kept-IsEditedAs g has fat16 c)
        λ _ w (kept, at). returns (
          store16-Set g has c val (c / 256) (u32 (c * 2) % 512) kept (omega (arith, has.on_drive))
            (omega (arith, has.on_drive)) (omega (arith, has.on_drive)) room)

  put_fat32-Set :
      (c val : ℕ) {v : Fatfs}
      → IsSound v
      → c * 4 + 4 ≤ g.fsize * 512
      → Ends (λ _. Set fat32 g v c val) (IsEditedAs fat32 g c v) (put_fat32 g c val v)
  unfolding put_fat32
  put_fat32-Set c val {v} s room =
      Ends.bind (move_window-IsKept g has.placed (u32 (g.fatbase + c / 128)) s)
        (λ w. Kept-IsEditedAs g has fat32 c)
        λ _ w (kept, at). returns (
          store32-Set g has c val (c / 128) (u32 (c * 4) % 512) kept (omega (arith, has.on_drive))
            (omega (arith, has.on_drive)) (omega (arith, has.on_drive)) room
            (join 28 (ld_dword w.win (u32 (c * 4) % 512) / 2 ^ 28) (low_bits val 28)) (omega arith))

  by_type :
      (t : FsType) (c val : ℕ) {v : Fatfs}
      → g.fs_type ≡ t
      → IsSound v
      → IsCluster g c
      → Ends (λ _. Set t g v c val) (IsEditedAs t g c v) (put_fat g c val v)
  unfolding put_fat
  by_type fat12 c val {v} e s h = Ends.by_eq {r' = put_fat12 g c val v} (ground arith) (
      put_fat12-Set g has c val
        (subst (λ t. offset t c + width t ≤ g.fsize * 512) e (has.room c h.1)) s)
  by_type fat16 c val {v} e s h =
      Ends.by_eq {r' = put_fat16 g c val v} (ground arith) (
        put_fat16-Set c val s
          (subst (λ t. offset t c + width t ≤ g.fsize * 512) e (has.room c h.1)))
  by_type fat32 c val {v} e s h =
      Ends.by_eq {r' = put_fat32 g c val v} (ground arith) (
        put_fat32-Set c val s
          (subst (λ t. offset t c + width t ≤ g.fsize * 512) e (has.room c h.1)))

-- `v'` is `v` but for the entry of cluster `c`: the same bytes outside the FATs and the same
-- allocation counters.
pub record IsEdited (g : Geometry) (c : ℕ) (v v' : Fatfs) : Type 0 where
  pub sound : IsSound v'
  pub others : (d : ℕ) → d ≢ c → d < g.n_fatent → entry g v' d ≡ entry g v d
  pub beyond :
      (a : ℕ)
      → IsPlain g (a / 512)
      → (a < g.fatbase * 512) ⊎ (g.fatbase * 512 + g.fsize * 512 ≤ a)
      → view v' a ≡ view v a
  pub last_clst : v'.last_clst ≡ v.last_clst
  pub free_clst : v'.free_clst ≡ v.free_clst
  pub fsi_flag : v'.fsi_flag ≡ v.fsi_flag

module _ (g : Geometry) (has : HasFat g) where
  Edited-IsEdited : (c : ℕ) {v v' : Fatfs} → IsEditedAs g.fs_type g c v v' → IsEdited g c v v'
  Edited-IsEdited c e = record {
    sound = e.sound;
    others = λ d ne h. e.others d ne (has.room d h);
    beyond = e.beyond;
    last_clst = e.last_clst;
    free_clst = e.free_clst;
    fsi_flag = e.fsi_flag;
  }

  -- `put_fat` on a cluster of the volume sets its entry to the low bits of the value. It changes no
  -- other entry and no byte outside the FATs, also where it ends with an error.
  pub put_fat-entry :
      (c val : ℕ) {v : Fatfs}
      → IsSound v
      → IsCluster g c
      → Ends
          (λ _ v'. IsEdited g c v v' × (entry g v' c ≡ low_bits val (bits g.fs_type)))
          (IsEdited g c v)
          (put_fat g c val v)
  put_fat-entry c val s h =
      Ends.mono (by_type g has g.fs_type c val refl s h) (λ _ v' (e, x). (Edited-IsEdited c e, x))
        (λ v' e. Edited-IsEdited c e)
