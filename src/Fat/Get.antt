-- ===== src/Fat/Get.antt =====
-- `get_fat` of ff.c against the entries of the FAT.
use zephyr_fatfs_aflplusplus.Base.{ℕ, ◌+◌, ◌*◌, ◌/◌, ◌%◌, ◌≤◌, ◌≡◌, ◌≢◌, refl, subst, arith, u32}
use zephyr_fatfs_aflplusplus.Volume.{Geometry, Fatfs, FsType, fat12, fat16, fat32, done}
use zephyr_fatfs_aflplusplus.Volume.Ends
use zephyr_fatfs_aflplusplus.Volume.Ends.{Ends, returns, fails}
use zephyr_fatfs_aflplusplus.Window.{ld_word, ld_dword}
use zephyr_fatfs_aflplusplus.Window.Laws.{IsSound, IsKept, IsKept-trans, move_window-IsKept}
use zephyr_fatfs_aflplusplus.Fat.{
  get_fat, get_fat12, get_fat16, get_fat32, disk_error, internal_error,
}
use zephyr_fatfs_aflplusplus.Fat.Entry.{
  offset, width, HasFat, IsCluster, entry, entry_of, fat_byte, fat_byte-window,
}

-- What a call of `get_fat` on cluster `c` comes to.
abbrev pub Got : Geometry → Fatfs → ℕ → ℕ → Fatfs → Type 0
Got g v c val v' = IsKept g v v' × (val ≢ disk_error → val ≡ entry g v c)

abbrev pub Never : Fatfs → Type 0
Never v = ⊥

module _ (g : Geometry) (has : HasFat g) where
  get_fat16-entry :
      (c : ℕ) {v : Fatfs}
      → IsSound v
      → c * 2 + 2 ≤ g.fsize * 512
      → Ends
          (λ val v'. IsKept g v v' × (val ≢ disk_error → val ≡ entry_of fat16 c (fat_byte g v)))
          Never
          (get_fat16 g c v)
  unfolding get_fat16 entry_of ld_word
  get_fat16-entry c {v} s room =
      Ends.handle (move_window-IsKept g has.placed (u32 (g.fatbase + c / 256)) s)
        (λ e w kept. returns (kept, λ ne. absurd (ne refl)))
        λ _ w (kept, at). returns (
          kept,
          λ _. ground (
            arith,
            has.on_drive,
            has.placed.fats_fit,
            fat_byte-window g (c / 256) (u32 (c * 2) % 512) (c * 2) has kept,
            fat_byte-window g (c / 256) (u32 (c * 2) % 512 + 1) (c * 2 + 1) has kept,
          ),
        )

  get_fat32-entry :
      (c : ℕ) {v : Fatfs}
      → IsSound v
      → c * 4 + 4 ≤ g.fsize * 512
      → Ends
          (λ val v'. IsKept g v v' × (val ≢ disk_error → val ≡ entry_of fat32 c (fat_byte g v)))
          Never
          (get_fat32 g c v)
  unfolding get_fat32 entry_of ld_dword
  get_fat32-entry c {v} s room =
      Ends.handle (move_window-IsKept g has.placed (u32 (g.fatbase + c / 128)) s)
        (λ e w kept. returns (kept, λ ne. absurd (ne refl)))
        λ _ w (kept, at). returns (
          kept,
          λ _. ground (
            arith,
            has.on_drive,
            has.placed.fats_fit,
            fat_byte-window g (c / 128) (u32 (c * 4) % 512) (c * 4) has kept,
            fat_byte-window g (c / 128) (u32 (c * 4) % 512 + 1) (c * 4 + 1) has kept,
            fat_byte-window g (c / 128) (u32 (c * 4) % 512 + 2) (c * 4 + 2) has kept,
            fat_byte-window g (c / 128) (u32 (c * 4) % 512 + 3) (c * 4 + 3) has kept,
          ),
        )

  get_fat12-entry :
      (c : ℕ) {v : Fatfs}
      → IsSound v
      → c + c / 2 + 2 ≤ g.fsize * 512
      → Ends
          (λ val v'. IsKept g v v' × (val ≢ disk_error → val ≡ entry_of fat12 c (fat_byte g v)))
          Never
          (get_fat12 g c v)
  unfolding get_fat12 entry_of
  get_fat12-entry c {v} s room =
      let bc = u32 (c + c / 2) in
      Ends.handle (move_window-IsKept g has.placed (u32 (g.fatbase + bc / 512)) s)
        (λ e w kept. returns (kept, λ ne. absurd (ne refl)))
        λ _ w (kept, at).
          Ends.handle
            (move_window-IsKept g has.placed (u32 (g.fatbase + (bc + 1) / 512)) kept.sound)
            (λ e u kept'. returns (IsKept-trans g kept kept', λ ne. absurd (ne refl)))
            λ _ u (kept', at'). returns (
              IsKept-trans g kept kept',
              λ _. ground (
                arith,
                has.on_drive,
                has.placed.fats_fit,
                fat_byte-window g (bc / 512) (bc % 512) bc has kept,
                fat_byte-window g ((bc + 1) / 512) ((bc + 1) % 512) (bc + 1) has
                    (IsKept-trans g kept kept'),
              ),
            )

  by_type :
      (t : FsType) (c : ℕ) {v : Fatfs}
      → g.fs_type ≡ t
      → IsSound v
      → IsCluster g c
      → Ends
          (λ val v'. IsKept g v v' × (val ≢ disk_error → val ≡ entry_of t c (fat_byte g v)))
          Never
          (get_fat g c v)
  unfolding get_fat
  by_type fat12 c {v} e s h =
      Ends.by_eq {r' = get_fat12 g c v} (ground arith)
        (get_fat12-entry c s (subst (λ t. offset t c + width t ≤ g.fsize * 512) e (has.room c h.1)))
  by_type fat16 c {v} e s h =
      Ends.by_eq {r' = get_fat16 g c v} (ground arith)
        (get_fat16-entry c s (subst (λ t. offset t c + width t ≤ g.fsize * 512) e (has.room c h.1)))
  by_type fat32 c {v} e s h =
      Ends.by_eq {r' = get_fat32 g c v} (ground arith)
        (get_fat32-entry c s (subst (λ t. offset t c + width t ≤ g.fsize * 512) e (has.room c h.1)))

  -- For a cluster of the volume `get_fat` returns its entry, or the value for a disk error; it
  -- never fails otherwise, and no byte of the volume outside a second FAT changes.
  pub get_fat-entry :
      (c : ℕ) {v : Fatfs} → IsSound v → IsCluster g c → Ends (Got g v c) Never (get_fat g c v)
  get_fat-entry c s h = by_type g.fs_type c refl s h

-- For a number that is no cluster of the volume `get_fat` returns 1 and touches nothing.
pub get_fat_out_of_range :
    (g : Geometry) (c : ℕ) (v : Fatfs) → ¬ IsCluster g c → get_fat g c v ≡ done internal_error v
unfolding get_fat
get_fat_out_of_range g c v h = ground arith
