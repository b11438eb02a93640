-- ===== src/Api/Space/Entries.antt =====
-- The entries of the FAT as the scans of `f_getfree` of ff.c read them.
use zephyr_fatfs_aflplusplus.Base.{
  ℕ, zero, suc, ◌+◌, ◌*◌, ◌/◌, ◌%◌, ◌<◌, ◌≤◌, ◌≡◌, ◌≢◌, refl, subst, ◌⊎◌, inl, inr, arith, ◌==◌,
  if◌then◌else◌, Bool-cases, ltb,
}
use zephyr_fatfs_aflplusplus.Volume.{Geometry, Fatfs, fat16, fat32}
use zephyr_fatfs_aflplusplus.Volume.Ends
use zephyr_fatfs_aflplusplus.Volume.Ends.{Ends, returns, fails}
use zephyr_fatfs_aflplusplus.Window.{ld_word, ld_dword}
use zephyr_fatfs_aflplusplus.Window.Laws.{IsKept, IsKept-trans}
use zephyr_fatfs_aflplusplus.Fat.{disk_error}
use zephyr_fatfs_aflplusplus.Fat.Entry.{
  HasFat, entry, entry_of, offset, width, fat_byte-window, entry-kept,
}
use zephyr_fatfs_aflplusplus.Fat.Get.{get_fat-entry}
use zephyr_fatfs_aflplusplus.Chain.Links.{used}
use zephyr_fatfs_aflplusplus.Api.Space.{scan_fat12, is_free_at}

-- The size of an entry fits the offsets of entries.
abbrev pub IsStep : ℕ → ℕ → Type 0
IsStep eb o = ((eb ≡ 2) × (o % 2 ≡ 0)) ⊎ ((eb ≡ 4) × (o % 4 ≡ 0))

-- From one offset in the FAT to the next: the byte in the sector, and the sectors begun.
pub step_offset :
    (eb o : ℕ)
    → IsStep eb o
    → ((o % 512 + eb) % 512 ≡ (o + eb) % 512)
      × ((o + eb + 511) / 512 ≡ (if o % 512 == 0 then (o + 511) / 512 + 1 else (o + 511) / 512))
      × ((o + eb) % 512 ≢ 0 → (o + eb) / 512 ≡ o / 512)
step_offset eb o h = ground arith

pub used-suc : (n c : ℕ) (f : ℕ → ℕ) → suc c ≡ n → used n f ≡ used c f + (if f c == 0 then 0 else 1)
used-suc n c f e = subst (λ m. used m f ≡ used c f + (if f c == 0 then 0 else 1)) e refl

-- A number of free entries that completes the entries in use.
abbrev pub Tally : Geometry → Fatfs → ℕ → Fatfs → Type 0
Tally g v n w = IsKept g v w × (n + used g.n_fatent (entry g v) ≡ g.n_fatent)

module _ (g : Geometry) (has : HasFat g) {v : Fatfs} where
  pub scan_fat12-Tally :
      (fuel c nfree : ℕ) {w : Fatfs}
      → IsKept g v w
      → (2 ≤ c) × (c < g.n_fatent)
      → nfree + used c (entry g v) ≡ c
      → g.n_fatent < c + fuel
      → Ends (Tally g v) (IsKept g v) (scan_fat12 g fuel c nfree w)
  unfolding scan_fat12
  scan_fat12-Tally zero c nfree kept inside tally enough = absurd (omega arith)
  scan_fat12-Tally (suc fuel) c nfree {w} kept inside tally enough =
      Ends.bind (get_fat-entry g has c kept.sound inside) (λ u never. absurd never)
        λ stat u (k, got).
          let kept' = IsKept-trans g kept k in
          elim (Bool-cases (stat == disk_error)) [
            | inl bad ↦ rw bad (fails kept')
            | inr read ↦ elim (Bool-cases (stat == 1)) [
              | inl odd ↦ rw (read, odd) (fails kept')
              | inr good ↦
                  let same : stat ≡ entry g v c =
                    ground (arith, got (ground arith), entry-kept g c has kept inside.1) in
                  elim (Bool-cases (ltb (c + 1) g.n_fatent)) [
                    | inl more ↦
                        rw (read, good, more)
                          (scan_fat12-Tally fuel (c + 1) (if stat == 0 then nfree + 1 else nfree)
                            kept' (ground arith) (ground arith) (omega arith))
                    | inr end ↦
                        rw (read, good, end)
                          (returns (
                            kept',
                            ground (arith, used-suc g.n_fatent c (entry g v) (ground arith)),
                          ))
                  ]
            ]
          ]

  pub free_at16 :
      (k : ℕ) {w : Fatfs}
      → g.fs_type ≡ fat16
      → IsKept g v w
      → k < g.n_fatent
      → w.winsect ≡ g.fatbase + k * 2 / 512
      → is_free_at g w (k * 2 % 512) ≡ (entry g v k == 0)
  unfolding ld_word entry_of
  free_at16 k {w} e kept low at =
      let room : k * 2 + 2 ≤ g.fsize * 512 =
        subst (λ t. offset t k + width t ≤ g.fsize * 512) e (has.room k low) in
      rw e (
        ground (
          arith,
          fat_byte-window g (k * 2 / 512) (k * 2 % 512) (k * 2) has kept,
          fat_byte-window g (k * 2 / 512) (k * 2 % 512 + 1) (k * 2 + 1) has kept,
        ))

  pub free_at32 :
      (k : ℕ) {w : Fatfs}
      → g.fs_type ≡ fat32
      → IsKept g v w
      → k < g.n_fatent
      → w.winsect ≡ g.fatbase + k * 4 / 512
      → is_free_at g w (k * 4 % 512) ≡ (entry g v k == 0)
  unfolding ld_dword entry_of
  free_at32 k {w} e kept low at =
      let room : k * 4 + 4 ≤ g.fsize * 512 =
        subst (λ t. offset t k + width t ≤ g.fsize * 512) e (has.room k low) in
      rw e (
        ground (
          arith,
          fat_byte-window g (k * 4 / 512) (k * 4 % 512) (k * 4) has kept,
          fat_byte-window g (k * 4 / 512) (k * 4 % 512 + 1) (k * 4 + 1) has kept,
          fat_byte-window g (k * 4 / 512) (k * 4 % 512 + 2) (k * 4 + 2) has kept,
          fat_byte-window g (k * 4 / 512) (k * 4 % 512 + 3) (k * 4 + 3) has kept,
        ))
