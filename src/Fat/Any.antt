-- ===== src/Fat/Any.antt =====
-- `get_fat` of ff.c on any number.
use zephyr_fatfs_aflplusplus.Base.{
  ℕ, ◌≤◌, ◌≡◌, ◌≢◌, ◌⊎◌, inl, inr, arith, ltb, leb, ◌||◌, Bool-cases,
}
use zephyr_fatfs_aflplusplus.Volume.{Geometry, Fatfs, done}
use zephyr_fatfs_aflplusplus.Volume.Ends
use zephyr_fatfs_aflplusplus.Volume.Ends.{Ends, returns}
use zephyr_fatfs_aflplusplus.Window.Laws.{IsSound, IsKept, IsKept-refl}
use zephyr_fatfs_aflplusplus.Fat.{get_fat, disk_error, internal_error}
use zephyr_fatfs_aflplusplus.Fat.Entry.{HasFat, IsCluster, entry}
use zephyr_fatfs_aflplusplus.Fat.Get.{Never, get_fat-entry, get_fat_out_of_range}

module _ (g : Geometry) (has : HasFat g) where
  -- `get_fat` on any number: a value from 2 on is the entry of a cluster of the volume.
  pub get_fat_any :
      (c : ℕ) {v : Fatfs}
      → IsSound v
      → Ends
          (λ val w.
            IsKept g v w × (2 ≤ val → val ≢ disk_error → IsCluster g c × (val ≡ entry g v c)))
          Never
          (get_fat g c v)
  get_fat_any c {v} s = elim (Bool-cases (ltb c 2 || leb g.n_fatent c)) [
    | inl out ↦
        Ends.by_eq {r' = done internal_error v} (get_fat_out_of_range g c v (λ i. ground arith))
          (returns (IsKept-refl g s, λ low ne. absurd (omega arith)))
    | inr inside ↦
        let i : IsCluster g c = ground arith in
        Ends.mono (get_fat-entry g has c s i) (λ val w (kept, got). (kept, λ low ne. (i, got ne)))
          (λ w never. never)
  ]

  -- A value below 2 says that this is no cluster, or is its entry.
  pub get_fat_low :
      (c : ℕ) {v : Fatfs}
      → IsSound v
      → Ends (λ val w. val ≤ 1 → (IsCluster g c → ⊥) ⊎ (entry g v c ≤ 1)) Never (get_fat g c v)
  get_fat_low c {v} s = elim (Bool-cases (ltb c 2 || leb g.n_fatent c)) [
    | inl out ↦
        Ends.by_eq {r' = done internal_error v} (get_fat_out_of_range g c v (λ i. ground arith))
          (returns (λ low. inl (λ i. absurd (ground arith))))
    | inr inside ↦
        let i : IsCluster g c = ground arith in
        Ends.mono (get_fat-entry g has c s i)
          (λ val w (kept, got) low. inr (ground (arith, got (omega arith)))) (λ w never. never)
  ]
