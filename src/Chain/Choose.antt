-- ===== src/Chain/Choose.antt =====
-- The choice of a new cluster by `create_chain`.
use zephyr_fatfs_aflplusplus.Base.{ℕ, suc, ◌≤◌, ◌<◌, ◌≡◌, inl, inr, arith, ◌==◌, ◌||◌, Bool-cases}
use zephyr_fatfs_aflplusplus.Volume.{Geometry, Fatfs}
use zephyr_fatfs_aflplusplus.Volume.Ends
use zephyr_fatfs_aflplusplus.Volume.Ends.{Ends, returns, fails}
use zephyr_fatfs_aflplusplus.Window.Laws.{IsSound, IsKept, IsKept-trans}
use zephyr_fatfs_aflplusplus.Fat.{disk_error}
use zephyr_fatfs_aflplusplus.Fat.Entry.{HasFat, IsCluster, entry, entry-kept}
use zephyr_fatfs_aflplusplus.Fat.Get.{Never, get_fat-entry}
use zephyr_fatfs_aflplusplus.Chain.{search_loop, suggested, choose}
use zephyr_fatfs_aflplusplus.Chain.Search.{Picked, Picked-ext, next, search_loop-Picked}

module _ (g : Geometry) (has : HasFat g) where
  from_start :
      (scl : ℕ) {v : Fatfs}
      → IsSound v
      → (1 ≤ scl) × (scl < g.n_fatent)
      → Ends
          (λ p w. IsKept g v w × Picked g.n_fatent (entry g v) p)
          Never
          (search_loop g (suc g.n_fatent) scl scl v)
  from_start scl s h =
      search_loop-Picked g has (suc g.n_fatent) scl scl s h h
        (λ d low high at. absurd (omega arith)) (ground arith)

  suggested_bounds :
      (scl : ℕ) (w : Fatfs)
      → (1 ≤ scl) × (scl < g.n_fatent)
      → (1 ≤ suggested g w scl) × (suggested g w scl < g.n_fatent)
  unfolding suggested
  suggested_bounds scl w h = ground arith

  pub choose-Picked :
      (clst scl : ℕ) {v : Fatfs}
      → IsSound v
      → (1 ≤ scl) × (scl < g.n_fatent)
      → (scl ≡ clst → 2 ≤ clst)
      → Ends (λ p w. IsKept g v w × Picked g.n_fatent (entry g v) p) Never (choose g clst scl v)
  unfolding choose
  choose-Picked clst scl {v} s h at = elim (Bool-cases (scl == clst)) [
    | inr new ↦ rw new (from_start scl s h)
    | inl old ↦
        let nx = next g.n_fatent scl in
        let inside : IsCluster g nx = ground arith in
        rw old (
          Ends.bind (get_fat-entry g has nx s inside) (λ w never. never)
            λ cs w (kept, got). elim (Bool-cases (cs == 1 || cs == disk_error)) [
              | inl bad ↦ rw bad (returns (kept, inr (ground arith)))
              | inr good ↦ elim (Bool-cases (cs == 0)) [
                | inl free ↦ rw (good, free) (returns (kept, (inside.0, inside.1, ground arith)))
                | inr live ↦
                    rw (good, live)
                      (Ends.mono
                        (from_start (suggested g w scl) kept.sound (suggested_bounds scl w h))
                        (λ p u (kept', picked). (
                          IsKept-trans g kept kept',
                          Picked-ext g.n_fatent (entry g v) (entry g w) p
                              (λ d low. entry-kept g d has kept low) picked,
                        ))
                        (λ u never. never))
              ]
            ])
  ]
