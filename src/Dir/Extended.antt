-- ===== src/Dir/Extended.antt =====
-- A directory table of ff.c that has grown by a cluster.
use zephyr_fatfs_aflplusplus.Base.{
  ℕ, ◌+◌, ◌/◌, ◌*◌, ◌≤◌, ◌<◌, ◌≡◌, ◌⊎◌, false, arith, ◌==◌, ◌∙◌, sym,
}
use zephyr_fatfs_aflplusplus.Volume.{Geometry, Fatfs, view}
use zephyr_fatfs_aflplusplus.Window.Laws.{IsPlain, IsKept}
use zephyr_fatfs_aflplusplus.Window.{clst2sect}
use zephyr_fatfs_aflplusplus.Fat.{disk_error}
use zephyr_fatfs_aflplusplus.Fat.Entry.{HasFat, IsCluster, entry, entry-kept}
use zephyr_fatfs_aflplusplus.Chain.Attach.{IsGrown}
use zephyr_fatfs_aflplusplus.Chain.Create.{Created, follows, grows, full, broken}
use zephyr_fatfs_aflplusplus.Dir.{Dir}

-- The object is at the start of a cluster that was free in `v` and is now in the table: its first
-- sector is in the window and zero, and the bytes outside the FATs and the cluster are those of `v`.
pub record IsExtended (g : Geometry) (v : Fatfs) (dp : Dir) (w : Fatfs) : Type 0 where
  pub inside : IsCluster g dp.clust
  pub free : entry g v dp.clust ≡ 0
  pub start : dp.sect ≡ clst2sect g dp.clust
  pub here : w.winsect ≡ dp.sect
  pub blank : (i : ℕ) → w.win i ≡ 0
  pub beyond :
      (a : ℕ)
      → IsPlain g (a / 512)
      → (a < g.fatbase * 512) ⊎ (g.fatbase * 512 + g.fsize * 512 ≤ a)
      → (a / 512 < dp.sect) ⊎ (dp.sect + g.csize ≤ a / 512)
      → view w a ≡ view v a

pub IsExtended-kept :
    (g : Geometry) (has : HasFat g) (dp : Dir) {u v w : Fatfs}
    → IsKept g u v
    → IsExtended g v dp w
    → IsExtended g u dp w
IsExtended-kept g has dp kept e = record {
  inside = e.inside;
  free = sym (entry-kept g dp.clust has kept e.inside.1) ∙ e.free;
  start = e.start;
  here = e.here;
  blank = e.blank;
  beyond = λ a plain out apart. e.beyond a plain out apart ∙ kept.same a plain;
}

-- Behind the last cluster of a chain `create_chain` allocates.
pub new_cluster :
    (g : Geometry) (dp : Dir) (clst : ℕ) {v w : Fatfs}
    → IsCluster g dp.clust × (g.n_fatent ≤ entry g v dp.clust)
    → Created g dp.clust v clst w
    → (clst == 0) ≡ false
    → (clst == 1) ≡ false
    → (clst == disk_error) ≡ false
    → IsGrown g dp.clust v clst w
new_cluster g dp clst last (follows ne i e k) there right good =
    absurd (omega (arith, i, last.1, e))
new_cluster g dp clst last (grows grown a b) there right good = grown
new_cluster g dp clst last (full e k b) there right good = absurd (ground (arith, e, there))
new_cluster g dp clst last (broken e out) there right good = absurd (ground (arith, e, right, good))
