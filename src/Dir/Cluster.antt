-- ===== src/Dir/Cluster.antt =====
-- `ld_clust` and `st_clust` of ff.c: the start cluster of an entry.
use zephyr_fatfs_aflplusplus.Base.{ℕ, ◌+◌, ◌≤◌, ◌<◌, ◌≡◌, ◌⊎◌, arith}
use zephyr_fatfs_aflplusplus.Diskio.{Bytes}
use zephyr_fatfs_aflplusplus.Volume.{FsType, fat12, fat16, fat32, put_byte}
use zephyr_fatfs_aflplusplus.Window.{ld_word, st_word}
use zephyr_fatfs_aflplusplus.Fat.Entry.{max_fatent}
use zephyr_fatfs_aflplusplus.Dir.{ld_clust, st_clust}

-- What `st_clust` stores for a cluster number of the volume's type, `ld_clust` reads. It changes no
-- byte of the entry but the four of the two fields.
pub ld_clust-st_clust :
    (t : FsType) (p : Bytes) (dir cl : ℕ)
    → cl < max_fatent t
    → (ld_clust t (st_clust t p dir cl) dir ≡ cl)
      × ((i : ℕ)
          → (i < dir + 20) ⊎ ((dir + 28 ≤ i) ⊎ ((dir + 22 ≤ i) × (i < dir + 26)))
          → st_clust t p dir cl i ≡ p i)
unfolding ld_clust st_clust ld_word st_word put_byte
ld_clust-st_clust fat12 p dir cl low = (ground arith, λ i out. ground arith)
ld_clust-st_clust fat16 p dir cl low = (ground arith, λ i out. ground arith)
ld_clust-st_clust fat32 p dir cl low = (ground arith, λ i out. ground arith)
