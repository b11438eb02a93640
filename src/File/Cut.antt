-- ===== src/File/Cut.antt =====
-- `f_truncate` of ff.c on the chain of the file.
use zephyr_fatfs_aflplusplus.Base.{
  ℕ, ◌<◌, ◌≤◌, ◌≡◌, ◌≢◌, ◌⊎◌, false, Option, none, some, List, ◌∷◌, ◌==◌, if◌then◌else◌, bit,
}
use zephyr_fatfs_aflplusplus.Volume.{Geometry, Fatfs, Fresult}
use zephyr_fatfs_aflplusplus.Volume.Ends
use zephyr_fatfs_aflplusplus.Volume.Ends.{Ends}
use zephyr_fatfs_aflplusplus.Fat.Entry.{entry}
use zephyr_fatfs_aflplusplus.Chain.Links.{is_in}
use zephyr_fatfs_aflplusplus.Chain.Remove.{IsOutside}
use zephyr_fatfs_aflplusplus.File.{File, abort, validate}
use zephyr_fatfs_aflplusplus.File.Truncate.{shortened}

-- Where the chain of the file is cut: before its first cluster, or behind the current one.
abbrev pub cut_start : File → ℕ
cut_start f = if f.fptr == 0 then f.sclust else f.clust

abbrev pub gone : File → List ℕ → List ℕ
gone f xs = if f.fptr == 0 then f.sclust ∷ xs else xs

-- The clusters `gone` are free, and the current cluster is the last of the file.
pub record IsCut (g : Geometry) (f : File) (xs : List ℕ) (v w : Fatfs) : Type 0 where
  pub outside : IsOutside g v w
  pub entries :
      (d : ℕ)
      → (2 ≤ d) × (d < g.n_fatent)
      → (f.fptr ≡ 0) ⊎ (d ≢ f.clust)
      → entry g w d ≡ (if is_in d (gone f xs) then 0 else entry g v d)
  pub last : f.fptr ≢ 0 → g.n_fatent ≤ entry g w f.clust

-- Errors of the arguments, with which nothing happens; a file that ends where it is to end; a file
-- that is shortened; and an error on the way, which aborts the file.
pub data Truncated (g : Geometry) (mounted : Option ℕ) (f : File) (xs : List ℕ) (v : Fatfs)
    : Option Fresult × File → Fatfs → Type 0 where
  refused :
      (e : Fresult)
      → (validate mounted v.disk f.fs ≡ false) ⊎ ((f.err ≡ some e) ⊎ (bit f.flag 1 ≡ false))
      → Truncated g mounted f xs v (some e, f) v
  at_end : f.objsize ≤ f.fptr → Truncated g mounted f xs v (none, f) v
  cut : {w : Fatfs} → IsCut g f xs v w → Truncated g mounted f xs v (none, shortened f) w
  broken :
      (e : Fresult) {w : Fatfs}
      → IsOutside g v w
      → Truncated g mounted f xs v (some e, abort e (shortened f)) w
