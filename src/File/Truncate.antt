-- ===== src/File/Truncate.antt =====
-- `f_truncate` of ff.c.
use zephyr_fatfs_aflplusplus.Base.{ℕ, not, Option, none, some, ltb, ◌==◌, if◌then◌else◌, bit}
use zephyr_fatfs_aflplusplus.Volume.{
  Geometry, Fresult, int_err, disk_err, denied, invalid_object, Act, done, ◌>>=◌, return, throw,
  on_fail,
}
use zephyr_fatfs_aflplusplus.Fat.{get_fat, disk_error}
use zephyr_fatfs_aflplusplus.Chain.{remove_chain}
use zephyr_fatfs_aflplusplus.File.{File, abort, validate}
use zephyr_fatfs_aflplusplus.File.Write.{modified}

-- The file that ends at its pointer.
unfoldable pub shortened : File → File
shortened f = modified (record f { objsize = f.fptr; sclust = if f.fptr == 0 then 0 else f.sclust })

module _ (g : Geometry) where
  -- The clusters behind the pointer are freed.
  unfoldable pub cut_chain : File → Act (Unit {0})
  cut_chain f = if f.fptr == 0 then remove_chain g f.sclust 0 else (do
    ncl ← get_fat g f.clust
    if ncl == disk_error
        then throw disk_err
        else if ncl == 1
        then throw int_err
        else if ltb ncl g.n_fatent
        then remove_chain g ncl f.clust
        else return tt)

  unfoldable pub f_truncate : Option ℕ → File → Act (Option Fresult × File)
  unfolding validate cut_chain shortened
  f_truncate mounted f v =
      if not (validate mounted v.disk f.fs) then done (some invalid_object, f) v else elim f.err [
        | some e ↦ done (some e, f) v
        | none ↦
            if not (bit f.flag 1)
            then done (some denied, f) v
            else if ltb f.fptr f.objsize
            then on_fail (cut_chain f v) (λ _ w. done (none, shortened f) w)
                (λ e w. done (some e, abort e (shortened f)) w)
            else done (none, f) v
      ]
