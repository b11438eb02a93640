-- ===== src/Api/Removal.antt =====
-- `f_unlink` of ff.c. The local `DIR`s are arguments, since their members are not all set.
pub mod Marked
pub mod Unlinked
use zephyr_fatfs_aflplusplus.Base.{ℕ, Bool, true, false, List, ◌==◌, if◌then◌else◌, bit}
use zephyr_fatfs_aflplusplus.Volume.{
  Geometry, no_file, invalid_name, denied, Act, ◌>>=◌, ◌>>◌, return, throw,
}
use zephyr_fatfs_aflplusplus.Chain.{remove_chain}
use zephyr_fatfs_aflplusplus.Sync.{sync_fs}
use zephyr_fatfs_aflplusplus.Dir.{Dir, Step, ok, halt, ld_clust, dir_sdi}
use zephyr_fatfs_aflplusplus.Dir.Table.{dir_read, dir_remove}
use zephyr_fatfs_aflplusplus.Name.{follow_path}
use zephyr_fatfs_aflplusplus.Api.{System, Reply, with_volume, expect}
use zephyr_fatfs_aflplusplus.Api.Lookup.{is_noname, is_directory}

module _ (g : Geometry) where
  -- What reading the sub-directory has found: it may go only if it is empty.
  unfoldable pub none_left : Step → Act (Unit {0})
  none_left (ok dp) = throw denied
  none_left (halt e dp) = elim e as (λ e. Act (Unit {0})) [
    | no_file ↦ return tt
    | other ↦ throw other
  ]

  -- "Test if the directory is empty"
  unfoldable pub check_empty : Dir → ℕ → Act (Unit {0})
  unfolding none_left
  check_empty sdj dclst = do
    r ← dir_sdi g (record sdj { sclust = dclst }) 0
    expect r λ d. (do r2 ← dir_read g d false; none_left r2)

  -- The entry and the chain are given up.
  unfoldable pub discard : Dir → ℕ → Act (Unit {0})
  discard dp dclst = do
    r ← dir_remove g dp
    expect r λ d. if dclst == 0 then return tt else remove_chain g dclst 0
    sync_fs g

  unfoldable pub unlink_object : Dir → Dir → Act (Unit {0})
  unfolding check_empty discard
  unlink_object sdj dp v =
      let dclst = ld_clust g.fs_type v.win dp.dir in
      if is_noname dp
      then throw invalid_name v
      else if bit dp.attr 0
      then throw denied v
      else if is_directory dp
      then (check_empty sdj dclst >> discard dp dclst) v
      else discard dp dclst v

module _ (signed_char : Bool) where
  unfoldable pub f_unlink : Dir → Dir → List ℕ → System → Reply (Unit {0})
  unfolding unlink_object
  f_unlink dj sdj path =
      with_volume true path
        λ g id p. follow_path signed_char g dj p >>= λ r. expect r (unlink_object g sdj)
