-- ===== src/Api/Lookup.antt =====
-- Looking at directories in ff.c: `f_opendir`, `f_closedir`, `f_readdir` and `f_stat`. A local or a
-- blank `DIR` is an argument, since its members are not all set.
pub mod Kept
use zephyr_fatfs_aflplusplus.Base.{
  ℕ, Bool, true, false, not, Option, none, some, List, ◌%◌, if◌then◌else◌, bit,
}
use zephyr_fatfs_aflplusplus.Volume.{
  Geometry, Fatfs, Fresult, no_file, no_path, invalid_name, invalid_object, Act, Out, done, ◌>>=◌,
  return, throw, on_fail,
}
use zephyr_fatfs_aflplusplus.Dir.{Dir, Step, ok, halt, dir_sdi, dir_next, ld_clust}
use zephyr_fatfs_aflplusplus.Dir.Table.{dir_read}
use zephyr_fatfs_aflplusplus.Name.{Filinfo, get_fileinfo, follow_path}
use zephyr_fatfs_aflplusplus.File.{validate}
use zephyr_fatfs_aflplusplus.Api.{System, Reply, with_volume, expect}

-- A `DIR` of the caller: `fs` is `none` where it is invalid, and the id of its mount otherwise.
pub record Handle : Type 0 where
  pub fs : Option ℕ
  pub dir : Dir

-- `NS_NONAME`: the path names the origin directory.
abbrev pub is_noname : Dir → Bool
is_noname dp = bit (dp.fn 11) 7

abbrev pub is_directory : Dir → Bool
is_directory dp = bit dp.attr 4

-- `if (res == FR_NO_FILE) res = FR_NO_PATH;`
unfoldable pub no_directory : Fresult → Fresult
no_directory e = elim e as (λ e. Fresult) [ no_file ↦ no_path | other ↦ other ]

-- `f_closedir` leaves an object that is invalid.
unfoldable pub f_closedir : Option ℕ → Handle → Act (Option Fresult × Handle)
unfolding validate
f_closedir mounted d v =
    if validate mounted v.disk d.fs
    then done (none, record d { fs = none }) v
    else done (some invalid_object, d) v

-- The code and the object of a step, where the end of the directory is no error.
unfoldable pub settle_step : Step → Option Fresult × Dir
settle_step (ok dp) = (none, dp)
settle_step (halt e dp) = (elim e [ no_file ↦ none | other ↦ some other ], dp)

abbrev pub Reading : Type 0
Reading = Option Fresult × Handle × Option Filinfo

-- The information on the object that a path names; `fno` may be null.
unfoldable pub inform : Option Filinfo → Dir → Act (Option Filinfo)
inform fno dp v =
    let filled : Option Filinfo = elim fno [
      | none ↦ none
      | some info ↦ some (get_fileinfo dp v info)
    ] in
    if is_noname dp then throw invalid_name v else done filled v

module _ (g : Geometry) where
  -- The table that the path names: that of the origin directory, or of a sub-directory.
  unfoldable pub open_table : Dir → Act Dir
  open_table dp v =
      if is_noname dp
      then done dp v
      else if is_directory dp
      then done (record dp { sclust = ld_clust g.fs_type v.win dp.dir }) v
      else throw no_path v

  -- The rest of `f_readdir`, once an item is read.
  unfoldable pub report_item : Handle → Filinfo → Option Fresult × Dir → Act Reading
  unfolding get_fileinfo
  report_item d fno (some e, dp) v = done (some e, record d { dir = dp }, some fno) v
  report_item d fno (none, dp) v =
      let info = get_fileinfo dp v fno in
      (dir_next g dp false >>= λ r.
      let (res, dp') = settle_step r in return (res, record d { dir = dp' }, some info))
        v

  -- `fno` is `none` to rewind.
  unfoldable pub f_readdir : Option ℕ → Handle → Option Filinfo → Act Reading
  unfolding validate settle_step
  f_readdir mounted d fno v =
      if not (validate mounted v.disk d.fs)
      then done (some invalid_object, d, fno) v
      else elim fno [
        | none ↦
            (dir_sdi g d.dir 0 >>= λ r. elim r as (λ r. Act Reading) [
              | ok dp ↦ return (none, record d { dir = dp }, none)
              | halt e dp ↦ return (some e, record d { dir = dp }, none)
            ])
              v
        | some info ↦ (dir_read g d.dir false >>= λ r. report_item d info (settle_step r)) v
      ]

module _ (signed_char : Bool) (g : Geometry) where
  unfoldable pub opendir_body : Dir → ℕ → List ℕ → Act Handle
  unfolding no_directory open_table
  opendir_body dp id path v =
      let table : Act Dir = (do
        r ← follow_path signed_char g dp path
        dp1 ← expect r (open_table g)
        r2 ← dir_sdi g dp1 0
        expect r2 return) in
      on_fail (table v) (λ d w. done (record { fs = some id; dir = d }) w)
        (λ e w. throw (no_directory e) w)

  unfoldable pub stat_body : Dir → Option Filinfo → List ℕ → Act (Option Filinfo)
  stat_body dj fno path = do r ← follow_path signed_char g dj path; expect r (inform fno)

module _ (signed_char : Bool) where
  unfoldable pub f_opendir : Dir → List ℕ → System → Reply Handle
  f_opendir dp path = with_volume false path λ g id p. opendir_body signed_char g dp id p

  unfoldable pub f_stat : Dir → Option Filinfo → List ℕ → System → Reply (Option Filinfo)
  f_stat dj fno path = with_volume false path λ g id p. stat_body signed_char g dj fno p
