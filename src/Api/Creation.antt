-- ===== src/Api/Creation.antt =====
-- `f_mkdir` of ff.c. The local `DIR` is an argument, since its members are not all set.
pub mod Sound
use zephyr_fatfs_aflplusplus.Base.{ℕ, ◌+◌, Bool, true, List, ◌==◌, if◌then◌else◌, ltb}
use zephyr_fatfs_aflplusplus.Diskio.{Bytes, memcpy}
use zephyr_fatfs_aflplusplus.Volume.{
  Geometry, no_file, exist, denied, int_err, disk_err, Act, done, fail, ◌>>=◌, ◌>>◌, return, throw,
  on_fail, put_byte,
}
use zephyr_fatfs_aflplusplus.Window.{st_dword}
use zephyr_fatfs_aflplusplus.Fat.{disk_error, poke}
use zephyr_fatfs_aflplusplus.Chain.{create_chain, remove_chain}
use zephyr_fatfs_aflplusplus.Sync.{sync_fs}
use zephyr_fatfs_aflplusplus.Dir.{Dir, Step, ok, halt, entry_size, st_clust, dir_clear}
use zephyr_fatfs_aflplusplus.Dir.Table.{dir_register}
use zephyr_fatfs_aflplusplus.Name.{follow_path}
use zephyr_fatfs_aflplusplus.File.{fat_time}
use zephyr_fatfs_aflplusplus.Api.{System, Reply, with_volume, expect}

module _ (g : Geometry) where
  -- The window with the entries `.` and `..` of a table at `dcl` under one at `pcl`.
  unfoldable pub dot_entries : Bytes → ℕ → ℕ → Bytes
  unfolding put_byte st_dword st_clust memcpy
  dot_entries win dcl pcl =
      let spaces : Bytes = λ i. if ltb i 11 then 0x20 else win i in
      let p1 = put_byte (put_byte spaces 0 0x2E) 11 0x10 in
      let p2 = st_clust g.fs_type (st_dword p1 22 (fat_time g)) 0 dcl in
      let p3 = put_byte (memcpy p2 entry_size p2 entry_size) (entry_size + 1) 0x2E in
      st_clust g.fs_type p3 entry_size pcl

  -- The entry of a directory with its table at `dcl`.
  unfoldable pub directory_entry : Bytes → ℕ → ℕ → Bytes
  unfolding put_byte st_dword st_clust
  directory_entry p d dcl =
      put_byte (st_clust g.fs_type (st_dword p (d + 22) (fat_time g)) d dcl) (d + 11) 0x10

  -- The table at `dcl` filled, and registered in its parent.
  unfoldable pub fill_table : Dir → ℕ → Act Dir
  unfolding dot_entries
  fill_table dp dcl = do
    if dcl == 0
        then throw denied
        else if dcl == 1
        then throw int_err
        else if dcl == disk_error
        then throw disk_err
        else dir_clear g dcl
    (λ v. done tt (poke (dot_entries v.win dcl dp.sclust) v))
    r ← dir_register g dp
    expect r return

  -- Where the table cannot be registered, its cluster is freed; the result of that is not looked at.
  unfoldable pub make_directory : Dir → Act (Unit {0})
  unfolding fill_table directory_entry
  make_directory dp = do
    dcl ← create_chain g 0
    (λ v.
        on_fail (fill_table dp dcl v) (λ d w. sync_fs g (poke (directory_entry w.win d.dir dcl) w))
          (λ e w. on_fail (remove_chain g dcl 0 w) (λ _ u. fail e u) (λ _ u. fail e u)))

  unfoldable pub mkdir_object : Step → Act (Unit {0})
  unfolding make_directory
  mkdir_object (ok dp) = throw exist
  mkdir_object (halt e dp) = elim e as (λ e. Act (Unit {0})) [
    | no_file ↦ make_directory dp
    | other ↦ throw other
  ]

module _ (signed_char : Bool) where
  unfoldable pub f_mkdir : Dir → List ℕ → System → Reply (Unit {0})
  unfolding mkdir_object
  f_mkdir dj path =
      with_volume true path λ g id p. follow_path signed_char g dj p >>= mkdir_object g
