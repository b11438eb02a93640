-- ===== src/Api/Rename.antt =====
-- `f_rename` of ff.c. The local `DIR` is an argument, since its members are not all set.
use zephyr_fatfs_aflplusplus.Base.{
  ℕ, ◌+◌, ◌-◌, Bool, true, not, none, some, List, ◌==◌, ◌&&◌, ◌||◌, if◌then◌else◌, ltb, leb, bit,
}
use zephyr_fatfs_aflplusplus.Diskio.{Bytes}
use zephyr_fatfs_aflplusplus.Volume.{
  Geometry, no_file, invalid_name, exist, int_err, Act, done, ◌>>=◌, ◌>>◌, throw, put_byte,
}
use zephyr_fatfs_aflplusplus.Window.{move_window, clst2sect}
use zephyr_fatfs_aflplusplus.Fat.{poke}
use zephyr_fatfs_aflplusplus.Sync.{sync_fs}
use zephyr_fatfs_aflplusplus.Dir.{Dir, Step, ok, halt, entry_size, ld_clust, st_clust}
use zephyr_fatfs_aflplusplus.Dir.Table.{dir_register, dir_remove}
use zephyr_fatfs_aflplusplus.Name.{follow_path}
use zephyr_fatfs_aflplusplus.Api.{System, Reply, with_volume, expect, get_ldnumber}
use zephyr_fatfs_aflplusplus.Api.Lookup.{is_noname}

-- The entry at `d`, copied from the saved one except for its name.
unfoldable pub moved_entry : Bytes → ℕ → Bytes → Bytes
unfolding put_byte
moved_entry p d buf =
    let copied : Bytes =
      λ i. if leb (d + 13) i && ltb i (d + entry_size) then buf (i - d) else p i in
    put_byte copied (d + 11) (if bit (buf 11) 4 || bit (buf 11) 5 then buf 11 else buf 11 + 0x20)

module _ (g : Geometry) where
  -- "Update .. entry in the sub-directory if needed"
  unfoldable pub relink_parent : Dir → Dir → Act (Unit {0})
  unfolding st_clust
  relink_parent djo djn v =
      let sect = clst2sect g (ld_clust g.fs_type v.win djn.dir) in
      if bit (v.win (djn.dir + 11)) 4 && not (djo.sclust == djn.sclust)
      then if sect == 0
        then throw int_err v
        else (move_window g sect >> λ w.
              if w.win (entry_size + 1) == 0x2E
              then done tt (poke (st_clust g.fs_type w.win entry_size djn.sclust) w)
              else done tt w)
            v
      else done tt v

  -- The new entry registered with what `buf` holds, the old one removed.
  unfoldable pub move_entry : Dir → Bytes → Dir → Act (Unit {0})
  unfolding moved_entry relink_parent
  move_entry djo buf djn = do
    r ← dir_register g djn
    expect r λ d v. relink_parent djo d (poke (moved_entry v.win d.dir buf) v)
    r2 ← dir_remove g djo
    expect r2 λ d. sync_fs g

  -- The new name is free, or that of the object itself.
  unfoldable pub rename_to : Dir → Bytes → Step → Act (Unit {0})
  unfolding move_entry
  rename_to djo buf (ok djn) =
      if (djn.sclust == djo.sclust) && (djn.dptr == djo.dptr)
      then move_entry djo buf djn
      else throw exist
  rename_to djo buf (halt e djn) = elim e as (λ e. Act (Unit {0})) [
    | no_file ↦ move_entry djo buf djn
    | other ↦ throw other
  ]

-- `get_ldnumber(&path_new)`, whose result is not looked at.
unfoldable pub without_drive : List ℕ → List ℕ
unfolding get_ldnumber
without_drive path = elim (get_ldnumber path) [ none ↦ path | some rest ↦ rest ]

module _ (signed_char : Bool) where
  unfoldable pub rename_object : Geometry → List ℕ → Dir → Act (Unit {0})
  unfolding rename_to
  rename_object g path_new djo v =
      let buf : Bytes = λ i. v.win (djo.dir + i) in
      if bit (djo.fn 11) 5 || is_noname djo
      then throw invalid_name v
      else (follow_path signed_char g djo path_new >>= rename_to g djo buf) v

  unfoldable pub f_rename : Dir → List ℕ → List ℕ → System → Reply (Unit {0})
  unfolding rename_object without_drive
  f_rename djo path_old path_new = with_volume true path_old λ g id p.
      follow_path signed_char g djo p >>= λ r. expect r (rename_object g (without_drive path_new))
