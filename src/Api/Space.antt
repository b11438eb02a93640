-- ===== src/Api/Space.antt =====
-- `f_getfree` of ff.c: the number of free clusters, from the counter or by a scan of the FAT.
pub mod Entries
pub mod Counted
use zephyr_fatfs_aflplusplus.Base.{
  ℕ, zero, suc, ◌+◌, ◌-◌, ◌%◌, ◌^◌, Bool, false, Option, none, some, List, ltb, leb, ◌==◌,
  if◌then◌else◌, u32, sub32, low_bits,
}
use zephyr_fatfs_aflplusplus.Diskio.{sector_size}
use zephyr_fatfs_aflplusplus.Volume.{
  Geometry, Fatfs, FsType, fat12, fat16, fat32, Fresult, int_err, disk_err, Act, done, out_of_fuel,
  ◌>>=◌, ◌>>◌, return, throw,
}
use zephyr_fatfs_aflplusplus.Window.{move_window, ld_word, ld_dword}
use zephyr_fatfs_aflplusplus.Fat.{get_fat, disk_error}
use zephyr_fatfs_aflplusplus.Chain.{mark_dirty}
use zephyr_fatfs_aflplusplus.Api.{System, Reply, with_volume}

module _ (g : Geometry) where
  -- "FAT12: Scan bit field FAT entries", from cluster `clst` with `nfree` free ones before it.
  unfoldable pub scan_fat12 : ℕ → ℕ → ℕ → Act ℕ
  scan_fat12 zero clst nfree = λ _. out_of_fuel
  scan_fat12 (suc fuel) clst nfree = do
    stat ← get_fat g clst
    let n = if stat == 0 then nfree + 1 else nfree in
        let rest = scan_fat12 fuel (clst + 1) n in
        if stat == disk_error
        then throw disk_err
        else if stat == 1
        then throw int_err
        else if ltb (clst + 1) g.n_fatent
        then rest
        else return n

  -- The size of an entry, and whether the entry in the window is 0.
  abbrev pub entry_bytes : ℕ
  entry_bytes = elim g.fs_type [ fat16 ↦ 2 | _ ↦ 4 ]

  abbrev pub is_free_at : Fatfs → ℕ → Bool
  is_free_at v i = elim g.fs_type [
    | fat16 ↦ ld_word v.win i == 0
    | _ ↦ low_bits (ld_dword v.win i) 28 == 0
  ]

  -- "FAT16/32: Scan WORD/DWORD FAT entries": `clst` entries are left, the next at byte `i`, and
  -- `sect` is the sector after the one in the window. `clst` is also the fuel.
  unfoldable pub scan_fat : ℕ → ℕ → ℕ → ℕ → Act ℕ
  unfolding ld_word ld_dword
  scan_fat zero sect i nfree = return nfree
  scan_fat (suc clst) sect i nfree = do
    if i == 0 then move_window g sect else return tt
    (λ w.
        scan_fat clst (if i == 0 then u32 (sect + 1) else sect) ((i + entry_bytes) % sector_size)
          (if is_free_at w i then nfree + 1 else nfree) w)

  unfoldable pub count_free : Act ℕ
  count_free = elim g.fs_type as (λ t. Act ℕ) [
    | fat12 ↦ scan_fat12 (suc g.n_fatent) 2 0
    | _ ↦ scan_fat g.n_fatent g.fatbase 0 0
  ]

  unfoldable pub getfree_body : Act ℕ
  unfolding count_free
  getfree_body v =
      if leb v.free_clst (sub32 g.n_fatent 2)
      then done v.free_clst v
      else (count_free >>= λ nfree w.
            done nfree (record w { free_clst = nfree; fsi_flag = mark_dirty w.fsi_flag }))
          v

unfoldable pub f_getfree : List ℕ → System → Reply ℕ
unfolding getfree_body
f_getfree path = with_volume false path λ g id p. getfree_body g
