-- ===== src/Dir.antt =====
-- Directory objects of ff.c: `dir_clear`, `dir_sdi` and `dir_next`, which move in a table, and the
-- start cluster of an entry. What searches and changes the tables is in Dir/Table.
pub mod Table
pub mod Allocate
pub mod Clear
pub mod Cluster
pub mod Extended
pub mod Find
pub mod Grow
pub mod Move
pub mod Reading
pub mod Register
pub mod Start
use Prim.Native.Nat.{bit_and}
use zephyr_fatfs_aflplusplus.Base.{
  ℕ, zero, suc, ◌+◌, ◌-◌, ◌*◌, ◌/◌, ◌%◌, ◌^◌, Bool, true, false, not, Option, none, some, ltb, leb,
  ◌==◌, ◌||◌, ◌&&◌, if◌then◌else◌, u16, u32, sub32, low_bits, join, bit,
}
use zephyr_fatfs_aflplusplus.Diskio.{Bytes, disk_write, sector_size}
use zephyr_fatfs_aflplusplus.Volume.{
  Geometry, Fatfs, FsType, fat12, fat16, fat32, Fresult, disk_err, int_err, no_file, denied, Act,
  Out, done, fail, out_of_fuel, ◌>>=◌, ◌>>◌, return, throw, on_fail,
}
use zephyr_fatfs_aflplusplus.Window.{
  move_window, sync_window, clst2sect, ld_word, ld_dword, st_word,
}
use zephyr_fatfs_aflplusplus.Fat.{get_fat, disk_error, poke}
use zephyr_fatfs_aflplusplus.Chain.{create_chain}

-- A directory object, with the members of its FFOBJID that the functions use. `dir` is the offset of
-- the entry in the window, and `fn` the name looked for, whose byte 11 holds flags.
pub record Dir : Type 0 where
  pub sclust : ℕ
  pub attr : ℕ
  pub dptr : ℕ
  pub clust : ℕ
  pub sect : ℕ
  pub dir : ℕ
  pub fn : Bytes

-- A step on a directory: FR_OK, or an error with the object as the call leaves it.
pub data Step : Type 0 where
  ok : Dir → Step
  halt : Fresult → Dir → Step

abbrev pub max_dir : ℕ
max_dir = 0x200000

abbrev pub entry_size : ℕ
entry_size = 32

-- `res = f(dp); if (res == FR_OK) { ... }`
abbrev pub if_ok : Step → (Dir → Act Step) → Act Step
if_ok (ok dp) k = k dp
if_ok (halt e dp) k = return (halt e dp)

unfoldable pub ld_clust : FsType → Bytes → ℕ → ℕ
ld_clust t p dir = elim t [
  | fat32 ↦ join 16 (ld_word p (dir + 20)) (ld_word p (dir + 26))
  | _ ↦ ld_word p (dir + 26)
]

unfoldable pub st_clust : FsType → Bytes → ℕ → ℕ → Bytes
st_clust t p dir cl =
    let low = st_word p (dir + 26) (u16 cl) in
    elim t [ fat32 ↦ st_word low (dir + 20) (u16 (cl / 2 ^ 16)) | _ ↦ low ]

-- The writes of `dir_clear`, of the zeroed window to `n` sectors; `false` if one fails.
unfoldable pub clear_sectors : ℕ → ℕ → Act Bool
clear_sectors zero sect v = done true v
clear_sectors (suc n) sect v = elim (disk_write v.disk v.win sect 1) [
  | none ↦ done false v
  | some d ↦ clear_sectors n (u32 (sect + 1)) (record v { disk = d })
]

module _ (g : Geometry) where
  unfoldable pub dir_clear : ℕ → Act (Unit {0})
  dir_clear clst = do
    sync_window g
    all ← (λ v.
        clear_sectors g.csize (clst2sect g clst)
          (record v { winsect = clst2sect g clst; win = λ i. 0 }))
    if all then return tt else throw disk_err

  -- The cluster `ofs` bytes down the chain, and the rest of the offset in it.
  unfoldable pub follow : ℕ → Dir → ℕ → ℕ → (ℕ → ℕ → Act Step) → Act Step
  follow zero dp clst ofs k = λ _. out_of_fuel
  follow (suc fuel) dp clst ofs k =
      let csz = u32 (g.csize * sector_size) in
      if ltb ofs csz then k clst ofs else do
        nxt ← get_fat g clst
        if nxt == disk_error
            then return (halt disk_err dp)
            else if ltb nxt 2 || leb g.n_fatent nxt
            then return (halt int_err dp)
            else follow fuel dp nxt (ofs - csz) k

  -- The end of `dir_sdi`, at `ofs` bytes from the start of `sect`.
  unfoldable pub set_position : Dir → ℕ → ℕ → ℕ → Act Step
  set_position dp clst sect ofs =
      if sect == 0
      then return (halt int_err (record dp { clust = clst; sect = sect }))
      else return (
          ok (record dp {
            clust = clst;
            sect = u32 (sect + ofs / sector_size);
            dir = ofs % sector_size;
          }))

  abbrev pub start_cluster : Dir → ℕ
  start_cluster dp =
      if dp.sclust == 0 then elim g.fs_type [ fat32 ↦ g.dirbase | _ ↦ 0 ] else dp.sclust

  unfoldable pub dir_sdi : Dir → ℕ → Act Step
  unfolding set_position follow
  dir_sdi dp ofs =
      let dp1 = record dp { dptr = ofs } in
      if leb max_dir ofs || not (ofs % entry_size == 0)
      then return (halt int_err dp)
      else if start_cluster dp == 0
      then if leb g.n_rootdir (ofs / entry_size)
        then return (halt int_err dp1)
        else set_position dp1 0 g.dirbase ofs
      else follow (suc ofs) dp1 (start_cluster dp) ofs
          (λ clst rest. set_position dp1 clst (clst2sect g clst) rest)

  -- The last statements of `dir_next`.
  abbrev pub advance : Dir → Step
  advance dp =
      let ofs = u32 (dp.dptr + entry_size) in ok (record dp { dptr = ofs; dir = ofs % sector_size })

  abbrev pub enter : Dir → ℕ → Step
  enter dp clst = advance (record dp { clust = clst; sect = clst2sect g clst })

  -- The table grows by a cleared cluster.
  unfoldable pub stretch_table : Dir → Act Step
  stretch_table dp = do
    clst ← create_chain g dp.clust
    if clst == 0
        then return (halt denied dp)
        else if clst == 1
        then return (halt int_err dp)
        else if clst == disk_error
        then return (halt disk_err dp)
        else λ v.
            on_fail (dir_clear clst v) (λ _ w. done (enter dp clst) w)
              (λ _ w. done (halt disk_err dp) w)

  -- The next cluster of the table.
  unfoldable pub next_cluster : Dir → Bool → Act Step
  next_cluster dp stretch = do
    clst ← get_fat g dp.clust
    if leb clst 1
        then return (halt int_err dp)
        else if clst == disk_error
        then return (halt disk_err dp)
        else if leb g.n_fatent clst
        then if stretch then stretch_table dp else return (halt no_file (record dp { sect = 0 }))
        else return (enter dp clst)

  unfoldable pub dir_next : Dir → Bool → Act Step
  dir_next dp stretch =
      let ofs = u32 (dp.dptr + entry_size) in
      let dp1 = record dp { sect = u32 (dp.sect + 1) } in
      if leb max_dir ofs || dp.sect == 0
      then return (halt no_file (record dp { sect = 0 }))
      else if not (ofs % sector_size == 0)
      then return (advance dp)
      else if dp.clust == 0
      then if leb g.n_rootdir (ofs / entry_size)
        then return (halt no_file (record dp { sect = 0 }))
        else return (advance dp1)
      else if bit_and (ofs / sector_size) (sub32 g.csize 1) == 0
      then next_cluster dp1 stretch
      else return (advance dp1)
