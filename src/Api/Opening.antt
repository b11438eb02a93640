-- ===== src/Api/Opening.antt =====
-- `f_open` of ff.c. The local `DIR` and the file object of the caller are arguments, since their
-- members are not all set.
pub mod Kept
pub mod Made
pub mod Within
use zephyr_fatfs_aflplusplus.Base.{
  ℕ, zero, suc, ◌+◌, ◌-◌, ◌*◌, ◌/◌, ◌%◌, ◌^◌, Bool, true, false, not, Option, none, some, List, ltb,
  leb, ◌==◌, ◌||◌, ◌&&◌, if◌then◌else◌, u32, low_bits, bit,
}
use zephyr_fatfs_aflplusplus.Diskio.{Bytes, sector_size}
use zephyr_fatfs_aflplusplus.Volume.{
  Geometry, Fatfs, Fresult, no_file, invalid_name, denied, exist, int_err, disk_err, Act, done,
  fail, out_of_fuel, ◌>>=◌, ◌>>◌, return, throw, on_fail, put_byte,
}
use zephyr_fatfs_aflplusplus.Window.{move_window, clst2sect, ld_dword, st_dword}
use zephyr_fatfs_aflplusplus.Fat.{get_fat, disk_error, poke}
use zephyr_fatfs_aflplusplus.Chain.{remove_chain}
use zephyr_fatfs_aflplusplus.Dir.{Dir, Step, ok, halt, ld_clust, st_clust}
use zephyr_fatfs_aflplusplus.Dir.Table.{dir_register}
use zephyr_fatfs_aflplusplus.Name.{follow_path}
use zephyr_fatfs_aflplusplus.File.{File, fat_time}
use zephyr_fatfs_aflplusplus.Api.{System, Reply, with_volume, expect}
use zephyr_fatfs_aflplusplus.Api.Lookup.{is_noname, is_directory}

-- `mode |= FA_...`, the flag that is bit `k`
abbrev pub with_flag : ℕ → ℕ → ℕ
with_flag k mode = if bit mode k then mode else mode + 2 ^ k

-- `mode & (FA_CREATE_ALWAYS | FA_OPEN_ALWAYS | FA_CREATE_NEW)`
abbrev pub may_create : ℕ → Bool
may_create mode = bit mode 3 || (bit mode 4 || bit mode 2)

-- The flags of the mode that count.
abbrev pub open_mode : ℕ → ℕ
open_mode mode = low_bits mode 6

-- The result of `follow_path`, which is an error if it is the origin directory.
unfoldable pub named_object : Step → Step
named_object (halt e dp) = halt e dp
named_object (ok dp) = if is_noname dp then halt invalid_name dp else ok dp

-- The entry of a file that is emptied: its times, its attribute and its size, and no cluster.
unfoldable pub emptied_entry : Geometry → Bytes → ℕ → Bytes
unfolding st_clust st_dword put_byte
emptied_entry g p d =
    let p1 = st_dword (st_dword p (d + 14) (fat_time g)) (d + 22) (fat_time g) in
    st_dword (st_clust g.fs_type (put_byte p1 (d + 11) 0x20) d 0) (d + 28) 0

module _ (g : Geometry) where
  -- The chain of the file is freed; the next allocation begins there.
  unfoldable pub drop_chain : ℕ → Act (Unit {0})
  drop_chain cl v =
      (remove_chain g cl 0 >> λ w.
      on_fail (move_window g v.winsect w) (λ _ u. done tt (record u { last_clst = cl - 1 }))
        (λ e u. fail e (record u { last_clst = cl - 1 })))
        v

  -- "Truncate the file if overwrite mode"
  unfoldable pub overwrite : Dir → Act (Unit {0})
  unfolding emptied_entry drop_chain
  overwrite dp v =
      let cl = ld_clust g.fs_type v.win dp.dir in
      let w = poke (emptied_entry g v.win dp.dir) v in
      if cl == 0 then done tt w else drop_chain cl w

  -- The object for a mode that may create it, with the mode.
  unfoldable pub create : ℕ → Step → Act (Dir × ℕ)
  create mode (ok dp) =
      if bit dp.attr 0 || bit dp.attr 4
      then throw denied
      else if bit mode 2
      then throw exist
      else return (dp, mode)
  create mode (halt e dp) = do
    r ← elim e as (λ e. Act Step) [ no_file ↦ dir_register g dp | other ↦ return (halt other dp) ]
    expect r λ dp'. return (dp', with_flag 3 mode)

  unfoldable pub create_or_overwrite : ℕ → Step → Act (Dir × ℕ)
  unfolding create overwrite
  create_or_overwrite mode r = do
    made ← create mode r
    if bit made.1 3 then (overwrite made.0 >> return made) else return made

  unfoldable pub open_existing : ℕ → Step → Act (Dir × ℕ)
  open_existing mode (halt e dp) = throw e
  open_existing mode (ok dp) =
      if is_directory dp
      then throw no_file
      else if bit mode 1 && bit dp.attr 0
      then throw denied
      else return (dp, mode)

  -- The file object for the entry in the window.
  unfoldable pub file_of : File → ℕ → Dir → ℕ → Fatfs → File
  file_of fp id dp mode v = record fp {
    fs = some id;
    sclust = ld_clust g.fs_type v.win dp.dir;
    objsize = ld_dword v.win (dp.dir + 28);
    flag = if bit mode 3 then with_flag 6 mode else mode;
    err = none;
    fptr = 0;
    sect = 0;
    dir_sect = v.winsect;
    dir_ptr = dp.dir;
  }

  -- The cluster of the last byte and the offset in it.
  unfoldable pub seek_end : ℕ → ℕ → ℕ → Act (ℕ × ℕ)
  seek_end zero clst ofs = λ _. out_of_fuel
  seek_end (suc fuel) clst ofs =
      let bcs = u32 (g.csize * sector_size) in
      if leb ofs bcs then return (clst, ofs) else do
        nxt ← get_fat g clst
        let rest = seek_end fuel nxt (ofs - bcs) in
            if nxt == disk_error then throw disk_err else if leb nxt 1 then throw int_err else rest

  -- "Seek to end of file if FA_OPEN_APPEND is specified"
  unfoldable pub append : File → Act File
  unfolding seek_end
  append f = do
    last ← seek_end (suc f.objsize) f.sclust f.objsize
    let f' = record f { fptr = f.objsize; clust = last.0 } in
        let sc = clst2sect g last.0 in
        if last.1 % sector_size == 0
        then return f'
        else if sc == 0
        then throw int_err
        else return (record f' { sect = u32 (sc + last.1 / sector_size) })

  -- The file object set up, and at its end in a mode that appends.
  unfoldable pub set_up : File → ℕ → Dir × ℕ → Act File
  set_up fp id found v =
      let f = file_of fp id found.0 found.1 v in
      if bit found.1 5 && ltb 0 f.objsize then append f v else done f v

  -- What follows the walk down the path.
  unfoldable pub open_object : File → ℕ → ℕ → Step → Act File
  unfolding set_up
  open_object fp id mode r = do
    found ← if may_create mode then create_or_overwrite mode r else open_existing mode r
    set_up fp id found

module _ (signed_char : Bool) where
  unfoldable pub f_open : File → Dir → List ℕ → ℕ → System → Reply File
  unfolding open_object named_object
  f_open fp dj path mode = with_volume (not (open_mode mode / 2 == 0)) path λ g id p.
      follow_path signed_char g dj p >>= λ r. open_object g fp id (open_mode mode) (named_object r)
