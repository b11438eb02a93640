-- ===== src/File.antt =====
-- Open files of ff.c: `validate`, `f_read`, `f_sync` and `f_close`. `f_write` and `f_lseek` are in
-- File/Write and File/Seek.
pub mod Fetch
pub mod Read
pub mod Write
pub mod Seek
pub mod Sought
pub mod Moved
pub mod Fields
pub mod Recorded
pub mod Closed
pub mod Truncate
pub mod Cut
pub mod Extend
pub mod Written
use Prim.Native.Nat.{bit_and}
use zephyr_fatfs_aflplusplus.Base.{
  ℕ, zero, suc, ◌+◌, ◌-◌, ◌*◌, ◌/◌, ◌%◌, ◌^◌, Bool, true, false, not, Option, none, some, ltb, leb,
  ◌==◌, ◌||◌, ◌&&◌, if◌then◌else◌, u16, u32, sub32, bit,
}
use zephyr_fatfs_aflplusplus.Diskio.{Bytes, memcpy, disk_read, disk_status, sector_size}
use zephyr_fatfs_aflplusplus.Volume.{
  Geometry, Fatfs, Fresult, disk_err, int_err, denied, invalid_object, Act, Out, done, fail,
  out_of_fuel, ◌>>=◌, return, on_fail, put_byte,
}
use zephyr_fatfs_aflplusplus.Window.{move_window, clst2sect, st_word, st_dword}
use zephyr_fatfs_aflplusplus.Fat.{get_fat, disk_error, poke}
use zephyr_fatfs_aflplusplus.Sync.{sync_fs}
use zephyr_fatfs_aflplusplus.Dir.{st_clust}

-- A file object: `fs` is `none` where the object is invalid, and the id of its mount otherwise;
-- `err` is the code that aborted it; `dir_ptr` is the offset of its entry in the window.
pub record File : Type 0 where
  pub fs : Option ℕ
  pub sclust : ℕ
  pub objsize : ℕ
  pub flag : ℕ
  pub err : Option Fresult
  pub fptr : ℕ
  pub clust : ℕ
  pub sect : ℕ
  pub dir_sect : ℕ
  pub dir_ptr : ℕ

-- What a round of a transfer does: it moves a number of bytes, or stops without an error, or aborts
-- the file. `moved` has the file before the counters advance, and the bytes of the buffer.
pub data Round : Type 0 where
  moved : File → Bytes → ℕ → Round
  stopped : File → Round
  aborted : Fresult → File → Round

-- The result of a transfer: the code, the file, the buffer and the number of bytes.
pub record Transfer : Type 0 where
  pub res : Option Fresult
  pub file : File
  pub buff : Bytes
  pub count : ℕ

-- `ABORT(fs, res)` sets the code in the file too.
abbrev pub abort : Fresult → File → File
abort e f = record f { err = some e }

-- `validate` on the volume with the mount id, where one is mounted: FR_OK or FR_INVALID_OBJECT.
unfoldable pub validate : Option ℕ → Bytes → Option ℕ → Bool
validate mounted disk fs = elim fs [
  | none ↦ false
  | some id ↦ elim mounted [
    | none ↦ false
    | some current ↦ (id == current) && not (bit (disk_status disk) 0)
  ]
]

module _ (g : Geometry) where
  -- The sector of its cluster that an offset of the file is in.
  abbrev pub sector_in_cluster : ℕ → ℕ
  sector_in_cluster ofs = bit_and (ofs / sector_size) (sub32 g.csize 1)

  -- `f_read` within a sector, through the window.
  unfoldable pub read_partial : File → ℕ → Act Round
  read_partial f btr v =
      let room = sector_size - f.fptr % sector_size in
      let rcnt = if ltb btr room then btr else room in
      on_fail (move_window g f.sect v)
        (λ _ w. done (moved f (λ i. w.win (f.fptr % sector_size + i)) rcnt) w)
        (λ _ w. done (aborted disk_err f) w)

  -- The direct read of `cc` sectors, with the window in place of the sector that it holds changed.
  unfoldable pub read_direct : File → ℕ → ℕ → Act Round
  unfolding memcpy
  read_direct f sect cc v = elim (disk_read v.disk sect cc) [
    | none ↦ done (aborted disk_err f) v
    | some b ↦
        let at = sub32 v.winsect sect in
        let chunk =
          if v.wflag && ltb at cc then memcpy b (at * sector_size) v.win sector_size else b in
        done (moved f chunk (sector_size * cc)) v
  ]

  -- On a sector boundary, once the cluster is known.
  unfoldable pub read_sector : File → ℕ → Act Round
  unfolding read_partial
  read_sector f btr =
      let csect = sector_in_cluster f.fptr in
      let top = clst2sect g f.clust in
      let sect = u32 (top + csect) in
      let cc = btr / sector_size in
      if top == 0
      then return (aborted int_err f)
      else if ltb 0 cc
      then read_direct f sect (if ltb g.csize (csect + cc) then g.csize - csect else cc)
      else read_partial (record f { sect = sect }) btr

  -- One round of `f_read` for `btr` bytes.
  unfoldable pub read_round : File → ℕ → Act Round
  read_round f btr =
      if not (f.fptr % sector_size == 0)
      then read_partial f btr
      else if not (sector_in_cluster f.fptr == 0)
      then read_sector f btr
      else (do
        clst ← if f.fptr == 0 then return f.sclust else get_fat g f.clust
        if ltb clst 2
            then return (aborted int_err f)
            else if clst == disk_error
            then return (aborted disk_err f)
            else read_sector (record f { clust = clst }) btr)

  -- The loop: `at` bytes have been read, and `btr` are to come.
  unfoldable pub read_bytes : ℕ → File → Bytes → ℕ → ℕ → Act Transfer
  unfolding memcpy
  read_bytes zero f buff at btr v =
      if btr == 0
      then done (record { res = none; file = f; buff = buff; count = at }) v
      else out_of_fuel
  read_bytes (suc fuel) f buff at btr v =
      let rest = λ (r : Round). elim r as (λ r. Act Transfer) [
        | moved f' chunk rcnt ↦
            read_bytes fuel (record f' { fptr = f'.fptr + rcnt }) (memcpy buff at chunk rcnt)
              (at + rcnt) (btr - rcnt)
        | stopped f' ↦ return (record { res = none; file = f'; buff = buff; count = at })
        | aborted e f' ↦
            return (record { res = some e; file = abort e f'; buff = buff; count = at })
      ] in
      if btr == 0
      then done (record { res = none; file = f; buff = buff; count = at }) v
      else (read_round f btr >>= rest) v

  -- `f_read` of `btr` bytes into `buff`, on a volume with mount id `mounted`.
  unfoldable pub f_read : Option ℕ → File → Bytes → ℕ → Act Transfer
  unfolding validate
  f_read mounted f buff btr v =
      let refuse : Fresult → Out Transfer =
        λ e. done (record { res = some e; file = f; buff = buff; count = 0 }) v in
      let remain = sub32 f.objsize f.fptr in
      let n = if ltb remain btr then remain else btr in
      if not (validate mounted v.disk f.fs) then refuse invalid_object else elim f.err [
        | some e ↦ refuse e
        | none ↦ if not (bit f.flag 0) then refuse denied else read_bytes n f buff 0 n v
      ]

  -- The entry of the file in the window, brought up to date. The time is fixed in this
  -- configuration, 1 November 2024.
  abbrev pub fat_time : ℕ
  fat_time = (2024 - 1980) * 2 ^ 25 + 11 * 2 ^ 21 + 1 * 2 ^ 16

  unfoldable pub file_entry : File → Bytes → Bytes
  file_entry f p =
      let d = f.dir_ptr in
      let attr = p (d + 11) in
      let p1 = put_byte p (d + 11) (if bit attr 5 then attr else attr + 0x20) in
      let p2 = st_clust g.fs_type p1 d f.sclust in
      let p3 = st_dword p2 (d + 28) f.objsize in st_word (st_dword p3 (d + 22) fat_time) (d + 18) 0

  -- `flag &= ~FA_MODIFIED`
  abbrev pub saved : File → File
  saved f = record f { flag = if bit f.flag 6 then f.flag - 0x40 else f.flag }

  -- The code and the file.
  unfoldable pub f_sync : Option ℕ → File → Act (Option Fresult × File)
  unfolding validate
  f_sync mounted f v =
      if not (validate mounted v.disk f.fs)
      then done (some invalid_object, f) v
      else if not (bit f.flag 6)
      then done (none, f) v
      else on_fail (move_window g f.dir_sect v)
          (λ _ w.
            on_fail (sync_fs g (poke (file_entry f w.win) w)) (λ _ u. done (none, saved f) u)
              (λ e u. done (some e, saved f) u))
          (λ e w. done (some e, f) w)

  unfoldable pub f_close : Option ℕ → File → Act (Option Fresult × File)
  unfolding validate
  f_close mounted f = do
    r ← f_sync mounted f
    (λ v. elim r.0 [
      | some e ↦ done (some e, r.1) v
      | none ↦
          if validate mounted v.disk r.1.fs
          then done (none, record (r.1) { fs = none }) v
          else done (some invalid_object, r.1) v
    ])
