-- ===== src/File/Write.antt =====
-- `f_write` of ff.c.
use zephyr_fatfs_aflplusplus.Base.{
  ℕ, zero, suc, ◌+◌, ◌-◌, ◌*◌, ◌/◌, ◌%◌, ◌^◌, false, not, Option, none, some, ltb, leb, ◌==◌,
  if◌then◌else◌, u32, sub32, bit,
}
use zephyr_fatfs_aflplusplus.Diskio.{Bytes, memcpy, disk_write, sector_size}
use zephyr_fatfs_aflplusplus.Volume.{
  Geometry, Fresult, disk_err, int_err, denied, invalid_object, Act, Out, done, out_of_fuel, ◌>>=◌,
  return, on_fail,
}
use zephyr_fatfs_aflplusplus.Window.{move_window, sync_window, clst2sect}
use zephyr_fatfs_aflplusplus.Fat.{disk_error, poke}
use zephyr_fatfs_aflplusplus.Chain.{create_chain}
use zephyr_fatfs_aflplusplus.File.{
  File, Round, moved, stopped, aborted, Transfer, abort, validate, sector_in_cluster,
}

-- `flag |= FA_MODIFIED`
abbrev pub modified : File → File
modified f = record f { flag = if bit f.flag 6 then f.flag else f.flag + 0x40 }

-- The counters of the file after `n` bytes.
abbrev pub grown : File → ℕ → File
grown f n =
    let at = f.fptr + n in
    record f { fptr = at; objsize = if ltb f.objsize at then at else f.objsize }

module _ (g : Geometry) where
  -- `src` holds the bytes still to be written.
  unfoldable pub write_partial : File → Bytes → ℕ → Act Round
  unfolding memcpy
  write_partial f src btw v =
      let room = sector_size - f.fptr % sector_size in
      let n = if ltb btw room then btw else room in
      on_fail (move_window g f.sect v)
        (λ _ w. done (moved f src n) (poke (memcpy w.win (f.fptr % sector_size) src n) w))
        (λ _ w. done (aborted disk_err f) w)

  -- The direct write of `cc` sectors; the window follows where it holds one of them.
  unfoldable pub write_direct : File → ℕ → ℕ → Bytes → Act Round
  unfolding memcpy
  write_direct f sect cc src v = elim (disk_write v.disk src sect cc) [
    | none ↦ done (aborted disk_err f) v
    | some d ↦
        let at = sub32 v.winsect sect in
        let inside = ltb at cc in
        let win = memcpy v.win 0 (λ i. src (at * sector_size + i)) sector_size in
        done (moved f src (sector_size * cc)) (record v {
          disk = d;
          win = if inside then win else v.win;
          wflag = if inside then false else v.wflag;
        })
  ]

  -- "Avoid silly cache filling on the growing edge"
  unfoldable pub write_edge : File → ℕ → Bytes → ℕ → Act Round
  unfolding write_partial
  write_edge f sect src btw v =
      let f' = record f { sect = sect } in
      if leb f.objsize f.fptr
      then on_fail (sync_window g v) (λ _ w. write_partial f' src btw (record w { winsect = sect }))
          (λ _ w. done (aborted disk_err f) w)
      else write_partial f' src btw v

  -- On a sector boundary, once the cluster is known.
  unfoldable pub write_sector : File → Bytes → ℕ → Act Round
  unfolding write_direct write_edge
  write_sector f src btw v =
      let csect = sector_in_cluster g f.fptr in
      let top = clst2sect g f.clust in
      let sect = u32 (top + csect) in
      let cc = btw / sector_size in
      let onward : Act Round =
        if top == 0
        then return (aborted int_err f)
        else if ltb 0 cc
        then write_direct f sect (if ltb g.csize (csect + cc) then g.csize - csect else cc) src
        else write_edge f sect src btw in
      if v.winsect == f.sect
      then on_fail (sync_window g v) (λ _ w. onward w) (λ _ w. done (aborted disk_err f) w)
      else onward v

  -- The cluster to write to: the first of the file, or the next one, made where there is none.
  unfoldable pub write_cluster : File → Act ℕ
  write_cluster f =
      if f.fptr == 0
      then if f.sclust == 0 then create_chain g 0 else return f.sclust
      else create_chain g f.clust

  unfoldable pub write_round : File → Bytes → ℕ → Act Round
  unfolding write_cluster
  write_round f src btw =
      if not (f.fptr % sector_size == 0)
      then write_partial f src btw
      else if not (sector_in_cluster g f.fptr == 0)
      then write_sector f src btw
      else (do
        clst ← write_cluster f
        if clst == 0
            then return (stopped f)
            else if clst == 1
            then return (aborted int_err f)
            else if clst == disk_error
            then return (aborted disk_err f)
            else write_sector
                (record f { clust = clst; sclust = if f.sclust == 0 then clst else f.sclust }) src
                btw)

  -- The loop: `at` bytes of `buff` have been written, and `btw` are to come.
  unfoldable pub write_bytes : ℕ → File → Bytes → ℕ → ℕ → Act Transfer
  write_bytes zero f buff at btw v =
      if btw == 0
      then done (record { res = none; file = modified f; buff = buff; count = at }) v
      else out_of_fuel
  write_bytes (suc fuel) f buff at btw v =
      let rest = λ (r : Round). elim r as (λ r. Act Transfer) [
        | moved f' src n ↦ write_bytes fuel (grown f' n) buff (at + n) (btw - n)
        | stopped f' ↦ return (record { res = none; file = modified f'; buff = buff; count = at })
        | aborted e f' ↦
            return (record { res = some e; file = abort e f'; buff = buff; count = at })
      ] in
      if btw == 0
      then done (record { res = none; file = modified f; buff = buff; count = at }) v
      else (write_round f (λ i. buff (at + i)) btw >>= rest) v

  -- "File size cannot reach 4 GiB at FAT volume"
  abbrev pub clip : ℕ → ℕ → ℕ
  clip fptr btw = if ltb (u32 (fptr + btw)) fptr then 2 ^ 32 - 1 - fptr else btw

  unfoldable pub f_write : Option ℕ → File → Bytes → ℕ → Act Transfer
  unfolding validate
  f_write mounted f buff btw v =
      let refuse : Fresult → Out Transfer =
        λ e. done (record { res = some e; file = f; buff = buff; count = 0 }) v in
      let n = clip f.fptr btw in
      if not (validate mounted v.disk f.fs) then refuse invalid_object else elim f.err [
        | some e ↦ refuse e
        | none ↦ if not (bit f.flag 1) then refuse denied else write_bytes n f buff 0 n v
      ]
