-- ===== src/File/Seek.antt =====
-- `f_lseek` of ff.c, the normal seek.
use Prim.Native.Nat.{bit_and}
use zephyr_fatfs_aflplusplus.Base.{
  ℕ, zero, suc, ◌+◌, ◌-◌, ◌*◌, ◌/◌, ◌%◌, not, Option, none, some, ltb, leb, ◌==◌, ◌||◌, ◌&&◌,
  if◌then◌else◌, u32, bit,
}
use zephyr_fatfs_aflplusplus.Diskio.{sector_size}
use zephyr_fatfs_aflplusplus.Volume.{
  Geometry, Fresult, disk_err, int_err, invalid_object, Act, done, out_of_fuel, ◌>>=◌, return,
}
use zephyr_fatfs_aflplusplus.Window.{clst2sect}
use zephyr_fatfs_aflplusplus.Fat.{get_fat, disk_error}
use zephyr_fatfs_aflplusplus.Chain.{create_chain}
use zephyr_fatfs_aflplusplus.File.{File, abort, validate}
use zephyr_fatfs_aflplusplus.File.Write.{modified}

-- A seek that has found its sector, 0 where none is needed, or that has been aborted.
pub data Sought : Type 0 where
  sought : File → ℕ → Sought
  lost : Fresult → File → Sought

module _ (g : Geometry) where
  abbrev pub cluster_bytes : ℕ
  cluster_bytes = u32 (g.csize * sector_size)

  -- After the loop, `ofs` bytes into cluster `clst`.
  unfoldable pub arrive : File → ℕ → ℕ → Sought
  arrive f clst ofs =
      let f' = record f { fptr = f.fptr + ofs } in
      if ofs % sector_size == 0
      then sought f' 0
      else if clst2sect g clst == 0
      then lost int_err f'
      else sought f' (u32 (clst2sect g clst + ofs / sector_size))

  -- The following cluster, which is made in write mode.
  abbrev pub follow_cluster : File → ℕ → Act ℕ
  follow_cluster f clst = if bit f.flag 1 then create_chain g clst else get_fat g clst

  unfoldable pub seek_loop : ℕ → File → ℕ → ℕ → Act Sought
  unfolding arrive
  seek_loop zero f clst ofs = λ _. out_of_fuel
  seek_loop (suc fuel) f clst ofs =
      let f' = record f { fptr = f.fptr + cluster_bytes } in
      if leb ofs cluster_bytes then return (arrive f clst ofs) else do
        nxt ← follow_cluster f clst
        let rest = seek_loop fuel (record f' { clust = nxt }) nxt (ofs - cluster_bytes) in
            if bit f.flag 1 && nxt == 0
            then return (arrive f' 0 0)
            else if nxt == disk_error
            then return (lost disk_err f')
            else if leb nxt 1 || leb g.n_fatent nxt
            then return (lost int_err f')
            else rest

  -- From the first cluster of the file, which is made if there is none.
  unfoldable pub seek_from_top : File → ℕ → Act Sought
  seek_from_top f ofs =
      let run = λ (f : File) (clst : ℕ).
        if clst == 0 then return (sought f 0) else seek_loop (suc ofs) f clst ofs in
      if f.sclust == 0
      then (do
        clst ← create_chain g 0
        if clst == 1
            then return (lost int_err f)
            else if clst == disk_error
            then return (lost disk_err f)
            else run (record f { sclust = clst; clust = clst }) clst)
      else run (record f { clust = f.sclust }) f.sclust

  -- `(ifptr - 1) & ~(bcs - 1)`
  abbrev pub cluster_start : ℕ → ℕ
  cluster_start ifptr = (ifptr - 1) - bit_and (ifptr - 1) (cluster_bytes - 1)

  -- The search for the cluster: from the current one where the target is not before it.
  unfoldable pub seek : File → ℕ → Act Sought
  unfolding seek_from_top
  seek f ofs =
      let ifptr = f.fptr in
      let start = cluster_start ifptr in
      if ofs == 0
      then return (sought (record f { fptr = 0 }) 0)
      else if ltb 0 ifptr && leb ((ifptr - 1) / cluster_bytes) ((ofs - 1) / cluster_bytes)
      then (if f.clust == 0
          then return (sought (record f { fptr = start }) 0)
          else seek_loop (suc ofs) (record f { fptr = start }) f.clust (ofs - start))
      else seek_from_top (record f { fptr = 0 }) ofs

  -- The file behind a seek: its size grows with the pointer, and the sector is noted.
  unfoldable pub settle_seek : Sought → Option Fresult × File
  settle_seek (lost e f) = (some e, abort e f)
  settle_seek (sought f nsect) =
      let longer = ltb f.objsize f.fptr in
      let f1 = if longer then modified (record f { objsize = f.fptr }) else f in
      (
        none,
        if not (f.fptr % sector_size == 0) && not (nsect == f.sect)
            then record f1 { sect = nsect }
            else f1,
      )

  unfoldable pub f_lseek : Option ℕ → File → ℕ → Act (Option Fresult × File)
  unfolding validate settle_seek
  f_lseek mounted f ofs v =
      let target = if ltb f.objsize ofs && not (bit f.flag 1) then f.objsize else ofs in
      if not (validate mounted v.disk f.fs) then done (some invalid_object, f) v else elim f.err [
        | some e ↦ done (some e, f) v
        | none ↦ (seek f target >>= λ s. return (settle_seek s)) v
      ]
