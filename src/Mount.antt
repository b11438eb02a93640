-- ===== src/Mount.antt =====
-- Finding and mounting a volume in ff.c: `check_fs`, `find_volume` and `mount_volume`.
pub mod Found
pub mod Layout
pub mod Locate
pub mod Outcome
pub mod Probe
pub mod Wrap
use Prim.Native.Nat.{bit_and}
use zephyr_fatfs_aflplusplus.Base.{
  ℕ, ◌+◌, ◌-◌, ◌*◌, ◌/◌, ◌%◌, ◌^◌, Bool, true, false, not, Option, none, some, List, [], ◌∷◌, ltb,
  leb, ◌==◌, ◌||◌, ◌&&◌, if◌then◌else◌, u16, u32, sub32, bit,
}
use zephyr_fatfs_aflplusplus.Diskio.{Bytes, sector_size, disk_status, disk_initialize}
use zephyr_fatfs_aflplusplus.Volume.{
  Geometry, Fatfs, Fresult, int_err, FsType, fat12, fat16, fat32, Act, Out, done, fail, out_of_fuel,
  disk_err, not_ready, write_protected, no_filesystem, ◌>>=◌, ◌>>◌, return, throw, on_fail,
}
use zephyr_fatfs_aflplusplus.Window.{move_window, ld_word, ld_dword, no_sector}
use zephyr_fatfs_aflplusplus.Boot.{
  matches, at_most_one_bit, fat32_name, is_proper_bpb, boot_kind, fat_type, wide_field, load_bpb,
  fat_area, system_area, clusters, fat_bytes, layout, fits_type, read_bpb, Bpb,
}

module _ (g : Geometry) where
  -- 4 is a disk error.
  unfoldable pub check_fs : ℕ → Act ℕ
  check_fs sect v =
      on_fail (move_window g sect (record v { wflag = false; winsect = no_sector }))
        (λ _ w. done (boot_kind w.win) w) (λ _ w. done 4 w)

  -- The partitions in turn, until one holds a FAT volume.
  unfoldable pub scan_partitions : List ℕ → ℕ → Act ℕ
  scan_partitions [] fmt = return fmt
  scan_partitions (p ∷ ps) fmt = do
    fmt' ← if p == 0 then return 3 else check_fs p
    let rest = scan_partitions ps fmt' in if leb 2 fmt' then rest else return fmt'

  -- `find_volume(fs, 0)`: no partition is forced, as `LD2PT` is 0 in this configuration.
  unfoldable pub find_volume : Act ℕ
  find_volume = do
    fmt ← check_fs 0
    if fmt == 2
        then (λ v.
            let start = λ (i : ℕ). ld_dword v.win (446 + i * 16 + 8) in
            scan_partitions (start 0 ∷ start 1 ∷ start 2 ∷ start 3 ∷ []) fmt v)
        else return fmt

abbrev pub unknown : ℕ
unknown = 2 ^ 32 - 1

-- The allocation counters of a volume just found, from the FSINFO sector where it is enabled.
unfoldable pub read_fsinfo : Fatfs → Fatfs
read_fsinfo v =
    if ld_dword v.win 0 == 0x41615252
      && (ld_dword v.win 484 == 0x61417272 && ld_dword v.win 498 == 0xAA550000)
    then record v { fsi_flag = 0; free_clst = ld_dword v.win 488; last_clst = ld_dword v.win 492 }
    else record v { fsi_flag = 0 }

module _ (g : Geometry) where
  unfoldable pub load_fsinfo : Act (Unit {0})
  unfolding read_fsinfo
  load_fsinfo v =
      let v' = record v { last_clst = unknown; free_clst = unknown; fsi_flag = 0x80 } in
      elim g.fs_type [
        | fat32 ↦
            if ld_word v'.win 48 == 1
            then on_fail (move_window g (u32 (g.volbase + 1)) v') (λ _ w. done tt (read_fsinfo w))
                (λ _ w. done tt w)
            else done tt v'
        | _ ↦ done tt v'
      ]

-- A `FATFS` object: its geometry (`none` where `fs_type` is 0), what an earlier mount left in the
-- fields of the geometry, its mount id, and the rest.
pub record Mount : Type 0 where
  pub geometry : Option Geometry
  pub stale : Geometry
  pub id : ℕ
  pub fs : Fatfs

-- What a call comes to: the code, the object and the global `Fsid`.
pub data Mounted : Type 0 where
  mounted : Mount → ℕ → Mounted
  refused : Fresult → Mount → ℕ → Mounted

-- The object with its geometry, once the counters are loaded.
unfoldable pub register : Mount → ℕ → Geometry → Out (Unit {0}) → Mounted
register m fsid g (done x u) =
    mounted (record { geometry = some g; stale = m.stale; id = u16 (fsid + 1); fs = u })
      (u16 (fsid + 1))
register m fsid g (fail e u) = refused e (record m { fs = u }) fsid
register m fsid g out_of_fuel = refused int_err m fsid

-- The attempt to mount, from `find_volume` on.
unfoldable pub mount_found : Mount → ℕ → Out ℕ → Mounted
mount_found m fsid (done fmt w) =
    if fmt == 4
    then refused disk_err (record m { fs = w }) fsid
    else if leb 2 fmt
    then refused no_filesystem (record m { fs = w }) fsid
    else elim (read_bpb (load_bpb w.win) w.winsect) [
      | none ↦ refused no_filesystem (record m { fs = w }) fsid
      | some g ↦ register m fsid g (load_fsinfo g w)
    ]
mount_found m fsid (fail e w) = refused e (record m { fs = w }) fsid
mount_found m fsid out_of_fuel = refused int_err m fsid

-- `mount_volume` on a registered object: `write` says whether the access is to write.
unfoldable pub mount_volume : Bool → Mount → ℕ → Mounted
mount_volume write m fsid =
    let again = λ (m : Mount).
      let stat = disk_initialize m.fs.disk in
      if bit stat 0
      then refused not_ready m fsid
      else if write && bit stat 2
      then refused write_protected m fsid
      else mount_found m fsid (find_volume m.stale m.fs) in
    let stat = disk_status m.fs.disk in
    elim m.geometry [
      | none ↦ again m
      | some g ↦
          if not (bit stat 0)
          then if write && bit stat 2 then refused write_protected m fsid else mounted m fsid
          else again (record m { geometry = none; stale = g })
    ]
