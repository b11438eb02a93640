-- ===== src/Examples.antt =====
-- The theorems on a small FAT12 volume: the reserved sector, one FAT of one sector, a root directory
-- of 16 entries, and 18 clusters of one sector. Cluster 2 is a file of one cluster.
mod Chains
mod Volumes
mod Files
mod Shares
mod Calls
mod Handles
mod Programs
mod Rounds
use zephyr_fatfs_aflplusplus.Base.{
  ℕ, ◌+◌, ◌^◌, ◌≤◌, ◌<◌, ◌≡◌, ◌≢◌, ◌⊎◌, inl, inr, refl, true, false, none, some, arith, ◌==◌,
  if◌then◌else◌, low_bits, [], ◌∷◌,
}
use zephyr_fatfs_aflplusplus.Diskio.{Bytes, disk_sectors, in_bounds}
use zephyr_fatfs_aflplusplus.Diskio.Laws.{in_bounds_lem}
use zephyr_fatfs_aflplusplus.Volume.{Geometry, Fatfs, fat12, done, Fresult, int_err, disk_err}
use zephyr_fatfs_aflplusplus.Volume.Ends.{Ends}
use zephyr_fatfs_aflplusplus.Window.{no_sector, sync_window, move_window}
use zephyr_fatfs_aflplusplus.Window.Laws.{IsSound, IsKept, sync_window-IsKept, move_window-IsKept}
use zephyr_fatfs_aflplusplus.Fat.{get_fat, put_fat, internal_error}
use zephyr_fatfs_aflplusplus.Fat.Entry.{HasFat, entry, entry_of}
use zephyr_fatfs_aflplusplus.Fat.Get.{Got, Never, get_fat-entry, get_fat_out_of_range}
use zephyr_fatfs_aflplusplus.Fat.Put.{IsEdited, put_fat-entry}
use zephyr_fatfs_aflplusplus.Chain.{remove_chain, create_chain}
use zephyr_fatfs_aflplusplus.Chain.Links.{is_in, IsChain}
use zephyr_fatfs_aflplusplus.Chain.Remove.{IsOutside, remove_chain-IsThinned}
use zephyr_fatfs_aflplusplus.Chain.Free.{count_all, remove_chain-IsReleased}
use zephyr_fatfs_aflplusplus.Chain.Create.{Created, create_chain-Created}
use zephyr_fatfs_aflplusplus.Boot.{Bpb, read_bpb, fat_type, fits_type, fat_bytes, layout}
use zephyr_fatfs_aflplusplus.Mount.{Mount, mount_volume}
use zephyr_fatfs_aflplusplus.Mount.Layout.{IsOrdered, read_bpb-HasFat}
use zephyr_fatfs_aflplusplus.Mount.Wrap.{wrapped-overlap}
use zephyr_fatfs_aflplusplus.Mount.Outcome.{Outcome, mount_volume-Outcome}
use zephyr_fatfs_aflplusplus.Dir.{Dir, halt, dir_next, dir_sdi}
use zephyr_fatfs_aflplusplus.Dir.Table.{dir_find}
use zephyr_fatfs_aflplusplus.Dir.Move.{Moved, dir_next-Moved}
use zephyr_fatfs_aflplusplus.Dir.Start.{IsStart, Positioned, HasClusters, dir_sdi-Positioned}
use zephyr_fatfs_aflplusplus.Dir.Find.{Search, dir_find-Search}
use Prim.Native.Nat.{min, ◌-◌}
use zephyr_fatfs_aflplusplus.Base.{List}
use zephyr_fatfs_aflplusplus.Volume.{put_byte}
use zephyr_fatfs_aflplusplus.Sync.{fsinfo, sync_fs}
use zephyr_fatfs_aflplusplus.Sync.Flush.{IsFlushed, sync_fs-IsFlushed}
use zephyr_fatfs_aflplusplus.Sync.Fsinfo.{read_fsinfo-fsinfo}
use zephyr_fatfs_aflplusplus.Mount.{read_fsinfo}
use zephyr_fatfs_aflplusplus.Dir.{ld_clust, st_clust}
use zephyr_fatfs_aflplusplus.Dir.Cluster.{ld_clust-st_clust}
use zephyr_fatfs_aflplusplus.Name.{
  create_name, finish, scan, strip, ex_cvt, named, ns_last, Filinfo, get_fileinfo, size, is_null,
  follow_path,
}
use zephyr_fatfs_aflplusplus.Name.Form.{CreatedName, create_name-CreatedName, get_fileinfo-fname}
use zephyr_fatfs_aflplusplus.Name.Walk.{Followed, follow_path-Followed}
use zephyr_fatfs_aflplusplus.File.{File, f_read}
use zephyr_fatfs_aflplusplus.File.Read.{f_read-Counted}

abbrev pub floppy : Geometry
floppy = record {
  fs_type = fat12;
  n_fats = 1;
  n_rootdir = 16;
  csize = 1;
  n_fatent = 20;
  fsize = 1;
  volbase = 0;
  fatbase = 1;
  dirbase = 2;
  database = 3;
}

-- The entry of cluster 2 is 0xFFF, and the rest of the drive is 0.
abbrev pub image : Bytes
image a = if a == 515 then 0xFF else if a == 516 then 0x0F else 0

abbrev pub mounted_floppy : Fatfs
mounted_floppy = record {
  wflag = false;
  fsi_flag = 0;
  last_clst = 2;
  free_clst = 17;
  winsect = no_sector;
  win = λ i. 0;
  disk = image;
}

pub floppy-HasFat : HasFat floppy
floppy-HasFat = record {
  placed = record { fats_fit = omega arith };
  on_drive = omega arith;
  typed = omega arith;
  room = λ c low. omega arith;
}

pub image_bytes : (a : ℕ) → image a < 256
image_bytes a = ground arith

pub floppy-IsSound : IsSound mounted_floppy
floppy-IsSound = record {
  coherent = λ a clean low. absurd (omega arith);
  win_bytes = λ i. omega arith;
  disk_bytes = image_bytes;
}

abbrev pub no_cluster : ℕ
no_cluster = 0

-- The root directory, and a name to look for.
abbrev pub root : Dir
root = record { sclust = 0; attr = 0; dptr = 0; clust = 0; sect = 2; dir = 0; fn = λ i. 0x41 }

pub floppy-HasClusters : HasClusters floppy
floppy-HasClusters = (omega arith, omega arith)
