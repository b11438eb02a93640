-- ===== src/Examples/Volumes.antt =====
-- Boot records, mounting and flushing.
use zephyr_fatfs_aflplusplus.Base.{◌+◌, ◌^◌, ◌<◌, ◌≡◌, refl, false, none, some, arith}
use zephyr_fatfs_aflplusplus.Volume.{Geometry, fat12}
use zephyr_fatfs_aflplusplus.Volume.Ends.{Ends}
use zephyr_fatfs_aflplusplus.Fat.Entry.{HasFat}
use zephyr_fatfs_aflplusplus.Boot.{Bpb, read_bpb, fat_type, fits_type, fat_bytes, layout}
use zephyr_fatfs_aflplusplus.Mount.{Mount, mount_volume}
use zephyr_fatfs_aflplusplus.Mount.Layout.{read_bpb-HasFat}
use zephyr_fatfs_aflplusplus.Mount.Wrap.{wrapped-overlap}
use zephyr_fatfs_aflplusplus.Mount.Outcome.{Outcome, mount_volume-Outcome}
use zephyr_fatfs_aflplusplus.Sync.{fsinfo, sync_fs}
use zephyr_fatfs_aflplusplus.Sync.Flush.{IsFlushed, sync_fs-IsFlushed}
use zephyr_fatfs_aflplusplus.Sync.Fsinfo.{read_fsinfo-fsinfo}
use zephyr_fatfs_aflplusplus.Mount.{read_fsinfo}
use zephyr_fatfs_aflplusplus.Examples.{floppy, mounted_floppy, floppy-HasFat, floppy-IsSound}

-- The boot record of the volume.
abbrev boot_record : Bpb
boot_record = record {
  sector_bytes = 512;
  fat_size = 1;
  n_fats = 1;
  csize = 1;
  n_rootdir = 16;
  tsect = 21;
  nrsv = 1;
  version = 0;
  root_cluster = 0;
}

boot_record_accepted : read_bpb boot_record 0 ≡ some floppy
unfolding read_bpb fat_type fits_type fat_bytes layout
boot_record_accepted = refl

read_bpb-HasFat_example : HasFat floppy
read_bpb-HasFat_example =
    read_bpb-HasFat boot_record 0 floppy boot_record_accepted (omega arith) (omega arith)

-- A boot record whose two FATs are 2^31 sectors each.
abbrev huge_record : Bpb
huge_record = record {
  sector_bytes = 512;
  fat_size = 2 ^ 31;
  n_fats = 2;
  csize = 1;
  n_rootdir = 16;
  tsect = 100;
  nrsv = 1;
  version = 0;
  root_cluster = 0;
}

abbrev huge : Geometry
huge = record {
  fs_type = fat12;
  n_fats = 2;
  n_rootdir = 16;
  csize = 1;
  n_fatent = 100;
  fsize = 2 ^ 31;
  volbase = 0;
  fatbase = 1;
  dirbase = 1;
  database = 2;
}

huge_record_accepted : read_bpb huge_record 0 ≡ some huge
unfolding read_bpb fat_type fits_type fat_bytes layout
huge_record_accepted = refl

wrapped-overlap_example : huge.database < huge.fatbase + huge.fsize
wrapped-overlap_example =
    wrapped-overlap huge_record 0 huge huge_record_accepted (omega arith) (omega arith)

abbrev unmounted : Mount
unmounted = record { geometry = none; stale = floppy; id = 0; fs = mounted_floppy }

mount_volume-Outcome_example : Outcome unmounted 7 (mount_volume false unmounted 7)
mount_volume-Outcome_example =
    mount_volume-Outcome false unmounted 7 floppy-IsSound.win_bytes floppy-IsSound.disk_bytes

sync_fs-IsFlushed_example :
    Ends
      (λ _ w. IsFlushed floppy mounted_floppy w)
      (λ w. w ≡ mounted_floppy)
      (sync_fs floppy mounted_floppy)
sync_fs-IsFlushed_example = sync_fs-IsFlushed floppy floppy-HasFat.placed floppy-IsSound

read_fsinfo-fsinfo_example :
    read_fsinfo (record mounted_floppy { win = fsinfo 17 2 })
    ≡ record mounted_floppy { win = fsinfo 17 2; fsi_flag = 0; free_clst = 17; last_clst = 2 }
read_fsinfo-fsinfo_example = read_fsinfo-fsinfo mounted_floppy 17 2 (omega arith) (omega arith)
