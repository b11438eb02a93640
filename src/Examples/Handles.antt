-- ===== src/Examples/Handles.antt =====
-- Calls of the functions of ff.c that take a file object, and the read path of harness.c, on the
-- small volume.
use zephyr_fatfs_aflplusplus.Base.{some, refl, arith, true, []}
use zephyr_fatfs_aflplusplus.Volume.Ends.{Ends}
use zephyr_fatfs_aflplusplus.Window.Laws.{IsSound, IsKept}
use zephyr_fatfs_aflplusplus.Fat.Get.{Never}
use zephyr_fatfs_aflplusplus.File.{File, f_sync}
use zephyr_fatfs_aflplusplus.File.Seek.{f_lseek}
use zephyr_fatfs_aflplusplus.File.Moved.{HasGrown, IsAt, seek_target, f_lseek_end, f_lseek-IsAt}
use zephyr_fatfs_aflplusplus.File.Recorded.{HasEntry, HasRecorded, f_sync-HasRecorded}
use zephyr_fatfs_aflplusplus.Api.{blank_dir, system}
use zephyr_fatfs_aflplusplus.Name.{Filinfo}
use zephyr_fatfs_aflplusplus.Harness.{read_path}
use zephyr_fatfs_aflplusplus.Script.Runs.{Runs}
use zephyr_fatfs_aflplusplus.Harness.Listing.{IsSame}
use zephyr_fatfs_aflplusplus.Harness.Reads.{read_path-IsSame}
use zephyr_fatfs_aflplusplus.Examples.Calls.{note, mounted_object}
use zephyr_fatfs_aflplusplus.Examples.{
  floppy, mounted_floppy, floppy-HasFat, floppy-HasClusters, floppy-IsSound,
}

f_lseek_end_example :
    Ends
      (λ r w. IsSound w × HasGrown note (seek_target note 700) r)
      Never
      (f_lseek floppy (some 1) note 700 mounted_floppy)
f_lseek_end_example =
    f_lseek_end floppy floppy-HasFat floppy-HasClusters (omega arith) (9, refl) (some 1) note 700
      floppy-IsSound

-- The file, open only to read.
abbrev read_note : File
read_note = record note { flag = 1 }

f_lseek-IsAt_example :
    Ends
      (λ r w. IsKept floppy mounted_floppy w × IsAt read_note 300 r)
      Never
      (f_lseek floppy (some 1) read_note 300 mounted_floppy)
f_lseek-IsAt_example =
    f_lseek-IsAt floppy floppy-HasFat floppy-HasClusters (omega arith) (9, refl) (some 1) read_note
      300 (refl, (λ e. ground arith), (λ e. ground arith)) floppy-IsSound

-- The file after a write, with its entry in the root directory.
abbrev changed_note : File
changed_note = record note { flag = 0x42; dir_sect = 2 }

changed_note-HasEntry : HasEntry floppy changed_note
changed_note-HasEntry = record {
  plain = ground arith;
  apart = λ e. ground arith;
  inside = omega arith;
  small = omega arith;
  low = omega arith;
}

f_sync-HasRecorded_example :
    Ends
      (HasRecorded floppy mounted_floppy changed_note)
      Never
      (f_sync floppy (some 1) changed_note mounted_floppy)
f_sync-HasRecorded_example =
    f_sync-HasRecorded floppy floppy-HasFat.placed changed_note changed_note-HasEntry (some 1) refl
      floppy-IsSound

abbrev pub no_info : Filinfo
no_info = record { fname = []; fattrib = 0; fsize = 0; ftime = 0; fdate = 0 }

read_path-IsSame_example :
    Runs
      (λ f s. IsSame floppy mounted_object 1 s)
      (read_path true blank_dir (λ i. 0) no_info no_info note (system mounted_object 1))
read_path-IsSame_example =
    read_path-IsSame floppy floppy-HasFat floppy-HasClusters mounted_object 1 refl true blank_dir
      (λ i. 0) no_info no_info note floppy-IsSound
