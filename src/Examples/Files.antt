-- ===== src/Examples/Files.antt =====
-- Directories, paths and files of the small volume.
use zephyr_fatfs_aflplusplus.Dir.Table.{dir_read}
use zephyr_fatfs_aflplusplus.Dir.Reading.{Read, dir_read-Read}
use zephyr_fatfs_aflplusplus.Base.{if◌then◌else◌, ltb, ◌+◌, ◌<◌, ◌^◌, ◌/◌}
use zephyr_fatfs_aflplusplus.Volume.{view}
use zephyr_fatfs_aflplusplus.Window.{clst2sect}
use zephyr_fatfs_aflplusplus.Window.Laws.{IsSound}
use zephyr_fatfs_aflplusplus.File.Write.{f_write}
use zephyr_fatfs_aflplusplus.File.Written.{f_write-IsWritten}
use zephyr_fatfs_aflplusplus.Dir.{dir_clear}
use zephyr_fatfs_aflplusplus.Dir.Clear.{Elsewhere, dir_clear-Elsewhere}
use zephyr_fatfs_aflplusplus.Examples.{image_bytes}
use zephyr_fatfs_aflplusplus.Base.{
  ℕ, ◌+◌, ◌≤◌, ◌<◌, ◌≡◌, ◌⊎◌, refl, true, false, none, some, arith, ◌==◌, if◌then◌else◌, [], ◌∷◌,
}
use zephyr_fatfs_aflplusplus.Diskio.{Bytes}
use zephyr_fatfs_aflplusplus.Volume.{Fresult}
use zephyr_fatfs_aflplusplus.Volume.Ends.{Ends}
use zephyr_fatfs_aflplusplus.Window.Laws.{IsKept}
use zephyr_fatfs_aflplusplus.Fat.Get.{Never}
use zephyr_fatfs_aflplusplus.Dir.{Dir, halt}
use Prim.Native.Nat.{min, ◌-◌}
use zephyr_fatfs_aflplusplus.Base.{List}
use zephyr_fatfs_aflplusplus.Volume.{put_byte}
use zephyr_fatfs_aflplusplus.Name.{
  create_name, finish, scan, strip, ex_cvt, named, Filinfo, get_fileinfo, size, is_null,
  follow_path,
}
use zephyr_fatfs_aflplusplus.Name.Form.{CreatedName, create_name-CreatedName, get_fileinfo-fname}
use zephyr_fatfs_aflplusplus.Name.Walk.{Followed, follow_path-Followed}
use zephyr_fatfs_aflplusplus.File.{File, f_read}
use zephyr_fatfs_aflplusplus.File.Read.{f_read-Counted}
use zephyr_fatfs_aflplusplus.Examples.{
  floppy, image, mounted_floppy, floppy-HasFat, floppy-IsSound, root, floppy-HasClusters,
}

-- The path A/b.
abbrev short_path : List ℕ
short_path = 0x41 ∷ 0x2F ∷ 0x62 ∷ []

create_name-CreatedName_example : CreatedName false short_path (create_name false short_path)
create_name-CreatedName_example = create_name-CreatedName false short_path

follow_path-Followed_example :
    Ends
      (λ r w.
        Followed floppy mounted_floppy r w
        ⊎ ((is_null false floppy (strip short_path) ≡ true) × IsKept floppy mounted_floppy w))
      Never
      (follow_path false floppy root short_path mounted_floppy)
follow_path-Followed_example =
    follow_path-Followed floppy floppy-HasFat floppy-HasClusters false root short_path
      floppy-IsSound

abbrev no_info : Filinfo
no_info = record { fname = []; fattrib = 0; fsize = 0; ftime = 0; fdate = 0 }

get_fileinfo-fname_example : size (get_fileinfo root mounted_floppy no_info).fname ≤ 12
get_fileinfo-fname_example = get_fileinfo-fname root mounted_floppy no_info

-- The path A/ and a letter of the upper half of the code page.
abbrev high_path : List ℕ
high_path = 0x41 ∷ 0x2F ∷ 0x8E ∷ []

-- The name A and the flag of a last segment.
abbrev cut_name : Bytes
cut_name i = if i == 11 then 4 else if i == 0 then 0x41 else 0x20

high_path_cut : create_name true high_path ≡ named cut_name (0x8E ∷ [])
unfolding create_name finish scan put_byte strip ex_cvt
high_path_cut = refl

-- The file of cluster 2, of 100 bytes and open for reading.
abbrev file : File
file = record {
  fs = some 1;
  sclust = 2;
  objsize = 100;
  flag = 1;
  err = none;
  fptr = 0;
  clust = 0;
  sect = 0;
  dir_sect = 2;
  dir_ptr = 0;
}

f_read-Counted_example :
    Ends
      (λ t w.
        IsKept floppy mounted_floppy w
        × (t.count ≤ min 40 (100 - 0))
        × (t.file.flag ≡ file.flag)
        × (t.file.fptr ≡ 0 + t.count)
        × (((t.res ≡ none) × (t.count ≡ min 40 (100 - 0)))
            ⊎ ((e : Fresult) × (t.res ≡ some e)
                × ((t.file.err ≡ some e) ⊎ ((t.file ≡ file) × (t.count ≡ 0))))))
      Never
      (f_read floppy (some 1) file image 40 mounted_floppy)
f_read-Counted_example =
    f_read-Counted floppy floppy-HasFat floppy-HasClusters (some 1) file image 40 floppy-IsSound
      (omega arith, omega arith)

abbrev written_file : File
written_file = record file { flag = 3 }

f_write-IsWritten_example :
    Ends
      (λ t w.
        IsSound w
        × (t.count ≤ 40)
        × (0 + t.count < 2 ^ 32)
        × (t.file.fptr ≡ 0 + t.count)
        × (t.file.objsize ≡ (if ltb 100 t.file.fptr then t.file.fptr else 100)))
      Never
      (f_write floppy (some 1) written_file image 40 mounted_floppy)
f_write-IsWritten_example =
    f_write-IsWritten floppy floppy-HasFat floppy-HasClusters (omega arith) (some 1) written_file
      image 40 floppy-IsSound image_bytes (omega arith, omega arith) (omega arith)

dir_clear-Elsewhere_example :
    Ends
      (λ _ w.
        IsSound w
        × Elsewhere floppy (clst2sect floppy 3) mounted_floppy w
        × ((a : ℕ)
            → clst2sect floppy 3 ≤ a / 512
            → a / 512 < clst2sect floppy 3 + 1
            → view w a ≡ 0))
      (λ w. IsSound w × Elsewhere floppy (clst2sect floppy 3) mounted_floppy w)
      (dir_clear floppy 3 mounted_floppy)
dir_clear-Elsewhere_example =
    dir_clear-Elsewhere floppy floppy-HasFat.placed (omega arith) 3 floppy-IsSound

dir_read-Read_example :
    Ends
      (λ r w.
        Read floppy mounted_floppy false 0 r w
        × ((e : Fresult) (d : Dir) → r ≡ halt e d → d.sect ≡ 0))
      Never
      (dir_read floppy root false mounted_floppy)
dir_read-Read_example = dir_read-Read floppy floppy-HasFat false root floppy-IsSound (omega arith)
