-- ===== src/Examples/Rounds.antt =====
-- An iteration of harness.c on a test case with a small volume, and the calls of ff.c that create.
use zephyr_fatfs_aflplusplus.Base.{
  ℕ, ◌≡◌, refl, sym, subst, ◌∙◌, ap, Option, none, some, true, false, arith, ◌==◌, if◌then◌else◌,
}
use zephyr_fatfs_aflplusplus.Diskio.{
  Bytes, AreBytes, fuzz_disk_load, disk_read, disk_status, disk_initialize, in_bounds,
}
use zephyr_fatfs_aflplusplus.Volume.{Geometry}
use zephyr_fatfs_aflplusplus.Window.{sync_window, load_window, move_window, ld_word, ld_dword}
use zephyr_fatfs_aflplusplus.Window.Laws.{IsSound}
use zephyr_fatfs_aflplusplus.Boot.{
  is_proper_bpb, boot_kind, fat_type, fits_type, fat_bytes, layout, read_bpb, load_bpb, wide_field,
}
use zephyr_fatfs_aflplusplus.Mount.{
  Mount, Mounted, mounted, refused, register, mount_found, mount_volume, load_fsinfo, check_fs,
  scan_partitions, find_volume,
}
use zephyr_fatfs_aflplusplus.Fat.Entry.{HasFat}
use zephyr_fatfs_aflplusplus.Script.Runs.{Runs}
use zephyr_fatfs_aflplusplus.Harness.{iteration}
use zephyr_fatfs_aflplusplus.Harness.Rounds.{IsIdle, IsUsable, iteration-IsIdle}
use zephyr_fatfs_aflplusplus.Name.Letters.{AreChars, all_bytes, nth_bound}
use zephyr_fatfs_aflplusplus.Api.Calls.{Answers}
use zephyr_fatfs_aflplusplus.Api.Opening.{f_open}
use zephyr_fatfs_aflplusplus.Api.Opening.Within.{IsWithin, f_open-IsWithin}
use zephyr_fatfs_aflplusplus.Api.Creation.{f_mkdir}
use zephyr_fatfs_aflplusplus.Api.Creation.Sound.{f_mkdir-IsSound}
use zephyr_fatfs_aflplusplus.Examples.Calls.{note, mounted_object, long_path}
use zephyr_fatfs_aflplusplus.Examples.Handles.{no_info}
use zephyr_fatfs_aflplusplus.Api.{System, system, blank_dir, registered}
use zephyr_fatfs_aflplusplus.Examples.{
  floppy, mounted_floppy, floppy-HasFat, floppy-HasClusters, floppy-IsSound,
}

-- A boot record with one FAT of one sector, 16 root entries and 128 sectors.
abbrev pub test_case : Bytes
test_case a =
    if a == 0
    then 0xEB
    else if a == 2
    then 0x90
    else if a == 12
    then 2
    else if a == 13
    then 1
    else if a == 14
    then 1
    else if a == 16
    then 1
    else if a == 17
    then 16
    else if a == 19
    then 128
    else if a == 21
    then 0xF8
    else if a == 22
    then 1
    else if a == 54
    then 0x46
    else if a == 55
    then 0x41
    else if a == 56
    then 0x54
    else if a == 57
    then 0x20
    else if a == 58
    then 0x20
    else if a == 59
    then 0x20
    else if a == 60
    then 0x20
    else if a == 61
    then 0x20
    else if a == 510
    then 0x55
    else if a == 511
    then 0xAA
    else 0

abbrev pub volume : Geometry
volume = record floppy { n_fatent = 127 }

pub volume-HasFat : HasFat volume
volume-HasFat = record {
  placed = record { fats_fit = omega arith };
  on_drive = omega arith;
  typed = omega arith;
  room = λ c low. omega arith;
}

abbrev pub new_object : Mount
new_object = record { geometry = none; stale = floppy; id = 0; fs = mounted_floppy }

unfoldable pub geometry_of : Mounted → Option Geometry
geometry_of (mounted m id) = m.geometry
geometry_of (refused e m id) = none

test_case-volume :
    geometry_of (mount_volume false (registered new_object (fuzz_disk_load test_case 1024)) 0)
    ≡ some volume
unfolding geometry_of mount_volume mount_found register load_fsinfo find_volume scan_partitions
    check_fs boot_kind is_proper_bpb load_bpb wide_field read_bpb fat_type fits_type fat_bytes
    layout move_window sync_window load_window ld_word ld_dword disk_read in_bounds disk_status
    disk_initialize fuzz_disk_load
test_case-volume = refl

pub some-injective : (x y : Geometry) → some x ≡ some y → x ≡ y
some-injective x y e = ground (arith, e)

test_case-IsUsable :
    (m : Mount) (id : ℕ) (g : Geometry)
    → mount_volume false (registered new_object (fuzz_disk_load test_case 1024)) 0 ≡ mounted m id
    → m.geometry ≡ some g
    → IsUsable g
unfolding geometry_of
test_case-IsUsable m id g e is =
    let same : some volume ≡ some g = sym test_case-volume ∙ (ap geometry_of e ∙ is) in
    subst IsUsable (some-injective volume g same)
      (volume-HasFat, (omega arith, omega arith), omega arith)

abbrev pub idle_system : System
idle_system = record { fat_fs = none; fsid = 0; drive = λ a. 0 }

pub new_object_bytes : AreBytes new_object.fs.win
new_object_bytes i = omega arith

pub test_case_bytes : AreBytes test_case
test_case_bytes a = ground arith

iteration-IsIdle_example :
    Runs
      (λ u s. IsIdle s)
      (iteration true blank_dir (λ i. 0) test_case 1024 new_object note no_info no_info idle_system)
iteration-IsIdle_example =
    iteration-IsIdle true blank_dir (λ i. omega arith) (λ i. 0) test_case 1024 new_object note
      no_info no_info idle_system new_object_bytes test_case_bytes test_case-IsUsable

long_path_chars : AreChars long_path
unfolding all_bytes
long_path_chars = nth_bound long_path refl

f_open-IsWithin_example :
    Answers
      (λ f w. IsSound w × IsWithin f)
      IsSound
      mounted_object
      1
      (f_open true note blank_dir long_path 0xA (system mounted_object 1))
f_open-IsWithin_example =
    f_open-IsWithin floppy floppy-HasFat floppy-HasClusters (omega arith) true note blank_dir
      long_path 0xA mounted_object 1 refl floppy-IsSound (λ i. omega arith) long_path_chars

f_mkdir-IsSound_example :
    Answers
      (λ u w. IsSound w)
      IsSound
      mounted_object
      1
      (f_mkdir true blank_dir long_path (system mounted_object 1))
f_mkdir-IsSound_example =
    f_mkdir-IsSound floppy floppy-HasFat floppy-HasClusters (omega arith) true blank_dir long_path
      mounted_object 1 refl floppy-IsSound (λ i. omega arith) long_path_chars
