-- ===== src/Examples/Programs.antt =====
-- An iteration of harness_unlink.c on a small image.
use zephyr_fatfs_aflplusplus.Base.{ℕ, ◌≡◌, refl, sym, subst, ◌∙◌, ap, some, true, false, arith}
use zephyr_fatfs_aflplusplus.Diskio.{
  fuzz_disk_load, disk_read, disk_status, disk_initialize, in_bounds,
}
use zephyr_fatfs_aflplusplus.Volume.{Geometry}
use zephyr_fatfs_aflplusplus.Window.{sync_window, load_window, move_window, ld_word, ld_dword}
use zephyr_fatfs_aflplusplus.Boot.{
  is_proper_bpb, boot_kind, fat_type, fits_type, fat_bytes, layout, read_bpb, load_bpb, wide_field,
}
use zephyr_fatfs_aflplusplus.Mount.{
  Mount, mounted, register, mount_found, mount_volume, load_fsinfo, check_fs, scan_partitions,
  find_volume,
}
use zephyr_fatfs_aflplusplus.Script.Runs.{Runs}
use zephyr_fatfs_aflplusplus.Harness.Rounds.{IsIdle, IsUsable}
use zephyr_fatfs_aflplusplus.Examples.Calls.{note}
use zephyr_fatfs_aflplusplus.Api.{blank_dir, registered}
use zephyr_fatfs_aflplusplus.Diskio.{disk_size}
use zephyr_fatfs_aflplusplus.Harness.Programs.{unlink_iteration}
use zephyr_fatfs_aflplusplus.Harness.Ended.{unlink_iteration-IsIdle}
use zephyr_fatfs_aflplusplus.Examples.Rounds.{
  test_case, volume, new_object, idle_system, volume-HasFat, geometry_of, some-injective,
  new_object_bytes, test_case_bytes,
}

clean-volume :
    geometry_of (mount_volume false (registered new_object (fuzz_disk_load test_case disk_size)) 0)
    ≡ some volume
unfolding geometry_of mount_volume mount_found register load_fsinfo find_volume scan_partitions
    check_fs boot_kind is_proper_bpb load_bpb wide_field read_bpb fat_type fits_type fat_bytes
    layout move_window sync_window load_window ld_word ld_dword disk_read in_bounds disk_status
    disk_initialize fuzz_disk_load
clean-volume = refl

clean-IsUsable :
    (m : Mount) (id : ℕ) (g : Geometry)
    → mount_volume false (registered new_object (fuzz_disk_load test_case disk_size)) 0
      ≡ mounted m id
    → m.geometry ≡ some g
    → IsUsable g
unfolding geometry_of
clean-IsUsable m id g e is =
    let same : some volume ≡ some g = sym clean-volume ∙ (ap geometry_of e ∙ is) in
    subst IsUsable (some-injective volume g same)
      (volume-HasFat, (omega arith, omega arith), omega arith)

unlink_iteration-IsIdle_example :
    Runs
      (λ u s. IsIdle s)
      (unlink_iteration true blank_dir (λ i. 0) test_case new_object note test_case 20 idle_system)
unlink_iteration-IsIdle_example =
    unlink_iteration-IsIdle true blank_dir (λ i. omega arith) (λ i. 0) test_case new_object note
      idle_system new_object_bytes test_case_bytes clean-IsUsable test_case 20 test_case_bytes
      (omega arith) (omega arith) (omega arith)
