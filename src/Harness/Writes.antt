-- ===== src/Harness/Writes.antt =====
-- The write path of harness.c: it creates, writes, closes and deletes a file, and makes a directory.
use zephyr_fatfs_aflplusplus.Base.{ℕ, ◌<◌, ◌≡◌, refl, Bool, some, arith}
use zephyr_fatfs_aflplusplus.Diskio.{Bytes}
use zephyr_fatfs_aflplusplus.Volume.{Geometry, Fatfs}
use zephyr_fatfs_aflplusplus.Window.Laws.{IsSound}
use zephyr_fatfs_aflplusplus.Fat.Entry.{HasFat}
use zephyr_fatfs_aflplusplus.Mount.{Mount}
use zephyr_fatfs_aflplusplus.Dir.{Dir}
use zephyr_fatfs_aflplusplus.Dir.Start.{HasClusters}
use zephyr_fatfs_aflplusplus.Diskio.{AreBytes}
use zephyr_fatfs_aflplusplus.Name.Letters.{AreChars, all_bytes, nth_bound}
use zephyr_fatfs_aflplusplus.File.{File, f_close}
use zephyr_fatfs_aflplusplus.File.Write.{f_write}
use zephyr_fatfs_aflplusplus.File.Written.{f_write-IsWritten}
use zephyr_fatfs_aflplusplus.File.Closed.{f_close_any}
use zephyr_fatfs_aflplusplus.Api.{System, system}
use zephyr_fatfs_aflplusplus.Api.Opening.Within.{f_open-IsWithin}
use zephyr_fatfs_aflplusplus.Api.Removal.Unlinked.{f_unlink-IsUnlinked}
use zephyr_fatfs_aflplusplus.Api.Creation.Sound.{f_mkdir-IsSound}
use zephyr_fatfs_aflplusplus.Api.Removal.{f_unlink}
use zephyr_fatfs_aflplusplus.Script.{attempt, return}
use zephyr_fatfs_aflplusplus.Script.Runs.{Runs, ran, in_turn, both_branches, call-Runs}
use zephyr_fatfs_aflplusplus.Harness.{file_path, directory_path, probe, write_item, write_path}

-- The volume is mounted as in `m`, and sound.
abbrev pub IsMounted : Mount → ℕ → System → Type 0
IsMounted m fsid s = (v : Fatfs) × (s ≡ system (record m { fs = v }) fsid) × IsSound v

file_path_chars : AreChars file_path
unfolding all_bytes
file_path_chars = nth_bound file_path refl

directory_path_chars : AreChars directory_path
unfolding all_bytes
directory_path_chars = nth_bound directory_path refl

probe_bytes : AreBytes probe
unfolding all_bytes
probe_bytes = nth_bound _ refl

module _ (g : Geometry) (has : HasFat g) (sized : HasClusters g) (some_cluster : 2 < g.n_fatent)
    (m : Mount) (fsid : ℕ) (e : m.geometry ≡ some g) (signed_char : Bool) (local : Dir)
    (bytes : AreBytes local.fn) (rbuf : Bytes) where
  deleted-IsMounted :
      (v : Fatfs) (f : File)
      → IsSound v
      → Runs
          (λ a s. IsMounted m fsid s)
          (attempt
            (f_unlink signed_char local local file_path)
            (λ u. return f)
            (return f)
            (system (record m { fs = v }) fsid))
  deleted-IsMounted v f s =
      both_branches _ _
        (f_unlink-IsUnlinked g has sized signed_char local local file_path (record m { fs = v })
          fsid e s)
        (λ u w gone. ran (w, refl, gone.marked.sound)) (λ w (mark, k). ran (w, refl, k.sound))

  write_item-IsMounted :
      (file : File)
      → IsSound m.fs
      → Runs (λ f s. IsMounted m fsid s) (write_item signed_char local rbuf file (system m fsid))
  unfolding write_item
  write_item-IsMounted file s =
      both_branches _ _
        (f_open-IsWithin g has sized some_cluster signed_char file local file_path 0xA m fsid e s
          bytes file_path_chars)
        (λ f w (sw, within).
          in_turn
            (call-Runs _ (λ h mounted. f_write h mounted f probe 24) (record m { fs = w }) fsid g e
              (f_write-IsWritten g has sized some_cluster (some m.id) f probe 24 sw probe_bytes
                within (omega arith)))
            λ t s1 (u, is, h). rw is (
              in_turn
                (call-Runs _ (λ h mounted. f_close h mounted t.file) (record m { fs = u }) fsid g e
                  (f_close_any g has (some m.id) t.file h.0))
                λ r s2 (x, is2, sx). rw is2 (deleted-IsMounted x r.1 sx)))
        (λ w sw. ran (w, refl, sw))

  -- The write path of an iteration of harness.c, on a sound volume that is mounted, ends whatever the
  -- directories and the FAT hold: the file is opened to write or not, and then written, closed and
  -- deleted; a directory is made or not. The volume stays mounted, and is sound at the end.
  pub write_path-IsMounted :
      (file : File)
      → IsSound m.fs
      → Runs (λ f s. IsMounted m fsid s) (write_path signed_char local rbuf file (system m fsid))
  unfolding write_path
  write_path-IsMounted file s = in_turn (write_item-IsMounted file s) λ f s1 (v, is, sv). rw is (
      both_branches _ _
        (f_mkdir-IsSound g has sized some_cluster signed_char local directory_path
          (record m { fs = v }) fsid e sv bytes directory_path_chars)
        (λ u w sw. ran (w, refl, sw)) (λ w sw. ran (w, refl, sw)))
