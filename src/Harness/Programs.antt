-- ===== src/Harness/Programs.antt =====
-- The programs of harnesses/: one iteration each of harness_mkdir.c, harness_unlink.c, harness_rename.c,
-- harness_seek.c and harness_write.c, which begin with the disk image of clean_disk.c.
use mathlib.Core.List.{◌++◌}
use zephyr_fatfs_aflplusplus.Base.{
  ℕ, zero, suc, ◌+◌, ◌-◌, ◌*◌, ◌%◌, ◌^◌, Bool, true, false, none, some, List, [], ◌∷◌, ltb,
  if◌then◌else◌,
}
use zephyr_fatfs_aflplusplus.Diskio.{Bytes, fuzz_disk_load, disk_size}
use zephyr_fatfs_aflplusplus.Volume.{invalid_object}
use zephyr_fatfs_aflplusplus.Mount.{Mount}
use zephyr_fatfs_aflplusplus.Dir.{Dir}
use zephyr_fatfs_aflplusplus.File.{File, Transfer, f_read, f_close}
use zephyr_fatfs_aflplusplus.File.Write.{f_write}
use zephyr_fatfs_aflplusplus.File.Seek.{f_lseek}
use zephyr_fatfs_aflplusplus.Api.{System, Reply, f_mount}
use zephyr_fatfs_aflplusplus.Api.Opening.{f_open}
use zephyr_fatfs_aflplusplus.Api.Removal.{f_unlink}
use zephyr_fatfs_aflplusplus.Api.Creation.{f_mkdir}
use zephyr_fatfs_aflplusplus.Api.Rename.{f_rename}
use zephyr_fatfs_aflplusplus.Script.{
  Script, ◌>>=◌, run_on, attempt, branch, return, on_volume, call, load_drive,
}
use zephyr_fatfs_aflplusplus.Harness.{c_string, drive_path, root_path}

-- `n` bytes of the test case, from byte `at`.
unfoldable pub chars : Bytes → ℕ → ℕ → List ℕ
chars buf at zero = []
chars buf at (suc n) = buf at ∷ chars buf (at + 1) n

-- "RAM:/" and a name of `n` bytes, as the string that ends at the first 0.
unfoldable pub path_at : Bytes → ℕ → ℕ → List ℕ
unfolding chars c_string
path_at buf at n = c_string (root_path ++ chars buf at n)

-- A call whose code is not looked at.
abbrev pub try : (System → Reply (Unit {0})) → Script (Unit {0})
try f = attempt f (λ u. return tt) (return tt)

abbrev pub write_to : File → Bytes → ℕ → Script Transfer
write_to f src n =
    call (record { res = some invalid_object; file = f; buff = src; count = 0 })
      λ g mounted. f_write g mounted f src n

abbrev pub close : File → Script File
close f = call (some invalid_object, f) (λ g mounted. f_close g mounted f) >>= λ r. return r.1

-- The image and the object that an iteration mounts, and the local objects.
module _ (signed_char : Bool) (local : Dir) (rbuf clean : Bytes) (fs : Mount) (file : File) where
  -- `fuzz_disk_load(clean_disk, 65536)`, and the rest between the two calls of `f_mount`.
  unfoldable pub on_clean : Script (Unit {0}) → Script (Unit {0})
  unfolding branch run_on
  on_clean body s =
      attempt (f_mount (some fs) drive_path true)
        (λ u. body >>= λ u. try (f_mount none drive_path false)) (return tt)
        (load_drive (fuzz_disk_load clean disk_size) s)

  -- A file created with `n` bytes of data and closed, and then the rest.
  unfoldable pub create_file : List ℕ → Bytes → ℕ → Script (Unit {0}) → Script (Unit {0})
  unfolding branch run_on on_volume
  create_file path src n rest =
      attempt (f_open signed_char file local path 0xA)
        (λ f. do t ← write_to f src n; f' ← close t.file; rest) (return tt)

  -- harness_unlink.c
  unfoldable pub unlink_iteration : Bytes → ℕ → Script (Unit {0})
  unfolding path_at on_clean create_file branch
  unlink_iteration buf len =
      let name_len = buf 0 % 16 + 1 in
      let fname = path_at buf 1 name_len in
      if ltb len 2
      then return tt
      else if ltb len (1 + name_len)
      then return tt
      else on_clean (create_file fname buf len (try (f_unlink signed_char local local fname)))

  -- harness_mkdir.c, with "/test.txt" for the file in the new directory
  unfoldable pub mkdir_iteration : Bytes → ℕ → Script (Unit {0})
  unfolding path_at on_clean create_file branch run_on
  mkdir_iteration buf len =
      let name_len = buf 0 % 16 + 1 in
      let dname = path_at buf 1 name_len in
      let fpath = dname ++ (0x2F ∷ 0x74 ∷ 0x65 ∷ 0x73 ∷ 0x74 ∷ 0x2E ∷ 0x74 ∷ 0x78 ∷ 0x74 ∷ []) in
      if ltb len 2
      then return tt
      else if ltb len (1 + name_len)
      then return tt
      else on_clean
          (try (f_mkdir signed_char local dname) >>= λ u. create_file fpath buf len (return tt))

  -- "fuzz"
  abbrev pub fuzz_data : Bytes
  fuzz_data i = if ltb i 1 then 0x66 else if ltb i 2 then 0x75 else if ltb i 4 then 0x7A else 0

  -- harness_rename.c
  unfoldable pub rename_iteration : Bytes → ℕ → Script (Unit {0})
  unfolding path_at on_clean create_file branch
  rename_iteration buf len =
      let src_len = buf 0 % 16 + 1 in
      let dst_len = buf (1 + src_len) % 16 + 1 in
      let src = path_at buf 1 src_len in
      let dst = path_at buf (1 + src_len + 1) dst_len in
      if ltb len 6
      then return tt
      else if ltb len (1 + src_len + 1)
      then return tt
      else if ltb len (1 + src_len + 1 + dst_len)
      then return tt
      else on_clean (create_file src fuzz_data 4 (try (f_rename signed_char local src dst)))

  -- What harness_seek.c and harness_write.c do with a new file: write, seek, read and close.
  unfoldable pub exercise : File → Bytes → ℕ → ℕ → Script File
  unfolding branch run_on on_volume
  exercise f src n ofs = do
    t ← write_to f src n
    r ← call (some invalid_object, t.file) λ g mounted. f_lseek g mounted t.file ofs
    t2 ←
        call (record { res = some invalid_object; file = r.1; buff = rbuf; count = 0 })
          λ g mounted. f_read g mounted r.1 rbuf 512
    close t2.file

  -- harness_seek.c, with the file "RAM:/seektest.bin"; the offset is the first four bytes.
  unfoldable pub seek_iteration : Bytes → ℕ → Script (Unit {0})
  unfolding on_clean exercise branch run_on
  seek_iteration buf len =
      let seek_off = ((buf 0 * 2 ^ 8 + buf 1) * 2 ^ 8 + buf 2) * 2 ^ 8 + buf 3 in
      let path =
        root_path
        ++ (0x73 ∷ 0x65 ∷ 0x65 ∷ 0x6B ∷ 0x74 ∷ 0x65 ∷ 0x73 ∷ 0x74 ∷ 0x2E ∷ 0x62 ∷ 0x69 ∷ 0x6E
            ∷ []) in
      if ltb len 8
      then return tt
      else on_clean (
          attempt (f_open signed_char file local path 0xA)
            (λ f. exercise f (λ i. buf (4 + i)) (len - 4) seek_off >>= λ f'. return tt) (return tt))

  -- harness_write.c
  unfoldable pub write_iteration : Bytes → ℕ → Script (Unit {0})
  unfolding path_at on_clean exercise branch run_on
  write_iteration buf len =
      let name_len = buf 0 % 32 + 1 in
      let fname = path_at buf 1 name_len in
      if ltb len 4
      then return tt
      else if ltb len (1 + name_len)
      then return tt
      else on_clean (
          attempt (f_open signed_char file local fname 0xA)
            (λ f. exercise f (λ i. buf (1 + name_len + i)) (len - 1 - name_len) 0 >>= λ f'.
              try (f_unlink signed_char local local fname))
            (return tt))
