-- ===== src/Harness.antt =====
-- filesystem_code/harness.c: one iteration of its loop, on the registered file system object.
pub mod Items
pub mod Listing
pub mod Reads
pub mod Writes
pub mod Rounds
pub mod Programs
pub mod Ended
use mathlib.Core.List.{◌++◌}
use zephyr_fatfs_aflplusplus.Base.{
  ℕ, zero, suc, Bool, true, false, Option, none, some, List, [], ◌∷◌, ◌==◌, if◌then◌else◌, bit,
}
use zephyr_fatfs_aflplusplus.Diskio.{Bytes, fuzz_disk_load}
use zephyr_fatfs_aflplusplus.Volume.{Geometry, Fresult, invalid_object, Act}
use zephyr_fatfs_aflplusplus.Mount.{Mount}
use zephyr_fatfs_aflplusplus.Dir.{Dir}
use zephyr_fatfs_aflplusplus.Dir.Table.{table_rounds}
use zephyr_fatfs_aflplusplus.Name.{Filinfo, next_char, nth}
use zephyr_fatfs_aflplusplus.File.{File, Transfer, f_read, f_close}
use zephyr_fatfs_aflplusplus.File.Write.{f_write}
use zephyr_fatfs_aflplusplus.Api.{System, f_mount}
use zephyr_fatfs_aflplusplus.Script.{
  Script, goes, stuck, ◌>>=◌, run_on, attempt, branch, return, on_volume, call, load_drive,
}
use zephyr_fatfs_aflplusplus.Api.Lookup.{Handle, Reading, f_opendir, f_closedir, f_readdir}
use zephyr_fatfs_aflplusplus.Api.Opening.{f_open}
use zephyr_fatfs_aflplusplus.Api.Removal.{f_unlink}
use zephyr_fatfs_aflplusplus.Api.Creation.{f_mkdir}

-- The item that an iteration over a directory goes on with.
unfoldable pub item_of : Option Fresult → Option Filinfo → Option Filinfo
item_of (some e) info = none
item_of none none = none
item_of none (some info) = if next_char info.fname == 0 then none else some info

-- The string in a `TCHAR` array.
unfoldable pub c_string : List ℕ → List ℕ
c_string [] = []
c_string (c ∷ cs) = let rest = c_string cs in if c == 0 then [] else c ∷ rest

abbrev pub read_dir : Handle → Filinfo → Script Reading
read_dir d fno =
    call (some invalid_object, d, some fno) λ g mounted. f_readdir g mounted d (some fno)

-- `while (f_readdir(&dir, &fno) == FR_OK && fno.fname[0]) { ... }`; the body takes and gives the local
-- `file`.
module _ (visit : Filinfo → File → Script File) where
  unfoldable pub list_items : ℕ → Handle → Filinfo → File → Script (Handle × File)
  unfolding item_of run_on branch on_volume
  list_items zero d fno file = λ _. stuck
  list_items (suc fuel) d fno file = do
    r ← read_dir d fno
    let rest = λ (info : Filinfo) (f : File). list_items fuel r.1 info f in
        elim (item_of r.0 r.2) as (λ o. Script (Handle × File)) [
          | none ↦ return (r.1, file)
          | some info ↦ (visit info file >>= rest info)
        ]

-- "RAM:"
abbrev pub drive_path : List ℕ
drive_path = 0x52 ∷ 0x41 ∷ 0x4D ∷ 0x3A ∷ []

-- "RAM:/"
abbrev pub root_path : List ℕ
root_path = 0x52 ∷ 0x41 ∷ 0x4D ∷ 0x3A ∷ 0x2F ∷ []

-- "RAM:/fuzzw.bin" and "RAM:/fuzzdir"
abbrev pub file_path : List ℕ
file_path = root_path ++ (0x66 ∷ 0x75 ∷ 0x7A ∷ 0x7A ∷ 0x77 ∷ 0x2E ∷ 0x62 ∷ 0x69 ∷ 0x6E ∷ [])

abbrev pub directory_path : List ℕ
directory_path = root_path ++ (0x66 ∷ 0x75 ∷ 0x7A ∷ 0x7A ∷ 0x64 ∷ 0x69 ∷ 0x72 ∷ [])

-- "AFLplusplus-write-probe", 24 bytes with the one that ends it
abbrev pub probe : Bytes
probe = nth (
    0x41 ∷ 0x46 ∷ 0x4C ∷ 0x70 ∷ 0x6C ∷ 0x75 ∷ 0x73 ∷ 0x70 ∷ 0x6C ∷ 0x75 ∷ 0x73 ∷ 0x2D ∷ 0x77 ∷ 0x72
    ∷ 0x69 ∷ 0x74 ∷ 0x65 ∷ 0x2D ∷ 0x70 ∷ 0x72 ∷ 0x6F ∷ 0x62 ∷ 0x65 ∷ [])

-- `f_closedir(&dir);`
unfoldable pub close_directory : Handle × File → Script File
unfolding run_on branch on_volume
close_directory (d, file) =
    call (some invalid_object, d) (λ g mounted. f_closedir mounted d) >>= λ r. return file

-- The items of an open directory, which is closed behind the last one.
unfoldable pub visit_all : (Filinfo → File → Script File) → Filinfo → File → Handle → Script File
unfolding list_items close_directory run_on
visit_all visit fno file d = list_items visit (suc table_rounds) d fno file >>= close_directory

-- The other members of the local objects and the bytes of the buffer are not set before the calls.
module _ (signed_char : Bool) (local : Dir) (rbuf : Bytes) where
  -- `if (f_open(&file, path, FA_READ) == FR_OK) { f_read(...); f_close(&file); }`
  unfoldable pub read_item : List ℕ → File → Script File
  unfolding run_on branch on_volume
  read_item path file =
      attempt (f_open signed_char file local path 1)
        (λ f. do
          t ←
              call (record { res = some invalid_object; file = f; buff = rbuf; count = 0 })
                λ g mounted. f_read g mounted f rbuf 512
          r ← call (some invalid_object, t.file) λ g mounted. f_close g mounted t.file
          return r.1)
        (return (record file { fs = none }))

  -- The bodies of the two loops.
  unfoldable pub visit_file : List ℕ → Filinfo → File → Script File
  unfolding read_item c_string
  visit_file path info file =
      if bit info.fattrib 4
      then return file
      else read_item (path ++ (0x2F ∷ c_string info.fname)) file

  unfoldable pub visit_directory : Filinfo → List ℕ → File → Script File
  unfolding visit_file visit_all branch
  visit_directory subfno path file =
      attempt (f_opendir signed_char local path) (visit_all (visit_file path) subfno file)
        (return file)

  unfoldable pub visit_item : Filinfo → Filinfo → File → Script File
  unfolding visit_directory read_item c_string
  visit_item subfno info file =
      let path = root_path ++ c_string info.fname in
      if bit info.fattrib 4 then visit_directory subfno path file else read_item path file

  -- "read path: walk root, read every regular file"
  unfoldable pub read_path : Filinfo → Filinfo → File → Script File
  unfolding visit_item visit_all branch
  read_path fno subfno file =
      attempt (f_opendir signed_char local root_path) (visit_all (visit_item subfno) fno file)
        (return file)

  -- "create/write/delete"
  unfoldable pub write_item : File → Script File
  unfolding run_on branch on_volume
  write_item file =
      attempt (f_open signed_char file local file_path 0xA)
        (λ f. do
          t ←
              call (record { res = some invalid_object; file = f; buff = probe; count = 0 })
                λ g mounted. f_write g mounted f probe 24
          r ← call (some invalid_object, t.file) λ g mounted. f_close g mounted t.file
          attempt (f_unlink signed_char local local file_path) (λ u. return r.1) (return r.1))
        (return (record file { fs = none }))

  unfoldable pub write_path : File → Script File
  unfolding write_item run_on branch
  write_path file = do
    f ← write_item file
    attempt (f_mkdir signed_char local directory_path) (λ u. return f) (return f)

  -- What is done with a mounted volume.
  unfoldable pub session : File → Filinfo → Filinfo → Script (Unit {0})
  unfolding read_path write_path run_on branch
  session file fno subfno = do
    f1 ← read_path fno subfno file
    f2 ← write_path f1
    attempt (f_mount none drive_path false) (λ u. return tt) (return tt)

  -- One round of the loop, for a test case of `len` bytes and the local objects.
  unfoldable pub iteration : Bytes → ℕ → Mount → File → Filinfo → Filinfo → Script (Unit {0})
  unfolding session branch
  iteration buf len fs file fno subfno s =
      attempt (f_mount (some fs) drive_path true) (λ u. session file fno subfno) (return tt)
        (load_drive (fuzz_disk_load buf len) s)
