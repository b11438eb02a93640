-- ===== src/Harness/Reads.antt =====
-- The read path of harness.c: it looks at every item of the root directory and of its sub-directories.
use mathlib.Core.List.{◌++◌}
use zephyr_fatfs_aflplusplus.File.Fields.{ld_dword_bound}
use zephyr_fatfs_aflplusplus.Base.{
  ℕ, ◌+◌, ◌^◌, ◌<◌, ◌≤◌, ◌≡◌, ◌∙◌, ap, inl, inr, Bool, false, Option, some, List, ◌∷◌, arith,
  Bool-cases, refl, sym, subst, bit,
}
use zephyr_fatfs_aflplusplus.Diskio.{Bytes}
use zephyr_fatfs_aflplusplus.Volume.{Geometry, Fatfs, invalid_object}
use zephyr_fatfs_aflplusplus.Volume.Ends.{Ends, returns}
use zephyr_fatfs_aflplusplus.Window.Laws.{IsSound, IsKept-refl, IsKept-trans}
use zephyr_fatfs_aflplusplus.Fat.Entry.{HasFat}
use zephyr_fatfs_aflplusplus.Fat.Get.{Never}
use zephyr_fatfs_aflplusplus.Mount.{Mount}
use zephyr_fatfs_aflplusplus.Dir.{Dir}
use zephyr_fatfs_aflplusplus.Dir.Start.{HasClusters}
use zephyr_fatfs_aflplusplus.Name.{Filinfo}
use zephyr_fatfs_aflplusplus.File.{File, validate, f_read, f_sync, f_close}
use zephyr_fatfs_aflplusplus.File.Read.{f_read-Counted}
use zephyr_fatfs_aflplusplus.Api.{system}
use zephyr_fatfs_aflplusplus.Api.Lookup.{Handle, f_opendir, f_closedir}
use zephyr_fatfs_aflplusplus.Api.Lookup.Kept.{f_opendir_start}
use zephyr_fatfs_aflplusplus.Api.Opening.Kept.{IsOpened, f_open-IsOpened}
use zephyr_fatfs_aflplusplus.Script.{Script, return, attempt}
use zephyr_fatfs_aflplusplus.Harness.{
  c_string, read_item, visit_all, close_directory, visit_file, visit_item, visit_directory,
  root_path, read_path,
}
use zephyr_fatfs_aflplusplus.Script.Runs.{Runs, ran, in_turn, both_branches, call-Runs}
use zephyr_fatfs_aflplusplus.Harness.Listing.{IsSame, IsQuiet, then-IsQuiet, whole_table-IsQuiet}

-- A file that has not changed is closed without a write.
f_close_unchanged :
    (g : Geometry) (mounted : Option ℕ) (f : File) (v : Fatfs)
    → bit f.flag 6 ≡ false
    → Ends (λ r w. w ≡ v) Never (f_close g mounted f v)
unfolding f_close f_sync
f_close_unchanged g mounted f v same = elim (Bool-cases (validate mounted v.disk f.fs)) [
  | inl valid ↦ rw (valid, same, valid) (returns refl)
  | inr bad ↦ rw bad (returns refl)
]

f_closedir_same :
    (mounted : Option ℕ) (d : Handle) (v : Fatfs)
    → Ends (λ r w. w ≡ v) Never (f_closedir mounted d v)
unfolding f_closedir
f_closedir_same mounted d v = elim (Bool-cases (validate mounted v.disk d.fs)) [
  | inl valid ↦ rw valid (returns refl)
  | inr bad ↦ rw bad (returns refl)
]

module _ (g : Geometry) (has : HasFat g) (sized : HasClusters g) (m : Mount) (fsid : ℕ)
    (e : m.geometry ≡ some g) (signed_char : Bool) (local : Dir) (rbuf : Bytes) where
  -- The file that `f_open` gives for reading has a size and no changes.
  opened_size :
      (f : File) {v : Fatfs} → IsOpened g v m.id 1 f → (f.fptr ≤ f.objsize) × (f.objsize < 2 ^ 32)
  opened_size f o =
      let low : f.objsize < 2 ^ 32 =
        subst (λ n. n < 2 ^ 32) (sym o.objsize)
          (ld_dword_bound o.u.win (o.dp.dir + 28) o.kept.sound.win_bytes) in
      (elim o.fptr [ inl top ↦ omega arith | inr end ↦ omega arith ], low)

  read_item-IsQuiet :
      (path : List ℕ) (file : File) → IsQuiet g m fsid (read_item signed_char local rbuf path file)
  unfolding read_item
  read_item-IsQuiet path file v kept =
      both_branches _ _
        (f_open-IsOpened g has sized signed_char file local path 1 (record m { fs = v }) fsid e
          kept.sound refl)
        (λ f w (k, o).
          in_turn
            (call-Runs _ (λ h mounted. f_read h mounted f rbuf 512) (record m { fs = w }) fsid g e
              (f_read-Counted g has sized (some m.id) f rbuf 512 k.sound (opened_size f o)))
            λ t s (u, is, c). rw is (
              in_turn
                (call-Runs _ (λ h mounted. f_close h mounted t.file) (record m { fs = u }) fsid g e
                  (f_close_unchanged g (some m.id) t.file u (ap (λ n. bit n 6) (c.2 ∙ o.flag))))
                λ r s2 (x, is2, same).
                  rw (is2, same) (ran (u, refl, IsKept-trans g (IsKept-trans g kept k) c.0))))
        (λ w k. ran (w, refl, IsKept-trans g kept k))

  close_directory-IsQuiet : (r : Handle × File) → IsQuiet g m fsid (close_directory r)
  unfolding close_directory
  close_directory-IsQuiet (d, file) w k =
      in_turn
        (call-Runs (some invalid_object, d) (λ h mounted. f_closedir mounted d)
          (record m { fs = w }) fsid g e (f_closedir_same (some m.id) d w))
        λ c s (x, is, same). rw (is, same) (ran (w, refl, k))

  -- An open directory at the start of its table.
  visit_all-IsQuiet :
      (visit : Filinfo → File → Script File)
      → ((i : Filinfo) (f : File) → IsQuiet g m fsid (visit i f))
      → (fno : Filinfo) (file : File) (d : Handle) → d.dir.dptr ≡ 0
      → IsQuiet g m fsid (visit_all visit fno file d)
  unfolding visit_all
  visit_all-IsQuiet visit quiet fno file d start v kept =
      then-IsQuiet g has m fsid e close_directory
        (whole_table-IsQuiet g has m fsid e visit quiet d fno file (omega arith) v kept)
        λ r. close_directory-IsQuiet r

  opened_directory-IsQuiet :
      (visit : Filinfo → File → Script File)
      → ((i : Filinfo) (f : File) → IsQuiet g m fsid (visit i f))
      → (path : List ℕ) (fno : Filinfo) (file : File)
      → IsQuiet g m fsid
          (attempt (f_opendir signed_char local path) (visit_all visit fno file) (return file))
  opened_directory-IsQuiet visit quiet path fno file v kept =
      both_branches _ _
        (f_opendir_start g has sized signed_char local path (record m { fs = v }) fsid e kept.sound)
        (λ d w (k, fs, start).
          visit_all-IsQuiet visit quiet fno file d start w (IsKept-trans g kept k))
        (λ w k. ran (w, refl, IsKept-trans g kept k))

  visit_file-IsQuiet :
      (path : List ℕ) (i : Filinfo) (f : File)
      → IsQuiet g m fsid (visit_file signed_char local rbuf path i f)
  unfolding visit_file
  visit_file-IsQuiet path i f v kept = elim (Bool-cases (bit i.fattrib 4)) [
    | inl dir ↦ rw dir (ran (v, refl, kept))
    | inr file ↦ rw file (read_item-IsQuiet (path ++ (0x2F ∷ c_string i.fname)) f v kept)
  ]

  visit_directory-IsQuiet :
      (subfno : Filinfo) (path : List ℕ) (file : File)
      → IsQuiet g m fsid (visit_directory signed_char local rbuf subfno path file)
  unfolding visit_directory
  visit_directory-IsQuiet subfno path file =
      opened_directory-IsQuiet (visit_file signed_char local rbuf path) (visit_file-IsQuiet path)
        path subfno file

  visit_item-IsQuiet :
      (subfno i : Filinfo) (f : File)
      → IsQuiet g m fsid (visit_item signed_char local rbuf subfno i f)
  unfolding visit_item
  visit_item-IsQuiet subfno i f v kept =
      let path = root_path ++ c_string i.fname in
      elim (Bool-cases (bit i.fattrib 4)) [
        | inl dir ↦ rw dir (visit_directory-IsQuiet subfno path f v kept)
        | inr file ↦ rw file (read_item-IsQuiet path f v kept)
      ]

  -- The read path of an iteration of harness.c, on a sound volume that is mounted, ends whatever
  -- the directories and files on it hold: the loops over the root directory and over each
  -- sub-directory come to an end, and every open, read and close returns. The volume stays mounted,
  -- and none of its bytes outside a second FAT has changed.
  pub read_path-IsSame :
      (fno subfno : Filinfo) (file : File)
      → IsSound m.fs
      → Runs
          (λ f s. IsSame g m fsid s)
          (read_path signed_char local rbuf fno subfno file (system m fsid))
  unfolding read_path
  read_path-IsSame fno subfno file s =
      opened_directory-IsQuiet (visit_item signed_char local rbuf subfno)
        (visit_item-IsQuiet subfno) root_path fno file m.fs (IsKept-refl g s)
