-- ===== src/Harness/Ended.antt =====
-- The programs of harnesses/ that create a file or a directory: how an iteration ends.
use zephyr_fatfs_aflplusplus.Base.{
  ℕ, zero, suc, ◌==◌, ◌+◌, ◌%◌, ◌^◌, ◌<◌, ◌≤◌, ◌≡◌, refl, inl, inr, Bool, false, none, some, List,
  [], ◌∷◌, arith, ltb, Bool-cases,
}
use zephyr_fatfs_aflplusplus.Diskio.{Bytes, AreBytes, fuzz_disk_load, disk_size}
use zephyr_fatfs_aflplusplus.Volume.{Geometry, Fatfs}
use zephyr_fatfs_aflplusplus.Window.Laws.{IsSound}
use zephyr_fatfs_aflplusplus.Mount.{Mount, mounted, mount_volume}
use zephyr_fatfs_aflplusplus.Dir.{Dir}
use zephyr_fatfs_aflplusplus.Name.{nth}
use zephyr_fatfs_aflplusplus.Name.Letters.{AreChars, chars_head, chars_tail, nth_bound, all_bytes}
use zephyr_fatfs_aflplusplus.File.{File, f_close}
use zephyr_fatfs_aflplusplus.File.Write.{f_write}
use zephyr_fatfs_aflplusplus.File.Written.{f_write-IsWritten}
use zephyr_fatfs_aflplusplus.File.Closed.{f_close_any}
use zephyr_fatfs_aflplusplus.Api.{System, system, registered}
use zephyr_fatfs_aflplusplus.Api.Opening.Within.{f_open-IsWithin}
use zephyr_fatfs_aflplusplus.Api.Removal.{f_unlink}
use zephyr_fatfs_aflplusplus.Api.Removal.Unlinked.{f_unlink-IsUnlinked}
use zephyr_fatfs_aflplusplus.Api.Creation.{f_mkdir}
use zephyr_fatfs_aflplusplus.Api.Creation.Sound.{f_mkdir-IsSound}
use zephyr_fatfs_aflplusplus.Api.{f_mount}
use zephyr_fatfs_aflplusplus.Harness.{drive_path}
use zephyr_fatfs_aflplusplus.Script.{Script, ◌>>=◌}
use zephyr_fatfs_aflplusplus.Script.Runs.{Runs, ran, in_turn, both_branches, call-Runs}
use zephyr_fatfs_aflplusplus.Harness.{c_string, root_path}
use zephyr_fatfs_aflplusplus.Harness.Programs.{
  chars, path_at, try, create_file, on_clean, unlink_iteration,
}
use zephyr_fatfs_aflplusplus.Harness.Rounds.{IsUsable, IsIdle, idle, loaded-IsIdle}
use zephyr_fatfs_aflplusplus.Harness.Writes.{IsMounted}
use mathlib.Core.List.{◌++◌}

cons_chars : (c : ℕ) (cs : List ℕ) → c < 256 → AreChars cs → AreChars (c ∷ cs)
unfolding nth
cons_chars c cs low h zero = low
cons_chars c cs low h (suc n) = h n

chars_bytes : (buf : Bytes) (at n : ℕ) → AreBytes buf → AreChars (chars buf at n)
unfolding chars all_bytes
chars_bytes buf at zero h = nth_bound [] refl
chars_bytes buf at (suc n) h =
    cons_chars (buf at) (chars buf (at + 1) n) (h at) (chars_bytes buf (at + 1) n h)

c_string_chars : (cs : List ℕ) → AreChars cs → AreChars (c_string cs)
unfolding c_string all_bytes
c_string_chars [] h = h
c_string_chars (c ∷ cs) h = elim (Bool-cases (c == 0)) [
  | inl end ↦ rw end (nth_bound [] refl)
  | inr more ↦
      rw more
        (cons_chars c (c_string cs) (chars_head c cs h) (c_string_chars cs (chars_tail c cs h)))
]

-- The path of a program consists of bytes.
path_chars : (buf : Bytes) (at n : ℕ) → AreBytes buf → AreChars (path_at buf at n)
unfolding path_at all_bytes
path_chars buf at n h = c_string_chars (root_path ++ chars buf at n) (
    cons_chars 0x52 _ (omega arith) (
      cons_chars 0x41 _ (omega arith) (
        cons_chars 0x4D _ (omega arith) (
          cons_chars 0x3A _ (omega arith)
            (cons_chars 0x2F _ (omega arith) (chars_bytes buf at n h))))))

module _ (g : Geometry) (usable : IsUsable g) (m : Mount) (fsid : ℕ) (e : m.geometry ≡ some g)
    (signed_char : Bool) (local : Dir) (bytes : AreBytes local.fn) (rbuf clean : Bytes) (fs : Mount)
    (file : File) where
  -- A piece of a program that leaves the volume mounted and sound.
  abbrev pub IsSafe : {A : Type 0} → Script A → Type 0
  IsSafe run =
      (v : Fatfs)
      → IsSound v
      → Runs (λ a s. IsMounted m fsid s) (run (system (record m { fs = v }) fsid))

  -- The file is created or not, written and closed, whatever the rest does.
  create_file-IsSafe :
      (path : List ℕ) (src : Bytes) (n : ℕ) (rest : Script (Unit {0}))
      → AreChars path
      → AreBytes src
      → n < 2 ^ 32
      → IsSafe rest
      → IsSafe (create_file signed_char local rbuf clean fs file path src n rest)
  unfolding create_file
  create_file-IsSafe path src n rest letters kept small safe v s =
      both_branches _ _
        (f_open-IsWithin g usable.0 usable.1 usable.2 signed_char file local path 0xA
          (record m { fs = v }) fsid e s bytes letters)
        (λ f w (sw, within).
          in_turn
            (call-Runs _ (λ h mounted. f_write h mounted f src n) (record m { fs = w }) fsid g e
              (f_write-IsWritten g usable.0 usable.1 usable.2 (some m.id) f src n sw kept within
                small))
            λ t s1 (u, is, h). rw is (
              in_turn {Q = λ a s. IsMounted m fsid s}
                (in_turn
                  (call-Runs _ (λ h mounted. f_close h mounted t.file) (record m { fs = u }) fsid g
                    e (f_close_any g usable.0 (some m.id) t.file h.0))
                  λ r s2 h2. ran h2)
                λ r s2 (x, is2, sx). rw is2 (safe x sx)))
        (λ w sw. ran (w, refl, sw))

  -- A call that is made whatever it returns.
  deleted-IsSafe : (path : List ℕ) → IsSafe (try (f_unlink signed_char local local path))
  deleted-IsSafe path v s =
      both_branches _ _
        (f_unlink-IsUnlinked g usable.0 usable.1 signed_char local local path (record m { fs = v })
          fsid e s)
        (λ u w gone. ran (w, refl, gone.marked.sound)) (λ w (mark, k). ran (w, refl, k.sound))

  made-IsSafe : (path : List ℕ) → AreChars path → IsSafe (try (f_mkdir signed_char local path))
  made-IsSafe path letters v s =
      both_branches _ _
        (f_mkdir-IsSound g usable.0 usable.1 usable.2 signed_char local path (record m { fs = v })
          fsid e s bytes letters)
        (λ u w sw. ran (w, refl, sw)) (λ w sw. ran (w, refl, sw))

module _ (signed_char : Bool) (local : Dir) (bytes : AreBytes local.fn) (rbuf clean : Bytes)
    (fs : Mount) (file : File) (s : System) (letters : AreBytes fs.fs.win) (image : AreBytes clean)
    (usable : (m : Mount) (id : ℕ) (g : Geometry)
      → mount_volume false (registered fs (fuzz_disk_load clean disk_size)) s.fsid ≡ mounted m id
      → m.geometry ≡ some g
      → IsUsable g) where
  clean-IsIdle :
      (body : Script (Unit {0}))
      → ((m : Mount) (fsid : ℕ) (g : Geometry)
          → m.geometry ≡ some g
          → IsUsable g
          → IsSound m.fs
          → Runs (λ u s. IsMounted m fsid s) (body (system m fsid)))
      → Runs (λ u s. IsIdle s) (on_clean signed_char local rbuf clean fs file body s)
  unfolding on_clean
  clean-IsIdle body safe =
      loaded-IsIdle (body >>= λ u. try (f_mount none drive_path false))
        (λ m fsid g e ok sm. in_turn (safe m fsid g e ok sm) λ u s h. idle s) clean disk_size fs s
        letters image usable

  -- An iteration of harness_unlink.c, which creates the file, writes the test case to it and
  -- removes it, ends on every test case that is long enough, whatever the local variables have left
  -- of earlier ones (bytes, in the buffers of the window and of the directory object), if the
  -- volume of the image has its FATs on the drive, a cluster, and 1 to 255 sectors in a cluster. No
  -- volume is mounted behind it.
  pub unlink_iteration-IsIdle :
      (buf : Bytes) (len : ℕ)
      → AreBytes buf
      → len < 2 ^ 32
      → 2 ≤ len
      → 1 + (buf 0 % 16 + 1) ≤ len
      → Runs (λ u s. IsIdle s) (unlink_iteration signed_char local rbuf clean fs file buf len s)
  unfolding unlink_iteration
  unlink_iteration-IsIdle buf len h small some_bytes enough =
      let fname = path_at buf 1 (buf 0 % 16 + 1) in
      let long : ltb len 2 ≡ false = ground arith in
      let whole : ltb len (1 + (buf 0 % 16 + 1)) ≡ false = ground arith in
      rw (long, whole)
        (clean-IsIdle
          (create_file signed_char local rbuf clean fs file fname buf len
            (try (f_unlink signed_char local local fname)))
          λ m fsid g e ok sm.
            create_file-IsSafe g ok m fsid e signed_char local bytes rbuf clean fs file fname buf
              len (try (f_unlink signed_char local local fname))
              (path_chars buf 1 (buf 0 % 16 + 1) h) h small
              (deleted-IsSafe g ok m fsid e signed_char local bytes rbuf clean fs file fname) m.fs
              sm)
