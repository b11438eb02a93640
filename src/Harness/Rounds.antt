-- ===== src/Harness/Rounds.antt =====
-- One iteration of the loop of harness.c, from the test case to the end.
use zephyr_fatfs_aflplusplus.Script.{Script}
use zephyr_fatfs_aflplusplus.Base.{
  ℕ, ◌<◌, ◌≡◌, ◌⊎◌, inl, inr, refl, sym, subst, ◌∙◌, Bool, true, false, none, some, [],
  Option-cases, arith, ap, u16, ◌+◌,
}
use zephyr_fatfs_aflplusplus.Diskio.{Bytes, fuzz_disk_load}
use zephyr_fatfs_aflplusplus.Volume.{Geometry, Fatfs, Fresult, int_err}
use zephyr_fatfs_aflplusplus.Volume as Vol
use zephyr_fatfs_aflplusplus.Window.Laws.{IsSound}
use zephyr_fatfs_aflplusplus.Fat.Entry.{HasFat}
use zephyr_fatfs_aflplusplus.Mount.{Mount, Mounted, mounted, mount_volume}
use zephyr_fatfs_aflplusplus.Mount.Outcome.{Outcome, still, fresh, none_found, mount_volume-Outcome}
use zephyr_fatfs_aflplusplus.Dir.{Dir}
use zephyr_fatfs_aflplusplus.Dir.Start.{HasClusters}
use zephyr_fatfs_aflplusplus.Name.{Filinfo}
use zephyr_fatfs_aflplusplus.Diskio.{AreBytes}
use zephyr_fatfs_aflplusplus.File.{File}
use zephyr_fatfs_aflplusplus.Api.{
  System, Reply, success, error, system, conclude, on_mounted, with_volume, get_ldnumber, drive_of,
  registered, f_mount,
}
use zephyr_fatfs_aflplusplus.Api.Calls.{with_geometry}
use zephyr_fatfs_aflplusplus.Script.{return, attempt, branch, load_drive}
use zephyr_fatfs_aflplusplus.Script.Runs.{Runs, ran, in_turn}
use zephyr_fatfs_aflplusplus.Harness.{drive_path, session, iteration}
use zephyr_fatfs_aflplusplus.Harness.Reads.{read_path-IsSame}
use zephyr_fatfs_aflplusplus.Harness.Writes.{write_path-IsMounted}

-- No volume is mounted: no object is registered, or one that is not mounted.
abbrev pub IsIdle : System → Type 0
IsIdle s = (s.fat_fs ≡ none) ⊎ ((m : Mount) × (s.fat_fs ≡ some m) × (m.geometry ≡ none))

-- The FATs of the volume are on its drive, and it has a cluster.
abbrev pub IsUsable : Geometry → Type 0
IsUsable g = HasFat g × HasClusters g × (2 < g.n_fatent)

mount_now :
    (fs : Mount) (s : System)
    → f_mount (some fs) drive_path true s
      ≡ on_mounted
          (mount_volume false (registered fs (drive_of s)) s.fsid)
          []
          (λ g id p. Vol.return tt)
unfolding f_mount with_volume get_ldnumber
mount_now fs s = refl

unmount_now :
    (s : System)
    → f_mount none drive_path false s
      ≡ success tt (record { fat_fs = none; fsid = s.fsid; drive = drive_of s })
unfolding f_mount get_ldnumber
unmount_now s = refl

loaded :
    (disk : Bytes) (s : System)
    → ◌≡◌ {A = Bytes × ℕ} (drive_of (load_drive disk s), (load_drive disk s).fsid) (disk, s.fsid)
loaded disk s = elim (Option-cases s.fat_fs) [
  | inl none_yet ↦ rw none_yet refl
  | inr (m, e) ↦ rw e refl
]

loaded_bytes : (buf : Bytes) (len : ℕ) → AreBytes buf → AreBytes (fuzz_disk_load buf len)
unfolding fuzz_disk_load
loaded_bytes buf len kept a = ground (arith, kept a)

-- Behind the last statement of an iteration.
pub idle :
    (s : System)
    → Runs
        (λ u s. IsIdle s)
        (attempt (f_mount none drive_path false) (λ u. return tt) (return tt) s)
unfolding branch
idle s = rw (unmount_now s) (ran (inl refl))

-- A piece of a harness that ends an iteration on every volume that is mounted.
abbrev pub EndsOn : Script (Unit {0}) → Type 0
EndsOn run =
    (m : Mount) (fsid : ℕ) (g : Geometry)
    → m.geometry ≡ some g
    → IsUsable g
    → IsSound m.fs
    → Runs (λ u s. IsIdle s) (run (system m fsid))

module _ (run : Script (Unit {0})) (ends : EndsOn run) where
  -- Behind the attempt to mount.
  abbrev Onward : Reply (Unit {0}) → Type 0
  Onward r = Runs (λ u s. IsIdle s) (branch r (λ u. run) (return tt))

  mounted-IsIdle :
      (m : Mount) (fsid : ℕ) (r : Mounted)
      → m.geometry ≡ none
      → Outcome m fsid r
      → ((m' : Mount) (id : ℕ) (g : Geometry)
          → r ≡ mounted m' id
          → m'.geometry ≡ some g
          → IsUsable g)
      → Onward (on_mounted r [] (λ g id p. Vol.return tt))
  unfolding branch on_mounted conclude
  mounted-IsIdle m fsid r unmounted (still e) usable = absurd (ground (arith, e, unmounted))
  mounted-IsIdle m fsid r unmounted (none_found {m' = m'} how nowhere no_volume same c) usable =
      ran (inr (m', refl, no_volume))
  mounted-IsIdle m fsid r unmounted (fresh {m' = m'} bsect g boot read is id c) usable =
      subst (λ (r : Reply (Unit {0})). Onward r)
        (sym (
          with_geometry m'.geometry g (error int_err (system m' (u16 (fsid + 1))))
            (λ h. conclude m' (u16 (fsid + 1)) (Vol.return tt m'.fs)) is))
        (ends m' (u16 (fsid + 1)) g is (usable m' (u16 (fsid + 1)) g refl is) c.clean.sound)

  -- An iteration that loads a drive and mounts it.
  pub loaded-IsIdle :
      (buf : Bytes) (len : ℕ) (fs : Mount) (s : System)
      → AreBytes fs.fs.win
      → AreBytes buf
      → ((m : Mount) (id : ℕ) (g : Geometry)
          → mount_volume false (registered fs (fuzz_disk_load buf len)) s.fsid ≡ mounted m id
          → m.geometry ≡ some g
          → IsUsable g)
      → Runs
          (λ u s. IsIdle s)
          (attempt
            (f_mount (some fs) drive_path true)
            (λ u. run)
            (return tt)
            (load_drive (fuzz_disk_load buf len) s))
  loaded-IsIdle buf len fs s letters kept usable =
      let disk = fuzz_disk_load buf len in
      let m = registered fs disk in
      let there : f_mount (some fs) drive_path true (load_drive disk s)
          ≡ on_mounted (mount_volume false m s.fsid) [] (λ g id p. Vol.return tt) =
        mount_now fs (load_drive disk s)
        ∙ ap
            (λ (q : Bytes × ℕ).
              on_mounted (mount_volume false (registered fs q.0) q.1) [] (λ g id p. Vol.return tt))
            (loaded disk s) in
      subst (λ (r : Reply (Unit {0})). Onward r) (sym there)
        (mounted-IsIdle m s.fsid (mount_volume false m s.fsid) refl
          (mount_volume-Outcome false m s.fsid letters (loaded_bytes buf len kept)) usable)

module _ (signed_char : Bool) (local : Dir) (bytes : AreBytes local.fn) (rbuf : Bytes) where
  session-IsIdle :
      (file : File) (fno subfno : Filinfo) (m : Mount) (fsid : ℕ) (g : Geometry)
      → m.geometry ≡ some g
      → IsUsable g
      → IsSound m.fs
      → Runs (λ u s. IsIdle s) (session signed_char local rbuf file fno subfno (system m fsid))
  unfolding session
  session-IsIdle file fno subfno m fsid g e (has, sized, some_cluster) s =
      in_turn (read_path-IsSame g has sized m fsid e signed_char local rbuf fno subfno file s)
        λ f1 s1 (v, is, k). rw is (
          in_turn
            (write_path-IsMounted g has sized some_cluster (record m { fs = v }) fsid e signed_char
              local bytes rbuf f1 k.sound)
            λ f2 s2 h. idle s2)

  -- An iteration of harness.c ends on every test case, whatever the local variables have left of
  -- earlier ones (bytes, in the buffers of the window and of the directory object), if a volume that
  -- it mounts has its FATs on the drive, a cluster, and 1 to 255 sectors in a cluster: every loop of
  -- the functions that it calls comes to an end. No volume is mounted behind it, though the object
  -- stays registered where there was none to mount.
  pub iteration-IsIdle :
      (buf : Bytes) (len : ℕ) (fs : Mount) (file : File) (fno subfno : Filinfo) (s : System)
      → AreBytes fs.fs.win
      → AreBytes buf
      → ((m : Mount) (id : ℕ) (g : Geometry)
          → mount_volume false (registered fs (fuzz_disk_load buf len)) s.fsid ≡ mounted m id
          → m.geometry ≡ some g
          → IsUsable g)
      → Runs (λ u s. IsIdle s) (iteration signed_char local rbuf buf len fs file fno subfno s)
  unfolding iteration
  iteration-IsIdle buf len fs file fno subfno s letters kept usable =
      loaded-IsIdle (session signed_char local rbuf file fno subfno)
        (λ m fsid g e ok sm. session-IsIdle file fno subfno m fsid g e ok sm) buf len fs s letters
        kept usable
