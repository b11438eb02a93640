-- ===== src/Api/Creation/Sound.antt =====
-- What `f_mkdir` of ff.c leaves on the volume.
use zephyr_fatfs_aflplusplus.Base.{
  ℕ, ◌+◌, ◌<◌, ◌≡◌, inl, inr, refl, Bool, true, List, some, arith, ltb, ◌==◌, Bool-cases,
  if◌then◌else◌,
}
use zephyr_fatfs_aflplusplus.Diskio.{Bytes, memcpy}
use zephyr_fatfs_aflplusplus.Volume.{
  Geometry, Fatfs, Fresult, no_file, denied, int_err, disk_err, fail, return, throw, on_fail,
  put_byte,
}
use zephyr_fatfs_aflplusplus.Volume.Ends
use zephyr_fatfs_aflplusplus.Volume.Ends.{Ends, returns, fails}
use zephyr_fatfs_aflplusplus.Window.{st_dword}
use zephyr_fatfs_aflplusplus.Window.Laws.{IsSound}
use zephyr_fatfs_aflplusplus.Fat.{disk_error}
use zephyr_fatfs_aflplusplus.Fat.Entry.{HasFat}
use zephyr_fatfs_aflplusplus.Chain.{remove_chain}
use zephyr_fatfs_aflplusplus.Chain.Total.{create_chain_any}
use zephyr_fatfs_aflplusplus.Chain.Remove.{remove_chain-IsThinned}
use zephyr_fatfs_aflplusplus.Sync.Elsewhere.{sync_fs-IsSynced}
use zephyr_fatfs_aflplusplus.Dir.{Dir, Step, ok, halt, st_clust, dir_clear}
use zephyr_fatfs_aflplusplus.Dir.Start.{HasClusters}
use zephyr_fatfs_aflplusplus.Dir.Clear.{dir_clear-Elsewhere}
use zephyr_fatfs_aflplusplus.Dir.Register.{Registered, dir_register-Registered}
use zephyr_fatfs_aflplusplus.Mount.{Mount}
use zephyr_fatfs_aflplusplus.Diskio.{AreBytes}
use zephyr_fatfs_aflplusplus.Name.Letters.{AreChars, put_byte-AreBytes}
use zephyr_fatfs_aflplusplus.Name.Spelled.{Spelled, follow_path-Known}
use zephyr_fatfs_aflplusplus.File.{fat_time}
use zephyr_fatfs_aflplusplus.File.Extend.{poke-IsSound, memcpy-AreBytes}
use zephyr_fatfs_aflplusplus.File.Fields.{st_dword_bytes, st_clust_bytes}
use zephyr_fatfs_aflplusplus.Api.{system, expect}
use zephyr_fatfs_aflplusplus.Api.Calls.{Answers, with_rest-Answers}
use zephyr_fatfs_aflplusplus.Api.Creation.{
  dot_entries, directory_entry, fill_table, make_directory, mkdir_object, f_mkdir,
}
use zephyr_fatfs_aflplusplus.Api.Opening.Within.{get_ldnumber_chars}
use zephyr_fatfs_aflplusplus.Api.Opening.Made.{Sound}

st_dword-AreBytes : (p : Bytes) (k n : ℕ) → AreBytes p → AreBytes (st_dword p k n)
st_dword-AreBytes p k n h i = st_dword_bytes p k n i (h i)

module _ (g : Geometry) where
  st_clust-AreBytes : (p : Bytes) (d n : ℕ) → AreBytes p → AreBytes (st_clust g.fs_type p d n)
  st_clust-AreBytes p d n h i = st_clust_bytes g.fs_type p d n i (h i)

  dot_entries-AreBytes :
      (win : Bytes) (dcl pcl : ℕ) → AreBytes win → AreBytes (dot_entries g win dcl pcl)
  unfolding dot_entries
  dot_entries-AreBytes win dcl pcl h =
      let spaces : Bytes = λ i. if ltb i 11 then 0x20 else win i in
      let p1 = put_byte (put_byte spaces 0 0x2E) 11 0x10 in
      let h1 : AreBytes p1 =
        put_byte-AreBytes (put_byte spaces 0 0x2E) 11 0x10
          (put_byte-AreBytes spaces 0 0x2E (λ i. ground (arith, h i)) (omega arith))
          (omega arith) in
      let p2 = st_clust g.fs_type (st_dword p1 22 (fat_time g)) 0 dcl in
      let h2 : AreBytes p2 =
        st_clust-AreBytes (st_dword p1 22 (fat_time g)) 0 dcl
          (st_dword-AreBytes p1 22 (fat_time g) h1) in
      let p3 = put_byte (memcpy p2 32 p2 32) 33 0x2E in
      let h3 : AreBytes p3 =
        put_byte-AreBytes (memcpy p2 32 p2 32) 33 0x2E (memcpy-AreBytes p2 32 p2 32 h2 h2)
          (omega arith) in
      st_clust-AreBytes p3 32 pcl h3

  directory_entry-AreBytes :
      (p : Bytes) (d dcl : ℕ) → AreBytes p → AreBytes (directory_entry g p d dcl)
  unfolding directory_entry
  directory_entry-AreBytes p d dcl h =
      put_byte-AreBytes (st_clust g.fs_type (st_dword p (d + 22) (fat_time g)) d dcl) (d + 11) 0x10
        (st_clust-AreBytes (st_dword p (d + 22) (fat_time g)) d dcl
          (st_dword-AreBytes p (d + 22) (fat_time g) h))
        (omega arith)

module _ (g : Geometry) (has : HasFat g) (sized : HasClusters g)
    (some_cluster : 2 < g.n_fatent) where
  register-Sound :
      (v : Fatfs) (dp : Dir) (r : Step) (w : Fatfs)
      → Registered g v dp r w
      → Ends {A = Dir} Sound IsSound (expect r return w)
  register-Sound v dp (ok dp') w (u, new, _) = returns new.sound
  register-Sound v dp (halt e dp') w s = fails s

  clear_new :
      (dcl : ℕ) {v : Fatfs}
      → IsSound v
      → Ends Sound IsSound (
          (if dcl == 0
              then throw denied
              else if dcl == 1
              then throw int_err
              else if dcl == disk_error
              then throw disk_err
              else dir_clear g dcl)
            v)
  clear_new dcl s = elim (Bool-cases (dcl == 0)) [
    | inl full ↦ rw full (fails s)
    | inr made ↦ elim (Bool-cases (dcl == 1)) [
      | inl bad ↦ rw (made, bad) (fails s)
      | inr right ↦ elim (Bool-cases (dcl == disk_error)) [
        | inl bad ↦ rw (made, right, bad) (fails s)
        | inr fine ↦
            rw (made, right, fine)
              (Ends.mono (dir_clear-Elsewhere g has.placed (omega (arith, sized)) dcl s)
                (λ a w h. h.0) (λ w h. h.0))
      ]
    ]
  ]

  fill_table-Sound :
      (dp : Dir) (dcl : ℕ) {v : Fatfs}
      → IsSound v
      → AreBytes dp.fn
      → Ends Sound IsSound (fill_table g dp dcl v)
  unfolding fill_table
  fill_table-Sound dp dcl s bytes =
      Ends.bind (clear_new dcl s) (λ w sw. sw)
        λ _ w sw.
          Ends.bind
            (dir_register-Registered g has sized some_cluster dp
              (poke-IsSound w (dot_entries g w.win dcl dp.sclust)
                (dot_entries-AreBytes g w.win dcl dp.sclust sw.win_bytes) sw.disk_bytes)
              bytes)
            (λ u never. absurd never) λ r u h. register-Sound _ dp r u h

  freed-Sound :
      (dcl : ℕ) (e : Fresult) {w : Fatfs}
      → IsSound w
      → Ends {A = Unit {0}} Sound IsSound
          (on_fail (remove_chain g dcl 0 w) (λ _ u. fail e u) (λ _ u. fail e u))
  freed-Sound dcl e s =
      Ends.handle (remove_chain-IsThinned g has dcl 0 s (inl refl)) (λ e' u out. fails out.sound)
        (λ _ u (out, rest). fails out.sound)

  make_directory-Sound :
      (dp : Dir) {v : Fatfs}
      → IsSound v
      → AreBytes dp.fn
      → Ends Sound IsSound (make_directory g dp v)
  unfolding make_directory
  make_directory-Sound dp s bytes =
      Ends.bind (create_chain_any g has some_cluster 0 s) (λ w never. absurd never)
        λ dcl w sw.
          Ends.handle (fill_table-Sound dp dcl sw bytes) (λ e u su. freed-Sound dcl e su)
            λ d u su.
              let p = directory_entry g u.win d.dir dcl in
              let poked =
                poke-IsSound u p (directory_entry-AreBytes g u.win d.dir dcl su.win_bytes)
                  su.disk_bytes in
              Ends.mono (sync_fs-IsSynced g has.placed poked) (λ _ x h. h.sound)
                (λ x same. rw same poked)

  make_missing :
      (e : Fresult) (dp : Dir) {v : Fatfs}
      → IsSound v
      → (e ≡ no_file → AreBytes dp.fn)
      → Ends Sound IsSound (mkdir_object g (halt e dp) v)
  unfolding mkdir_object
  make_missing e dp {v} s =
      elim e
        as (λ e.
          (e ≡ no_file → AreBytes dp.fn) → Ends Sound IsSound (mkdir_object g (halt e dp) v)) [
            | no_file ↦ λ h. make_directory-Sound dp s (h refl)
            | other ↦ λ h. fails s
          ]

  mkdir_object-Sound :
      (r : Step) {v : Fatfs} → IsSound v → Spelled r → Ends Sound IsSound (mkdir_object g r v)
  unfolding mkdir_object
  mkdir_object-Sound (ok dp) s h = fails s
  mkdir_object-Sound (halt e dp) s h = make_missing e dp s h

  -- `f_mkdir` on a mounted volume returns on every path of bytes, and leaves a sound volume, its window
  -- and its drive in agreement, whether it succeeds, finds no room or fails on the way.
  pub f_mkdir-IsSound :
      (signed_char : Bool) (dj : Dir) (path : List ℕ) (m : Mount) (fsid : ℕ)
      → m.geometry ≡ some g
      → IsSound m.fs
      → AreBytes dj.fn
      → AreChars path
      → Answers (λ u w. IsSound w) IsSound m fsid (f_mkdir signed_char dj path (system m fsid))
  unfolding f_mkdir
  f_mkdir-IsSound signed_char dj path m fsid e s bytes chars =
      with_rest-Answers true path _ m fsid g e s λ rest is.
        Ends.bind
          (follow_path-Known g has sized signed_char dj rest s bytes
            (get_ldnumber_chars path rest chars is))
          (λ w never. absurd never) λ r w (k, spelled). mkdir_object-Sound r k.sound spelled
