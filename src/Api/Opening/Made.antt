-- ===== src/Api/Opening/Made.antt =====
-- `f_open` of ff.c in a mode that may create or empty the file.
use zephyr_fatfs_aflplusplus.Base.{
  ℕ, ◌+◌, ◌-◌, ◌<◌, ◌≡◌, inl, inr, refl, arith, ◌==◌, ◌||◌, Bool-cases, bit,
}
use zephyr_fatfs_aflplusplus.Diskio.{Bytes}
use zephyr_fatfs_aflplusplus.Volume.{Geometry, Fatfs, Fresult, no_file, return, put_byte}
use zephyr_fatfs_aflplusplus.Volume.Ends
use zephyr_fatfs_aflplusplus.Volume.Ends.{Ends, returns, fails}
use zephyr_fatfs_aflplusplus.Window.{st_dword}
use zephyr_fatfs_aflplusplus.Window.Laws.{IsSound, move_window-IsKept}
use zephyr_fatfs_aflplusplus.Fat.Entry.{HasFat}
use zephyr_fatfs_aflplusplus.Chain.Remove.{remove_chain-IsThinned}
use zephyr_fatfs_aflplusplus.Dir.{Dir, Step, ok, halt, ld_clust, st_clust}
use zephyr_fatfs_aflplusplus.Dir.Start.{HasClusters}
use zephyr_fatfs_aflplusplus.Dir.Register.{Registered, dir_register-Registered}
use zephyr_fatfs_aflplusplus.Diskio.{AreBytes}
use zephyr_fatfs_aflplusplus.Name.Letters.{put_byte-AreBytes}
use zephyr_fatfs_aflplusplus.Name.Spelled.{Spelled}
use zephyr_fatfs_aflplusplus.File.{fat_time}
use zephyr_fatfs_aflplusplus.File.Extend.{poke-IsSound}
use zephyr_fatfs_aflplusplus.File.Fields.{st_dword_bytes, st_clust_bytes}
use zephyr_fatfs_aflplusplus.Api.{expect}
use zephyr_fatfs_aflplusplus.Api.Opening.{
  emptied_entry, drop_chain, overwrite, create, create_or_overwrite, with_flag,
}

-- The volume is sound, whatever the result.
abbrev pub Sound : {A : Type 0} → A → Fatfs → Type 0
Sound a w = IsSound w

emptied_entry_bytes :
    (g : Geometry) (p : Bytes) (d : ℕ) → AreBytes p → AreBytes (emptied_entry g p d)
unfolding emptied_entry
emptied_entry_bytes g p d h =
    let p0 = st_dword p (d + 14) (fat_time g) in
    let p1 = st_dword p0 (d + 22) (fat_time g) in
    let p2 = put_byte p1 (d + 11) 0x20 in
    let h0 : AreBytes p0 = λ j. st_dword_bytes p (d + 14) (fat_time g) j (h j) in
    let h1 : AreBytes p1 = λ j. st_dword_bytes p0 (d + 22) (fat_time g) j (h0 j) in
    let h2 : AreBytes p2 = put_byte-AreBytes p1 (d + 11) 0x20 h1 (omega arith) in
    λ i.
      st_dword_bytes (st_clust g.fs_type p2 d 0) (d + 28) 0 i
        (st_clust_bytes g.fs_type p2 d 0 i (h2 i))

last_clst-IsSound : (v : Fatfs) (n : ℕ) → IsSound v → IsSound (record v { last_clst = n })
last_clst-IsSound v n s = record {
  coherent = s.coherent;
  win_bytes = s.win_bytes;
  disk_bytes = s.disk_bytes;
}

module _ (g : Geometry) (has : HasFat g) (sized : HasClusters g)
    (some_cluster : 2 < g.n_fatent) where
  drop_chain-Sound : (cl : ℕ) {v : Fatfs} → IsSound v → Ends Sound IsSound (drop_chain g cl v)
  unfolding drop_chain
  drop_chain-Sound cl {v} s =
      Ends.bind (remove_chain-IsThinned g has cl 0 s (inl refl)) (λ w out. out.sound)
        λ _ w (out, rest).
          Ends.handle (move_window-IsKept g has.placed v.winsect out.sound)
            (λ e u k. fails (last_clst-IsSound u (cl - 1) k.sound))
            (λ _ u (k, here). returns (last_clst-IsSound u (cl - 1) k.sound))

  overwrite-Sound : (dp : Dir) {v : Fatfs} → IsSound v → Ends Sound IsSound (overwrite g dp v)
  unfolding overwrite
  overwrite-Sound dp {v} s =
      let cl = ld_clust g.fs_type v.win dp.dir in
      let p = emptied_entry g v.win dp.dir in
      let poked = poke-IsSound v p (emptied_entry_bytes g v.win dp.dir s.win_bytes) s.disk_bytes in
      elim (Bool-cases (cl == 0)) [
        | inl none_yet ↦ rw none_yet (returns poked)
        | inr chain ↦ rw chain (drop_chain-Sound cl poked)
      ]

  registered_lem : (v : Fatfs) (dp : Dir) (r : Step) (w : Fatfs) → Registered g v dp r w → IsSound w
  registered_lem v dp (ok dp') w (u, new, _) = new.sound
  registered_lem v dp (halt e dp') w s = s

  made_or_not :
      (mode : ℕ) (r : Step) (w : Fatfs)
      → IsSound w
      → Ends {A = Dir × ℕ} Sound IsSound (expect r (λ dp'. return (dp', mode)) w)
  made_or_not mode (ok dp) w s = returns s
  made_or_not mode (halt e dp) w s = fails s

  make_missing :
      (mode : ℕ) (e : Fresult) (dp : Dir) {v : Fatfs}
      → IsSound v
      → (e ≡ no_file → AreBytes dp.fn)
      → Ends Sound IsSound (create g mode (halt e dp) v)
  unfolding create
  make_missing mode e dp {v} s =
      elim e
        as (λ e.
          (e ≡ no_file → AreBytes dp.fn) → Ends Sound IsSound (create g mode (halt e dp) v)) [
            | no_file ↦ λ bytes.
                Ends.bind (dir_register-Registered g has sized some_cluster dp s (bytes refl))
                  (λ w never. absurd never)
                  λ r w h. made_or_not (with_flag 3 mode) r w (registered_lem v dp r w h)
            | other ↦ λ bytes. fails s
          ]

  create-Sound :
      (mode : ℕ) (r : Step) {v : Fatfs}
      → IsSound v
      → Spelled r
      → Ends Sound IsSound (create g mode r v)
  unfolding create
  create-Sound mode (halt e dp) s spelled = make_missing mode e dp s spelled
  create-Sound mode (ok dp) s spelled = elim (Bool-cases (bit dp.attr 0 || bit dp.attr 4)) [
    | inl locked ↦ rw locked (fails s)
    | inr free ↦ elim (Bool-cases (bit mode 2)) [
      | inl new ↦ rw (free, new) (fails s)
      | inr old ↦ rw (free, old) (returns s)
    ]
  ]

  pub create_or_overwrite-Sound :
      (mode : ℕ) (r : Step) {v : Fatfs}
      → IsSound v
      → Spelled r
      → Ends Sound IsSound (create_or_overwrite g mode r v)
  unfolding create_or_overwrite
  create_or_overwrite-Sound mode r s spelled =
      Ends.bind (create-Sound mode r s spelled) (λ w sw. sw)
        λ made w sw. elim (Bool-cases (bit made.1 3)) [
          | inl empty ↦
              rw empty (Ends.bind (overwrite-Sound made.0 sw) (λ u su. su) λ _ u su. returns su)
          | inr keep ↦ rw keep (returns sw)
        ]
