-- ===== src/Api/Opening/Kept.antt =====
-- `f_open` of ff.c in the modes that do not create.
use zephyr_fatfs_aflplusplus.Base.{
  ℕ, zero, suc, ◌+◌, ◌-◌, ◌*◌, ◌%◌, ◌<◌, ◌≡◌, refl, sym, ◌∙◌, ◌⊎◌, inl, inr, Bool, true, false,
  none, some, List, arith, ltb, leb, ◌==◌, ◌&&◌, Bool-cases, u32, bit,
}
use mathlib.Core.Bool.{true≢false}
use zephyr_fatfs_aflplusplus.Volume.{Geometry, Fatfs}
use zephyr_fatfs_aflplusplus.Volume.Ends
use zephyr_fatfs_aflplusplus.Volume.Ends.{Ends, returns, fails}
use zephyr_fatfs_aflplusplus.Window.{clst2sect, ld_dword}
use zephyr_fatfs_aflplusplus.Window.Laws.{IsSound, IsKept, IsKept-refl, IsKept-trans}
use zephyr_fatfs_aflplusplus.Fat.{disk_error}
use zephyr_fatfs_aflplusplus.Fat.Entry.{HasFat}
use zephyr_fatfs_aflplusplus.Dir.{Dir, Step, ok, halt, ld_clust}
use zephyr_fatfs_aflplusplus.Fat.Any.{get_fat_any}
use zephyr_fatfs_aflplusplus.Dir.Start.{HasClusters}
use zephyr_fatfs_aflplusplus.Name.Walk.{IsEntry}
use zephyr_fatfs_aflplusplus.File.{File}
use zephyr_fatfs_aflplusplus.Mount.{Mount}
use zephyr_fatfs_aflplusplus.Api.{system}
use zephyr_fatfs_aflplusplus.Api.Calls.{Answers, with_volume-Answers}
use zephyr_fatfs_aflplusplus.Api.Lookup.{is_noname, is_directory}
use zephyr_fatfs_aflplusplus.Api.Lookup.Kept.{Walked, follow_path-Walked}
use zephyr_fatfs_aflplusplus.Api.Opening.{
  may_create, named_object, open_existing, file_of, seek_end, append, set_up, f_open, open_mode,
  open_object,
}

-- The file is that of an entry with the name of the object, which is no directory, and not read-only
-- if it is opened to write. `u` is the volume with this entry in the window.
pub record IsOpened (g : Geometry) (v : Fatfs) (id mode : ℕ) (f : File) : Type 0 where
  pub u : Fatfs
  pub dp : Dir
  pub kept : IsKept g v u
  pub entry : IsEntry dp u
  pub file : is_directory dp ≡ false
  pub writable : bit mode 1 ≡ true → bit dp.attr 0 ≡ false
  pub fs : f.fs ≡ some id
  pub flag : f.flag ≡ mode
  pub fine : f.err ≡ none
  pub sclust : f.sclust ≡ ld_clust g.fs_type u.win dp.dir
  pub objsize : f.objsize ≡ ld_dword u.win (dp.dir + 28)
  pub fptr : (f.fptr ≡ 0) ⊎ (f.fptr ≡ f.objsize)
  pub dir_sect : f.dir_sect ≡ dp.sect
  pub dir_ptr : f.dir_ptr ≡ dp.dir

module _ (g : Geometry) (has : HasFat g) (sized : HasClusters g) where
  pub seek_end-Ends :
      (fuel clst ofs : ℕ) {v w : Fatfs}
      → IsKept g v w
      → ofs < fuel
      → Ends (λ p u. IsKept g v u) (IsKept g v) (seek_end g fuel clst ofs w)
  unfolding seek_end
  seek_end-Ends zero clst ofs kept enough = absurd (omega arith)
  seek_end-Ends (suc fuel) clst ofs {v} {w} kept enough =
      let positive : 0 < u32 (g.csize * 512) = omega (arith, sized) in
      elim (Bool-cases (leb ofs (u32 (g.csize * 512)))) [
        | inl here ↦ rw here (returns kept)
        | inr on ↦ rw on (
            Ends.bind (get_fat_any g has clst kept.sound) (λ u never. absurd never)
              λ nxt u (k, got).
                let kept' = IsKept-trans g kept k in
                elim (Bool-cases (nxt == disk_error)) [
                  | inl bad ↦ rw bad (fails kept')
                  | inr good ↦ elim (Bool-cases (leb nxt 1)) [
                    | inl bad ↦ rw (good, bad) (fails kept')
                    | inr fine ↦
                        rw (good, fine)
                          (seek_end-Ends fuel nxt (ofs - u32 (g.csize * 512)) kept' (ground arith))
                  ]
                ])
      ]

  at_end-IsOpened :
      (f : File) (id mode clust sect : ℕ) {v : Fatfs}
      → IsOpened g v id mode f
      → IsOpened g v id mode (record f { fptr = f.objsize; clust = clust; sect = sect })
  at_end-IsOpened f id mode clust sect o = record {
    u = o.u;
    dp = o.dp;
    kept = o.kept;
    entry = o.entry;
    file = o.file;
    writable = o.writable;
    fs = o.fs;
    flag = o.flag;
    fine = o.fine;
    sclust = o.sclust;
    objsize = o.objsize;
    fptr = inr refl;
    dir_sect = o.dir_sect;
    dir_ptr = o.dir_ptr;
  }

  append-IsOpened :
      (f : File) (id mode : ℕ) {v w : Fatfs}
      → IsKept g v w
      → IsOpened g v id mode f
      → Ends (λ f' u. IsKept g v u × IsOpened g v id mode f') (IsKept g v) (append g f w)
  unfolding append
  append-IsOpened f id mode kept o =
      Ends.bind (seek_end-Ends (suc f.objsize) f.sclust f.objsize kept (omega arith)) (λ u k. k)
        λ last u k. elim (Bool-cases (last.1 % 512 == 0)) [
          | inl edge ↦ rw edge (returns (k, at_end-IsOpened f id mode last.0 f.sect o))
          | inr inside ↦ elim (Bool-cases (clst2sect g last.0 == 0)) [
            | inl bad ↦ rw (inside, bad) (fails k)
            | inr good ↦ rw (inside, good) (returns (k, at_end-IsOpened f id mode last.0 _ o))
          ]
        ]

  file_of-IsOpened :
      (fp : File) (id mode : ℕ) (dp : Dir) {v w : Fatfs}
      → IsKept g v w
      → IsEntry dp w
      → is_directory dp ≡ false
      → (bit mode 1 && bit dp.attr 0) ≡ false
      → bit mode 3 ≡ false
      → IsOpened g v id mode (file_of g fp id dp mode w)
  unfolding file_of
  file_of-IsOpened fp id mode dp {v} {w} kept at file allowed existing = record {
    u = w;
    dp = dp;
    kept = kept;
    entry = at;
    file = file;
    writable = λ e. ground arith;
    fs = refl;
    flag = rw existing refl;
    fine = refl;
    sclust = refl;
    objsize = refl;
    fptr = inl refl;
    dir_sect = at.0;
    dir_ptr = refl;
  }

  set_up-IsOpened :
      (fp : File) (id mode : ℕ) (dp : Dir) {v w : Fatfs}
      → IsKept g v w
      → IsOpened g v id mode (file_of g fp id dp mode w)
      → Ends
          (λ f u. IsKept g v u × IsOpened g v id mode f)
          (IsKept g v)
          (set_up g fp id (dp, mode) w)
  unfolding set_up
  set_up-IsOpened fp id mode dp {v} {w} kept o =
      let f = file_of g fp id dp mode w in
      elim (Bool-cases (bit mode 5 && ltb 0 f.objsize)) [
        | inl seek ↦ rw seek (append-IsOpened f id mode kept o)
        | inr stay ↦ rw stay (returns (kept, o))
      ]

  open_existing-IsOpened :
      (fp : File) (id mode : ℕ) (r : Step) (w : Fatfs) {v : Fatfs}
      → Walked g v r w
      → may_create mode ≡ false
      → Ends
          (λ f u. IsKept g v u × IsOpened g v id mode f)
          (IsKept g v)
          (open_object g fp id mode (named_object r) w)
  unfolding open_object open_existing named_object
  open_existing-IsOpened fp id mode (halt e dp) w kept existing = rw existing (fails kept)
  open_existing-IsOpened fp id mode (ok dp) w {v} (kept, at) existing =
      elim (Bool-cases (is_noname dp)) [
        | inl top ↦ rw (existing, top) (fails kept)
        | inr named ↦ elim (Bool-cases (is_directory dp)) [
          | inl table ↦ rw (existing, named, table) (fails kept)
          | inr file ↦ elim (Bool-cases (bit mode 1 && bit dp.attr 0)) [
            | inl locked ↦ rw (existing, named, file, locked) (fails kept)
            | inr allowed ↦
                rw (existing, named, file, allowed)
                  (set_up-IsOpened fp id mode dp kept (
                    file_of-IsOpened fp id mode dp kept (entry named at) file allowed
                      (ground arith)))
          ]
        ]
      ]
    where
      entry : is_noname dp ≡ false → IsEntry dp w ⊎ (is_noname dp ≡ true) → IsEntry dp w
      entry named (inl at) = at
      entry named (inr top) = absurd (true≢false (sym top ∙ named))

  pub f_open-IsOpened :
      (signed_char : Bool) (fp : File) (dj : Dir) (path : List ℕ) (mode : ℕ) (m : Mount) (fsid : ℕ)
      → m.geometry ≡ some g
      → IsSound m.fs
      → may_create (open_mode mode) ≡ false
      → Answers
          (λ f w. IsKept g m.fs w × IsOpened g m.fs m.id (open_mode mode) f)
          (IsKept g m.fs)
          m
          fsid
          (f_open signed_char fp dj path mode (system m fsid))
  unfolding f_open
  f_open-IsOpened signed_char fp dj path mode m fsid e s existing =
      with_volume-Answers _ path _ m fsid g e (IsKept-refl g s) λ rest.
        Ends.bind (follow_path-Walked g has sized signed_char dj rest s) (λ w never. absurd never)
          λ r w walked. open_existing-IsOpened fp m.id (open_mode mode) r w walked existing
