-- ===== src/File/Moved.antt =====
-- Where `f_lseek` of ff.c leaves the pointer of a file.
use zephyr_fatfs_aflplusplus.Base.{
  ℕ, suc, ◌-◌, ◌/◌, ◌<◌, ◌≤◌, ◌≡◌, refl, inl, inr, not, Option, none, some, arith, ltb, leb, ◌==◌,
  ◌&&◌, if◌then◌else◌, Bool-cases, Option-cases, bit,
}
use zephyr_fatfs_aflplusplus.Volume.{Geometry, Fatfs, Fresult, invalid_object, done, ◌>>=◌, return}
use zephyr_fatfs_aflplusplus.Volume.Ends
use zephyr_fatfs_aflplusplus.Volume.Ends.{Ends, returns}
use zephyr_fatfs_aflplusplus.Window.Laws.{IsSound, IsKept, IsKept-refl}
use zephyr_fatfs_aflplusplus.Fat.{disk_error}
use zephyr_fatfs_aflplusplus.Fat.Entry.{HasFat}
use zephyr_fatfs_aflplusplus.Fat.Get.{Never}
use zephyr_fatfs_aflplusplus.Chain.Total.{create_chain_any}
use zephyr_fatfs_aflplusplus.Dir.Start.{HasClusters}
use zephyr_fatfs_aflplusplus.File.{File, validate}
use zephyr_fatfs_aflplusplus.File.Seek.{
  Sought, sought, lost, cluster_bytes, cluster_start, seek_from_top, seek, settle_seek, f_lseek,
}
use zephyr_fatfs_aflplusplus.File.Sought.{
  HasPower, IsReading, SoughtTo, cluster_start-le, seek_loop-SoughtTo,
}

-- The offset that a seek is for: within the file unless it is open to write.
abbrev pub seek_target : File → ℕ → ℕ
seek_target f ofs = if ltb f.objsize ofs && not (bit f.flag 1) then f.objsize else ofs

-- What a seek for an offset returns. If it succeeds the pointer is not past the target, and the size
-- has grown to it if it is larger.
abbrev pub HasMoved : Geometry → Fatfs → File → ℕ → Option Fresult × File → Fatfs → Type 0
HasMoved g v f target (res, f') w =
    IsSound w
    × (IsReading f → IsKept g v w)
    × (res ≡ none
        → (f'.fptr ≤ target)
          × (f'.objsize ≡ (if ltb f.objsize f'.fptr then f'.fptr else f.objsize))
          × (IsReading f → f'.fptr ≡ target))

-- The file that a seek returns: not past the target, and as large as before or as its pointer.
abbrev pub HasGrown : File → ℕ → Option Fresult × File → Type 0
HasGrown f target (none, f') =
    (f'.fptr ≤ target) × (f'.objsize ≡ (if ltb f.objsize f'.fptr then f'.fptr else f.objsize))
HasGrown f target (some e, f') = Unit {0}

-- At the offset, or at the end of the file, with its size.
abbrev pub IsAt : File → ℕ → Option Fresult × File → Type 0
IsAt f ofs (none, f') =
    (f'.fptr ≡ (if ltb f.objsize ofs then f.objsize else ofs)) × (f'.objsize ≡ f.objsize)
IsAt f ofs (some e, f') = Unit {0}

module _ (g : Geometry) (has : HasFat g) (sized : HasClusters g)
    (some_cluster : 2 < g.n_fatent) where
  seek_from_top-SoughtTo :
      (f : File) (ofs : ℕ) {v : Fatfs}
      → IsSound v
      → Ends (SoughtTo g v f ofs) Never (seek_from_top g (record f { fptr = 0 }) ofs v)
  unfolding seek_from_top
  seek_from_top-SoughtTo f ofs {v} s = elim (Bool-cases (f.sclust == 0)) [
    | inl none_yet ↦
        let writes : (w : Fatfs) → IsReading f → IsKept g v w =
          λ w r. absurd (r.1 (ground arith)) in
        rw none_yet (
          Ends.bind (create_chain_any g has some_cluster 0 s) (λ w never. never)
            λ clst w sw. elim (Bool-cases (clst == 1)) [
              | inl bad ↦ rw bad (returns (sw, writes w))
              | inr right ↦ elim (Bool-cases (clst == disk_error)) [
                | inl bad ↦ rw (right, bad) (returns (sw, writes w))
                | inr fine ↦ elim (Bool-cases (clst == 0)) [
                  | inl full ↦
                      rw (right, fine, full)
                        (returns (sw, omega arith, refl, λ r. absurd (r.1 (ground arith))))
                  | inr made ↦
                      rw (right, fine, made)
                        (seek_loop-SoughtTo g has sized some_cluster (suc ofs) f ofs
                          (record f { fptr = 0; sclust = clst; clust = clst }) clst ofs
                          (record {
                            sound = sw;
                            left = omega arith;
                            objsize = refl;
                            flag = refl;
                            kept = writes w;
                          })
                          (omega arith))
                ]
              ]
            ])
    | inr chain ↦ rw chain (
        seek_loop-SoughtTo g has sized some_cluster (suc ofs) f ofs
          (record f { fptr = 0; clust = f.sclust }) f.sclust ofs
          (record {
            sound = s;
            left = omega arith;
            objsize = refl;
            flag = refl;
            kept = λ r. IsKept-refl g s;
          })
          (omega arith))
  ]

  seek-SoughtTo :
      (power : HasPower g) (f : File) (target : ℕ) {v : Fatfs}
      → IsSound v
      → Ends (SoughtTo g v f target) Never (seek g f target v)
  unfolding seek
  seek-SoughtTo power f target {v} s = elim (Bool-cases (target == 0)) [
    | inl top ↦ rw top (returns (s, omega arith, refl, λ r. (IsKept-refl g s, ground arith)))
    | inr on ↦
        elim (Bool-cases
          (ltb 0 f.fptr && leb ((f.fptr - 1) / cluster_bytes g) ((target - 1) / cluster_bytes g))) [
            | inr back ↦ rw (on, back) (seek_from_top-SoughtTo f target s)
            | inl forth ↦
                let low : cluster_start g f.fptr ≤ target =
                  cluster_start-le g has sized some_cluster power f.fptr target (ground arith)
                    (ground arith) (ground arith) in
                elim (Bool-cases (f.clust == 0)) [
                  | inl nowhere ↦
                      rw (on, forth, nowhere)
                        (returns (s, low, refl, λ r. absurd (r.2 (ground arith))))
                  | inr here ↦
                      rw (on, forth, here)
                        (seek_loop-SoughtTo g has sized some_cluster (suc target) f target
                          (record f { fptr = cluster_start g f.fptr }) f.clust
                          (target - cluster_start g f.fptr)
                          (record {
                            sound = s;
                            left = omega arith;
                            objsize = refl;
                            flag = refl;
                            kept = λ r. IsKept-refl g s;
                          })
                          (omega arith))
                ]
          ]
  ]

  settle_seek-HasMoved :
      (f : File) (target : ℕ) (q : Sought) (v w : Fatfs)
      → SoughtTo g v f target q w
      → HasMoved g v f target (settle_seek g q) w
  unfolding settle_seek
  settle_seek-HasMoved f target (lost e f') v w (s, kept) = (s, kept, λ e. absurd (ground arith))
  settle_seek-HasMoved f target (sought f' n) v w (s, low, size, exact) = (
    s,
    λ r. (exact r).0,
    λ e. (ground (arith, low), ground (arith, size), λ r. ground (arith, (exact r).1)),
  )

  HasMoved-HasGrown :
      {v : Fatfs} (f : File) (target : ℕ) (r : Option Fresult × File) (w : Fatfs)
      → HasMoved g v f target r w
      → HasGrown f target r
  HasMoved-HasGrown f target (none, f') w h = ((h.2 refl).0, (h.2 refl).1)
  HasMoved-HasGrown f target (some e, f') w h = tt

  HasMoved-IsAt :
      {v : Fatfs} (f : File) (ofs : ℕ)
      → IsReading f
      → (r : Option Fresult × File) (w : Fatfs) → HasMoved g v f (seek_target f ofs) r w
      → IsAt f ofs r
  HasMoved-IsAt f ofs reading (none, f') w h =
      let (low, size, at) = h.2 refl in
      (ground (arith, at reading, reading.0), ground (arith, at reading, reading.0))
  HasMoved-IsAt f ofs reading (some e, f') w h = tt

  f_lseek-HasMoved :
      (power : HasPower g) (mounted : Option ℕ) (f : File) (ofs : ℕ) {v : Fatfs}
      → IsSound v
      → Ends (HasMoved g v f (seek_target f ofs)) Never (f_lseek g mounted f ofs v)
  unfolding f_lseek
  f_lseek-HasMoved power mounted f ofs {v} s =
      let stays : (e : Fresult) → HasMoved g v f (seek_target f ofs) (some e, f) v =
        λ e. (s, λ r. IsKept-refl g s, λ is. absurd (ground arith)) in
      elim (Bool-cases (validate mounted v.disk f.fs)) [
        | inr bad ↦ rw bad (returns (stays invalid_object))
        | inl valid ↦ elim (Option-cases f.err) [
          | inr (e, is) ↦ Ends.by_eq {r' = done (some e, f) v} (ground arith) (returns (stays e))
          | inl fine ↦
              Ends.by_eq {r' = (seek g f (seek_target f ofs) >>= λ q. return (settle_seek g q)) v}
                (ground arith)
                (Ends.bind (seek-SoughtTo power f (seek_target f ofs) s) (λ w never. never)
                  λ q w h. returns (settle_seek-HasMoved f (seek_target f ofs) q v w h))
        ]
      ]

  -- `f_lseek` on a sound volume whose cluster size is a power of 2 returns from every file and offset
  -- and leaves a sound volume. If it succeeds the pointer is not past its target (the offset, or the
  -- end of the file if that is lower and the file is not open to write), and the size of the file is
  -- the old one, or the pointer if that is larger.
  pub f_lseek_end :
      (power : HasPower g) (mounted : Option ℕ) (f : File) (ofs : ℕ) {v : Fatfs}
      → IsSound v
      → Ends (λ r w. IsSound w × HasGrown f (seek_target f ofs) r) Never (f_lseek g mounted f ofs v)
  f_lseek_end power mounted f ofs s =
      Ends.mono (f_lseek-HasMoved power mounted f ofs s)
        (λ r w h. (h.0, HasMoved-HasGrown f (seek_target f ofs) r w h)) (λ w never. never)

  -- In a file that is not open to write and has its clusters `f_lseek` changes no byte of the
  -- volume outside a second FAT, and if it succeeds the pointer is at the offset, or at the end of
  -- the file if that is lower.
  pub f_lseek-IsAt :
      (power : HasPower g) (mounted : Option ℕ) (f : File) (ofs : ℕ) {v : Fatfs}
      → IsReading f
      → IsSound v
      → Ends (λ r w. IsKept g v w × IsAt f ofs r) Never (f_lseek g mounted f ofs v)
  f_lseek-IsAt power mounted f ofs reading s =
      Ends.mono (f_lseek-HasMoved power mounted f ofs s)
        (λ r w h. (h.1 reading, HasMoved-IsAt f ofs reading r w h)) (λ w never. never)
