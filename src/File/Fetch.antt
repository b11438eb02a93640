-- ===== src/File/Fetch.antt =====
-- `f_read` of ff.c: its rounds.
use zephyr_fatfs_aflplusplus.Base.{
  bit_and-le, ℕ, ◌+◌, ◌-◌, ◌*◌, ◌/◌, ◌%◌, ◌≤◌, ◌<◌, ◌≡◌, ◌⊎◌, inl, inr, refl, true, false, not,
  arith, ltb, ◌==◌, if◌then◌else◌, Bool-cases, Option-cases, u32, sub32,
}
use zephyr_fatfs_aflplusplus.Diskio.{disk_read}
use zephyr_fatfs_aflplusplus.Volume.{Geometry, Fatfs, return}
use zephyr_fatfs_aflplusplus.Volume.Ends
use zephyr_fatfs_aflplusplus.Volume.Ends.{Ends, returns}
use zephyr_fatfs_aflplusplus.Window.{clst2sect}
use zephyr_fatfs_aflplusplus.Window.Laws.{
  IsSound, IsKept, IsKept-refl, IsKept-trans, move_window-IsKept,
}
use zephyr_fatfs_aflplusplus.Fat.{get_fat, disk_error}
use zephyr_fatfs_aflplusplus.Fat.Entry.{HasFat}
use zephyr_fatfs_aflplusplus.Fat.Get.{Never}
use zephyr_fatfs_aflplusplus.Fat.Any.{get_fat_any}
use zephyr_fatfs_aflplusplus.Dir.Start.{HasClusters}
use zephyr_fatfs_aflplusplus.File.{
  File, Round, moved, stopped, aborted, sector_in_cluster, read_partial, read_direct, read_sector,
  read_round,
}

-- A round that moves bytes moves at least one and not too many.
abbrev pub Rounded : Geometry → Fatfs → File → ℕ → Round → Fatfs → Type 0
Rounded g v f btr (moved f' chunk n) w =
    IsKept g v w
    × (1 ≤ n)
    × (n ≤ btr)
    × (f'.fptr ≡ f.fptr)
    × (f'.objsize ≡ f.objsize)
    × (f'.flag ≡ f.flag)
Rounded g v f btr (stopped f') w = ⊥
Rounded g v f btr (aborted e f') w = IsKept g v w × (f'.fptr ≡ f.fptr) × (f'.flag ≡ f.flag)

module _ (g : Geometry) (has : HasFat g) (sized : HasClusters g) where
  -- `f` and `f'` are at the same place.
  read_partial-Rounded :
      (f f' : File) (btr : ℕ) {v w : Fatfs}
      → IsKept g v w
      → 1 ≤ btr
      → (f'.fptr ≡ f.fptr) × (f'.objsize ≡ f.objsize) × (f'.flag ≡ f.flag)
      → Ends (Rounded g v f btr) Never (read_partial g f' btr w)
  unfolding read_partial
  read_partial-Rounded f f' btr kept some_bytes same =
      Ends.handle (move_window-IsKept g has.placed f'.sect kept.sound)
        (λ e u k. returns (IsKept-trans g kept k, same.0, same.2))
        (λ _ u (k, at).
          returns (IsKept-trans g kept k, ground arith, ground arith, same.0, same.1, same.2))

  read_direct-Rounded :
      (f f' : File) (sect sectors btr : ℕ) {v w : Fatfs}
      → IsKept g v w
      → (1 ≤ sectors) × (512 * sectors ≤ btr)
      → (f'.fptr ≡ f.fptr) × (f'.objsize ≡ f.objsize) × (f'.flag ≡ f.flag)
      → Ends (Rounded g v f btr) Never (read_direct g f' sect sectors w)
  unfolding read_direct
  read_direct-Rounded f f' sect sectors btr {w = w} kept fits same =
      elim (Option-cases (disk_read w.disk sect sectors)) [
        | inl e ↦ rw (read_direct, e) (returns (kept, same.0, same.2))
        | inr (b, e) ↦
            rw (read_direct, e) (returns (kept, omega arith, omega arith, same.0, same.1, same.2))
      ]

  read_sector-Rounded :
      (f f' : File) (btr : ℕ) {v w : Fatfs}
      → IsKept g v w
      → 1 ≤ btr
      → (f'.fptr ≡ f.fptr) × (f'.objsize ≡ f.objsize) × (f'.flag ≡ f.flag)
      → Ends (Rounded g v f btr) Never (read_sector g f' btr w)
  unfolding read_sector
  read_sector-Rounded f f' btr {v} {w} kept some_bytes same =
      let csect = sector_in_cluster g f'.fptr in
      let mask = bit_and-le (f'.fptr / 512) (sub32 g.csize 1) in
      let inside : csect < g.csize = omega (arith, mask, sized) in
      elim (Bool-cases (clst2sect g f'.clust == 0)) [
        | inl wrong ↦ rw wrong (returns (kept, same.0, same.2))
        | inr there ↦ elim (Bool-cases (ltb 0 (btr / 512))) [
          | inl whole ↦ elim (Bool-cases (ltb g.csize (csect + btr / 512))) [
            | inl clipped ↦
                rw (there, whole, clipped)
                  (read_direct-Rounded f f' _ (g.csize - csect) btr kept (ground arith) same)
            | inr fits ↦
                rw (there, whole, fits)
                  (read_direct-Rounded f f' _ (btr / 512) btr kept (ground arith) same)
          ]
          | inr part ↦
              rw (there, part)
                (read_partial-Rounded f (record f' { sect = u32 (clst2sect g f'.clust + csect) })
                  btr kept some_bytes same)
        ]
      ]

  pub read_round-Rounded :
      (f : File) (btr : ℕ) {v : Fatfs}
      → IsSound v
      → 1 ≤ btr
      → Ends (Rounded g v f btr) Never (read_round g f btr v)
  unfolding read_round
  read_round-Rounded f btr {v} s some_bytes = elim (Bool-cases (not (f.fptr % 512 == 0))) [
    | inl within ↦
        rw within (read_partial-Rounded f f btr (IsKept-refl g s) some_bytes (refl, refl, refl))
    | inr edge ↦ elim (Bool-cases (not (sector_in_cluster g f.fptr == 0))) [
      | inl next ↦
          rw (edge, next)
            (read_sector-Rounded f f btr (IsKept-refl g s) some_bytes (refl, refl, refl))
      | inr start ↦
          rw (edge, start)
            (Ends.bind (cluster_of (Bool-cases (f.fptr == 0))) (λ w never. never)
              λ clst w kept. elim (Bool-cases (ltb clst 2)) [
                | inl wrong ↦ rw wrong (returns (kept, refl, refl))
                | inr right ↦ elim (Bool-cases (clst == disk_error)) [
                  | inl wrong ↦ rw (right, wrong) (returns (kept, refl, refl))
                  | inr good ↦
                      rw (right, good)
                        (read_sector-Rounded f (record f { clust = clst }) btr kept some_bytes
                          (refl, refl, refl))
                ]
              ])
    ]
  ]
    where
      cluster_of :
          ((f.fptr == 0) ≡ true) ⊎ ((f.fptr == 0) ≡ false)
          → Ends
              (λ clst w. IsKept g v w)
              Never
              ((if f.fptr == 0 then return f.sclust else get_fat g f.clust) v)
      cluster_of (inl e) = rw e (returns (IsKept-refl g s))
      cluster_of (inr e) =
          rw e (Ends.mono (get_fat_any g has f.clust s) (λ val w got. got.0) (λ w never. never))
