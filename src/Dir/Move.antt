-- ===== src/Dir/Move.antt =====
-- Moving in a directory table of ff.c: `dir_next` without stretching.
use zephyr_fatfs_aflplusplus.Base.{
  ◌+◌, ◌/◌, ◌%◌, ◌≤◌, ◌<◌, ◌≡◌, ◌≢◌, ◌⊎◌, inl, inr, refl, false, arith, leb, ◌==◌, ◌||◌, Bool-cases,
  u32, sub32,
}
use Prim.Native.Nat.{bit_and}
use zephyr_fatfs_aflplusplus.Volume.{Geometry, Fatfs, Fresult, disk_err, int_err, no_file}
use zephyr_fatfs_aflplusplus.Volume.Ends
use zephyr_fatfs_aflplusplus.Volume.Ends.{Ends, returns}
use zephyr_fatfs_aflplusplus.Window.{clst2sect}
use zephyr_fatfs_aflplusplus.Window.Laws.{IsSound, IsKept, IsKept-refl}
use zephyr_fatfs_aflplusplus.Fat.{disk_error}
use zephyr_fatfs_aflplusplus.Fat.Entry.{HasFat, IsCluster, entry}
use zephyr_fatfs_aflplusplus.Fat.Get.{Never}
use zephyr_fatfs_aflplusplus.Fat.Any.{get_fat_any, get_fat_low}
use zephyr_fatfs_aflplusplus.Dir.{Dir, Step, ok, halt, max_dir, dir_next, next_cluster}

-- `dp'` is at the entry behind that of `dp`: in the same sector, in the next one, or at the start of
-- the next cluster of the table.
pub record IsNext (g : Geometry) (v : Fatfs) (dp dp' : Dir) : Type 0 where
  pub step : dp'.dptr ≡ dp.dptr + 32
  pub bound : dp'.dptr < max_dir
  pub at : dp'.dir ≡ dp'.dptr % 512
  pub name : dp'.fn ≡ dp.fn
  pub table : dp'.sclust ≡ dp.sclust
  pub place :
      ((dp'.dptr % 512 ≢ 0) × (dp'.sect ≡ dp.sect) × (dp'.clust ≡ dp.clust))
      ⊎ (((dp'.dptr % 512 ≡ 0)
            × (dp'.sect ≡ u32 (dp.sect + 1))
            × (dp'.clust ≡ dp.clust)
            × (dp.clust ≡ 0 → dp'.dptr / 32 < g.n_rootdir))
          ⊎ ((dp'.dptr % 512 ≡ 0)
              × IsCluster g dp.clust
              × IsCluster g dp'.clust
              × (dp'.clust ≡ entry g v dp.clust)
              × (dp'.sect ≡ clst2sect g dp'.clust)))

-- The table ends behind the entry of `dp`: at the size limit, for an object without a sector, at the
-- number of entries of a root directory with no chain, or at a chain that goes no further behind its
-- last sector.
abbrev pub IsLast : Geometry → Fatfs → Dir → Type 0
IsLast g v dp =
    ((max_dir ≤ dp.dptr + 32) ⊎ (dp.sect ≡ 0))
    ⊎ (((dp.clust ≡ 0) × ((dp.dptr + 32) % 512 ≡ 0) × (g.n_rootdir ≤ (dp.dptr + 32) / 32))
        ⊎ (IsCluster g dp.clust
            × ((dp.dptr + 32) % 512 ≡ 0)
            × (bit_and ((dp.dptr + 32) / 512) (sub32 g.csize 1) ≡ 0)
            × (g.n_fatent ≤ entry g v dp.clust)))

-- The chain is broken at the last sector of the cluster of `dp`: this is no cluster of the volume, or
-- its entry is that of a free cluster or the number of no cluster.
abbrev pub IsTorn : Geometry → Fatfs → Dir → Type 0
IsTorn g v dp =
    ((IsCluster g dp.clust → ⊥) ⊎ (entry g v dp.clust ≤ 1))
    × ((dp.dptr + 32) % 512 ≡ 0)
    × (bit_and ((dp.dptr + 32) / 512) (sub32 g.csize 1) ≡ 0)

-- The errors of a move: the end of the table, after which no sector is set, or a broken volume.
abbrev pub Halted : Geometry → Fatfs → Dir → Fresult → Dir → Type 0
Halted g v dp e dp' =
    ((e ≡ no_file) × (dp'.sect ≡ 0) × IsLast g v dp)
    ⊎ (((e ≡ int_err) × IsTorn g v dp) ⊎ (e ≡ disk_err))

abbrev pub Moved : Geometry → Fatfs → Dir → Step → Fatfs → Type 0
Moved g v dp (ok dp') w = IsKept g v w × IsNext g v dp dp'
Moved g v dp (halt e dp') w = IsKept g v w × Halted g v dp e dp' × (dp'.fn ≡ dp.fn)

module _ (g : Geometry) (has : HasFat g) where
  next_cluster-Moved :
      (dp : Dir) {v : Fatfs}
      → IsSound v
      → dp.dptr + 32 < max_dir
      → (dp.dptr + 32) % 512 ≡ 0
      → bit_and ((dp.dptr + 32) / 512) (sub32 g.csize 1) ≡ 0
      → Ends (Moved g v dp) Never (next_cluster g (record dp { sect = u32 (dp.sect + 1) }) false v)
  unfolding next_cluster
  next_cluster-Moved dp {v} s low edge new =
      Ends.bind (Ends.both (get_fat_any g has dp.clust s) (get_fat_low g has dp.clust s))
        (λ w (never, _). never)
        λ clst w ((kept, got), torn). elim (Bool-cases (leb clst 1)) [
          | inl bad ↦
              rw bad (returns (kept, inr (inl (refl, (torn (ground arith), edge, new))), refl))
          | inr two ↦ elim (Bool-cases (clst == disk_error)) [
            | inl bad ↦ rw (two, bad) (returns (kept, inr (inr refl), refl))
            | inr good ↦ elim (Bool-cases (leb g.n_fatent clst)) [
              | inl end ↦
                  let i = got (ground arith) (ground arith) in
                  let past : g.n_fatent ≤ entry g v dp.clust = ground (arith, i.1) in
                  rw (two, good, end)
                    (returns (kept, inl (refl, refl, inr (inr (i.0, edge, new, past))), refl))
              | inr more ↦
                  rw (two, good, more)
                    (returns (
                      kept,
                      record {
                        step = ground arith;
                        bound = ground arith;
                        at = refl;
                        name = refl;
                        table = refl;
                        place = inr (
                            inr (
                              ground arith,
                              (got (ground arith) (ground arith)).0,
                              ground arith,
                              (got (ground arith) (ground arith)).1,
                              refl,
                            ));
                      },
                    ))
            ]
          ]
        ]

  pub dir_next-Moved :
      (dp : Dir) {v : Fatfs}
      → IsSound v
      → dp.dptr < max_dir
      → Ends (Moved g v dp) Never (dir_next g dp false v)
  unfolding dir_next
  dir_next-Moved dp {v} s low =
      let kept = IsKept-refl g s in
      let ended : IsLast g v dp → Moved g v dp (halt no_file (record dp { sect = 0 })) v =
        λ last. (kept, inl (refl, refl, last), refl) in
      elim (Bool-cases (leb max_dir (u32 (dp.dptr + 32)) || dp.sect == 0)) [
        | inl end ↦ rw end (returns (ended (inl (ground (arith, end)))))
        | inr on ↦ elim (Bool-cases (u32 (dp.dptr + 32) % 512 == 0)) [
          | inr same ↦
              rw (on, same)
                (returns (
                  kept,
                  record {
                    step = ground arith;
                    bound = ground arith;
                    at = refl;
                    name = refl;
                    table = refl;
                    place = inl (ground arith, refl, refl);
                  },
                ))
          | inl edge ↦ elim (Bool-cases (dp.clust == 0)) [
            | inl static ↦ elim (Bool-cases (leb g.n_rootdir (u32 (dp.dptr + 32) / 32))) [
              | inl last ↦
                  rw (on, edge, static, last)
                    (returns (ended (inr (inl (ground arith, ground arith, ground arith)))))
              | inr more ↦
                  rw (on, edge, static, more)
                    (returns (
                      kept,
                      record {
                        step = ground arith;
                        bound = ground arith;
                        at = refl;
                        name = refl;
                        table = refl;
                        place = inr (inl (ground arith, refl, refl, λ e. ground arith));
                      },
                    ))
            ]
            | inr dynamic ↦
                elim (Bool-cases (bit_and (u32 (dp.dptr + 32) / 512) (sub32 g.csize 1) == 0)) [
                  | inl new ↦
                      rw (on, edge, dynamic, new)
                        (next_cluster-Moved dp s (ground arith) (ground arith) (ground arith))
                  | inr inner ↦
                      rw (on, edge, dynamic, inner)
                        (returns (
                          kept,
                          record {
                            step = ground arith;
                            bound = ground arith;
                            at = refl;
                            name = refl;
                            table = refl;
                            place = inr (inl (ground arith, refl, refl, λ e. ground arith));
                          },
                        ))
                ]
          ]
        ]
      ]
