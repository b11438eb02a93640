-- ===== src/Dir/Grow.antt =====
-- `dir_next` of ff.c with stretching.
use zephyr_fatfs_aflplusplus.Base.{
  ℕ, ◌+◌, ◌/◌, ◌%◌, ◌≤◌, ◌<◌, ◌≡◌, ◌≢◌, ◌⊎◌, inl, inr, refl, true, false, arith, leb, ◌==◌, ◌||◌,
  Bool-cases, u32, sub32, ◌∙◌,
}
use Prim.Native.Nat.{bit_and}
use zephyr_fatfs_aflplusplus.Volume.{Geometry, Fatfs}
use zephyr_fatfs_aflplusplus.Volume.Ends
use zephyr_fatfs_aflplusplus.Volume.Ends.{Ends, returns}
use zephyr_fatfs_aflplusplus.Window.Laws.{IsSound, IsKept, IsKept-refl, IsKept-trans}
use zephyr_fatfs_aflplusplus.Fat.{disk_error}
use zephyr_fatfs_aflplusplus.Fat.Entry.{HasFat, IsCluster, entry, entry-kept}
use zephyr_fatfs_aflplusplus.Fat.Get.{Never}
use zephyr_fatfs_aflplusplus.Chain.Attach.{IsGrown}
use zephyr_fatfs_aflplusplus.Chain.Create.{create_chain-Created}
use zephyr_fatfs_aflplusplus.Chain.Total.{Created-IsSound}
use zephyr_fatfs_aflplusplus.Dir.{
  Dir, Step, ok, halt, max_dir, dir_next, next_cluster, stretch_table,
}
use zephyr_fatfs_aflplusplus.Fat.Any.{get_fat_any}
use zephyr_fatfs_aflplusplus.Dir.Start.{HasClusters}
use zephyr_fatfs_aflplusplus.Dir.Clear.{dir_clear-Elsewhere, dir_clear_window}
use zephyr_fatfs_aflplusplus.Dir.Extended.{IsExtended, IsExtended-kept, new_cluster}

-- `dp'` is an object of the same search, with its entry inside the window.
pub record IsAhead (dp : Dir) (ofs : ℕ) (dp' : Dir) : Type 0 where
  pub offset : dp'.dptr ≡ ofs
  pub bound : ofs < max_dir
  pub at : dp'.dir ≡ ofs % 512
  pub name : dp'.fn ≡ dp.fn

-- A step of the search in the volume `v`, which has the same bytes or a table with one more cluster.
abbrev pub Stepped : Geometry → Fatfs → Dir → ℕ → Step → Fatfs → Type 0
Stepped g v dp ofs (ok dp') w =
    IsSound w × IsAhead dp ofs dp' × (IsKept g v w ⊎ IsExtended g v dp' w)
Stepped g v dp ofs (halt e dp') w = IsSound w

module _ (g : Geometry) (has : HasFat g) (sized : HasClusters g)
    (some_cluster : 2 < g.n_fatent) where
  stretch_table-Stepped :
      (dp : Dir) {v : Fatfs}
      → IsSound v
      → dp.dptr + 32 < max_dir
      → IsCluster g dp.clust × (g.n_fatent ≤ entry g v dp.clust)
      → Ends (Stepped g v dp (dp.dptr + 32)) Never (stretch_table g dp v)
  unfolding stretch_table
  stretch_table-Stepped dp {v} s low last =
      Ends.bind (create_chain-Created g has dp.clust s some_cluster (inr last.0)) (λ w never. never)
        λ clst w made.
          let sw = Created-IsSound g has some_cluster made in
          elim (Bool-cases (clst == 0)) [
            | inl none_free ↦ rw none_free (returns sw)
            | inr there ↦ elim (Bool-cases (clst == 1)) [
              | inl wrong ↦ rw (there, wrong) (returns sw)
              | inr right ↦ elim (Bool-cases (clst == disk_error)) [
                | inl wrong ↦ rw (there, right, wrong) (returns sw)
                | inr good ↦
                    let grown : IsGrown g dp.clust v clst w =
                      new_cluster g dp clst last made there right good in
                    rw (there, right, good)
                      (Ends.handle
                        (Ends.both (dir_clear-Elsewhere g has.placed sized.0 clst sw)
                          (dir_clear_window g has.placed sized.0 clst sw))
                        (λ e u ((su, _), _). returns su)
                        (λ _ u ((su, elsewhere, _), blank). returns (
                          su,
                          record {
                            offset = ground arith;
                            bound = low;
                            at = ground arith;
                            name = refl;
                          },
                          inr (record {
                            inside = grown.inside;
                            free = grown.free;
                            start = refl;
                            here = blank.0;
                            blank = blank.1;
                            beyond = λ a plain out apart.
                                elsewhere a plain apart ∙ grown.outside.beyond a plain out;
                          }),
                        )))
              ]
            ]
          ]

  next_cluster-Stepped :
      (dp dp1 : Dir) {v : Fatfs}
      → IsSound v
      → dp.dptr + 32 < max_dir
      → (dp1.dptr ≡ dp.dptr) × (dp1.fn ≡ dp.fn)
      → Ends (Stepped g v dp (dp.dptr + 32)) Never (next_cluster g dp1 true v)
  unfolding next_cluster
  next_cluster-Stepped dp dp1 {v} s low same =
      Ends.bind (get_fat_any g has dp1.clust s) (λ w never. never)
        λ clst w (kept, got). elim (Bool-cases (leb clst 1)) [
          | inl wrong ↦ rw wrong (returns kept.sound)
          | inr right ↦ elim (Bool-cases (clst == disk_error)) [
            | inl wrong ↦ rw (right, wrong) (returns kept.sound)
            | inr good ↦ elim (Bool-cases (leb g.n_fatent clst)) [
              | inr linked ↦
                  rw (right, good, linked)
                    (returns (
                      kept.sound,
                      record {
                        offset = ground arith;
                        bound = low;
                        at = ground arith;
                        name = same.1;
                      },
                      inl kept,
                    ))
              | inl end ↦
                  rw (right, good, end)
                    (Ends.mono
                      (stretch_table-Stepped dp1 kept.sound (omega (arith, same.0))
                        (at_end dp1 clst kept got right good end))
                      (stretched dp1 same kept) (λ u never. never))
            ]
          ]
        ]
    where
      at_end :
          (dp1 : Dir) (clst : ℕ) {v w : Fatfs}
          → IsKept g v w
          → (2 ≤ clst → clst ≢ disk_error → IsCluster g dp1.clust × (clst ≡ entry g v dp1.clust))
          → leb clst 1 ≡ false
          → (clst == disk_error) ≡ false
          → leb g.n_fatent clst ≡ true
          → IsCluster g dp1.clust × (g.n_fatent ≤ entry g w dp1.clust)
      at_end dp1 clst kept got right good end =
          let i = got (ground arith) (ground arith) in
          (i.0, ground (arith, i.1, entry-kept g dp1.clust has kept i.0.1))

      stretched :
          (dp1 : Dir)
          → (dp1.dptr ≡ dp.dptr) × (dp1.fn ≡ dp.fn)
          → {v w : Fatfs} → IsKept g v w
          → (r : Step) (u : Fatfs) → Stepped g w dp1 (dp1.dptr + 32) r u
          → Stepped g v dp (dp.dptr + 32) r u
      stretched dp1 same kept (ok dp') u (su, a, h) = (
        su,
        record {
          offset = omega (arith, a.offset, same.0);
          bound = low;
          at = ground (arith, a.at, same.0);
          name = a.name ∙ same.1;
        },
        elim h [
          | inl k ↦ inl (IsKept-trans g kept k)
          | inr new ↦ inr (IsExtended-kept g has dp' kept new)
        ],
      )
      stretched dp1 same kept (halt e dp') u su = su

  pub dir_next-Stepped :
      (dp : Dir) {v : Fatfs}
      → IsSound v
      → dp.dptr < max_dir
      → Ends (Stepped g v dp (dp.dptr + 32)) Never (dir_next g dp true v)
  unfolding dir_next
  dir_next-Stepped dp {v} s low =
      elim (Bool-cases (leb max_dir (u32 (dp.dptr + 32)) || dp.sect == 0)) [
        | inl end ↦ rw end (returns s)
        | inr on ↦ elim (Bool-cases (u32 (dp.dptr + 32) % 512 == 0)) [
          | inr same ↦
              rw (on, same)
                (returns (
                  s,
                  record {
                    offset = ground arith;
                    bound = ground arith;
                    at = ground arith;
                    name = refl;
                  },
                  inl (IsKept-refl g s),
                ))
          | inl edge ↦ elim (Bool-cases (dp.clust == 0)) [
            | inl static ↦ elim (Bool-cases (leb g.n_rootdir (u32 (dp.dptr + 32) / 32))) [
              | inl last ↦ rw (on, edge, static, last) (returns s)
              | inr more ↦
                  rw (on, edge, static, more)
                    (returns (
                      s,
                      record {
                        offset = ground arith;
                        bound = ground arith;
                        at = ground arith;
                        name = refl;
                      },
                      inl (IsKept-refl g s),
                    ))
            ]
            | inr dynamic ↦
                elim (Bool-cases (bit_and (u32 (dp.dptr + 32) / 512) (sub32 g.csize 1) == 0)) [
                  | inl new ↦
                      rw (on, edge, dynamic, new)
                        (next_cluster-Stepped dp (record dp { sect = u32 (dp.sect + 1) }) s
                          (ground arith) (refl, refl))
                  | inr inner ↦
                      rw (on, edge, dynamic, inner)
                        (returns (
                          s,
                          record {
                            offset = ground arith;
                            bound = ground arith;
                            at = ground arith;
                            name = refl;
                          },
                          inl (IsKept-refl g s),
                        ))
                ]
          ]
        ]
      ]
