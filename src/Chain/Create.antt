-- ===== src/Chain/Create.antt =====
-- `create_chain` of ff.c: its value, and the FAT behind it.
use zephyr_fatfs_aflplusplus.Base.{
  ℕ, ◌≤◌, ◌<◌, ◌≡◌, ◌≢◌, ◌⊎◌, inl, inr, refl, sym, ap, ◌∙◌, arith, ltb, leb, ◌==◌, if◌then◌else◌,
  ◌||◌, Bool-cases, false,
}
use zephyr_fatfs_aflplusplus.Volume.{Geometry, Fatfs, done, and_then}
use zephyr_fatfs_aflplusplus.Volume.Ends
use zephyr_fatfs_aflplusplus.Volume.Ends.{Ends, returns, fails}
use zephyr_fatfs_aflplusplus.Window.Laws.{IsSound, IsKept, IsKept-trans, IsKept-refl}
use zephyr_fatfs_aflplusplus.Fat.{disk_error}
use zephyr_fatfs_aflplusplus.Fat.Entry.{HasFat, IsCluster, entry, entry-kept}
use zephyr_fatfs_aflplusplus.Fat.Get.{Never, get_fat-entry}
use zephyr_fatfs_aflplusplus.Chain.{Pick, found, stop, choose, settle, allocate, create_chain}
use zephyr_fatfs_aflplusplus.Chain.Remove.{IsOutside, IsOutside-trans, Kept-IsOutside}
use zephyr_fatfs_aflplusplus.Chain.Search.{Picked}
use zephyr_fatfs_aflplusplus.Chain.Choose.{choose-Picked}
use zephyr_fatfs_aflplusplus.Chain.Attach.{
  spent, IsGrown, attach-IsGrown, counted-IsGrown, count_used-spent, error_value_lem,
}

pub data Created (g : Geometry) (clst : ℕ) (v : Fatfs) (r : ℕ) (w : Fatfs) : Type 0 where
  follows : clst ≢ 0 → IsCluster g r → entry g v clst ≡ r → IsKept g v w → Created g clst v r w
  grows :
      IsGrown g clst v r w
      → w.last_clst ≡ r
      → w.free_clst ≡ spent g.n_fatent v.free_clst
      → Created g clst v r w
  full :
      r ≡ 0
      → IsKept g v w
      → (v.free_clst ≡ 0) ⊎ ((d : ℕ) → 2 ≤ d → d < g.n_fatent → entry g v d ≢ 0)
      → Created g clst v r w
  broken : (r ≡ 1) ⊎ (r ≡ disk_error) → IsOutside g v w → Created g clst v r w

module _ (g : Geometry) (has : HasFat g) where
  -- What is known before, seen from before the window moved.
  Grown-kept :
      (clst r : ℕ) {v w u : Fatfs}
      → (clst ≡ 0) ⊎ IsCluster g clst
      → IsKept g v w
      → IsGrown g clst w r u
      → IsGrown g clst v r u
  Grown-kept clst r at kept grown = record {
    outside = IsOutside-trans g (Kept-IsOutside g kept) grown.outside;
    inside = grown.inside;
    free = sym (entry-kept g r has kept grown.inside.1) ∙ grown.free;
    end = grown.end;
    linked = grown.linked;
    others = λ d ne ne' low. grown.others d ne ne' low ∙ entry-kept g d has kept low;
  }

  Created-kept :
      (clst r : ℕ) {v w u : Fatfs}
      → IsCluster g clst
      → IsKept g v w
      → Created g clst w r u
      → Created g clst v r u
  Created-kept clst r at kept (follows ne inside e k) =
      follows ne inside (sym (entry-kept g clst has kept at.1) ∙ e) (IsKept-trans g kept k)
  Created-kept clst r at kept (grows grown last count) =
      grows (Grown-kept clst r (inr at) kept grown) last
        (count ∙ ap (spent g.n_fatent) kept.free_clst)
  Created-kept clst r at kept (full e k (inl none_free)) =
      full e (IsKept-trans g kept k) (inl (sym kept.free_clst ∙ none_free))
  Created-kept clst r at kept (full e k (inr used)) =
      full e (IsKept-trans g kept k)
        (inr (λ d low high free. used d low high (entry-kept g d has kept high ∙ free)))
  Created-kept clst r at kept (broken e out) =
      broken e (IsOutside-trans g (Kept-IsOutside g kept) out)

  settle-Created :
      (clst : ℕ) (p : Pick) {v w : Fatfs}
      → IsKept g v w
      → Picked g.n_fatent (entry g v) p
      → (clst ≡ 0) ⊎ (IsCluster g clst × (g.n_fatent ≤ entry g v clst))
      → Ends (Created g clst v) Never (settle g clst p w)
  unfolding settle
  settle-Created clst (stop r) kept (inl (zero_, none_free)) at =
      returns (full zero_ kept (inr none_free))
  settle-Created clst (stop r) kept (inr bad) at = returns (broken bad (Kept-IsOutside g kept))
  settle-Created clst (found ncl) {v} {w} kept (low, high, free) at =
      Ends.handle
        (attach-IsGrown g has clst ncl kept.sound (low, high)
          (entry-kept g ncl has kept high ∙ free) (ground arith))
        (λ e u out.
          returns
            (broken (error_value_lem g has e) (IsOutside-trans g (Kept-IsOutside g kept) out)))
        λ _ u (grown, count). returns (
          grows (counted-IsGrown g has clst ncl (Grown-kept clst ncl (ground arith) kept grown))
            ((count_used-spent g has ncl u).0)
            ((count_used-spent g has ncl u).1 ∙ ap (spent g.n_fatent) (count ∙ kept.free_clst)))

  allocate-Created :
      (clst scl : ℕ) {v : Fatfs}
      → IsSound v
      → (1 ≤ scl) × (scl < g.n_fatent)
      → (clst ≡ 0) ⊎ (IsCluster g clst × (g.n_fatent ≤ entry g v clst))
      → Ends (Created g clst v) Never (allocate g clst scl v)
  unfolding allocate
  allocate-Created clst scl {v} s h at = elim (Bool-cases (v.free_clst == 0)) [
    | inl none_free ↦
        Ends.by_eq {r' = done 0 v} (ground arith)
          (returns (full refl (IsKept-refl g s) (inl (ground arith))))
    | inr some_free ↦
        Ends.by_eq {r' = and_then (choose g clst scl v) (settle g clst)} (ground arith) (
          Ends.bind (choose-Picked g has clst scl s h (ground arith)) (λ w never. never)
            λ p w (kept, picked). settle-Created clst p kept picked at)
  ]

  -- `create_chain` on a cluster of the volume, or on 0 for a new chain, always returns a value. It
  -- is the cluster that follows `clst` already, and no byte outside a second FAT has changed; or a
  -- free cluster, now linked from `clst` and the end of the chain, with no other entry and no byte
  -- outside the FATs changed; or 0, when the count of free clusters is 0 or no cluster is free, and
  -- no byte outside a second FAT has changed; or one of the two error values, with no byte outside
  -- the FATs changed.
  pub create_chain-Created :
      (clst : ℕ) {v : Fatfs}
      → IsSound v
      → 2 < g.n_fatent
      → (clst ≡ 0) ⊎ IsCluster g clst
      → Ends (Created g clst v) Never (create_chain g clst v)
  unfolding create_chain
  create_chain-Created clst {v} s some_cluster (inl e) =
      let scl = if v.last_clst == 0 || leb g.n_fatent v.last_clst then 1 else v.last_clst in
      Ends.by_eq {r' = allocate g clst scl v} (ground arith)
        (allocate-Created clst scl s (ground arith) (inl e))
  create_chain-Created clst {v} s some_cluster (inr inside) =
      let ne : (clst == 0) ≡ false = ground arith in
      rw ne (
        Ends.bind (get_fat-entry g has clst s inside) (λ w never. never)
          λ cs w (kept, got). elim (Bool-cases (ltb cs 2)) [
            | inl low ↦ rw low (returns (broken (inl refl) (Kept-IsOutside g kept)))
            | inr high ↦ elim (Bool-cases (cs == disk_error)) [
              | inl disk ↦
                  rw (high, disk) (returns (broken (inr (ground arith)) (Kept-IsOutside g kept)))
              | inr good ↦ elim (Bool-cases (ltb cs g.n_fatent)) [
                | inl linked ↦
                    rw (high, good, linked)
                      (returns (follows (ground arith) (ground arith) (ground arith) kept))
                | inr end ↦
                    rw (high, good, end)
                      (Ends.mono
                        (allocate-Created clst clst kept.sound (ground arith)
                          (inr (inside, ground (arith, entry-kept g clst has kept))))
                        (λ r u made. Created-kept clst r inside kept made) (λ u never. never))
              ]
            ]
          ])
