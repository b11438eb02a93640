-- ===== src/Chain/Free.antt =====
-- `remove_chain` of ff.c on a well-formed chain.
use zephyr_fatfs_aflplusplus.Base.{
  ℕ, zero, suc, ◌≤◌, ◌<◌, ◌≡◌, ◌≢◌, ◌⊎◌, sym, ap, ◌∙◌, arith, ◌==◌, if◌then◌else◌, ne→not-==, List,
  [], ◌∷◌, false,
}
use mathlib.Core.Bool.{false≢true}
use zephyr_fatfs_aflplusplus.Volume.{Geometry, Fatfs, done, ◌>>◌}
use zephyr_fatfs_aflplusplus.Volume.Ends
use zephyr_fatfs_aflplusplus.Volume.Ends.{Ends, returns, fails}
use zephyr_fatfs_aflplusplus.Window.Laws.{IsSound}
use zephyr_fatfs_aflplusplus.Fat.Entry.{HasFat, IsCluster, entry}
use zephyr_fatfs_aflplusplus.Chain.{free_loop, cut_off, remove_chain}
use zephyr_fatfs_aflplusplus.Chain.Links.{
  length, is_in, IsChain, IsChain-ext, used, used-le, used_freed,
}
use zephyr_fatfs_aflplusplus.Chain.Remove.{
  IsOutside, IsOutside-trans, counted, free_round, cut_off-IsCut,
}

-- The number of free clusters after `k` more.
abbrev pub count_all : ℕ → ℕ → ℕ → ℕ
count_all n zero free = free
count_all n (suc k) free = count_all n k (counted n free)

-- `w` is `v` with the clusters `xs` free.
pub record IsReleased (g : Geometry) (xs : List ℕ) (v w : Fatfs) : Type 0 where
  pub outside : IsOutside g v w
  pub entries : (d : ℕ) → d < g.n_fatent → entry g w d ≡ (if is_in d xs then 0 else entry g v d)
  pub free_clst : w.free_clst ≡ count_all g.n_fatent (length xs) v.free_clst

pub head_bounds :
    (n : ℕ) (f : ℕ → ℕ) (c : ℕ) (xs : List ℕ) → IsChain n f (c ∷ xs) → (2 ≤ c) × (c < n)
head_bounds n f c [] h = (h.0, h.1)
head_bounds n f c (d ∷ xs) h = (h.0, h.1)

-- A chain has no more clusters than there are in use.
length-le-used : (n : ℕ) (f : ℕ → ℕ) (xs : List ℕ) → IsChain n f xs → length xs ≤ used n f
length-le-used n f [] h = absurd h
length-le-used n f (c ∷ []) h =
    let f' = λ (x : ℕ). if x == c then 0 else f x in
    omega (arith, used_freed n c f f' h.1 (ground arith) (ground arith) (λ d ne low. ground arith))
length-le-used n f (c ∷ d ∷ xs) h =
    let f' = λ (x : ℕ). if x == c then 0 else f x in
    let rest = IsChain-ext n f f' (d ∷ xs) h.4 (λ x low i.
      rw (ne→not-== x c (λ e. false≢true (sym h.3 ∙ ap (λ y. is_in y (d ∷ xs)) (sym e) ∙ i)))) in
    let low = head_bounds n f d xs h.4 in
    let positive : f c ≢ 0 = omega arith in
    omega (
      arith,
      length-le-used n f' (d ∷ xs) rest,
      used_freed n c f f' h.1 positive (ground arith) (λ d ne low. ground arith),
    )

module _ (g : Geometry) (has : HasFat g) where
  free_loop-IsReleased :
      (fuel c : ℕ) (xs : List ℕ) {v : Fatfs}
      → IsSound v
      → IsChain g.n_fatent (entry g v) (c ∷ xs)
      → length xs < fuel
      → Ends (λ _. IsReleased g (c ∷ xs) v) (IsOutside g v) (free_loop g fuel c v)
  free_loop-IsReleased zero c xs s h enough = absurd (omega arith)
  free_loop-IsReleased (suc fuel) c [] {v} s h enough =
      free_round g has fuel c s (h.0, h.1) (λ w kept free. absurd (omega arith)) (λ w out. out)
        λ nxt w freed e low. Ends.by_eq {r' = done tt w} (ground arith) (
          returns (record {
            outside = freed.outside;
            entries = λ d low'. ground (arith, freed.self, freed.others d);
            free_clst = freed.counted;
          }))
  free_loop-IsReleased (suc fuel) c (d ∷ xs) {v} s h enough =
      let inside : IsCluster g d = head_bounds g.n_fatent (entry g v) d xs h.4 in
      free_round g has fuel c s (h.0, h.1) (λ w kept free. absurd (omega arith)) (λ w out. out)
        λ nxt w freed e low.
          let rest = IsChain-ext g.n_fatent (entry g v) (entry g w) (d ∷ xs) h.4 (λ x low' i.
            freed.others x (λ e'. false≢true (sym h.3 ∙ ap (λ y. is_in y (d ∷ xs)) (sym e') ∙ i))
              low') in
          Ends.by_eq {r' = free_loop g fuel d w} (ground arith) (
            Ends.mono (free_loop-IsReleased fuel d xs freed.outside.sound rest (omega arith))
              (λ _ u more. record {
                outside = IsOutside-trans g freed.outside more.outside;
                entries = λ x low'. ground (arith, more.entries x, freed.self, freed.others x);
                free_clst =
                    more.free_clst ∙ ap (count_all g.n_fatent (length (d ∷ xs))) freed.counted;
              })
              (λ u out. IsOutside-trans g freed.outside out))

  -- On a chain of the FAT that does not hold `pclst`, `remove_chain` frees exactly its clusters if it
  -- succeeds: they become free, the entry of `pclst` ends its chain unless `pclst` is 0, every other
  -- entry is as before, and the number of free clusters, where it is known, grows by the length of
  -- the chain. In any case the bytes outside the FATs are as before.
  pub remove_chain-IsReleased :
      (clst pclst : ℕ) (xs : List ℕ) {v : Fatfs}
      → IsSound v
      → IsChain g.n_fatent (entry g v) (clst ∷ xs)
      → (pclst ≡ 0) ⊎ IsCluster g pclst
      → is_in pclst (clst ∷ xs) ≡ false
      → Ends
          (λ _ w.
            IsOutside g v w
            × ((d : ℕ)
                → d < g.n_fatent
                → d ≢ pclst
                → entry g w d ≡ (if is_in d (clst ∷ xs) then 0 else entry g v d))
            × ((pclst ≡ 0) ⊎ (g.n_fatent ≤ entry g w pclst))
            × (w.free_clst ≡ count_all g.n_fatent (length (clst ∷ xs)) v.free_clst))
          (IsOutside g v)
          (remove_chain g clst pclst v)
  unfolding remove_chain
  remove_chain-IsReleased clst pclst xs {v} s h previous apart =
      let inside : IsCluster g clst = head_bounds g.n_fatent (entry g v) clst xs h in
      Ends.by_eq {r' = (cut_off g pclst >> free_loop g (suc g.n_fatent) clst) v} (ground arith) (
        Ends.bind (cut_off-IsCut g has pclst s previous) (λ w out. out)
          λ _ w cut.
            let chain = IsChain-ext g.n_fatent (entry g v) (entry g w) (clst ∷ xs) h (λ x low i.
              cut.others x (λ e. false≢true (sym apart ∙ ap (λ y. is_in y (clst ∷ xs)) (sym e) ∙ i))
                low) in
            Ends.mono
              (free_loop-IsReleased (suc g.n_fatent) clst xs cut.outside.sound chain (
                omega (
                  arith,
                  length-le-used g.n_fatent (entry g w) (clst ∷ xs) chain,
                  used-le g.n_fatent (entry g w),
                )))
              (λ _ u more. (
                IsOutside-trans g cut.outside more.outside,
                λ d low ne. ground (arith, more.entries d, cut.others d),
                ground (arith, more.entries pclst, cut.self, previous, apart),
                more.free_clst ∙ ap (count_all g.n_fatent (length (clst ∷ xs))) cut.free_clst,
              ))
              (λ u out. IsOutside-trans g cut.outside out))
