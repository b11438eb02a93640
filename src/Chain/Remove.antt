-- ===== src/Chain/Remove.antt =====
-- `remove_chain` of ff.c on any FAT.
use zephyr_fatfs_aflplusplus.Base.{
  ℕ, zero, suc, ◌+◌, ◌*◌, ◌/◌, ◌≤◌, ◌<◌, ◌≡◌, ◌≢◌, ◌⊎◌, inl, inr, refl, ap, ◌∙◌, arith, ltb, leb,
  ◌==◌, if◌then◌else◌, ◌||◌, Bool-cases, sub32,
}
use zephyr_fatfs_aflplusplus.Volume.{Geometry, Fatfs, done, view, return}
use zephyr_fatfs_aflplusplus.Volume.Ends
use zephyr_fatfs_aflplusplus.Volume.Ends.{Ends, returns, fails}
use zephyr_fatfs_aflplusplus.Window.Laws.{IsSound, IsKept, IsKept-refl, IsPlain}
use zephyr_fatfs_aflplusplus.Fat.{put_fat, disk_error}
use zephyr_fatfs_aflplusplus.Fat.Entry.{HasFat, IsCluster, entry, entry-kept, zero_bits, end_bits}
use zephyr_fatfs_aflplusplus.Fat.Get.{get_fat-entry}
use zephyr_fatfs_aflplusplus.Fat.Put.{IsEdited, put_fat-entry}
use zephyr_fatfs_aflplusplus.Chain.{count_freed, free_loop, cut_off, remove_chain, end_of_chain}
use zephyr_fatfs_aflplusplus.Chain.Links.{used, used-le, used_freed}

-- The bytes outside the FATs are what they were.
pub record IsOutside (g : Geometry) (v v' : Fatfs) : Type 0 where
  pub sound : IsSound v'
  pub beyond :
      (a : ℕ)
      → IsPlain g (a / 512)
      → (a < g.fatbase * 512) ⊎ (g.fatbase * 512 + g.fsize * 512 ≤ a)
      → view v' a ≡ view v a

-- And each entry is what it was, or free.
pub record IsThinned (g : Geometry) (v v' : Fatfs) : Type 0 where
  pub outside : IsOutside g v v'
  pub entries : (d : ℕ) → d < g.n_fatent → (entry g v' d ≡ entry g v d) ⊎ (entry g v' d ≡ 0)

pub IsOutside-trans :
    (g : Geometry) {u v w : Fatfs} → IsOutside g u v → IsOutside g v w → IsOutside g u w
IsOutside-trans g p q = record {
  sound = q.sound;
  beyond = λ a plain out. q.beyond a plain out ∙ p.beyond a plain out;
}

pub Kept-IsOutside : (g : Geometry) {v w : Fatfs} → IsKept g v w → IsOutside g v w
Kept-IsOutside g k = record { sound = k.sound; beyond = λ a plain out. k.same a plain }

pub Edited-IsOutside : (g : Geometry) {v w : Fatfs} (c : ℕ) → IsEdited g c v w → IsOutside g v w
Edited-IsOutside g c e = record { sound = e.sound; beyond = e.beyond }

-- The counters are no bytes of the volume.
pub count_freed-IsSound : (g : Geometry) {v : Fatfs} → IsSound v → IsSound (count_freed g v)
unfolding count_freed
count_freed-IsSound g s = record {
  coherent = s.coherent;
  win_bytes = s.win_bytes;
  disk_bytes = s.disk_bytes;
}

-- One more free cluster, where the number of free clusters is known.
abbrev pub counted : ℕ → ℕ → ℕ
counted n free = if ltb free (sub32 n 2) then free + 1 else free

module _ (g : Geometry) (has : HasFat g) where
  -- One round: the status of `c` read, its entry cleared and counted.
  pub record IsFreed (c : ℕ) (v w : Fatfs) : Type 0 where
    pub outside : IsOutside g v w
    pub self : entry g w c ≡ 0
    pub others : (d : ℕ) → d ≢ c → d < g.n_fatent → entry g w d ≡ entry g v d
    pub counted : w.free_clst ≡ counted g.n_fatent v.free_clst

  pub round-IsFreed :
      (c : ℕ) {v w u : Fatfs}
      → c < g.n_fatent
      → IsKept g v w
      → IsEdited g c w u
      → entry g u c ≡ 0
      → IsFreed c v (count_freed g u)
  unfolding count_freed
  round-IsFreed c low kept e self = record {
    outside = record {
      sound = count_freed-IsSound g e.sound;
      beyond = λ a plain out. e.beyond a plain out ∙ kept.same a plain;
    };
    self = self;
    others = λ d ne h. e.others d ne h ∙ entry-kept g d has kept h;
    counted = ap (counted g.n_fatent) (e.free_clst ∙ kept.free_clst);
  }

  -- The rule for a round: the cluster is free already, an error, or it is freed and the loop goes
  -- on with its status.
  module _ {Q : Unit {0} → Fatfs → Type 0} {R : Fatfs → Type 0} where
    pub free_round :
        (fuel c : ℕ) {v : Fatfs}
        → IsSound v
        → IsCluster g c
        → ((w : Fatfs) → IsKept g v w → entry g v c ≡ 0 → Q tt w)
        → ((w : Fatfs) → IsOutside g v w → R w)
        → ((nxt : ℕ) (w : Fatfs)
            → IsFreed c v w
            → nxt ≡ entry g v c
            → 2 ≤ nxt
            → Ends Q R ((if ltb nxt g.n_fatent then free_loop g fuel nxt else return tt) w))
        → Ends Q R (free_loop g (suc fuel) c v)
    unfolding free_loop
    free_round fuel c {v} s h stop error next =
        Ends.bind (get_fat-entry g has c s h) (λ w never. absurd never)
          λ nxt w (kept, got). elim (Bool-cases (nxt == 0)) [
            | inl free ↦ rw free (returns (stop w kept (ground arith)))
            | inr live ↦ elim (Bool-cases (nxt == 1)) [
              | inl internal ↦ rw (live, internal) (fails (error w (Kept-IsOutside g kept)))
              | inr other ↦ elim (Bool-cases (nxt == disk_error)) [
                | inl disk ↦ rw (live, other, disk) (fails (error w (Kept-IsOutside g kept)))
                | inr good ↦
                    rw (live, other, good)
                      (Ends.bind (put_fat-entry g has c 0 kept.sound h)
                        (λ u e.
                          error u
                            (IsOutside-trans g (Kept-IsOutside g kept) (Edited-IsOutside g c e)))
                        λ _ u (e, self).
                          next nxt (count_freed g u)
                            (round-IsFreed c h.1 kept e (self ∙ zero_bits g.fs_type)) (ground arith)
                            (ground arith))
              ]
            ]
          ]

  IsThinned-trans : {u v w : Fatfs} → IsThinned g u v → IsThinned g v w → IsThinned g u w
  IsThinned-trans p q = record {
    outside = IsOutside-trans g p.outside q.outside;
    entries = λ d h. ground (arith, p.entries d, q.entries d);
  }

  free_loop-IsThinned :
      (fuel c : ℕ) {v : Fatfs}
      → IsSound v
      → IsCluster g c
      → used g.n_fatent (entry g v) < fuel
      → Ends (λ _. IsThinned g v) (IsOutside g v) (free_loop g fuel c v)
  free_loop-IsThinned zero c s h enough = absurd (omega arith)
  free_loop-IsThinned (suc fuel) c {v} s h enough =
      free_round fuel c s h
        (λ w kept free. record {
          outside = Kept-IsOutside g kept;
          entries = λ d low. inl (entry-kept g d has kept low);
        })
        (λ w out. out)
        λ nxt w freed e low.
          let one : IsThinned g v w = record {
            outside = freed.outside;
            entries = λ d h'. ground (arith, freed.self, freed.others d);
          } in
          let fewer : used g.n_fatent (entry g v) ≡ suc (used g.n_fatent (entry g w)) =
            used_freed g.n_fatent c (entry g v) (entry g w) h.1 (ground arith) freed.self
              freed.others in
          elim (Bool-cases (ltb nxt g.n_fatent)) [
            | inl more ↦ rw more (
                Ends.mono
                  (free_loop-IsThinned fuel nxt freed.outside.sound (ground arith)
                    (omega (arith, fewer)))
                  (λ _ u thin. IsThinned-trans one thin)
                  (λ u out. IsOutside-trans g freed.outside out))
            | inr last ↦ rw last (returns one)
          ]

  -- The entry of `pclst`, if there is one, marks an end; the others are untouched.
  pub record IsCut (pclst : ℕ) (v w : Fatfs) : Type 0 where
    pub outside : IsOutside g v w
    pub self : (pclst ≡ 0) ⊎ (g.n_fatent ≤ entry g w pclst)
    pub others : (d : ℕ) → d ≢ pclst → d < g.n_fatent → entry g w d ≡ entry g v d
    pub free_clst : w.free_clst ≡ v.free_clst

  pub cut_off-IsCut :
      (pclst : ℕ) {v : Fatfs}
      → IsSound v
      → (pclst ≡ 0) ⊎ IsCluster g pclst
      → Ends (λ _. IsCut pclst v) (IsOutside g v) (cut_off g pclst v)
  unfolding cut_off
  cut_off-IsCut pclst {v} s (inl e) = Ends.by_eq {r' = done tt v} (ground arith) (
      returns (record {
        outside = Kept-IsOutside g (IsKept-refl g s);
        self = inl e;
        others = λ d ne low. refl;
        free_clst = refl;
      }))
  cut_off-IsCut pclst {v} s (inr h) =
      Ends.by_eq {r' = put_fat g pclst end_of_chain v} (ground arith) (
        Ends.mono (put_fat-entry g has pclst end_of_chain s h)
          (λ _ w (e, self). record {
            outside = Edited-IsOutside g pclst e;
            self = inr (ground (arith, end_bits g.fs_type g.n_fatent, has.typed));
            others = e.others;
            free_clst = e.free_clst;
          })
          (λ w e. Edited-IsOutside g pclst e))

  -- On every FAT, cycles and links to free clusters included, `remove_chain` ends within its
  -- rounds. If it succeeds each entry but that of `pclst` is what it was or free, and in any case
  -- no byte outside the FATs has changed.
  pub remove_chain-IsThinned :
      (clst pclst : ℕ) {v : Fatfs}
      → IsSound v
      → (pclst ≡ 0) ⊎ IsCluster g pclst
      → Ends
          (λ _ w.
            IsOutside g v w
            × ((d : ℕ)
                → d ≢ pclst
                → d < g.n_fatent
                → (entry g w d ≡ entry g v d) ⊎ (entry g w d ≡ 0)))
          (IsOutside g v)
          (remove_chain g clst pclst v)
  unfolding remove_chain
  remove_chain-IsThinned clst pclst {v} s previous =
      elim (Bool-cases (ltb clst 2 || leb g.n_fatent clst)) [
        | inl bad ↦ rw bad (fails (Kept-IsOutside g (IsKept-refl g s)))
        | inr good ↦ rw good (
            Ends.bind (cut_off-IsCut pclst s previous) (λ w out. out)
              λ _ w cut.
                Ends.mono
                  (free_loop-IsThinned (suc g.n_fatent) clst cut.outside.sound (ground arith)
                    (omega (arith, used-le g.n_fatent (entry g w))))
                  (λ _ u thin. (
                    IsOutside-trans g cut.outside thin.outside,
                    λ d ne low. ground (arith, thin.entries d, cut.others d),
                  ))
                  (λ u out. IsOutside-trans g cut.outside out))
      ]
