-- ===== src/Dir/Start.antt =====
-- `dir_sdi` of ff.c: the cluster of an offset in a table.
use zephyr_fatfs_aflplusplus.Base.{
  ℕ, zero, suc, ◌+◌, ◌-◌, ◌*◌, ◌/◌, ◌%◌, ◌^◌, ◌≤◌, ◌<◌, ◌≡◌, ◌≢◌, ◌⊎◌, inl, inr, refl, not, arith,
  ltb, leb, ◌==◌, ◌||◌, Bool-cases, u32, sym, ◌∙◌, ap, subst,
}
use zephyr_fatfs_aflplusplus.Volume.{Geometry, Fatfs, Fresult, disk_err, int_err, Act}
use zephyr_fatfs_aflplusplus.Volume.Ends
use zephyr_fatfs_aflplusplus.Volume.Ends.{Ends, returns}
use zephyr_fatfs_aflplusplus.Window.{clst2sect}
use zephyr_fatfs_aflplusplus.Window.Laws.{IsSound, IsKept, IsKept-refl, IsKept-trans}
use zephyr_fatfs_aflplusplus.Fat.{disk_error}
use zephyr_fatfs_aflplusplus.Fat.Entry.{HasFat, IsCluster, entry, entry-kept}
use zephyr_fatfs_aflplusplus.Fat.Get.{Never}
use zephyr_fatfs_aflplusplus.Dir.{
  Dir, Step, ok, halt, max_dir, follow, set_position, dir_sdi, start_cluster,
}
use zephyr_fatfs_aflplusplus.Fat.Any.{get_fat_any}

-- `k` links of the table `f` from cluster `c`.
abbrev pub hop : ℕ → (ℕ → ℕ) → ℕ → ℕ
hop zero f c = c
hop (suc k) f c = hop k f (f c)

-- Each of the first `n` links from `c` goes from a cluster of the volume to another.
abbrev pub IsLinked : Geometry → (ℕ → ℕ) → ℕ → ℕ → Type 0
IsLinked g f n c = (k : ℕ) → k < n → IsCluster g (hop k f c) × IsCluster g (hop (suc k) f c)

IsLinked-next :
    (g : Geometry) (f : ℕ → ℕ) (n c nxt : ℕ)
    → IsCluster g c
    → f c ≡ nxt
    → IsCluster g nxt
    → IsLinked g f n nxt
    → IsLinked g f (suc n) c
IsLinked-next g f n c nxt i at j linked zero low = (i, subst (λ d. IsCluster g d) (sym at) j)
IsLinked-next g f n c nxt i at j linked (suc k) low =
    subst (λ d. IsCluster g (hop k f d) × IsCluster g (hop (suc k) f d)) (sym at)
      (linked k (omega arith))

div_step : (x c : ℕ) → 0 < c → c ≤ x → (x / c ≡ suc ((x - c) / c)) × (x % c ≡ (x - c) % c)
div_step x c pos le = (grind arith, grind arith)

div_small : (x c : ℕ) → x < c → (x / c ≡ 0) × (x % c ≡ x)
div_small x c lt = (grind arith, grind arith)

mod_lt : (x c : ℕ) → 0 < c → x % c < c
mod_lt x c pos = grind arith

mod_of_multiple : (x k : ℕ) → 0 < k → (x % (k * 512)) % 512 ≡ x % 512
mod_of_multiple x k pos = grind arith

-- Where `dir_sdi` puts the object for offset `ofs`: in the root area, or so many clusters down the
-- chain of the table.
pub record IsStart (g : Geometry) (v : Fatfs) (dp : Dir) (ofs : ℕ) (dp' : Dir) : Type 0 where
  pub offset : dp'.dptr ≡ ofs
  pub bound : ofs < max_dir
  pub aligned : ofs % 32 ≡ 0
  pub at : dp'.dir ≡ ofs % 512
  pub name : dp'.fn ≡ dp.fn
  pub table : dp'.sclust ≡ dp.sclust
  pub place :
      ((start_cluster g dp ≡ 0)
        × (dp'.clust ≡ 0)
        × (ofs / 32 < g.n_rootdir)
        × (dp'.sect ≡ u32 (g.dirbase + ofs / 512)))
      ⊎ ((start_cluster g dp ≢ 0)
          × (dp'.clust ≡ hop (ofs / (g.csize * 512)) (entry g v) (start_cluster g dp))
          × IsLinked g (entry g v) (ofs / (g.csize * 512)) (start_cluster g dp)
          × (clst2sect g dp'.clust ≢ 0)
          × (dp'.sect ≡ u32 (clst2sect g dp'.clust + ofs % (g.csize * 512) / 512)))

abbrev pub Positioned : Geometry → Fatfs → Dir → ℕ → Step → Fatfs → Type 0
Positioned g v dp ofs (ok dp') w = IsKept g v w × IsStart g v dp ofs dp'
Positioned g v dp ofs (halt e dp') w = IsKept g v w × ((e ≡ int_err) ⊎ (e ≡ disk_err))

-- A cluster is at least one sector, and fewer than 256 of them.
abbrev pub HasClusters : Geometry → Type 0
HasClusters g = (0 < g.csize) × (g.csize < 2 ^ 8)

module _ (g : Geometry) (has : HasFat g) (sized : HasClusters g) where
  follow-Ends :
      {Q : Step → Fatfs → Type 0} (k : ℕ → ℕ → Act Step) (fuel c ofs : ℕ) (dp : Dir) {v w : Fatfs}
      → IsKept g v w
      → ofs < fuel
      → ((e : Fresult) (u : Fatfs)
          → IsKept g v u
          → (e ≡ int_err) ⊎ (e ≡ disk_err)
          → Q (halt e dp) u)
      → ((c' r : ℕ) (u : Fatfs)
          → IsKept g v u
          → c' ≡ hop (ofs / (g.csize * 512)) (entry g v) c
          → IsLinked g (entry g v) (ofs / (g.csize * 512)) c
          → r ≡ ofs % (g.csize * 512)
          → Ends Q Never (k c' r u))
      → Ends Q Never (follow g fuel dp c ofs k w)
  unfolding follow
  follow-Ends k zero c ofs dp kept enough stop arrive = absurd (omega arith)
  follow-Ends k (suc fuel) c ofs dp {v} {w} kept enough stop arrive =
      let csz = u32 (g.csize * 512) in
      let size : csz ≡ g.csize * 512 = omega (arith, sized) in
      let f = entry g v in
      elim (Bool-cases (ltb ofs csz)) [
        | inl inside ↦
            let small = div_small ofs (g.csize * 512) (ground arith) in
            rw inside (
              arrive c ofs w kept (sym (ap (λ n. hop n f c) small.0))
                (λ k low. absurd (omega arith)) (sym small.1))
        | inr outside ↦
            let step = div_step ofs (g.csize * 512) (omega (arith, sized)) (ground arith) in
            rw outside (
              Ends.bind (get_fat_any g has c kept.sound) (λ u never. never)
                λ nxt u (kept', got).
                  let both = IsKept-trans g kept kept' in
                  elim (Bool-cases (nxt == disk_error)) [
                    | inl bad ↦ rw bad (returns (stop disk_err u both (inr refl)))
                    | inr good ↦ elim (Bool-cases (ltb nxt 2 || leb g.n_fatent nxt)) [
                      | inl end ↦ rw (good, end) (returns (stop int_err u both (inl refl)))
                      | inr more ↦
                          let linked = got (ground arith) (ground arith) in
                          let at : f c ≡ nxt =
                            sym (entry-kept g c has kept linked.0.1) ∙ sym linked.1 in
                          rw (good, more)
                            (follow-Ends k fuel nxt (ofs - csz) dp both (omega (arith, sized)) stop
                              λ c' r x kept'' e links e'.
                                arrive c' r x kept''
                                  (e
                                    ∙ (ap (λ n. hop ((ofs - n) / (g.csize * 512)) f nxt) size
                                        ∙ (ap (hop ((ofs - g.csize * 512) / (g.csize * 512)) f)
                                              (sym at)
                                            ∙ sym (ap (λ n. hop n f c) step.0))))
                                  (subst (λ n. IsLinked g f n c) (sym step.0)
                                    (IsLinked-next g f ((ofs - g.csize * 512) / (g.csize * 512)) c
                                      nxt linked.0 at (ground arith)
                                      (subst (λ n. IsLinked g f ((ofs - n) / (g.csize * 512)) nxt)
                                        size links)))
                                  (e' ∙ (ap (λ n. (ofs - n) % (g.csize * 512)) size ∙ sym step.1)))
                    ]
                  ])
      ]

  set_position-Positioned :
      (dp : Dir) (ofs clust sect rest : ℕ) {v w : Fatfs}
      → IsKept g v w
      → ofs < max_dir
      → ofs % 32 ≡ 0
      → rest % 512 ≡ ofs % 512
      → ((start_cluster g dp ≡ 0)
          × (clust ≡ 0)
          × (ofs / 32 < g.n_rootdir)
          × (sect ≡ g.dirbase)
          × (rest ≡ ofs))
        ⊎ ((start_cluster g dp ≢ 0)
            × (clust ≡ hop (ofs / (g.csize * 512)) (entry g v) (start_cluster g dp))
            × IsLinked g (entry g v) (ofs / (g.csize * 512)) (start_cluster g dp)
            × (sect ≡ clst2sect g clust)
            × (rest ≡ ofs % (g.csize * 512)))
      → Ends
          (Positioned g v dp ofs)
          Never
          (set_position g (record dp { dptr = ofs }) clust sect rest w)
  unfolding set_position
  set_position-Positioned dp ofs clust sect rest {v} kept low aligned at place =
      elim (Bool-cases (sect == 0)) [
        | inl zero_sect ↦ rw zero_sect (returns (kept, inl refl))
        | inr there ↦ rw there (
            returns (
              kept,
              record {
                offset = refl;
                bound = low;
                aligned = aligned;
                at = at;
                name = refl;
                table = refl;
                place = elim place [
                  | inl (a, b, c, d, e) ↦ inl (a, b, c, ground arith)
                  | inr (a, b, l, c, d) ↦ inr (a, b, l, ground arith, ground arith)
                ];
              },
            ))
      ]

  pub dir_sdi-Positioned :
      (dp : Dir) (ofs : ℕ) {v : Fatfs}
      → IsSound v
      → Ends (Positioned g v dp ofs) Never (dir_sdi g dp ofs v)
  unfolding dir_sdi
  dir_sdi-Positioned dp ofs {v} s =
      let kept = IsKept-refl g s in
      elim (Bool-cases (leb max_dir ofs || not (ofs % 32 == 0))) [
        | inl bad ↦ rw bad (returns (kept, inl refl))
        | inr good ↦ elim (Bool-cases (start_cluster g dp == 0)) [
          | inl root ↦ elim (Bool-cases (leb g.n_rootdir (ofs / 32))) [
            | inl out ↦ rw (good, root, out) (returns (kept, inl refl))
            | inr inside ↦
                rw (good, root, inside)
                  (set_position-Positioned dp ofs 0 g.dirbase ofs kept (ground arith) (ground arith)
                    refl (inl (ground arith, refl, ground arith, refl, refl)))
          ]
          | inr chain ↦
              rw (good, chain)
                (follow-Ends
                  (λ clst rest.
                    set_position g (record dp { dptr = ofs }) clst (clst2sect g clst) rest)
                  (suc ofs) (start_cluster g dp) ofs (record dp { dptr = ofs }) kept (omega arith)
                  (λ e u kept' h. (kept', h))
                  λ c r u kept' e l e'.
                    set_position-Positioned dp ofs c (clst2sect g c) r kept' (ground arith)
                      (ground arith) (ap (λ n. n % 512) e' ∙ mod_of_multiple ofs g.csize sized.0)
                      (inr (ground arith, e, l, refl, e')))
        ]
      ]
