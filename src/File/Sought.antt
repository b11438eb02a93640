-- ===== src/File/Sought.antt =====
-- The walk along the chain in `f_lseek` of ff.c.
use zephyr_fatfs_aflplusplus.Base.{
  ℕ, zero, suc, ◌+◌, ◌-◌, ◌*◌, ◌/◌, ◌%◌, ◌<◌, ◌≤◌, ◌≡◌, ◌≢◌, sym, subst, ap, ◌∙◌, inl, inr, false,
  arith, leb, ◌==◌, ◌&&◌, ◌||◌, Bool-cases, bit, two_to, bit_and-mask,
}
use Prim.Native.Nat.{bit_and}
use mathlib.Core.Bool.{true≢false}
use native.Mathlib.Nat.{div-add-mod, mul-le-mul_left}
use zephyr_fatfs_aflplusplus.Volume.{Geometry, Fatfs}
use zephyr_fatfs_aflplusplus.Volume.Ends
use zephyr_fatfs_aflplusplus.Volume.Ends.{Ends, returns}
use zephyr_fatfs_aflplusplus.Window.{clst2sect}
use zephyr_fatfs_aflplusplus.Window.Laws.{IsSound, IsKept, IsKept-trans}
use zephyr_fatfs_aflplusplus.Fat.{disk_error}
use zephyr_fatfs_aflplusplus.Fat.Entry.{HasFat}
use zephyr_fatfs_aflplusplus.Fat.Get.{Never}
use zephyr_fatfs_aflplusplus.Chain.Total.{create_chain_any}
use zephyr_fatfs_aflplusplus.Fat.Any.{get_fat_any}
use zephyr_fatfs_aflplusplus.Dir.Start.{HasClusters}
use zephyr_fatfs_aflplusplus.File.{File}
use zephyr_fatfs_aflplusplus.File.Seek.{
  Sought, sought, lost, cluster_bytes, cluster_start, arrive, follow_cluster, seek_loop,
}

-- The size of a cluster is a power of 2.
abbrev pub HasPower : Geometry → Type 0
HasPower g = (k : ℕ) × (g.csize * 512 ≡ two_to k)

-- The file is not open to write, and has its clusters.
abbrev pub IsReading : File → Type 0
IsReading f = (bit f.flag 1 ≡ false) × (f.sclust ≢ 0) × (f.clust ≢ 0)

-- A seek to `target`: not past it, and exactly there in a file that is only read, whose volume keeps
-- its bytes.
abbrev pub SoughtTo : Geometry → Fatfs → File → ℕ → Sought → Fatfs → Type 0
SoughtTo g v f target (sought f' n) w =
    IsSound w
    × (f'.fptr ≤ target)
    × (f'.objsize ≡ f.objsize)
    × (IsReading f → IsKept g v w × (f'.fptr ≡ target))
SoughtTo g v f target (lost e f') w = IsSound w × (IsReading f → IsKept g v w)

-- On the way to the target in `n` more bytes.
pub record IsOnWay (g : Geometry) (v : Fatfs) (f0 : File) (target : ℕ) (f : File) (ofs : ℕ)
    (w : Fatfs) : Type 0 where
  pub sound : IsSound w
  pub left : f.fptr + ofs ≡ target
  pub objsize : f.objsize ≡ f0.objsize
  pub flag : f.flag ≡ f0.flag
  pub kept : IsReading f0 → IsKept g v w

module _ (g : Geometry) (has : HasFat g) (sized : HasClusters g)
    (some_cluster : 2 < g.n_fatent) where
  follow_cluster-Ends :
      (f : File) (clst : ℕ) {w : Fatfs}
      → IsSound w
      → Ends
          (λ r u. IsSound u × (bit f.flag 1 ≡ false → IsKept g w u))
          Never
          (follow_cluster g f clst w)
  follow_cluster-Ends f clst s = elim (Bool-cases (bit f.flag 1)) [
    | inl write ↦ rw write (
        Ends.mono (create_chain_any g has some_cluster clst s)
          (λ r u su. (su, λ e. absurd (true≢false e))) (λ u never. never))
    | inr read ↦
        rw read (
          Ends.mono (get_fat_any g has clst s) (λ r u (k, _). (k.sound, λ e. k)) (λ u never. never))
  ]

  arrive-SoughtTo :
      (f0 : File) (target : ℕ) (f : File) (clst ofs : ℕ) {v w : Fatfs}
      → IsOnWay g v f0 target f ofs w
      → SoughtTo g v f0 target (arrive g f clst ofs) w
  unfolding arrive
  arrive-SoughtTo f0 target f clst ofs {v} {w} way =
      let low : f.fptr + ofs ≤ target = omega (arith, way.left) in
      elim (Bool-cases (ofs % 512 == 0)) [
        | inl edge ↦ rw edge (way.sound, low, way.objsize, λ r. (way.kept r, way.left))
        | inr inside ↦ elim (Bool-cases (clst2sect g clst == 0)) [
          | inl bad ↦ rw (inside, bad) (way.sound, way.kept)
          | inr good ↦ rw (inside, good) (way.sound, low, way.objsize, λ r. (way.kept r, way.left))
        ]
      ]

  pub seek_loop-SoughtTo :
      (fuel : ℕ) (f0 : File) (target : ℕ) (f : File) (clst ofs : ℕ) {v w : Fatfs}
      → IsOnWay g v f0 target f ofs w
      → ofs < fuel
      → Ends (SoughtTo g v f0 target) Never (seek_loop g fuel f clst ofs w)
  unfolding seek_loop
  seek_loop-SoughtTo zero f0 target f clst ofs way enough = absurd (omega arith)
  seek_loop-SoughtTo (suc fuel) f0 target f clst ofs {v} {w} way enough =
      let positive : 0 < cluster_bytes g = omega (arith, sized) in
      elim (Bool-cases (leb ofs (cluster_bytes g))) [
        | inl here ↦ rw here (returns (arrive-SoughtTo f0 target f clst ofs way))
        | inr on ↦ rw on (
            Ends.bind (follow_cluster-Ends f clst way.sound) (λ u never. never)
              λ nxt u (su, k).
                let kept : IsReading f0 → IsKept g v u =
                  λ r. IsKept-trans g (way.kept r) (k (ap (λ n. bit n 1) way.flag ∙ r.0)) in
                elim (Bool-cases (bit f.flag 1 && nxt == 0)) [
                  | inl full ↦ rw full (
                      returns (
                        su,
                        ground (arith, way.left),
                        way.objsize,
                        λ r. absurd (ground (arith, r.0, way.flag)),
                      ))
                  | inr more ↦ elim (Bool-cases (nxt == disk_error)) [
                    | inl bad ↦ rw (more, bad) (returns (su, kept))
                    | inr fine ↦ elim (Bool-cases (leb nxt 1 || leb g.n_fatent nxt)) [
                      | inl bad ↦ rw (more, fine, bad) (returns (su, kept))
                      | inr good ↦
                          rw (more, fine, good)
                            (seek_loop-SoughtTo fuel f0 target
                              (record f { fptr = f.fptr + cluster_bytes g; clust = nxt }) nxt
                              (ofs - cluster_bytes g)
                              (record {
                                sound = su;
                                left = ground (arith, way.left);
                                objsize = way.objsize;
                                flag = way.flag;
                                kept = kept;
                              })
                              (ground arith))
                    ]
                  ]
                ])
      ]

  pub cluster_start-le :
      (power : HasPower g) (a b : ℕ)
      → 0 < a
      → 0 < b
      → (a - 1) / cluster_bytes g ≤ (b - 1) / cluster_bytes g
      → cluster_start g a ≤ b
  cluster_start-le (k, is) a b pa pb h =
      let c = cluster_bytes g in
      let bytes : c ≡ two_to k = ground (arith, sized, is) in
      let mask : bit_and (a - 1) (c - 1) ≡ (a - 1) % c =
        subst (λ n. bit_and (a - 1) (n - 1) ≡ (a - 1) % n) (sym bytes) (bit_and-mask (a - 1) k) in
      omega (arith, mask, div-add-mod (a - 1) c, div-add-mod (b - 1) c, mul-le-mul_left c h)
