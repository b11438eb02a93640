-- ===== src/Api/Space/Counted.antt =====
-- `f_getfree` of ff.c against the entries of the FAT.
use zephyr_fatfs_aflplusplus.Base.{
  ℕ, zero, suc, ◌+◌, ◌-◌, ◌*◌, ◌/◌, ◌%◌, ◌^◌, ◌<◌, ◌≤◌, ◌≡◌, ◌≢◌, refl, sym, subst, inl, inr, arith,
  leb, ◌==◌, if◌then◌else◌, Bool-cases, sub32, u32,
}
use zephyr_fatfs_aflplusplus.Volume.{Geometry, Fatfs, FsType, fat12, fat16, fat32, view}
use zephyr_fatfs_aflplusplus.Volume.Ends
use zephyr_fatfs_aflplusplus.Volume.Ends.{Ends, returns, fails}
use zephyr_fatfs_aflplusplus.Window.Laws.{
  IsSound, IsKept, IsPlain, IsKept-refl, IsKept-trans, move_window-IsKept,
}
use zephyr_fatfs_aflplusplus.Fat.Entry.{HasFat, entry, offset, width, max_fatent-lt}
use zephyr_fatfs_aflplusplus.Chain.Links.{used}
use zephyr_fatfs_aflplusplus.Api.Space.{
  scan_fat12, scan_fat, is_free_at, entry_bytes, count_free, getfree_body,
}
use zephyr_fatfs_aflplusplus.Api.Space.Entries.{
  IsStep, step_offset, Tally, scan_fat12-Tally, free_at16, free_at32,
}

-- The layout of the entries of a FAT16 or FAT32 volume, as `scan_fat` goes through them.
record IsLaid (g : Geometry) (v : Fatfs) (eb : ℕ) (off : ℕ → ℕ) : Type 0 where
  size : entry_bytes g ≡ eb
  first : off 0 ≡ 0
  next : (k : ℕ) → off (suc k) ≡ off k + eb
  step : (k : ℕ) → IsStep eb (off k)
  inside : (k : ℕ) → k < g.n_fatent → off k + eb ≤ g.fsize * 512
  free :
      (k : ℕ) {w : Fatfs}
      → IsKept g v w
      → k < g.n_fatent
      → w.winsect ≡ g.fatbase + off k / 512
      → is_free_at g w (off k % 512) ≡ (entry g v k == 0)

module _ (g : Geometry) (has : HasFat g) {v : Fatfs} (eb : ℕ) (off : ℕ → ℕ)
    (laid : IsLaid g v eb off) where
  -- The position after `k` entries.
  abbrev IsAt : ℕ → ℕ → ℕ → Fatfs → Type 0
  IsAt k sect i w =
      (i ≡ off k % 512)
      × (sect ≡ g.fatbase + (off k + 511) / 512)
      × (i ≢ 0 → w.winsect ≡ g.fatbase + off k / 512)

  next-IsAt :
      (k sect i : ℕ) (w : Fatfs)
      → k < g.n_fatent
      → IsAt k sect i w
      → w.winsect ≡ g.fatbase + off k / 512
      → IsAt (suc k) (if i == 0 then u32 (sect + 1) else sect) ((i + entry_bytes g) % 512) w
  next-IsAt k sect i w low (is, sector, win) here =
      let (byte, begun, stays) = step_offset eb (off k) (laid.step k) in
      let size = laid.size in
      let next = laid.next k in
      let small = laid.inside k low in
      let drive = has.on_drive in
      (
        ground (arith, byte, size, next, is),
        ground (arith, begun, next, is, sector, small, drive),
        λ ne. ground (arith, byte, stays, size, next, is, here),
      )

  tally_next :
      (k i nfree : ℕ) {w : Fatfs}
      → IsKept g v w
      → k < g.n_fatent
      → i ≡ off k % 512
      → w.winsect ≡ g.fatbase + off k / 512
      → nfree + used k (entry g v) ≡ k
      → (if is_free_at g w i then nfree + 1 else nfree) + used (suc k) (entry g v) ≡ suc k
  tally_next k i nfree {w} kept low is here tally =
      let free : is_free_at g w i ≡ (entry g v k == 0) =
        subst (λ j. is_free_at g w j ≡ (entry g v k == 0)) (sym is) (laid.free k kept low here) in
      rw free (ground arith)

  scan_fat-Tally :
      (clst k sect i nfree : ℕ) {w : Fatfs}
      → IsKept g v w
      → k + clst ≡ g.n_fatent
      → IsAt k sect i w
      → nfree + used k (entry g v) ≡ k
      → Ends (Tally g v) (IsKept g v) (scan_fat g clst sect i nfree w)
  unfolding scan_fat
  scan_fat-Tally zero k sect i nfree kept left at tally =
      returns (kept, subst (λ n. nfree + used n (entry g v) ≡ n) (omega arith) tally)
  scan_fat-Tally (suc clst) k sect i nfree {w} kept left (is, sector, win) tally =
      elim (Bool-cases (i == 0)) [
        | inl begin ↦ rw begin (
            Ends.bind (move_window-IsKept g has.placed sect kept.sound)
              (λ u k'. IsKept-trans g kept k')
              λ _ u (k', at).
                let all = IsKept-trans g kept k' in
                let here : u.winsect ≡ g.fatbase + off k / 512 = ground arith in
                scan_fat-Tally clst (suc k) _ _ _ all (omega arith)
                  (subst
                    (λ b.
                      IsAt (suc k) (if b then u32 (sect + 1) else sect) ((i + entry_bytes g) % 512)
                        u)
                    begin (next-IsAt k sect i u (omega arith) (is, sector, λ _. here) here))
                  (tally_next k i nfree all (omega arith) is here tally))
        | inr inner ↦ rw inner (
            let here = win (ground arith) in
            scan_fat-Tally clst (suc k) _ _ _ kept (omega arith)
              (subst
                (λ b.
                  IsAt (suc k) (if b then u32 (sect + 1) else sect) ((i + entry_bytes g) % 512) w)
                inner (next-IsAt k sect i w (omega arith) (is, sector, win) here))
              (tally_next k i nfree kept (omega arith) is here tally))
      ]

module _ (g : Geometry) (has : HasFat g) {v : Fatfs} where
  fat16-IsLaid : g.fs_type ≡ fat16 → IsLaid g v 2 (λ k. k * 2)
  fat16-IsLaid e = record {
    size = rw e refl;
    first = refl;
    next = λ k. omega arith;
    step = λ k. inl (refl, omega arith);
    inside = λ k low. subst (λ t. offset t k + width t ≤ g.fsize * 512) e (has.room k low);
    free = λ k kept low at. free_at16 g has k e kept low at;
  }

  fat32-IsLaid : g.fs_type ≡ fat32 → IsLaid g v 4 (λ k. k * 4)
  fat32-IsLaid e = record {
    size = rw e refl;
    first = refl;
    next = λ k. omega arith;
    step = λ k. inr (refl, omega arith);
    inside = λ k low. subst (λ t. offset t k + width t ≤ g.fsize * 512) e (has.room k low);
    free = λ k kept low at. free_at32 g has k e kept low at;
  }

  count_free-Tally :
      (t : FsType)
      → g.fs_type ≡ t
      → IsSound v
      → 2 < g.n_fatent
      → (entry g v 0 ≢ 0) × (entry g v 1 ≢ 0)
      → Ends (Tally g v) (IsKept g v) (count_free g v)
  unfolding count_free
  count_free-Tally fat12 e s some_cluster reserved =
      Ends.by_eq {r' = scan_fat12 g (suc g.n_fatent) 2 0 v} (rw e refl) (
        scan_fat12-Tally g has (suc g.n_fatent) 2 0 (IsKept-refl g s) (omega arith, some_cluster)
          (ground arith) (omega arith))
  count_free-Tally fat16 e s some_cluster reserved =
      Ends.by_eq {r' = scan_fat g g.n_fatent g.fatbase 0 0 v} (rw e refl) (
        scan_fat-Tally g has 2 (λ k. k * 2) (fat16-IsLaid e) g.n_fatent 0 g.fatbase 0 0
          (IsKept-refl g s) (omega arith) (refl, omega arith, λ ne. absurd (ne refl)) refl)
  count_free-Tally fat32 e s some_cluster reserved =
      Ends.by_eq {r' = scan_fat g g.n_fatent g.fatbase 0 0 v} (rw e refl) (
        scan_fat-Tally g has 4 (λ k. k * 4) (fat32-IsLaid e) g.n_fatent 0 g.fatbase 0 0
          (IsKept-refl g s) (omega arith) (refl, omega arith, λ ne. absurd (ne refl)) refl)

  -- On a FAT whose two reserved entries are not 0, and with a counter that is right where it counts
  -- as known, `f_getfree` gives the number of entries that are free, for each type of FAT: with the
  -- entries in use it makes up all. The counter then holds the same number, and no byte of the
  -- volume outside a second FAT has changed; nor has one after an error.
  pub getfree_body-Tally :
      IsSound v
      → 2 < g.n_fatent
      → (entry g v 0 ≢ 0) × (entry g v 1 ≢ 0)
      → (v.free_clst ≤ g.n_fatent - 2 → v.free_clst + used g.n_fatent (entry g v) ≡ g.n_fatent)
      → Ends
          (λ n w.
            (n + used g.n_fatent (entry g v) ≡ g.n_fatent)
            × (w.free_clst ≡ n)
            × ((a : ℕ) → IsPlain g (a / 512) → view w a ≡ view v a))
          (IsKept g v)
          (getfree_body g v)
  unfolding getfree_body
  getfree_body-Tally s some_cluster reserved known =
      let small : g.n_fatent < 2 ^ 32 = omega (arith, has.typed, max_fatent-lt g.fs_type) in
      elim (Bool-cases (leb v.free_clst (sub32 g.n_fatent 2))) [
        | inl cached ↦ rw cached (returns (known (ground arith), refl, λ a p. refl))
        | inr unknown ↦ rw unknown (
            Ends.bind (count_free-Tally g.fs_type refl s some_cluster reserved) (λ w kept. kept)
              λ n w (kept, tally). returns (tally, refl, kept.same))
      ]
