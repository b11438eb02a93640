-- ===== src/Dir/Clear.antt =====
-- `dir_clear` of ff.c.
use zephyr_fatfs_aflplusplus.Base.{
  ℕ, zero, suc, ◌+◌, ◌/◌, ◌%◌, ◌≤◌, ◌<◌, ◌≡◌, ◌⊎◌, inl, inr, refl, Bool, true, false, arith,
  Bool-cases, u32, sym, subst, ap,
}
use zephyr_fatfs_aflplusplus.Diskio.{Bytes, disk_sectors}
use zephyr_fatfs_aflplusplus.Diskio.Laws.{disk_write-sector, disk_write_on_drive}
use zephyr_fatfs_aflplusplus.Volume.{Geometry, Fatfs, view}
use zephyr_fatfs_aflplusplus.Volume.Ends
use zephyr_fatfs_aflplusplus.Volume.Ends.{Ends, returns, fails}
use zephyr_fatfs_aflplusplus.Window.{clst2sect}
use zephyr_fatfs_aflplusplus.Window.Laws.{IsSound, IsPlaced, IsPlain, IsKept, sync_window-IsKept}
use zephyr_fatfs_aflplusplus.Fat.Get.{Never}
use zephyr_fatfs_aflplusplus.Dir.{clear_sectors, dir_clear}

-- The drive `d'` is `d` with sectors among the `n` from `sect` on zeroed: the first where it is on the
-- drive, and all of them where `all` says so.
pub record IsZeroed (d : Bytes) (sect n : ℕ) (all : Bool) (d' : Bytes) : Type 0 where
  pub outside : (a : ℕ) → (a / 512 < sect) ⊎ (sect + n ≤ a / 512) → d' a ≡ d a
  pub inside : (a : ℕ) → (d' a ≡ 0) ⊎ (d' a ≡ d a)
  pub first : (a : ℕ) → 1 ≤ n → sect < disk_sectors → a / 512 ≡ sect → d' a ≡ 0
  pub every : all ≡ true → (a : ℕ) → sect ≤ a / 512 → a / 512 < sect + n → d' a ≡ 0

-- Only the drive changes.
pub record IsCleared (v : Fatfs) (sect n : ℕ) (all : Bool) (w : Fatfs) : Type 0 where
  pub zeroed : IsZeroed v.disk sect n all w.disk
  pub rest : w ≡ record v { disk = w.disk }

clear_sectors-IsCleared :
    (n sect : ℕ) {v : Fatfs}
    → ((i : ℕ) → v.win i ≡ 0)
    → Ends (λ all w. IsCleared v sect n all w) Never (clear_sectors n sect v)
unfolding clear_sectors
clear_sectors-IsCleared zero sect blank = returns (record {
  zeroed = record {
    outside = λ a h. refl;
    inside = λ a. inr refl;
    first = λ a h. absurd (omega arith);
    every = λ h a low high. absurd (omega arith);
  };
  rest = refl;
})
clear_sectors-IsCleared (suc n) sect {v} blank = elim (disk_write-sector v.disk v.win sect) [
  | inl e ↦
      rw (clear_sectors, e)
        (returns (record {
          zeroed = record {
            outside = λ a h. refl;
            inside = λ a. inr refl;
            first = λ a h low here.
                let (d, e', at) = disk_write_on_drive v.disk v.win sect low in
                absurd (ground arith);
            every = λ h. absurd (ground arith);
          };
          rest = refl;
        }))
  | inr (d, e, low, at) ↦
      rw (clear_sectors, e)
        (Ends.mono (clear_sectors-IsCleared n (u32 (sect + 1)) {v = record v { disk = d }} blank)
          (λ all w c. record {
            zeroed = record {
              outside = λ a h. ground (arith, c.zeroed.outside a, at a);
              inside = λ a. ground (arith, c.zeroed.inside a, at a, blank (a % 512));
              first = λ a h h' here. ground (arith, c.zeroed.outside a, at a, blank (a % 512));
              every = λ h a low' high'.
                  ground (arith, c.zeroed.every h a, c.zeroed.outside a, at a, blank (a % 512));
            };
            rest = c.rest;
          })
          (λ w never. never))
]

-- The bytes outside the cluster and a second FAT are as before.
abbrev pub Elsewhere : Geometry → ℕ → Fatfs → Fatfs → Type 0
Elsewhere g sect v w =
    (a : ℕ)
    → IsPlain g (a / 512)
    → (a / 512 < sect) ⊎ (sect + g.csize ≤ a / 512)
    → view w a ≡ view v a

module _ (g : Geometry) (placed : IsPlaced g) (some_sector : 1 ≤ g.csize) where
  cleared-IsSound :
      {u w : Fatfs} (sect : ℕ) (all : Bool)
      → IsSound u
      → u.wflag ≡ false
      → IsCleared (record u { winsect = sect; win = λ i. 0 }) sect g.csize all w
      → IsSound w
  cleared-IsSound {u} {w} sect all s clean c = subst IsSound (sym c.rest) (record {
    coherent = λ a h low here. c.zeroed.first a some_sector low here;
    win_bytes = λ i. omega arith;
    disk_bytes = λ a. ground (arith, c.zeroed.inside a, s.disk_bytes a);
  })

  cleared-Elsewhere :
      {v u w : Fatfs} (sect : ℕ) (all : Bool)
      → IsKept g v u
      → u.wflag ≡ false
      → IsCleared (record u { winsect = sect; win = λ i. 0 }) sect g.csize all w
      → Elsewhere g sect v w
  cleared-Elsewhere {v} {u} {w} sect all kept clean c a plain out =
      subst (λ (x : Fatfs). view x a ≡ view v a) (sym c.rest)
        (ground (arith, c.zeroed.outside a, kept.same a, kept.sound.coherent a))

  -- `dir_clear` fills the sectors of a cluster with zeros, and no byte outside the cluster and a
  -- second FAT changes. If a sector cannot be written it fails, and still changes no other byte and
  -- leaves the window and the drive in agreement.
  pub dir_clear-Elsewhere :
      (clst : ℕ) {v : Fatfs}
      → IsSound v
      → Ends
          (λ _ w.
            IsSound w
            × Elsewhere g (clst2sect g clst) v w
            × ((a : ℕ)
                → clst2sect g clst ≤ a / 512
                → a / 512 < clst2sect g clst + g.csize
                → view w a ≡ 0))
          (λ w. IsSound w × Elsewhere g (clst2sect g clst) v w)
          (dir_clear g clst v)
  unfolding dir_clear
  dir_clear-Elsewhere clst {v} s =
      let sect = clst2sect g clst in
      Ends.bind (sync_window-IsKept g placed s) (λ u is. rw is (s, λ a plain out. refl))
        λ _ u (kept, clean, at, same).
          Ends.bind
            (clear_sectors-IsCleared g.csize sect {v = record u { winsect = sect; win = λ i. 0 }}
              (λ i. refl))
            (λ w never. absurd never)
            λ all w c.
              let sound : IsSound w = cleared-IsSound sect all kept.sound clean c in
              let elsewhere : Elsewhere g sect v w = cleared-Elsewhere sect all kept clean c in
              elim (Bool-cases all) [
                | inl every ↦ rw every (
                    returns (
                      sound,
                      elsewhere,
                      λ a low high.
                          subst (λ (x : Fatfs). view x a ≡ 0) (sym c.rest)
                            (ground (arith, c.zeroed.every every a)),
                    ))
                | inr failed ↦ rw failed (fails (sound, elsewhere))
              ]

  -- Behind a call that succeeds the window is at the cluster, and zero.
  pub dir_clear_window :
      (clst : ℕ) {v : Fatfs}
      → IsSound v
      → Ends
          (λ _ w. (w.winsect ≡ clst2sect g clst) × ((i : ℕ) → w.win i ≡ 0))
          (λ w. Unit {0})
          (dir_clear g clst v)
  unfolding dir_clear
  dir_clear_window clst {v} s =
      let sect = clst2sect g clst in
      Ends.bind (sync_window-IsKept g placed s) (λ u is. tt)
        λ _ u (kept, clean, at, same).
          Ends.bind
            (clear_sectors-IsCleared g.csize sect {v = record u { winsect = sect; win = λ i. 0 }}
              (λ i. refl))
            (λ w never. absurd never)
            λ all w c. elim (Bool-cases all) [
              | inl every ↦ rw every (
                  returns
                    (ap (λ (x : Fatfs). x.winsect) c.rest, λ i. ap (λ (x : Fatfs). x.win i) c.rest))
              | inr failed ↦ rw failed (fails tt)
            ]
