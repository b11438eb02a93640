-- ===== src/Window/Laws.antt =====
-- The window of ff.c (`sync_window` and `move_window`) as a view of the volume.
use zephyr_fatfs_aflplusplus.Base.{
  ℕ, ◌+◌, ◌*◌, ◌/◌, ◌%◌, ◌^◌, ◌≤◌, ◌<◌, ◌≡◌, ◌≢◌, refl, ◌⊎◌, inl, inr, false, arith, ◌==◌,
  if◌then◌else◌, Bool-cases, ◌∙◌, u32,
}
use zephyr_fatfs_aflplusplus.Diskio.{Bytes, disk_sectors}
use zephyr_fatfs_aflplusplus.Diskio.Laws.{disk_write-sector, disk_read-sector}
use zephyr_fatfs_aflplusplus.Volume.{
  Geometry, Fatfs, view, done, fail, disk_err, Fresult, Act, on_fail,
}
use zephyr_fatfs_aflplusplus.Volume.Ends
use zephyr_fatfs_aflplusplus.Volume.Ends.{Ends, returns, fails}
use zephyr_fatfs_aflplusplus.Window.{no_sector, reflect, sync_window, load_window, move_window}

-- Bytes are bytes, and a clean window holds what the drive holds.
pub record IsSound (v : Fatfs) : Type 0 where
  pub coherent :
      (a : ℕ)
      → v.wflag ≡ false
      → v.winsect < disk_sectors
      → a / 512 ≡ v.winsect
      → v.disk a ≡ v.win (a % 512)
  pub win_bytes : (i : ℕ) → v.win i < 256
  pub disk_bytes : (a : ℕ) → v.disk a < 256

-- Both FATs lie within 32-bit sector numbers.
pub record IsPlaced (g : Geometry) : Type 0 where
  pub fats_fit : g.fatbase + 2 * g.fsize < 2 ^ 32

-- A sector of the drive that is not of a second FAT, which `sync_window` overwrites: every sector of a
-- volume with one FAT.
abbrev pub IsPlain : Geometry → ℕ → Type 0
IsPlain g s =
    (s < disk_sectors)
    × ((g.n_fats ≢ 2) ⊎ ((s < g.fatbase + g.fsize) ⊎ (g.fatbase + 2 * g.fsize ≤ s)))

-- `v'` is `v` with the window elsewhere.
pub record IsKept (g : Geometry) (v v' : Fatfs) : Type 0 where
  pub sound : IsSound v'
  pub same : (a : ℕ) → IsPlain g (a / 512) → view v' a ≡ view v a
  pub last_clst : v'.last_clst ≡ v.last_clst
  pub free_clst : v'.free_clst ≡ v.free_clst
  pub fsi_flag : v'.fsi_flag ≡ v.fsi_flag

pub IsKept-refl : (g : Geometry) {v : Fatfs} → IsSound v → IsKept g v v
IsKept-refl g s = record {
  sound = s;
  same = λ a p. refl;
  last_clst = refl;
  free_clst = refl;
  fsi_flag = refl;
}

pub IsKept-trans : (g : Geometry) {u v w : Fatfs} → IsKept g u v → IsKept g v w → IsKept g u w
IsKept-trans g p q = record {
  sound = q.sound;
  same = λ a h. q.same a h ∙ p.same a h;
  last_clst = q.last_clst ∙ p.last_clst;
  free_clst = q.free_clst ∙ p.free_clst;
  fsi_flag = q.fsi_flag ∙ p.fsi_flag;
}

-- What `reflect` writes is in the second FAT.
reflect-plain :
    (g : Geometry) (s : ℕ) (w d : Bytes) (a : ℕ)
    → IsPlaced g
    → s < 2 ^ 32
    → IsPlain g (a / 512)
    → reflect g s w d a ≡ d a
unfolding reflect
reflect-plain g s w d a placed small plain = elim (disk_write-sector d w (u32 (s + g.fsize))) [
  | inl e ↦ rw e (ground (arith, placed.fats_fit))
  | inr (d', e, low, at) ↦ rw e (ground (arith, placed.fats_fit, at a))
]

reflect_bytes :
    (g : Geometry) (s : ℕ) (w d : Bytes) (a : ℕ)
    → ((i : ℕ) → w i < 256)
    → ((i : ℕ) → d i < 256)
    → reflect g s w d a < 256
unfolding reflect
reflect_bytes g s w d a hw hd = elim (disk_write-sector d w (u32 (s + g.fsize))) [
  | inl e ↦ rw e (ground (arith, hd a))
  | inr (d', e, low, at) ↦ rw e (ground (arith, hd a, hw (a % 512), at a))
]

-- The sector itself is not its own copy.
reflect_self :
    (g : Geometry) (s : ℕ) (w d : Bytes) (a : ℕ)
    → IsPlaced g
    → s < disk_sectors
    → a / 512 ≡ s
    → reflect g s w d a ≡ d a
unfolding reflect
reflect_self g s w d a placed small at_s = elim (disk_write-sector d w (u32 (s + g.fsize))) [
  | inl e ↦ rw e (ground (arith, placed.fats_fit))
  | inr (d', e, low, at) ↦ rw e (ground (arith, placed.fats_fit, at a))
]

module _ (g : Geometry) (placed : IsPlaced g) where
  flushed-IsKept :
      {v : Fatfs} (d : Bytes)
      → IsSound v
      → v.winsect < disk_sectors
      → ((a : ℕ) → d a ≡ (if a / 512 == v.winsect then v.win (a % 512) else v.disk a))
      → IsKept g v (record v { wflag = false; disk = reflect g v.winsect v.win d })
  flushed-IsKept {v} d s low at = record {
    sound = record {
      coherent = λ a _ _ h. ground (arith, reflect_self g v.winsect v.win d a placed low h, at a);
      win_bytes = s.win_bytes;
      disk_bytes = λ a.
          reflect_bytes g v.winsect v.win d a s.win_bytes
            (λ i. ground (arith, at i, s.win_bytes (i % 512), s.disk_bytes i));
    };
    same = λ a h. ground (arith, reflect-plain g v.winsect v.win d a placed, at a);
    last_clst = refl;
    free_clst = refl;
    fsi_flag = refl;
  }

  pub lost-IsKept :
      {v : Fatfs} → IsSound v → v.wflag ≡ false → IsKept g v (record v { winsect = no_sector })
  lost-IsKept {v} s clean = record {
    sound = record {
      coherent = λ a _ low. absurd (omega arith);
      win_bytes = s.win_bytes;
      disk_bytes = s.disk_bytes;
    };
    same = λ a h. ground (arith, s.coherent a);
    last_clst = refl;
    free_clst = refl;
    fsi_flag = refl;
  }

  pub filled-IsKept :
      {v : Fatfs} (sect : ℕ) (b : Bytes)
      → IsSound v
      → v.wflag ≡ false
      → ((i : ℕ) → b i ≡ v.disk (sect * 512 + i))
      → IsKept g v (record v { winsect = sect; win = b })
  filled-IsKept {v} sect b s clean at = record {
    sound = record {
      coherent = λ a _ _ h. ground (arith, at (a % 512));
      win_bytes = λ i. ground (arith, at i, s.disk_bytes (sect * 512 + i));
      disk_bytes = s.disk_bytes;
    };
    same = λ a h. ground (arith, at (a % 512), s.coherent a);
    last_clst = refl;
    free_clst = refl;
    fsi_flag = refl;
  }

  -- After `sync_window` the window is clean and where it was; an error changes nothing.
  pub sync_window-IsKept :
      {v : Fatfs}
      → IsSound v
      → Ends
          (λ _ v'.
            IsKept g v v'
            × (v'.wflag ≡ false)
            × (v'.winsect ≡ v.winsect)
            × ((i : ℕ) → v'.win i ≡ v.win i))
          (λ v'. v' ≡ v)
          (sync_window g v)
  unfolding sync_window
  sync_window-IsKept {v} s = elim (Bool-cases v.wflag) [
    | inl dirty ↦ elim (disk_write-sector v.disk v.win v.winsect) [
      | inl e ↦ Ends.by_eq {r' = fail disk_err v} (ground arith) (fails refl)
      | inr (d, e, low, at) ↦
          let clean : Fatfs = record v { wflag = false; disk = reflect g v.winsect v.win d } in
          let kept : IsKept g v clean = flushed-IsKept d s low at in
          Ends.by_eq {r' = done tt clean} (ground arith) (returns (kept, refl, refl, λ i. refl))
    ]
    | inr clean ↦
        Ends.by_eq {r' = done tt v} (ground arith)
          (returns (IsKept-refl g s, clean, refl, λ i. refl))
  ]

  load_window-IsKept :
      (sect : ℕ) {v : Fatfs}
      → IsSound v
      → v.wflag ≡ false
      → Ends (λ _ v'. IsKept g v v' × (v'.winsect ≡ sect)) (IsKept g v) (load_window g sect v)
  unfolding load_window
  load_window-IsKept sect {v} s clean = elim (disk_read-sector v.disk sect) [
    | inl e ↦
        let lost : Fatfs = record v { winsect = no_sector } in
        let kept : IsKept g v lost = lost-IsKept s clean in
        Ends.by_eq {r' = fail disk_err lost} (ground arith) (fails kept)
    | inr (b, e, low, at) ↦
        let filled : Fatfs = record v { winsect = sect; win = b } in
        let kept : IsKept g v filled = filled-IsKept sect b s clean at in
        Ends.by_eq {r' = done tt filled} (ground arith) (returns (kept, refl))
  ]

  -- `move_window` on a sound volume ends with the wanted sector in the window or with an error.
  -- Either way no byte of the volume, as the window and the drive hold it together, changes outside
  -- a second FAT.
  pub move_window-IsKept :
      (sect : ℕ) {v : Fatfs}
      → IsSound v
      → Ends (λ _ v'. IsKept g v v' × (v'.winsect ≡ sect)) (IsKept g v) (move_window g sect v)
  unfolding move_window
  move_window-IsKept sect {v} s = elim (Bool-cases (sect == v.winsect)) [
    | inl here ↦ rw here (returns (IsKept-refl g s, ground arith))
    | inr away ↦ rw away (
        Ends.bind (sync_window-IsKept s) (λ w e. rw e (IsKept-refl g s))
          λ _ w (kept, clean, at, same).
            Ends.mono (load_window-IsKept sect kept.sound clean)
              (λ _ u (k, e). (IsKept-trans g kept k, e)) (λ u k. IsKept-trans g kept k))
  ]

-- The only error of `move_window` is a disk error.
pub move_window_error :
    {B : Type 0} (g : Geometry) (sect : ℕ) (v : Fatfs) (k : Unit {0} → Act B) (h : Fresult → Act B)
    → on_fail (move_window g sect v) k h ≡ on_fail (move_window g sect v) k (λ _. h disk_err)
unfolding move_window sync_window load_window
move_window_error g sect v k h = ground arith
