-- ===== src/Fat/Store.antt =====
-- The stores of `put_fat` in ff.c for FAT16 and FAT32, words of the window.
use zephyr_fatfs_aflplusplus.Base.{
  inr, ℕ, ◌+◌, ◌*◌, ◌/◌, ◌^◌, ◌≤◌, ◌<◌, ◌≡◌, ◌≢◌, ◌⊎◌, inl, refl, arith, low_bits, u8,
}
use zephyr_fatfs_aflplusplus.Volume.{Geometry, Fatfs, FsType, fat12, fat16, fat32, view}
use zephyr_fatfs_aflplusplus.Window.{st_word, st_dword}
use zephyr_fatfs_aflplusplus.Window.Laws.{IsSound, IsKept, IsPlain}
use zephyr_fatfs_aflplusplus.Fat.{poke}
use zephyr_fatfs_aflplusplus.Fat.Entry.{
  offset, width, bits, HasFat, entry_of, entry_of_ext, fat_byte,
}
use zephyr_fatfs_aflplusplus.Fat.Patch.{
  IsLocal, Kept-IsLocal, Patched-IsLocal, IsLocal-trans, poke-IsPatched,
}

-- `v'` is `v` but for the entry of cluster `c`, read as of type `t`.
pub record IsEditedAs (t : FsType) (g : Geometry) (c : ℕ) (v v' : Fatfs) : Type 0 where
  pub sound : IsSound v'
  pub others :
      (d : ℕ)
      → d ≢ c
      → offset t d + width t ≤ g.fsize * 512
      → entry_of t d (fat_byte g v') ≡ entry_of t d (fat_byte g v)
  pub beyond :
      (a : ℕ)
      → IsPlain g (a / 512)
      → (a < g.fatbase * 512) ⊎ (g.fatbase * 512 + g.fsize * 512 ≤ a)
      → view v' a ≡ view v a
  pub last_clst : v'.last_clst ≡ v.last_clst
  pub free_clst : v'.free_clst ≡ v.free_clst
  pub fsi_flag : v'.fsi_flag ≡ v.fsi_flag

abbrev pub Set : (t : FsType) → Geometry → Fatfs → (c val : ℕ) → Fatfs → Type 0
Set t g v c val v' = IsEditedAs t g c v v' × (entry_of t c (fat_byte g v') ≡ low_bits val (bits t))

apart :
    (t : FsType) (c d i : ℕ)
    → t ≢ fat12
    → d ≢ c
    → offset t d ≤ i
    → i < offset t d + width t
    → (i < offset t c) ⊎ (offset t c + width t ≤ i)
apart fat12 c d i ne other low high = absurd (ne refl)
apart fat16 c d i ne other low high = ground arith
apart fat32 c d i ne other low high = ground arith

-- The four bytes of a stored word are the entry.
dword_entry :
    (c val x : ℕ) (b : ℕ → ℕ)
    → low_bits x 28 ≡ low_bits val 28
    → b (c * 4) ≡ u8 x
    → b (c * 4 + 1) ≡ u8 (x / 2 ^ 8)
    → b (c * 4 + 2) ≡ u8 (x / 2 ^ 8 / 2 ^ 8)
    → b (c * 4 + 3) ≡ u8 (x / 2 ^ 8 / 2 ^ 8 / 2 ^ 8)
    → entry_of fat32 c b ≡ low_bits val 28
unfolding entry_of
dword_entry c val x b low e0 e1 e2 e3 = omega arith

module _ (g : Geometry) (has : HasFat g) where
  -- Entries of 16 and 32 bits share no byte.
  pub Local-IsEditedAs :
      (t : FsType) (c : ℕ) {v v' : Fatfs}
      → t ≢ fat12
      → offset t c + width t ≤ g.fsize * 512
      → IsLocal g (g.fatbase * 512 + offset t c) (width t) v v'
      → IsEditedAs t g c v v'
  Local-IsEditedAs t c {v} {v'} ne room local = record {
    sound = local.sound;
    others = λ d other room'. entry_of_ext t d (fat_byte g v) (fat_byte g v') λ i low high.
        local.outside (g.fatbase * 512 + i) (omega (arith, has.on_drive), inr (inl (omega arith)))
          (ground (arith, apart t c d i ne other low high));
    beyond = λ a plain out. local.outside a plain (ground arith);
    last_clst = local.last_clst;
    free_clst = local.free_clst;
    fsi_flag = local.fsi_flag;
  }

  -- `st_word` in a window that has just moved to the entry.
  pub store16-Set :
      (c val s o : ℕ) {v w : Fatfs}
      → IsKept g v w
      → w.winsect ≡ g.fatbase + s
      → o < 511
      → c * 2 ≡ s * 512 + o
      → c * 2 + 2 ≤ g.fsize * 512
      → Set fat16 g v c val (poke (st_word w.win o (low_bits val 16)) w)
  unfolding entry_of st_word
  store16-Set c val s o {v} {w} kept at small e room =
      let i = g.fatbase * 512 + c * 2 in
      let b0 = u8 (low_bits val 16) in
      let b1 = u8 (low_bits val 16 / 2 ^ 8) in
      let p =
        poke-IsPatched {v = w} (g.fatbase + s) o b0 i kept.sound at (omega arith) (omega arith)
          (omega arith) in
      let q =
        poke-IsPatched (g.fatbase + s) (o + 1) b1 (i + 1) p.sound at (omega arith) (omega arith)
          (omega arith) in
      let local = IsLocal-trans g i 2 (Kept-IsLocal g i 2 kept) (
        IsLocal-trans g i 2 (Patched-IsLocal g i 2 i b0 p (omega arith) (omega arith))
          (Patched-IsLocal g i 2 (i + 1) b1 q (omega arith) (omega arith))) in
      (
        Local-IsEditedAs fat16 c (λ e. cc) room local,
        ground (arith, p.at i, q.at i, q.at (g.fatbase * 512 + (c * 2 + 1))),
      )

  pub store32-Set :
      (c val s o : ℕ) {v w : Fatfs}
      → IsKept g v w
      → w.winsect ≡ g.fatbase + s
      → o < 509
      → c * 4 ≡ s * 512 + o
      → c * 4 + 4 ≤ g.fsize * 512
      → (x : ℕ) → low_bits x 28 ≡ low_bits val 28
      → Set fat32 g v c val (poke (st_dword w.win o x) w)
  unfolding entry_of st_dword
  store32-Set c val s o {v} {w} kept at small e room x low =
      let i = g.fatbase * 512 + c * 4 in
      let x1 = x / 2 ^ 8 in
      let x2 = x1 / 2 ^ 8 in
      let x3 = x2 / 2 ^ 8 in
      let p =
        poke-IsPatched {v = w} (g.fatbase + s) o (u8 x) i kept.sound at (omega arith) (omega arith)
          (omega arith) in
      let q =
        poke-IsPatched (g.fatbase + s) (o + 1) (u8 x1) (i + 1) p.sound at (omega arith)
          (omega arith) (omega arith) in
      let r =
        poke-IsPatched (g.fatbase + s) (o + 2) (u8 x2) (i + 2) q.sound at (omega arith)
          (omega arith) (omega arith) in
      let z =
        poke-IsPatched (g.fatbase + s) (o + 3) (u8 x3) (i + 3) r.sound at (omega arith)
          (omega arith) (omega arith) in
      let local = IsLocal-trans g i 4 (Kept-IsLocal g i 4 kept) (
        IsLocal-trans g i 4 (Patched-IsLocal g i 4 i (u8 x) p (omega arith) (omega arith)) (
          IsLocal-trans g i 4 (Patched-IsLocal g i 4 (i + 1) (u8 x1) q (omega arith) (omega arith))
            (IsLocal-trans g i 4
              (Patched-IsLocal g i 4 (i + 2) (u8 x2) r (omega arith) (omega arith))
              (Patched-IsLocal g i 4 (i + 3) (u8 x3) z (omega arith) (omega arith))))) in
      let f = λ (k : ℕ). g.fatbase * 512 + (c * 4 + k) in
      (
        Local-IsEditedAs fat32 c (λ e. cc) room local,
        dword_entry c val x (fat_byte g (poke (st_dword w.win o x) w)) low
            (ground (arith, p.at i, q.at i, r.at i, z.at i))
            (ground (arith, q.at (f 1), r.at (f 1), z.at (f 1)))
            (ground (arith, r.at (f 2), z.at (f 2))) (ground (arith, z.at (f 3))),
      )
