-- ===== src/Fat.antt =====
-- The file allocation table of ff.c: `get_fat` and `put_fat`. A `break` out of the switch on a disk
-- error is the branch of `on_fail` that returns the default value.
pub mod Any
pub mod Entry
pub mod Get
pub mod Nibble
pub mod Patch
pub mod Put
pub mod Store
pub mod Twelve
use zephyr_fatfs_aflplusplus.Base.{
  ℕ, ◌+◌, ◌-◌, ◌*◌, ◌/◌, ◌%◌, ◌^◌, Bool, true, ltb, leb, ◌==◌, ◌||◌, if◌then◌else◌, u8, u32,
  low_bits, join,
}
use zephyr_fatfs_aflplusplus.Diskio.{Bytes, sector_size}
use zephyr_fatfs_aflplusplus.Volume.{
  Geometry, Fatfs, FsType, fat12, fat16, fat32, Act, done, fail, int_err, ◌>>=◌, ◌>>◌, return,
  throw, on_fail, put_byte,
}
use zephyr_fatfs_aflplusplus.Window.{move_window, ld_word, ld_dword, st_word, st_dword}

-- The values of `get_fat` that are no cluster status.
abbrev pub disk_error : ℕ
disk_error = 2 ^ 32 - 1

abbrev pub internal_error : ℕ
internal_error = 1

abbrev pub is_odd : ℕ → Bool
is_odd n = n % 2 == 1

-- `fs->win` rewritten, and `fs->wflag = 1`.
abbrev pub poke : Bytes → Fatfs → Fatfs
poke p v = record v { win = p; wflag = true }

-- The two halves of an entry of 12 bits, each with the byte it shares.
unfoldable pub first_byte : ℕ → ℕ → ℕ → ℕ
first_byte clst val old = if is_odd clst then u8 (join 4 (u8 val) (low_bits old 4)) else u8 val

unfoldable pub second_byte : ℕ → ℕ → ℕ → ℕ
second_byte clst val old =
    if is_odd clst then u8 (val / 2 ^ 4) else join 4 (old / 2 ^ 4) (low_bits (u8 (val / 2 ^ 8)) 4)

module _ (g : Geometry) where
  -- The sector of the FAT that holds its byte `i`.
  abbrev pub fat_sector : ℕ → ℕ
  fat_sector i = u32 (g.fatbase + i / sector_size)

  unfoldable pub get_fat12 : ℕ → Act ℕ
  get_fat12 clst v =
      let bc = u32 (clst + clst / 2) in
      on_fail (move_window g (fat_sector bc) v)
        (λ _ v1.
          let wc = v1.win (bc % sector_size) in
          on_fail (move_window g (fat_sector (bc + 1)) v1)
            (λ _ v2.
              let wc2 = join 8 (v2.win ((bc + 1) % sector_size)) wc in
              done (if is_odd clst then wc2 / 2 ^ 4 else low_bits wc2 12) v2)
            (λ _ v2. done disk_error v2))
        (λ _ v1. done disk_error v1)

  unfoldable pub get_fat16 : ℕ → Act ℕ
  get_fat16 clst v =
      on_fail (move_window g (u32 (g.fatbase + clst / (sector_size / 2))) v)
        (λ _ v1. done (ld_word v1.win (u32 (clst * 2) % sector_size)) v1)
        (λ _ v1. done disk_error v1)

  unfoldable pub get_fat32 : ℕ → Act ℕ
  get_fat32 clst v =
      on_fail (move_window g (u32 (g.fatbase + clst / (sector_size / 4))) v)
        (λ _ v1. done (low_bits (ld_dword v1.win (u32 (clst * 4) % sector_size)) 28) v1)
        (λ _ v1. done disk_error v1)

  unfoldable pub get_fat : ℕ → Act ℕ
  get_fat clst v =
      if ltb clst 2 || leb g.n_fatent clst then done internal_error v else elim g.fs_type [
        | fat12 ↦ get_fat12 clst v
        | fat16 ↦ get_fat16 clst v
        | fat32 ↦ get_fat32 clst v
      ]

  unfoldable pub put_fat12 : ℕ → ℕ → Act (Unit {0})
  put_fat12 clst val = do
    let bc = u32 (clst + clst / 2)
    move_window g (fat_sector bc)
    (λ v. done tt (
        poke (put_byte v.win (bc % sector_size) (first_byte clst val (v.win (bc % sector_size))))
          v))
    move_window g (fat_sector (bc + 1))
    (λ v. done tt (
        poke
          (put_byte v.win ((bc + 1) % sector_size)
            (second_byte clst val (v.win ((bc + 1) % sector_size))))
          v))

  unfoldable pub put_fat16 : ℕ → ℕ → Act (Unit {0})
  put_fat16 clst val = do
    move_window g (u32 (g.fatbase + clst / (sector_size / 2)))
    (λ v. done tt (poke (st_word v.win (u32 (clst * 2) % sector_size) (low_bits val 16)) v))

  unfoldable pub put_fat32 : ℕ → ℕ → Act (Unit {0})
  put_fat32 clst val = do
    move_window g (u32 (g.fatbase + clst / (sector_size / 4)))
    (λ v.
        let at = u32 (clst * 4) % sector_size in
        done tt
          (poke (st_dword v.win at (join 28 (ld_dword v.win at / 2 ^ 28) (low_bits val 28))) v))

  unfoldable pub put_fat : ℕ → ℕ → Act (Unit {0})
  put_fat clst val v =
      if ltb clst 2 || leb g.n_fatent clst then fail int_err v else elim g.fs_type [
        | fat12 ↦ put_fat12 clst val v
        | fat16 ↦ put_fat16 clst val v
        | fat32 ↦ put_fat32 clst val v
      ]
