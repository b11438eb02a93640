-- ===== src/Window.antt =====
-- The one-sector window of ff.c: `sync_window`, `move_window`, `clst2sect` and the little-endian
-- words of the FAT structure.
pub mod Laws
use zephyr_fatfs_aflplusplus.Base.{
  ℕ, suc, ◌+◌, ◌-◌, ◌*◌, ◌/◌, ◌%◌, ◌^◌, Bool, true, false, Option, none, some, ltb, leb, ◌==◌,
  if◌then◌else◌, u8, u16, u32, sub32, join,
}
use zephyr_fatfs_aflplusplus.Diskio.{Bytes, disk_read, disk_write}
use zephyr_fatfs_aflplusplus.Volume.{
  Geometry, Fatfs, Act, Out, done, fail, disk_err, ◌>>=◌, ◌>>◌, return, throw, put_byte,
}

-- `ld_word` and `ld_dword` at byte `i` of `p`.
unfoldable pub ld_word : Bytes → ℕ → ℕ
ld_word p i = join 8 (p (i + 1)) (p i)

unfoldable pub ld_dword : Bytes → ℕ → ℕ
ld_dword p i = join 8 (join 8 (join 8 (p (i + 3)) (p (i + 2))) (p (i + 1))) (p i)

unfoldable pub st_word : Bytes → ℕ → ℕ → Bytes
unfolding put_byte
st_word p i val = put_byte (put_byte p i (u8 val)) (i + 1) (u8 (val / 2 ^ 8))

unfoldable pub st_dword : Bytes → ℕ → ℕ → Bytes
unfolding put_byte
st_dword p i val =
    put_byte
      (put_byte (put_byte (put_byte p i (u8 val)) (i + 1) (u8 (val / 2 ^ 8))) (i + 2)
        (u8 (val / 2 ^ 8 / 2 ^ 8)))
      (i + 3) (u8 (val / 2 ^ 8 / 2 ^ 8 / 2 ^ 8))

abbrev pub no_sector : ℕ
no_sector = 2 ^ 32 - 1

module _ (g : Geometry) where
  -- The copy of a sector of the first FAT in the second; the result of that write is not looked at.
  unfoldable pub reflect : ℕ → Bytes → Bytes → Bytes
  reflect sect win disk =
      if ltb (sub32 sect g.fatbase) g.fsize
      then if g.n_fats == 2
        then elim (disk_write disk win (u32 (sect + g.fsize)) 1) [ none ↦ disk | some d ↦ d ]
        else disk
      else disk

  unfoldable pub sync_window : Act (Unit {0})
  sync_window v =
      if v.wflag
      then elim (disk_write v.disk v.win v.winsect 1) [
        | none ↦ fail disk_err v
        | some d ↦ done tt (record v { wflag = false; disk = reflect v.winsect v.win d })
      ]
      else done tt v

  -- The read that fills the window; a failed one leaves the window without a sector.
  unfoldable pub load_window : ℕ → Act (Unit {0})
  load_window sect v = elim (disk_read v.disk sect 1) [
    | none ↦ fail disk_err (record v { winsect = no_sector })
    | some b ↦ done tt (record v { winsect = sect; win = b })
  ]

  unfoldable pub move_window : ℕ → Act (Unit {0})
  move_window sect v = if sect == v.winsect then done tt v else (do sync_window; load_window sect) v

  -- The first sector of a cluster, 0 for an invalid one.
  unfoldable pub clst2sect : ℕ → ℕ
  clst2sect clst =
      if leb (sub32 g.n_fatent 2) (sub32 clst 2)
      then 0
      else u32 (g.database + u32 (g.csize * sub32 clst 2))
