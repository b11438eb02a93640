-- ===== src/Dir/Table.antt =====
-- Searching and changing directory tables in ff.c: `dir_alloc`, `dir_read`, `dir_find`,
-- `dir_register` and `dir_remove`. Each loop runs on fuel and is given one round per entry of the
-- largest table.
use zephyr_fatfs_aflplusplus.Base.{
  ℕ, zero, suc, ◌+◌, ◌-◌, ◌/◌, Bool, true, false, not, Option, none, some, ltb, ◌==◌, ◌||◌, ◌&&◌,
  if◌then◌else◌, low_bits, bit,
}
use zephyr_fatfs_aflplusplus.Diskio.{Bytes}
use zephyr_fatfs_aflplusplus.Volume.{
  Geometry, Fatfs, Fresult, no_file, denied, Act, done, out_of_fuel, ◌>>=◌, return, on_fail,
  put_byte,
}
use zephyr_fatfs_aflplusplus.Window.{move_window}
use zephyr_fatfs_aflplusplus.Fat.{poke}
use zephyr_fatfs_aflplusplus.Dir.{
  Dir, Step, ok, halt, max_dir, entry_size, if_ok, dir_sdi, dir_next,
}

abbrev pub deleted : ℕ
deleted = 0xE5

-- One more round than the largest table has entries.
abbrev pub table_rounds : ℕ
table_rounds = max_dir / entry_size + 1

-- `!memcmp(p + at, q + i, n)`
unfoldable pub same_bytes : ℕ → Bytes → ℕ → Bytes → ℕ → Bool
same_bytes zero p at q i = true
same_bytes (suc n) p at q i = (p at == q i) && same_bytes n p (at + 1) q (i + 1)

-- `DIR_Name[0]` and the defined bits of `DIR_Attr` of the entry.
abbrev pub first_char : Dir → Fatfs → ℕ
first_char dp v = v.win dp.dir

abbrev pub attributes : Dir → Fatfs → ℕ
attributes dp v = low_bits (v.win (dp.dir + 11)) 6

-- `(attr & ~AM_ARC) == AM_VOL`
abbrev pub is_label : ℕ → Bool
is_label attr = (attr == 0x08) || (attr == 0x28)

abbrev pub is_free : ℕ → Bool
is_free c = (c == deleted) || (c == 0)

-- Whether the entry in the window is the one looked for.
abbrev pub is_match : Dir → Fatfs → Bool
is_match dp w = not (bit (w.win (dp.dir + 11)) 3) && same_bytes 11 w.win dp.dir dp.fn 0

module _ (g : Geometry) where
  -- `move_window(fs, dp->sect)`, whose error ends the loop.
  abbrev pub at_entry : Dir → Act Step → Act Step
  at_entry dp k v = on_fail (move_window g dp.sect v) (λ _ w. k w) (λ e w. done (halt e dp) w)

  unfoldable pub alloc_loop : ℕ → ℕ → ℕ → Dir → Act Step
  alloc_loop zero n n_ent dp = λ _. out_of_fuel
  alloc_loop (suc fuel) n n_ent dp = at_entry dp λ w.
      let n' = if is_free (first_char dp w) then n + 1 else 0 in
      let next = (dir_next g dp true >>= λ r. if_ok r (alloc_loop fuel n' n_ent)) w in
      if is_free (first_char dp w) && n' == n_ent then done (ok dp) w else next

  -- "No directory entry to allocate"
  unfoldable pub no_room : Step → Step
  no_room (ok dp) = ok dp
  no_room (halt e dp) = halt (elim e as (λ e. Fresult) [ no_file ↦ denied | other ↦ other ]) dp

  unfoldable pub dir_alloc : Dir → ℕ → Act Step
  unfolding no_room
  dir_alloc dp n_ent = do
    start ← dir_sdi g dp 0
    r ← if_ok start (alloc_loop table_rounds 0 n_ent)
    return (no_room r)

  -- `if (res != FR_OK) dp->sect = 0;`
  unfoldable pub stop_reading : Step → Step
  stop_reading (ok dp) = ok dp
  stop_reading (halt e dp) = halt e (record dp { sect = 0 })

  -- `res` is the result that the loop ends with when there is no sector.
  unfoldable pub read_loop : ℕ → Bool → Option Fresult → Dir → Act Step
  read_loop zero vol res dp = λ _. out_of_fuel
  read_loop (suc fuel) vol res dp =
      if dp.sect == 0
      then return (elim res [ none ↦ ok dp | some e ↦ halt e dp ])
      else at_entry dp λ w.
        let b = first_char dp w in
        let attr = attributes dp w in
        let dp1 = record dp { attr = attr } in
        let valid =
          not (b == deleted)
          && (not (b == 0x2E)
              && (not (attr == 0x0F) && (if vol then is_label attr else not (is_label attr)))) in
        let next = (dir_next g dp1 false >>= λ r. if_ok r (read_loop fuel vol none)) w in
        if b == 0 then done (halt no_file dp) w else if valid then done (ok dp1) w else next

  -- The next entry of a file or directory, or of a volume label where `vol` says so.
  unfoldable pub dir_read : Dir → Bool → Act Step
  unfolding stop_reading
  dir_read dp vol = do r ← read_loop table_rounds vol (some no_file) dp; return (stop_reading r)

  unfoldable pub find_loop : ℕ → Dir → Act Step
  find_loop zero dp = λ _. out_of_fuel
  find_loop (suc fuel) dp = at_entry dp λ w.
      let dp1 = record dp { attr = attributes dp w } in
      let next = (dir_next g dp1 false >>= λ r. if_ok r (find_loop fuel)) w in
      if first_char dp w == 0
      then done (halt no_file dp) w
      else if is_match dp w
      then done (ok dp1) w
      else next

  unfoldable pub dir_find : Dir → Act Step
  dir_find dp = do start ← dir_sdi g dp 0; if_ok start (find_loop table_rounds)

  -- The entry with the name `fn`, zero but for it.
  unfoldable pub new_entry : Bytes → ℕ → Bytes → Bytes
  new_entry win dir fn i =
      if ltb i dir
      then win i
      else if ltb i (dir + 11)
      then fn (i - dir)
      else if ltb i (dir + 32)
      then 0
      else win i

  unfoldable pub dir_register : Dir → Act Step
  unfolding new_entry
  dir_register dp = do
    r ← dir_alloc dp 1
    if_ok r λ dp'. at_entry dp' λ w. done (ok dp') (poke (new_entry w.win dp'.dir dp'.fn) w)

  unfoldable pub dir_remove : Dir → Act Step
  unfolding put_byte
  dir_remove dp = at_entry dp λ w. done (ok dp) (poke (put_byte w.win dp.dir deleted) w)
