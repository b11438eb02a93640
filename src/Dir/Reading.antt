-- ===== src/Dir/Reading.antt =====
-- `dir_read` and `dir_remove` of ff.c.
use zephyr_fatfs_aflplusplus.Base.{
  ℕ, zero, suc, ◌+◌, ◌*◌, ◌<◌, ◌≤◌, ◌≡◌, ◌≢◌, ◌⊎◌, inl, inr, refl, Bool, true, not, arith, Option,
  none, some, ◌==◌, ◌&&◌, if◌then◌else◌, Bool-cases, low_bits,
}
use zephyr_fatfs_aflplusplus.Volume.{Geometry, Fatfs, Fresult, disk_err, no_file, return, put_byte}
use zephyr_fatfs_aflplusplus.Volume.Ends
use zephyr_fatfs_aflplusplus.Volume.Ends.{Ends, returns}
use zephyr_fatfs_aflplusplus.Window.Laws.{IsSound, IsKept, IsKept-refl, IsKept-trans}
use zephyr_fatfs_aflplusplus.Fat.{poke}
use zephyr_fatfs_aflplusplus.Fat.Entry.{HasFat}
use zephyr_fatfs_aflplusplus.Fat.Get.{Never}
use zephyr_fatfs_aflplusplus.Dir.{Dir, Step, ok, halt, max_dir, if_ok}
use zephyr_fatfs_aflplusplus.Dir.Table.{
  read_loop, dir_read, stop_reading, dir_remove, deleted, attributes, is_label, table_rounds,
}
use zephyr_fatfs_aflplusplus.Dir.Move.{Moved, dir_next-Moved}
use zephyr_fatfs_aflplusplus.Dir.Find.{IsShown, at_entry-Ends}

-- The test of `dir_read` on the entry in the window.
abbrev pub is_valid : Bool → ℕ → ℕ → Bool
is_valid vol b attr =
    not (b == deleted)
    && (not (b == 0x2E)
        && (not (attr == 0x0F) && (if vol then is_label attr else not (is_label attr))))

-- An entry that is there to be read is in the window, unless the object has no sector. The object
-- has not gone back behind the offset `start`.
abbrev pub Read : Geometry → Fatfs → Bool → ℕ → Step → Fatfs → Type 0
Read g v vol start (ok dp) w =
    IsKept g v w
    × ((start ≤ dp.dptr) × (dp.dptr < max_dir))
    × ((dp.sect ≡ 0)
        ⊎ ((w.winsect ≡ dp.sect)
            × (w.win dp.dir ≢ 0)
            × (is_valid vol (w.win dp.dir) dp.attr ≡ true)
            × (dp.attr ≡ low_bits (w.win (dp.dir + 11)) 6)))
Read g v vol start (halt e dp) w = IsKept g v w

module _ (g : Geometry) (has : HasFat g) where
  Read-rest :
      (fuel : ℕ) (vol : Bool) (start : ℕ) (dp : Dir) (r : Step) (u w : Fatfs) {v : Fatfs}
      → ((d : Dir)
          → IsKept g v w
          → start ≤ d.dptr
          → d.dptr < max_dir
          → max_dir < d.dptr + fuel * 32
          → Ends (Read g v vol start) Never (read_loop g fuel vol none d w))
      → IsKept g v u
      → start ≤ dp.dptr
      → max_dir < dp.dptr + suc fuel * 32
      → Moved g u dp r w
      → Ends (Read g v vol start) Never (if_ok r (read_loop g fuel vol none) w)
  Read-rest fuel vol start dp (ok dp') u w rest kept behind enough (k, n) =
      rest dp' (IsKept-trans g kept k) (omega (arith, n.step)) n.bound (omega (arith, n.step))
  Read-rest fuel vol start dp (halt e dp') u w rest kept behind enough (k, _, _) =
      returns (IsKept-trans g kept k)

  res-Read :
      (vol : Bool) (start : ℕ) (res : Option Fresult) (dp : Dir) (w : Fatfs) {v : Fatfs}
      → IsKept g v w
      → (start ≤ dp.dptr) × (dp.dptr < max_dir)
      → dp.sect ≡ 0
      → Ends
          (Read g v vol start)
          Never
          (return (elim res as (λ res. Step) [ none ↦ ok dp | some e ↦ halt e dp ]) w)
  res-Read vol start none dp w kept at e = returns (kept, at, inl e)
  res-Read vol start (some x) dp w kept at e = returns kept

  read_loop-Read :
      (fuel : ℕ) (vol : Bool) (start : ℕ) (res : Option Fresult) (dp : Dir) {v w : Fatfs}
      → IsKept g v w
      → start ≤ dp.dptr
      → dp.dptr < max_dir
      → max_dir < dp.dptr + fuel * 32
      → Ends (Read g v vol start) Never (read_loop g fuel vol res dp w)
  unfolding read_loop
  read_loop-Read zero vol start res dp kept behind low enough = absurd (omega arith)
  read_loop-Read (suc fuel) vol start res dp {v} {w} kept behind low enough =
      elim (Bool-cases (dp.sect == 0)) [
        | inl nowhere ↦ rw nowhere (res-Read vol start res dp w kept (behind, low) (ground arith))
        | inr there ↦ rw there (
            at_entry-Ends g has dp _ kept (λ u k. k)
              λ u shown. elim (Bool-cases (u.win dp.dir == 0)) [
                | inl end ↦ rw end (returns shown.kept)
                | inr used ↦ elim (Bool-cases (is_valid vol (u.win dp.dir) (attributes dp u))) [
                  | inl good ↦
                      rw (used, good)
                        (returns
                          (shown.kept, (behind, low), inr (shown.here, ground arith, good, refl)))
                  | inr other ↦
                      rw (used, other)
                        (Ends.bind
                          (dir_next-Moved g has (record dp { attr = attributes dp u })
                            shown.kept.sound low)
                          (λ x never. never)
                          λ r x moved.
                            Read-rest fuel vol start (record dp { attr = attributes dp u }) r u x
                              (λ d k b low' more.
                                read_loop-Read fuel vol start none d k b low' more)
                              shown.kept behind enough moved)
                ]
              ])
      ]

  stop_reading-Read :
      (vol : Bool) (start : ℕ) (r : Step) (w v : Fatfs)
      → Read g v vol start r w
      → Read g v vol start (stop_reading g r) w
        × ((e : Fresult) (dp : Dir) → stop_reading g r ≡ halt e dp → dp.sect ≡ 0)
  unfolding stop_reading
  stop_reading-Read vol start (ok dp) w v h = (h, λ e d is. absurd (ground arith))
  stop_reading-Read vol start (halt e' dp) w v h = (h, λ e d is. ground arith)

  -- `dir_read` returns on every table, from any position below the size limit, and no byte of the
  -- volume outside a second FAT changes. If it succeeds the object has no sector, or a valid entry
  -- of the kind asked for is in the window with its attributes in the object, which has not gone
  -- back; with an error the object has no sector, so the next read ends at once.
  pub dir_read-Read :
      (vol : Bool) (dp : Dir) {v : Fatfs}
      → IsSound v
      → dp.dptr < max_dir
      → Ends
          (λ r w. Read g v vol dp.dptr r w × ((e : Fresult) (d : Dir) → r ≡ halt e d → d.sect ≡ 0))
          Never
          (dir_read g dp vol v)
  unfolding dir_read
  dir_read-Read vol dp {v} s low =
      Ends.bind
        (read_loop-Read table_rounds vol dp.dptr (some no_file) dp (IsKept-refl g s) (omega arith)
          low (omega arith))
        (λ w never. never) λ r w found. returns (stop_reading-Read vol dp.dptr r w v found)

  -- The window where `dir_remove` ends: the first byte of the entry is the mark of a deleted entry, and
  -- the others are those of `u`.
  pub record IsDeleted (v : Fatfs) (dp : Dir) (u w : Fatfs) : Type 0 where
    pub shown : IsShown g v dp u
    pub sound : IsSound w
    pub here : w.winsect ≡ dp.sect
    pub dirty : w.wflag ≡ true
    pub mark : w.win dp.dir ≡ deleted
    pub others : (i : ℕ) → i ≢ dp.dir → w.win i ≡ u.win i
    pub disk : (a : ℕ) → w.disk a ≡ u.disk a

  abbrev pub Deleted : Fatfs → Dir → Step → Fatfs → Type 0
  Deleted v dp (ok dp') w = (dp' ≡ dp) × ((u : Fatfs) × IsDeleted v dp u w)
  Deleted v dp (halt e dp') w = (e ≡ disk_err) × IsKept g v w

  deleted-IsSound : (v : Fatfs) (i : ℕ) → IsSound v → IsSound (poke (put_byte v.win i deleted) v)
  unfolding put_byte
  deleted-IsSound v i s = record {
    coherent = λ a clean. absurd (ground arith);
    win_bytes = λ j. ground (arith, s.win_bytes j);
    disk_bytes = s.disk_bytes;
  }

  marked-IsDeleted :
      (dp : Dir) (u : Fatfs) {v : Fatfs}
      → IsShown g v dp u
      → IsDeleted v dp u (poke (put_byte u.win dp.dir deleted) u)
  unfolding put_byte
  marked-IsDeleted dp u shown = record {
    shown = shown;
    sound = deleted-IsSound u dp.dir shown.kept.sound;
    here = shown.here;
    dirty = refl;
    mark = ground arith;
    others = λ i ne. ground arith;
    disk = λ a. refl;
  }

  -- `dir_remove` marks the entry of the object as deleted in the window, which is to be written,
  -- and changes no other byte of the volume outside a second FAT; or it fails with a disk error and
  -- changes none of them.
  pub dir_remove-Deleted :
      (dp : Dir) {v : Fatfs} → IsSound v → Ends (Deleted v dp) Never (dir_remove g dp v)
  unfolding dir_remove
  dir_remove-Deleted dp {v} s =
      at_entry-Ends g has dp _ (IsKept-refl g s) (λ u k. (refl, k))
        λ u shown. returns (refl, (u, marked-IsDeleted dp u shown))
