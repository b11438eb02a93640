-- ===== src/Dir/Register.antt =====
-- `dir_register` of ff.c.
use zephyr_fatfs_aflplusplus.Base.{
  ℕ, ◌+◌, ◌-◌, ◌≤◌, ◌<◌, ◌≡◌, ◌⊎◌, refl, true, arith, ◌==◌, sym, subst, ap,
}
use zephyr_fatfs_aflplusplus.Diskio.{Bytes}
use zephyr_fatfs_aflplusplus.Volume.{Geometry, Fatfs, Act, done}
use zephyr_fatfs_aflplusplus.Volume.Ends
use zephyr_fatfs_aflplusplus.Volume.Ends.{Ends, returns}
use zephyr_fatfs_aflplusplus.Window.Laws.{IsSound, IsKept}
use zephyr_fatfs_aflplusplus.Fat.{poke}
use zephyr_fatfs_aflplusplus.Fat.Entry.{HasFat}
use zephyr_fatfs_aflplusplus.Fat.Get.{Never}
use zephyr_fatfs_aflplusplus.Window.{move_window}
use zephyr_fatfs_aflplusplus.Dir.{Dir, Step, ok, halt, if_ok}
use zephyr_fatfs_aflplusplus.Dir.Table.{new_entry, dir_register, is_free, at_entry}
use zephyr_fatfs_aflplusplus.Dir.Start.{HasClusters}
use zephyr_fatfs_aflplusplus.Dir.Extended.{IsExtended}
use zephyr_fatfs_aflplusplus.Dir.Allocate.{IsRoom, Allocated, dir_alloc-Allocated}

-- The entry of `dp'` in the window is new: the name, then zeros; the other bytes are those of `u`.
pub record IsNew (dp dp' : Dir) (u w : Fatfs) : Type 0 where
  pub sound : IsSound w
  pub here : w.winsect ≡ dp'.sect
  pub was_here : u.winsect ≡ dp'.sect
  pub was_free : is_free (u.win dp'.dir) ≡ true
  pub dirty : w.wflag ≡ true
  pub inside : dp'.dir + 32 ≤ 512
  pub name : (i : ℕ) → i < 11 → w.win (dp'.dir + i) ≡ dp.fn i
  pub blank : (i : ℕ) → 11 ≤ i → i < 32 → w.win (dp'.dir + i) ≡ 0
  pub others : (i : ℕ) → (i < dp'.dir) ⊎ (dp'.dir + 32 ≤ i) → w.win i ≡ u.win i
  pub disk : (a : ℕ) → w.disk a ≡ u.disk a

-- The entry is new in a table of `v`, or in a cluster by which the table has grown.
abbrev pub Registered : Geometry → Fatfs → Dir → Step → Fatfs → Type 0
Registered g v dp (ok dp') w =
    (u : Fatfs) × IsNew dp dp' u w × (IsKept g v u ⊎ IsExtended g v dp' u)
Registered g v dp (halt e dp') w = IsSound w

module _ (g : Geometry) (has : HasFat g) (sized : HasClusters g)
    (some_cluster : 2 < g.n_fatent) where
  new_entry-AreBytes :
      (win fn : Bytes) (dir : ℕ)
      → ((i : ℕ) → win i < 256)
      → ((i : ℕ) → fn i < 256)
      → (i : ℕ) → new_entry g win dir fn i < 256
  unfolding new_entry
  new_entry-AreBytes win fn dir hw hf i = ground (arith, hw i, hf (i - dir))

  -- The window is at the entry already.
  at_entry_here :
      (dp : Dir) (k : Act Step) (w : Fatfs) → w.winsect ≡ dp.sect → at_entry g dp k w ≡ k w
  unfolding move_window
  at_entry_here dp k w here = let at : (dp.sect == w.winsect) ≡ true = ground arith in rw at refl

  entry_written :
      (dp dp' : Dir) {v w : Fatfs}
      → IsRoom g v dp dp' w
      → ((i : ℕ) → dp.fn i < 256)
      → IsNew dp dp' w (poke (new_entry g w.win dp'.dir dp'.fn) w)
  unfolding new_entry
  entry_written dp dp' {v} {w} room bytes = record {
    sound = record {
      coherent = λ a clean. absurd (ground arith);
      win_bytes =
          new_entry-AreBytes w.win dp'.fn dp'.dir room.sound.win_bytes
            (λ i. subst (λ (f : Bytes). f i < 256) (sym room.name) (bytes i));
      disk_bytes = room.sound.disk_bytes;
    };
    here = room.here;
    was_here = room.here;
    was_free = room.free;
    dirty = refl;
    inside = omega (arith, room.at, room.aligned);
    name = λ i low.
        let index : (dp'.dir + i) - dp'.dir ≡ i = omega arith in
        ground (arith, ap dp'.fn index, ap (λ (f : Bytes). f i) room.name);
    blank = λ i low high. ground arith;
    others = λ i out. ground arith;
    disk = λ a. refl;
  }

  pub dir_register-Registered :
      (dp : Dir) {v : Fatfs}
      → IsSound v
      → ((i : ℕ) → dp.fn i < 256)
      → Ends (Registered g v dp) Never (dir_register g dp v)
  unfolding dir_register
  dir_register-Registered dp {v} s bytes =
      Ends.bind (dir_alloc-Allocated g has sized some_cluster dp s) (λ w never. never)
        λ r w a. filled r w a
    where
      filled :
          (r : Step) (w : Fatfs)
          → Allocated g v dp r w
          → Ends (Registered g v dp) Never (
              if_ok r
                (λ dp'.
                  at_entry g dp' λ x. done (ok dp') (poke (new_entry g x.win dp'.dir dp'.fn) x))
                w)
      filled (halt e dp') w a = returns a
      filled (ok dp') w a =
          Ends.by_eq
            (at_entry_here dp' (λ x. done (ok dp') (poke (new_entry g x.win dp'.dir dp'.fn) x)) w
              a.here)
            (returns (w, entry_written dp dp' a bytes, a.before))
