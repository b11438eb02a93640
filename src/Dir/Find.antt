-- ===== src/Dir/Find.antt =====
-- `dir_find` of ff.c as a search from entry to entry.
use zephyr_fatfs_aflplusplus.Base.{
  ℕ, zero, suc, ◌+◌, ◌*◌, ◌<◌, ◌≡◌, ◌≢◌, ◌⊎◌, inl, inr, refl, true, false, arith, ◌==◌, Bool-cases,
  ◌∙◌,
}
use zephyr_fatfs_aflplusplus.Volume.{
  Geometry, Fatfs, Fresult, disk_err, int_err, no_file, Act, done,
}
use zephyr_fatfs_aflplusplus.Volume.Ends
use zephyr_fatfs_aflplusplus.Volume.Ends.{Ends, returns}
use zephyr_fatfs_aflplusplus.Window.Laws.{
  IsSound, IsKept, IsKept-trans, move_window-IsKept, move_window_error,
}
use zephyr_fatfs_aflplusplus.Fat.Entry.{HasFat, entry-kept}
use zephyr_fatfs_aflplusplus.Fat.Get.{Never}
use zephyr_fatfs_aflplusplus.Dir.{Dir, Step, ok, halt, max_dir, if_ok}
use zephyr_fatfs_aflplusplus.Dir.Table.{
  find_loop, dir_find, is_match, attributes, at_entry, table_rounds,
}
use zephyr_fatfs_aflplusplus.Dir.Move.{IsNext, IsLast, IsTorn, Moved, dir_next-Moved}
use zephyr_fatfs_aflplusplus.Dir.Start.{IsStart, Positioned, HasClusters, dir_sdi-Positioned}

-- The window shows the entry of `dp`.
pub record IsShown (g : Geometry) (v : Fatfs) (dp : Dir) (w : Fatfs) : Type 0 where
  pub kept : IsKept g v w
  pub here : w.winsect ≡ dp.sect

-- From `dp` to `end` by entries in use that do not match.
pub data Passes (g : Geometry) (v : Fatfs) : Dir → Dir → Type 0 where
  stay : {dp : Dir} → Passes g v dp dp
  pass :
      {dp dp' end : Dir} {w : Fatfs}
      → IsShown g v dp w
      → w.win dp.dir ≢ 0
      → is_match dp w ≡ false
      → IsNext g v dp dp'
      → Passes g v dp' end
      → Passes g v dp end

-- The attributes are the only member of the object that a look at an entry sets.
abbrev pub with_attr : Dir → ℕ → Dir
with_attr dp attr = record dp { attr = attr }

-- A search ends without a match at `dp`: the mark of the end of the table is there, or an entry that
-- does not match and is the last.
abbrev pub IsEnd : Geometry → Fatfs → Dir → Type 0
IsEnd g v dp =
    (x : Fatfs) × IsShown g v dp x
    × ((x.win dp.dir ≡ 0) ⊎ ((x.win dp.dir ≢ 0) × (is_match dp x ≡ false) × IsLast g v dp))

-- What a search from `dp` comes to: a match with its attributes and none before it; or the end of
-- the table without one; or an error of the drive, or of the volume where its chain is broken.
pub data Search (g : Geometry) (v : Fatfs) (dp : Dir) : Step → Fatfs → Type 0 where
  match_at :
      {w : Fatfs} (end : Dir)
      → Passes g v dp end
      → IsShown g v end w
      → w.win end.dir ≢ 0
      → is_match end w ≡ true
      → Search g v dp (ok (with_attr end (attributes end w))) w
  no_match :
      {w : Fatfs} {dp' : Dir} (end : Dir)
      → Passes g v dp end
      → IsEnd g v end
      → IsKept g v w
      → dp'.fn ≡ dp.fn
      → Search g v dp (halt no_file dp') w
  broken :
      {w : Fatfs} {dp' : Dir} {e : Fresult}
      → (e ≡ disk_err) ⊎ ((e ≡ int_err) × ((end : Dir) × Passes g v dp end × IsTorn g v end))
      → IsKept g v w
      → Search g v dp (halt e dp') w

module _ (g : Geometry) (has : HasFat g) where
  Next_kept :
      {v w : Fatfs} {dp dp' : Dir} (attr : ℕ)
      → IsKept g v w
      → IsNext g w (with_attr dp attr) dp'
      → IsNext g v dp dp'
  Next_kept {v} {w} {dp} attr kept n = record {
    step = n.step;
    bound = n.bound;
    at = n.at;
    name = n.name;
    table = n.table;
    place = elim n.place [
      | inl same ↦ inl same
      | inr (inl next) ↦ inr (inl next)
      | inr (inr (a, b, c, d, e)) ↦ inr (inr (a, b, c, d ∙ entry-kept g dp.clust has kept b.1, e))
    ];
  }

  Last_kept :
      {v w : Fatfs} (dp : Dir) (attr : ℕ)
      → IsKept g v w
      → IsLast g w (with_attr dp attr)
      → IsLast g v dp
  Last_kept dp attr kept (inl last) = inl last
  Last_kept dp attr kept (inr (inl last)) = inr (inl last)
  Last_kept {v} {w} dp attr kept (inr (inr (i, edge, new, past))) =
      inr (inr (i, edge, new, ground (arith, entry-kept g dp.clust has kept i.1)))

  Torn_kept :
      {v w : Fatfs} (dp : Dir) (attr : ℕ)
      → IsKept g v w
      → IsTorn g w (with_attr dp attr)
      → IsTorn g v dp
  Torn_kept {v} {w} dp attr kept (torn, edge, new) =
      (ground (arith, torn, entry-kept g dp.clust has kept), edge, new)

  Search-on :
      {v w : Fatfs} {dp dp' : Dir} {r : Step} {u : Fatfs}
      → IsShown g v dp w
      → w.win dp.dir ≢ 0
      → is_match dp w ≡ false
      → IsNext g v dp dp'
      → Search g v dp' r u
      → Search g v dp r u
  Search-on shown used differs n (match_at end p s a b) =
      match_at end (pass shown used differs n p) s a b
  Search-on shown used differs n (no_match end p last k name) =
      no_match end (pass shown used differs n p) last k (name ∙ n.name)
  Search-on shown used differs n (broken (inl h) k) = broken (inl h) k
  Search-on shown used differs n (broken (inr (h, (end, p, torn))) k) =
      broken (inr (h, (end, pass shown used differs n p, torn))) k

  pub at_entry-Ends :
      {Q : Step → Fatfs → Type 0} (dp : Dir) (k : Act Step) {v w : Fatfs}
      → IsKept g v w
      → ((u : Fatfs) → IsKept g v u → Q (halt disk_err dp) u)
      → ((u : Fatfs) → IsShown g v dp u → Ends Q Never (k u))
      → Ends Q Never (at_entry g dp k w)
  at_entry-Ends dp k {v} {w} kept lost shown =
      Ends.by_eq (move_window_error g dp.sect w (λ _ u. k u) (λ e u. done (halt e dp) u)) (
        Ends.handle (move_window-IsKept g has.placed dp.sect kept.sound)
          (λ e u k'. returns (lost u (IsKept-trans g kept k')))
          (λ _ u (k', here). shown u (record { kept = IsKept-trans g kept k'; here = here })))

  Search-rest :
      (fuel : ℕ) (dp : Dir) (r : Step) (u x : Fatfs) {v : Fatfs}
      → ((dp' : Dir) (y : Fatfs)
          → IsKept g v y
          → dp'.dptr < max_dir
          → max_dir < dp'.dptr + fuel * 32
          → Ends (Search g v dp') Never (find_loop g fuel dp' y))
      → IsShown g v dp u
      → u.win dp.dir ≢ 0
      → is_match dp u ≡ false
      → max_dir < dp.dptr + suc fuel * 32
      → Moved g u (with_attr dp (attributes dp u)) r x
      → Ends (Search g v dp) Never (if_ok r (find_loop g fuel) x)
  Search-rest fuel dp (ok dp') u x rest shown used other enough (k, n) =
      Ends.mono (rest dp' _ (IsKept-trans g shown.kept k) n.bound (omega (arith, n.step)))
        (λ r y found. Search-on shown used other (Next_kept (attributes dp u) shown.kept n) found)
        (λ y never. never)
  Search-rest fuel dp (halt e dp') u x rest shown used other enough (k, inl (end, _, last), name) =
      rw end (
        returns (
          no_match dp stay
            (u, shown, inr (used, other, Last_kept dp (attributes dp u) shown.kept last))
            (IsKept-trans g shown.kept k) name))
  Search-rest fuel dp (halt e dp') u x rest shown used other enough (k, inr bad, _) = returns (
      broken
        (elim bad [
          | inl (h, torn) ↦ inr (h, (dp, stay, Torn_kept dp (attributes dp u) shown.kept torn))
          | inr h ↦ inl h
        ])
        (IsKept-trans g shown.kept k))

  find_loop-Search :
      (fuel : ℕ) (dp : Dir) {v w : Fatfs}
      → IsKept g v w
      → dp.dptr < max_dir
      → max_dir < dp.dptr + fuel * 32
      → Ends (Search g v dp) Never (find_loop g fuel dp w)
  unfolding find_loop
  find_loop-Search zero dp kept low enough = absurd (omega arith)
  find_loop-Search (suc fuel) dp {v} {w} kept low enough =
      at_entry-Ends dp _ kept (λ u k. broken (inl refl) k)
        λ u shown. elim (Bool-cases (u.win dp.dir == 0)) [
          | inl end ↦
              rw end (returns (no_match dp stay (u, shown, inl (ground arith)) shown.kept refl))
          | inr used ↦ elim (Bool-cases (is_match dp u)) [
            | inl same ↦ rw (used, same) (returns (match_at dp stay shown (ground arith) same))
            | inr other ↦
                rw (used, other)
                  (Ends.bind
                    (dir_next-Moved g has (with_attr dp (attributes dp u)) shown.kept.sound low)
                    (λ x never. never)
                    λ r x moved.
                      Search-rest fuel dp r u x (λ d y. find_loop-Search fuel d) shown
                        (ground arith) other enough moved)
          ]
        ]

  pub dir_find-Search :
      (sized : HasClusters g) (dp : Dir) {v : Fatfs}
      → IsSound v
      → Ends
          (λ r w.
            ((start : Dir) × IsStart g v dp 0 start × Search g v start r w)
            ⊎ (IsKept g v w
                × ((e : Fresult) × (dp' : Dir) × (r ≡ halt e dp')
                    × ((e ≡ int_err) ⊎ (e ≡ disk_err)))))
          Never
          (dir_find g dp v)
  unfolding dir_find
  dir_find-Search sized dp {v} s =
      Ends.bind (dir_sdi-Positioned g has sized dp 0 s) (λ w never. never) from_start
    where
      from_start :
          (r : Step) (w : Fatfs)
          → Positioned g v dp 0 r w
          → Ends
              (λ r w.
                ((start : Dir) × IsStart g v dp 0 start × Search g v start r w)
                ⊎ (IsKept g v w
                    × ((e : Fresult) × (dp' : Dir) × (r ≡ halt e dp')
                        × ((e ≡ int_err) ⊎ (e ≡ disk_err)))))
              Never
              (if_ok r (find_loop g table_rounds) w)
      from_start (ok start) w (kept, at) =
          Ends.mono
            (find_loop-Search table_rounds start kept (omega (arith, at.offset))
              (omega (arith, at.offset)))
            (λ r u found. inl (start, at, found)) (λ u never. never)
      from_start (halt e dp') w (kept, bad) = returns (inr (kept, (e, dp', refl, bad)))
