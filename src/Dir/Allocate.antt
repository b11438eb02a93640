-- ===== src/Dir/Allocate.antt =====
-- `dir_alloc` of ff.c for one entry.
use zephyr_fatfs_aflplusplus.Base.{
  ℕ, zero, suc, ◌+◌, ◌*◌, ◌%◌, ◌<◌, ◌≡◌, ◌⊎◌, inl, inr, refl, true, arith, ◌==◌, Bool-cases, ◌∙◌,
}
use zephyr_fatfs_aflplusplus.Volume.{Geometry, Fatfs, done}
use zephyr_fatfs_aflplusplus.Volume.Ends
use zephyr_fatfs_aflplusplus.Volume.Ends.{Ends, returns}
use zephyr_fatfs_aflplusplus.Window.Laws.{IsSound, IsKept, IsKept-refl, IsKept-trans}
use zephyr_fatfs_aflplusplus.Fat.Entry.{HasFat}
use zephyr_fatfs_aflplusplus.Fat.Get.{Never}
use zephyr_fatfs_aflplusplus.Window.{move_window}
use zephyr_fatfs_aflplusplus.Dir.{Dir, Step, ok, halt, max_dir, if_ok}
use zephyr_fatfs_aflplusplus.Dir.Table.{alloc_loop, dir_alloc, no_room, is_free, table_rounds}
use zephyr_fatfs_aflplusplus.Dir.Start.{HasClusters, Positioned, dir_sdi-Positioned}
use zephyr_fatfs_aflplusplus.Dir.Find.{at_entry-Ends}
use zephyr_fatfs_aflplusplus.Dir.Extended.{IsExtended, IsExtended-kept}
use zephyr_fatfs_aflplusplus.Dir.Grow.{Stepped, dir_next-Stepped}

-- The window holds a free entry of the table, for the name of `dp`: an entry that is there in `v`, or
-- the first of a cluster by which the table has grown.
pub record IsRoom (g : Geometry) (v : Fatfs) (dp dp' : Dir) (w : Fatfs) : Type 0 where
  pub sound : IsSound w
  pub here : w.winsect ≡ dp'.sect
  pub free : is_free (w.win dp'.dir) ≡ true
  pub bound : dp'.dptr < max_dir
  pub aligned : dp'.dptr % 32 ≡ 0
  pub at : dp'.dir ≡ dp'.dptr % 512
  pub name : dp'.fn ≡ dp.fn
  pub before : IsKept g v w ⊎ IsExtended g v dp' w

abbrev pub Allocated : Geometry → Fatfs → Dir → Step → Fatfs → Type 0
Allocated g v dp (ok dp') w = IsRoom g v dp dp' w
Allocated g v dp (halt e dp') w = IsSound w

Allocated-name :
    (g : Geometry) {v x : Fatfs} (dp dp1 : Dir) (r : Step) (w : Fatfs)
    → HasFat g
    → dp1.fn ≡ dp.fn
    → IsKept g v x
    → Allocated g x dp1 r w
    → Allocated g v dp r w
Allocated-name g dp dp1 (ok dp') w has e kept a = record {
  sound = a.sound;
  here = a.here;
  free = a.free;
  bound = a.bound;
  aligned = a.aligned;
  at = a.at;
  name = a.name ∙ e;
  before = elim a.before [
    | inl k ↦ inl (IsKept-trans g kept k)
    | inr new ↦ inr (IsExtended-kept g has dp' kept new)
  ];
}
Allocated-name g dp dp1 (halt f dp') w has e kept a = a

no_room-Allocated :
    (g : Geometry) (v : Fatfs) (dp : Dir) (r : Step) (w : Fatfs)
    → Allocated g v dp r w
    → Allocated g v dp (no_room g r) w
unfolding no_room
no_room-Allocated g v dp (ok dp') w a = a
no_room-Allocated g v dp (halt e dp') w a = a

module _ (g : Geometry) (has : HasFat g) (sized : HasClusters g)
    (some_cluster : 2 < g.n_fatent) where
  -- A table that has just grown has room.
  grown-Allocated :
      (fuel : ℕ) (dp : Dir) {w : Fatfs} (v : Fatfs)
      → IsSound w
      → dp.dptr < max_dir
      → dp.dptr % 32 ≡ 0
      → dp.dir ≡ dp.dptr % 512
      → max_dir < dp.dptr + fuel * 32
      → IsExtended g v dp w
      → Ends (Allocated g v dp) Never (alloc_loop g fuel 0 1 dp w)
  unfolding alloc_loop move_window
  grown-Allocated zero dp v s low aligned at enough new = absurd (omega arith)
  grown-Allocated (suc fuel) dp {w} v s low aligned at enough new =
      let same : (dp.sect == w.winsect) ≡ true = ground (arith, new.here) in
      let free : is_free (w.win dp.dir) ≡ true = rw (new.blank dp.dir) refl in
      Ends.by_eq {r' = done (ok dp) w} (rw (same, free) refl) (
        returns (record {
          sound = s;
          here = new.here;
          free = free;
          bound = low;
          aligned = aligned;
          at = at;
          name = refl;
          before = inr new;
        }))

  alloc_rest :
      (fuel : ℕ) (dp : Dir) (r : Step) {v u : Fatfs} (w : Fatfs)
      → ((d : Dir)
          → IsSound w
          → d.dptr < max_dir
          → d.dptr % 32 ≡ 0
          → d.dir ≡ d.dptr % 512
          → max_dir < d.dptr + fuel * 32
          → Ends (Allocated g w d) Never (alloc_loop g fuel 0 1 d w))
      → IsKept g v u
      → dp.dptr % 32 ≡ 0
      → max_dir < dp.dptr + suc fuel * 32
      → Stepped g u dp (dp.dptr + 32) r w
      → Ends (Allocated g v dp) Never (if_ok r (alloc_loop g fuel 0 1) w)
  alloc_rest fuel dp (halt e dp') w rest kept aligned enough s = returns s
  alloc_rest fuel dp (ok dp') {v} w rest kept aligned enough (s, a, inl k) =
      Ends.mono
        (rest dp' s (omega (arith, a.offset, a.bound)) (omega (arith, a.offset))
          (ground (arith, a.at, a.offset)) (omega (arith, a.offset)))
        (λ r u found. Allocated-name g dp dp' r u has a.name (IsKept-trans g kept k) found)
        (λ u never. never)
  alloc_rest fuel dp (ok dp') {v} w rest kept aligned enough (s, a, inr new) =
      Ends.mono
        (grown-Allocated fuel dp' _ s (omega (arith, a.offset, a.bound)) (omega (arith, a.offset))
          (ground (arith, a.at, a.offset)) (omega (arith, a.offset)) new)
        (λ r u found. Allocated-name g dp dp' r u has a.name kept found) (λ u never. never)

  alloc_loop-Allocated :
      (fuel : ℕ) (dp : Dir) {v : Fatfs}
      → IsSound v
      → dp.dptr < max_dir
      → dp.dptr % 32 ≡ 0
      → dp.dir ≡ dp.dptr % 512
      → max_dir < dp.dptr + fuel * 32
      → Ends (Allocated g v dp) Never (alloc_loop g fuel 0 1 dp v)
  unfolding alloc_loop
  alloc_loop-Allocated zero dp s low aligned at enough = absurd (omega arith)
  alloc_loop-Allocated (suc fuel) dp s low aligned at enough =
      at_entry-Ends g has dp _ (IsKept-refl g s) (λ u k. k.sound)
        λ u shown. elim (Bool-cases (is_free (u.win dp.dir))) [
          | inl free ↦ rw free (
              returns (record {
                sound = shown.kept.sound;
                here = shown.here;
                free = free;
                bound = low;
                aligned = aligned;
                at = at;
                name = refl;
                before = inl shown.kept;
              }))
          | inr used ↦ rw used (
              Ends.bind (dir_next-Stepped g has sized some_cluster dp shown.kept.sound low)
                (λ w never. never)
                λ r w stepped.
                  alloc_rest fuel dp r w
                    (λ d sw low' aligned' at' enough'.
                      alloc_loop-Allocated fuel d sw low' aligned' at' enough')
                    shown.kept aligned enough stepped)
        ]

  pub dir_alloc-Allocated :
      (dp : Dir) {v : Fatfs} → IsSound v → Ends (Allocated g v dp) Never (dir_alloc g dp 1 v)
  unfolding dir_alloc
  dir_alloc-Allocated dp {v} s =
      Ends.bind (dir_sdi-Positioned g has sized dp 0 s) (λ w never. never)
        λ start w p.
          Ends.bind (from_start start w p) (λ u never. never)
            λ r u found. returns (no_room-Allocated g v dp r u found)
    where
      from_start :
          (start : Step) (w : Fatfs)
          → Positioned g v dp 0 start w
          → Ends (Allocated g v dp) Never (if_ok start (alloc_loop g table_rounds 0 1) w)
      from_start (halt e dp') w (kept, bad) = returns kept.sound
      from_start (ok start) w (kept, at) =
          Ends.mono
            (alloc_loop-Allocated table_rounds start kept.sound (omega (arith, at.offset))
              (omega (arith, at.offset)) (ground (arith, at.offset, at.at))
              (omega (arith, at.offset)))
            (λ r u found. Allocated-name g dp start r u has at.name kept found) (λ u never. never)
