-- ===== src/Harness/Items.antt =====
-- What `f_readdir` of ff.c gives, and how far it moves.
use zephyr_fatfs_aflplusplus.Base.{
  ℕ, suc, ◌+◌, ◌/◌, ◌<◌, ◌≤◌, ◌≡◌, ◌≢◌, refl, ap, ◌⊎◌, inl, inr, true, false, Option, none, some,
  [], arith, ◌==◌, Bool-cases,
}
use zephyr_fatfs_aflplusplus.Volume.{
  Geometry, Fatfs, Fresult, no_file, invalid_object, Out, done, and_then, return,
}
use zephyr_fatfs_aflplusplus.Volume.Ends
use zephyr_fatfs_aflplusplus.Volume.Ends.{Ends, returns, fails}
use zephyr_fatfs_aflplusplus.Window.Laws.{IsKept, IsKept-trans}
use zephyr_fatfs_aflplusplus.Fat.Entry.{HasFat}
use zephyr_fatfs_aflplusplus.Fat.Get.{Never}
use zephyr_fatfs_aflplusplus.Dir.{Dir, Step, ok, halt, max_dir, dir_next}
use zephyr_fatfs_aflplusplus.Dir.Table.{dir_read, read_loop, stop_reading}
use zephyr_fatfs_aflplusplus.Dir.Move.{Moved, dir_next-Moved}
use zephyr_fatfs_aflplusplus.Dir.Reading.{Read, dir_read-Read}
use zephyr_fatfs_aflplusplus.Name.{Filinfo, get_fileinfo}
use zephyr_fatfs_aflplusplus.File.{validate}
use zephyr_fatfs_aflplusplus.Api.Lookup.{Handle, Reading, settle_step, report_item, f_readdir}
use zephyr_fatfs_aflplusplus.Harness.{item_of}

-- At an entry of the table, or past the last one.
abbrev pub IsPlaced : Handle → Type 0
IsPlaced d = (d.dir.sect ≡ 0) ⊎ (d.dir.dptr < max_dir)

-- An item has come only from an entry, and the object is behind it.
abbrev pub IsBehind : Handle → Handle → Type 0
IsBehind d d' =
    (d.dir.sect ≢ 0)
    × ((d'.dir.sect ≡ 0) ⊎ ((d.dir.dptr + 32 ≤ d'.dir.dptr) × (d'.dir.dptr < max_dir)))

-- The result of a read: the volume keeps its bytes outside a second FAT, and an item is progress.
abbrev pub Listed : Geometry → Fatfs → Handle → Reading → Fatfs → Type 0
Listed g v d (res, d', info) w =
    IsKept g v w
    × ((i : Filinfo) → item_of res info ≡ some i → (d.dir.dptr < max_dir) × IsBehind d d')

get_fileinfo_past :
    (dp : Dir) (w : Fatfs) (fno : Filinfo) → dp.sect ≡ 0 → (get_fileinfo dp w fno).fname ≡ []
unfolding get_fileinfo
get_fileinfo_past dp w fno e = let nowhere : (dp.sect == 0) ≡ true = ground arith in rw nowhere refl

dir_next_past :
    (g : Geometry) (dp : Dir) (w : Fatfs)
    → dp.sect ≡ 0
    → dir_next g dp false w ≡ done (halt no_file (record dp { sect = 0 })) w
unfolding dir_next
dir_next_past g dp w e = ground arith

no_item : (o : Option Filinfo) (i : Filinfo) → o ≡ none → o ≡ some i → ⊥
no_item none i e f = ground arith
no_item (some x) i e f = ground arith

item_of-empty : (info : Filinfo) → info.fname ≡ [] → item_of none (some info) ≡ none
unfolding item_of
item_of-empty info e = rw e refl

item_of-error : (e : Fresult) (info : Option Filinfo) → item_of (some e) info ≡ none
unfolding item_of
item_of-error e info = refl

settle_error : (e : Fresult) (dp : Dir) → (e ≡ no_file) ⊎ (settle_step (halt e dp) ≡ (some e, dp))
unfolding settle_step
settle_error e dp = elim e as (λ e. (e ≡ no_file) ⊎ (settle_step (halt e dp) ≡ (some e, dp))) [
  | no_file ↦ inl refl
  | other ↦ inr refl
]

settle_ok : (dp : Dir) → settle_step (ok dp) ≡ (none, dp)
unfolding settle_step
settle_ok dp = refl

settle_past : (dp : Dir) → settle_step (halt no_file dp) ≡ (none, dp)
unfolding settle_step
settle_past dp = refl

module _ (g : Geometry) where
  -- Without a sector no item is reported.
  past_end :
      (d : Handle) (fno : Filinfo) (dp : Dir) (w : Fatfs) {v : Fatfs}
      → IsKept g v w
      → dp.sect ≡ 0
      → Ends (Listed g v d) Never (report_item g d fno (none, dp) w)
  unfolding report_item settle_step
  past_end d fno dp w kept nowhere =
      let info = get_fileinfo dp w fno in
      let empty : info.fname ≡ [] = get_fileinfo_past dp w fno nowhere in
      Ends.by_eq {r' = done (none, record d { dir = record dp { sect = 0 } }, some info) w}
        (rw (dir_next_past g dp w nowhere) refl)
        (returns (kept, λ i is. absurd (no_item _ i (item_of-empty info empty) is)))

module _ (g : Geometry) (has : HasFat g) where
  next-Listed :
      (d : Handle) (dp : Dir) (info : Filinfo) (r : Step) (w u : Fatfs) {v : Fatfs}
      → d.dir.dptr < max_dir
      → d.dir.sect ≢ 0
      → d.dir.dptr ≤ dp.dptr
      → IsKept g v w
      → Moved g w dp r u
      → Ends
          (Listed g v d)
          Never
          (return ((settle_step r).0, record d { dir = (settle_step r).1 }, some info) u)
  next-Listed d dp info (ok dp') w u low on behind kept (k, n) =
      rw (settle_ok dp')
        (returns (IsKept-trans g kept k, λ i is. (low, (on, inr (omega (arith, n.step), n.bound)))))
  next-Listed d dp info (halt e dp') w u low on behind kept (k, inl (past, nowhere, last), same) =
      rw past
        (rw (settle_past dp') (returns (IsKept-trans g kept k, λ i is. (low, (on, inl nowhere)))))
  next-Listed d dp info (halt e dp') w u low on behind kept (k, inr wrong, same) =
      elim (settle_error e dp') [
        | inl past ↦ absurd (ground arith)
        | inr is ↦ rw is (
            returns (
              IsKept-trans g kept k,
              λ i it. absurd (no_item _ i (item_of-error e (some info)) it),
            ))
      ]

  report-Listed :
      (d : Handle) (fno : Filinfo) (r : Step) (w : Fatfs) {v : Fatfs}
      → d.dir.dptr < max_dir
      → d.dir.sect ≢ 0
      → Read g v false d.dir.dptr r w
      → ((e : Fresult) (dp : Dir) → r ≡ halt e dp → dp.sect ≡ 0)
      → Ends (Listed g v d) Never (report_item g d fno (settle_step r) w)
  unfolding report_item
  report-Listed d fno (ok dp) w low on (kept, at, entry) ended = rw (settle_ok dp) (
      Ends.bind (dir_next-Moved g has dp kept.sound at.1) (λ u never. never)
        λ r u moved. next-Listed d dp (get_fileinfo dp w fno) r w u low on at.0 kept moved)
  report-Listed d fno (halt e dp) w low on kept ended = elim (settle_error e dp) [
    | inl past ↦ rw past (rw (settle_past dp) (past_end g d fno dp w kept (ended e dp refl)))
    | inr wrong ↦
        rw wrong (returns (kept, λ i is. absurd (no_item _ i (item_of-error e (some fno)) is)))
  ]

  -- A read at the end of the directory.
  read_loop_past :
      (fuel : ℕ) (dp : Dir) (w : Fatfs)
      → dp.sect ≡ 0
      → read_loop g (suc fuel) false (some no_file) dp w ≡ done (halt no_file dp) w
  unfolding read_loop
  read_loop_past fuel dp w e = let nowhere : (dp.sect == 0) ≡ true = ground arith in rw nowhere refl

  read_past :
      (dp : Dir) (w : Fatfs)
      → dp.sect ≡ 0
      → dir_read g dp false w ≡ done (halt no_file (record dp { sect = 0 })) w
  unfolding dir_read stop_reading
  read_past dp w e =
      ap (λ (o : Out Step). and_then o (λ r. return (stop_reading g r)))
        (read_loop_past (max_dir / 32) dp w e)

  pub f_readdir-Listed :
      (mounted : Option ℕ) (d : Handle) (fno : Filinfo) {v w : Fatfs}
      → IsKept g v w
      → (d.dir.sect ≡ 0) ⊎ (d.dir.dptr < max_dir)
      → Ends (Listed g v d) Never (f_readdir g mounted d (some fno) w)
  unfolding f_readdir
  f_readdir-Listed mounted d fno {v} {w} kept at =
      elim (Bool-cases (validate mounted w.disk d.fs)) [
        | inr bad ↦ rw bad (
            returns
              (kept, λ i is. absurd (no_item _ i (item_of-error invalid_object (some fno)) is)))
        | inl valid ↦ rw valid (elim (Bool-cases (d.dir.sect == 0)) [
          | inl past ↦
              Ends.by_eq
                {r' = report_item g d fno (settle_step (halt no_file (record d.dir { sect = 0 })))
                  w}
                (rw (read_past d.dir w (ground arith)) refl)
                (rw (settle_past (record d.dir { sect = 0 }))
                  (past_end g d fno (record d.dir { sect = 0 }) w kept refl))
          | inr on ↦
              let low : d.dir.dptr < max_dir = ground arith in
              Ends.mono
                (Ends.bind (dir_read-Read g has false d.dir kept.sound low) (λ u never. never)
                  λ r u (found, ended). report-Listed d fno r u low (ground arith) found ended)
                (λ a u h. listed a u h) (λ u never. never)
        ])
      ]
    where
      listed : (a : Reading) (u : Fatfs) → Listed g w d a u → Listed g v d a u
      listed (res, d', info) u (k, h) = (IsKept-trans g kept k, h)
