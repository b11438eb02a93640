-- ===== src/Name/Walk.antt =====
-- `follow_path` of ff.c, by its segments.
use zephyr_fatfs_aflplusplus.Base.{
  ℕ, zero, suc, ◌<◌, ◌≡◌, ◌≢◌, ◌⊎◌, inl, inr, refl, Bool, true, not, arith, List, Bool-cases, bit,
  subst, sym,
}
use zephyr_fatfs_aflplusplus.Volume.{
  Geometry, Fatfs, Fresult, invalid_name, Act, return, ◌>>=◌, put_byte, int_err, disk_err,
}
use zephyr_fatfs_aflplusplus.Volume.Ends
use zephyr_fatfs_aflplusplus.Volume.Ends.{Ends, returns}
use zephyr_fatfs_aflplusplus.Window.Laws.{IsSound, IsKept, IsKept-refl, IsKept-trans}
use zephyr_fatfs_aflplusplus.Fat.Entry.{HasFat}
use zephyr_fatfs_aflplusplus.Fat.Get.{Never}
use zephyr_fatfs_aflplusplus.Dir.{Dir, Step, ok, halt}
use zephyr_fatfs_aflplusplus.Dir.Table.{dir_find, is_match}
use zephyr_fatfs_aflplusplus.Dir.Start.{HasClusters, IsStart, Positioned, dir_sdi-Positioned}
use zephyr_fatfs_aflplusplus.Dir.Find.{
  Search, match_at, no_match, broken, Passes, stay, pass, dir_find-Search,
}
use zephyr_fatfs_aflplusplus.Name.{
  Name, named, invalid, create_name, strip, is_null, after_find, walk, follow_path, descend, size,
  ns_noname,
}
use zephyr_fatfs_aflplusplus.Name.Form.{CreatedName, create_name-CreatedName}

-- The window holds an entry in use with the name of the object.
abbrev pub IsEntry : Dir → Fatfs → Type 0
IsEntry dp w = (w.winsect ≡ dp.sect) × (w.win dp.dir ≢ 0) × (is_match dp w ≡ true) × (dp.dir < 512)

abbrev pub Followed : Geometry → Fatfs → Step → Fatfs → Type 0
Followed g v (ok dp) w = IsKept g v w × IsEntry dp w
Followed g v (halt e dp) w = IsKept g v w

Passes-dir :
    (g : Geometry) {v : Fatfs} (dp end : Dir) → Passes g v dp end → dp.dir < 512 → end.dir < 512
Passes-dir g dp end stay low = low
Passes-dir g dp end (pass {dp' = dp'} shown used other n rest) low =
    Passes-dir g dp' end rest (omega (arith, n.at))

module _ (g : Geometry) (has : HasFat g) (sized : HasClusters g) where
  Search-Followed :
      {u v : Fatfs} (start : Dir) (r : Step) (w : Fatfs)
      → IsKept g u v
      → start.dir < 512
      → Search g v start r w
      → Followed g u r w
  Search-Followed start r w kept low (match_at end p s used same) =
      (IsKept-trans g kept s.kept, (s.here, used, same, Passes-dir g start end p low))
  Search-Followed start r w kept low (no_match end p last k name) = IsKept-trans g kept k
  Search-Followed start r w kept low (broken h k) = IsKept-trans g kept k

  after_find-Followed :
      (signed_char : Bool) (r : Step) (k : Dir → Act Step) (w : Fatfs) {v : Fatfs}
      → Followed g v r w
      → ((dp : Dir) → IsKept g v w → Ends (Followed g v) Never (k dp w))
      → Ends (Followed g v) Never (after_find signed_char g r k w)
  unfolding after_find
  after_find-Followed signed_char (halt e dp) k w f on = returns f
  after_find-Followed signed_char (ok dp) k w (kept, at) on = elim (Bool-cases (bit (dp.fn 11) 2)) [
    | inl last ↦ rw last (returns (kept, at))
    | inr inner ↦ elim (Bool-cases (not (bit dp.attr 4))) [
      | inl file ↦ rw (inner, file) (returns kept)
      | inr dir ↦ rw (inner, dir) (on (descend g dp w) kept)
    ]
  ]

  pub found-Followed :
      {v w : Fatfs} (dp : Dir) (r : Step) (x : Fatfs)
      → IsKept g v w
      → ((start : Dir) × IsStart g w dp 0 start × Search g w start r x)
        ⊎ (IsKept g w x
            × ((e : Fresult) × (dp' : Dir) × (r ≡ halt e dp') × ((e ≡ int_err) ⊎ (e ≡ disk_err))))
      → Followed g v r x
  found-Followed dp r x kept (inl (start, at, s)) =
      Search-Followed start r x kept (omega (arith, at.at)) s
  found-Followed {v} dp r x kept (inr (k, (e, dp', is, h))) =
      subst (λ r. Followed g v r x) (sym is) (IsKept-trans g kept k)

  walk-Followed :
      (signed_char : Bool) (fuel : ℕ) (dp : Dir) (path : List ℕ) {v w : Fatfs}
      → IsKept g v w
      → size path < fuel
      → Ends (Followed g v) Never (walk signed_char g fuel dp path w)
  unfolding walk
  walk-Followed signed_char zero dp path kept enough = absurd (omega arith)
  walk-Followed signed_char (suc fuel) dp path {v} {w} kept enough =
      segment (create_name signed_char path) (create_name-CreatedName signed_char path)
        (λ rest d x k lt. walk-Followed signed_char fuel d rest k (omega arith))
    where
      segment :
          (n : Name)
          → CreatedName signed_char path n
          → ((rest : List ℕ) (d : Dir) (x : Fatfs)
              → IsKept g v x
              → size rest < size path
              → Ends (Followed g v) Never (walk signed_char g fuel d rest x))
          → Ends (Followed g v) Never (
              (elim n as (λ n. Act Step) [
                | invalid ↦ return (halt invalid_name dp)
                | named fn rest ↦ dir_find g (record dp { fn = fn }) >>= λ r.
                    after_find signed_char g r (λ dp'. walk signed_char g fuel dp' rest)
              ])
                w)
      segment invalid made on = returns kept
      segment (named fn rest) made on =
          Ends.bind (dir_find-Search g has sized (record dp { fn = fn }) kept.sound)
            (λ x never. never)
            λ r x found.
              after_find-Followed signed_char r _ x (found-Followed _ r x kept found)
                (λ d k. on rest d x k made.shorter)

  -- `follow_path` returns on every path and every volume, and no byte of the volume outside a
  -- second FAT changes. If it succeeds, the path names the root directory, or the window holds an
  -- entry in use with the name of the object.
  pub follow_path-Followed :
      (signed_char : Bool) (dp : Dir) (path : List ℕ) {v : Fatfs}
      → IsSound v
      → Ends
          (λ r w. Followed g v r w ⊎ ((is_null signed_char g (strip path) ≡ true) × IsKept g v w))
          Never
          (follow_path signed_char g dp path v)
  unfolding follow_path
  follow_path-Followed signed_char dp path {v} s =
      elim (Bool-cases (is_null signed_char g (strip path))) [
        | inl top ↦ rw top (
            Ends.mono
              (dir_sdi-Positioned g has sized
                (record dp { sclust = 0; fn = put_byte dp.fn 11 ns_noname }) 0 s)
              (λ r w p. inr (refl, positioned r w p)) (λ w never. never))
        | inr below ↦ rw below (
            Ends.mono
              (walk-Followed signed_char (suc (size (strip path))) (record dp { sclust = 0 })
                (strip path) (IsKept-refl g s) (omega arith))
              (λ r w f. inl f) (λ w never. never))
      ]
    where
      positioned :
          (r : Step) (w : Fatfs)
          → Positioned g v (record dp { sclust = 0; fn = put_byte dp.fn 11 ns_noname }) 0 r w
          → IsKept g v w
      positioned (ok d) w p = p.0
      positioned (halt e d) w p = p.0
