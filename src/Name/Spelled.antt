-- ===== src/Name/Spelled.antt =====
-- The name that `follow_path` of ff.c leaves in the directory object.
use zephyr_fatfs_aflplusplus.Base.{
  ℕ, zero, suc, ◌<◌, ◌≡◌, ◌⊎◌, inl, inr, refl, sym, subst, ◌∙◌, Bool, List, arith, not, Bool-cases,
  bit, if◌then◌else◌,
}
use zephyr_fatfs_aflplusplus.Diskio.{Bytes}
use zephyr_fatfs_aflplusplus.Volume.{
  Geometry, Fatfs, Fresult, no_file, no_path, invalid_name, int_err, disk_err, Act, ◌>>=◌, return,
  put_byte,
}
use zephyr_fatfs_aflplusplus.Volume.Ends
use zephyr_fatfs_aflplusplus.Volume.Ends.{Ends, returns}
use zephyr_fatfs_aflplusplus.Window.Laws.{IsSound, IsKept, IsKept-refl}
use zephyr_fatfs_aflplusplus.Fat.Entry.{HasFat}
use zephyr_fatfs_aflplusplus.Fat.Get.{Never}
use zephyr_fatfs_aflplusplus.Dir.{Dir, Step, ok, halt, dir_sdi}
use zephyr_fatfs_aflplusplus.Dir.Table.{dir_find}
use zephyr_fatfs_aflplusplus.Dir.Start.{HasClusters, IsStart, Positioned, dir_sdi-Positioned}
use zephyr_fatfs_aflplusplus.Dir.Find.{
  Search, match_at, no_match, broken, Passes, stay, pass, dir_find-Search,
}
use zephyr_fatfs_aflplusplus.Name.{
  Name, named, invalid, create_name, strip, is_null, after_find, walk, follow_path, descend, size,
  ns_noname,
}
use zephyr_fatfs_aflplusplus.Name.Form.{CreatedName, create_name-CreatedName}
use zephyr_fatfs_aflplusplus.Name.Walk.{Followed, found-Followed}
use zephyr_fatfs_aflplusplus.Diskio.{AreBytes}
use zephyr_fatfs_aflplusplus.Name.Letters.{
  AreChars, NamedBytes, create_name-NamedBytes, strip_chars, put_byte-AreBytes,
}

-- The object has a name of bytes where it is found, or where it may be made.
abbrev pub Spelled : Step → Type 0
Spelled (ok dp) = AreBytes dp.fn
Spelled (halt e dp) = e ≡ no_file → AreBytes dp.fn

AreBytes-same : (p q : Bytes) → p ≡ q → AreBytes q → AreBytes p
AreBytes-same p q e h = subst (λ (b : Bytes). AreBytes b) (sym e) h

no_file-not : (e : Fresult) → (e ≡ int_err) ⊎ (e ≡ disk_err) → e ≡ no_file → ⊥
no_file-not e wrong h = ground arith

Passes-name : {g : Geometry} {v : Fatfs} (dp end : Dir) → Passes g v dp end → end.fn ≡ dp.fn
Passes-name dp end stay = refl
Passes-name dp end (pass {dp' = dp'} shown used other n rest) = Passes-name dp' end rest ∙ n.name

Search-Spelled :
    {g : Geometry} {v w : Fatfs} (start : Dir) (r : Step)
    → Search g v start r w
    → AreBytes start.fn
    → Spelled r
Search-Spelled start r (match_at end p s used same) h =
    AreBytes-same end.fn start.fn (Passes-name start end p) h
Search-Spelled start r (no_match {dp' = dp'} end p last k name) h =
    λ e. AreBytes-same dp'.fn start.fn name h
Search-Spelled start r (broken {e = e} wrong k) h =
    λ is. absurd (no_file-not e (elim wrong [ inl a ↦ inr a | inr (a, _) ↦ inl a ]) is)

found-Spelled :
    {g : Geometry} {w x : Fatfs} (dp : Dir) (r : Step)
    → ((start : Dir) × IsStart g w dp 0 start × Search g w start r x)
      ⊎ (IsKept g w x
          × ((e : Fresult) × (dp' : Dir) × (r ≡ halt e dp') × ((e ≡ int_err) ⊎ (e ≡ disk_err))))
    → AreBytes dp.fn
    → Spelled r
found-Spelled dp r (inl (start, at, s)) h =
    Search-Spelled start r s (AreBytes-same start.fn dp.fn at.name h)
found-Spelled dp r (inr (k, (e, dp', is, wrong))) h =
    subst (λ r. Spelled r) (sym is) (λ e'. absurd (no_file-not e wrong e'))

-- The error that the walk makes of an error of the search.
missing :
    (e : Fresult) (last : Bool)
    → elim e as (λ e. Fresult) [ no_file ↦ if last then no_file else no_path | other ↦ other ]
      ≡ no_file
    → e ≡ no_file
missing e last =
    elim e
      as (λ e.
        elim e as (λ e. Fresult) [ no_file ↦ if last then no_file else no_path | other ↦ other ]
          ≡ no_file
        → e ≡ no_file) [ no_file ↦ λ h. refl | other ↦ λ h. h ]

module _ (g : Geometry) (has : HasFat g) (sized : HasClusters g) where
  abbrev pub Known : Fatfs → Step → Fatfs → Type 0
  Known v r w = IsKept g v w × Spelled r

  after_find-Known :
      (signed_char : Bool) (r : Step) (k : Dir → Act Step) (w : Fatfs) {v : Fatfs}
      → IsKept g v w
      → Spelled r
      → ((dp : Dir) → AreBytes dp.fn → Ends (Known v) Never (k dp w))
      → Ends (Known v) Never (after_find signed_char g r k w)
  unfolding after_find
  after_find-Known signed_char (halt e dp) k w kept s on =
      returns (kept, λ h. s (missing e (bit (dp.fn 11) 2) h))
  after_find-Known signed_char (ok dp) k w kept s on = elim (Bool-cases (bit (dp.fn 11) 2)) [
    | inl last ↦ rw last (returns (kept, s))
    | inr inner ↦ elim (Bool-cases (not (bit dp.attr 4))) [
      | inl file ↦ rw (inner, file) (returns (kept, λ h. s))
      | inr dir ↦ rw (inner, dir) (on (descend g dp w) s)
    ]
  ]

  Followed-IsKept : {v : Fatfs} (r : Step) (w : Fatfs) → Followed g v r w → IsKept g v w
  Followed-IsKept (ok dp) w (kept, at) = kept
  Followed-IsKept (halt e dp) w kept = kept

  walk-Known :
      (signed_char : Bool) (fuel : ℕ) (dp : Dir) (path : List ℕ) {v w : Fatfs}
      → IsKept g v w
      → AreChars path
      → size path < fuel
      → Ends (Known v) Never (walk signed_char g fuel dp path w)
  unfolding walk
  walk-Known signed_char zero dp path kept chars enough = absurd (omega arith)
  walk-Known signed_char (suc fuel) dp path {v} {w} kept chars enough =
      segment (create_name signed_char path) (create_name-CreatedName signed_char path)
        (create_name-NamedBytes signed_char path chars)
        (λ rest d x k h lt. walk-Known signed_char fuel d rest k h (omega arith))
    where
      segment :
          (n : Name)
          → CreatedName signed_char path n
          → NamedBytes n
          → ((rest : List ℕ) (d : Dir) (x : Fatfs)
              → IsKept g v x
              → AreChars rest
              → size rest < size path
              → Ends (Known v) Never (walk signed_char g fuel d rest x))
          → Ends (Known v) Never (
              (elim n as (λ n. Act Step) [
                | invalid ↦ return (halt invalid_name dp)
                | named fn rest ↦ dir_find g (record dp { fn = fn }) >>= λ r.
                    after_find signed_char g r (λ dp'. walk signed_char g fuel dp' rest)
              ])
                w)
      segment invalid made bytes on = returns (kept, λ h. absurd (ground arith))
      segment (named fn rest) made (bytes, tail) on =
          Ends.bind (dir_find-Search g has sized (record dp { fn = fn }) kept.sound)
            (λ x never. never)
            λ r x found.
              let k = Followed-IsKept r x (found-Followed g has sized _ r x kept found) in
              after_find-Known signed_char r _ x k
                (found-Spelled (record dp { fn = fn }) r found bytes)
                (λ d h. on rest d x k tail made.shorter)

  -- `follow_path` returns on every path of bytes, and its object has a name of bytes if it is found,
  -- or if it is only missing in its directory.
  pub follow_path-Known :
      (signed_char : Bool) (dp : Dir) (path : List ℕ) {v : Fatfs}
      → IsSound v
      → AreBytes dp.fn
      → AreChars path
      → Ends (Known v) Never (follow_path signed_char g dp path v)
  unfolding follow_path put_byte
  follow_path-Known signed_char dp path {v} s bytes chars =
      elim (Bool-cases (is_null signed_char g (strip path))) [
        | inl top ↦
            let at = record dp { sclust = 0; fn = put_byte dp.fn 11 ns_noname } in
            Ends.by_eq {r' = dir_sdi g at 0 v} (rw (follow_path, top) refl) (
              Ends.mono (dir_sdi-Positioned g has sized at 0 s)
                (λ r w p. Positioned-Known at r w (named_origin dp bytes) p) (λ w never. never))
        | inr below ↦
            rw (follow_path, below)
              (walk-Known signed_char (suc (size (strip path))) (record dp { sclust = 0 })
                (strip path) (IsKept-refl g s) (strip_chars path chars) (omega arith))
      ]
    where
      named_origin : (dp : Dir) → AreBytes dp.fn → AreBytes (put_byte dp.fn 11 ns_noname)
      named_origin dp h = put_byte-AreBytes dp.fn 11 ns_noname h (omega arith)

      Positioned-Known :
          (at : Dir) (r : Step) (w : Fatfs) → AreBytes at.fn → Positioned g v at 0 r w → Known v r w
      Positioned-Known at (ok d) w h (kept, is) = (kept, AreBytes-same d.fn at.fn is.name h)
      Positioned-Known at (halt e d) w h (kept, wrong) =
          (kept, λ is. absurd (no_file-not e wrong is))
