-- ===== src/Api/Lookup/Kept.antt =====
-- `f_opendir` and `f_stat` of ff.c on a mounted volume.
use zephyr_fatfs_aflplusplus.Base.{
  ℕ, ◌≡◌, refl, sym, subst, ◌∙◌, ◌⊎◌, inl, inr, Bool, true, false, Option, none, some, List,
  Bool-cases, bit,
}
use mathlib.Core.Bool.{true≢false}
use zephyr_fatfs_aflplusplus.Diskio.{Bytes}
use zephyr_fatfs_aflplusplus.Volume.{Geometry, Fatfs, Act, put_byte, return}
use zephyr_fatfs_aflplusplus.Volume.Ends
use zephyr_fatfs_aflplusplus.Volume.Ends.{Ends, returns, fails}
use zephyr_fatfs_aflplusplus.Window.Laws.{IsSound, IsKept, IsKept-refl, IsKept-trans}
use zephyr_fatfs_aflplusplus.Fat.Entry.{HasFat}
use zephyr_fatfs_aflplusplus.Fat.Get.{Never}
use zephyr_fatfs_aflplusplus.Dir.{Dir, Step, ok, halt, dir_sdi}
use zephyr_fatfs_aflplusplus.Dir.Start.{HasClusters, Positioned, dir_sdi-Positioned}
use zephyr_fatfs_aflplusplus.Name.{Filinfo, get_fileinfo, follow_path, is_null, strip, ns_noname}
use zephyr_fatfs_aflplusplus.Name.Walk.{IsEntry, Followed, follow_path-Followed}
use zephyr_fatfs_aflplusplus.Mount.{Mount}
use zephyr_fatfs_aflplusplus.Api.{expect, system}
use zephyr_fatfs_aflplusplus.Api.Calls.{Answers, with_volume-Answers}
use zephyr_fatfs_aflplusplus.Api.Lookup.{
  is_noname, is_directory, open_table, opendir_body, f_opendir,
}

-- A walk ends at an entry in the window or at the origin directory, or with an error.
abbrev pub Walked : Geometry → Fatfs → Step → Fatfs → Type 0
Walked g v (ok dp) w = IsKept g v w × (IsEntry dp w ⊎ (is_noname dp ≡ true))
Walked g v (halt e dp) w = IsKept g v w

-- Information on an entry in use, with the name of the object, that the window holds.
abbrev pub Informed : Geometry → Fatfs → Option Filinfo → Option Filinfo → Fatfs → Type 0
Informed g v none info w = IsKept g v w × (info ≡ none)
Informed g v (some old) info w =
    IsKept g v w × ((dp : Dir) × IsEntry dp w × (info ≡ some (get_fileinfo dp w old)))

module _ (g : Geometry) (v : Fatfs) where
  -- An error of the walk is an error of the call.
  pub expect-Ends :
      {A : Type 0} {Q : A → Fatfs → Type 0} (r : Step) (k : Dir → Act A) (w : Fatfs)
      → Walked g v r w
      → ((dp : Dir)
          → IsKept g v w
          → IsEntry dp w ⊎ (is_noname dp ≡ true)
          → Ends Q (IsKept g v) (k dp w))
      → Ends Q (IsKept g v) (expect r k w)
  expect-Ends (ok dp) k w (kept, at) on = on dp kept at
  expect-Ends (halt e dp) k w kept on = fails kept

  Followed-Walked : (r : Step) (w : Fatfs) → Followed g v r w → Walked g v r w
  Followed-Walked (ok dp) w (kept, at) = (kept, inl at)
  Followed-Walked (halt e dp) w kept = kept

  Positioned-Walked :
      (dp : Dir) (r : Step) (w : Fatfs)
      → is_noname dp ≡ true
      → Positioned g v dp 0 r w
      → Walked g v r w
  Positioned-Walked dp (ok d) w top (kept, at) =
      (kept, inr (subst (λ (f : Bytes). bit (f 11) 7 ≡ true) (sym at.name) top))
  Positioned-Walked dp (halt e d) w top p = p.0

module _ (g : Geometry) (has : HasFat g) (sized : HasClusters g) where
  pub follow_path-Walked :
      (signed_char : Bool) (dp : Dir) (path : List ℕ) {v : Fatfs}
      → IsSound v
      → Ends (Walked g v) Never (follow_path signed_char g dp path v)
  unfolding follow_path put_byte
  follow_path-Walked signed_char dp path {v} s =
      elim (Bool-cases (is_null signed_char g (strip path))) [
        | inl top ↦
            let at = record dp { sclust = 0; fn = put_byte dp.fn 11 ns_noname } in
            Ends.by_eq {r' = dir_sdi g at 0 v} (rw (follow_path, top) refl) (
              Ends.mono (dir_sdi-Positioned g has sized at 0 s)
                (λ r w p. Positioned-Walked g v at r w refl p) (λ w never. never))
        | inr below ↦
            Ends.mono (follow_path-Followed g has sized signed_char dp path s)
              (λ r w h. elim h [
                | inl f ↦ Followed-Walked g v r w f
                | inr (top, k) ↦ absurd (true≢false (sym top ∙ below))
              ])
              (λ w never. never)
      ]

  open_table-Ends :
      (dp : Dir) {v w : Fatfs}
      → IsKept g v w
      → Ends (λ d u. IsKept g v u) (IsKept g v) (open_table g dp w)
  unfolding open_table
  open_table-Ends dp {v} {w} kept = elim (Bool-cases (is_noname dp)) [
    | inl top ↦ rw top (returns kept)
    | inr named ↦ elim (Bool-cases (is_directory dp)) [
      | inl table ↦ rw (named, table) (returns kept)
      | inr file ↦ rw (named, file) (fails kept)
    ]
  ]

  rewound-Ends :
      (dp : Dir) (r : Step) (w : Fatfs) {v u : Fatfs}
      → IsKept g v u
      → Positioned g u dp 0 r w
      → Ends (λ d x. IsKept g v x × (d.dptr ≡ 0)) (IsKept g v) (expect r return w)
  rewound-Ends dp (ok d) w kept (k, at) = returns (IsKept-trans g kept k, at.offset)
  rewound-Ends dp (halt e d) w kept (k, h) = fails (IsKept-trans g kept k)

  opendir_body-Ends :
      (signed_char : Bool) (dp : Dir) (id : ℕ) (path : List ℕ) {v : Fatfs}
      → IsSound v
      → Ends
          (λ d w. IsKept g v w × (d.fs ≡ some id) × (d.dir.dptr ≡ 0))
          (IsKept g v)
          (opendir_body signed_char g dp id path v)
  unfolding opendir_body
  opendir_body-Ends signed_char dp id path {v} s =
      Ends.handle
        (Ends.bind (follow_path-Walked signed_char dp path s) (λ w never. absurd never)
          λ r w walked.
            Ends.bind
              (expect-Ends g v r (open_table g) w walked λ d kept at. open_table-Ends d kept)
              (λ u k. k)
              λ d u kept.
                Ends.bind (dir_sdi-Positioned g has sized d 0 kept.sound) (λ x never. absurd never)
                  λ r2 x p. rewound-Ends d r2 x kept p)
        (λ e w kept. fails kept) (λ d w (kept, at). returns (kept, refl, at))

  -- `f_opendir` on a mounted volume returns on every path, and no byte of the volume outside a
  -- second FAT changes. If it succeeds, the object is valid under the mount id and stands at the
  -- first entry of its table.
  pub f_opendir_start :
      (signed_char : Bool) (dp : Dir) (path : List ℕ) (m : Mount) (fsid : ℕ)
      → m.geometry ≡ some g
      → IsSound m.fs
      → Answers
          (λ d w. IsKept g m.fs w × (d.fs ≡ some m.id) × (d.dir.dptr ≡ 0))
          (IsKept g m.fs)
          m
          fsid
          (f_opendir signed_char dp path (system m fsid))
  unfolding f_opendir
  f_opendir_start signed_char dp path m fsid e s =
      with_volume-Answers false path _ m fsid g e (IsKept-refl g s)
        λ rest. opendir_body-Ends signed_char dp m.id rest s
