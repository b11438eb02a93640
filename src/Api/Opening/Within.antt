-- ===== src/Api/Opening/Within.antt =====
-- `f_open` of ff.c in every mode.
use zephyr_fatfs_aflplusplus.File.Fields.{ld_dword_bound}
use zephyr_fatfs_aflplusplus.Base.{
  ℕ, suc, ◌+◌, ◌^◌, ◌<◌, ◌≤◌, ◌≡◌, inl, inr, subst, Bool, List, Option, none, some, arith, ltb,
  ◌==◌, ◌&&◌, Bool-cases, bit, ◌%◌,
}
use zephyr_fatfs_aflplusplus.Volume.{Geometry, Fatfs}
use zephyr_fatfs_aflplusplus.Volume.Ends
use zephyr_fatfs_aflplusplus.Volume.Ends.{Ends, returns, fails}
use zephyr_fatfs_aflplusplus.Window.{clst2sect}
use zephyr_fatfs_aflplusplus.Window.Laws.{IsSound, IsKept-refl}
use zephyr_fatfs_aflplusplus.Fat.Entry.{HasFat}
use zephyr_fatfs_aflplusplus.Dir.{Dir, Step, ok, halt}
use zephyr_fatfs_aflplusplus.Dir.Start.{HasClusters}
use zephyr_fatfs_aflplusplus.Diskio.{AreBytes}
use zephyr_fatfs_aflplusplus.Name.Spelled.{Spelled}
use zephyr_fatfs_aflplusplus.File.{File}
use zephyr_fatfs_aflplusplus.Api.Lookup.{is_noname, is_directory}
use zephyr_fatfs_aflplusplus.Api.Opening.{
  may_create, named_object, open_existing, file_of, append, set_up, open_object,
}
use zephyr_fatfs_aflplusplus.Api.Opening.Kept.{seek_end-Ends}
use zephyr_fatfs_aflplusplus.Mount.{Mount}
use zephyr_fatfs_aflplusplus.Name.Letters.{AreChars, chars_tail}
use zephyr_fatfs_aflplusplus.Name.Spelled.{follow_path-Known}
use zephyr_fatfs_aflplusplus.Api.{system, drop, get_ldnumber}
use zephyr_fatfs_aflplusplus.Api.Calls.{Answers, with_rest-Answers}
use zephyr_fatfs_aflplusplus.Api.Opening.{f_open, open_mode}
use zephyr_fatfs_aflplusplus.Api.Opening.Made.{Sound, create_or_overwrite-Sound}
use zephyr_fatfs_aflplusplus.Base.{zero, [], ◌∷◌, Option-cases}
use zephyr_fatfs_aflplusplus.Api.{find_colon}

drop_chars : (n : ℕ) (path : List ℕ) → AreChars path → AreChars (drop n path)
unfolding drop
drop_chars zero path h = h
drop_chars (suc n) [] h = h
drop_chars (suc n) (c ∷ cs) h = drop_chars n cs (chars_tail c cs h)

abbrev HasChars : Option (List ℕ) → Type 0
HasChars none = Unit {0}
HasChars (some p) = AreChars p

some-chars : (p q : List ℕ) → some p ≡ some q → AreChars p → AreChars q
some-chars p q e h = subst (λ (o : Option (List ℕ)). HasChars o) e h

-- The path behind the drive prefix consists of bytes as well.
pub get_ldnumber_chars :
    (path rest : List ℕ) → AreChars path → get_ldnumber path ≡ some rest → AreChars rest
unfolding get_ldnumber
get_ldnumber_chars path rest h e = elim (Option-cases (find_colon path)) [
  | inl plain ↦ some-chars path rest (ground arith) h
  | inr (n, prefix) ↦ some-chars (drop (suc n) path) rest (ground arith) (drop_chars (suc n) path h)
]

-- A file object whose pointer is within its size.
abbrev pub IsWithin : File → Type 0
IsWithin f = (f.fptr ≤ f.objsize) × (f.objsize < 2 ^ 32)

module _ (g : Geometry) (has : HasFat g) (sized : HasClusters g)
    (some_cluster : 2 < g.n_fatent) where
  existing-Sound :
      (mode : ℕ) (r : Step) {v : Fatfs} → IsSound v → Ends Sound IsSound (open_existing g mode r v)
  unfolding open_existing
  existing-Sound mode (halt e dp) s = fails s
  existing-Sound mode (ok dp) s = elim (Bool-cases (is_directory dp)) [
    | inl table ↦ rw table (fails s)
    | inr file ↦ elim (Bool-cases (bit mode 1 && bit dp.attr 0)) [
      | inl locked ↦ rw (file, locked) (fails s)
      | inr allowed ↦ rw (file, allowed) (returns s)
    ]
  ]

  append-IsWithin :
      (f : File) {v : Fatfs}
      → IsSound v
      → IsWithin f
      → Ends (λ f' u. IsSound u × IsWithin f') IsSound (append g f v)
  unfolding append
  append-IsWithin f s (_, low) =
      Ends.bind
        (seek_end-Ends g has sized (suc f.objsize) f.sclust f.objsize (IsKept-refl g s)
          (omega arith))
        (λ u k. k.sound)
        λ last u k. elim (Bool-cases (last.1 % 512 == 0)) [
          | inl edge ↦ rw edge (returns (k.sound, (omega arith, low)))
          | inr inside ↦ elim (Bool-cases (clst2sect g last.0 == 0)) [
            | inl bad ↦ rw (inside, bad) (fails k.sound)
            | inr good ↦ rw (inside, good) (returns (k.sound, (omega arith, low)))
          ]
        ]

  set_up-IsWithin :
      (fp : File) (id : ℕ) (found : Dir × ℕ) {v : Fatfs}
      → IsSound v
      → Ends (λ f u. IsSound u × IsWithin f) IsSound (set_up g fp id found v)
  unfolding set_up file_of
  set_up-IsWithin fp id found {v} s =
      let f = file_of g fp id found.0 found.1 v in
      let within : IsWithin f =
        (omega arith, ld_dword_bound v.win (found.0.dir + 28) s.win_bytes) in
      elim (Bool-cases (bit found.1 5 && ltb 0 f.objsize)) [
        | inl seek ↦ rw seek (append-IsWithin f s within)
        | inr stay ↦ rw stay (returns (s, within))
      ]

  named-Spelled : (r : Step) → Spelled r → Spelled (named_object r)
  unfolding named_object
  named-Spelled (halt e dp) h = h
  named-Spelled (ok dp) h = elim (Bool-cases (is_noname dp)) [
    | inl top ↦ rw top (λ e. h)
    | inr named ↦ rw named h
  ]

  pub open_object-IsWithin :
      (fp : File) (id mode : ℕ) (r : Step) {v : Fatfs}
      → IsSound v
      → Spelled r
      → Ends (λ f u. IsSound u × IsWithin f) IsSound (open_object g fp id mode (named_object r) v)
  unfolding open_object
  open_object-IsWithin fp id mode r s spelled = elim (Bool-cases (may_create mode)) [
    | inl make ↦ rw make (
        Ends.bind
          (create_or_overwrite-Sound g has sized some_cluster mode (named_object r) s
            (named-Spelled r spelled))
          (λ u su. su) λ found u su. set_up-IsWithin fp id found su)
    | inr keep ↦ rw keep (
        Ends.bind (existing-Sound mode (named_object r) s) (λ u su. su)
          λ found u su. set_up-IsWithin fp id found su)
  ]

  -- `f_open` on a mounted volume returns in every mode and on every path of bytes, and leaves a sound
  -- volume: the modes that create a file or empty it are included. The file that it gives has its
  -- pointer within its size, which is below 4 GiB.
  pub f_open-IsWithin :
      (signed_char : Bool) (fp : File) (dj : Dir) (path : List ℕ) (mode : ℕ) (m : Mount) (fsid : ℕ)
      → m.geometry ≡ some g
      → IsSound m.fs
      → AreBytes dj.fn
      → AreChars path
      → Answers
          (λ f w. IsSound w × IsWithin f)
          IsSound
          m
          fsid
          (f_open signed_char fp dj path mode (system m fsid))
  unfolding f_open
  f_open-IsWithin signed_char fp dj path mode m fsid e s bytes chars =
      with_rest-Answers _ path _ m fsid g e s λ rest is.
        Ends.bind
          (follow_path-Known g has sized signed_char dj rest s bytes
            (get_ldnumber_chars path rest chars is))
          (λ w never. absurd never)
          λ r w (k, spelled). open_object-IsWithin fp m.id (open_mode mode) r k.sound spelled
