-- ===== src/Harness/Listing.antt =====
-- The loop of harness.c over the items that `f_readdir` of ff.c gives.
use zephyr_fatfs_aflplusplus.Base.{
  ℕ, zero, suc, ◌+◌, ◌*◌, ◌<◌, ◌≡◌, ◌⊎◌, inl, inr, none, some, arith, Option-cases, refl,
}
use zephyr_fatfs_aflplusplus.Volume.{Geometry, Fatfs, invalid_object}
use zephyr_fatfs_aflplusplus.Window.Laws.{IsKept}
use zephyr_fatfs_aflplusplus.Fat.Entry.{HasFat}
use zephyr_fatfs_aflplusplus.Mount.{Mount}
use zephyr_fatfs_aflplusplus.Dir.{max_dir}
use zephyr_fatfs_aflplusplus.Dir.Table.{table_rounds}
use zephyr_fatfs_aflplusplus.Name.{Filinfo}
use zephyr_fatfs_aflplusplus.File.{File}
use zephyr_fatfs_aflplusplus.Api.{System, system}
use zephyr_fatfs_aflplusplus.Api.Lookup.{Handle, Reading, f_readdir}
use zephyr_fatfs_aflplusplus.Script.{Script, Run, return, ◌>>=◌, run_on}
use zephyr_fatfs_aflplusplus.Harness.{item_of, list_items}
use zephyr_fatfs_aflplusplus.Harness.Items.{IsBehind, Listed, f_readdir-Listed}
use zephyr_fatfs_aflplusplus.Script.Runs.{Runs, ran, in_turn, call-Runs}

-- The volume is mounted as in `m`, and holds the same bytes.
abbrev pub IsSame : Geometry → Mount → ℕ → System → Type 0
IsSame g m fsid s = (v : Fatfs) × (s ≡ system (record m { fs = v }) fsid) × IsKept g m.fs v

-- A piece of the harness that returns and changes no byte outside a second FAT.
abbrev pub IsQuiet : {A : Type 0} → Geometry → Mount → ℕ → Script A → Type 0
IsQuiet g m fsid run =
    (v : Fatfs)
    → IsKept g m.fs v
    → Runs (λ a s. IsSame g m fsid s) (run (system (record m { fs = v }) fsid))

-- The rounds left are enough: one at the end of the table, or one per entry and two more.
abbrev pub HasRounds : ℕ → Handle → Type 0
HasRounds fuel d =
    ((d.dir.sect ≡ 0) × (0 < fuel))
    ⊎ ((d.dir.dptr < max_dir) × (max_dir + 32 < d.dir.dptr + fuel * 32))

rounds-left :
    (fuel : ℕ) (d d' : Handle) → HasRounds (suc fuel) d → IsBehind d d' → HasRounds fuel d'
rounds-left fuel d d' (inl (past, some_left)) (on, h) = absurd (on past)
rounds-left fuel d d' (inr (low, enough)) (on, inl past) = inl (past, omega arith)
rounds-left fuel d d' (inr (low, enough)) (on, inr (step, low')) = inr (low', omega arith)

module _ (g : Geometry) (has : HasFat g) (m : Mount) (fsid : ℕ) (e : m.geometry ≡ some g) where
  -- Two pieces one after the other.
  pub then-IsQuiet :
      {A B : Type 0} {r : Run A} (k : A → Script B)
      → Runs (λ a s. IsSame g m fsid s) r
      → ((a : A) → IsQuiet g m fsid (k a))
      → Runs (λ b s. IsSame g m fsid s) (run_on r k)
  then-IsQuiet k first next = in_turn first λ a s (v, is, kept). rw is (next a v kept)

module _ (g : Geometry) (has : HasFat g) (m : Mount) (fsid : ℕ) (e : m.geometry ≡ some g)
    (visit : Filinfo → File → Script File)
    (quiet : (i : Filinfo) (f : File) → IsQuiet g m fsid (visit i f)) where
  abbrev Rest : ℕ → Handle → Type 0
  Rest fuel d =
      HasRounds fuel d
      → (fno : Filinfo) (file : File) → IsQuiet g m fsid (list_items visit fuel d fno file)

  one_item :
      (fuel : ℕ) (d : Handle) (file : File) (r : Reading) (w u : Fatfs)
      → HasRounds (suc fuel) d
      → Rest fuel r.1
      → IsKept g m.fs u
      → Listed g w d r u
      → Runs
          (λ a s. IsSame g m fsid s)
          (elim (item_of r.0 r.2) as (λ o. Script (Handle × File)) [
            | none ↦ return (r.1, file)
            | some info ↦ (visit info file >>= list_items visit fuel r.1 info)
          ]
            (system (record m { fs = u }) fsid))
  one_item fuel d file r w u enough rest kept (k, step) = elim (Option-cases (item_of r.0 r.2)) [
    | inl end ↦ rw end (ran (u, refl, kept))
    | inr (i, it) ↦
        let (low, behind) = step i it in
        rw it (
          then-IsQuiet g has m fsid e (list_items visit fuel r.1 i) (quiet i file u kept)
            λ f. rest (rounds-left fuel d r.1 enough behind) i f)
  ]

  list_items-IsQuiet : (fuel : ℕ) (d : Handle) → Rest fuel d
  unfolding list_items
  list_items-IsQuiet zero d enough fno file v kept = absurd (omega arith)
  list_items-IsQuiet (suc fuel) d enough fno file v kept =
      in_turn
        (call-Runs (some invalid_object, d, some fno)
          (λ h mounted. f_readdir h mounted d (some fno)) (record m { fs = v }) fsid g e
          (f_readdir-Listed g has (some m.id) d fno kept
            (elim enough [ inl a ↦ inl (a.0) | inr b ↦ inr (b.0) ])))
        λ r s (u, is, listed).
          rw is (one_item fuel d file r m.fs u enough (list_items-IsQuiet fuel r.1) listed.0 listed)

  -- From the start of a table one round per entry of the largest one and two more are enough.
  pub whole_table-IsQuiet :
      (d : Handle) (fno : Filinfo) (file : File)
      → d.dir.dptr < max_dir
      → IsQuiet g m fsid (list_items visit (suc table_rounds) d fno file)
  whole_table-IsQuiet d fno file low =
      list_items-IsQuiet (suc table_rounds) d (inr (low, omega arith)) fno file
