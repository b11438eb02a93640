-- ===== src/Api/Removal/Marked.antt =====
-- The bytes of the volume that `dir_remove`, `remove_chain` and `sync_fs` of ff.c change when they are
-- called one after the other.
use zephyr_fatfs_aflplusplus.Base.{
  ℕ, ◌+◌, ◌*◌, ◌/◌, ◌%◌, ◌<◌, ◌≤◌, ◌≡◌, ◌≢◌, refl, sym, subst, if◌then◌else◌, ◌∙◌, ◌⊎◌, inl, inr,
  false, arith, ◌==◌, Bool-cases, u32,
}
use zephyr_fatfs_aflplusplus.Volume.{Geometry, Fatfs, no_file, view, return, ◌>>=◌}
use zephyr_fatfs_aflplusplus.Volume.Ends
use zephyr_fatfs_aflplusplus.Volume.Ends.{Ends, returns, fails}
use zephyr_fatfs_aflplusplus.Window.Laws.{IsSound, IsKept, IsPlain, IsKept-trans}
use zephyr_fatfs_aflplusplus.Fat.Entry.{HasFat}
use zephyr_fatfs_aflplusplus.Chain.{remove_chain}
use zephyr_fatfs_aflplusplus.Chain.Remove.{IsOutside, remove_chain-IsThinned}
use zephyr_fatfs_aflplusplus.Sync.Elsewhere.{IsSynced, sync_fs-IsSynced}
use zephyr_fatfs_aflplusplus.Dir.{Dir, Step, ok, halt}
use zephyr_fatfs_aflplusplus.Dir.Table.{deleted, dir_read}
use zephyr_fatfs_aflplusplus.Dir.Start.{HasClusters, Positioned, dir_sdi-Positioned}
use zephyr_fatfs_aflplusplus.Dir.Reading.{
  Read, Deleted, IsDeleted, dir_read-Read, dir_remove-Deleted,
}
use zephyr_fatfs_aflplusplus.Api.{expect}
use zephyr_fatfs_aflplusplus.Api.Removal.{none_left, check_empty, discard}

-- A byte of the volume outside the FATs and the FSINFO sector.
abbrev pub IsData : Geometry → ℕ → Type 0
IsData g a =
    IsPlain g (a / 512)
    × ((a < g.fatbase * 512) ⊎ (g.fatbase * 512 + g.fsize * 512 ≤ a))
    × (a / 512 ≢ u32 (g.volbase + 1))

-- Of the data bytes, only the one at `mark` may differ.
pub record IsMarked (g : Geometry) (mark : ℕ) (v w : Fatfs) : Type 0 where
  pub sound : IsSound w
  pub others : (a : ℕ) → IsData g a → a ≢ mark → view w a ≡ view v a

-- The address on the drive of the entry of an object.
abbrev pub entry_address : Dir → ℕ
entry_address dp = dp.sect * 512 + dp.dir

-- After an error at most one entry is marked.
abbrev pub HasOneMark : Geometry → Fatfs → Fatfs → Type 0
HasOneMark g v w = (mark : ℕ) × IsMarked g mark v w

pub Kept-IsMarked : (g : Geometry) (mark : ℕ) {v w : Fatfs} → IsKept g v w → IsMarked g mark v w
Kept-IsMarked g mark kept = record {
  sound = kept.sound;
  others = λ a data_byte ne. kept.same a data_byte.0;
}

module _ (g : Geometry) (has : HasFat g) (sized : HasClusters g) where
  none_left-Ends :
      (start : ℕ) (r : Step) (w : Fatfs) {v u : Fatfs}
      → IsKept g v u
      → Read g u false start r w
      → Ends (λ _ x. IsKept g v x) (IsKept g v) (none_left g r w)
  unfolding none_left
  none_left-Ends start (ok dp) w kept h = fails (IsKept-trans g kept h.0)
  none_left-Ends start (halt e dp) w {v} kept h =
      elim e as (λ e. Ends (λ _ x. IsKept g v x) (IsKept g v) (none_left g (halt e dp) w)) [
        | no_file ↦ returns (IsKept-trans g kept h)
        | other ↦ fails (IsKept-trans g kept h)
      ]

  pub check_empty-Ends :
      (sdj : Dir) (dclst : ℕ) {v w : Fatfs}
      → IsKept g v w
      → Ends (λ _ x. IsKept g v x) (IsKept g v) (check_empty g sdj dclst w)
  unfolding check_empty
  check_empty-Ends sdj dclst {v} {w} kept =
      Ends.bind (dir_sdi-Positioned g has sized (record sdj { sclust = dclst }) 0 kept.sound)
        (λ u never. absurd never) λ r u p. opened r u p
    where
      opened :
          (r : Step) (u : Fatfs)
          → Positioned g w (record sdj { sclust = dclst }) 0 r u
          → Ends
              (λ _ x. IsKept g v x)
              (IsKept g v)
              (expect r (λ d. dir_read g d false >>= λ r2. none_left g r2) u)
      opened (halt e d) u (k, h) = fails (IsKept-trans g kept k)
      opened (ok d) u (k, at) =
          Ends.bind (dir_read-Read g has false d k.sound (omega (arith, at.offset)))
            (λ x never. absurd never)
            λ r2 x (found, ended). none_left-Ends d.dptr r2 x (IsKept-trans g kept k) found

  -- The entry in the window that `dir_remove` has marked.
  deleted-IsMarked :
      (dp : Dir) (x : Fatfs) {v u w : Fatfs}
      → dp.dir < 512
      → IsKept g v u
      → IsDeleted g has u dp x w
      → IsMarked g (entry_address dp) v w × (view w (entry_address dp) ≡ deleted)
  deleted-IsMarked dp x {v} {u} {w} low kept d =
      let sector : entry_address dp / 512 ≡ dp.sect = omega arith in
      let byte : entry_address dp % 512 ≡ dp.dir = omega arith in
      (
        record {
          sound = d.sound;
          others = λ a data_byte ne.
              let same : view w a ≡ view x a =
                ground (arith, d.here, d.shown.here, d.others (a % 512), d.disk a) in
              same ∙ (d.shown.kept.same a data_byte.0 ∙ kept.same a data_byte.0);
        },
        ground (arith, d.here, d.mark),
      )

  Outside-IsMarked :
      (mark : ℕ) {v u w : Fatfs} → IsMarked g mark v u → IsOutside g u w → IsMarked g mark v w
  Outside-IsMarked mark m out = record {
    sound = out.sound;
    others = λ a data_byte ne. out.beyond a data_byte.0 data_byte.1 ∙ m.others a data_byte ne;
  }

  Synced-IsMarked :
      (mark : ℕ) {v u w : Fatfs} → IsMarked g mark v u → IsSynced g u w → IsMarked g mark v w
  Synced-IsMarked mark m synced = record {
    sound = synced.sound;
    others = λ a data_byte ne. synced.same a data_byte.0 data_byte.2 ∙ m.others a data_byte ne;
  }

  -- Marked, with the mark itself.
  abbrev pub HasMark : Dir → Fatfs → Fatfs → Type 0
  HasMark dp v w =
      IsMarked g (entry_address dp) v w
      × (IsData g (entry_address dp) → view w (entry_address dp) ≡ deleted)

  free_chain-HasMark :
      (dp : Dir) (dclst : ℕ) {v w : Fatfs}
      → HasMark dp v w
      → Ends
          (λ _ x. HasMark dp v x)
          (HasOneMark g v)
          ((if dclst == 0 then return tt else remove_chain g dclst 0) w)
  free_chain-HasMark dp dclst {v} {w} (m, mark) = elim (Bool-cases (dclst == 0)) [
    | inl none_held ↦ rw none_held (returns (m, mark))
    | inr held ↦ rw held (
        Ends.mono (remove_chain-IsThinned g has dclst 0 m.sound (inl refl))
          (λ _ x thin.
            (Outside-IsMarked (entry_address dp) m thin.0, λ d. thin.0.beyond _ d.0 d.1 ∙ mark d))
          (λ x out. (entry_address dp, Outside-IsMarked (entry_address dp) m out)))
  ]

  pub discard-HasMark :
      (dp : Dir) (dclst : ℕ) {v w : Fatfs}
      → dp.dir < 512
      → IsKept g v w
      → Ends (λ _ x. HasMark dp v x) (HasOneMark g v) (discard g dp dclst w)
  unfolding discard
  discard-HasMark dp dclst {v} {w} low kept =
      Ends.bind (dir_remove-Deleted g has dp kept.sound) (λ u never. absurd never)
        λ r u removed.
          Ends.bind (after r u removed) (λ x h. h)
            λ _ x (m, mark).
              Ends.mono (sync_fs-IsSynced g has.placed m.sound)
                (λ _ y synced. (
                  Synced-IsMarked (entry_address dp) m synced,
                  λ d. synced.same _ d.0 d.2 ∙ mark d,
                ))
                (λ y same. (entry_address dp, subst (IsMarked g (entry_address dp) v) (sym same) m))
    where
      after :
          (r : Step) (u : Fatfs)
          → Deleted g has w dp r u
          → Ends
              (λ _ x. HasMark dp v x)
              (HasOneMark g v)
              (expect r (λ d. if dclst == 0 then return tt else remove_chain g dclst 0) u)
      after (halt e d) u (is, k) = fails (0, Kept-IsMarked g 0 (IsKept-trans g kept k))
      after (ok d) u (is, (x, del)) =
          let (m, mark) = deleted-IsMarked dp x low kept del in
          free_chain-HasMark dp dclst (m, λ d. mark)
