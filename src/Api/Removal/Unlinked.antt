-- ===== src/Api/Removal/Unlinked.antt =====
-- What `f_unlink` of ff.c leaves on the volume.
use zephyr_fatfs_aflplusplus.Base.{
  ℕ, ◌≡◌, some, ◌⊎◌, inl, inr, Bool, true, false, List, Bool-cases, bit,
}
use zephyr_fatfs_aflplusplus.Volume.{Geometry, Fatfs, view}
use zephyr_fatfs_aflplusplus.Volume.Ends
use zephyr_fatfs_aflplusplus.Volume.Ends.{Ends, returns, fails}
use zephyr_fatfs_aflplusplus.Window.Laws.{IsSound, IsKept, IsKept-refl}
use zephyr_fatfs_aflplusplus.Fat.Entry.{HasFat}
use zephyr_fatfs_aflplusplus.Dir.{Dir, Step, ok, halt, ld_clust}
use zephyr_fatfs_aflplusplus.Dir.Table.{deleted}
use zephyr_fatfs_aflplusplus.Dir.Start.{HasClusters}
use zephyr_fatfs_aflplusplus.Mount.{Mount}
use zephyr_fatfs_aflplusplus.Name.Walk.{IsEntry}
use zephyr_fatfs_aflplusplus.Api.{system, expect}
use zephyr_fatfs_aflplusplus.Api.Calls.{Answers, with_volume-Answers}
use zephyr_fatfs_aflplusplus.Api.Lookup.{is_noname, is_directory}
use zephyr_fatfs_aflplusplus.Api.Lookup.Kept.{Walked, follow_path-Walked}
use zephyr_fatfs_aflplusplus.Api.Removal.{unlink_object, f_unlink}
use zephyr_fatfs_aflplusplus.Api.Removal.Marked.{
  IsData, IsMarked, entry_address, HasOneMark, Kept-IsMarked, check_empty-Ends, HasMark,
  discard-HasMark,
}

-- The object, found at an entry in use, is gone: its entry is marked as deleted, and no other data
-- byte has changed.
pub record IsUnlinked (g : Geometry) (v w : Fatfs) : Type 0 where
  pub dp : Dir
  pub found : (u : Fatfs) × IsKept g v u × IsEntry dp u
  pub allowed : bit dp.attr 0 ≡ false
  pub marked : IsMarked g (entry_address dp) v w
  pub mark : IsData g (entry_address dp) → view w (entry_address dp) ≡ deleted

module _ (g : Geometry) (has : HasFat g) (sized : HasClusters g) where
  unlinked :
      (dp : Dir) {v w x : Fatfs}
      → IsKept g v w
      → IsEntry dp w
      → bit dp.attr 0 ≡ false
      → HasMark g has sized dp v x
      → IsUnlinked g v x
  unlinked dp {v} {w} kept at allowed h = record {
    dp = dp;
    found = (w, kept, at);
    allowed = allowed;
    marked = h.0;
    mark = h.1;
  }

  unlink_object-IsUnlinked :
      (sdj dp : Dir) {v w : Fatfs}
      → IsKept g v w
      → IsEntry dp w ⊎ (is_noname dp ≡ true)
      → Ends (λ _ x. IsUnlinked g v x) (HasOneMark g v) (unlink_object g sdj dp w)
  unfolding unlink_object
  unlink_object-IsUnlinked sdj dp {v} {w} kept (inr top) =
      rw top (fails (0, Kept-IsMarked g 0 kept))
  unlink_object-IsUnlinked sdj dp {v} {w} kept (inl at) =
      let dclst = ld_clust g.fs_type w.win dp.dir in
      elim (Bool-cases (is_noname dp)) [
        | inl top ↦ rw top (fails (0, Kept-IsMarked g 0 kept))
        | inr named ↦ elim (Bool-cases (bit dp.attr 0)) [
          | inl locked ↦ rw (named, locked) (fails (0, Kept-IsMarked g 0 kept))
          | inr allowed ↦ elim (Bool-cases (is_directory dp)) [
            | inr file ↦
                rw (named, allowed, file)
                  (Ends.mono (discard-HasMark g has sized dp dclst at.3 kept)
                    (λ _ x h. unlinked dp kept at allowed h) (λ x h. h))
            | inl table ↦
                rw (named, allowed, table)
                  (Ends.bind (check_empty-Ends g has sized sdj dclst kept)
                    (λ x k. (0, Kept-IsMarked g 0 k))
                    λ _ u k.
                      Ends.mono (discard-HasMark g has sized dp dclst at.3 k)
                        (λ _ x h. unlinked dp kept at allowed h) (λ x h. h))
          ]
        ]
      ]

  pub f_unlink-IsUnlinked :
      (signed_char : Bool) (dj sdj : Dir) (path : List ℕ) (m : Mount) (fsid : ℕ)
      → m.geometry ≡ some g
      → IsSound m.fs
      → Answers
          (λ _ w. IsUnlinked g m.fs w)
          (HasOneMark g m.fs)
          m
          fsid
          (f_unlink signed_char dj sdj path (system m fsid))
  unfolding f_unlink
  f_unlink-IsUnlinked signed_char dj sdj path m fsid e s =
      with_volume-Answers true path _ m fsid g e (0, Kept-IsMarked g 0 (IsKept-refl g s))
        λ rest.
          Ends.bind (follow_path-Walked g has sized signed_char dj rest s) (λ w never. absurd never)
            λ r w walked. walked_on r w walked
    where
      walked_on :
          (r : Step) (w : Fatfs)
          → Walked g m.fs r w
          → Ends (λ _ x. IsUnlinked g m.fs x) (HasOneMark g m.fs) (expect r (unlink_object g sdj) w)
      walked_on (ok dp) w (kept, at) = unlink_object-IsUnlinked sdj dp kept at
      walked_on (halt er dp) w kept = fails (0, Kept-IsMarked g 0 kept)
