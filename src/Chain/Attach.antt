-- ===== src/Chain/Attach.antt =====
-- The new cluster attached and counted by `create_chain`.
use zephyr_fatfs_aflplusplus.Base.{
  ℕ, ◌-◌, ◌≤◌, ◌<◌, ◌≡◌, ◌≢◌, ◌⊎◌, inl, inr, refl, ◌∙◌, arith, ltb, leb, if◌then◌else◌, ◌&&◌, sub32,
}
use zephyr_fatfs_aflplusplus.Volume.{Geometry, Fatfs, Fresult, done}
use zephyr_fatfs_aflplusplus.Volume.Ends
use zephyr_fatfs_aflplusplus.Volume.Ends.{Ends, returns, fails}
use zephyr_fatfs_aflplusplus.Window.Laws.{IsSound}
use zephyr_fatfs_aflplusplus.Fat.{put_fat, disk_error}
use zephyr_fatfs_aflplusplus.Fat.Entry.{HasFat, IsCluster, entry, end_bits, cluster_bits}
use zephyr_fatfs_aflplusplus.Fat.Put.{put_fat-entry}
use zephyr_fatfs_aflplusplus.Chain.{attach, count_used, error_value, end_of_chain}
use zephyr_fatfs_aflplusplus.Chain.Remove.{IsOutside, IsOutside-trans, Edited-IsOutside}

-- One fewer free cluster, where the number of free clusters is known.
abbrev pub spent : ℕ → ℕ → ℕ
spent n free = if ltb 0 free && leb free (sub32 n 2) then free - 1 else free

-- A free cluster `r` is now the last of the chain that ended at `clst` (of a new one if that is 0).
pub record IsGrown (g : Geometry) (clst : ℕ) (v : Fatfs) (r : ℕ) (w : Fatfs) : Type 0 where
  pub outside : IsOutside g v w
  pub inside : IsCluster g r
  pub free : entry g v r ≡ 0
  pub end : g.n_fatent ≤ entry g w r
  pub linked : clst ≢ 0 → entry g w clst ≡ r
  pub others : (d : ℕ) → d ≢ r → d ≢ clst → d < g.n_fatent → entry g w d ≡ entry g v d

module _ (g : Geometry) (has : HasFat g) where
  -- The two writes to the FAT.
  pub attach-IsGrown :
      (clst ncl : ℕ) {v : Fatfs}
      → IsSound v
      → IsCluster g ncl
      → entry g v ncl ≡ 0
      → (clst ≡ 0) ⊎ (IsCluster g clst × (clst ≢ ncl))
      → Ends
          (λ _ w. IsGrown g clst v ncl w × (w.free_clst ≡ v.free_clst))
          (IsOutside g v)
          (attach g clst ncl v)
  unfolding attach
  attach-IsGrown clst ncl {v} s inside free (inl e) =
      Ends.bind (put_fat-entry g has ncl end_of_chain s inside) (λ w e. Edited-IsOutside g ncl e)
        λ _ w (edit, self). Ends.by_eq {r' = done tt w} (ground arith) (
          returns (
            record {
              outside = Edited-IsOutside g ncl edit;
              inside = inside;
              free = free;
              end = ground (arith, end_bits g.fs_type g.n_fatent, has.typed);
              linked = λ ne. absurd (ne e);
              others = λ d ne _ low. edit.others d ne low;
            },
            edit.free_clst,
          ))
  attach-IsGrown clst ncl {v} s inside free (inr (old, apart)) =
      Ends.bind (put_fat-entry g has ncl end_of_chain s inside) (λ w e. Edited-IsOutside g ncl e)
        λ _ w (edit, self). Ends.by_eq {r' = put_fat g clst ncl w} (ground arith) (
          Ends.mono (put_fat-entry g has clst ncl edit.sound old)
            (λ _ u (edit', self'). (
              record {
                outside =
                    IsOutside-trans g (Edited-IsOutside g ncl edit) (Edited-IsOutside g clst edit');
                inside = inside;
                free = free;
                end = ground (arith, end_bits g.fs_type g.n_fatent, has.typed, edit'.others ncl);
                linked = λ ne. self' ∙ cluster_bits g.fs_type g.n_fatent ncl has.typed inside.1;
                others = λ d ne ne' low. edit'.others d ne' low ∙ edit.others d ne low;
              },
              edit'.free_clst ∙ edit.free_clst,
            ))
            (λ u e. IsOutside-trans g (Edited-IsOutside g ncl edit) (Edited-IsOutside g clst e)))

  -- The counters are no part of the FAT.
  pub counted-IsGrown :
      (clst r : ℕ) {v w : Fatfs} → IsGrown g clst v r w → IsGrown g clst v r (count_used g r w)
  unfolding count_used
  counted-IsGrown clst r grown = record {
    outside = record {
      sound = record {
        coherent = grown.outside.sound.coherent;
        win_bytes = grown.outside.sound.win_bytes;
        disk_bytes = grown.outside.sound.disk_bytes;
      };
      beyond = grown.outside.beyond;
    };
    inside = grown.inside;
    free = grown.free;
    end = grown.end;
    linked = grown.linked;
    others = grown.others;
  }

  pub count_used-spent :
      (r : ℕ) (w : Fatfs)
      → ((count_used g r w).last_clst ≡ r)
        × ((count_used g r w).free_clst ≡ spent g.n_fatent w.free_clst)
  unfolding count_used
  count_used-spent r w = (refl, refl)

  pub error_value_lem : (e : Fresult) → (error_value e ≡ 1) ⊎ (error_value e ≡ disk_error)
  unfolding error_value
  error_value_lem e = ground arith
