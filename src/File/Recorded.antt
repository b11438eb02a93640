-- ===== src/File/Recorded.antt =====
-- What `f_sync` of ff.c leaves on the volume.
use zephyr_fatfs_aflplusplus.Base.{
  ℕ, ◌+◌, ◌*◌, ◌/◌, ◌%◌, ◌^◌, ◌<◌, ◌≤◌, ◌≡◌, ◌≢◌, ◌⊎◌, inl, inr, refl, ap, ◌∙◌, true, false, Option,
  none, some, arith, Bool-cases, u32, bit,
}
use zephyr_fatfs_aflplusplus.Volume.{Geometry, Fatfs, Fresult, view}
use zephyr_fatfs_aflplusplus.Volume.Ends
use zephyr_fatfs_aflplusplus.Volume.Ends.{Ends, returns}
use zephyr_fatfs_aflplusplus.Window.Laws.{IsSound, IsKept, IsPlain, IsPlaced, move_window-IsKept}
use zephyr_fatfs_aflplusplus.Fat.{poke}
use zephyr_fatfs_aflplusplus.Fat.Entry.{max_fatent}
use zephyr_fatfs_aflplusplus.Fat.Get.{Never}
use zephyr_fatfs_aflplusplus.Sync.Elsewhere.{IsSynced, sync_fs-IsSynced}
use zephyr_fatfs_aflplusplus.File.{File, file_entry, validate, f_sync}
use zephyr_fatfs_aflplusplus.File.Fields.{
  IsEntryOf, ld_dword-same, ld_clust-same, file_entry-IsEntryOf, file_entry-other, file_entry_bytes,
}

-- A byte of the sector that is none of the attributes, times, cluster and size of the entry.
abbrev pub IsOther : File → ℕ → Type 0
IsOther f i = ((i < f.dir_ptr + 18) ⊎ (f.dir_ptr + 32 ≤ i)) × (i ≢ f.dir_ptr + 11)

-- The bytes outside a second FAT, the FSINFO sector and the fields of the entry are what they were.
pub record IsBeside (g : Geometry) (f : File) (v w : Fatfs) : Type 0 where
  pub sound : IsSound w
  pub same :
      (a : ℕ)
      → IsPlain g (a / 512)
      → a / 512 ≢ u32 (g.volbase + 1)
      → (a / 512 ≢ f.dir_sect) ⊎ IsOther f (a % 512)
      → view w a ≡ view v a

-- A file that can have an entry: it lies within a sector that is not in a second FAT and not that
-- of FSINFO.
pub record HasEntry (g : Geometry) (f : File) : Type 0 where
  pub plain : IsPlain g f.dir_sect
  pub apart : f.dir_sect ≢ u32 (g.volbase + 1)
  pub inside : f.dir_ptr + 32 ≤ 512
  pub small : f.sclust < max_fatent g.fs_type
  pub low : f.objsize < 2 ^ 32

-- The bytes of the sector of the entry.
abbrev pub entry_sector : File → Fatfs → ℕ → ℕ
entry_sector f w i = view w (f.dir_sect * 512 + i)

-- What a call returns that has to bring the entry up to date.
abbrev pub HasRecorded : Geometry → Fatfs → File → Option Fresult × File → Fatfs → Type 0
HasRecorded g v f (none, f') w =
    IsBeside g f v w × IsEntryOf g.fs_type f (entry_sector f w) × (bit f'.flag 6 ≡ false)
HasRecorded g v f (some e, f') w = IsBeside g f v w

module _ (g : Geometry) (placed : IsPlaced g) (f : File) (has : HasEntry g f) where
  poked-IsBeside :
      {v w : Fatfs}
      → IsKept g v w
      → w.winsect ≡ f.dir_sect
      → IsBeside g f v (poke (file_entry g f w.win) w)
  poked-IsBeside {v} {w} k here = record {
    sound = record {
      coherent = λ a clean low at. absurd (ground arith);
      win_bytes = file_entry_bytes g f w.win k.sound.win_bytes;
      disk_bytes = k.sound.disk_bytes;
    };
    same = λ a plain apart out. elim out [
      | inl away ↦ ground (arith, k.same a plain)
      | inr other ↦
          ground
            (arith, k.same a plain, file_entry-other g f w.win has.small (a % 512) other.0 other.1)
    ];
  }

  poked_sector :
      (w : Fatfs) (i : ℕ)
      → w.winsect ≡ f.dir_sect
      → i < 512
      → entry_sector f (poke (file_entry g f w.win) w) i ≡ file_entry g f w.win i
  poked_sector w i here low =
      let at : (f.dir_sect * 512 + i) / 512 ≡ f.dir_sect = omega arith in
      let off : (f.dir_sect * 512 + i) % 512 ≡ i = omega arith in ground arith

  synced-IsEntryOf :
      (w : Fatfs) {u : Fatfs}
      → w.winsect ≡ f.dir_sect
      → IsSynced g (poke (file_entry g f w.win) w) u
      → IsEntryOf g.fs_type f (entry_sector f u)
  synced-IsEntryOf w {u} here synced =
      let there : (i : ℕ) → i < 512 → entry_sector f u i ≡ file_entry g f w.win i = λ i low.
        let at : (f.dir_sect * 512 + i) / 512 ≡ f.dir_sect = omega arith in
        synced.same (f.dir_sect * 512 + i) (ground (arith, has.plain)) (ground (arith, has.apart))
        ∙ poked_sector w i here low in
      let is = file_entry-IsEntryOf g f w.win has.small has.low in
      record {
        sclust =
            ld_clust-same g.fs_type (entry_sector f u) (file_entry g f w.win) f.dir_ptr
              (λ i at. there i (ground (arith, has.inside)))
            ∙ is.sclust;
        objsize =
            ld_dword-same (entry_sector f u) (file_entry g f w.win) (f.dir_ptr + 28)
              (λ i from to. there i (ground (arith, has.inside)))
            ∙ is.objsize;
        archived =
            ap (λ b. bit b 5) (there (f.dir_ptr + 11) (omega (arith, has.inside))) ∙ is.archived;
      }

  IsBeside-synced : {v w u : Fatfs} → IsBeside g f v w → IsSynced g w u → IsBeside g f v u
  IsBeside-synced b s = record {
    sound = s.sound;
    same = λ a plain apart out. s.same a plain apart ∙ b.same a plain apart out;
  }

  -- On a sound volume `f_sync` of a changed file, whose entry is not in a second FAT or the FSINFO
  -- sector, returns, whatever the drive does, and no byte outside a second FAT, the FSINFO sector
  -- and the fields of the entry changes. If it succeeds the file is no longer marked as changed,
  -- and the entry on the volume holds what `f_open` reads from it: the first cluster and the size
  -- of the file.
  pub f_sync-HasRecorded :
      (mounted : Option ℕ) {v : Fatfs}
      → bit f.flag 6 ≡ true
      → IsSound v
      → Ends (HasRecorded g v f) Never (f_sync g mounted f v)
  unfolding f_sync
  f_sync-HasRecorded mounted {v} changed s =
      let stays : IsBeside g f v v = record { sound = s; same = λ a plain apart out. refl } in
      elim (Bool-cases (validate mounted v.disk f.fs)) [
        | inr bad ↦ rw bad (returns stays)
        | inl valid ↦
            rw (valid, changed)
              (Ends.handle (move_window-IsKept g placed f.dir_sect s)
                (λ e w k.
                  returns (record { sound = k.sound; same = λ a plain apart out. k.same a plain }))
                λ _ w (k, here).
                  let b = poked-IsBeside k here in
                  Ends.handle (sync_fs-IsSynced g placed b.sound) (λ e u same. rw same (returns b))
                    λ _ u synced. returns (
                      IsBeside-synced b synced,
                      synced-IsEntryOf w here synced,
                      ground (arith, changed),
                    ))
      ]
