-- ===== src/File/Closed.antt =====
-- `f_sync` and `f_close` of ff.c on every file object.
use zephyr_fatfs_aflplusplus.Base.{ℕ, inl, inr, Option, none, some, Bool-cases, bit, if◌then◌else◌}
use zephyr_fatfs_aflplusplus.Volume.{Geometry, Fatfs, Fresult, invalid_object, done}
use zephyr_fatfs_aflplusplus.Volume.Ends
use zephyr_fatfs_aflplusplus.Volume.Ends.{Ends, returns}
use zephyr_fatfs_aflplusplus.Window.Laws.{IsSound, move_window-IsKept}
use zephyr_fatfs_aflplusplus.Fat.Entry.{HasFat}
use zephyr_fatfs_aflplusplus.Fat.Get.{Never}
use zephyr_fatfs_aflplusplus.Sync.Elsewhere.{sync_fs-IsSynced}
use zephyr_fatfs_aflplusplus.File.{File, file_entry, validate, f_sync, f_close}
use zephyr_fatfs_aflplusplus.File.Extend.{poke-IsSound}
use zephyr_fatfs_aflplusplus.File.Fields.{file_entry_bytes}

module _ (g : Geometry) (has : HasFat g) where
  f_sync_any :
      (mounted : Option ℕ) (f : File) {v : Fatfs}
      → IsSound v
      → Ends (λ r w. IsSound w) Never (f_sync g mounted f v)
  unfolding f_sync
  f_sync_any mounted f {v} s = elim (Bool-cases (validate mounted v.disk f.fs)) [
    | inr bad ↦ rw bad (returns s)
    | inl valid ↦ elim (Bool-cases (bit f.flag 6)) [
      | inr same ↦ rw (valid, same) (returns s)
      | inl changed ↦
          rw (valid, changed)
            (Ends.handle (move_window-IsKept g has.placed f.dir_sect s) (λ e w k. returns k.sound)
              λ _ w (k, here).
                let poked =
                  poke-IsSound w (file_entry g f w.win)
                    (file_entry_bytes g f w.win k.sound.win_bytes) k.sound.disk_bytes in
                Ends.handle (sync_fs-IsSynced g has.placed poked) (λ e u is. returns (rw is poked))
                  (λ _ u h. returns h.sound))
    ]
  ]

  closed :
      (mounted : Option ℕ) (r : Option Fresult × File) (v : Fatfs)
      → IsSound v
      → Ends {A = Option Fresult × File}
          (λ r w. IsSound w)
          Never
          (elim r.0 [
            | some e ↦ done (some e, r.1) v
            | none ↦
                if validate mounted v.disk r.1.fs
                then done (none, record (r.1) { fs = none }) v
                else done (some invalid_object, r.1) v
          ])
  closed mounted (some e, f) v s = returns s
  closed mounted (none, f) v s = elim (Bool-cases (validate mounted v.disk f.fs)) [
    | inl valid ↦ rw valid (returns s)
    | inr bad ↦ rw bad (returns s)
  ]

  -- Every file can be closed, and the volume stays sound.
  pub f_close_any :
      (mounted : Option ℕ) (f : File) {v : Fatfs}
      → IsSound v
      → Ends (λ r w. IsSound w) Never (f_close g mounted f v)
  unfolding f_close
  f_close_any mounted f s =
      Ends.bind (f_sync_any mounted f s) (λ w never. never) λ r w sw. closed mounted r w sw
