-- ===== src/File/Written.antt =====
-- `f_write` of ff.c: the loop over the rounds.
use zephyr_fatfs_aflplusplus.Base.{
  ℕ, zero, suc, ◌+◌, ◌-◌, ◌%◌, ◌^◌, ◌≤◌, ◌<◌, ◌≡◌, inl, inr, refl, not, arith, Option, none, some,
  ltb, ◌==◌, if◌then◌else◌, Bool-cases, Option-cases, bit,
}
use zephyr_fatfs_aflplusplus.Diskio.{Bytes}
use zephyr_fatfs_aflplusplus.Volume.{Geometry, Fatfs, Act, return}
use zephyr_fatfs_aflplusplus.Volume.Ends
use zephyr_fatfs_aflplusplus.Volume.Ends.{Ends, returns}
use zephyr_fatfs_aflplusplus.Window.Laws.{IsSound}
use zephyr_fatfs_aflplusplus.Fat.{disk_error}
use zephyr_fatfs_aflplusplus.Fat.Entry.{HasFat}
use zephyr_fatfs_aflplusplus.Fat.Get.{Never}
use zephyr_fatfs_aflplusplus.Dir.Start.{HasClusters}
use zephyr_fatfs_aflplusplus.File.{
  File, Round, moved, stopped, aborted, Transfer, abort, validate, sector_in_cluster,
}
use zephyr_fatfs_aflplusplus.File.Write.{
  modified, grown, write_cluster, write_round, write_bytes, clip, f_write,
}
use zephyr_fatfs_aflplusplus.Chain.Total.{create_chain_any}
use zephyr_fatfs_aflplusplus.Diskio.{AreBytes}
use zephyr_fatfs_aflplusplus.File.Extend.{Wrote, write_partial-Wrote, write_sector-Wrote}

module _ (g : Geometry) (has : HasFat g) (sized : HasClusters g)
    (some_cluster : 2 < g.n_fatent) where
  write_cluster-IsSound :
      (f : File) {v : Fatfs} → IsSound v → Ends (λ r w. IsSound w) Never (write_cluster g f v)
  unfolding write_cluster
  write_cluster-IsSound f s = elim (Bool-cases (f.fptr == 0)) [
    | inr on ↦ rw on (create_chain_any g has some_cluster f.clust s)
    | inl top ↦ elim (Bool-cases (f.sclust == 0)) [
      | inl empty ↦ rw (top, empty) (create_chain_any g has some_cluster 0 s)
      | inr begun ↦ rw (top, begun) (returns s)
    ]
  ]

  write_round-Wrote :
      (f : File) (src : Bytes) (btw : ℕ) {v : Fatfs}
      → IsSound v
      → AreBytes src
      → 1 ≤ btw
      → Ends (Wrote f btw) Never (write_round g f src btw v)
  unfolding write_round
  write_round-Wrote f src btw s bytes some_bytes = elim (Bool-cases (not (f.fptr % 512 == 0))) [
    | inl within ↦
        rw within (write_partial-Wrote g has sized f f src btw s bytes some_bytes (refl, refl))
    | inr edge ↦ elim (Bool-cases (not (sector_in_cluster g f.fptr == 0))) [
      | inl next ↦
          rw (edge, next)
            (write_sector-Wrote g has sized f f src btw s bytes some_bytes (refl, refl))
      | inr start ↦
          rw (edge, start)
            (Ends.bind (write_cluster-IsSound f s) (λ w never. never)
              λ clst w sw. elim (Bool-cases (clst == 0)) [
                | inl none_free ↦ rw none_free (returns (sw, refl, refl))
                | inr there ↦ elim (Bool-cases (clst == 1)) [
                  | inl wrong ↦ rw (there, wrong) (returns (sw, refl, refl))
                  | inr right ↦ elim (Bool-cases (clst == disk_error)) [
                    | inl wrong ↦ rw (there, right, wrong) (returns (sw, refl, refl))
                    | inr good ↦
                        rw (there, right, good)
                          (write_sector-Wrote g has sized f
                            (record f {
                              clust = clst;
                              sclust = if f.sclust == 0 then clst else f.sclust;
                            })
                            src btw sw bytes some_bytes (refl, refl))
                  ]
                ]
              ])
    ]
  ]

  -- What the loop leaves, `at` bytes on.
  pub record IsWritten (f : File) (at btw : ℕ) (t : Transfer) (w : Fatfs) : Type 0 where
    pub sound : IsSound w
    pub low : at ≤ t.count
    pub high : t.count ≤ at + btw
    pub moved_by : t.file.fptr + at ≡ f.fptr + t.count
    pub size : t.file.objsize ≡ (if ltb f.objsize t.file.fptr then t.file.fptr else f.objsize)

  after_round :
      (fuel : ℕ) (f : File) (buff : Bytes) (at btw : ℕ) (r : Round) (w : Fatfs)
      → ((f' : File) (at' n : ℕ)
          → IsSound w
          → n ≤ fuel
          → f'.fptr ≤ f'.objsize
          → Ends (IsWritten f' at' n) Never (write_bytes g fuel f' buff at' n w))
      → btw ≤ suc fuel
      → f.fptr ≤ f.objsize
      → Wrote f btw r w
      → Ends (IsWritten f at btw) Never (
          (elim r as (λ r. Act Transfer) [
            | moved f' src n ↦ write_bytes g fuel (grown f' n) buff (at + n) (btw - n)
            | stopped f' ↦
                return (record { res = none; file = modified f'; buff = buff; count = at })
            | aborted e f' ↦
                return (record { res = some e; file = abort e f'; buff = buff; count = at })
          ])
            w)
  after_round fuel f buff at btw (moved f' src n) w rest enough fits
        (s, some_bytes, room, same, size) =
      Ends.mono (rest (grown f' n) (at + n) (btw - n) s (omega arith) (ground arith))
        (λ t u written. record {
          sound = written.sound;
          low = omega (arith, written.low);
          high = omega (arith, written.high);
          moved_by = omega (arith, written.moved_by);
          size = ground (arith, written.size, written.moved_by, written.low);
        })
        (λ u never. never)
  after_round fuel f buff at btw (stopped f') w rest enough fits (s, same, size) = returns (record {
    sound = s;
    low = omega arith;
    high = omega arith;
    moved_by = omega arith;
    size = ground arith;
  })
  after_round fuel f buff at btw (aborted e f') w rest enough fits (s, same, size) =
      returns (record {
        sound = s;
        low = omega arith;
        high = omega arith;
        moved_by = omega arith;
        size = ground arith;
      })

  write_bytes-IsWritten :
      (fuel : ℕ) (f : File) (buff : Bytes) (at btw : ℕ) {v : Fatfs}
      → IsSound v
      → AreBytes buff
      → btw ≤ fuel
      → f.fptr ≤ f.objsize
      → Ends (IsWritten f at btw) Never (write_bytes g fuel f buff at btw v)
  unfolding write_bytes
  write_bytes-IsWritten zero f buff at btw s bytes enough fits = elim (Bool-cases (btw == 0)) [
    | inl end ↦ rw end (
        returns (record {
          sound = s;
          low = omega arith;
          high = omega arith;
          moved_by = refl;
          size = ground arith;
        }))
    | inr more ↦ absurd (ground arith)
  ]
  write_bytes-IsWritten (suc fuel) f buff at btw s bytes enough fits =
      elim (Bool-cases (btw == 0)) [
        | inl end ↦ rw end (
            returns (record {
              sound = s;
              low = omega arith;
              high = omega arith;
              moved_by = refl;
              size = ground arith;
            }))
        | inr more ↦ rw more (
            Ends.bind
              (write_round-Wrote f (λ i. buff (at + i)) btw s (λ i. bytes (at + i)) (ground arith))
              (λ w never. never)
              λ r w wrote.
                after_round fuel f buff at btw r w
                  (λ f' at' n sw small inside.
                    write_bytes-IsWritten fuel f' buff at' n sw bytes small inside)
                  enough fits wrote)
      ]

  -- `f_write` returns whatever the volume holds and leaves it sound, its window and drive in
  -- agreement. It writes at most the bytes asked for, and never past 4 GiB; it moves the file pointer
  -- by the number of bytes written, and the size grows to the pointer where it was less. This holds
  -- after an error too, and when no cluster is free.
  pub f_write-IsWritten :
      (mounted : Option ℕ) (f : File) (buff : Bytes) (btw : ℕ) {v : Fatfs}
      → IsSound v
      → AreBytes buff
      → (f.fptr ≤ f.objsize) × (f.objsize < 2 ^ 32)
      → btw < 2 ^ 32
      → Ends
          (λ t w.
            IsSound w
            × (t.count ≤ btw)
            × (f.fptr + t.count < 2 ^ 32)
            × (t.file.fptr ≡ f.fptr + t.count)
            × (t.file.objsize ≡ (if ltb f.objsize t.file.fptr then t.file.fptr else f.objsize)))
          Never
          (f_write g mounted f buff btw v)
  unfolding f_write
  f_write-IsWritten mounted f buff btw {v} s bytes sizes small =
      elim (Bool-cases (not (validate mounted v.disk f.fs))) [
        | inl wrong ↦ rw wrong (returns (s, omega arith, omega arith, omega arith, ground arith))
        | inr valid ↦ elim (Option-cases f.err) [
          | inr (e, set) ↦
              rw (valid, set) (returns (s, omega arith, omega arith, omega arith, ground arith))
          | inl clear ↦ elim (Bool-cases (not (bit f.flag 1))) [
            | inl closed ↦
                rw (valid, clear, closed)
                  (returns (s, omega arith, omega arith, omega arith, ground arith))
            | inr writable ↦
                rw (valid, clear, writable)
                  (Ends.mono
                    (write_bytes-IsWritten (clip g f.fptr btw) f buff 0 (clip g f.fptr btw) s bytes
                      (omega arith) sizes.0)
                    (λ t w written. (
                      written.sound,
                      ground (arith, written.high),
                      ground (arith, written.high),
                      omega (arith, written.moved_by),
                      written.size,
                    ))
                    (λ w never. never))
          ]
        ]
      ]
