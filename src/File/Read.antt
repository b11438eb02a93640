-- ===== src/File/Read.antt =====
-- `f_read` of ff.c: the loop over the rounds.
use Prim.Native.Nat.{min}
use zephyr_fatfs_aflplusplus.Base.{
  ◌∙◌, ℕ, zero, suc, ◌+◌, ◌-◌, ◌^◌, ◌≤◌, ◌<◌, ◌≡◌, ◌⊎◌, inl, inr, refl, not, arith, Option, none,
  some, ltb, ◌==◌, if◌then◌else◌, Bool-cases, Option-cases, sub32, bit, ap,
}
use zephyr_fatfs_aflplusplus.Diskio.{Bytes, memcpy}
use zephyr_fatfs_aflplusplus.Volume.{Geometry, Fatfs, Fresult, denied, invalid_object, Act, return}
use zephyr_fatfs_aflplusplus.Volume.Ends
use zephyr_fatfs_aflplusplus.Volume.Ends.{Ends, returns}
use zephyr_fatfs_aflplusplus.Window.Laws.{IsSound, IsKept, IsKept-refl, IsKept-trans}
use zephyr_fatfs_aflplusplus.Fat.Entry.{HasFat}
use zephyr_fatfs_aflplusplus.Fat.Get.{Never}
use zephyr_fatfs_aflplusplus.Dir.Start.{HasClusters}
use zephyr_fatfs_aflplusplus.File.{
  File, Round, moved, stopped, aborted, Transfer, abort, validate, read_bytes, f_read,
}
use zephyr_fatfs_aflplusplus.File.Fetch.{Rounded, read_round-Rounded}

module _ (g : Geometry) (has : HasFat g) (sized : HasClusters g) where
  -- What the loop leaves, `at` bytes on: the file pointer has moved by the bytes read, which are all
  -- of them where there is no error; an error is kept in the file.
  abbrev pub Counted : Fatfs → File → ℕ → ℕ → Transfer → Fatfs → Type 0
  Counted v f at btr t w =
      IsKept g v w
      × (at ≤ t.count)
      × (t.count ≤ at + btr)
      × (t.file.flag ≡ f.flag)
      × (t.file.fptr + at ≡ f.fptr + t.count)
      × (((t.res ≡ none) × (t.count ≡ at + btr))
          ⊎ ((e : Fresult) × (t.res ≡ some e) × (t.file.err ≡ some e)))

  after_round :
      (fuel : ℕ) (f : File) (buff : Bytes) (at btr : ℕ) (r : Round) (w : Fatfs) {u v : Fatfs}
      → IsKept g v u
      → ((f' : File) (b : Bytes) (at' n : ℕ)
          → IsKept g v w
          → n ≤ fuel
          → Ends (Counted v f' at' n) Never (read_bytes g fuel f' b at' n w))
      → btr ≤ suc fuel
      → Rounded g u f btr r w
      → Ends (Counted v f at btr) Never (
          (elim r as (λ r. Act Transfer) [
            | moved f' chunk rcnt ↦
                read_bytes g fuel
                  (record f' { fptr = f'.fptr + rcnt })
                  (memcpy buff at chunk rcnt)
                  (at + rcnt)
                  (btr - rcnt)
            | stopped f' ↦ return (record { res = none; file = f'; buff = buff; count = at })
            | aborted e f' ↦
                return (record { res = some e; file = abort e f'; buff = buff; count = at })
          ])
            w)
  after_round fuel f buff at btr (moved f' chunk n) w kept rest enough
        (k, some_bytes, fits, same, size, flag) =
      Ends.mono
        (rest (record f' { fptr = f'.fptr + n }) (memcpy buff at chunk n) (at + n) (btr - n)
          (IsKept-trans g kept k) (omega arith))
        (λ t u (k', low, high, flag', moved_by, how). (
          k',
          omega arith,
          omega arith,
          flag' ∙ flag,
          omega arith,
          elim how [
            | inl (fine, all) ↦ inl (fine, omega arith)
            | inr (e, is, set) ↦ inr (e, is, set)
          ],
        ))
        (λ u never. never)
  after_round fuel f buff at btr (stopped f') w kept rest enough never = absurd never
  after_round fuel f buff at btr (aborted e f') w kept rest enough (k, same, flag) =
      returns
        (IsKept-trans g kept k, omega arith, omega arith, flag, omega arith, inr (e, refl, refl))

  read_bytes-Counted :
      (fuel : ℕ) (f : File) (buff : Bytes) (at btr : ℕ) {v w : Fatfs}
      → IsKept g v w
      → btr ≤ fuel
      → Ends (Counted v f at btr) Never (read_bytes g fuel f buff at btr w)
  unfolding read_bytes
  read_bytes-Counted zero f buff at btr kept enough = elim (Bool-cases (btr == 0)) [
    | inl end ↦
        rw end (returns (kept, omega arith, omega arith, refl, refl, inl (refl, ground arith)))
    | inr more ↦ absurd (ground arith)
  ]
  read_bytes-Counted (suc fuel) f buff at btr kept enough = elim (Bool-cases (btr == 0)) [
    | inl end ↦
        rw end (returns (kept, omega arith, omega arith, refl, refl, inl (refl, ground arith)))
    | inr more ↦ rw more (
        Ends.bind (read_round-Rounded g has sized f btr kept.sound (ground arith))
          (λ u never. never)
          λ r u rounded.
            after_round fuel f buff at btr r u kept
              (λ f' b at' n k small. read_bytes-Counted fuel f' b at' n k small) enough rounded)
  ]

  -- `f_read` returns whatever the volume holds, and no byte of it outside a second FAT changes. It
  -- reads at most the bytes asked for and those before the end of the file, and moves the file
  -- pointer by their number; the access flags stay. Without an error it reads as many as that, or
  -- the file object is refused and nothing is read; an error on the way is kept in the file.
  pub f_read-Counted :
      (mounted : Option ℕ) (f : File) (buff : Bytes) (btr : ℕ) {v : Fatfs}
      → IsSound v
      → (f.fptr ≤ f.objsize) × (f.objsize < 2 ^ 32)
      → Ends
          (λ t w.
            IsKept g v w
            × (t.count ≤ min btr (f.objsize - f.fptr))
            × (t.file.flag ≡ f.flag)
            × (t.file.fptr ≡ f.fptr + t.count)
            × (((t.res ≡ none) × (t.count ≡ min btr (f.objsize - f.fptr)))
                ⊎ ((e : Fresult) × (t.res ≡ some e)
                    × ((t.file.err ≡ some e) ⊎ ((t.file ≡ f) × (t.count ≡ 0))))))
          Never
          (f_read g mounted f buff btr v)
  unfolding f_read
  f_read-Counted mounted f buff btr {v} s sizes =
      elim (Bool-cases (not (validate mounted v.disk f.fs))) [
        | inl wrong ↦ rw wrong (
            returns (
              IsKept-refl g s,
              omega arith,
              refl,
              omega arith,
              inr (invalid_object, refl, inr (refl, refl)),
            ))
        | inr valid ↦ elim (Option-cases f.err) [
          | inr (e, set) ↦
              rw (valid, set)
                (returns (IsKept-refl g s, omega arith, refl, omega arith, inr (e, refl, inl set)))
          | inl clear ↦ elim (Bool-cases (not (bit f.flag 0))) [
            | inl closed ↦
                rw (valid, clear, closed)
                  (returns (
                    IsKept-refl g s,
                    omega arith,
                    refl,
                    omega arith,
                    inr (denied, refl, inr (ap (λ x. record f { err = x }) clear, refl)),
                  ))
            | inr readable ↦
                rw (valid, clear, readable)
                  (Ends.mono
                    (read_bytes-Counted
                      (if ltb (sub32 f.objsize f.fptr) btr then sub32 f.objsize f.fptr else btr) f
                      buff 0
                      (if ltb (sub32 f.objsize f.fptr) btr then sub32 f.objsize f.fptr else btr)
                      (IsKept-refl g s) (omega arith))
                    (λ t w (k, low, high, flag, moved_by, how). (
                      k,
                      ground arith,
                      flag,
                      omega arith,
                      elim how [
                        | inl (fine, all) ↦ inl (fine, ground arith)
                        | inr (e, is, set) ↦ inr (e, is, inl set)
                      ],
                    ))
                    (λ w never. never))
          ]
        ]
      ]
