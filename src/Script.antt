-- ===== src/Script.antt =====
-- How the harnesses call ff.c: pieces of C code in a row, and tests of the codes that calls return.
pub mod Runs
use zephyr_fatfs_aflplusplus.Base.{ℕ, Option, none, some}
use zephyr_fatfs_aflplusplus.Diskio.{Bytes}
use zephyr_fatfs_aflplusplus.Volume.{Geometry, Act}
use zephyr_fatfs_aflplusplus.Api.{System, Reply, success, error, endless, conclude}

-- A piece of a harness: it goes on in a state, or a loop of the model has used up its fuel.
pub data Run (A : Type 0) : Type 0 where
  goes : A → System → Run A
  stuck : Run A

abbrev pub Script : Type 0 → Type 0
Script A = System → Run A

module _ {A B : Type 0} where
  infixl 5 ◌>>=◌
  unfoldable pub run_on : Run A → (A → Script B) → Run B
  run_on (goes a s) k = k a s
  run_on stuck k = stuck

  abbrev pub ◌>>=◌ : Script A → (A → Script B) → Script B
  (m >>= k) s = run_on (m s) k

  unfoldable pub branch : Reply A → (A → Script B) → Script B → Run B
  branch (success a s) k h = k a s
  branch (error e s) k h = h s
  branch endless k h = stuck

  -- `if (f(...) == FR_OK) { ... }`, and what the locals are otherwise.
  abbrev pub attempt : (System → Reply A) → (A → Script B) → Script B → Script B
  attempt f k h s = branch (f s) k h

module _ {A : Type 0} where
  abbrev pub return : A → Script A
  return a s = goes a s

  -- A function that takes an object: it is refused, with the result `a`, where no volume is mounted.
  unfoldable pub on_volume : A → (Geometry → Option ℕ → Act A) → System → Reply A
  unfolding conclude
  on_volume a act s = elim s.fat_fs [
    | none ↦ success a s
    | some m ↦ elim m.geometry [
      | none ↦ success a s
      | some g ↦ conclude m s.fsid (act g (some m.id) m.fs)
    ]
  ]

  abbrev pub call : A → (Geometry → Option ℕ → Act A) → Script A
  call a act = attempt (on_volume a act) return (return a)

-- The drive with other bytes.
abbrev pub load_drive : Bytes → System → System
load_drive disk s = elim s.fat_fs [
  | none ↦ record s { drive = disk }
  | some m ↦ record s { fat_fs = some (record m { fs = record m.fs { disk = disk } }) }
]
