-- ===== src/Api.antt =====
-- The public functions of ff.c that take a path, over the registered file system object:
-- `get_ldnumber`, `f_mount`, and how every other one begins with `mount_volume`. Their bodies are in
-- the modules below.
pub mod Lookup
pub mod Opening
pub mod Removal
pub mod Creation
pub mod Rename
pub mod Space
pub mod Calls
use zephyr_fatfs_aflplusplus.Base.{
  ℕ, zero, suc, ◌+◌, ◌-◌, Bool, true, false, not, Option, none, some, List, [], ◌∷◌, ltb, leb, ◌==◌,
  ◌||◌, ◌&&◌, if◌then◌else◌,
}
use zephyr_fatfs_aflplusplus.Diskio.{Bytes}
use zephyr_fatfs_aflplusplus.Volume.{
  Geometry, Fatfs, Fresult, int_err, invalid_drive, not_enabled, Act, Out, done, fail, out_of_fuel,
  return, throw,
}
use zephyr_fatfs_aflplusplus.Mount.{Mount, Mounted, mounted, refused, mount_volume}
use zephyr_fatfs_aflplusplus.Dir.{Dir, Step, ok, halt}
use zephyr_fatfs_aflplusplus.Name.{to_upper, next_char}

-- A local `DIR` that holds `fs`, before anything else is assigned.
abbrev pub blank_dir : Dir
blank_dir = record { sclust = 0; attr = 0; dptr = 0; clust = 0; sect = 0; dir = 0; fn = λ i. 0 }

-- `res = f(dp); if (res != FR_OK) return res;`
abbrev pub expect : {A : Type 0} → Step → (Dir → Act A) → Act A
expect (ok dp) k = k dp
expect (halt e dp) k = throw e

-- `IsTerminator`, of a byte
abbrev pub is_terminator : ℕ → Bool
is_terminator c = ltb c 0x21

abbrev pub is_digit : ℕ → Bool
is_digit c = leb 0x30 c && leb c 0x39

-- The number of bytes before the colon that `get_ldnumber` looks for.
unfoldable pub find_colon : List ℕ → Option ℕ
find_colon [] = none
find_colon (c ∷ cs) =
    let rest : Option ℕ = elim (find_colon cs) [ none ↦ none | some n ↦ some (suc n) ] in
    if c == 0x3A then some 0 else if is_terminator c then none else rest

unfoldable pub drop : ℕ → List ℕ → List ℕ
drop zero cs = cs
drop (suc n) [] = []
drop (suc n) (c ∷ cs) = drop n cs

-- Whether the path begins with the id and the colon comes next, `n` bytes from its start.
unfoldable pub names_volume : List ℕ → List ℕ → ℕ → Bool
names_volume [] path n = n == 0
names_volume (v ∷ vs) [] n = false
names_volume (v ∷ vs) (c ∷ cs) n =
    (to_upper v == to_upper c) && names_volume vs cs (n - 1) && ltb 0 n

-- `VolumeStr[0]`, "RAM"
abbrev pub volume_id : List ℕ
volume_id = 0x52 ∷ 0x41 ∷ 0x4D ∷ []

-- The path behind the drive prefix, or `none` for -1. There is one volume, so a valid number is 0.
unfoldable pub get_ldnumber : List ℕ → Option (List ℕ)
unfolding find_colon drop names_volume
get_ldnumber path = elim (find_colon path) [
  | none ↦ some path
  | some n ↦
      let valid =
        if is_digit (next_char path) && (n == 1)
        then next_char path == 0x30
        else names_volume volume_id path n in
      if valid then some (drop (suc n) path) else none
]

-- `FatFs[0]`, `Fsid` and, where no object is registered, the drive.
pub record System : Type 0 where
  pub fat_fs : Option Mount
  pub fsid : ℕ
  pub drive : Bytes

-- How a call ends: with what it returns by its pointers, with an error code, or with the fuel of a
-- loop used up.
pub data Reply (A : Type 0) : Type 0 where
  success : A → System → Reply A
  error : Fresult → System → Reply A
  endless : Reply A

abbrev pub system : Mount → ℕ → System
system m fsid = record { fat_fs = some m; fsid = fsid; drive = m.fs.disk }

module _ {A : Type 0} where
  unfoldable pub conclude : Mount → ℕ → Out A → Reply A
  conclude m fsid (done a v) = success a (system (record m { fs = v }) fsid)
  conclude m fsid (fail e v) = error e (system (record m { fs = v }) fsid)
  conclude m fsid out_of_fuel = endless

  unfoldable pub on_mounted : Mounted → List ℕ → (Geometry → ℕ → List ℕ → Act A) → Reply A
  unfolding conclude
  on_mounted (refused e m fsid) path body = error e (system m fsid)
  on_mounted (mounted m fsid) path body = elim m.geometry [
    | none ↦ error int_err (system m fsid)
    | some g ↦ conclude m fsid (body g m.id path m.fs)
  ]

  -- The body of a call takes the geometry, the mount id and the rest of the path.
  -- `res = mount_volume(&path, &fs, mode); if (res == FR_OK) { ... }`
  unfoldable pub with_volume : Bool → List ℕ → (Geometry → ℕ → List ℕ → Act A) → System → Reply A
  unfolding on_mounted
  with_volume write path body s = elim (get_ldnumber path) [
    | none ↦ error invalid_drive s
    | some rest ↦ elim s.fat_fs [
      | none ↦ error not_enabled s
      | some m ↦ on_mounted (mount_volume write m s.fsid) rest body
    ]
  ]

-- The drive, whether an object is registered or not.
abbrev pub drive_of : System → Bytes
drive_of s = elim s.fat_fs [ none ↦ s.drive | some m ↦ m.fs.disk ]

-- The object that the caller gives, registered: it is not mounted, and sees the drive.
abbrev pub registered : Mount → Bytes → Mount
registered m disk = record m {
  geometry = none;
  stale = elim m.geometry [ none ↦ m.stale | some g ↦ g ];
  fs = record m.fs { disk = disk };
}

-- `f_mount`; `fs` is `none` to unmount, and `opt` says whether to mount at once. The object that was
-- registered is the caller's again.
unfoldable pub f_mount : Option Mount → List ℕ → Bool → System → Reply (Unit {0})
unfolding with_volume
f_mount fs path opt s = elim (get_ldnumber path) [
  | none ↦ error invalid_drive s
  | some rest ↦
      let s' : System = record {
        fat_fs = elim fs [ none ↦ none | some m ↦ some (registered m (drive_of s)) ];
        fsid = s.fsid;
        drive = drive_of s;
      } in
      if opt then with_volume false path (λ g id p. return tt) s' else success tt s'
]
