-- ===== src/Volume.antt =====
-- The mounted volume of filesystem_code/ff.h and the form of the functions of ff.c over it. A
-- `FATFS` is split in two: what mounting fixes (`Geometry`, a parameter of the functions) and what
-- they change (`Fatfs`, which also holds the drive). The configuration is the harness's
-- (ffconf_fuzz_override.h): sectors of 512 bytes, the tiny buffer, no long names, no exFAT.
pub mod Ends
use zephyr_fatfs_aflplusplus.Base.{
  ℕ, ◌+◌, ◌*◌, ◌/◌, ◌%◌, ◌≡◌, refl, Bool, Option, none, some, ◌==◌, if◌then◌else◌,
}
use zephyr_fatfs_aflplusplus.Diskio.{Bytes}

-- `FRESULT` without `FR_OK`: a function that succeeds returns its value instead.
pub data Fresult : Type 0 where
  disk_err int_err not_ready no_file no_path invalid_name denied exist : Fresult
  invalid_object write_protected invalid_drive not_enabled no_filesystem : Fresult
  locked too_many_open_files : Fresult

-- `fs_type`, for a mounted volume.
pub data FsType : Type 0 where
  fat12 fat16 fat32 : FsType

pub record Geometry : Type 0 where
  pub fs_type : FsType
  pub n_fats : ℕ
  pub n_rootdir : ℕ
  pub csize : ℕ
  pub n_fatent : ℕ
  pub fsize : ℕ
  pub volbase : ℕ
  pub fatbase : ℕ
  pub dirbase : ℕ
  pub database : ℕ

pub record Fatfs : Type 0 where
  pub wflag : Bool
  pub fsi_flag : ℕ
  pub last_clst : ℕ
  pub free_clst : ℕ
  pub winsect : ℕ
  pub win : Bytes
  pub disk : Bytes

-- How a call ends: with a value, with an error, or with the fuel of a loop used up. The volume is
-- in the state that it has then, after an error too.
pub data Out (A : Type 0) : Type 0 where
  done : A → Fatfs → Out A
  fail : Fresult → Fatfs → Out A
  out_of_fuel : Out A

abbrev pub Act : Type 0 → Type 0
Act A = Fatfs → Out A

module _ {A B : Type 0} where
  abbrev pub and_then : Out A → (A → Act B) → Out B
  and_then (done a v) k = k a v
  and_then (fail e v) k = fail e v
  and_then out_of_fuel k = out_of_fuel

  infixl 5 ◌>>=◌ ◌>>◌
  abbrev pub ◌>>=◌ : Act A → (A → Act B) → Act B
  m >>= k = λ v. and_then (m v) k

  abbrev pub ◌>>◌ : Act A → Act B → Act B
  m >> k = m >>= λ _. k

  -- A caller that looks at the error code: `if (f(...) != FR_OK)`.
  abbrev pub on_fail : Out A → (A → Act B) → (Fresult → Act B) → Out B
  on_fail (done a v) k h = k a v
  on_fail (fail e v) k h = h e v
  on_fail out_of_fuel k h = out_of_fuel

module _ {A : Type 0} where
  abbrev pub return : A → Act A
  return = done

  abbrev pub throw : Fresult → Act A
  throw = fail

-- `fs->win[i]` and the statement `fs->win[i] = b; fs->wflag = 1`.
abbrev pub win_byte : ℕ → Act ℕ
win_byte i v = done (v.win i) v

unfoldable pub put_byte : Bytes → ℕ → ℕ → Bytes
put_byte p i b j = if j == i then b else p j

-- The byte at address `a` of the volume: from the window if it holds the sector, or from the drive.
abbrev pub view : Fatfs → ℕ → ℕ
view v a = if a / 512 == v.winsect then v.win (a % 512) else v.disk a
