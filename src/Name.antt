-- ===== src/Name.antt =====
-- Names and paths of ff.c: `create_name`, `get_fileinfo` and `follow_path`, without long names. A path
-- is the list of its bytes up to the terminating 0. Whether `char` is signed is a parameter: the
-- language leaves it to the compiler, and `create_name` depends on it.
pub mod Form
pub mod Walk
pub mod Letters
pub mod Spelled
use zephyr_fatfs_aflplusplus.Base.{
  ℕ, zero, suc, ◌+◌, ◌-◌, ◌*◌, ◌/◌, ◌%◌, ◌^◌, Bool, true, false, not, List, [], ◌∷◌, ltb, leb, ◌==◌,
  ◌||◌, ◌&&◌, if◌then◌else◌, low_bits, bit,
}
use zephyr_fatfs_aflplusplus.Diskio.{Bytes, sector_size}
use zephyr_fatfs_aflplusplus.Volume.{
  Geometry, Fatfs, Fresult, invalid_name, no_file, no_path, Act, Out, done, out_of_fuel, ◌>>=◌,
  return, put_byte,
}
use zephyr_fatfs_aflplusplus.Window.{ld_word, ld_dword}
use zephyr_fatfs_aflplusplus.Dir.{Dir, Step, ok, halt, dir_sdi, ld_clust}
use zephyr_fatfs_aflplusplus.Dir.Table.{dir_find}

abbrev pub is_separator : ℕ → Bool
is_separator c = (c == 0x2F) || (c == 0x5C)

abbrev pub is_lower : ℕ → Bool
is_lower c = leb 0x61 c && leb c 0x7A

-- `strchr("*+,:;<=>[]|\"\?\x7F", c)`
abbrev pub is_illegal : ℕ → Bool
is_illegal c =
    (c == 0x2A)
    || ((c == 0x2B)
        || ((c == 0x2C)
            || ((c == 0x3A)
                || ((c == 0x3B)
                    || ((c == 0x3C)
                        || ((c == 0x3D)
                            || ((c == 0x3E)
                                || ((c == 0x5B)
                                    || ((c == 0x5D)
                                        || ((c == 0x7C)
                                            || ((c == 0x22)
                                                || ((c == 0x3F) || (c == 0x7F)))))))))))))

-- `TBL_CT437`
abbrev pub upper_437 : List ℕ
upper_437 =
    0x80 ∷ 0x9A ∷ 0x45 ∷ 0x41 ∷ 0x8E ∷ 0x41 ∷ 0x8F ∷ 0x80 ∷ 0x45 ∷ 0x45 ∷ 0x45 ∷ 0x49 ∷ 0x49 ∷ 0x49
    ∷ 0x8E ∷ 0x8F ∷ 0x90 ∷ 0x92 ∷ 0x92 ∷ 0x4F ∷ 0x99 ∷ 0x4F ∷ 0x55 ∷ 0x55 ∷ 0x59 ∷ 0x99 ∷ 0x9A
    ∷ 0x9B ∷ 0x9C ∷ 0x9D ∷ 0x9E ∷ 0x9F ∷ 0x41 ∷ 0x49 ∷ 0x4F ∷ 0x55 ∷ 0xA5 ∷ 0xA5 ∷ 0xA6 ∷ 0xA7
    ∷ 0xA8 ∷ 0xA9 ∷ 0xAA ∷ 0xAB ∷ 0xAC ∷ 0xAD ∷ 0xAE ∷ 0xAF ∷ 0xB0 ∷ 0xB1 ∷ 0xB2 ∷ 0xB3 ∷ 0xB4
    ∷ 0xB5 ∷ 0xB6 ∷ 0xB7 ∷ 0xB8 ∷ 0xB9 ∷ 0xBA ∷ 0xBB ∷ 0xBC ∷ 0xBD ∷ 0xBE ∷ 0xBF ∷ 0xC0 ∷ 0xC1
    ∷ 0xC2 ∷ 0xC3 ∷ 0xC4 ∷ 0xC5 ∷ 0xC6 ∷ 0xC7 ∷ 0xC8 ∷ 0xC9 ∷ 0xCA ∷ 0xCB ∷ 0xCC ∷ 0xCD ∷ 0xCE
    ∷ 0xCF ∷ 0xD0 ∷ 0xD1 ∷ 0xD2 ∷ 0xD3 ∷ 0xD4 ∷ 0xD5 ∷ 0xD6 ∷ 0xD7 ∷ 0xD8 ∷ 0xD9 ∷ 0xDA ∷ 0xDB
    ∷ 0xDC ∷ 0xDD ∷ 0xDE ∷ 0xDF ∷ 0xE0 ∷ 0xE1 ∷ 0xE2 ∷ 0xE3 ∷ 0xE4 ∷ 0xE5 ∷ 0xE6 ∷ 0xE7 ∷ 0xE8
    ∷ 0xE9 ∷ 0xEA ∷ 0xEB ∷ 0xEC ∷ 0xED ∷ 0xEE ∷ 0xEF ∷ 0xF0 ∷ 0xF1 ∷ 0xF2 ∷ 0xF3 ∷ 0xF4 ∷ 0xF5
    ∷ 0xF6 ∷ 0xF7 ∷ 0xF8 ∷ 0xF9 ∷ 0xFA ∷ 0xFB ∷ 0xFC ∷ 0xFD ∷ 0xFE ∷ 0xFF ∷ []

unfoldable pub nth : List ℕ → ℕ → ℕ
nth [] n = 0
nth (x ∷ xs) zero = x
nth (x ∷ xs) (suc n) = nth xs n

-- `if (c >= 0x80) c = ExCvt[c & 0x7F];`
unfoldable pub ex_cvt : ℕ → ℕ
ex_cvt c = if leb 0x80 c then nth upper_437 (low_bits c 7) else c

abbrev pub to_upper : ℕ → ℕ
to_upper c = if is_lower c then c - 0x20 else c

-- `while (IsSeparator(*p)) p++;`
unfoldable pub strip : List ℕ → List ℕ
strip [] = []
strip (c ∷ cs) = let rest = strip cs in if is_separator c then rest else c ∷ cs

-- Where the loop over a segment ends: at a byte with the number of bytes set and the rest of the
-- path, or at FR_INVALID_NAME.
pub data Scan : Type 0 where
  ended : ℕ → Bytes → ℕ → List ℕ → Scan
  bad : Scan

unfoldable pub scan : List ℕ → Bytes → ℕ → ℕ → Scan
scan [] sfn i ni = ended 0 sfn i []
scan (c ∷ cs) sfn i ni =
    let dot = (c == 0x2E) || leb ni i in
    let x = ex_cvt c in
    let rest =
      scan cs (if dot then sfn else put_byte sfn i (to_upper x)) (if dot then 8 else i + 1)
        (if dot then 11 else ni) in
    if leb c 0x20
    then ended c sfn i cs
    else if is_separator c
    then ended c sfn i (strip cs)
    else if dot
    then if (ni == 11) || not (c == 0x2E) then bad else rest
    else if is_illegal x
    then bad
    else rest

-- The name in `fn`, with its flags in byte 11, and the rest of the path.
pub data Name : Type 0 where
  named : Bytes → List ℕ → Name
  invalid : Name

-- The first byte of the rest of the path, as `p[si]` gives it.
abbrev pub next_char : List ℕ → ℕ
next_char [] = 0
next_char (c ∷ cs) = c

abbrev pub ns_last : ℕ
ns_last = 4

abbrev pub ns_noname : ℕ
ns_noname = 0x80

-- A name that begins with the mark of a deleted entry gets 5 instead.
abbrev pub guard_first : Bytes → Bytes
guard_first sfn = if sfn 0 == 0xE5 then put_byte sfn 0 5 else sfn

module _ (signed_char : Bool) where
  -- `p[si] <= ' '`, in which `p[si]` is a `char`.
  abbrev pub is_end : ℕ → Bool
  is_end c = leb c 0x20 || (signed_char && leb 0x80 c)

  unfoldable pub finish : Scan → Name
  unfolding put_byte
  finish bad = invalid
  finish (ended c sfn i rest) =
      if i == 0
      then invalid
      else named
          (put_byte (guard_first sfn) 11
            (if leb c 0x20 || is_end (next_char rest) then ns_last else 0))
          rest

  unfoldable pub create_name : List ℕ → Name
  unfolding finish scan
  create_name path = finish (scan path (λ i. 0x20) 0 8)

-- The loop of `get_fileinfo`: `k` bytes of the name from the entry's byte `si`.
unfoldable pub name_chars : ℕ → Bytes → ℕ → ℕ → List ℕ
name_chars zero win dir si = []
name_chars (suc k) win dir si =
    let rest = name_chars k win dir (si + 1) in
    let b = win (dir + si) in
    let c = if b == 5 then 0xE5 else b in
    if b == 0x20 then rest else if si == 8 then 0x2E ∷ c ∷ rest else c ∷ rest

pub record Filinfo : Type 0 where
  pub fname : List ℕ
  pub fattrib : ℕ
  pub fsize : ℕ
  pub ftime : ℕ
  pub fdate : ℕ

-- `none` where the read pointer has reached the end of the directory and only the name is set.
unfoldable pub get_fileinfo : Dir → Fatfs → Filinfo → Filinfo
unfolding name_chars
get_fileinfo dp v fno = if dp.sect == 0 then record fno { fname = [] } else record {
  fname = name_chars 11 v.win dp.dir 0;
  fattrib = low_bits (v.win (dp.dir + 11)) 6;
  fsize = ld_dword v.win (dp.dir + 28);
  ftime = ld_word v.win (dp.dir + 22);
  fdate = ld_word v.win (dp.dir + 24);
}

abbrev pub size : List ℕ → ℕ
size [] = 0
size (x ∷ xs) = suc (size xs)

-- The walk down the path goes on in the directory whose entry is in the window.
abbrev pub descend : Geometry → Dir → Fatfs → Dir
descend g dp v = record dp { sclust = ld_clust g.fs_type v.win (dp.dptr % sector_size) }

module _ (signed_char : Bool) (g : Geometry) where
  -- What `follow_path` does with the answer of `dir_find` and the rest of the path, which it goes on
  -- with as `k` says.
  unfoldable pub after_find : Step → (Dir → Act Step) → Act Step
  unfolding ld_clust
  after_find (halt e dp) k = return (
      halt
        (elim e as (λ e. Fresult) [
          | no_file ↦ if bit (dp.fn 11) 2 then no_file else no_path
          | other ↦ other
        ])
        dp)
  after_find (ok dp) k =
      if bit (dp.fn 11) 2
      then return (ok dp)
      else if not (bit dp.attr 4)
      then return (halt no_path dp)
      else λ v. k (descend g dp v) v

  -- The loop over the segments of the path.
  unfoldable pub walk : ℕ → Dir → List ℕ → Act Step
  unfolding after_find
  walk zero dp path = λ _. out_of_fuel
  walk (suc fuel) dp path = elim (create_name signed_char path) [
    | invalid ↦ return (halt invalid_name dp)
    | named fn rest ↦
        dir_find g (record dp { fn = fn }) >>= λ r. after_find r (λ dp'. walk fuel dp' rest)
  ]

  -- `(UINT)*path < ' '`
  abbrev pub is_null : List ℕ → Bool
  is_null path = ltb (next_char path) 0x20

  unfoldable pub follow_path : Dir → List ℕ → Act Step
  unfolding walk
  follow_path dp path =
      let p = strip path in
      let top = record dp { sclust = 0 } in
      if is_null p
      then dir_sdi g (record top { fn = put_byte dp.fn 11 ns_noname }) 0
      else walk (suc (size p)) top p
