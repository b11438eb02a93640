-- ===== src/Boot.antt =====
-- Boot records of ff.c: what `check_fs` looks for in a boot sector, and the checks of `mount_volume`
-- on the parameters of a volume (the BIOS parameter block).
use Prim.Native.Nat.{bit_and}
use zephyr_fatfs_aflplusplus.Base.{
  ℕ, ◌+◌, ◌-◌, ◌*◌, ◌/◌, ◌%◌, Bool, true, not, Option, none, some, List, [], ◌∷◌, ltb, leb, ◌==◌,
  ◌||◌, ◌&&◌, if◌then◌else◌, u32, sub32,
}
use zephyr_fatfs_aflplusplus.Diskio.{Bytes, sector_size}
use zephyr_fatfs_aflplusplus.Volume.{Geometry, FsType, fat12, fat16, fat32}
use zephyr_fatfs_aflplusplus.Window.{ld_word, ld_dword}

-- `!memcmp(p + at, text, ...)`
abbrev pub matches : Bytes → ℕ → List ℕ → Bool
matches p at [] = true
matches p at (x ∷ xs) = p at == x && matches p (at + 1) xs

-- `(x & (x - 1)) == 0`
abbrev pub at_most_one_bit : ℕ → Bool
at_most_one_bit x = bit_and x (x - 1) == 0

abbrev pub fat32_name : List ℕ
fat32_name = 0x46 ∷ 0x41 ∷ 0x54 ∷ 0x33 ∷ 0x32 ∷ 0x20 ∷ 0x20 ∷ 0x20 ∷ []

-- "FAT volumes created in the early MS-DOS era lack BS_55AA and BS_FilSysType": a boot sector
-- whose parameters are proper is taken for a FAT volume.
unfoldable pub is_proper_bpb : Bytes → Bool
is_proper_bpb win =
    let w = ld_word win 11 in
    let b = win 13 in
    at_most_one_bit w
    && (leb 512 w
        && (leb w 512
            && (not (b == 0)
                && (at_most_one_bit b
                    && (not (ld_word win 14 == 0)
                        && (leb (sub32 (win 16) 1) 1
                            && (not (ld_word win 17 == 0)
                                && ((leb 128 (ld_word win 19) || leb 0x10000 (ld_dword win 32))
                                    && not (ld_word win 22 == 0)))))))))

-- The answer of `check_fs` on the sector in the window: 0 for the boot record of a FAT volume, 2 for
-- another boot sector, 3 for none.
unfoldable pub boot_kind : Bytes → ℕ
boot_kind win =
    let sign = ld_word win 510 in
    let b = win 0 in
    let other : ℕ = if sign == 0xAA55 then 2 else 3 in
    if b == 0xEB || (b == 0xE9 || b == 0xE8)
    then if sign == 0xAA55 && matches win 82 fat32_name
      then 0
      else if is_proper_bpb win
      then 0
      else other
    else other

-- The FAT type is determined by the number of clusters alone.
unfoldable pub fat_type : ℕ → Option FsType
fat_type nclst =
    if leb nclst 0xFF5
    then some fat12
    else if leb nclst 0xFFF5
    then some fat16
    else if leb nclst 0x0FFFFFF5
    then some fat32
    else none

-- `ld_word` of a 16-bit field, or `ld_dword` of the 32-bit one if that is 0.
unfoldable pub wide_field : Bytes → ℕ → ℕ → ℕ
wide_field win short long = if ld_word win short == 0 then ld_dword win long else ld_word win short

-- The fields of the boot record that decide the geometry.
pub record Bpb : Type 0 where
  pub sector_bytes : ℕ
  pub fat_size : ℕ
  pub n_fats : ℕ
  pub csize : ℕ
  pub n_rootdir : ℕ
  pub tsect : ℕ
  pub nrsv : ℕ
  pub version : ℕ
  pub root_cluster : ℕ

unfoldable pub load_bpb : Bytes → Bpb
unfolding wide_field
load_bpb win = record {
  sector_bytes = ld_word win 11;
  fat_size = wide_field win 22 36;
  n_fats = win 16;
  csize = win 13;
  n_rootdir = ld_word win 17;
  tsect = wide_field win 19 32;
  nrsv = ld_word win 14;
  version = ld_word win 42;
  root_cluster = ld_dword win 44;
}

-- `fasize`: the sectors of all FATs, in 32 bits.
abbrev pub fat_area : Bpb → ℕ
fat_area b = u32 (b.fat_size * b.n_fats)

-- `sysect`: the sectors before the data.
abbrev pub system_area : Bpb → ℕ
system_area b = u32 (b.nrsv + fat_area b + b.n_rootdir / (sector_size / 32))

abbrev pub clusters : Bpb → ℕ
clusters b = (b.tsect - system_area b) / b.csize

-- `szbfat`, the size in bytes that the FAT must have.
unfoldable pub fat_bytes : FsType → ℕ → ℕ
fat_bytes fat12 n_fatent = n_fatent * 3 / 2 + n_fatent % 2
fat_bytes fat16 n_fatent = n_fatent * 2
fat_bytes fat32 n_fatent = u32 (n_fatent * 4)

-- "Boundaries and Limits": the geometry of a volume of type `t` at sector `bsect`.
unfoldable pub layout : Bpb → ℕ → FsType → Geometry
layout b bsect t = record {
  fs_type = t;
  n_fats = b.n_fats;
  n_rootdir = b.n_rootdir;
  csize = b.csize;
  n_fatent = clusters b + 2;
  fsize = b.fat_size;
  volbase = bsect;
  fatbase = u32 (bsect + b.nrsv);
  dirbase = elim t [ fat32 ↦ b.root_cluster | _ ↦ u32 (u32 (bsect + b.nrsv) + fat_area b) ];
  database = u32 (bsect + system_area b);
}

-- The conditions on a volume of type `t`.
unfoldable pub fits_type : Bpb → FsType → Bool
fits_type b t =
    let big_enough =
      not (ltb b.fat_size ((fat_bytes t (clusters b + 2) + (sector_size - 1)) / sector_size)) in
    elim t [
      | fat32 ↦ (b.version == 0 && b.n_rootdir == 0) && big_enough
      | _ ↦ not (b.n_rootdir == 0) && big_enough
    ]

-- The geometry that a boot record at sector `bsect` describes; `none` for `FR_NO_FILESYSTEM`.
unfoldable pub read_bpb : Bpb → ℕ → Option Geometry
read_bpb b bsect =
    if not (b.sector_bytes == sector_size)
    then none
    else if not (b.n_fats == 1) && not (b.n_fats == 2)
    then none
    else if b.csize == 0 || not (at_most_one_bit b.csize)
    then none
    else if not (b.n_rootdir % (sector_size / 32) == 0)
    then none
    else if b.nrsv == 0
    then none
    else if ltb b.tsect (system_area b)
    then none
    else if clusters b == 0
    then none
    else elim (fat_type (clusters b)) [
      | none ↦ none
      | some t ↦ if fits_type b t then some (layout b bsect t) else none
    ]
