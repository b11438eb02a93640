-- ===== src/Mount/Layout.antt =====
-- The geometry that `mount_volume` of ff.c takes from a boot record.
use zephyr_fatfs_aflplusplus.Base.{
  ℕ, ◌+◌, ◌-◌, ◌*◌, ◌/◌, ◌^◌, ◌≤◌, ◌<◌, ◌≡◌, ◌⊎◌, inl, inr, ◌≢◌, true, some, arith, Option-cases,
  subst, sym,
}
use zephyr_fatfs_aflplusplus.Diskio.{disk_sectors}
use zephyr_fatfs_aflplusplus.Volume.{Geometry, FsType, fat12, fat16, fat32}
use zephyr_fatfs_aflplusplus.Fat.Entry.{HasFat, offset, width, max_fatent}
use zephyr_fatfs_aflplusplus.Boot.{
  Bpb, read_bpb, layout, fits_type, fat_type, fat_bytes, system_area, clusters, at_most_one_bit,
}

-- The sum that `mount_volume` forms in 32 bits does not wrap around.
abbrev pub IsSmall : Bpb → Type 0
IsSmall b = b.nrsv + b.fat_size * b.n_fats + b.n_rootdir / 16 < 2 ^ 32

-- What an accepted boot record has passed.
pub record IsAccepted (b : Bpb) (bsect : ℕ) (t : FsType) (g : Geometry) : Type 0 where
  pub is_layout : g ≡ layout b bsect t
  pub fats : (b.n_fats ≡ 1) ⊎ (b.n_fats ≡ 2)
  pub csize_pos : 0 < b.csize
  pub one_bit : at_most_one_bit b.csize ≡ true
  pub reserved : 0 < b.nrsv
  pub sectors : system_area b ≤ b.tsect
  pub some_cluster : 0 < clusters b
  pub typed : fat_type (clusters b) ≡ some t
  pub fitting : fits_type b t ≡ true

pub read_bpb-IsAccepted :
    (b : Bpb) (bsect : ℕ) (g : Geometry)
    → read_bpb b bsect ≡ some g
    → (t : FsType) × IsAccepted b bsect t g
unfolding read_bpb
read_bpb-IsAccepted b bsect g h = elim (Option-cases (fat_type (clusters b))) [
  | inl e ↦ absurd (ground arith)
  | inr (t, e) ↦ (t, ground arith)
]

-- The number of clusters decides the type, and keeps below its limit.
fat_type-lt : (n : ℕ) (t : FsType) → fat_type n ≡ some t → n + 2 ≤ max_fatent t
unfolding fat_type
fat_type-lt n fat12 h = ground arith
fat_type-lt n fat16 h = ground arith
fat_type-lt n fat32 h = ground arith

-- A FAT that is big enough has room for the last entry.
fits_type-room :
    (b : Bpb) (t : FsType) (c : ℕ)
    → fits_type b t ≡ true
    → clusters b + 2 ≤ max_fatent t
    → c < clusters b + 2
    → offset t c + width t ≤ b.fat_size * 512
unfolding fits_type fat_bytes
fits_type-room b fat12 c h typed low = ground arith
fits_type-room b fat16 c h typed low = ground arith
fits_type-room b fat32 c h typed low = ground arith

-- `mount_volume` accepts a boot record only if the FAT has room for every cluster: on a volume that
-- lies on the drive and whose system area does not wrap around in 32 bits, the FATs are on the
-- drive and every entry is inside the first one.
pub read_bpb-HasFat :
    (b : Bpb) (bsect : ℕ) (g : Geometry)
    → read_bpb b bsect ≡ some g
    → IsSmall b
    → bsect + b.tsect ≤ disk_sectors
    → HasFat g
unfolding layout
read_bpb-HasFat b bsect g h small on_drive =
    let (t, ok) = read_bpb-IsAccepted b bsect g h in
    subst HasFat (sym ok.is_layout) (record {
      placed = record { fats_fit = ground arith };
      on_drive = ground arith;
      typed = fat_type-lt (clusters b) t ok.typed;
      room = λ c low. fits_type-room b t c ok.fitting (fat_type-lt (clusters b) t ok.typed) low;
    })

-- The areas in order: reserved sectors, the FATs, the root directory, then the clusters, which end
-- with the volume.
pub record IsOrdered (b : Bpb) (bsect : ℕ) (g : Geometry) : Type 0 where
  pub reserved : g.volbase < g.fatbase
  pub fats : g.fatbase + g.n_fats * g.fsize + g.n_rootdir / 16 ≡ g.database
  pub data_area : g.database + g.csize * (g.n_fatent - 2) ≤ bsect + b.tsect
  pub root : (g.fs_type ≢ fat32) → g.dirbase ≡ g.fatbase + g.n_fats * g.fsize
