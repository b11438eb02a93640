-- ===== src/Fat/Entry.antt =====
-- The specification of the FAT: entries as numbers, read off the bytes of the volume.
use zephyr_fatfs_aflplusplus.Base.{
  inr, ℕ, ◌+◌, ◌*◌, ◌/◌, ◌%◌, ◌^◌, ◌≤◌, ◌<◌, ◌≡◌, refl, low_bits, ◌-◌, ◌∙◌, arith, ◌==◌,
  if◌then◌else◌, inl,
}
use zephyr_fatfs_aflplusplus.Diskio.{disk_sectors}
use zephyr_fatfs_aflplusplus.Volume.{Geometry, Fatfs, FsType, fat12, fat16, fat32, view}
use zephyr_fatfs_aflplusplus.Window.Laws.{IsPlaced, IsKept}

-- Where the entry of a cluster begins in the FAT, and how many bytes it touches.
abbrev pub offset : FsType → ℕ → ℕ
offset fat12 c = c + c / 2
offset fat16 c = c * 2
offset fat32 c = c * 4

abbrev pub width : FsType → ℕ
width fat12 = 2
width fat16 = 2
width fat32 = 4

-- The bits of an entry that hold the cluster status.
abbrev pub bits : FsType → ℕ
bits fat12 = 12
bits fat16 = 16
bits fat32 = 28

-- One more than the number of the last cluster, at most: MAX_FAT12 and the like, plus 2.
abbrev pub max_fatent : FsType → ℕ
max_fatent fat12 = 0xFF7
max_fatent fat16 = 0xFFF7
max_fatent fat32 = 0x0FFFFFF7

pub max_fatent-lt : (t : FsType) → max_fatent t < 2 ^ 32
max_fatent-lt fat12 = omega arith
max_fatent-lt fat16 = omega arith
max_fatent-lt fat32 = omega arith

-- The FAT lies on the drive and has room for every entry.
pub record HasFat (g : Geometry) : Type 0 where
  pub placed : IsPlaced g
  pub on_drive : g.fatbase + g.fsize ≤ disk_sectors
  pub typed : g.n_fatent ≤ max_fatent g.fs_type
  pub room : (c : ℕ) → c < g.n_fatent → offset g.fs_type c + width g.fs_type ≤ g.fsize * 512

abbrev pub IsCluster : Geometry → ℕ → Type 0
IsCluster g c = (2 ≤ c) × (c < g.n_fatent)

-- Byte `i` of the first FAT.
abbrev pub fat_byte : Geometry → Fatfs → ℕ → ℕ
fat_byte g v i = view v (g.fatbase * 512 + i)

unfoldable pub entry_of : FsType → ℕ → (ℕ → ℕ) → ℕ
entry_of fat12 c b =
    if c % 2 == 1
    then (b (c + c / 2 + 1) * 256 + b (c + c / 2)) / 16
    else (b (c + c / 2 + 1) * 256 + b (c + c / 2)) % 4096
entry_of fat16 c b = b (c * 2 + 1) * 256 + b (c * 2)
entry_of fat32 c b =
    (((b (c * 4 + 3) * 256 + b (c * 4 + 2)) * 256 + b (c * 4 + 1)) * 256 + b (c * 4)) % 2 ^ 28

-- The status of cluster `c`: 0 if it is free, or the next cluster of its chain.
abbrev pub entry : Geometry → Fatfs → ℕ → ℕ
entry g v c = entry_of g.fs_type c (fat_byte g v)

-- A byte of the window is a byte of the FAT, also as it was before the window moved.
pub fat_byte-window :
    (g : Geometry) {v v' : Fatfs} (s o i : ℕ)
    → HasFat g
    → IsKept g v v'
    → v'.winsect ≡ g.fatbase + s
    → o < 512
    → i ≡ s * 512 + o
    → i < g.fsize * 512
    → v'.win o ≡ fat_byte g v i
fat_byte-window g {v} {v'} s o i has kept at small e room =
    here ∙ kept.same (g.fatbase * 512 + i) (omega (arith, has.on_drive), inr (inl (omega arith)))
  where
    here : v'.win o ≡ view v' (g.fatbase * 512 + i)
    here = ground arith

-- An entry depends on the bytes that it touches.
pub entry_of_ext :
    (t : FsType) (c : ℕ) (b b' : ℕ → ℕ)
    → ((i : ℕ) → offset t c ≤ i → i < offset t c + width t → b' i ≡ b i)
    → entry_of t c b' ≡ entry_of t c b
unfolding entry_of
entry_of_ext fat12 c b b' h = ground (arith, h (c + c / 2), h (c + c / 2 + 1))
entry_of_ext fat16 c b b' h = ground (arith, h (c * 2), h (c * 2 + 1))
entry_of_ext fat32 c b b' h = ground (arith, h (c * 4), h (c * 4 + 1), h (c * 4 + 2), h (c * 4 + 3))

-- Moving the window changes no entry.
pub entry-kept :
    (g : Geometry) {v v' : Fatfs} (d : ℕ)
    → HasFat g
    → IsKept g v v'
    → d < g.n_fatent
    → entry g v' d ≡ entry g v d
entry-kept g {v} {v'} d has kept h =
    entry_of_ext g.fs_type d (fat_byte g v) (fat_byte g v') λ i low high.
      kept.same (g.fatbase * 512 + i)
        (omega (arith, has.on_drive, has.room d h), inr (inl (omega (arith, has.room d h))))

-- What `put_fat` stores: 0 as itself, an end of chain as a number past every cluster, and a
-- cluster as itself.
pub zero_bits : (t : FsType) → low_bits 0 (bits t) ≡ 0
zero_bits fat12 = refl
zero_bits fat16 = refl
zero_bits fat32 = refl

pub end_bits : (t : FsType) (n : ℕ) → n ≤ max_fatent t → n ≤ low_bits (2 ^ 32 - 1) (bits t)
end_bits fat12 n h = omega arith
end_bits fat16 n h = omega arith
end_bits fat32 n h = omega arith

pub cluster_bits : (t : FsType) (n c : ℕ) → n ≤ max_fatent t → c < n → low_bits c (bits t) ≡ c
cluster_bits fat12 n c h low = omega arith
cluster_bits fat16 n c h low = omega arith
cluster_bits fat32 n c h low = omega arith
