-- ===== src/Mount/Found.antt =====
-- Where the boot record of the volume on a drive lies: what `find_volume` of ff.c looks for.
use zephyr_fatfs_aflplusplus.Base.{
  ℕ, ◌+◌, ◌*◌, ◌≤◌, ◌<◌, ◌≡◌, ◌≢◌, ◌⊎◌, inl, inr, sym, ◌∙◌, ap, true, false, arith, leb, List, [],
  ◌∷◌,
}
use zephyr_fatfs_aflplusplus.Diskio.{Bytes, disk_sectors}
use zephyr_fatfs_aflplusplus.Window.{ld_dword}
use zephyr_fatfs_aflplusplus.Boot.{boot_kind}

-- The bytes of a sector.
abbrev pub sector : Bytes → ℕ → Bytes
sector d s i = d (s * 512 + i)

-- The first sectors of the four partitions, from the partition table of a sector.
abbrev pub starts : Bytes → List ℕ
starts b =
    ld_dword b (446 + 0 * 16 + 8)
    ∷ ld_dword b (446 + 1 * 16 + 8)
    ∷ ld_dword b (446 + 2 * 16 + 8)
    ∷ ld_dword b (446 + 3 * 16 + 8)
    ∷ []

-- A sector of the drive with the boot record of a FAT volume.
abbrev pub IsBootRecord : Bytes → ℕ → Type 0
IsBootRecord d s = (s < disk_sectors) × (leb 2 (boot_kind (sector d s)) ≡ false)

-- A partition with no FAT volume: it does not exist, is not on the drive, or has another sector.
abbrev pub IsOther : Bytes → ℕ → Type 0
IsOther d p = (p ≡ 0) ⊎ ((disk_sectors ≤ p) ⊎ (leb 2 (boot_kind (sector d p)) ≡ true))

-- `s` is the first of the partitions that has a FAT volume.
abbrev pub IsFirst : Bytes → ℕ → List ℕ → Type 0
IsFirst d s [] = ⊥
IsFirst d s (p ∷ ps) = ((s ≡ p) × ((p ≢ 0) × IsBootRecord d p)) ⊎ (IsOther d p × IsFirst d s ps)

-- Sector 0 has the boot record, or it has a partition table and `s` is the first partition with one.
abbrev pub IsBoot : Bytes → ℕ → Type 0
IsBoot d s =
    ((s ≡ 0) × IsBootRecord d 0)
    ⊎ ((boot_kind (sector d 0) ≡ 2) × IsFirst d s (starts (sector d 0)))

pub other_no_record : (d : Bytes) (p : ℕ) → IsOther d p → p ≢ 0 → IsBootRecord d p → ⊥
other_no_record d p (inl none_there) some_there (low, h) = some_there none_there
other_no_record d p (inr (inl high)) some_there (low, h) = omega arith
other_no_record d p (inr (inr bad)) some_there (low, h) = cc

IsFirst-unique : (d : Bytes) (s t : ℕ) (ps : List ℕ) → IsFirst d s ps → IsFirst d t ps → s ≡ t
IsFirst-unique d s t [] none_there more = absurd none_there
IsFirst-unique d s t (p ∷ ps) (inl (e, h)) (inl (e', h')) = e ∙ sym e'
IsFirst-unique d s t (p ∷ ps) (inl (e, (there, h))) (inr (other, more)) =
    absurd (other_no_record d p other there h)
IsFirst-unique d s t (p ∷ ps) (inr (other, more)) (inl (e, (there, h))) =
    absurd (other_no_record d p other there h)
IsFirst-unique d s t (p ∷ ps) (inr (other, more)) (inr (other', more')) =
    IsFirst-unique d s t ps more more'

-- There is at most one such sector.
pub IsBoot-unique : (d : Bytes) (s t : ℕ) → IsBoot d s → IsBoot d t → s ≡ t
IsBoot-unique d s t (inl (e, h)) (inl (e', h')) = e ∙ sym e'
IsBoot-unique d s t (inl (e, (low, h))) (inr (mbr, more)) =
    absurd (ground (arith, ap (λ k. leb 2 k) mbr, h))
IsBoot-unique d s t (inr (mbr, more)) (inl (e, (low, h))) =
    absurd (ground (arith, ap (λ k. leb 2 k) mbr, h))
IsBoot-unique d s t (inr (mbr, more)) (inr (mbr', more')) =
    IsFirst-unique d s t (starts (sector d 0)) more more'
