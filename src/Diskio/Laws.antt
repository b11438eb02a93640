-- ===== src/Diskio/Laws.antt =====
-- The reads, the writes and the bounds check of diskio_fuzz.c.
use zephyr_fatfs_aflplusplus.Base.{
  ℕ, ◌+◌, ◌*◌, ◌/◌, ◌%◌, ◌-◌, ◌≤◌, ◌<◌, ◌≡◌, true, none, some, arith, ◌==◌, if◌then◌else◌,
}
use zephyr_fatfs_aflplusplus.Base.{◌⊎◌, inl, inr, none, some, refl, Bool-cases}
use zephyr_fatfs_aflplusplus.Diskio.{Bytes, disk_sectors, memcpy, in_bounds, disk_read, disk_write}

-- A request is accepted exactly when all of its sectors are on the drive and it starts on the drive.
pub in_bounds_lem :
    (sector count : ℕ)
    → (in_bounds sector count ≡ true → (sector < disk_sectors) × (sector + count ≤ disk_sectors))
      × ((sector < disk_sectors) × (sector + count ≤ disk_sectors) → in_bounds sector count ≡ true)
unfolding in_bounds
in_bounds_lem sector count = (λ h. ground arith, λ h. ground arith)

pub memcpy-sector :
    (disk buff : Bytes) (s a : ℕ)
    → memcpy disk (s * 512) buff (1 * 512) a ≡ (if a / 512 == s then buff (a % 512) else disk a)
unfolding memcpy
memcpy-sector disk buff s a = ground arith

-- One sector written: an error, or the drive with that sector replaced.
pub disk_write-sector :
    (d w : Bytes) (s : ℕ)
    → (disk_write d w s 1 ≡ none)
      ⊎ ((d' : Bytes) × (disk_write d w s 1 ≡ some d')
          × (s < disk_sectors)
          × ((a : ℕ) → d' a ≡ (if a / 512 == s then w (a % 512) else d a)))
unfolding disk_write
disk_write-sector d w s = elim (Bool-cases (in_bounds s 1)) [
  | inl ok ↦
      let accepted = (in_bounds_lem s 1).0 ok in
      inr (memcpy d (s * 512) w (1 * 512), rw ok, accepted.0, memcpy-sector d w s)
  | inr bad ↦ inl (rw bad)
]

-- One sector read: an error, or its bytes.
pub disk_read-sector :
    (d : Bytes) (s : ℕ)
    → (disk_read d s 1 ≡ none)
      ⊎ ((b : Bytes) × (disk_read d s 1 ≡ some b)
          × (s < disk_sectors)
          × ((i : ℕ) → b i ≡ d (s * 512 + i)))
unfolding disk_read
disk_read-sector d s = elim (Bool-cases (in_bounds s 1)) [
  | inl ok ↦
      let accepted = (in_bounds_lem s 1).0 ok in
      inr ((λ i. d (s * 512 + i)), rw ok, accepted.0, λ i. refl)
  | inr bad ↦ inl (rw bad)
]

-- A sector that cannot be read is not on the drive.
pub disk_read_fails : (d : Bytes) (s : ℕ) → disk_read d s 1 ≡ none → disk_sectors ≤ s
unfolding disk_read in_bounds
disk_read_fails d s h = ground arith

-- On the drive the write succeeds.
pub disk_write_on_drive :
    (d w : Bytes) (s : ℕ)
    → s < disk_sectors
    → (d' : Bytes) × (disk_write d w s 1 ≡ some d')
      × ((a : ℕ) → d' a ≡ (if a / 512 == s then w (a % 512) else d a))
unfolding disk_write
disk_write_on_drive d w s low =
    let accepted = (in_bounds_lem s 1).1 (low, omega arith) in
    (memcpy d (s * 512) w (1 * 512), rw accepted refl, memcpy-sector d w s)

-- Several sectors written: an error, or the drive with these sectors replaced.
pub disk_write-sectors :
    (d w : Bytes) (s n : ℕ)
    → (disk_write d w s n ≡ none)
      ⊎ ((d' : Bytes) × (disk_write d w s n ≡ some d')
          × (s + n ≤ disk_sectors)
          × ((a : ℕ)
              → ((s * 512 ≤ a) × (a < (s + n) * 512) × (d' a ≡ w (a - s * 512)))
                ⊎ (((a < s * 512) ⊎ ((s + n) * 512 ≤ a)) × (d' a ≡ d a))))
unfolding disk_write memcpy
disk_write-sectors d w s n = elim (Bool-cases (in_bounds s n)) [
  | inl fits ↦
      let accepted = (in_bounds_lem s n).0 fits in
      inr (memcpy d (s * 512) w (n * 512), rw fits refl, accepted.1, λ a. ground arith)
  | inr bad ↦ inl (rw bad refl)
]
