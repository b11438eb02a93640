-- ===== src/Diskio.antt =====
-- filesystem_code/diskio_fuzz.c: the drive is a byte array of 128 sectors in memory.
pub mod Laws
use zephyr_fatfs_aflplusplus.Base.{
  ◌<◌, ℕ, ◌+◌, ◌-◌, ◌*◌, Bool, true, false, Option, none, some, ltb, ◌==◌, if◌then◌else◌,
}

abbrev pub disk_sectors : ℕ
disk_sectors = 128

abbrev pub sector_size : ℕ
sector_size = 512

-- A byte array: its bytes by index.
abbrev pub Bytes : Type 0
Bytes = ℕ → ℕ

-- Every byte is below 256.
abbrev pub AreBytes : Bytes → Type 0
AreBytes p = (i : ℕ) → p i < 256

-- `memcpy(dst + at, src, len)`
unfoldable pub memcpy : Bytes → ℕ → Bytes → ℕ → Bytes
memcpy dst at src len i =
    if ltb i at then dst i else if ltb (i - at) len then src (i - at) else dst i

-- The sum is not formed, so nothing overflows.
unfoldable pub in_bounds : ℕ → ℕ → Bool
in_bounds sector count =
    if ltb sector disk_sectors
    then if ltb (disk_sectors - sector) count then false else true
    else false

-- `disk_read`: the bytes that arrive in the buffer, or `none` for `RES_PARERR`.
unfoldable pub disk_read : Bytes → ℕ → ℕ → Option Bytes
unfolding in_bounds
disk_read disk sector count =
    if in_bounds sector count then some (λ i. disk (sector * sector_size + i)) else none

-- `disk_write`: the array after the write, or `none` for `RES_PARERR`.
unfoldable pub disk_write : Bytes → Bytes → ℕ → ℕ → Option Bytes
unfolding in_bounds memcpy
disk_write disk buff sector count =
    if in_bounds sector count
    then some (memcpy disk (sector * sector_size) buff (count * sector_size))
    else none

-- `disk_status` and `disk_initialize`: the drive is always ready and never write protected.
unfoldable pub disk_status : Bytes → ℕ
disk_status disk = 0

unfoldable pub disk_initialize : Bytes → ℕ
disk_initialize disk = 0

-- `disk_ioctl`: the result and what it stores in the caller's buffer. Command 1 asks for the number
-- of sectors, 2 for their size and 3 for the erase block.
unfoldable pub disk_ioctl : ℕ → ℕ × Option ℕ
disk_ioctl cmd =
    if cmd == 1
    then (0, some disk_sectors)
    else if cmd == 2
    then (0, some sector_size)
    else if cmd == 3
    then (0, some 1)
    else (0, none)

-- `fuzz_disk_load`: the drive filled with the test case and zeros behind it.
abbrev pub disk_size : ℕ
disk_size = disk_sectors * sector_size

unfoldable pub fuzz_disk_load : Bytes → ℕ → Bytes
fuzz_disk_load test_case len a =
    if ltb a (if ltb disk_size len then disk_size else len) then test_case a else 0
