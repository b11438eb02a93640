-- ===== src/Examples/Calls.antt =====
-- Calls of the public functions on the small volume.
use zephyr_fatfs_aflplusplus.Base.{
  ℕ, ◌+◌, ◌/◌, ◌≡◌, none, some, [], arith, ltb, ◌==◌, if◌then◌else◌, ◌-◌, ◌^◌,
}
use zephyr_fatfs_aflplusplus.Volume.{Fatfs, view}
use zephyr_fatfs_aflplusplus.Volume.Ends.{Ends}
use zephyr_fatfs_aflplusplus.Window.Laws.{IsSound, IsKept, IsPlain}
use zephyr_fatfs_aflplusplus.Fat.Entry.{entry, entry_of}
use zephyr_fatfs_aflplusplus.Chain.Links.{used}
use zephyr_fatfs_aflplusplus.File.{File}
use zephyr_fatfs_aflplusplus.Api.Space.{getfree_body}
use zephyr_fatfs_aflplusplus.Api.Space.Counted.{getfree_body-Tally}
use zephyr_fatfs_aflplusplus.Base.{List, [], ◌∷◌, refl}
use zephyr_fatfs_aflplusplus.Mount.{Mount}
use zephyr_fatfs_aflplusplus.Api.{get_ldnumber}
use zephyr_fatfs_aflplusplus.Examples.{floppy, mounted_floppy, floppy-HasFat}

-- A file of 512 bytes in cluster 2, whose pointer is at byte 100, open to write.
abbrev pub note : File
note = record {
  fs = some 1;
  sclust = 2;
  objsize = 512;
  flag = 2;
  err = none;
  fptr = 100;
  clust = 2;
  sect = 3;
  dir_sect = 2;
  dir_ptr = 0;
}

-- The same volume with its two reserved entries, and the number of free clusters not known.
abbrev formatted : Fatfs
formatted = record mounted_floppy {
  free_clst = 2 ^ 32 - 1;
  disk = λ a. if ltb a 512 then 0 else if ltb a 516 then 0xFF else if a == 516 then 0x0F else 0;
}

formatted-IsSound : IsSound formatted
formatted-IsSound = record {
  coherent = λ a clean low. absurd (omega arith);
  win_bytes = λ i. omega arith;
  disk_bytes = λ a. ground arith;
}

getfree_body-Tally_example :
    Ends
      (λ n w.
        (n + used 20 (entry floppy formatted) ≡ 20)
        × (w.free_clst ≡ n)
        × ((a : ℕ) → IsPlain floppy (a / 512) → view w a ≡ view formatted a))
      (IsKept floppy formatted)
      (getfree_body floppy formatted)
unfolding entry_of
getfree_body-Tally_example =
    getfree_body-Tally floppy floppy-HasFat formatted-IsSound (omega arith)
      ((λ z. ground arith), (λ z. ground arith)) (λ known. absurd (omega arith))

-- The volume registered and mounted, with `Fsid` 1, and a path with a drive prefix, RAM:/A.
abbrev pub mounted_object : Mount
mounted_object = record { geometry = some floppy; stale = floppy; id = 1; fs = mounted_floppy }

abbrev pub long_path : List ℕ
long_path = 0x72 ∷ 0x61 ∷ 0x6D ∷ 0x3A ∷ 0x2F ∷ 0x41 ∷ []

prefix_dropped : get_ldnumber long_path ≡ some (0x2F ∷ 0x41 ∷ [])
unfolding get_ldnumber
prefix_dropped = refl

wrong_drive : get_ldnumber (0x31 ∷ 0x3A ∷ 0x41 ∷ []) ≡ none
unfolding get_ldnumber
wrong_drive = refl
