-- ===== src/Sync/Fsinfo.antt =====
-- The FSINFO sector: written by `sync_fs`, read by `mount_volume` of ff.c.
use zephyr_fatfs_aflplusplus.Base.{ℕ, ◌+◌, ◌^◌, ◌≤◌, ◌<◌, ◌≡◌, ◌⊎◌, inl, ◌∙◌, refl, arith}
use zephyr_fatfs_aflplusplus.Diskio.{Bytes}
use zephyr_fatfs_aflplusplus.Volume.{Fatfs, put_byte}
use zephyr_fatfs_aflplusplus.Window.{ld_dword, st_dword}
use zephyr_fatfs_aflplusplus.Mount.{read_fsinfo}
use zephyr_fatfs_aflplusplus.Sync.{fsinfo}

pub ld_dword-st_dword : (p : Bytes) (i val : ℕ) → val < 2 ^ 32 → ld_dword (st_dword p i val) i ≡ val
unfolding ld_dword st_dword put_byte
ld_dword-st_dword p i val small = ground arith

-- A store elsewhere does not touch the word.
pub ld_dword-st_dword_apart :
    (p : Bytes) (i j val : ℕ)
    → (i + 4 ≤ j) ⊎ (j + 4 ≤ i)
    → ld_dword (st_dword p j val) i ≡ ld_dword p i
unfolding ld_dword st_dword put_byte
ld_dword-st_dword_apart p i j val apart = ground arith

-- The sector after its first 1, 2, 3 and 4 stores.
abbrev one_stored : Bytes
one_stored = st_dword (λ i. 0) 0 0x41615252

abbrev two_stored : Bytes
two_stored = st_dword one_stored 484 0x61417272

abbrev three_stored : ℕ → Bytes
three_stored free = st_dword two_stored 488 free

abbrev four_stored : ℕ → ℕ → Bytes
four_stored free last = st_dword (three_stored free) 492 last

-- The fields of the sector: signatures and counters.
pub record HasFields (p : Bytes) (free last : ℕ) : Type 0 where
  pub lead : ld_dword p 0 ≡ 0x41615252
  pub struct : ld_dword p 484 ≡ 0x61417272
  pub free_count : ld_dword p 488 ≡ free
  pub next_free : ld_dword p 492 ≡ last
  pub trail : ld_dword p 498 ≡ 0xAA550000

pub fsinfo-HasFields :
    (free last : ℕ) → free < 2 ^ 32 → last < 2 ^ 32 → HasFields (fsinfo free last) free last
unfolding fsinfo
fsinfo-HasFields free last low low' =
    let p4 = four_stored free last in
    let p3 = three_stored free in
    record {
      lead =
          ld_dword-st_dword_apart p4 0 498 0xAA550000 (inl (omega arith))
          ∙ (ld_dword-st_dword_apart p3 0 492 last (inl (omega arith))
              ∙ (ld_dword-st_dword_apart two_stored 0 488 free (inl (omega arith))
                  ∙ (ld_dword-st_dword_apart one_stored 0 484 0x61417272 (inl (omega arith))
                      ∙ ld_dword-st_dword (λ i. 0) 0 0x41615252 (omega arith))));
      struct =
          ld_dword-st_dword_apart p4 484 498 0xAA550000 (inl (omega arith))
          ∙ (ld_dword-st_dword_apart p3 484 492 last (inl (omega arith))
              ∙ (ld_dword-st_dword_apart two_stored 484 488 free (inl (omega arith))
                  ∙ ld_dword-st_dword one_stored 484 0x61417272 (omega arith)));
      free_count =
          ld_dword-st_dword_apart p4 488 498 0xAA550000 (inl (omega arith))
          ∙ (ld_dword-st_dword_apart p3 488 492 last (inl (omega arith))
              ∙ ld_dword-st_dword two_stored 488 free low);
      next_free =
          ld_dword-st_dword_apart p4 492 498 0xAA550000 (inl (omega arith))
          ∙ ld_dword-st_dword p3 492 last low';
      trail = ld_dword-st_dword p4 498 0xAA550000 (omega arith);
    }

-- A mount that finds the sector in the window takes up the counters.
read_fsinfo_of_fields :
    (v : Fatfs) (free last : ℕ)
    → HasFields v.win free last
    → read_fsinfo v ≡ record v { fsi_flag = 0; free_clst = free; last_clst = last }
unfolding read_fsinfo
read_fsinfo_of_fields v free last h = rw (h.lead, h.struct, h.trail, h.free_count, h.next_free) refl

-- The sector that `sync_fs` writes, in the window of a volume that is mounted, gives it the counters
-- that were written: the number of free clusters and the last one allocated, as 32-bit numbers.
pub read_fsinfo-fsinfo :
    (v : Fatfs) (free last : ℕ)
    → free < 2 ^ 32
    → last < 2 ^ 32
    → read_fsinfo (record v { win = fsinfo free last })
      ≡ record v { win = fsinfo free last; fsi_flag = 0; free_clst = free; last_clst = last }
read_fsinfo-fsinfo v free last low low' =
    read_fsinfo_of_fields (record v { win = fsinfo free last }) free last
      (fsinfo-HasFields free last low low')
