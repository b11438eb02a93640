-- ===== src/Fat/Nibble.antt =====
-- The two halves of a FAT12 entry that `put_fat` of ff.c stores, each in a byte that it shares.
use zephyr_fatfs_aflplusplus.Base.{ℕ, ◌+◌, ◌/◌, ◌≤◌, ◌<◌, ◌≡◌, ◌≢◌, ◌⊎◌, arith, low_bits}
use zephyr_fatfs_aflplusplus.Volume.{fat12}
use zephyr_fatfs_aflplusplus.Fat.{first_byte, second_byte}
use zephyr_fatfs_aflplusplus.Fat.Entry.{entry_of}

-- Up to byte `n` of the FAT, `b'` is `b` with none, one or both halves of entry `c` stored.
pub record IsHalved (n c val : ℕ) (b b' : ℕ → ℕ) : Type 0 where
  pub first : (b' (c + c / 2) ≡ b (c + c / 2)) ⊎ (b' (c + c / 2) ≡ first_byte c val (b (c + c / 2)))
  pub second :
      (b' (c + c / 2 + 1) ≡ b (c + c / 2 + 1))
      ⊎ (b' (c + c / 2 + 1) ≡ second_byte c val (b (c + c / 2 + 1)))
  pub rest : (j : ℕ) → j < n → j ≢ c + c / 2 → j ≢ c + c / 2 + 1 → b' j ≡ b j
  pub bytes : (j : ℕ) → b j < 256

pub halved-others :
    (n c val d : ℕ) (b b' : ℕ → ℕ)
    → IsHalved n c val b b'
    → d + d / 2 + 2 ≤ n
    → d ≢ c
    → entry_of fat12 d b' ≡ entry_of fat12 d b
unfolding entry_of first_byte second_byte
halved-others n c val d b b' h room ne = ground (
  arith,
  h.first,
  h.second,
  h.rest (d + d / 2),
  h.rest (d + d / 2 + 1),
  h.bytes (d + d / 2),
  h.bytes (d + d / 2 + 1),
)

pub stored_self :
    (c val : ℕ) (b b' : ℕ → ℕ)
    → b (c + c / 2) < 256
    → b (c + c / 2 + 1) < 256
    → b' (c + c / 2) ≡ first_byte c val (b (c + c / 2))
    → b' (c + c / 2 + 1) ≡ second_byte c val (b (c + c / 2 + 1))
    → entry_of fat12 c b' ≡ low_bits val 12
unfolding entry_of first_byte second_byte
stored_self c val b b' x y e f = ground arith

pub first_byte-lt : (c val old : ℕ) → first_byte c val old < 256
unfolding first_byte
first_byte-lt c val old = ground arith

pub second_byte-lt : (c val old : ℕ) → old < 256 → second_byte c val old < 256
unfolding second_byte
second_byte-lt c val old h = ground arith
