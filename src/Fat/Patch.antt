-- ===== src/Fat/Patch.antt =====
-- A byte of the window rewritten, as `put_fat` of ff.c does it, in the view of the volume.
use zephyr_fatfs_aflplusplus.Base.{
  ℕ, ◌+◌, ◌*◌, ◌/◌, ◌≤◌, ◌<◌, ◌≡◌, ◌⊎◌, ◌∙◌, refl, arith, ◌==◌, if◌then◌else◌,
}
use zephyr_fatfs_aflplusplus.Volume.{Geometry, Fatfs, view, put_byte}
use zephyr_fatfs_aflplusplus.Window.Laws.{IsSound, IsKept, IsPlain}
use zephyr_fatfs_aflplusplus.Fat.{poke}

-- `v'` is `v` with the byte at address `i` set to `b`.
pub record IsPatched (v v' : Fatfs) (i b : ℕ) : Type 0 where
  pub sound : IsSound v'
  pub at : (a : ℕ) → view v' a ≡ (if a == i then b else view v a)
  pub winsect : v'.winsect ≡ v.winsect
  pub last_clst : v'.last_clst ≡ v.last_clst
  pub free_clst : v'.free_clst ≡ v.free_clst
  pub fsi_flag : v'.fsi_flag ≡ v.fsi_flag

pub poke-IsPatched :
    {v : Fatfs} (s o b i : ℕ)
    → IsSound v
    → v.winsect ≡ s
    → o < 512
    → b < 256
    → i ≡ s * 512 + o
    → IsPatched v (poke (put_byte v.win o b) v) i b
unfolding put_byte
poke-IsPatched {v} s o b i sound at small byte e = record {
  sound = record {
    coherent = ground arith;
    win_bytes = λ j. ground (arith, sound.win_bytes j);
    disk_bytes = sound.disk_bytes;
  };
  at = λ a. ground arith;
  winsect = refl;
  last_clst = refl;
  free_clst = refl;
  fsi_flag = refl;
}

-- `v'` is `v` but for `n` bytes from address `lo`, as far as the first FAT and the data go.
pub record IsLocal (g : Geometry) (lo n : ℕ) (v v' : Fatfs) : Type 0 where
  pub sound : IsSound v'
  pub outside : (a : ℕ) → IsPlain g (a / 512) → (a < lo) ⊎ (lo + n ≤ a) → view v' a ≡ view v a
  pub last_clst : v'.last_clst ≡ v.last_clst
  pub free_clst : v'.free_clst ≡ v.free_clst
  pub fsi_flag : v'.fsi_flag ≡ v.fsi_flag

pub Kept-IsLocal : (g : Geometry) (lo n : ℕ) {v v' : Fatfs} → IsKept g v v' → IsLocal g lo n v v'
Kept-IsLocal g lo n k = record {
  sound = k.sound;
  outside = λ a plain out. k.same a plain;
  last_clst = k.last_clst;
  free_clst = k.free_clst;
  fsi_flag = k.fsi_flag;
}

pub Patched-IsLocal :
    (g : Geometry) (lo n i b : ℕ) {v v' : Fatfs}
    → IsPatched v v' i b
    → lo ≤ i
    → i < lo + n
    → IsLocal g lo n v v'
Patched-IsLocal g lo n i b p low high = record {
  sound = p.sound;
  outside = λ a plain out. ground (arith, p.at a);
  last_clst = p.last_clst;
  free_clst = p.free_clst;
  fsi_flag = p.fsi_flag;
}

pub IsLocal-trans :
    (g : Geometry) (lo n : ℕ) {u v w : Fatfs}
    → IsLocal g lo n u v
    → IsLocal g lo n v w
    → IsLocal g lo n u w
IsLocal-trans g lo n p q = record {
  sound = q.sound;
  outside = λ a plain out. q.outside a plain out ∙ p.outside a plain out;
  last_clst = q.last_clst ∙ p.last_clst;
  free_clst = q.free_clst ∙ p.free_clst;
  fsi_flag = q.fsi_flag ∙ p.fsi_flag;
}

pub IsPatched-of_eq :
    {v v' : Fatfs} {i b b' : ℕ} → IsPatched v v' i b → b ≡ b' → IsPatched v v' i b'
IsPatched-of_eq p e = rw (← e) p
