-- ===== src/Mount/Wrap.antt =====
-- The size of the FATs in `mount_volume` of ff.c, a 32-bit product (`fasize *= fs->n_fats`).
use zephyr_fatfs_aflplusplus.Base.{ℕ, ◌+◌, ◌*◌, ◌^◌, ◌≤◌, ◌<◌, ◌≡◌, some, arith, sym, subst}
use zephyr_fatfs_aflplusplus.Volume.{Geometry}
use zephyr_fatfs_aflplusplus.Boot.{Bpb, read_bpb, layout}
use zephyr_fatfs_aflplusplus.Mount.Layout.{read_bpb-IsAccepted}

-- Where a boot record is accepted although the size of its FATs, as a 32-bit product, has wrapped
-- around, and the volume ends below sector 2^31, the data begins before the end of the first FAT.
pub wrapped-overlap :
    (b : Bpb) (bsect : ℕ) (g : Geometry)
    → read_bpb b bsect ≡ some g
    → 2 ^ 32 ≤ b.fat_size * b.n_fats
    → bsect + b.tsect < 2 ^ 31
    → g.database < g.fatbase + g.fsize
unfolding layout
wrapped-overlap b bsect g h wraps fits =
    let (t, ok) = read_bpb-IsAccepted b bsect g h in
    subst (λ (g : Geometry). g.database < g.fatbase + g.fsize) (sym ok.is_layout) (ground arith)
