-- ===== src/Fat/Twelve.antt =====
-- `put_fat` on FAT12, whose entries share bytes: two halves, each a byte of the window.
use zephyr_fatfs_aflplusplus.Base.{
  ℕ, ◌+◌, ◌*◌, ◌/◌, ◌%◌, ◌≤◌, ◌<◌, ◌≡◌, inl, inr, ap, ◌∙◌, arith, u32,
}
use zephyr_fatfs_aflplusplus.Volume.{Geometry, Fatfs, FsType, fat12, view}
use zephyr_fatfs_aflplusplus.Volume.Ends
use zephyr_fatfs_aflplusplus.Volume.Ends.{Ends, returns, fails}
use zephyr_fatfs_aflplusplus.Window.Laws.{IsSound, IsKept, move_window-IsKept}
use zephyr_fatfs_aflplusplus.Fat.{put_fat12, first_byte, second_byte}
use zephyr_fatfs_aflplusplus.Fat.Entry.{HasFat, entry_of_ext, fat_byte, fat_byte-window}
use zephyr_fatfs_aflplusplus.Fat.Patch.{
  IsPatched, IsLocal, Kept-IsLocal, Patched-IsLocal, IsLocal-trans, IsPatched-of_eq, poke-IsPatched,
}
use zephyr_fatfs_aflplusplus.Fat.Nibble.{
  IsHalved, halved-others, stored_self, first_byte-lt, second_byte-lt,
}
use zephyr_fatfs_aflplusplus.Fat.Store.{IsEditedAs, Set}

module _ (g : Geometry) (has : HasFat g) where
  pub Kept-IsEditedAs : (t : FsType) (c : ℕ) {v v' : Fatfs} → IsKept g v v' → IsEditedAs t g c v v'
  Kept-IsEditedAs t c {v} {v'} kept = record {
    sound = kept.sound;
    others = λ d ne room. entry_of_ext t d (fat_byte g v) (fat_byte g v') λ i low high.
        kept.same (g.fatbase * 512 + i) (omega (arith, has.on_drive), inr (inl (omega arith)));
    beyond = λ a plain out. kept.same a plain;
    last_clst = kept.last_clst;
    free_clst = kept.free_clst;
    fsi_flag = kept.fsi_flag;
  }

  -- An entry of 12 bits after its first half, and after both.
  Halved-IsEditedAs :
      (c val : ℕ) {v w : Fatfs}
      → c + c / 2 + 2 ≤ g.fsize * 512
      → IsLocal g (g.fatbase * 512 + (c + c / 2)) 2 v w
      → IsHalved (g.fsize * 512) c val (fat_byte g v) (fat_byte g w)
      → IsEditedAs fat12 g c v w
  Halved-IsEditedAs c val {v} {w} room local h = record {
    sound = local.sound;
    others = λ d ne room'.
        halved-others (g.fsize * 512) c val d (fat_byte g v) (fat_byte g w) h room' ne;
    beyond = λ a plain out. local.outside a plain (ground arith);
    last_clst = local.last_clst;
    free_clst = local.free_clst;
    fsi_flag = local.fsi_flag;
  }

  view_bytes : {v : Fatfs} (a : ℕ) → IsSound v → view v a < 256
  view_bytes a s = ground (arith, s.win_bytes (a % 512), s.disk_bytes a)

  -- A FAT byte that a move of the window or a patch elsewhere leaves alone.
  fat_byte-kept :
      {v w : Fatfs} (j : ℕ) → IsKept g v w → j < g.fsize * 512 → fat_byte g w j ≡ fat_byte g v j
  fat_byte-kept j kept h =
      kept.same (g.fatbase * 512 + j) (omega (arith, has.on_drive), inr (inl (omega arith)))

  module _ (c val : ℕ) (room : c + c / 2 + 2 ≤ g.fsize * 512) {v : Fatfs} (s : IsSound v) where
    first-IsHalved :
        {w x : Fatfs}
        → IsKept g v w
        → IsPatched w x
            (g.fatbase * 512 + (c + c / 2))
            (first_byte c val (fat_byte g v (c + c / 2)))
        → IsHalved (g.fsize * 512) c val (fat_byte g v) (fat_byte g x)
    first-IsHalved kept p = record {
      first = inr (ground (arith, p.at (g.fatbase * 512 + (c + c / 2))));
      second = inl (
          ground
            (arith, p.at (g.fatbase * 512 + (c + c / 2 + 1)), fat_byte-kept (c + c / 2 + 1) kept));
      rest = λ j low ne _. ground (arith, p.at (g.fatbase * 512 + j), fat_byte-kept j kept);
      bytes = λ j. view_bytes (g.fatbase * 512 + j) s;
    }

    kept-IsHalved :
        {x u : Fatfs}
        → IsHalved (g.fsize * 512) c val (fat_byte g v) (fat_byte g x)
        → IsKept g x u
        → IsHalved (g.fsize * 512) c val (fat_byte g v) (fat_byte g u)
    kept-IsHalved h kept = record {
      first = ground (arith, h.first, fat_byte-kept (c + c / 2) kept);
      second = ground (arith, h.second, fat_byte-kept (c + c / 2 + 1) kept);
      rest = λ j low ne ne'. ground (arith, h.rest j, fat_byte-kept j kept);
      bytes = h.bytes;
    }

    unchanged :
        {w x : Fatfs}
        → IsKept g v w
        → IsPatched w x
            (g.fatbase * 512 + (c + c / 2))
            (first_byte c val (fat_byte g v (c + c / 2)))
        → fat_byte g x (c + c / 2 + 1) ≡ fat_byte g v (c + c / 2 + 1)
    unchanged kept p =
        ground (arith, p.at (g.fatbase * 512 + (c + c / 2 + 1)), fat_byte-kept (c + c / 2 + 1) kept)

    -- The second half stored, in a window that has moved on from the first.
    second-Set :
        {w x u y : Fatfs}
        → IsKept g v w
        → IsPatched w x
            (g.fatbase * 512 + (c + c / 2))
            (first_byte c val (fat_byte g v (c + c / 2)))
        → IsKept g x u
        → IsPatched u y
            (g.fatbase * 512 + (c + c / 2 + 1))
            (second_byte c val (fat_byte g v (c + c / 2 + 1)))
        → Set fat12 g v c val y
    second-Set {u} {y} kept p kept' q =
        let i = g.fatbase * 512 + (c + c / 2) in
        let b0 = first_byte c val (fat_byte g v (c + c / 2)) in
        let b1 = second_byte c val (fat_byte g v (c + c / 2 + 1)) in
        let h = kept-IsHalved (first-IsHalved kept p) kept' in
        let first : fat_byte g u (c + c / 2) ≡ b0 =
          ground (arith, p.at i, fat_byte-kept (c + c / 2) kept') in
        let at0 : fat_byte g y (c + c / 2) ≡ b0 = ground (arith, q.at i) in
        let at1 : fat_byte g y (c + c / 2 + 1) ≡ b1 =
          ground (arith, q.at (g.fatbase * 512 + (c + c / 2 + 1))) in
        let h' : IsHalved (g.fsize * 512) c val (fat_byte g v) (fat_byte g y) = record {
          first = inr at0;
          second = inr at1;
          rest = λ j low ne ne'. ground (arith, q.at (g.fatbase * 512 + j), h.rest j);
          bytes = h.bytes;
        } in
        let local = IsLocal-trans g i 2 (Kept-IsLocal g i 2 kept) (
          IsLocal-trans g i 2 (Patched-IsLocal g i 2 i b0 p (omega arith) (omega arith)) (
            IsLocal-trans g i 2 (Kept-IsLocal g i 2 kept') (
              Patched-IsLocal g i 2 (g.fatbase * 512 + (c + c / 2 + 1)) b1 q (omega arith)
                (omega arith)))) in
        (
          Halved-IsEditedAs c val room local h',
          stored_self c val (fat_byte g v) (fat_byte g y) (view_bytes _ s) (view_bytes _ s) at0 at1,
        )

    -- An error between the halves leaves only this entry in doubt.
    between-IsEditedAs :
        {w x u : Fatfs}
        → IsKept g v w
        → IsPatched w x
            (g.fatbase * 512 + (c + c / 2))
            (first_byte c val (fat_byte g v (c + c / 2)))
        → IsKept g x u
        → IsEditedAs fat12 g c v u
    between-IsEditedAs kept p kept' =
        let i = g.fatbase * 512 + (c + c / 2) in
        let b0 = first_byte c val (fat_byte g v (c + c / 2)) in
        let local = IsLocal-trans g i 2 (Kept-IsLocal g i 2 kept) (
          IsLocal-trans g i 2 (Patched-IsLocal g i 2 i b0 p (omega arith) (omega arith))
            (Kept-IsLocal g i 2 kept')) in
        Halved-IsEditedAs c val room local (kept-IsHalved (first-IsHalved kept p) kept')

    pub put_fat12-Set :
        Ends (λ _. Set fat12 g v c val) (IsEditedAs fat12 g c v) (put_fat12 g c val v)
    unfolding put_fat12
    put_fat12-Set =
        let bc = u32 (c + c / 2) in
        Ends.bind (move_window-IsKept g has.placed (u32 (g.fatbase + bc / 512)) s)
          (λ w. Kept-IsEditedAs fat12 c)
          λ _ w (kept, at).
            let old : w.win (bc % 512) ≡ fat_byte g v (c + c / 2) =
              fat_byte-window g (bc / 512) (bc % 512) (c + c / 2) has kept
                (omega (arith, has.on_drive)) (omega arith) (omega (arith, has.on_drive))
                (omega arith) in
            let b0 = first_byte c val (w.win (bc % 512)) in
            let p =
              poke-IsPatched (u32 (g.fatbase + bc / 512)) (bc % 512) b0
                (g.fatbase * 512 + (c + c / 2)) kept.sound at (omega arith)
                (first_byte-lt c val (w.win (bc % 512))) (omega (arith, has.on_drive)) in
            let p' = IsPatched-of_eq p (ap (first_byte c val) old) in
            Ends.bind (move_window-IsKept g has.placed (u32 (g.fatbase + (bc + 1) / 512)) p.sound)
              (λ u kept'. between-IsEditedAs kept p' kept')
              λ _ u (kept', at').
                let now : u.win ((bc + 1) % 512) ≡ fat_byte g v (c + c / 2 + 1) =
                  fat_byte-window g ((bc + 1) / 512) ((bc + 1) % 512) (c + c / 2 + 1) has kept'
                    (omega (arith, has.on_drive)) (omega arith) (omega (arith, has.on_drive))
                    (omega arith)
                  ∙ unchanged kept p' in
                let b1 = second_byte c val (u.win ((bc + 1) % 512)) in
                let q =
                  poke-IsPatched (u32 (g.fatbase + (bc + 1) / 512)) ((bc + 1) % 512) b1
                    (g.fatbase * 512 + (c + c / 2 + 1)) kept'.sound at' (omega arith)
                    (second_byte-lt c val (u.win ((bc + 1) % 512)) (kept'.sound.win_bytes _))
                    (omega (arith, has.on_drive)) in
                returns (second-Set kept p' kept' (IsPatched-of_eq q (ap (second_byte c val) now)))
