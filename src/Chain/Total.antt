-- ===== src/Chain/Total.antt =====
-- `create_chain` of ff.c on any number.
use zephyr_fatfs_aflplusplus.Base.{ℕ, ◌<◌, inl, inr, arith, ltb, leb, ◌==◌, ◌&&◌, ◌||◌, Bool-cases}
use zephyr_fatfs_aflplusplus.Volume.{Geometry, Fatfs, done}
use zephyr_fatfs_aflplusplus.Volume.Ends
use zephyr_fatfs_aflplusplus.Volume.Ends.{Ends, returns}
use zephyr_fatfs_aflplusplus.Window.Laws.{IsSound}
use zephyr_fatfs_aflplusplus.Fat.{internal_error}
use zephyr_fatfs_aflplusplus.Fat.Entry.{HasFat}
use zephyr_fatfs_aflplusplus.Fat.Get.{Never, get_fat_out_of_range}
use zephyr_fatfs_aflplusplus.Chain.{create_chain}
use zephyr_fatfs_aflplusplus.Chain.Create.{
  Created, follows, grows, full, broken, create_chain-Created,
}

module _ (g : Geometry) (has : HasFat g) (some_cluster : 2 < g.n_fatent) where
  pub Created-IsSound : {clst r : ℕ} {v w : Fatfs} → Created g clst v r w → IsSound w
  Created-IsSound (follows a b c k) = k.sound
  Created-IsSound (grows grown a b) = grown.outside.sound
  Created-IsSound (full a k b) = k.sound
  Created-IsSound (broken a out) = out.sound

  -- On a number that is no cluster `create_chain` gives an error value.
  pub create_chain_any :
      (clst : ℕ) {v : Fatfs} → IsSound v → Ends (λ r w. IsSound w) Never (create_chain g clst v)
  unfolding create_chain
  create_chain_any clst {v} s =
      elim (Bool-cases (clst == 0 || (leb 2 clst && ltb clst g.n_fatent))) [
        | inl inside ↦
            Ends.mono (create_chain-Created g has clst s some_cluster (ground arith))
              (λ r w made. Created-IsSound made) (λ w never. never)
        | inr outside ↦
            Ends.by_eq {r' = done internal_error v} (ground (arith, get_fat_out_of_range g clst v))
              (returns s)
      ]
