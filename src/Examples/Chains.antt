-- ===== src/Examples/Chains.antt =====
-- The window, the FAT and cluster chains of the small volume.
use zephyr_fatfs_aflplusplus.Base.{
  ℕ, ◌≤◌, ◌<◌, ◌≡◌, ◌≢◌, ◌⊎◌, inl, inr, refl, arith, if◌then◌else◌, low_bits, [], ◌∷◌,
}
use zephyr_fatfs_aflplusplus.Volume.Ends.{Ends}
use zephyr_fatfs_aflplusplus.Window.{move_window}
use zephyr_fatfs_aflplusplus.Window.Laws.{IsKept, move_window-IsKept}
use zephyr_fatfs_aflplusplus.Fat.{get_fat, put_fat}
use zephyr_fatfs_aflplusplus.Fat.Entry.{entry, entry_of}
use zephyr_fatfs_aflplusplus.Fat.Get.{Got, Never, get_fat-entry}
use zephyr_fatfs_aflplusplus.Fat.Put.{IsEdited, put_fat-entry}
use zephyr_fatfs_aflplusplus.Chain.{remove_chain, create_chain}
use zephyr_fatfs_aflplusplus.Chain.Links.{is_in, IsChain}
use zephyr_fatfs_aflplusplus.Chain.Remove.{IsOutside, remove_chain-IsThinned}
use zephyr_fatfs_aflplusplus.Chain.Free.{count_all, remove_chain-IsReleased}
use zephyr_fatfs_aflplusplus.Chain.Create.{Created, create_chain-Created}
use zephyr_fatfs_aflplusplus.Examples.{
  floppy, mounted_floppy, floppy-HasFat, floppy-IsSound, no_cluster,
}

file-IsChain : IsChain 20 (entry floppy mounted_floppy) (2 ∷ [])
unfolding entry_of
file-IsChain = (omega arith, omega arith, ground arith)

move_window-IsKept_example :
    Ends
      (λ _ w. IsKept floppy mounted_floppy w × (w.winsect ≡ 2))
      (IsKept floppy mounted_floppy)
      (move_window floppy 2 mounted_floppy)
move_window-IsKept_example = move_window-IsKept floppy floppy-HasFat.placed 2 floppy-IsSound

get_fat-entry_example : Ends (Got floppy mounted_floppy 2) Never (get_fat floppy 2 mounted_floppy)
get_fat-entry_example =
    get_fat-entry floppy floppy-HasFat 2 floppy-IsSound (omega arith, omega arith)

put_fat-entry_example :
    Ends
      (λ _ w. IsEdited floppy 3 mounted_floppy w × (entry floppy w 3 ≡ low_bits 4 12))
      (IsEdited floppy 3 mounted_floppy)
      (put_fat floppy 3 4 mounted_floppy)
put_fat-entry_example =
    put_fat-entry floppy floppy-HasFat 3 4 floppy-IsSound (omega arith, omega arith)

remove_chain-IsThinned_example :
    Ends
      (λ _ w.
        IsOutside floppy mounted_floppy w
        × ((d : ℕ)
            → d ≢ 0
            → d < 20
            → (entry floppy w d ≡ entry floppy mounted_floppy d) ⊎ (entry floppy w d ≡ 0)))
      (IsOutside floppy mounted_floppy)
      (remove_chain floppy 2 0 mounted_floppy)
remove_chain-IsThinned_example =
    remove_chain-IsThinned floppy floppy-HasFat 2 0 floppy-IsSound (inl refl)

remove_chain-IsReleased_example :
    Ends
      (λ _ w.
        IsOutside floppy mounted_floppy w
        × ((d : ℕ)
            → d < 20
            → d ≢ 0
            → entry floppy w d ≡ (if is_in d (2 ∷ []) then 0 else entry floppy mounted_floppy d))
        × ((no_cluster ≡ 0) ⊎ (20 ≤ entry floppy w 0))
        × (w.free_clst ≡ count_all 20 1 17))
      (IsOutside floppy mounted_floppy)
      (remove_chain floppy 2 0 mounted_floppy)
remove_chain-IsReleased_example =
    remove_chain-IsReleased floppy floppy-HasFat 2 0 [] floppy-IsSound file-IsChain (inl refl) refl

create_chain-Created_example :
    Ends (Created floppy 2 mounted_floppy) Never (create_chain floppy 2 mounted_floppy)
create_chain-Created_example =
    create_chain-Created floppy floppy-HasFat 2 floppy-IsSound (omega arith)
      (inr (omega arith, omega arith))
