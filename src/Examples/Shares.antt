-- ===== src/Examples/Shares.antt =====
-- A table of two open objects of ff.c: one that two readers have open, and a blank entry.
use zephyr_fatfs_aflplusplus.Base.{ℕ, ◌<◌, ◌≤◌, ◌≡◌, ◌≢◌, refl, none, some, List, [], ◌∷◌, arith}
use zephyr_fatfs_aflplusplus.Share.{
  Object, Filesem, write_mode, blank, find_object, find_blank, chk_share, inc_share, dec_share,
}
use zephyr_fatfs_aflplusplus.Share.Access.{writing, reading, access, view_of, update, IsTable}
use zephyr_fatfs_aflplusplus.Share.Granted.{Granted, inc_share-Granted, inc_share_overflow}
use zephyr_fatfs_aflplusplus.Share.Released.{released, dec_share-released, dec_share-inc_share}

abbrev log_file : Object
log_file = record { fs = 1; clu = 0; ofs = 64 }

abbrev other_file : Object
other_file = record { fs = 1; clu = 7; ofs = 32 }

abbrev read_by : ℕ → List Filesem
read_by n = record { fs = some 1; clu = 0; ofs = 64; ctr = n } ∷ blank ∷ []

read_by-IsTable : (n : ℕ) → 0 < n → n ≤ write_mode → IsTable (read_by n)
read_by-IsTable n positive low =
    (λ o e. refl, λ e. (positive, low), (λ o e. refl, λ e. absurd (ground arith), tt))

unknown_object : view_of (read_by 2) other_file ≢ reading 0xFF
unfolding view_of
unknown_object e = ground arith

inc_share-Granted_example :
    Granted
      (read_by 2)
      other_file
      1
      (inc_share (read_by 2) other_file 1).0
      (inc_share (read_by 2) other_file 1).1
unfolding chk_share find_object find_blank
inc_share-Granted_example =
    inc_share-Granted (read_by 2) other_file 1 (read_by-IsTable 2 (omega arith) (omega arith))
      (omega arith) refl unknown_object

inc_share_overflow_example :
    (chk_share (read_by 0xFF) log_file 0 ≡ none)
    × (view_of (inc_share (read_by 0xFF) log_file 0).1 log_file ≡ writing)
unfolding view_of access
inc_share_overflow_example =
    inc_share_overflow (read_by 0xFF) log_file 0 (read_by-IsTable 0xFF (omega arith) (omega arith))
      refl refl

dec_share-released_example :
    ((dec_share (read_by 2) 1).0 ≡ none)
    × IsTable (dec_share (read_by 2) 1).1
    × ((p : Object)
        → view_of (dec_share (read_by 2) 1).1 p
          ≡ update (view_of (read_by 2)) log_file (released (view_of (read_by 2) log_file)) p)
dec_share-released_example =
    dec_share-released (read_by 2) log_file 1 (read_by-IsTable 2 (omega arith) (omega arith))
      (omega arith) (omega arith) (omega arith) refl

dec_share-inc_share_example :
    view_of
      (dec_share (inc_share (read_by 2) other_file 1).1 (inc_share (read_by 2) other_file 1).0).1
      log_file
    ≡ view_of (read_by 2) log_file
unfolding chk_share find_object find_blank
dec_share-inc_share_example =
    dec_share-inc_share (read_by 2) other_file 1 (read_by-IsTable 2 (omega arith) (omega arith))
      (omega arith) (omega arith) refl unknown_object log_file
