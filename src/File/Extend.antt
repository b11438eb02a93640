-- ===== src/File/Extend.antt =====
-- `f_write` of ff.c: its rounds.
use zephyr_fatfs_aflplusplus.Base.{
  ℕ, ◌+◌, ◌-◌, ◌*◌, ◌/◌, ◌%◌, ◌≤◌, ◌<◌, ◌≡◌, ◌⊎◌, inl, inr, refl, true, false, arith, ltb, leb,
  ◌==◌, if◌then◌else◌, Bool-cases, ltb→lt, u32, sub32, ap, bit_and-le,
}
use zephyr_fatfs_aflplusplus.Diskio.{AreBytes, Bytes, disk_sectors, memcpy}
use zephyr_fatfs_aflplusplus.Diskio.Laws.{disk_write-sectors}
use zephyr_fatfs_aflplusplus.Volume.{Geometry, Fatfs, int_err, return}
use zephyr_fatfs_aflplusplus.Volume.Ends
use zephyr_fatfs_aflplusplus.Volume.Ends.{Ends, returns}
use zephyr_fatfs_aflplusplus.Window.{clst2sect, move_window}
use zephyr_fatfs_aflplusplus.Window.Laws.{IsSound, sync_window-IsKept, move_window-IsKept}
use zephyr_fatfs_aflplusplus.Fat.{poke}
use zephyr_fatfs_aflplusplus.Fat.Entry.{HasFat}
use zephyr_fatfs_aflplusplus.Fat.Get.{Never}
use zephyr_fatfs_aflplusplus.Dir.Start.{HasClusters}
use zephyr_fatfs_aflplusplus.File.{File, Round, moved, stopped, aborted, sector_in_cluster}
use zephyr_fatfs_aflplusplus.File.Write.{write_partial, write_direct, write_edge, write_sector}

-- What a round for `btw` bytes comes to.
abbrev pub Wrote : File → ℕ → Round → Fatfs → Type 0
Wrote f btw (moved f' chunk n) w =
    IsSound w × (1 ≤ n) × (n ≤ btw) × (f'.fptr ≡ f.fptr) × (f'.objsize ≡ f.objsize)
Wrote f btw (stopped f') w = IsSound w × (f'.fptr ≡ f.fptr) × (f'.objsize ≡ f.objsize)
Wrote f btw (aborted e f') w = IsSound w × (f'.fptr ≡ f.fptr) × (f'.objsize ≡ f.objsize)

-- A changed window is sound, whatever it holds.
pub poke-IsSound : (v : Fatfs) (p : Bytes) → AreBytes p → AreBytes v.disk → IsSound (poke p v)
poke-IsSound v p bytes disk = record {
  coherent = λ a clean. absurd (ground arith);
  win_bytes = bytes;
  disk_bytes = disk;
}

pub memcpy-AreBytes :
    (d : Bytes) (at : ℕ) (s : Bytes) (n : ℕ) → AreBytes d → AreBytes s → AreBytes (memcpy d at s n)
unfolding memcpy
memcpy-AreBytes d at s n hd hs i = ground (arith, hd i, hs (i - at))

direct-IsSound :
    {v : Fatfs} (d src : Bytes) (sect n : ℕ)
    → IsSound v
    → AreBytes src
    → sect + n ≤ disk_sectors
    → ((a : ℕ)
        → ((sect * 512 ≤ a) × (a < (sect + n) * 512) × (d a ≡ src (a - sect * 512)))
          ⊎ (((a < sect * 512) ⊎ ((sect + n) * 512 ≤ a)) × (d a ≡ v.disk a)))
    → IsSound (record v {
      disk = d;
      win =
          if ltb (sub32 v.winsect sect) n
          then memcpy v.win 0 (λ i. src (sub32 v.winsect sect * 512 + i)) 512
          else v.win;
      wflag = if ltb (sub32 v.winsect sect) n then false else v.wflag;
    })
unfolding memcpy
direct-IsSound {v} d src sect n s bytes fits at = record {
  coherent = λ a clean low here. coherent a clean low here;
  win_bytes = λ i. ground (arith, s.win_bytes i, bytes (sub32 v.winsect sect * 512 + (i - 0)));
  disk_bytes = λ a. ground (arith, at a, bytes (a - sect * 512), s.disk_bytes a);
}
  where
    coherent :
        (a : ℕ)
        → (if ltb (sub32 v.winsect sect) n then false else v.wflag) ≡ false
        → v.winsect < disk_sectors
        → a / 512 ≡ v.winsect
        → d a
          ≡ (if ltb (sub32 v.winsect sect) n
                then memcpy v.win 0 (λ i. src (sub32 v.winsect sect * 512 + i)) 512
                else v.win)
              (a % 512)
    coherent a clean low here = elim (Bool-cases (ltb (sub32 v.winsect sect) n)) [
      | inl inside ↦
          let index : a - sect * 512 ≡ sub32 v.winsect sect * 512 + (a % 512 - 0) =
            omega (arith, ltb→lt _ _ inside) in
          rw inside (ground (arith, at a, ap src index))
      | inr outside ↦ rw outside (ground (arith, at a, s.coherent a))
    ]

module _ (g : Geometry) (has : HasFat g) (sized : HasClusters g) where
  -- The window moves to the sector and changes in part.
  pub write_partial-Wrote :
      (f f' : File) (src : Bytes) (btw : ℕ) {v : Fatfs}
      → IsSound v
      → AreBytes src
      → 1 ≤ btw
      → (f'.fptr ≡ f.fptr) × (f'.objsize ≡ f.objsize)
      → Ends (Wrote f btw) Never (write_partial g f' src btw v)
  unfolding write_partial
  write_partial-Wrote f f' src btw s bytes some_bytes same =
      Ends.handle (move_window-IsKept g has.placed f'.sect s)
        (λ e u k. returns (k.sound, same.0, same.1))
        (λ _ u (k, at). returns (
          poke-IsSound u _ (memcpy-AreBytes u.win _ src _ k.sound.win_bytes bytes)
              k.sound.disk_bytes,
          ground arith,
          ground arith,
          same.0,
          same.1,
        ))

  -- The same where the window is given the sector without a read: the move is none.
  write_here-Wrote :
      (f f' : File) (src : Bytes) (btw : ℕ) (v : Fatfs)
      → AreBytes v.win
      → AreBytes v.disk
      → AreBytes src
      → 1 ≤ btw
      → v.winsect ≡ f'.sect
      → (f'.fptr ≡ f.fptr) × (f'.objsize ≡ f.objsize)
      → Ends (Wrote f btw) Never (write_partial g f' src btw v)
  unfolding write_partial move_window
  write_here-Wrote f f' src btw v win disk bytes some_bytes here same =
      let at : (f'.sect == v.winsect) ≡ true = ground arith in
      rw at (
        returns (
          poke-IsSound v _ (memcpy-AreBytes v.win _ src _ win bytes) disk,
          ground arith,
          ground arith,
          same.0,
          same.1,
        ))

  write_direct-Wrote :
      (f f' : File) (sect n btw : ℕ) (src : Bytes) {v : Fatfs}
      → IsSound v
      → AreBytes src
      → (1 ≤ n) × (512 * n ≤ btw)
      → (f'.fptr ≡ f.fptr) × (f'.objsize ≡ f.objsize)
      → Ends (Wrote f btw) Never (write_direct g f' sect n src v)
  unfolding write_direct
  write_direct-Wrote f f' sect n btw src {v} s bytes fits same =
      elim (disk_write-sectors v.disk src sect n) [
        | inl e ↦ rw (write_direct, e) (returns (s, same.0, same.1))
        | inr (d, e, on_drive, at) ↦
            rw (write_direct, e)
              (returns (
                direct-IsSound d src sect n s bytes on_drive at,
                omega arith,
                omega arith,
                same.0,
                same.1,
              ))
      ]

  write_edge-Wrote :
      (f f' : File) (sect : ℕ) (src : Bytes) (btw : ℕ) {v : Fatfs}
      → IsSound v
      → AreBytes src
      → 1 ≤ btw
      → (f'.fptr ≡ f.fptr) × (f'.objsize ≡ f.objsize)
      → Ends (Wrote f btw) Never (write_edge g f' sect src btw v)
  unfolding write_edge
  write_edge-Wrote f f' sect src btw s bytes some_bytes same =
      elim (Bool-cases (leb f'.objsize f'.fptr)) [
        | inl edge ↦ rw edge (
            Ends.handle (sync_window-IsKept g has.placed s)
              (λ e u is. rw is (returns (s, same.0, same.1)))
              (λ _ u (k, _, _, _).
                write_here-Wrote f (record f' { sect = sect }) src btw (record u { winsect = sect })
                  k.sound.win_bytes k.sound.disk_bytes bytes some_bytes refl same))
        | inr inside ↦
            rw inside
              (write_partial-Wrote f (record f' { sect = sect }) src btw s bytes some_bytes same)
      ]

  pub write_sector-Wrote :
      (f f' : File) (src : Bytes) (btw : ℕ) {v : Fatfs}
      → IsSound v
      → AreBytes src
      → 1 ≤ btw
      → (f'.fptr ≡ f.fptr) × (f'.objsize ≡ f.objsize)
      → Ends (Wrote f btw) Never (write_sector g f' src btw v)
  unfolding write_sector
  write_sector-Wrote f f' src btw {v} s bytes some_bytes same =
      elim (Bool-cases (v.winsect == f'.sect)) [
        | inl held ↦ rw held (
            Ends.handle (sync_window-IsKept g has.placed s)
              (λ e u is. rw is (returns (s, same.0, same.1)))
              (λ _ u (k, _, _, _). onward u k.sound))
        | inr apart ↦ rw apart (onward v s)
      ]
    where
      csect : ℕ
      csect = sector_in_cluster g f'.fptr

      inside : csect < g.csize
      inside = omega (arith, bit_and-le (f'.fptr / 512) (sub32 g.csize 1), sized)

      onward :
          (u : Fatfs)
          → IsSound u
          → Ends (Wrote f btw) Never (
              (if clst2sect g f'.clust == 0
                  then return (aborted int_err f')
                  else if ltb 0 (btw / 512)
                  then write_direct g f'
                      (u32 (clst2sect g f'.clust + csect))
                      (if ltb g.csize (csect + btw / 512) then g.csize - csect else btw / 512)
                      src
                  else write_edge g f' (u32 (clst2sect g f'.clust + csect)) src btw)
                u)
      onward u su = elim (Bool-cases (clst2sect g f'.clust == 0)) [
        | inl wrong ↦ rw wrong (returns (su, same.0, same.1))
        | inr there ↦ elim (Bool-cases (ltb 0 (btw / 512))) [
          | inr part ↦ rw (there, part) (write_edge-Wrote f f' _ src btw su bytes some_bytes same)
          | inl whole ↦ elim (Bool-cases (ltb g.csize (csect + btw / 512))) [
            | inl clipped ↦
                rw (there, whole, clipped)
                  (write_direct-Wrote f f' _ (g.csize - csect) btw src su bytes
                    (ground (arith, inside)) same)
            | inr fits ↦
                rw (there, whole, fits)
                  (write_direct-Wrote f f' _ (btw / 512) btw src su bytes (ground (arith, inside))
                    same)
          ]
        ]
      ]
