-- ===== src/Mount/Locate.antt =====
-- `check_fs` and `find_volume` of ff.c: which sector they end at.
use zephyr_fatfs_aflplusplus.Base.{
  ℕ, ◌≡◌, ◌≢◌, ◌⊎◌, inl, inr, refl, true, false, arith, leb, List, [], ◌∷◌, ◌==◌, if◌then◌else◌,
  Bool-cases, ap, sym, ◌∙◌, subst, ◌≤◌, ◌<◌,
}
use zephyr_fatfs_aflplusplus.Diskio.{Bytes, AreBytes, disk_sectors}
use zephyr_fatfs_aflplusplus.Volume.{Geometry, Fatfs, return, done}
use zephyr_fatfs_aflplusplus.Volume.Ends
use zephyr_fatfs_aflplusplus.Volume.Ends.{Ends, returns, fails}
use zephyr_fatfs_aflplusplus.Window.{no_sector, move_window}
use zephyr_fatfs_aflplusplus.Boot.{boot_kind}
use zephyr_fatfs_aflplusplus.Mount.{check_fs, scan_partitions, find_volume}
use zephyr_fatfs_aflplusplus.Mount.Found.{
  sector, starts, IsBootRecord, IsOther, IsFirst, IsBoot, other_no_record,
}
use zephyr_fatfs_aflplusplus.Mount.Probe.{Never, IsClean, move-IsClean, forgotten-IsClean}

-- A clean window over the drive `d`.
pub record IsOver (d : Bytes) (v : Fatfs) : Type 0 where
  pub clean : IsClean v
  pub drive : v.disk ≡ d

-- The window has the bytes of the sector it names.
abbrev pub HasSector : Bytes → ℕ → Fatfs → Type 0
HasSector d s v = (v.winsect ≡ s) × (v.win ≡ sector d s)

-- The window has no boot record of a volume.
abbrev IsBad : Fatfs → Type 0
IsBad v = leb 2 (boot_kind v.win) ≡ true

-- What `check_fs` finds at a sector: its contents, or nothing beyond the drive.
abbrev Checked : Bytes → ℕ → ℕ → Fatfs → Type 0
Checked d sect fmt v =
    ((sect < disk_sectors) × (fmt ≡ boot_kind (sector d sect)) × HasSector d sect v)
    ⊎ ((disk_sectors ≤ sect) × (leb 2 fmt ≡ true) × IsBad v)

-- The scan ends at the first partition with a volume, or there is none.
abbrev Scanned : Bytes → List ℕ → ℕ → Fatfs → Type 0
Scanned d ps fmt v =
    ((leb 2 fmt ≡ false) × IsFirst d v.winsect ps × (v.win ≡ sector d v.winsect))
    ⊎ ((leb 2 fmt ≡ true) × ((s : ℕ) → IsFirst d s ps → ⊥))

-- A partition that has no volume.
abbrev Passed : Bytes → ℕ → ℕ → Fatfs → Type 0
Passed d p fmt v =
    ((leb 2 fmt ≡ false) × (p ≢ 0) × IsBootRecord d p × HasSector d p v)
    ⊎ ((leb 2 fmt ≡ true) × IsOther d p × IsBad v)

-- The sector of the boot record is in the window, or there is none.
abbrev pub Located : Bytes → ℕ → Fatfs → Type 0
Located d fmt v =
    ((leb 2 fmt ≡ false) × IsBoot d v.winsect × (v.win ≡ sector d v.winsect))
    ⊎ ((leb 2 fmt ≡ true) × ((s : ℕ) → IsBoot d s → ⊥))

module _ (g : Geometry) (d : Bytes) (bytes : AreBytes d) where
  check_fs-Checked :
      (sect : ℕ) (v : Fatfs)
      → AreBytes v.win
      → v.disk ≡ d
      → (sect < disk_sectors) ⊎ IsBad v
      → Ends (λ fmt w. IsOver d w × Checked d sect fmt w) Never (check_fs g sect v)
  unfolding check_fs move_window
  check_fs-Checked sect v letters same why =
      let v0 : Fatfs = record v { wflag = false; winsect = no_sector } in
      let c : IsClean v0 =
        forgotten-IsClean g v letters
          (λ a. subst (λ (p : Bytes). p a < 256) (sym same) (bytes a)) in
      elim (Bool-cases (sect == no_sector)) [
        | inl none_there ↦ elim why [
          | inl low ↦ absurd (ground arith)
          | inr bad ↦
              Ends.by_eq {r' = done (boot_kind v.win) v0} (rw none_there refl)
                (returns ((record { clean = c; drive = same }), inr (ground arith, bad, bad)))
        ]
        | inr there ↦
            Ends.handle (move-IsClean g sect c (ground arith))
              (λ e w (cw, dw, high, ww). elim why [
                | inl low ↦ absurd (omega arith)
                | inr bad ↦ returns (
                  (record { clean = cw; drive = dw ∙ same }),
                  inr (high, refl, ap (λ (p : Bytes). leb 2 (boot_kind p)) ww ∙ bad),
                )
              ])
              (λ _ w (cw, dw, low, at, ww).
                let is : w.win ≡ sector d sect = ww ∙ ap (λ (p : Bytes). sector p sect) same in
                returns (
                  (record { clean = cw; drive = dw ∙ same }),
                  inl (low, ap boot_kind is, (at, is)),
                ))
      ]

  probe-Passed :
      (p : ℕ) {v : Fatfs}
      → IsOver d v
      → IsBad v
      → Ends
          (λ fmt w. IsOver d w × Passed d p fmt w)
          Never
          ((if p == 0 then return 3 else check_fs g p) v)
  probe-Passed p {v} o bad = elim (Bool-cases (p == 0)) [
    | inl e ↦ rw e (returns (o, inr (refl, inl (ground (arith, e)), bad)))
    | inr e ↦ rw e (
        Ends.mono (check_fs-Checked p v o.clean.sound.win_bytes o.drive (inr bad))
          (λ fmt w (ow, c). (ow, passed e fmt w c)) (λ w never. never))
  ]
    where
      passed : ((p == 0) ≡ false) → (fmt : ℕ) (w : Fatfs) → Checked d p fmt w → Passed d p fmt w
      passed ne fmt w (inr (high, h, b)) = inr (h, inr (inl high), b)
      passed ne fmt w (inl (low, is, (at, ww))) = elim (Bool-cases (leb 2 fmt)) [
        | inl more ↦ inr (
          more,
          inr (inr (ap (λ k. leb 2 k) (sym is) ∙ more)),
          ap (λ (q : Bytes). leb 2 (boot_kind q)) ww ∙ (ap (λ k. leb 2 k) (sym is) ∙ more),
        )
        | inr good ↦ inl (good, ground arith, (low, ap (λ k. leb 2 k) (sym is) ∙ good), (at, ww))
      ]

  scan_partitions-Scanned :
      (ps : List ℕ) (fmt : ℕ) {v : Fatfs}
      → IsOver d v
      → IsBad v
      → leb 2 fmt ≡ true
      → Ends (λ fmt w. IsOver d w × Scanned d ps fmt w) Never (scan_partitions g ps fmt v)
  unfolding scan_partitions
  scan_partitions-Scanned [] fmt o bad more = returns (o, inr (more, λ s never. never))
  scan_partitions-Scanned (p ∷ ps) fmt {v} o bad more =
      Ends.bind {R' = Never} (probe-Passed p o bad) (λ w never. never)
        λ fmt' w (ow, passed). elim passed [
          | inl (good, there, record_there, (at, is)) ↦ rw good (
              returns (
                ow,
                inl (good, inl (at, (there, record_there)), is ∙ ap (λ k. sector d k) (sym at)),
              ))
          | inr (more', other, bad') ↦ rw more' (
              Ends.mono (scan_partitions-Scanned ps fmt' ow bad' more')
                (λ fmt2 u (ou, h). (
                  ou,
                  elim h [
                    | inl (good, first, is) ↦ inl (good, inr (other, first), is)
                    | inr (worse, nowhere) ↦
                        inr (worse, λ s first. no_first p s other nowhere first)
                  ],
                ))
                (λ w never. never))
        ]
    where
      no_first : (p s : ℕ) → IsOther d p → ((s : ℕ) → IsFirst d s ps → ⊥) → IsFirst d s (p ∷ ps) → ⊥
      no_first p s other nowhere (inl (e, (there, h))) = other_no_record d p other there h
      no_first p s other nowhere (inr (other', first)) = nowhere s first

  pub find_volume-Located :
      (v : Fatfs)
      → AreBytes v.win
      → v.disk ≡ d
      → Ends (λ fmt w. IsOver d w × Located d fmt w) Never (find_volume g v)
  unfolding find_volume
  find_volume-Located v letters same =
      Ends.bind (check_fs-Checked 0 v letters same (inl (omega arith))) (λ w never. never)
        λ fmt w (ow, checked). elim checked [
          | inr (high, _, _) ↦ absurd (omega arith)
          | inl (low, kind, (at, is)) ↦ elim (Bool-cases (fmt == 2)) [
            | inl mbr ↦
                let two : fmt ≡ 2 = ground (arith, mbr) in
                let more : leb 2 fmt ≡ true = ap (λ k. leb 2 k) two in
                rw mbr (
                  Ends.by_eq (ap (λ (q : Bytes). scan_partitions g (starts q) fmt w) is) (
                    Ends.mono
                      (scan_partitions-Scanned (starts (sector d 0)) fmt ow
                        (ap (λ (q : Bytes). leb 2 (boot_kind q)) is
                          ∙ (ap (λ k. leb 2 k) (sym kind) ∙ more))
                        more)
                      (λ fmt2 u (ou, h). (ou, scanned (sym kind ∙ two) fmt2 u h))
                      (λ w never. never)))
            | inr direct ↦ rw direct (returns (ow, at_once fmt w low kind at is direct))
          ]
        ]
    where
      scanned :
          boot_kind (sector d 0) ≡ 2
          → (fmt : ℕ) (u : Fatfs) → Scanned d (starts (sector d 0)) fmt u
          → Located d fmt u
      scanned mbr fmt u (inl (good, first, is)) = inl (good, inr (mbr, first), is)
      scanned mbr fmt u (inr (more, nowhere)) = inr (
        more,
        λ s boot. elim boot [
          | inl (e, (low, h)) ↦ absurd (ground (arith, ap (λ k. leb 2 k) mbr, h))
          | inr (_, first) ↦ nowhere s first
        ],
      )

      at_once :
          (fmt : ℕ) (w : Fatfs)
          → 0 < disk_sectors
          → fmt ≡ boot_kind (sector d 0)
          → w.winsect ≡ 0
          → w.win ≡ sector d 0
          → (fmt == 2) ≡ false
          → Located d fmt w
      at_once fmt w low kind at is direct = elim (Bool-cases (leb 2 fmt)) [
        | inl more ↦ inr (
          more,
          λ s boot. elim boot [
            | inl (e, (low2, h)) ↦ absurd (ground (arith, ap (λ k. leb 2 k) kind, more, h))
            | inr (two, first) ↦ absurd (ground (arith, kind ∙ two, direct))
          ],
        )
        | inr good ↦ inl (
          good,
          inl (at, (low, ap (λ k. leb 2 k) (sym kind) ∙ good)),
          is ∙ ap (λ k. sector d k) (sym at),
        )
      ]
