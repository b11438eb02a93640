-- ===== src/Chain/Search.antt =====
-- The search of `create_chain` in ff.c for a free cluster.
use zephyr_fatfs_aflplusplus.Base.{
  ℕ, zero, suc, ◌+◌, ◌-◌, ◌≤◌, ◌<◌, ◌≡◌, ◌≢◌, ◌⊎◌, inl, inr, refl, sym, ◌∙◌, arith, ltb, leb, ◌==◌,
  if◌then◌else◌, ◌||◌, ◌&&◌, Bool-cases, true, false,
}
use zephyr_fatfs_aflplusplus.Volume.{Geometry, Fatfs, done}
use zephyr_fatfs_aflplusplus.Volume.Ends
use zephyr_fatfs_aflplusplus.Volume.Ends.{Ends, returns}
use zephyr_fatfs_aflplusplus.Window.Laws.{IsSound, IsKept, IsKept-trans, IsKept-refl}
use zephyr_fatfs_aflplusplus.Fat.{disk_error}
use zephyr_fatfs_aflplusplus.Fat.Entry.{HasFat, IsCluster, entry, entry-kept}
use zephyr_fatfs_aflplusplus.Fat.Get.{Never, get_fat-entry}
use zephyr_fatfs_aflplusplus.Chain.{Pick, found, stop, search_loop}

-- What an outcome of the search says of the table `f` of `n` entries: a free cluster, or the value 0
-- and none is free, or the value of a bad entry or a disk error.
abbrev pub Picked : ℕ → (ℕ → ℕ) → Pick → Type 0
Picked n f (found c) = (2 ≤ c) × (c < n) × (f c ≡ 0)
Picked n f (stop r) = ((r ≡ 0) × ((d : ℕ) → 2 ≤ d → d < n → f d ≢ 0)) ⊎ ((r ≡ 1) ⊎ (r ≡ disk_error))

pub Picked-ext :
    (n : ℕ) (f f' : ℕ → ℕ) (p : Pick)
    → ((d : ℕ) → d < n → f' d ≡ f d)
    → Picked n f' p
    → Picked n f p
Picked-ext n f f' (found c) same h = ground (arith, same c)
Picked-ext n f f' (stop r) same (inl h) =
    inl (h.0, λ d low high e. h.1 d low high (same d high ∙ e))
Picked-ext n f f' (stop r) same (inr h) = inr h

-- The clusters looked at between `scl` and `ncl`, going up and round, are in use.
abbrev pub Seen : ℕ → (ℕ → ℕ) → ℕ → ℕ → Type 0
Seen n f scl ncl =
    (d : ℕ)
    → 2 ≤ d
    → d < n
    → ((scl ≤ ncl) × (scl < d) × (d ≤ ncl)) ⊎ ((ncl < scl) × ((scl < d) ⊎ (d ≤ ncl)))
    → f d ≢ 0

-- The rounds left, at most.
abbrev pub rounds : ℕ → ℕ → ℕ → ℕ
rounds n scl ncl = if ltb ncl scl then scl - ncl else (n - ncl) + scl

-- The cluster that is looked at after `ncl`.
abbrev pub next : ℕ → ℕ → ℕ
next n ncl = if leb n (ncl + 1) then 2 else ncl + 1

module _ (n : ℕ) (f : ℕ → ℕ) (scl ncl : ℕ) (hs : (1 ≤ scl) × (scl < n)) (hn : (1 ≤ ncl) × (ncl < n))
    (seen : Seen n f scl ncl) where
  all_if_full : (leb n (ncl + 1) && ltb scl 2) ≡ true → (d : ℕ) → 2 ≤ d → d < n → f d ≢ 0
  all_if_full full d low high = seen d low high (ground arith)

  module _ (more : (leb n (ncl + 1) && ltb scl 2) ≡ false) where
    next_bounds : (2 ≤ next n ncl) × (next n ncl < n)
    next_bounds = ground arith

    rounds-next : next n ncl ≢ scl → rounds n scl (next n ncl) < rounds n scl ncl
    rounds-next ne = ground arith

    Seen-next : f (next n ncl) ≢ 0 → next n ncl ≢ scl → Seen n f scl (next n ncl)
    Seen-next used ne d low high where_ = elim (Bool-cases (d == next n ncl)) [
      | inl e ↦ λ z. used (ground arith)
      | inr e ↦ seen d low high (ground arith)
    ]

    all_if_round : f (next n ncl) ≢ 0 → next n ncl ≡ scl → (d : ℕ) → 2 ≤ d → d < n → f d ≢ 0
    all_if_round used end d low high = elim (Bool-cases (d == next n ncl)) [
      | inl e ↦ λ z. used (ground arith)
      | inr e ↦ seen d low high (ground arith)
    ]

module _ (g : Geometry) (has : HasFat g) where
  pub search_loop-Picked :
      (fuel scl ncl : ℕ) {v : Fatfs}
      → IsSound v
      → (1 ≤ scl) × (scl < g.n_fatent)
      → (1 ≤ ncl) × (ncl < g.n_fatent)
      → Seen g.n_fatent (entry g v) scl ncl
      → rounds g.n_fatent scl ncl < fuel
      → Ends
          (λ p w. IsKept g v w × Picked g.n_fatent (entry g v) p)
          Never
          (search_loop g fuel scl ncl v)
  unfolding search_loop
  search_loop-Picked zero scl ncl s hs hn seen enough = absurd (omega arith)
  search_loop-Picked (suc fuel) scl ncl {v} s hs hn seen enough =
      let n = g.n_fatent in
      let f = entry g v in
      let c = next n ncl in
      elim (Bool-cases (leb n (ncl + 1) && ltb scl 2)) [
        | inl full ↦
            Ends.by_eq {r' = done (stop 0) v} (ground arith)
              (returns (IsKept-refl g s, inl (refl, all_if_full n f scl ncl hs hn seen full)))
        | inr more ↦
            let inside : IsCluster g c = next_bounds n f scl ncl hs hn seen more in
            rw more (
              Ends.bind (get_fat-entry g has c s inside) (λ w never. never)
                λ cs w (kept, got). elim (Bool-cases (cs == 0)) [
                  | inl free ↦ rw free (returns (kept, (inside.0, inside.1, ground arith)))
                  | inr live ↦ elim (Bool-cases (cs == 1 || cs == disk_error)) [
                    | inl bad ↦ rw (live, bad) (returns (kept, inr (ground arith)))
                    | inr good ↦
                        let used : f c ≢ 0 = ground arith in
                        elim (Bool-cases (c == scl)) [
                          | inl end ↦
                              rw (live, good, end)
                                (returns (
                                  kept,
                                  inl (
                                    refl,
                                    all_if_round n f scl ncl hs hn seen more used (ground arith),
                                  ),
                                ))
                          | inr on ↦
                              rw (live, good, on)
                                (Ends.mono
                                  (search_loop-Picked fuel scl c kept.sound hs (ground arith)
                                    (λ d low high at e.
                                      Seen-next n f scl ncl hs hn seen more used (ground arith) d
                                        low high at (sym (entry-kept g d has kept high) ∙ e))
                                    (omega (
                                      arith,
                                      rounds-next n f scl ncl hs hn seen more (ground arith),
                                    )))
                                  (λ p u (kept', picked). (
                                    IsKept-trans g kept kept',
                                    Picked-ext n f (entry g w) p
                                        (λ d low. entry-kept g d has kept low) picked,
                                  ))
                                  (λ u never. never))
                        ]
                  ]
                ])
      ]
