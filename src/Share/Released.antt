-- ===== src/Share/Released.antt =====
-- `dec_share` and `clear_share` of ff.c on the abstract view of the table, and `dec_share` after
-- `inc_share`.
use zephyr_fatfs_aflplusplus.Base.{
  ℕ, zero, suc, ◌-◌, ◌^◌, ◌<◌, ◌≤◌, ◌≡◌, ◌≢◌, refl, ap, subst, ◌∙◌, inl, inr, true, none, List, [],
  ◌∷◌, arith, ◌==◌, if◌then◌else◌, Bool-cases,
}
use zephyr_fatfs_aflplusplus.Share.{
  Object, Filesem, is_same, size, at, set, find_object, lowered, chk_share, inc_share, dec_share,
  clear_share,
}
use zephyr_fatfs_aflplusplus.Share.Access.{
  Access, closed, writing, reading, access, view_of, same_object, update, IsTable, find_object-le,
  find_object-found, find_object-missing, same_object-is_same, is_open-at, view_of-set_other,
  view_of-set_gone, set-IsTable, at-bounds,
}
use zephyr_fatfs_aflplusplus.Share.Granted.{opened, same_object-eq, set-update, inc_share-Granted}

-- An object closed once.
abbrev pub released : Access → Access
released closed = closed
released writing = closed
released (reading n) = if n == 1 then closed else reading (n - 1)

view_of-at :
    (t : List Filesem) (i : ℕ) (o : Object)
    → IsTable t
    → is_same (at t i) o ≡ true
    → view_of t o ≡ access (at t i).ctr
unfolding view_of
view_of-at [] i o inv h = absurd (ground arith)
view_of-at (s ∷ t) zero o inv h = ground arith
view_of-at (s ∷ t) (suc i) o inv h =
    ground (arith, view_of-at t i o inv.2 h, inv.0 o, is_open-at t i o h)

module _ (t : List Filesem) (o : Object) (i : ℕ) (inv : IsTable t) (low : i < size t)
    (here : is_same (at t i) o ≡ true) where
  lowered_view :
      (s' : Filesem)
      → s' ≡ record (at t i) {
        ctr = lowered (at t i).ctr;
        fs = if lowered (at t i).ctr == 0 then none else (at t i).fs;
      }
      → IsTable (set t i s')
        × ((p : Object) → view_of (set t i s') p ≡ update (view_of t) o (released (view_of t o)) p)
  unfolding access
  lowered_view s' is =
      let was = view_of-at t i o inv here in
      let bounds = at-bounds t i inv (ground arith) in
      let only : (p : Object) → is_same (at t i) p ≡ true → same_object p o ≡ true =
        λ p same. ground arith in
      elim (Bool-cases (lowered (at t i).ctr == 0)) [
        | inl last ↦ (
          set-IsTable t i s' inv low (λ b. absurd (ground arith)) (λ p e. absurd (ground arith)),
          λ p. elim (Bool-cases (same_object p o)) [
            | inl same ↦ rw same (
                view_of-set_gone t i s' p inv low (ground arith)
                  (same_object-is_same (at t i) p o here ∙ same)
                ∙ ground arith)
            | inr other ↦ rw other (
                view_of-set_other t i s' p (same_object-is_same (at t i) p o here ∙ other)
                  (ground arith))
          ],
        )
        | inr more ↦ (
          set-IsTable t i s' inv low (λ b. ground arith) (λ p e. inl (ground arith)),
          λ p.
              set-update t i s' o inv low (ground arith) only (inl here) p
              ∙ ap (λ a. update (view_of t) o a p) (ground arith),
        )
      ]

-- Closing an object by the id of its entry removes one reader, or the writer; all other objects are
-- as they were, and the table stays well-formed.
pub dec_share-released :
    (t : List Filesem) (o : Object) (id : ℕ)
    → IsTable t
    → 0 < id
    → id ≤ size t
    → size t < 2 ^ 32
    → is_same (at t (id - 1)) o ≡ true
    → ((dec_share t id).0 ≡ none)
      × IsTable (dec_share t id).1
      × ((p : Object)
          → view_of (dec_share t id).1 p ≡ update (view_of t) o (released (view_of t o)) p)
unfolding dec_share
dec_share-released t o id inv positive low small here =
    let s = at t (id - 1) in
    let n = lowered s.ctr in
    let s' = record s { ctr = n; fs = if n == 0 then none else s.fs } in
    let e : dec_share t id ≡ (none, set t (id - 1) s') = ground arith in
    let (table, view) = lowered_view t o (id - 1) inv (omega arith) here s' refl in
    rw e (refl, table, view)

-- Unmounting a volume closes the objects on it and no others.
pub clear_share-closed :
    (t : List Filesem) (fs : ℕ) (p : Object)
    → view_of (clear_share t fs) p ≡ (if p.fs == fs then closed else view_of t p)
unfolding clear_share view_of
clear_share-closed [] fs p = ground arith
clear_share-closed (s ∷ t) fs p = ground (arith, clear_share-closed t fs p)

open_is_allowed :
    (t : List Filesem) (o : Object) (acc : ℕ)
    → IsTable t
    → acc ≤ 1
    → chk_share t o acc ≡ none
    → view_of t o ≢ reading 0xFF
    → released (opened acc (view_of t o)) ≡ view_of t o
unfolding chk_share access
open_is_allowed t o acc inv low allowed few = elim (Bool-cases (find_object t o == size t)) [
  | inl missing ↦ let (shut, was) = find_object-missing t o (ground arith) in rw was (ground arith)
  | inr there ↦
      let within : find_object t o < size t = ground (arith, find_object-le t o) in
      let (here, was) = find_object-found t o within in
      let bounds = at-bounds t (find_object t o) inv (ground arith) in
      rw was (ground (arith, bounds))
]

-- An access that `chk_share` has allowed, opened by `inc_share` and closed by `dec_share`, leaves
-- every object open as it was, unless 255 readers had the object open.
pub dec_share-inc_share :
    (t : List Filesem) (o : Object) (acc : ℕ)
    → IsTable t
    → size t < 2 ^ 32
    → acc ≤ 1
    → chk_share t o acc ≡ none
    → view_of t o ≢ reading 0xFF
    → (p : Object)
    → view_of (dec_share (inc_share t o acc).1 (inc_share t o acc).0).1 p ≡ view_of t p
dec_share-inc_share t o acc inv small low allowed few p =
    let granted = inc_share-Granted t o acc inv low allowed few in
    let (done, table, view) =
      dec_share-released (inc_share t o acc).1 o (inc_share t o acc).0 granted.table
        granted.positive granted.bound (omega (arith, granted.length)) granted.entry in
    let after = (dec_share (inc_share t o acc).1 (inc_share t o acc).0).1 in
    let self : same_object o o ≡ true = ground arith in
    let back = open_is_allowed t o acc inv low allowed few in
    elim (Bool-cases (same_object p o)) [
      | inl same ↦
          subst (λ x. view_of after x ≡ view_of t x) (same_object-eq p o same)
            (ground (arith, view o, granted.view o))
      | inr other ↦ ground (arith, view p, granted.view p)
    ]
