-- ===== src/Share/Granted.antt =====
-- `chk_share` and `inc_share` of ff.c on the abstract view of the table.
use zephyr_fatfs_aflplusplus.Base.{
  ℕ, ◌+◌, ◌-◌, ◌<◌, ◌≤◌, ◌≡◌, ◌≢◌, sym, ap, subst, ◌∙◌, ◌⊎◌, inl, inr, true, false, none, List,
  arith, ◌==◌, if◌then◌else◌, Bool-cases,
}
use zephyr_fatfs_aflplusplus.Share.{
  Object, Filesem, write_mode, is_same, size, at, set, find_object, find_blank, new_entry,
  chk_share, inc_share, raise,
}
use zephyr_fatfs_aflplusplus.Share.Access.{
  Access, closed, writing, reading, access, view_of, same_object, update, is_open, IsTable,
  find_object-le, find_blank-le, find_object-found, find_object-missing, same_object-is_same,
  view_of-set_other, view_of-set_self, set-IsTable, at-bounds, find_blank-found, at-set, set-set,
  size-set,
}

-- An object opened once more, to read (0) or to write (1).
abbrev pub opened : ℕ → Access → Access
opened acc a =
    if acc == 0
    then elim a [ closed ↦ reading 1 | reading n ↦ reading (n + 1) | writing ↦ writing ]
    else writing

-- The call gives the id of the entry of `o`, and the table `t'`.
pub record Granted (t : List Filesem) (o : Object) (acc id : ℕ) (t' : List Filesem) : Type 0 where
  pub table : IsTable t'
  pub positive : 0 < id
  pub length : size t' ≡ size t
  pub bound : id ≤ size t'
  pub entry : is_same (at t' (id - 1)) o ≡ true
  pub view : (p : Object) → view_of t' p ≡ update (view_of t) o (opened acc (view_of t o)) p

pub same_object-eq : (p o : Object) → same_object p o ≡ true → o ≡ p
same_object-eq p o e = ground arith

pub set-update :
    (t : List Filesem) (i : ℕ) (s' : Filesem) (o : Object)
    → IsTable t
    → i < size t
    → is_same s' o ≡ true
    → ((p : Object) → is_same (at t i) p ≡ true → same_object p o ≡ true)
    → (is_same (at t i) o ≡ true) ⊎ (is_open t o ≡ false)
    → (p : Object) → view_of (set t i s') p ≡ update (view_of t) o (access s'.ctr) p
set-update t i s' o inv low e only h p = elim (Bool-cases (same_object p o)) [
  | inl same ↦ rw same (
      view_of-set_self t i s' p inv low (same_object-is_same s' p o e ∙ same) (
        subst (λ x. (is_same (at t i) x ≡ true) ⊎ (is_open t x ≡ false)) (same_object-eq p o same)
          h))
  | inr other ↦
      rw other
        (view_of-set_other t i s' p (ground (arith, only p)) (same_object-is_same s' p o e ∙ other))
]

-- An entry that no longer blank stands for `o`, if for anything.
abbrev pub IsFor : List Filesem → ℕ → Object → Type 0
IsFor t i o =
    (i < size t)
    × ((p : Object) → is_same (at t i) p ≡ true → same_object p o ≡ true)
    × ((is_same (at t i) o ≡ true) ⊎ (is_open t o ≡ false))

access_reading : (c n : ℕ) → access c ≡ reading n → c ≡ n
unfolding access
access_reading c n e = ground arith

module _ (t : List Filesem) (o : Object) (acc : ℕ) (inv : IsTable t) where
  set-Granted :
      (i : ℕ) (s' : Filesem)
      → IsFor t i o
      → is_same s' o ≡ true
      → (0 < s'.ctr) × (s'.ctr ≤ write_mode)
      → access s'.ctr ≡ opened acc (view_of t o)
      → Granted t o acc (i + 1) (set t i s')
  set-Granted i s' (low, only, h) e bounds moved =
      let index : (i + 1) - 1 ≡ i = omega arith in
      record {
        table =
            set-IsTable t i s' inv low (λ _. bounds)
              (λ p same.
                subst (λ x. (is_same (at t i) x ≡ true) ⊎ (is_open t x ≡ false))
                  (same_object-eq p o (sym (same_object-is_same s' p o e) ∙ same)) h);
        positive = omega arith;
        length = size-set t i s';
        bound = omega (arith, size-set t i s', low);
        entry =
            ap (λ n. is_same (at (set t i s') n) o) index
            ∙ (ap (λ x. is_same x o) (at-set t i s' low) ∙ e);
        view =
            λ p. set-update t i s' o inv low e only h p ∙ ap (λ a. update (view_of t) o a p) moved;
      }

  -- A blank entry taken for an object that has none.
  new-Granted :
      find_object t o ≡ size t
      → find_blank t < size t
      → acc ≤ 1
      → Granted t o acc (inc_share t o acc).0 (inc_share t o acc).1
  unfolding inc_share raise access
  new-Granted missing room low =
      let b = find_blank t in
      let s' = record (new_entry o) { ctr = if acc == 0 then 1 else write_mode } in
      let (shut, was) = find_object-missing t o missing in
      let unused = find_blank-found t room in
      let e : inc_share t o acc ≡ (b + 1, set t b s') =
        ground (arith, at-set t b (new_entry o) room, set-set t b (new_entry o) s') in
      rw e (
        set-Granted b s' (room, λ p same. ground arith, inr shut) (ground arith) (ground arith)
          (ground arith))

  -- One reader more.
  more-Granted :
      find_object t o < size t
      → acc ≡ 0
      → (at t (find_object t o)).ctr < 0xFF
      → Granted t o acc (inc_share t o acc).0 (inc_share t o acc).1
  unfolding inc_share raise access
  more-Granted there read few =
      let i = find_object t o in
      let s = at t i in
      let s' = record s { ctr = s.ctr + 1 } in
      let (here, was) = find_object-found t o there in
      let e : inc_share t o acc ≡ (i + 1, set t i s') = ground arith in
      rw e (
        set-Granted i s' (there, λ p same. ground arith, inl here) here (ground arith)
          (ground arith))

  -- Where `chk_share` has allowed an access and fewer than 255 readers have the object open,
  -- `inc_share` gives the id of an entry of the object: the object is open in the way asked for, all
  -- others are as they were, and the table stays well-formed.
  pub inc_share-Granted :
      acc ≤ 1
      → chk_share t o acc ≡ none
      → view_of t o ≢ reading 0xFF
      → Granted t o acc (inc_share t o acc).0 (inc_share t o acc).1
  unfolding chk_share access
  inc_share-Granted low allowed few = elim (Bool-cases (find_object t o == size t)) [
    | inl missing ↦ new-Granted (ground arith) (ground (arith, find_blank-le t)) low
    | inr there ↦
        let within : find_object t o < size t = ground (arith, find_object-le t o) in
        let (here, was) = find_object-found t o within in
        let bounds = at-bounds t (find_object t o) inv (ground arith) in
        let under : (at t (find_object t o)).ctr ≢ 0xFF = λ e. few (was ∙ ap access e) in
        more-Granted within (ground arith) (ground (arith, bounds, under))
  ]

  -- The reader after 255 others is let in, and turns the object into one that is open for writing.
  pub inc_share_overflow :
      acc ≡ 0
      → view_of t o ≡ reading 0xFF
      → (chk_share t o acc ≡ none) × (view_of (inc_share t o acc).1 o ≡ writing)
  unfolding chk_share inc_share raise access
  inc_share_overflow read full = elim (Bool-cases (find_object t o == size t)) [
    | inl missing ↦ absurd (ground (arith, find_object-missing t o (ground arith)))
    | inr there ↦
        let within : find_object t o < size t = ground (arith, find_object-le t o) in
        let i = find_object t o in
        let (here, was) = find_object-found t o within in
        let s' = record (at t i) { ctr = write_mode } in
        let ctr : (at t i).ctr ≡ 0xFF = access_reading (at t i).ctr 0xFF (sym was ∙ full) in
        let e : inc_share t o acc ≡ (i + 1, set t i s') = ground arith in
        (ground arith, rw e (view_of-set_self t i s' o inv within here (inl here)))
  ]
