-- ===== src/Share/Access.antt =====
-- The abstract view of the table of open objects of ff.c: how each object is open.
use zephyr_fatfs_aflplusplus.Base.{
  ℕ, zero, suc, ◌<◌, ◌≤◌, ◌≡◌, refl, ap, ◌⊎◌, inl, inr, Bool, true, false, List, [], ◌∷◌, arith,
  ◌==◌, ◌||◌, ◌&&◌, if◌then◌else◌, Bool-cases,
}
use zephyr_fatfs_aflplusplus.Share.{
  Object, Filesem, write_mode, is_blank, is_same, size, at, set, find_object, find_blank,
}

pub data Access : Type 0 where
  closed writing : Access
  reading : ℕ → Access

unfoldable pub access : ℕ → Access
access ctr = if ctr == write_mode then writing else reading ctr

-- How the table has an object open, and the same with one object changed.
unfoldable pub view_of : List Filesem → Object → Access
view_of [] o = closed
view_of (s ∷ t) o = let rest = view_of t o in if is_same s o then access s.ctr else rest

abbrev pub same_object : Object → Object → Bool
same_object p o = (p.fs == o.fs) && ((p.clu == o.clu) && (p.ofs == o.ofs))

abbrev pub update : (Object → Access) → Object → Access → Object → Access
update f o a p = if same_object p o then a else f p

abbrev pub is_open : List Filesem → Object → Bool
is_open [] o = false
is_open (s ∷ t) o = is_same s o || is_open t o

-- No object has two entries, and an entry in use has a counter of 1 up to that of a writer.
abbrev pub IsTable : List Filesem → Type 0
IsTable [] = Unit {0}
IsTable (s ∷ t) =
    ((o : Object) → is_same s o ≡ true → is_open t o ≡ false)
    × (is_blank s ≡ false → (0 < s.ctr) × (s.ctr ≤ write_mode))
    × IsTable t

pub find_object-le : (t : List Filesem) (o : Object) → find_object t o ≤ size t
unfolding find_object
find_object-le [] o = omega arith
find_object-le (s ∷ t) o = ground (arith, find_object-le t o)

pub find_blank-le : (t : List Filesem) → find_blank t ≤ size t
unfolding find_blank
find_blank-le [] = omega arith
find_blank-le (s ∷ t) = ground (arith, find_blank-le t)

pub find_object-found :
    (t : List Filesem) (o : Object)
    → find_object t o < size t
    → (is_same (at t (find_object t o)) o ≡ true)
      × (view_of t o ≡ access (at t (find_object t o)).ctr)
unfolding find_object view_of
find_object-found [] o low = absurd (omega arith)
find_object-found (s ∷ t) o low = elim (Bool-cases (is_same s o)) [
  | inl here ↦ rw here (here, refl)
  | inr there ↦ rw there (find_object-found t o (ground arith))
]

pub find_object-missing :
    (t : List Filesem) (o : Object)
    → find_object t o ≡ size t
    → (is_open t o ≡ false) × (view_of t o ≡ closed)
unfolding find_object view_of
find_object-missing [] o e = (refl, refl)
find_object-missing (s ∷ t) o e = ground (arith, find_object-missing t o)

pub same_object-is_same :
    (s : Filesem) (p o : Object) → is_same s o ≡ true → is_same s p ≡ same_object p o
same_object-is_same s p o h = ground arith

pub is_open-at :
    (t : List Filesem) (i : ℕ) (o : Object) → is_same (at t i) o ≡ true → is_open t o ≡ true
is_open-at [] i o h = h
is_open-at (s ∷ t) zero o h = ground arith
is_open-at (s ∷ t) (suc i) o h = ground (arith, is_open-at t i o h)

pub view_of-closed : (t : List Filesem) (o : Object) → is_open t o ≡ false → view_of t o ≡ closed
unfolding view_of
view_of-closed [] o h = refl
view_of-closed (s ∷ t) o h = ground (arith, view_of-closed t o)

is_open-set :
    (t : List Filesem) (i : ℕ) (s' : Filesem) (o : Object)
    → is_open t o ≡ false
    → is_same s' o ≡ false
    → is_open (set t i s') o ≡ false
is_open-set [] i s' o h e = refl
is_open-set (s ∷ t) zero s' o h e = ground arith
is_open-set (s ∷ t) (suc i) s' o h e = ground (arith, is_open-set t i s' o)

-- An object that neither entry is for.
pub view_of-set_other :
    (t : List Filesem) (i : ℕ) (s' : Filesem) (p : Object)
    → is_same (at t i) p ≡ false
    → is_same s' p ≡ false
    → view_of (set t i s') p ≡ view_of t p
unfolding view_of
view_of-set_other [] i s' p h e = refl
view_of-set_other (s ∷ t) zero s' p h e = ground arith
view_of-set_other (s ∷ t) (suc i) s' p h e = ground (arith, view_of-set_other t i s' p h e)

-- The object of the new entry, which has no entry elsewhere.
pub view_of-set_self :
    (t : List Filesem) (i : ℕ) (s' : Filesem) (p : Object)
    → IsTable t
    → i < size t
    → is_same s' p ≡ true
    → (is_same (at t i) p ≡ true) ⊎ (is_open t p ≡ false)
    → view_of (set t i s') p ≡ access s'.ctr
unfolding view_of
view_of-set_self [] i s' p inv low e h = absurd (omega arith)
view_of-set_self (s ∷ t) zero s' p inv low e h = ground arith
view_of-set_self (s ∷ t) (suc i) s' p inv low e h =
    ground (arith, view_of-set_self t i s' p inv.2, inv.0 p, is_open-at t i p)

-- The object of an entry that is given up.
pub view_of-set_gone :
    (t : List Filesem) (i : ℕ) (s' : Filesem) (p : Object)
    → IsTable t
    → i < size t
    → is_same s' p ≡ false
    → is_same (at t i) p ≡ true
    → view_of (set t i s') p ≡ closed
unfolding view_of
view_of-set_gone [] i s' p inv low e h = absurd (omega arith)
view_of-set_gone (s ∷ t) zero s' p inv low e h = ground (arith, view_of-closed t p (inv.0 p h))
view_of-set_gone (s ∷ t) (suc i) s' p inv low e h =
    ground (arith, view_of-set_gone t i s' p inv.2, inv.0 p, is_open-at t i p h)

pub set-IsTable :
    (t : List Filesem) (i : ℕ) (s' : Filesem)
    → IsTable t
    → i < size t
    → (is_blank s' ≡ false → (0 < s'.ctr) × (s'.ctr ≤ write_mode))
    → ((o : Object) → is_same s' o ≡ true → (is_same (at t i) o ≡ true) ⊎ (is_open t o ≡ false))
    → IsTable (set t i s')
set-IsTable [] i s' inv low b h = tt
set-IsTable (s ∷ t) zero s' inv low b h = (λ o e. ground (arith, inv.0 o, h o e), b, inv.2)
set-IsTable (s ∷ t) (suc i) s' inv low b h = (
  λ o e. is_open-set t i s' o (inv.0 o e) (ground (arith, h o, inv.0 o e, is_open-at t i o)),
  inv.1,
  set-IsTable t i s' inv.2 (omega arith) b (λ o e. ground (arith, h o e)),
)

pub at-bounds :
    (t : List Filesem) (i : ℕ)
    → IsTable t
    → is_blank (at t i) ≡ false
    → (0 < (at t i).ctr) × ((at t i).ctr ≤ write_mode)
at-bounds [] i inv e = absurd (ground arith)
at-bounds (s ∷ t) zero inv e = inv.1 e
at-bounds (s ∷ t) (suc i) inv e = at-bounds t i inv.2 e

pub find_blank-found :
    (t : List Filesem) → find_blank t < size t → is_blank (at t (find_blank t)) ≡ true
unfolding find_blank
find_blank-found [] low = absurd (omega arith)
find_blank-found (s ∷ t) low = elim (Bool-cases (is_blank s)) [
  | inl here ↦ rw here here
  | inr there ↦ rw there (find_blank-found t (ground arith))
]

pub at-set : (t : List Filesem) (i : ℕ) (s' : Filesem) → i < size t → at (set t i s') i ≡ s'
at-set [] i s' low = absurd (omega arith)
at-set (s ∷ t) zero s' low = refl
at-set (s ∷ t) (suc i) s' low = at-set t i s' (omega arith)

pub set-set : (t : List Filesem) (i : ℕ) (a b : Filesem) → set (set t i a) i b ≡ set t i b
set-set [] i a b = refl
set-set (s ∷ t) zero a b = refl
set-set (s ∷ t) (suc i) a b = ap (◌∷◌ s) (set-set t i a b)

pub size-set : (t : List Filesem) (i : ℕ) (a : Filesem) → size (set t i a) ≡ size t
size-set [] i a = refl
size-set (s ∷ t) zero a = refl
size-set (s ∷ t) (suc i) a = ap suc (size-set t i a)
