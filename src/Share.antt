-- ===== src/Share.antt =====
-- The table of open objects of ff.c, for configurations with `FF_FS_LOCK`: `chk_share`, `enq_share`,
-- `inc_share`, `dec_share` and `clear_share`. The table `Files` is a list, whose length is
-- `FF_FS_LOCK`, and a volume is known by a number.
pub mod Access
pub mod Granted
pub mod Released
use zephyr_fatfs_aflplusplus.Base.{
  ℕ, zero, suc, ◌+◌, ◌-◌, Bool, true, false, not, Option, none, some, List, [], ◌∷◌, ltb, leb, ◌==◌,
  ◌||◌, ◌&&◌, if◌then◌else◌, u32, sub32,
}
use zephyr_fatfs_aflplusplus.Volume.{Fresult, int_err, locked, too_many_open_files}

-- What identifies an object: its volume, the start cluster of its directory, and the offset of its
-- entry, as `dp->obj.fs`, `dp->obj.sclust` and `dp->dptr` give them.
pub record Object : Type 0 where
  pub fs : ℕ
  pub clu : ℕ
  pub ofs : ℕ

-- An entry of the table, blank if `fs` is `none`.
pub record Filesem : Type 0 where
  pub fs : Option ℕ
  pub clu : ℕ
  pub ofs : ℕ
  pub ctr : ℕ

-- The counter of an object that is open for writing.
abbrev pub write_mode : ℕ
write_mode = 0x100

abbrev pub is_blank : Filesem → Bool
is_blank s = elim s.fs [ none ↦ true | some _ ↦ false ]

abbrev pub is_same : Filesem → Object → Bool
is_same s o = elim s.fs [
  | none ↦ false
  | some fs ↦ (fs == o.fs) && ((s.clu == o.clu) && (s.ofs == o.ofs))
]

abbrev pub size : List Filesem → ℕ
size [] = 0
size (s ∷ t) = suc (size t)

abbrev pub blank : Filesem
blank = record { fs = none; clu = 0; ofs = 0; ctr = 0 }

-- `Files[i]`
abbrev pub at : List Filesem → ℕ → Filesem
at [] i = blank
at (s ∷ t) zero = s
at (s ∷ t) (suc i) = at t i

abbrev pub set : List Filesem → ℕ → Filesem → List Filesem
set [] i s' = []
set (s ∷ t) zero s' = s' ∷ t
set (s ∷ t) (suc i) s' = s ∷ set t i s'

-- The index at which the search for the object, or for a blank entry, ends: the length of the table
-- if it finds none.
unfoldable pub find_object : List Filesem → Object → ℕ
find_object [] o = 0
find_object (s ∷ t) o = let i = find_object t o in if is_same s o then 0 else suc i

unfoldable pub find_blank : List Filesem → ℕ
find_blank [] = 0
find_blank (s ∷ t) = let i = find_blank t in if is_blank s then 0 else suc i

-- `none` is FR_OK. Where the object is not found, the search has passed every blank entry.
unfoldable pub chk_share : List Filesem → Object → ℕ → Option Fresult
unfolding find_object find_blank
chk_share t o acc =
    let i = find_object t o in
    let be = ltb (find_blank t) (size t) in
    if i == size t
    then if not be && not (acc == 2) then some too_many_open_files else none
    else if not (acc == 0) || ((at t i).ctr == write_mode)
    then some locked
    else none

unfoldable pub enq_share : List Filesem → ℕ
unfolding find_blank
enq_share t = if find_blank t == size t then 0 else 1

-- The end of `inc_share`, at the entry of the object.
unfoldable pub raise : List Filesem → ℕ → ℕ → ℕ × List Filesem
raise t i acc =
    let s = at t i in
    if leb 1 acc && not (s.ctr == 0)
    then (0, t)
    else (i + 1, set t i (record s { ctr = if acc == 0 then u32 (s.ctr + 1) else write_mode }))

abbrev pub new_entry : Object → Filesem
new_entry o = record { fs = some o.fs; clu = o.clu; ofs = o.ofs; ctr = 0 }

unfoldable pub inc_share : List Filesem → Object → ℕ → ℕ × List Filesem
unfolding find_object find_blank raise
inc_share t o acc =
    let i = find_object t o in
    let b = find_blank t in
    if i == size t
    then if b == size t then (0, t) else raise (set t b (new_entry o)) b acc
    else raise t i acc

-- The counter of an entry after a close.
abbrev pub lowered : ℕ → ℕ
lowered n = if n == write_mode then 0 else n - 1

unfoldable pub dec_share : List Filesem → ℕ → Option Fresult × List Filesem
dec_share t id =
    let i = sub32 id 1 in
    let s = at t i in
    let n = lowered s.ctr in
    if ltb i (size t)
    then (none, set t i (record s { ctr = n; fs = if n == 0 then none else s.fs }))
    else (some int_err, t)

unfoldable pub clear_share : List Filesem → ℕ → List Filesem
clear_share [] fs = []
clear_share (s ∷ t) fs =
    let rest = clear_share t fs in
    let mine : Bool = elim s.fs [ none ↦ false | some x ↦ x == fs ] in
    (if mine then record s { fs = none } else s) ∷ rest
