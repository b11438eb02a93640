-- ===== src/Chain.antt =====
-- Cluster chains of ff.c: `remove_chain` and `create_chain`. Each loop runs on fuel, one round per
-- entry of the FAT and one more.
pub mod Links
pub mod Remove
pub mod Free
pub mod Search
pub mod Choose
pub mod Attach
pub mod Create
pub mod Total
use zephyr_fatfs_aflplusplus.Base.{
  ℕ, zero, suc, ◌+◌, ◌-◌, ◌*◌, ◌/◌, ◌%◌, ◌^◌, Bool, true, ltb, leb, ◌==◌, ◌||◌, ◌&&◌, if◌then◌else◌,
  sub32,
}
use zephyr_fatfs_aflplusplus.Volume.{
  Geometry, Fatfs, Fresult, Act, done, fail, out_of_fuel, int_err, disk_err, ◌>>=◌, ◌>>◌, return,
  throw, on_fail,
}
use zephyr_fatfs_aflplusplus.Fat.{get_fat, put_fat, disk_error, internal_error}

abbrev pub end_of_chain : ℕ
end_of_chain = 2 ^ 32 - 1

-- `fsi_flag |= 1`
abbrev pub mark_dirty : ℕ → ℕ
mark_dirty flag = if flag % 2 == 1 then flag else flag + 1

-- Where a search ends: at a free cluster, or with a value that `create_chain` returns.
pub data Pick : Type 0 where
  found stop : ℕ → Pick

unfoldable pub error_value : Fresult → ℕ
error_value e = elim e [ disk_err ↦ disk_error | _ ↦ internal_error ]

module _ (g : Geometry) where
  -- `if (fs->free_clst < fs->n_fatent - 2) { fs->free_clst++; fs->fsi_flag |= 1; }`
  unfoldable pub count_freed : Fatfs → Fatfs
  count_freed v =
      let valid = ltb v.free_clst (sub32 g.n_fatent 2) in
      record v {
        free_clst = if valid then v.free_clst + 1 else v.free_clst;
        fsi_flag = if valid then mark_dirty v.fsi_flag else v.fsi_flag;
      }

  unfoldable pub free_loop : ℕ → ℕ → Act (Unit {0})
  free_loop zero clst = λ _. out_of_fuel
  free_loop (suc fuel) clst = do
    nxt ← get_fat g clst
    if nxt == 0
        then return tt
        else if nxt == 1
        then throw int_err
        else if nxt == disk_error
        then throw disk_err
        else do
          put_fat g clst 0
          (λ v. done tt (count_freed v))
          let rest = free_loop fuel nxt in if ltb nxt g.n_fatent then rest else return tt

  -- "Mark the previous cluster 'EOC' on the FAT if it exists"
  unfoldable pub cut_off : ℕ → Act (Unit {0})
  cut_off pclst = if pclst == 0 then return tt else put_fat g pclst end_of_chain

  unfoldable pub remove_chain : ℕ → ℕ → Act (Unit {0})
  remove_chain clst pclst =
      if ltb clst 2 || leb g.n_fatent clst
      then throw int_err
      else do cut_off pclst; free_loop (suc g.n_fatent) clst

  -- The loop over all clusters from the one behind `scl` round to `scl`.
  unfoldable pub search_loop : ℕ → ℕ → ℕ → Act Pick
  search_loop zero scl ncl = λ _. out_of_fuel
  search_loop (suc fuel) scl ncl =
      let wrapped = leb g.n_fatent (ncl + 1) in
      let ncl' = if wrapped then 2 else ncl + 1 in
      if wrapped && ltb scl 2 then return (stop 0) else do
        cs ← get_fat g ncl'
        if cs == 0
            then return (found ncl')
            else if cs == 1 || cs == disk_error
            then return (stop cs)
            else let rest = search_loop fuel scl ncl' in
              if ncl' == scl then return (stop 0) else rest

  -- `scl` when the cluster behind it is in use.
  unfoldable pub suggested : Fatfs → ℕ → ℕ
  suggested v scl = if leb 2 v.last_clst && ltb v.last_clst g.n_fatent then v.last_clst else scl

  -- The new cluster for a chain that ends at `clst` (0 for a new chain).
  unfoldable pub choose : ℕ → ℕ → Act Pick
  choose clst scl =
      if scl == clst
      then (do
        let ncl = if leb g.n_fatent (scl + 1) then 2 else scl + 1
        cs ← get_fat g ncl
        if cs == 1 || cs == disk_error
            then return (stop cs)
            else if cs == 0
            then return (found ncl)
            else λ v. search_loop (suc g.n_fatent) (suggested v scl) (suggested v scl) v)
      else search_loop (suc g.n_fatent) scl scl

  -- The new cluster marked as the last one and linked from the old end.
  unfoldable pub attach : ℕ → ℕ → Act (Unit {0})
  attach clst ncl = do
    put_fat g ncl end_of_chain
    if clst == 0 then return tt else put_fat g clst ncl

  unfoldable pub count_used : ℕ → Fatfs → Fatfs
  count_used ncl v =
      let valid = ltb 0 v.free_clst && leb v.free_clst (sub32 g.n_fatent 2) in
      record v {
        last_clst = ncl;
        free_clst = if valid then v.free_clst - 1 else v.free_clst;
        fsi_flag = if valid then mark_dirty v.fsi_flag else v.fsi_flag;
      }

  -- What follows the choice: the error value, or the new cluster attached and counted.
  unfoldable pub settle : ℕ → Pick → Act ℕ
  settle clst (stop r) = return r
  settle clst (found ncl) = λ v.
      on_fail (attach clst ncl v) (λ _ w. done ncl (count_used ncl w))
        (λ e w. done (error_value e) w)

  unfoldable pub allocate : ℕ → ℕ → Act ℕ
  allocate clst scl v =
      if v.free_clst == 0 then done 0 v else (do s ← choose clst scl; settle clst s) v

  unfoldable pub create_chain : ℕ → Act ℕ
  create_chain clst =
      if clst == 0
      then (λ v.
          allocate 0 (if v.last_clst == 0 || leb g.n_fatent v.last_clst then 1 else v.last_clst) v)
      else do
        cs ← get_fat g clst
        if ltb cs 2
            then return internal_error
            else if cs == disk_error
            then return cs
            else if ltb cs g.n_fatent
            then return cs
            else allocate clst clst
