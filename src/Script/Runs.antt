-- ===== src/Script/Runs.antt =====
-- How a harness goes on after its calls, on a volume that stays mounted.
use zephyr_fatfs_aflplusplus.Base.{ℕ, ◌≡◌, refl, sym, subst, Option, some}
use zephyr_fatfs_aflplusplus.Volume.{Geometry, Fatfs, Act}
use zephyr_fatfs_aflplusplus.Volume.Ends.{Ends}
use zephyr_fatfs_aflplusplus.Fat.Get.{Never}
use zephyr_fatfs_aflplusplus.Mount.{Mount}
use zephyr_fatfs_aflplusplus.Api.{System, Reply, success, system, conclude}
use zephyr_fatfs_aflplusplus.Api.Calls.{Answers, succeeds, errs, with_geometry, conclude-Answers}
use zephyr_fatfs_aflplusplus.Script.{Run, goes, Script, run_on, branch, return, on_volume, call}

-- The run ends, with `Q` of the result and the state.
pub data Runs {A : Type 0} (Q : A → System → Type 0) : Run A → Type 0 where
  ran : {a : A} {s : System} → Q a s → Runs Q (goes a s)

module _ {A B : Type 0} {Q : A → System → Type 0} {Q' : B → System → Type 0} where
  pub in_turn :
      {r : Run A} {k : A → Script B}
      → Runs Q r
      → ((a : A) (s : System) → Q a s → Runs Q' (k a s))
      → Runs Q' (run_on r k)
  unfolding run_on
  in_turn (ran q) next = next _ _ q

module _ {A B : Type 0} {Q : A → Fatfs → Type 0} {R : Fatfs → Type 0} {Q' : B → System → Type 0}
    {m : Mount} {fsid : ℕ} where
  -- Both branches of `if (f(...) == FR_OK) ...`.
  pub both_branches :
      {r : Reply A} (k : A → Script B) (h : Script B)
      → Answers Q R m fsid r
      → ((a : A) (w : Fatfs) → Q a w → Runs Q' (k a (system (record m { fs = w }) fsid)))
      → ((w : Fatfs) → R w → Runs Q' (h (system (record m { fs = w }) fsid)))
      → Runs Q' (branch r k h)
  unfolding branch
  both_branches k h (succeeds q) good bad = good _ _ q
  both_branches k h (errs r) good bad = bad _ r

module _ {A : Type 0} {Q : A → Fatfs → Type 0} where
  -- A call on an object of the mounted volume.
  pub call-Runs :
      (a : A) (act : Geometry → Option ℕ → Act A) (m : Mount) (fsid : ℕ) (g : Geometry)
      → m.geometry ≡ some g
      → Ends Q Never (act g (some m.id) m.fs)
      → Runs
          (λ b s. (w : Fatfs) × (s ≡ system (record m { fs = w }) fsid) × Q b w)
          (call a act (system m fsid))
  unfolding on_volume
  call-Runs a act m fsid g e ends =
      let there =
        with_geometry m.geometry g (success a (system m fsid))
          (λ h. conclude m fsid (act h (some m.id) m.fs)) e in
      both_branches return (return a)
        (subst (λ r. Answers Q Never m fsid r) (sym there) (conclude-Answers m fsid ends))
        (λ b w q. ran (w, refl, q)) (λ w never. absurd never)
