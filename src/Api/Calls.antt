-- ===== src/Api/Calls.antt =====
-- The functions of ff.c that take a path, on a volume that is mounted: how `with_volume` carries what
-- a body does over to the call.
use zephyr_fatfs_aflplusplus.Base.{
  ℕ, ◌≡◌, refl, sym, subst, Option, inl, inr, Bool, true, false, none, some, List, Option-cases,
}
use zephyr_fatfs_aflplusplus.Diskio.{disk_status}
use zephyr_fatfs_aflplusplus.Volume.{Geometry, Fatfs, Fresult, int_err, Act, Out}
use zephyr_fatfs_aflplusplus.Volume.Ends.{Ends, returns, fails}
use zephyr_fatfs_aflplusplus.Mount.{Mount, mounted, mount_volume}
use zephyr_fatfs_aflplusplus.Api.{
  Reply, success, error, system, conclude, on_mounted, with_volume, get_ldnumber,
}

-- The call returns; the object stays mounted as it is, with `Q` of the result and the volume, or with
-- `R` of the volume after an error.
pub data Answers {A : Type 0} (Q : A → Fatfs → Type 0) (R : Fatfs → Type 0) (m : Mount) (fsid : ℕ)
    : Reply A → Type 0 where
  succeeds :
      {a : A} {v : Fatfs}
      → Q a v
      → Answers Q R m fsid (success a (system (record m { fs = v }) fsid))
  errs :
      {e : Fresult} {v : Fatfs}
      → R v
      → Answers Q R m fsid (error e (system (record m { fs = v }) fsid))

mounted_already :
    (write : Bool) (m : Mount) (fsid : ℕ) (g : Geometry)
    → m.geometry ≡ some g
    → mount_volume write m fsid ≡ mounted m fsid
unfolding mount_volume disk_status
mounted_already true m fsid g e = rw e refl
mounted_already false m fsid g e = rw e refl

pub with_geometry :
    {A : Type 0} (o : Option Geometry) (g : Geometry) (x : A) (y : Geometry → A)
    → o ≡ some g
    → elim o as (λ o. A) [ none ↦ x | some h ↦ y h ] ≡ y g
with_geometry o g x y e = rw e refl

module _ {A : Type 0} {Q : A → Fatfs → Type 0} {R : Fatfs → Type 0} where
  pub conclude-Answers :
      (m : Mount) (fsid : ℕ) {r : Out A} → Ends Q R r → Answers Q R m fsid (conclude m fsid r)
  unfolding conclude
  conclude-Answers m fsid (returns q) = succeeds q
  conclude-Answers m fsid (fails r) = errs r

  -- The body runs on the path behind the drive prefix.
  pub with_rest-Answers :
      (write : Bool) (path : List ℕ) (body : Geometry → ℕ → List ℕ → Act A) (m : Mount) (fsid : ℕ)
      (g : Geometry)
      → m.geometry ≡ some g
      → R m.fs
      → ((rest : List ℕ) → get_ldnumber path ≡ some rest → Ends Q R (body g m.id rest m.fs))
      → Answers Q R m fsid (with_volume write path body (system m fsid))
  unfolding with_volume on_mounted
  with_rest-Answers write path body m fsid g e before ends =
      elim (Option-cases (get_ldnumber path)) [
        | inl invalid ↦ rw (with_volume, invalid) (errs before)
        | inr (rest, valid) ↦
            let there =
              with_geometry m.geometry g (error int_err (system m fsid))
                (λ h. conclude m fsid (body h m.id rest m.fs)) e in
            rw (with_volume, valid, mounted_already write m fsid g e)
              (subst (λ r. Answers Q R m fsid r) (sym there)
                (conclude-Answers m fsid (ends rest valid)))
      ]

  pub with_volume-Answers :
      (write : Bool) (path : List ℕ) (body : Geometry → ℕ → List ℕ → Act A) (m : Mount) (fsid : ℕ)
      (g : Geometry)
      → m.geometry ≡ some g
      → R m.fs
      → ((rest : List ℕ) → Ends Q R (body g m.id rest m.fs))
      → Answers Q R m fsid (with_volume write path body (system m fsid))
  with_volume-Answers write path body m fsid g e before ends =
      with_rest-Answers write path body m fsid g e before (λ rest is. ends rest)
