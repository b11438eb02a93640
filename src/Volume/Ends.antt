-- ===== src/Volume/Ends.antt =====
-- Total correctness of a call: the loop has fuel enough, a result satisfies one property of the
-- value and the volume, and an error leaves the volume in another.
use zephyr_fatfs_aflplusplus.Base.{◌≡◌}
use zephyr_fatfs_aflplusplus.Volume.{Fatfs, Fresult, Out, done, fail, Act, and_then, on_fail}

pub data Ends {A : Type 0} (Q : A → Fatfs → Type 0) (R : Fatfs → Type 0) : Out A → Type 0 where
  returns : {a : A} {v : Fatfs} → Q a v → Ends Q R (done a v)
  fails : {e : Fresult} {v : Fatfs} → R v → Ends Q R (fail e v)

module _ {A B : Type 0} {Q : A → Fatfs → Type 0} {R : Fatfs → Type 0} where
  -- `m >>= k`: the errors of `m` are errors of the whole.
  pub bind :
      {Q' : B → Fatfs → Type 0} {R' : Fatfs → Type 0} {r : Out A} {k : A → Act B}
      → Ends Q R r
      → ((v : Fatfs) → R v → R' v)
      → ((a : A) (v : Fatfs) → Q a v → Ends Q' R' (k a v))
      → Ends Q' R' (and_then r k)
  bind (returns q) weaken next = next _ _ q
  bind (fails r) weaken next = fails (weaken _ r)

  -- A call whose error is handled on the spot.
  pub handle :
      {Q' : B → Fatfs → Type 0} {R' : Fatfs → Type 0} {r : Out A} {k : A → Act B}
      {h : Fresult → Act B}
      → Ends Q R r
      → ((e : Fresult) (v : Fatfs) → R v → Ends Q' R' (h e v))
      → ((a : A) (v : Fatfs) → Q a v → Ends Q' R' (k a v))
      → Ends Q' R' (on_fail r k h)
  handle (returns q) caught next = next _ _ q
  handle (fails r) caught next = caught _ _ r

module _ {A : Type 0} {Q Q' : A → Fatfs → Type 0} {R R' : Fatfs → Type 0} where
  pub mono :
      {r : Out A}
      → Ends Q R r
      → ((a : A) (v : Fatfs) → Q a v → Q' a v)
      → ((v : Fatfs) → R v → R' v)
      → Ends Q' R' r
  mono (returns q) f g = returns (f _ _ q)
  mono (fails r) f g = fails (g _ r)

module _ {A : Type 0} {Q : A → Fatfs → Type 0} {R : Fatfs → Type 0} where
  pub by_eq : {r r' : Out A} → r ≡ r' → Ends Q R r' → Ends Q R r
  by_eq e h = rw e h

-- Two properties of one call.
module _ {A : Type 0} {Q Q' : A → Fatfs → Type 0} {R R' : Fatfs → Type 0} where
  pub both :
      {r : Out A} → Ends Q R r → Ends Q' R' r → Ends (λ a v. Q a v × Q' a v) (λ v. R v × R' v) r
  both (returns q) (returns q') = returns (q, q')
  both (fails r) (fails r') = fails (r, r')
