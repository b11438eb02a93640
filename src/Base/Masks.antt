-- ===== src/Base/Masks.antt =====
-- The masks of low bits: `x & (2^k - 1)` is a remainder.
use Prim.Native.Nat.{
  ℕ, zero, suc, ◌+◌, ◌-◌, ◌*◌, ◌/◌, ◌%◌, ◌≤◌, ◌<◌, min, digits, bit_and, bit_and-bitwise,
}
use zephyr_fatfs_aflplusplus.Base.Bits.{digits-le}
use mathlib.Core.Path.{◌≡◌, refl, sym, ◌∙◌, ap}
use native.Mathlib.Omega.{arith}
use native.Mathlib.Nat.{add-mul-mod_self_left, div-add-mod, mod-eq_of_lt, mod-lt, zero-mod}

halves : (a p : ℕ) → 0 < p → a % (p + p) ≡ (a / 2 % p) * 2 + a % 2
halves a p h =
    let r = a / 2 % p in
    let low : r < p = mod-lt (a / 2) h in
    let whole : p * (a / 2 / p) + r ≡ a / 2 = div-add-mod (a / 2) p in
    let split : a ≡ (r * 2 + a % 2) + (p + p) * (a / 2 / p) = omega (arith, whole) in
    ap (λ n. n % (p + p)) split
    ∙ (add-mul-mod_self_left (r * 2 + a % 2) (p + p) (a / 2 / p)
        ∙ mod-eq_of_lt (omega (arith, low)))

abbrev pub two_to : ℕ → ℕ
two_to zero = 1
two_to (suc k) = two_to k + two_to k

pub two_to_positive : (k : ℕ) → 0 < two_to k
two_to_positive zero = omega arith
two_to_positive (suc k) = omega (arith, two_to_positive k)

min_digit : (x : ℕ) → min (x % 2) 1 ≡ x % 2
min_digit x = ground arith

digits-mask : (k n a : ℕ) → a ≤ n → digits (λ b. zero) min n a (two_to k - 1) ≡ a % two_to k
digits-mask zero n a h = omega (arith, digits-le n a 0)
digits-mask (suc k) zero zero h = sym (zero-mod (two_to k + two_to k))
digits-mask (suc k) (suc n) zero h = sym (zero-mod (two_to k + two_to k))
digits-mask (suc k) (suc n) (suc a) h =
    let p = two_to k in
    let positive = two_to_positive k in
    let half : (p + p - 1) / 2 ≡ p - 1 = omega arith in
    let odd : (p + p - 1) % 2 ≡ 1 = omega arith in
    rw
      (
        half,
        odd,
        min_digit (suc a),
        digits-mask k n (suc a / 2) (omega arith),
        halves (suc a) p positive,
      )
      refl
digits-mask (suc k) zero (suc a) h = absurd (omega arith)

pub bit_and-mask : (a k : ℕ) → bit_and a (two_to k - 1) ≡ a % two_to k
bit_and-mask a k = bit_and-bitwise a (two_to k - 1) ∙ digits-mask k a a (omega arith)
