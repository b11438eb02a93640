-- ===== src/Base/Bits.antt =====
-- Masks: `x & m` is at most `m`.
use Prim.Native.Nat.{ℕ, zero, suc, ◌/◌, ◌≤◌, min, digits, bit_and, bit_and-bitwise}
use mathlib.Core.Path.{subst, sym}
use native.Mathlib.Omega.{arith}

pub digits-le : (n a b : ℕ) → digits (λ b. zero) min n a b ≤ b
digits-le zero a b = omega arith
digits-le (suc n) zero b = omega arith
digits-le (suc n) (suc a) b = omega (arith, digits-le n (suc a / 2) (b / 2))

pub bit_and-le : (a b : ℕ) → bit_and a b ≤ b
bit_and-le a b = subst (λ n. n ≤ b) (sym (bit_and-bitwise a b)) (digits-le a a b)
