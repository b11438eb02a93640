-- ===== src/Chain/Links.antt =====
-- Chains in a table of cluster statuses, and how many of its clusters are in use.
use zephyr_fatfs_aflplusplus.Base.{
  ℕ, zero, suc, ◌+◌, ◌≤◌, ◌<◌, ◌≡◌, ◌≢◌, refl, Bool, true, false, ◌||◌, arith, ◌==◌, if◌then◌else◌,
  List, [], ◌∷◌, Bool-cases, inl, inr,
}

abbrev pub length : List ℕ → ℕ
length [] = 0
length (x ∷ xs) = suc (length xs)

abbrev pub is_in : ℕ → List ℕ → Bool
is_in a [] = false
is_in a (x ∷ xs) = (a == x) || is_in a xs

-- `xs` is a chain of the table `f` of `n` entries: distinct clusters, each linked to the next, the
-- last one marked as an end.
abbrev pub IsChain : ℕ → (ℕ → ℕ) → List ℕ → Type 0
IsChain n f [] = ⊥
IsChain n f (c ∷ []) = (2 ≤ c) × (c < n) × (n ≤ f c)
IsChain n f (c ∷ d ∷ xs) =
    (2 ≤ c) × (c < n) × (f c ≡ d) × (is_in c (d ∷ xs) ≡ false) × IsChain n f (d ∷ xs)

-- A chain does not depend on the rest of the table.
pub IsChain-ext :
    (n : ℕ) (f f' : ℕ → ℕ) (xs : List ℕ)
    → IsChain n f xs
    → ((c : ℕ) → c < n → is_in c xs ≡ true → f' c ≡ f c)
    → IsChain n f' xs
IsChain-ext n f f' [] h same = h
IsChain-ext n f f' (c ∷ []) h same = ground (arith, same c)
IsChain-ext n f f' (c ∷ d ∷ xs) (h0, h1, h2, h3, h) same = (
  h0,
  h1,
  ground (arith, same c),
  h3,
  IsChain-ext n f f' (d ∷ xs) h (λ x low i. same x low (ground arith)),
)

-- The number of clusters below `n` in use.
abbrev pub used : ℕ → (ℕ → ℕ) → ℕ
used zero f = 0
used (suc n) f = used n f + (if f n == 0 then 0 else 1)

pub used-le : (n : ℕ) (f : ℕ → ℕ) → used n f ≤ n
used-le zero f = omega arith
used-le (suc n) f = ground (arith, used-le n f)

used_ext : (n : ℕ) (f f' : ℕ → ℕ) → ((c : ℕ) → c < n → f' c ≡ f c) → used n f' ≡ used n f
used_ext zero f f' h = refl
used_ext (suc n) f f' h = ground (arith, used_ext n f f' (λ c low. h c (omega arith)), h n)

-- Freeing one cluster in use lowers the number.
pub used_freed :
    (n c : ℕ) (f f' : ℕ → ℕ)
    → c < n
    → f c ≢ 0
    → f' c ≡ 0
    → ((d : ℕ) → d ≢ c → d < n → f' d ≡ f d)
    → used n f ≡ suc (used n f')
used_freed zero c f f' low ne e h = absurd (omega arith)
used_freed (suc n) c f f' low ne e h = elim (Bool-cases (c == n)) [
  | inl last ↦ ground (arith, used_ext n f f' (λ d low'. h d (ground arith) (omega arith)))
  | inr more ↦
      ground
        (arith, h n, used_freed n c f f' (ground arith) ne e (λ d ne' low'. h d ne' (omega arith)))
]
