-- ===== src/Base/Distinct.antt =====
-- Distinct numbers below a bound are no more than the bound.
use Prim.Native.Nat.{ℕ, zero, suc, ◌+◌, ◌≤◌, ◌<◌}
use mathlib.Core.Path.{◌≡◌, refl}
use mathlib.Core.Logic.{inl, inr}
use mathlib.Core.Bool.{Bool, false, ◌||◌}
use mathlib.Core.List.{List, [], ◌∷◌}
use native.Mathlib.Omega.{arith}
use pebble_voting_app.Base.Tests.{◌==◌, if◌then◌else◌, Bool-cases}
use pebble_voting_app.Base.Lists.{length, All}

abbrev pub has : ℕ → List ℕ → Bool
has n [] = false
has n (k ∷ ks) = k == n || has n ks

abbrev pub AreDistinct : List ℕ → Type 0
AreDistinct [] = Unit
AreDistinct (k ∷ ks) = (has k ks ≡ false) × AreDistinct ks

abbrev without : ℕ → List ℕ → List ℕ
without n [] = []
without n (k ∷ ks) = let rest = without n ks in if k == n then rest else k ∷ rest

has-without : (n m : ℕ) (ks : List ℕ) → has m ks ≡ false → has m (without n ks) ≡ false
has-without n m [] h = refl
has-without n m (k ∷ ks) h = ground (arith, has-without n m ks)

without-AreDistinct : (n : ℕ) (ks : List ℕ) → AreDistinct ks → AreDistinct (without n ks)
without-AreDistinct n [] h = tt
without-AreDistinct n (k ∷ ks) h = elim (Bool-cases (k == n)) [
  | inl same ↦ rw same (without-AreDistinct n ks h.1)
  | inr other ↦ rw other (has-without n k ks h.0, without-AreDistinct n ks h.1)
]

without-All : (n : ℕ) (ks : List ℕ) → All (λ k. k < suc n) ks → All (λ k. k < n) (without n ks)
without-All n [] h = tt
without-All n (k ∷ ks) h = elim (Bool-cases (k == n)) [
  | inl same ↦ rw same (without-All n ks h.1)
  | inr other ↦ let lt : k < n = ground (arith, h.0) in rw other (lt, without-All n ks h.1)
]

length-without_absent : (n : ℕ) (ks : List ℕ) → has n ks ≡ false → length (without n ks) ≡ length ks
length-without_absent n [] h = refl
length-without_absent n (k ∷ ks) h = ground (arith, length-without_absent n ks)

length-without : (n : ℕ) (ks : List ℕ) → AreDistinct ks → length ks ≤ length (without n ks) + 1
length-without n [] h = omega arith
length-without n (k ∷ ks) h = elim (Bool-cases (k == n)) [
  | inl same ↦ ground (arith, length-without_absent n ks, h.0)
  | inr other ↦ ground (arith, length-without n ks h.1)
]

pub length-AreDistinct :
    (n : ℕ) (ks : List ℕ) → All (λ k. k < n) ks → AreDistinct ks → length ks ≤ n
length-AreDistinct zero [] h d = omega arith
length-AreDistinct zero (k ∷ ks) h d = absurd (omega (arith, h.0))
length-AreDistinct (suc n) ks h d = omega (
  arith,
  length-without n ks d,
  length-AreDistinct n (without n ks) (without-All n ks h) (without-AreDistinct n ks d),
)
