-- ===== src/Util/BytesSet/Vacancies.antt =====
-- bytes_set.go: filled and vacant buckets, and the steps of a loop to a vacant one.
use Prim.Native.Nat.{bit_and}
use native.Mathlib.Nat.{mod-lt, mod-eq_of_lt, mod_self}
use pebble_voting_app.Base.{
  ℕ, zero, suc, ◌+◌, ◌-◌, ◌%◌, ◌^◌, ◌<◌, ◌≡◌, ◌∙◌, ap, refl, subst, [], ◌∷◌, List, true, false,
  ◌||◌, ◌⊎◌, inl, inr, Bytes, some, length, get_elem?, set, bytes_eq, arith, Bool-cases,
  if◌then◌else◌, ltb,
}
use pebble_voting_app.Base.Mask.{bit_and-mask}
use pebble_voting_app.Base.Power.{pow_two_pos}
use pebble_voting_app.Util.BytesSet.{Bucket}
use pebble_voting_app.Util.BytesSet.Membership.{holds}

abbrev pub num_filled : List Bucket → ℕ
num_filled [] = 0
num_filled (b ∷ v) = (if b.filled then 1 else 0) + num_filled v

-- A table with one more value.
pub record Fills (v v' : List Bucket) (p : Bytes) : Type 0 where
  pub size : length v' ≡ length v
  pub filled : num_filled v' ≡ num_filled v + 1
  pub members : (q : Bytes) → holds v' q ≡ (bytes_eq q p || holds v q)

pub set-Fills :
    (v : List Bucket) (i : ℕ) (b : Bucket) (p : Bytes)
    → get_elem? v i ≡ some b
    → b.filled ≡ false
    → Fills v (set v i (record { value = p; filled = true })) p
set-Fills [] i b p e f = absurd (ground arith)
set-Fills (a ∷ v) zero b p e f = record {
  size = refl;
  filled = ground arith;
  members = λ q. ground arith;
}
set-Fills (a ∷ v) (suc i) b p e f =
    let r = set-Fills v i b p e f in
    record {
      size = omega (arith, r.size);
      filled = omega (arith, r.filled);
      members = λ q. ground (arith, r.members q);
    }

pub bucket_at : (v : List Bucket) (i : ℕ) → i < length v → (b : Bucket) × (get_elem? v i ≡ some b)
bucket_at [] i lt = absurd (omega arith)
bucket_at (a ∷ v) zero lt = (a, refl)
bucket_at (a ∷ v) (suc i) lt = bucket_at v i (omega arith)

-- Where a vacant bucket stands.
abbrev pub Vacancy : List Bucket → ℕ → Type 0
Vacancy v j = (j < length v) × (b : Bucket) × (get_elem? v j ≡ some b) × (b.filled ≡ false)

pub vacancy : (v : List Bucket) → num_filled v < length v → (j : ℕ) × Vacancy v j
vacancy [] lt = absurd (omega arith)
vacancy (a ∷ v) lt = elim (Bool-cases a.filled) [
  | inr free ↦ (0, (omega arith, a, refl, free))
  | inl taken ↦
      let (j, free) = vacancy v (ground arith) in
      (suc j, (omega (arith, free.0), free.1, free.2, free.3))
]

-- The vacant bucket `j` is `d` steps ahead of the place `i` in a table of `n` buckets.
abbrev pub Ahead : (n i j d : ℕ) → Type 0
Ahead n i j d = (i + d ≡ j) ⊎ (i + d ≡ j + n)

pub Ahead-start : (n i j : ℕ) → i < n → j < n → (d : ℕ) × (d < n) × Ahead n i j d
Ahead-start n i j li lj = elim (Bool-cases (ltb j i)) [
  | inl behind ↦ (j + n - i, ground (arith, behind), inr (ground (arith, behind)))
  | inr before ↦ (j - i, omega arith, inl (ground (arith, before)))
]

module _ (v : List Bucket) (k : ℕ) (sized : length v ≡ 2 ^ k) where
  abbrev pub next : ℕ → ℕ
  next i = bit_and (i + 1) (length v - 1)

  pub next-mod : (x : ℕ) → bit_and x (length v - 1) ≡ x % 2 ^ k
  next-mod x = rw sized (bit_and-mask k x)

  pub next-lt : (i : ℕ) → next i < length v
  next-lt i = rw (next-mod (i + 1), sized) (mod-lt (i + 1) (pow_two_pos k))

  next_cases :
      (i : ℕ)
      → i < length v
      → ((i + 1 < 2 ^ k) × (next i ≡ i + 1)) ⊎ ((i + 1 ≡ 2 ^ k) × (next i ≡ 0))
  next_cases i lt = elim (Bool-cases (ltb (i + 1) (2 ^ k))) [
    | inl inside ↦
        let below : i + 1 < 2 ^ k = ground arith in
        inl (below, next-mod (i + 1) ∙ mod-eq_of_lt below)
    | inr last ↦
        let at : i + 1 ≡ 2 ^ k = ground arith in
        inr (at, next-mod (i + 1) ∙ ap (λ x. x % 2 ^ k) at ∙ mod_self (2 ^ k))
  ]

  pub Ahead-next :
      (i j d : ℕ)
      → i < length v
      → j < length v
      → Ahead (length v) i j (suc d)
      → Ahead (length v) (next i) j d
  Ahead-next i j d li lj (inl a) = elim (next_cases i li) [
    | inl (lt, e) ↦ inl (omega (arith, e, a))
    | inr (at, e) ↦ absurd (omega (arith, at, a, lj, sized))
  ]
  Ahead-next i j d li lj (inr a) = elim (next_cases i li) [
    | inl (lt, e) ↦ inr (omega (arith, e, a))
    | inr (at, e) ↦ inl (omega (arith, e, at, a, sized))
  ]

  -- A filled bucket is not the vacant one.
  pub Ahead-filled :
      (i j : ℕ) (a : Bucket)
      → i < length v
      → get_elem? v i ≡ some a
      → a.filled ≡ true
      → Vacancy v j
      → Ahead (length v) i j 0
      → ⊥
  Ahead-filled i j a li e f (lj, b, there, free) (inl p) =
      let same : i ≡ j = omega (arith, p) in
      let at : get_elem? v j ≡ some a = subst (λ x. get_elem? v x ≡ some a) same e in ground arith
  Ahead-filled i j a li e f (lj, b, there, free) (inr p) = absurd (omega (arith, li, p))
