-- ===== src/Methods/Approval/Counting.antt =====
-- What approval.go counts, against a count that does not run the loops.
use mathlib.Core.List.{foldl}
use pebble_voting_app.Base.{
  ℕ, zero, suc, ◌+◌, ◌%◌, ◌^◌, ◌<◌, ◌≡◌, ap, refl, [], ◌∷◌, List, Bool, true, false, ◌&&◌,
  if◌then◌else◌, leb, ◌==◌, Bytes, length, arith,
}
use pebble_voting_app.Methods.{Tally, fresh, count_at}
use pebble_voting_app.Methods.Approval.{all_bits, add_ballot, count_ballot, tally}

-- The entry of a ballot at a position; 0 where there is none.
abbrev pub entry : Bytes → ℕ → ℕ
entry [] i = 0
entry (a ∷ b) zero = a
entry (a ∷ b) (suc i) = entry b i

-- A ballot counts if it has one entry for each choice, and every entry is 0 or 1.
abbrev pub is_proper : ℕ → Bytes → Bool
is_proper zero [] = true
is_proper zero (a ∷ b) = false
is_proper (suc n) [] = false
is_proper (suc n) (a ∷ b) = leb a 1 && is_proper n b

-- How many proper ballots approve choice `i`.
abbrev pub support : ℕ → ℕ → List Bytes → ℕ
support n i [] = 0
support n i (b ∷ bs) = (if is_proper n b then entry b i else 0) + support n i bs

is_proper-eq : (n : ℕ) (b : Bytes) → is_proper n b ≡ ((length b == n) && all_bits b)
unfolding all_bits
is_proper-eq zero [] = refl
is_proper-eq zero (a ∷ b) = ground arith
is_proper-eq (suc n) [] = ground arith
is_proper-eq (suc n) (a ∷ b) = ground (arith, is_proper-eq n b)

count_at-add_ballot :
    (t : Tally) (b : Bytes) (i : ℕ)
    → length t ≡ length b
    → count_at (add_ballot t b) i ≡ (count_at t i + entry b i) % 2 ^ 64
unfolding add_ballot
count_at-add_ballot [] [] i h = omega arith
count_at-add_ballot [] (a ∷ b) i h = absurd (omega arith)
count_at-add_ballot (t ∷ ts) [] i h = absurd (omega arith)
count_at-add_ballot (t ∷ ts) (a ∷ b) zero h = refl
count_at-add_ballot (t ∷ ts) (a ∷ b) (suc i) h = count_at-add_ballot ts b i (omega arith)

length-add_ballot : (t : Tally) (b : Bytes) → length (add_ballot t b) ≡ length t
unfolding add_ballot
length-add_ballot [] b = refl
length-add_ballot (t ∷ ts) [] = refl
length-add_ballot (t ∷ ts) (a ∷ b) = ap suc (length-add_ballot ts b)

count_ballot_lem :
    (n : ℕ) (t : Tally) (b : Bytes) (i : ℕ)
    → length t ≡ n
    → count_at t i < 2 ^ 64
    → (length (count_ballot n t b) ≡ n)
      × (count_at (count_ballot n t b) i
          ≡ (count_at t i + (if is_proper n b then entry b i else 0)) % 2 ^ 64)
unfolding count_ballot
count_ballot_lem n t b i h g =
    ground (arith, is_proper-eq n b, count_at-add_ballot t b i, length-add_ballot t b)

count_ballots_lem :
    (n : ℕ) (bs : List Bytes) (t : Tally) (i : ℕ)
    → length t ≡ n
    → count_at t i < 2 ^ 64
    → count_at (foldl (count_ballot n) t bs) i ≡ (count_at t i + support n i bs) % 2 ^ 64
count_ballots_lem n [] t i h g = omega arith
count_ballots_lem n (b ∷ bs) t i h g =
    let (h', g') = count_ballot_lem n t b i h g in
    omega (arith, h', g', count_ballots_lem n bs (count_ballot n t b) i h' (omega (arith, g')))

pub length-fresh : (i n : ℕ) → length (fresh i n) ≡ n
unfolding fresh
length-fresh i zero = refl
length-fresh i (suc n) = ap suc (length-fresh (suc i) n)

pub count_at-fresh : (j n i : ℕ) → count_at (fresh j n) i ≡ 0
unfolding fresh
count_at-fresh j zero i = refl
count_at-fresh j (suc n) zero = refl
count_at-fresh j (suc n) (suc i) = count_at-fresh (suc j) n i

-- The count of choice i, for any ballots, is modulo 2 ^ 64 the sum of the entries for i over the
-- ballots of the right length whose entries are all 0 or 1.
pub count_at-tally_approval :
    (n : ℕ) (bs : List Bytes) (i : ℕ) → count_at (tally n bs) i ≡ support n i bs % 2 ^ 64
unfolding tally
count_at-tally_approval n bs i =
    let zero_count = count_at-fresh 0 n i in
    omega (
      arith,
      zero_count,
      count_ballots_lem n bs (fresh 0 n) i (length-fresh 0 n) (omega (arith, zero_count)),
    )
