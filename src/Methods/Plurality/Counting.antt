-- ===== src/Methods/Plurality/Counting.antt =====
-- What plurality.go counts, against a count that does not run the loops.
use pebble_voting_app.Base.{
  ℕ, zero, suc, ◌+◌, ◌%◌, ◌^◌, ◌≤◌, ◌<◌, ◌≡◌, ◌∙◌, ap, refl, [], ◌∷◌, List, Bool, true, false, ◌||◌,
  if◌then◌else◌, ltb, ◌==◌, Bytes, length, arith, ok, panic, bytes_eq, bytes_eq→eq, Bool-cases, inl,
  inr,
}
use pebble_voting_app.Methods.{Tally, fresh, count_at}
use pebble_voting_app.Methods.Approval.Counting.{length-fresh, count_at-fresh}
use pebble_voting_app.Methods.Plurality.{bump, count_ballot, count_ballots, tally}

-- Is there a ballot for the choice numbered `n`?
abbrev pub names : ℕ → List Bytes → Bool
names n [] = false
names n (b ∷ bs) = bytes_eq b (n ∷ []) || names n bs

-- How many ballots hold choice `i` and nothing else.
abbrev pub votes : ℕ → List Bytes → ℕ
votes i [] = 0
votes i (b ∷ bs) = (if bytes_eq b (i ∷ []) then 1 else 0) + votes i bs

bump_in :
    (t : Tally) (c : ℕ)
    → c < length t
    → (t' : Tally) × (bump t c ≡ ok t')
      × (length t' ≡ length t)
      × ((i : ℕ)
          → count_at t i < 2 ^ 64
          → count_at t' i ≡ (count_at t i + (if c == i then 1 else 0)) % 2 ^ 64)
unfolding bump
bump_in [] c h = absurd (omega arith)
bump_in (t ∷ ts) zero h = (_, refl, refl, at)
  where
    at :
        (i : ℕ)
        → count_at (t ∷ ts) i < 2 ^ 64
        → count_at (record t { count = (t.count + 1) % 2 ^ 64 } ∷ ts) i
          ≡ (count_at (t ∷ ts) i + (if 0 == i then 1 else 0)) % 2 ^ 64
    at zero g = refl
    at (suc i) g = ground arith
bump_in (t ∷ ts) (suc c) h =
    let (ts', e, l, at) = bump_in ts c (omega arith) in (t ∷ ts', rw e, ap suc l, below ts' at)
  where
    below :
        (ts' : Tally)
        → ((i : ℕ)
            → count_at ts i < 2 ^ 64
            → count_at ts' i ≡ (count_at ts i + (if c == i then 1 else 0)) % 2 ^ 64)
        → (i : ℕ) → count_at (t ∷ ts) i < 2 ^ 64
        → count_at (t ∷ ts') i ≡ (count_at (t ∷ ts) i + (if suc c == i then 1 else 0)) % 2 ^ 64
    below ts' at zero g = ground arith
    below ts' at (suc i) g = ground (arith, at i)

bump_out : (t : Tally) (c : ℕ) → length t ≤ c → bump t c ≡ panic
unfolding bump
bump_out [] c h = refl
bump_out (t ∷ ts) zero h = absurd (omega arith)
bump_out (t ∷ ts) (suc c) h = rw (bump_out ts c (omega arith))

-- One round: a ballot for the choice numbered `n` panics, and any other is counted or skipped.
count_ballot_lem :
    (n : ℕ) (t : Tally) (b : Bytes)
    → length t ≡ n
    → bytes_eq b (n ∷ []) ≡ false
    → (t' : Tally) × (count_ballot n t b ≡ ok t')
      × (length t' ≡ n)
      × ((i : ℕ)
          → i < n
          → count_at t i < 2 ^ 64
          → count_at t' i ≡ (count_at t i + (if bytes_eq b (i ∷ []) then 1 else 0)) % 2 ^ 64)
unfolding count_ballot
count_ballot_lem n t [] h g = (t, refl, h, λ i j k. omega arith)
count_ballot_lem n t (c ∷ d ∷ b) h g = (t, refl, h, λ i j k. ground arith)
count_ballot_lem n t (c ∷ []) h g = elim (Bool-cases (ltb n c)) [
  | inl above ↦ (t, rw above, h, λ i j k. ground arith)
  | inr within ↦
      let (t', e, l, at) = bump_in t c (ground arith) in
      (t', rw within e, l ∙ h, λ i j k. ground (arith, at i k))
]

count_ballots_lem :
    (n : ℕ) (bs : List Bytes) (t : Tally)
    → length t ≡ n
    → names n bs ≡ false
    → (t' : Tally) × (count_ballots n t bs ≡ ok t')
      × ((i : ℕ)
          → i < n
          → count_at t i < 2 ^ 64
          → count_at t' i ≡ (count_at t i + votes i bs) % 2 ^ 64)
unfolding count_ballots
count_ballots_lem n [] t h g = (t, refl, λ i j k. omega arith)
count_ballots_lem n (b ∷ bs) t h g =
    let (t1, e1, l1, at1) = count_ballot_lem n t b h (ground arith) in
    let (t2, e2, at2) = count_ballots_lem n bs t1 l1 (ground arith) in
    (t2, rw e1 e2, λ i j k. omega (arith, at1 i j k, at2 i j (omega (arith, at1 i j k))))

count_ballots_panic :
    (n : ℕ) (bs : List Bytes) (t : Tally)
    → length t ≡ n
    → names n bs ≡ true
    → count_ballots n t bs ≡ panic
unfolding count_ballots
count_ballots_panic n [] t h g = absurd (ground arith)
count_ballots_panic n (b ∷ bs) t h g = elim (Bool-cases (bytes_eq b (n ∷ []))) [
  | inl bad ↦
      rw (bytes_eq→eq b (n ∷ []) bad)
        (unfold count_ballot in ground (arith, bump_out t n (omega arith)))
  | inr good ↦
      let (t1, e1, l1, at1) = count_ballot_lem n t b h good in
      rw e1 (count_ballots_panic n bs t1 l1 (ground arith))
]

-- If no ballot is for the choice numbered n, the tally of n choices returns, and the count of a
-- choice i below n is modulo 2 ^ 64 the number of ballots for i.
pub count_at-tally_plurality :
    (n : ℕ) (bs : List Bytes)
    → names n bs ≡ false
    → (t : Tally) × (tally n bs ≡ ok t) × ((i : ℕ) → i < n → count_at t i ≡ votes i bs % 2 ^ 64)
unfolding tally
count_at-tally_plurality n bs h =
    let (t, e, at) = count_ballots_lem n bs (fresh 0 n) (length-fresh 0 n) h in
    (
      t,
      e,
      λ i j.
          let zero_count = count_at-fresh 0 n i in
          omega (arith, zero_count, at i j (omega (arith, zero_count))),
    )

-- If some ballot is for the choice numbered n, one past the last of n choices, the tally panics,
-- whatever the other ballots are.
pub tally-panic : (n : ℕ) (bs : List Bytes) → names n bs ≡ true → tally n bs ≡ panic
unfolding tally
tally-panic n bs h = count_ballots_panic n bs (fresh 0 n) (length-fresh 0 n) h
