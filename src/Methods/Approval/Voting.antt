-- ===== src/Methods/Approval/Voting.antt =====
-- What `Vote` of approval.go puts on a ballot, and how that ballot counts.
use pebble_voting_app.Base.{
  ℕ, zero, suc, ◌<◌, ◌≡◌, refl, [], ◌∷◌, List, Bool, true, false, ◌||◌, if◌then◌else◌, ◌==◌, Bytes,
  arith, All, ok, replicate,
}
use pebble_voting_app.Methods.{count_at}
use pebble_voting_app.Methods.Approval.{set_one, mark, vote, tally}
use pebble_voting_app.Methods.Approval.Counting.{entry, is_proper, count_at-tally_approval}

abbrev pub is_chosen : List ℕ → ℕ → Bool
is_chosen [] i = false
is_chosen (c ∷ cs) i = (c == i) || is_chosen cs i

set_one_lem :
    (n c : ℕ) (b : Bytes)
    → is_proper n b ≡ true
    → c < n
    → (b' : Bytes) × (set_one b c ≡ ok b')
      × (is_proper n b' ≡ true)
      × ((i : ℕ) → entry b' i ≡ (if c == i then 1 else entry b i))
unfolding set_one
set_one_lem zero c b h g = absurd (omega arith)
set_one_lem (suc n) c [] h g = absurd (ground arith)
set_one_lem (suc n) zero (a ∷ b) h g = (1 ∷ b, refl, ground arith, at)
  where
    at : (i : ℕ) → entry (1 ∷ b) i ≡ (if 0 == i then 1 else entry (a ∷ b) i)
    at zero = refl
    at (suc i) = ground arith
set_one_lem (suc n) (suc c) (a ∷ b) h g =
    let (b', e, p, at) = set_one_lem n c b (ground arith) (omega arith) in
    (a ∷ b', rw e, ground arith, below b' at)
  where
    below :
        (b' : Bytes)
        → ((i : ℕ) → entry b' i ≡ (if c == i then 1 else entry b i))
        → (i : ℕ) → entry (a ∷ b') i ≡ (if suc c == i then 1 else entry (a ∷ b) i)
    below b' at zero = ground arith
    below b' at (suc i) = ground (arith, at i)

mark_lem :
    (n : ℕ) (cs : List ℕ) (b : Bytes)
    → is_proper n b ≡ true
    → All (λ c. c < n) cs
    → (b' : Bytes) × (mark b cs ≡ ok b')
      × (is_proper n b' ≡ true)
      × ((i : ℕ) → entry b' i ≡ (if is_chosen cs i then 1 else entry b i))
unfolding mark
mark_lem n [] b h g = (b, refl, h, λ i. refl)
mark_lem n (c ∷ cs) b h g =
    let (b1, e1, p1, at1) = set_one_lem n c b h g.0 in
    let (b2, e2, p2, at2) = mark_lem n cs b1 p1 g.1 in
    (b2, rw e1 e2, p2, λ i. ground (arith, at1 i, at2 i))

blank-IsProper : (n : ℕ) → is_proper n (replicate n 0) ≡ true
blank-IsProper zero = refl
blank-IsProper (suc n) = ground (arith, blank-IsProper n)

entry-blank : (n i : ℕ) → entry (replicate n 0) i ≡ 0
entry-blank zero i = refl
entry-blank (suc n) zero = refl
entry-blank (suc n) (suc i) = entry-blank n i

-- For choices below n, `Vote` gives a ballot, and the tally of that ballot alone counts 1 for
-- each choice that is among them and 0 for the others, however often a choice is named.
pub vote-tally :
    (n : ℕ) (cs : List ℕ)
    → All (λ c. c < n) cs
    → (b : Bytes) × (vote n cs ≡ ok b)
      × ((i : ℕ) → count_at (tally n (b ∷ [])) i ≡ (if is_chosen cs i then 1 else 0))
unfolding vote
vote-tally n cs h =
    let (b, e, p, at) = mark_lem n cs (replicate n 0) (blank-IsProper n) h in
    (b, e, λ i. ground (arith, count_at-tally_approval n (b ∷ []) i, at i, entry-blank n i, p))
