-- ===== src/Runs/Counts.antt =====
-- The theorems on ballots and tallies at small elections.
use pebble_voting_app.Base.{
  ℕ, ◌%◌, ◌^◌, ◌<◌, ◌≡◌, refl, arith, [], ◌∷◌, List, Bytes, ok, panic, if◌then◌else◌,
}
use pebble_voting_app.Methods.{Tally, count_at}
use pebble_voting_app.Methods.Approval
use pebble_voting_app.Methods.Approval.Counting.{support}
use pebble_voting_app.Methods.Approval.Voting.{is_chosen, vote-tally}
use pebble_voting_app.Methods.Plurality
use pebble_voting_app.Methods.Plurality.Counting.{votes, count_at-tally_plurality, tally-panic}

abbrev approvals : List Bytes
approvals = (1 ∷ 0 ∷ []) ∷ (1 ∷ 1 ∷ []) ∷ (1 ∷ 2 ∷ []) ∷ (1 ∷ []) ∷ []

abbrev single : List Bytes
single = (1 ∷ []) ∷ (0 ∷ []) ∷ (1 ∷ []) ∷ (9 ∷ []) ∷ []

two_approve : support 2 0 approvals ≡ 2
two_approve = refl

vote-tally_example :
    (b : Bytes) × (Approval.vote 3 (2 ∷ 0 ∷ 2 ∷ []) ≡ ok b)
    × ((i : ℕ)
        → count_at (Approval.tally 3 (b ∷ [])) i ≡ (if is_chosen (2 ∷ 0 ∷ 2 ∷ []) i then 1 else 0))
vote-tally_example = vote-tally 3 (2 ∷ 0 ∷ 2 ∷ []) (omega arith, (omega arith, (omega arith, tt)))

count_at-tally_plurality_example :
    (t : Tally) × (Plurality.tally 2 single ≡ ok t)
    × ((i : ℕ) → i < 2 → count_at t i ≡ votes i single % 2 ^ 64)
count_at-tally_plurality_example = count_at-tally_plurality 2 single refl

tally-panic_example : Plurality.tally 2 ((0 ∷ []) ∷ (2 ∷ []) ∷ []) ≡ panic
tally-panic_example = tally-panic 2 ((0 ∷ []) ∷ (2 ∷ []) ∷ []) refl
