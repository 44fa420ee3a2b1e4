-- ===== src/Methods/Choice.antt =====
-- pebble-core/voting/methods/voting_method.go: the methods behind one interface, and the order in
-- which a tally is sorted.
use pebble_voting_app.Base.{
  ℕ, Bool, true, List, if◌then◌else◌, ltb, Result, ok, err, Bytes, codes, bytes_eq,
  unknown_voting_method,
}
use pebble_voting_app.Methods.{Tally, TallyCount}
use pebble_voting_app.Methods.Approval
use pebble_voting_app.Methods.Plurality

-- The implementations of the interface, with their number of choices.
pub data VotingMethod : Type 0 where
  approval plurality : ℕ → VotingMethod

unfoldable pub get : Bytes → ℕ → Result VotingMethod
get method n =
    if bytes_eq method (codes "Approval")
    then ok (approval n)
    else if bytes_eq method (codes "Plurality")
    then ok (plurality n)
    else err unknown_voting_method

unfoldable pub vote : VotingMethod → List ℕ → Result Bytes
vote (approval n) choices = Approval.vote n choices
vote (plurality n) choices = Plurality.vote choices

unfoldable pub tally : VotingMethod → List Bytes → Result Tally
tally (approval n) ballots = ok (Approval.tally n ballots)
tally (plurality n) ballots = Plurality.tally n ballots

-- `Less(i, j)` at the entries of the two positions.
unfoldable pub less : TallyCount → TallyCount → Bool
less s t = if ltb s.count t.count then true else ltb s.index t.index
