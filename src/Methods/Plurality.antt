-- ===== src/Methods/Plurality.antt =====
-- pebble-core/voting/methods/plurality.go. Choices are not negative.
pub mod Counting
use pebble_voting_app.Base.{
  ℕ, zero, suc, ◌+◌, ◌%◌, ◌^◌, ◌≤◌, ◌<◌, ◌≡◌, [], ◌∷◌, List, Bool, if◌then◌else◌, ltb, Result, ok,
  panic, ◌>>=◌, Bytes,
}
use pebble_voting_app.Methods.{Tally, TallyCount, add64, fresh, count_at}

-- `Vote` takes exactly one choice, and keeps its low byte.
unfoldable pub vote : List ℕ → Result Bytes
vote (c ∷ []) = ok (c % 256 ∷ [])
vote choices = panic

-- `tally[c].Count++`, with Go's bounds check.
unfoldable pub bump : Tally → ℕ → Result Tally
bump [] c = panic
bump (t ∷ ts) zero = ok (record t { count = add64 t.count 1 } ∷ ts)
bump (t ∷ ts) (suc c) = do ts' ← bump ts c; ok (t ∷ ts')

-- One round of the loop over the ballots.
unfoldable pub count_ballot : ℕ → Tally → Bytes → Result Tally
unfolding bump
count_ballot n tally (c ∷ []) = if ltb n c then ok tally else bump tally c
count_ballot n tally b = ok tally

unfoldable pub count_ballots : ℕ → Tally → List Bytes → Result Tally
unfolding count_ballot
count_ballots n tally [] = ok tally
count_ballots n tally (b ∷ bs) = do tally' ← count_ballot n tally b; count_ballots n tally' bs

unfoldable pub tally : ℕ → List Bytes → Result Tally
unfolding count_ballots fresh
tally n ballots = count_ballots n (fresh 0 n) ballots
