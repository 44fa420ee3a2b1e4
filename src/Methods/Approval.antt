-- ===== src/Methods/Approval.antt =====
-- pebble-core/voting/methods/approval.go. Choices are not negative.
pub mod Counting
pub mod Voting
use mathlib.Core.List.{foldl}
use pebble_voting_app.Base.{
  ℕ, zero, suc, ◌+◌, ◌*◌, ◌%◌, ◌^◌, ◌≤◌, ◌<◌, ◌≡◌, ◌∙◌, ap, refl, [], ◌∷◌, List, Bool, true, false,
  ◌&&◌, if◌then◌else◌, ltb, leb, ◌==◌, Result, ok, panic, ◌>>=◌, Bytes, length, arith, replicate,
  not,
}
use pebble_voting_app.Methods.{Tally, TallyCount, add64, fresh, count_at}

-- `b[c] = 1`, with Go's bounds check.
unfoldable pub set_one : Bytes → ℕ → Result Bytes
set_one [] c = panic
set_one (b ∷ bs) zero = ok (1 ∷ bs)
set_one (b ∷ bs) (suc c) = do bs' ← set_one bs c; ok (b ∷ bs')

unfoldable pub mark : Bytes → List ℕ → Result Bytes
mark b [] = ok b
mark b (c ∷ cs) = do b' ← set_one b c; mark b' cs

-- `Vote` fills a ballot of `n` choices.
unfoldable pub vote : ℕ → List ℕ → Result Bytes
unfolding mark set_one
vote n choices = mark (replicate n 0) choices

-- The inner loop that skips a ballot with an entry above 1.
unfoldable pub all_bits : Bytes → Bool
all_bits [] = true
all_bits (a ∷ b) = if ltb 1 a then false else all_bits b

-- The inner loop that adds the approvals. The lengths agree where it is called.
unfoldable pub add_ballot : Tally → Bytes → Tally
add_ballot [] b = []
add_ballot (t ∷ ts) [] = t ∷ ts
add_ballot (t ∷ ts) (a ∷ b) = record t { count = add64 t.count a } ∷ add_ballot ts b

-- One round of the loop over the ballots.
unfoldable pub count_ballot : ℕ → Tally → Bytes → Tally
unfolding all_bits add_ballot
count_ballot n tally b =
    if length b == n then (if all_bits b then add_ballot tally b else tally) else tally

unfoldable pub tally : ℕ → List Bytes → Tally
unfolding count_ballot fresh
tally n ballots = foldl (count_ballot n) (fresh 0 n) ballots
