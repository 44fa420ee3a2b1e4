-- ===== src/Methods.antt =====
-- pebble-core/voting/methods: how ballots are filled in and counted.
pub mod Approval
pub mod Plurality
pub mod Choice
use pebble_voting_app.Base.{
  ℕ, zero, suc, ◌+◌, ◌%◌, ◌^◌, ◌<◌, [], ◌∷◌, List, Bool, ◌||◌, if◌then◌else◌, ltb, Result, ok,
  panic, ◌>>=◌, Bytes,
}

-- voting_method.go
pub record TallyCount : Type 0 where
  pub index : ℕ
  pub count : ℕ

abbrev pub Tally : Type 0
Tally = List TallyCount

-- A uint64 wraps.
abbrev pub add64 : ℕ → ℕ → ℕ
add64 a b = (a + b) % 2 ^ 64

-- Both methods begin with `n` zero counts, numbered from `i`.
unfoldable pub fresh : ℕ → ℕ → Tally
fresh i zero = []
fresh i (suc n) = record { index = i; count = 0 } ∷ fresh (suc i) n

-- The count at a position; 0 where there is none.
abbrev pub count_at : Tally → ℕ → ℕ
count_at [] i = 0
count_at (t ∷ ts) zero = t.count
count_at (t ∷ ts) (suc i) = count_at ts i
