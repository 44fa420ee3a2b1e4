-- ===== src/Voting/Params/Phases.antt =====
-- election_params.go: the phases and the clock.
use pebble_voting_app.Base.{◌≤◌, ◌≡◌, true, false, arith}
use pebble_voting_app.Base.Int.{ℤ, ltb_ℤ, pos}
use pebble_voting_app.Voting.Params.{Time, before, ElectionParams, phase, number}

ltb_ℤ_trans : (a b c : ℤ) → ltb_ℤ b a ≡ false → ltb_ℤ b c ≡ true → ltb_ℤ a c ≡ true
ltb_ℤ_trans (pos a) (pos b) (pos c) h k = ground arith
ltb_ℤ_trans a b c h k = ground arith

-- A time that is not after `u` is before whatever `u` is before.
before_trans : (t u v : Time) → before u t ≡ false → before u v ≡ true → before t v ≡ true
unfolding before
before_trans t u v h k = ground (arith)

-- If `later` is not before `now`, the phase at `later` is not earlier than the phase at `now`,
-- however the dates are set.
phase_mono :
    (p : ElectionParams) (now later : Time)
    → before later now ≡ false
    → number (phase now p) ≤ number (phase later p)
unfolding phase
phase_mono p now later h = ground (
  arith,
  before_trans now later p.cast_start h,
  before_trans now later p.tally_start h,
  before_trans now later p.tally_end h,
)
