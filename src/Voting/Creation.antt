-- ===== src/Voting/Creation.antt =====
-- pebble-core/voting/election.go, `NewElection`.
use pebble_voting_app.Base.{
  ℕ, Bool, Bytes, Result, ok, err, instance_missing, length, if◌then◌else◌, ◌>>=◌, >>=-eq-ok,
  ok_injective, ◌≡◌, sym, ap, true, false, arith,
}
use pebble_voting_app.Vdf.{Vdf}
use pebble_voting_app.Vdf.Pietrzak.{PietrzakVdf}
use pebble_voting_app.Methods.Choice
use pebble_voting_app.Voting.Params.{ElectionParams}
use pebble_voting_app.Voting.Election.{Election}

-- `loaded` says whether AnonCred1Instance is set, and `channel_params` is the channel's answer;
-- `conversion` is the floating-point quotient, and `methods` gives the methods of a PietrzakVdf.
unfoldable pub new_election :
    (loaded : Bool)
    → (conversion : ElectionParams → ℕ) → (methods : PietrzakVdf → Vdf) → (id : Bytes)
    → (channel_params : Result ElectionParams) → Result Election
new_election loaded conversion methods id channel_params =
    if loaded
    then (do
      params ← channel_params
      method ← Choice.get params.voting_method (length params.choices)
      let vdf : PietrzakVdf = record {
        max_difficulty = params.max_vdf_difficulty;
        difficulty_conversion = conversion params;
      }
      ok (record { id = id; vdf = methods vdf; method = method; params = params }))
    else err instance_missing

-- The election is that of the channel: its id and its parameters.
pub new_election-fields :
    (loaded : Bool) (conversion : ElectionParams → ℕ) (methods : PietrzakVdf → Vdf) (id : Bytes)
    (params : ElectionParams) (e : Election)
    → new_election loaded conversion methods id (ok params) ≡ ok e
    → (e.id ≡ id) × (e.params ≡ params)
unfolding new_election
new_election-fields true conversion methods id params e made =
    let (method, chosen, made') =
      >>=-eq-ok (Choice.get params.voting_method (length params.choices)) _ made in
    (
      sym (ap (λ (x : Election). x.id) (ok_injective made')),
      sym (ap (λ (x : Election). x.params) (ok_injective made')),
    )
new_election-fields false conversion methods id params e made = absurd (ground arith)
