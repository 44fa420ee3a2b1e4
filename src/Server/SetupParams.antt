-- ===== src/Server/SetupParams.antt =====
-- pebble-core/server/setup_params.go: the parameters of an election as its administrator gives
-- them.
pub mod Eligible
pub mod Schedule
use pebble_voting_app.Base.{ℕ, [], ◌∷◌, List, Bool, Option, none, some, Bytes, Result, ok, ◌>>=◌}
use pebble_voting_app.Pubkey.{Schemes}
use pebble_voting_app.Pubkey.Text
use pebble_voting_app.Structs.EligibilityList
use pebble_voting_app.Structs.EligibilityList.{EligibilityList}
use pebble_voting_app.Voting.Params.{ElectionParams, Time}
use pebble_voting_app.Voting.Durations.{sub, mul64, add}
use pebble_voting_app.Voting.Election.{caught}

pub record ElectionSetupVoter : Type 0 where
  pub id : Bytes
  pub key : Bytes

pub record ElectionSetupParams : Type 0 where
  pub admin_id : Bytes
  pub title : Bytes
  pub description : Bytes
  pub vote_start : Bytes
  pub vote_end : Bytes
  pub vdf_difficulty : Bytes
  pub voting_method : Bytes
  pub choices : List Bytes
  pub voters : List ElectionSetupVoter

-- `parse_time` is time.Parse for RFC 3339.
module _ (schemes : Schemes) (parse_time : Bytes → Result Time) where
  -- The loop over the voters. A key that does not parse is skipped, and so is what `Add` answers.
  unfoldable pub add_voters : EligibilityList → List ElectionSetupVoter → Result EligibilityList
  add_voters list [] = ok list
  add_voters list (v ∷ vs) = do
    parsed ← caught (Text.parse schemes v.key)
    list' ← elim parsed [
      | none ↦ ok list
      | some pk ↦ do
        (l, added) ← EligibilityList.add list (schemes.sha256 pk) (schemes.sha256 v.id)
        ok l
    ]
    add_voters list' vs

  -- The largest difficulty is not set.
  unfoldable pub params : ElectionSetupParams → Result ElectionParams
  unfolding add_voters
  params sp = do
    cast_start ← parse_time sp.vote_start
    tally_start ← parse_time sp.vote_end
    list ← add_voters EligibilityList.new sp.voters
    ok (record {
      version = 0;
      cast_start = cast_start;
      tally_start = tally_start;
      tally_end = add tally_start (mul64 (sub tally_start cast_start) 100);
      max_vdf_difficulty = 0;
      voting_method = sp.voting_method;
      title = sp.title;
      description = sp.description;
      choices = sp.choices;
      eligibility_list = list;
    })
