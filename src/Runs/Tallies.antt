-- ===== src/Runs/Tallies.antt =====
-- The theorems on the tally at a small election.
use pebble_voting_app.Base.{
  ◌-◌, ◌%◌, ◌^◌, ◌==◌, if◌then◌else◌, ◌≤◌, ◌≡◌, refl, arith, [], ◌∷◌, List, Bytes, ok, length,
}
use pebble_voting_app.Util.BytesSet
use pebble_voting_app.Util.Slices.{concat}
use pebble_voting_app.Pubkey
use pebble_voting_app.Structs.EncryptedBallot
use pebble_voting_app.Structs.EncryptedBallot.Sealing.{create_cipher, decrypt}
use pebble_voting_app.Structs.SignedBallot
use pebble_voting_app.Structs.SignedBallot.{SignedBallot}
use pebble_voting_app.Util.Buffer.{write, write_vector}
use pebble_voting_app.Methods.Approval
use pebble_voting_app.Methods.Choice
use pebble_voting_app.Voting.Params.{before, phase, number, tally}
use pebble_voting_app.Voting.Election.{
  ElectionProgress, insert, signed_ballots, decryptions, verify_credential, verify_ballot,
  decrypt_ballot, tally_ballot, collect, collect_credential, get_credential_set, count_ballot,
  count_ballots, report, progress,
}
use pebble_voting_app.Methods.{count_at}
use pebble_voting_app.Methods.Approval.Counting.{support}
use pebble_voting_app.Voting.Election.Openings.{accepted, opened, spoiled}
use pebble_voting_app.Voting.Election.Tallying.{progress-tally, progress-approval}
use pebble_voting_app.Runs.Elections.{same_order}
use pebble_voting_app.Runs.{plain, keys, toy_ciphers, at, election, params, messages}

abbrev at_tally : ElectionProgress
at_tally = record {
  phase = tally;
  count = 1;
  total = 1;
  tally = record { index = 0; count = 1 } ∷ record { index = 1; count = 0 } ∷ [];
}

tallied :
    progress plain keys toy_ciphers same_order election (at 25) (at 25) (ok messages) (ok messages)
    ≡ ok at_tally
unfolding progress get_credential_set collect collect_credential phase before verify_credential
    insert Pubkey.verify concat count_ballots count_ballot verify_ballot SignedBallot.bytes
    EncryptedBallot.bytes write_vector write signed_ballots decryptions BytesSet.contains report
    tally_ballot decrypt_ballot decrypt create_cipher Choice.tally Approval.tally
tallied = refl

in_tally : number tally ≤ number (phase (at 25) params)
unfolding phase before
in_tally = omega arith

tally_set :
    get_credential_set plain keys toy_ciphers same_order election (at 25) (ok messages)
    ≡ ok ((5 ∷ []) ∷ [])
unfolding get_credential_set collect collect_credential phase before verify_credential insert
    Pubkey.verify concat
tally_set = refl

-- The signed ballots of the election that verify, and their contents.
abbrev good_ballots : List SignedBallot
good_ballots = accepted plain keys toy_ciphers same_order ((5 ∷ []) ∷ []) (signed_ballots messages)

abbrev votes : List Bytes
votes = opened toy_ciphers election (decryptions messages) good_ballots

progress-tally_example :
    (Choice.tally election.method votes ≡ ok at_tally.tally)
    × (at_tally.count ≡ length votes)
    × (at_tally.total
        ≡ length good_ballots
          - (if number (phase (at 25) params) == number tally
              then spoiled toy_ciphers election (decryptions messages) good_ballots
              else 0))
progress-tally_example =
    progress-tally plain keys toy_ciphers same_order election (at 25) (at 25) (ok messages) messages
      ((5 ∷ []) ∷ []) at_tally in_tally tally_set tallied

progress-approval_example : count_at at_tally.tally 0 ≡ support 2 0 votes % 2 ^ 64
progress-approval_example =
    progress-approval plain keys toy_ciphers same_order election 2 (at 25) (at 25) (ok messages)
      messages ((5 ∷ []) ∷ []) at_tally 0 refl in_tally tally_set tallied
