-- ===== src/Runs/Turnouts.antt =====
-- An election over anoncred1.go with two voters, who both vote.
use mathlib.Core.List.Permᴰ
use pebble_voting_app.Base.{ℕ, ◌≡◌, ◌≤◌, refl, [], ◌∷◌, ◌++◌, List, ◌⊎◌, Bytes, ok, arith}
use pebble_voting_app.Util.BytesSet
use pebble_voting_app.Util.Buffer.{write, write_vector}
use pebble_voting_app.Util.Slices.{concat}
use pebble_voting_app.Pubkey
use pebble_voting_app.Anoncred.{CredentialSystem}
use pebble_voting_app.Anoncred.AnonCred1.{
  setup_circuit, verify, hash_merkle_tree, read_public_credential,
}
use pebble_voting_app.Anoncred.AnonCred1.Sets.{
  make_credential_set, make_sorted, without_repeats, set_verify,
}
use pebble_voting_app.Anoncred.AnonCred1.Contract.{anoncred1}
use pebble_voting_app.Anoncred.AnonCred1.Soundness.{Collision}
use pebble_voting_app.Structs.CredentialMessage.{CredentialMessage}
use pebble_voting_app.Structs.EncryptedBallot
use pebble_voting_app.Structs.SignedBallot
use pebble_voting_app.Structs.SignedBallot.{SignedBallot}
use pebble_voting_app.Voting.Params.{before, phase, cast}
use pebble_voting_app.Voting.Message.{Message, of_credential, of_ballot}
use pebble_voting_app.Voting.Election.{
  ElectionProgress, insert, signed_ballots, decryptions, verify_credential, verify_ballot, collect,
  collect_credential, get_credential_set, count_ballot, count_ballots, report, progress,
}
use pebble_voting_app.Voting.Election.Turnout.{progress_turnout}
use pebble_voting_app.Runs.{keys, toy_ciphers, at, election, sealed}
use pebble_voting_app.Runs.Credentials.{digest, hash, holder, leaf, as_given, given}
use pebble_voting_app.Runs.Votes.{strict, agree, same?, sound, one_level, pair, ballot}

-- Every message has the same hash.
abbrev one_hash : Bytes → Bytes
one_hash m = hash ballot

abbrev system : CredentialSystem
system = anoncred1 strict one_hash as_given one_level

abbrev registration : ℕ → CredentialMessage
registration n = record { credential = leaf n; public_key = 1 ∷ n ∷ []; signature = 1 ∷ leaf n }

abbrev vote_of : ℕ → SignedBallot
vote_of n = record {
  encrypted_ballot = sealed;
  serial_no = (holder n).serial_no;
  signature = digest (hash ballot) (holder n).secret ++ (7 ∷ []);
}

abbrev channel : List Message
channel =
    of_credential (registration 3)
    ∷ of_credential (registration 4)
    ∷ of_ballot (vote_of 3)
    ∷ of_ballot (vote_of 4)
    ∷ []

abbrev both : ElectionProgress
both = record { phase = cast; count = 2; total = 2; tally = [] }

set_of_both :
    get_credential_set system keys toy_ciphers (λ cs. cs) election (at 15) (ok channel) ≡ ok pair
unfolding get_credential_set collect collect_credential phase before verify_credential insert
    Pubkey.verify concat read_public_credential make_credential_set make_sorted without_repeats
    hash_merkle_tree
set_of_both = refl

both_counted :
    progress system keys toy_ciphers (λ cs. cs) election (at 15) (at 15) (ok channel) (ok channel)
    ≡ ok both
unfolding progress get_credential_set collect collect_credential phase before verify_credential
    insert Pubkey.verify concat read_public_credential make_credential_set make_sorted
    without_repeats hash_merkle_tree count_ballots count_ballot verify_ballot SignedBallot.bytes
    EncryptedBallot.bytes write_vector write signed_ballots decryptions BytesSet.contains report
    set_verify verify
both_counted = refl

in_cast : phase (at 15) election.params ≡ cast
unfolding phase before
in_cast = refl

progress_turnout_example : (both.count ≤ both.total) ⊎ Collision strict
unfolding setup_circuit signed_ballots verify_ballot SignedBallot.bytes EncryptedBallot.bytes
    write_vector write set_verify verify
progress_turnout_example =
    progress_turnout strict one_hash as_given one_level keys toy_ciphers (λ cs. cs) agree same?
      sound given refl (λ cs. Permᴰ.refl cs) election (at 15) (at 15) channel channel pair both
      in_cast (omega arith) (omega arith) set_of_both both_counted (((λ e. cc), tt), (tt, tt))
