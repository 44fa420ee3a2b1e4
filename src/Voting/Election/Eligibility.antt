-- ===== src/Voting/Election/Eligibility.antt =====
-- `GetCredentialSet` of election.go and the eligibility list.
use pebble_voting_app.Base.{◌≡◌, refl, [], ◌∷◌, List, Result, fun_ext}
use pebble_voting_app.Util.BytesSet.{BytesSet}
use pebble_voting_app.Pubkey.{Schemes}
use pebble_voting_app.Anoncred.{CredentialSystem}
use pebble_voting_app.Structs.DecryptionMessage.{DecryptionMessage}
use pebble_voting_app.Structs.EncryptedBallot.Sealing.{Ciphers}
use pebble_voting_app.Structs.EligibilityList.{EligibilityList}
use pebble_voting_app.Structs.SignedBallot.{SignedBallot}
use pebble_voting_app.Voting.Params.{Time, ElectionPhase, phase, cast}
use pebble_voting_app.Voting.Message.{Message}
use pebble_voting_app.Voting.Election.{
  Election, Counts, get_credential_set, count_ballots, report, progress,
}

-- The same election with another list of eligible keys.
abbrev pub with_list : Election → EligibilityList → Election
with_list e list = record e { params = record e.params { eligibility_list = list } }

module _ (sys : CredentialSystem) (schemes : Schemes) (ciphers : Ciphers)
    (iteration : List sys.PublicCredential → List sys.PublicCredential) where
  open sys use {PublicCredential, CredentialSet, read_public_credential}

  count_ballots-with_list :
      (e : Election) (list : EligibilityList) (ph : ElectionPhase) (set : CredentialSet)
      (decs : List DecryptionMessage) (s : BytesSet) (c : Counts) (bs : List SignedBallot)
      → count_ballots sys schemes ciphers iteration (with_list e list) ph set decs s c bs
        ≡ count_ballots sys schemes ciphers iteration e ph set decs s c bs
  unfolding count_ballots
  count_ballots-with_list e list ph set decs s c [] = refl
  count_ballots-with_list e list ph set decs s c (b ∷ bs) =
      rw (fun_ext λ c'. count_ballots-with_list e list ph set decs s c' bs)

  report-with_list :
      (e : Election) (list : EligibilityList) (ph : ElectionPhase) (set : CredentialSet)
      (c : Counts)
      → report sys schemes ciphers iteration (with_list e list) ph set c
        ≡ report sys schemes ciphers iteration e ph set c
  unfolding report
  report-with_list e list cast set c = refl
  report-with_list e list _ set c = refl

  -- `Progress` gives the same result when the election's eligibility list is replaced by any
  -- other.
  pub progress-with_list :
      (e : Election) (list : EligibilityList) (now later : Time)
      (first second : Result (List Message))
      → progress sys schemes ciphers iteration (with_list e list) now later first second
        ≡ progress sys schemes ciphers iteration e now later first second
  unfolding progress get_credential_set phase
  progress-with_list e list now later first second =
      simp (count_ballots-with_list e list, report-with_list e list)
