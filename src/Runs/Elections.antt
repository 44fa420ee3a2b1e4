-- ===== src/Runs/Elections.antt =====
-- The theorems on the election at a small election.
use pebble_voting_app.Base.{
  ◌+◌, ◌≡◌, ◌≢◌, ◌∙◌, map, refl, arith, [], ◌∷◌, ◌++◌, List, none, Bytes, ok, invalid_signature,
  length, bytes_eq, bytes_eq→eq, All, inl, inr, Bool-cases, ok_injective,
}
use pebble_voting_app.Util.BytesSet
use pebble_voting_app.Util.Slices.{concat}
use pebble_voting_app.Pubkey
use pebble_voting_app.Structs.DecryptionMessage.{DecryptionMessage}
use pebble_voting_app.Structs.EncryptedBallot
use pebble_voting_app.Structs.EncryptedBallot.Sealing.{create_cipher, decrypt}
use pebble_voting_app.Structs.SignedBallot
use pebble_voting_app.Structs.SignedBallot.{SignedBallot}
use pebble_voting_app.Structs.EligibilityList.{EligibilityList}
use pebble_voting_app.Util.Buffer.{write, write_vector}
use pebble_voting_app.Voting.Params.{before, phase, cast}
use pebble_voting_app.Voting.Message.{of_ballot}
use pebble_voting_app.Voting.Signing.{sign_ballot}
use pebble_voting_app.Voting.Election.{
  ElectionProgress, Creds, insert, signed_ballots, decryptions, verify_credential, verify_ballot,
  decrypt_ballot, collect, collect_credential, get_credential_set, count_ballot, count_ballots,
  report, progress,
}
use pebble_voting_app.Voting.Election.Progress.{verified}
use pebble_voting_app.Voting.Election.Decryption.{
  Solves, Fails, solution, decrypt_ballot_sound, decrypt_ballot_complete,
}
use pebble_voting_app.Voting.Election.Reports.{progress-cast, progress-append}
use pebble_voting_app.Voting.Election.Collecting.{value_at, last_of}
use pebble_voting_app.Voting.Election.Credentials.{NoRepeats, get_credential_set-last}
use pebble_voting_app.Voting.Election.Eligibility.{with_list, progress-with_list}
use pebble_voting_app.Voting.Casting.OwnBallot.{BindsMessage, verify_ballot-sign_ballot}
use pebble_voting_app.Runs.{
  plain, binding, keys, toy_ciphers, toy_vdf, at, check, election, params, sealed, ballot,
  decryption, forged, messages,
}

abbrev pub same_order : List Bytes → List Bytes
same_order ps = ps

in_cast : phase (at 15) params ≡ cast
unfolding phase before
in_cast = refl

set_made :
    get_credential_set plain keys toy_ciphers same_order election (at 15) (ok messages)
    ≡ ok ((5 ∷ []) ∷ [])
unfolding get_credential_set collect collect_credential phase before verify_credential insert
    Pubkey.verify concat
set_made = refl

get_credential_set-last_example :
    (creds : Creds plain keys toy_ciphers same_order) × NoRepeats plain keys toy_ciphers same_order
      creds
    × ((k : Bytes)
        → value_at k creds ≡ last_of plain keys toy_ciphers same_order (1 ∷ []) k messages)
    × (plain.make_credential_set (same_order (map (λ (p : Bytes × Bytes). p.1) creds))
        ≡ ok ((5 ∷ []) ∷ []))
get_credential_set-last_example =
    get_credential_set-last plain keys toy_ciphers same_order election (at 15) messages
      ((5 ∷ []) ∷ []) set_made

ballot_verifies : verify_ballot plain keys toy_ciphers same_order ((5 ∷ []) ∷ []) ballot ≡ ok tt
unfolding verify_ballot SignedBallot.bytes EncryptedBallot.bytes write_vector write
ballot_verifies = refl

-- The whole of the channel is read again for each report.
abbrev at_cast : ElectionProgress
at_cast = record { phase = cast; count = 1; total = 1; tally = [] }

cast_once :
    progress plain keys toy_ciphers same_order election (at 15) (at 15) (ok messages) (ok messages)
    ≡ ok at_cast
unfolding progress get_credential_set collect collect_credential phase before verify_credential
    insert Pubkey.verify concat count_ballots count_ballot verify_ballot SignedBallot.bytes
    EncryptedBallot.bytes write_vector write signed_ballots decryptions BytesSet.contains report
cast_once = refl

-- The same ballot once more.
abbrev cast_again : ElectionProgress
cast_again = record at_cast { count = 2 }

cast_twice :
    progress plain keys toy_ciphers same_order election
      (at 15)
      (at 15)
      (ok messages)
      (ok (messages ++ (of_ballot ballot ∷ [])))
    ≡ ok cast_again
unfolding progress get_credential_set collect collect_credential phase before verify_credential
    insert Pubkey.verify concat count_ballots count_ballot verify_ballot SignedBallot.bytes
    EncryptedBallot.bytes write_vector write signed_ballots decryptions BytesSet.contains report
cast_twice = refl

progress-cast_example :
    (at_cast.count
      ≡ verified plain keys toy_ciphers same_order ((5 ∷ []) ∷ []) (signed_ballots messages))
    × (at_cast.total ≡ length {A = Bytes} ((5 ∷ []) ∷ []))
progress-cast_example =
    progress-cast plain keys toy_ciphers same_order election (at 15) (at 15) (ok messages) messages
      ((5 ∷ []) ∷ []) at_cast in_cast set_made cast_once

progress-append_example : cast_again.count ≡ at_cast.count + 1
progress-append_example =
    progress-append plain keys toy_ciphers same_order election (at 15) (at 15) (ok messages)
      messages ballot ((5 ∷ []) ∷ []) at_cast cast_again in_cast set_made ballot_verifies cast_once
      cast_twice

abbrev other_list : EligibilityList
other_list = record { public_key_hashes = (9 ∷ []) ∷ []; id_commitments = none }

progress-with_list_example :
    progress plain keys toy_ciphers same_order
      (with_list election other_list)
      (at 25)
      (at 25)
      (ok messages)
      (ok messages)
    ≡ progress plain keys toy_ciphers same_order election
        (at 25)
        (at 25)
        (ok messages)
        (ok messages)
progress-with_list_example =
    progress-with_list plain keys toy_ciphers same_order election other_list (at 25) (at 25)
      (ok messages) (ok messages)

opened : decrypt_ballot toy_ciphers toy_vdf sealed (forged ∷ decryption ∷ []) ≡ ok (1 ∷ 0 ∷ [])
unfolding decrypt_ballot decrypt create_cipher
opened = refl

decrypt_ballot_sound_example :
    (front : List DecryptionMessage) × (d : DecryptionMessage) × (back : List DecryptionMessage)
    × (forged ∷ decryption ∷ [] ≡ front ++ d ∷ back)
    × Solves toy_ciphers toy_vdf sealed d
    × (decrypt toy_ciphers sealed (solution sealed d) ≡ ok (1 ∷ 0 ∷ []))
decrypt_ballot_sound_example =
    decrypt_ballot_sound toy_ciphers toy_vdf sealed (forged ∷ decryption ∷ []) (1 ∷ 0 ∷ []) opened

forged-Fails : All (Fails toy_ciphers toy_vdf sealed) (forged ∷ [])
forged-Fails = (inr (invalid_signature, refl), tt)

decryption-Solves : Solves toy_ciphers toy_vdf sealed decryption
decryption-Solves = record { hash = refl; verified = refl }

decrypt_ballot_complete_example :
    decrypt_ballot toy_ciphers toy_vdf sealed ((forged ∷ []) ++ decryption ∷ [])
    ≡ decrypt toy_ciphers sealed (solution sealed decryption)
decrypt_ballot_complete_example =
    decrypt_ballot_complete toy_ciphers toy_vdf sealed (forged ∷ []) decryption [] forged-Fails
      decryption-Solves

check_passes : (m s : Bytes) → check (bytes_eq s m) ≡ ok tt → s ≡ m
check_passes m s e = elim (Bool-cases (bytes_eq s m)) [
  | inl same ↦ bytes_eq→eq s m same
  | inr other ↦ absurd (ground arith)
]

signatures_bind : BindsMessage binding keys toy_ciphers same_order ((5 ∷ []) ∷ []) (5 ∷ [])
signatures_bind m m' sig made passed = ok_injective made ∙ check_passes m' sig passed

abbrev own : SignedBallot
own = record { encrypted_ballot = sealed; serial_no = 5 ∷ []; signature = 1 ∷ 3 ∷ sealed.payload }

own_signed : sign_ballot binding sealed ((5 ∷ []) ∷ []) (5 ∷ []) ≡ ok own
unfolding sign_ballot EncryptedBallot.bytes write_vector write
own_signed = refl

verify_ballot-sign_ballot_example :
    verify_ballot binding keys toy_ciphers same_order ((5 ∷ []) ∷ []) own ≢ ok tt
verify_ballot-sign_ballot_example =
    verify_ballot-sign_ballot binding keys toy_ciphers same_order sealed ((5 ∷ []) ∷ []) (5 ∷ [])
      own signatures_bind own_signed
