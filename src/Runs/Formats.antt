-- ===== src/Runs/Formats.antt =====
-- The theorems on wire formats and on the eligibility list at concrete messages.
use pebble_voting_app.Base.{
  ◌≡◌, refl, arith, [], ◌∷◌, ◌++◌, true, false, some, Bytes, ok, panic, length, replicate, ◌>>=◌,
  inl, ◌⊎◌, false,
}
use pebble_voting_app.Util.BytesSet.{BytesSet, empty}
use pebble_voting_app.Util.BytesSet
use pebble_voting_app.Util.BytesSet.Membership.{holds}
use pebble_voting_app.Util.BytesSet.Sets.{put_all, is_among, put_all-contains}
use pebble_voting_app.Util.Buffer.{read_vector, read_remaining}
use pebble_voting_app.Structs.EncryptedBallot.{EncryptedBallot}
use pebble_voting_app.Structs.EncryptedBallot.Sealing.{
  create_cipher, encrypt, decrypt, decrypt-encrypt,
}
use pebble_voting_app.Structs.CredentialMessage
use pebble_voting_app.Structs.CredentialMessage.{CredentialMessage}
use pebble_voting_app.Structs.EligibilityList
use pebble_voting_app.Structs.EligibilityList.{
  EligibilityList, new, add, contains, lookup, id_commitment, ell_magic,
}
use pebble_voting_app.Structs.EligibilityList.Decoding.{from_bytes-bytes_panic}
use pebble_voting_app.Voting.Params.RoundTrip.{Fits, truncated}
use pebble_voting_app.Voting.Message.{of_credential, of_params, bytes, from_bytes}
use pebble_voting_app.Voting.Message.RoundTrip.{
  Postable, from_bytes-bytes, from_bytes-params, from_bytes_canonical,
}
use pebble_voting_app.Vdf.{VdfSolution}
use pebble_voting_app.Runs.{params, credential, toy_ciphers}

one_read : read_vector (1 ∷ 9 ∷ 8 ∷ []) ≡ (ok (9 ∷ []), 8 ∷ [])
unfolding read_vector
one_read = refl

short_credential : CredentialMessage.Fits credential
short_credential = record { credential = omega arith; public_key = omega arith }

from_bytes-bytes_example :
    (bytes (of_credential credential) >>= from_bytes) ≡ ok (of_credential credential)
from_bytes-bytes_example = from_bytes-bytes (Postable.credential credential short_credential)

short_params : Fits params
short_params = record {
  version = refl;
  cast_start = omega arith;
  tally_start = omega arith;
  tally_end = omega arith;
  max_vdf_difficulty = omega arith;
  voting_method = omega arith;
  title = omega arith;
  description = omega arith;
  num_choices = omega arith;
  choices = (omega arith, (omega arith, tt));
}

from_bytes-params_example : (bytes (of_params params) >>= from_bytes) ≡ (
    EligibilityList.from_bytes (EligibilityList.bytes params.eligibility_list) >>= λ list.
    ok (of_params (truncated params list)))
from_bytes-params_example = from_bytes-params params short_params

accepted : from_bytes (1 ∷ 1 ∷ 5 ∷ 2 ∷ 1 ∷ 9 ∷ 1 ∷ 5 ∷ []) ≡ ok (of_credential credential)
unfolding from_bytes CredentialMessage.from_bytes read_vector read_remaining
accepted = refl

from_bytes_canonical_example :
    bytes (of_credential credential) ≡ ok (1 ∷ 1 ∷ 5 ∷ 2 ∷ 1 ∷ 9 ∷ 1 ∷ 5 ∷ [])
from_bytes_canonical_example =
    from_bytes_canonical 1 (1 ∷ 5 ∷ 2 ∷ 1 ∷ 9 ∷ 1 ∷ 5 ∷ []) (of_credential credential)
      (
        omega arith,
        (
          omega arith,
          (omega arith, (omega arith, (omega arith, (omega arith, (omega arith, tt))))),
        ),
      )
      (inl refl) accepted

abbrev puzzle : VdfSolution
puzzle = record { input = 3 ∷ []; output = 3 ∷ []; proof = [] }

abbrev hidden : EncryptedBallot
hidden = record { vdf_input = 3 ∷ []; payload = replicate 12 7 ++ (0 ∷ 1 ∷ 0 ∷ []) }

encrypted : encrypt toy_ciphers (ok (replicate 12 7)) (1 ∷ 0 ∷ []) puzzle ≡ ok hidden
unfolding encrypt create_cipher
encrypted = refl

abbrev unsolved : VdfSolution
unsolved = record { input = hidden.vdf_input; output = []; proof = [] }

decrypt-encrypt_example : decrypt toy_ciphers hidden unsolved ≡ ok (1 ∷ 0 ∷ [])
decrypt-encrypt_example =
    decrypt-encrypt toy_ciphers (replicate 12 7) (1 ∷ 0 ∷ []) puzzle hidden [] [] (λ c n m. refl)
      refl encrypted

abbrev key : Bytes
key = replicate 32 7

abbrev one_key : EligibilityList
one_key = record {
  public_key_hashes = key ∷ [];
  id_commitments = some ((key, replicate 32 9) ∷ []);
}

key_added : add new key (replicate 32 9) ≡ ok (one_key, true)
unfolding add lookup
key_added = refl

wide : (h : Bytes) → length (id_commitment one_key h).0 ≡ 32
unfolding id_commitment lookup
wide h = ground arith

from_bytes-bytes_panic_example : EligibilityList.from_bytes (EligibilityList.bytes one_key) ≡ panic
from_bytes-bytes_panic_example = from_bytes-bytes_panic one_key key [] refl (refl, tt) wide

put_all-contains_example :
    (s : BytesSet) × (put_all empty ((7 ∷ []) ∷ (9 ∷ []) ∷ []) ≡ ok s)
    × (s.len ≡ 2)
    × ((q : Bytes) → holds s.v q ≡ is_among ((7 ∷ []) ∷ (9 ∷ []) ∷ []) q)
    × ((q : Bytes)
        → (BytesSet.contains s q ≡ ok false)
          ⊎ ((BytesSet.contains s q ≡ ok true) × (is_among ((7 ∷ []) ∷ (9 ∷ []) ∷ []) q ≡ true)))
put_all-contains_example = put_all-contains ((7 ∷ []) ∷ (9 ∷ []) ∷ [])
