-- ===== src/Voting/Message.antt =====
-- pebble-core/voting/broadcast_channel.go: messages, their wire format, and the channel kept in
-- memory. A pointer field is an option.
pub mod RoundTrip
use pebble_voting_app.Base.{
  ℕ, [], ◌∷◌, ◌++◌, List, Option, none, some, Bytes, Result, ok, err, panic, stuck,
  invalid_message_type, invalid_message_size, ◌>>=◌, ◌==◌, if◌then◌else◌,
}
use pebble_voting_app.Structs.CredentialMessage
use pebble_voting_app.Structs.CredentialMessage.{CredentialMessage}
use pebble_voting_app.Structs.SignedBallot
use pebble_voting_app.Structs.SignedBallot.{SignedBallot}
use pebble_voting_app.Structs.DecryptionMessage
use pebble_voting_app.Structs.DecryptionMessage.{DecryptionMessage}
use pebble_voting_app.Voting.Params
use pebble_voting_app.Voting.Params.{ElectionParams, number, setup, cred_gen, cast, tally}

pub record Message : Type 0 where
  pub election_params : Option ElectionParams
  pub credential : Option CredentialMessage
  pub signed_ballot : Option SignedBallot
  pub decryption : Option DecryptionMessage

abbrev pub empty : Message
empty = record {
  election_params = none;
  credential = none;
  signed_ballot = none;
  decryption = none;
}

abbrev pub of_params : ElectionParams → Message
of_params p = record empty { election_params = some p }

abbrev pub of_credential : CredentialMessage → Message
of_credential c = record empty { credential = some c }

abbrev pub of_ballot : SignedBallot → Message
of_ballot b = record empty { signed_ballot = some b }

abbrev pub of_decryption : DecryptionMessage → Message
of_decryption d = record empty { decryption = some d }

-- The payload after the byte that names its kind.
abbrev pub tagged : ℕ → Result Bytes → Result Bytes
tagged kind r = do p ← r; ok (kind ∷ p)

-- The ladder of `Bytes`: the first field that is not nil decides.
bytes_of :
    Option ElectionParams
    → Option CredentialMessage
    → Option SignedBallot
    → Option DecryptionMessage
    → Result Bytes
bytes_of (some p) c b d = tagged (number setup) (Params.bytes p)
bytes_of none (some c) b d = tagged (number cred_gen) (CredentialMessage.bytes c)
bytes_of none none (some b) d = tagged (number cast) (SignedBallot.bytes b)
bytes_of none none none (some d) = tagged (number tally) (DecryptionMessage.bytes d)
bytes_of none none none none = panic

unfoldable pub bytes : Message → Result Bytes
unfolding bytes_of
bytes m = bytes_of m.election_params m.credential m.signed_ballot m.decryption

unfoldable pub from_bytes : Bytes → Result Message
from_bytes [] = err invalid_message_size
from_bytes (kind ∷ p) =
    if kind == number setup
    then (do m ← Params.from_bytes p; ok (of_params m))
    else if kind == number cred_gen
    then (do m ← CredentialMessage.from_bytes p; ok (of_credential m))
    else if kind == number cast
    then (do m ← SignedBallot.from_bytes p; ok (of_ballot m))
    else if kind == number tally
    then (do m ← DecryptionMessage.from_bytes p; ok (of_decryption m))
    else err invalid_message_type

pub record MockBroadcastChannel : Type 0 where
  pub messages : List Message
  pub params : ElectionParams
  pub id : Bytes

abbrev pub new_mock : Bytes → ElectionParams → MockBroadcastChannel
new_mock id params = record { messages = []; params = params; id = id }

abbrev pub get : MockBroadcastChannel → List Message
get bc = bc.messages

abbrev pub post : MockBroadcastChannel → Message → MockBroadcastChannel
post bc m = record bc { messages = bc.messages ++ (m ∷ []) }
