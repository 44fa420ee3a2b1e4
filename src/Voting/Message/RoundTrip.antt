-- ===== src/Voting/Message/RoundTrip.antt =====
-- broadcast_channel.go: `MessageFromBytes` after `Bytes`, and the other way round.
use pebble_voting_app.Base.{
  ℕ, ◌≡◌, ◌∷◌, arith, Bytes, ok, ◌>>=◌, >>=-eq-ok, All, IsByte, inl, inr, ◌⊎◌,
}
use pebble_voting_app.Structs.CredentialMessage
use pebble_voting_app.Structs.CredentialMessage.{CredentialMessage}
use pebble_voting_app.Structs.SignedBallot
use pebble_voting_app.Structs.SignedBallot.{SignedBallot}
use pebble_voting_app.Structs.DecryptionMessage
use pebble_voting_app.Structs.DecryptionMessage.{DecryptionMessage}
use pebble_voting_app.Structs.EligibilityList
use pebble_voting_app.Voting.Params.{ElectionParams, number, cred_gen, tally}
use pebble_voting_app.Voting.Params.RoundTrip as ParamsRoundTrip
use pebble_voting_app.Voting.Message.{
  Message, of_params, of_credential, of_ballot, of_decryption, bytes, from_bytes,
}

-- The messages that voters post, within the sizes that the wire format can carry.
pub data Postable : Message → Type 0 where
  credential : (c : CredentialMessage) → CredentialMessage.Fits c → Postable (of_credential c)
  ballot : (b : SignedBallot) → SignedBallot.Fits b → Postable (of_ballot b)
  decryption : (d : DecryptionMessage) → DecryptionMessage.Fits d → Postable (of_decryption d)

-- A credential, ballot or decryption message within the sizes of the wire format is written, and
-- `MessageFromBytes` reads it back as it was.
pub from_bytes-bytes : {m : Message} → Postable m → (bytes m >>= from_bytes) ≡ ok m
unfolding bytes from_bytes
from_bytes-bytes (credential c h) =
    rw (CredentialMessage.bytes-ok c h, CredentialMessage.from_bytes-layout c h)
from_bytes-bytes (ballot b h) = rw (SignedBallot.bytes-ok b h, SignedBallot.from_bytes-layout b h)
from_bytes-bytes (decryption d h) =
    rw (DecryptionMessage.bytes-ok d h, DecryptionMessage.from_bytes-layout d h)

-- Parameters within the sizes of the wire format are written, and come back with whole seconds
-- and with whatever the eligibility list's own `FromBytes` makes of its bytes, an error or a
-- panic of it included.
pub from_bytes-params :
    (p : ElectionParams)
    → ParamsRoundTrip.Fits p
    → (bytes (of_params p) >>= from_bytes) ≡ (
        EligibilityList.from_bytes (EligibilityList.bytes p.eligibility_list) >>= λ list.
        ok (of_params (ParamsRoundTrip.truncated p list)))
unfolding bytes from_bytes
from_bytes-params p h =
    rw (ParamsRoundTrip.bytes-ok p h, ParamsRoundTrip.from_bytes-layout p h) (ground arith)

-- If `MessageFromBytes` accepts bytes that begin with the kind of a credential or of a
-- decryption, then `Bytes` of the message gives exactly those bytes.
pub from_bytes_canonical :
    (kind : ℕ) (p : Bytes) (m : Message)
    → All IsByte p
    → (kind ≡ number cred_gen) ⊎ (kind ≡ number tally)
    → from_bytes (kind ∷ p) ≡ ok m
    → bytes m ≡ ok (kind ∷ p)
unfolding bytes from_bytes
from_bytes_canonical kind p m hp (inl k) e =
    let e' : (CredentialMessage.from_bytes p >>= λ c. ok (of_credential c)) ≡ ok m = ground arith in
    let (c, read, same) = >>=-eq-ok (CredentialMessage.from_bytes p) _ e' in
    ground (arith, CredentialMessage.from_bytes_inverse p c hp read)
from_bytes_canonical kind p m hp (inr k) e =
    let e' : (DecryptionMessage.from_bytes p >>= λ c. ok (of_decryption c)) ≡ ok m = ground arith in
    let (d, read, same) = >>=-eq-ok (DecryptionMessage.from_bytes p) _ e' in
    ground (arith, DecryptionMessage.from_bytes_inverse p d hp read)
