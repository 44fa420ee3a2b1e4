-- ===== src/Voting/Signing.antt =====
-- pebble-core/voting/structs: `CredentialMessage.Sign` and `EncryptedBallot.Sign`.
use pebble_voting_app.Base.{[], ◌∷◌, Bytes, Result, ok, ◌>>=◌}
use pebble_voting_app.Util.Slices.{concat}
use pebble_voting_app.Pubkey
use pebble_voting_app.Pubkey.{Schemes, PrivateKey}
use pebble_voting_app.Anoncred.{CredentialSystem}
use pebble_voting_app.Structs.CredentialMessage.{CredentialMessage}
use pebble_voting_app.Structs.EncryptedBallot
use pebble_voting_app.Structs.EncryptedBallot.{EncryptedBallot}
use pebble_voting_app.Structs.SignedBallot.{SignedBallot}

-- The election's id stands in front of the credential.
unfoldable pub sign_credential :
    Schemes → PrivateKey → (eid : Bytes) → (credential : Bytes) → Result CredentialMessage
sign_credential schemes k eid credential = do
  sig ← Pubkey.sign schemes k (concat (eid ∷ credential ∷ []))
  ok (record { credential = credential; public_key = k.public; signature = sig })

-- What is signed is the encrypted ballot alone.
unfoldable pub sign_ballot :
    (sys : CredentialSystem)
    → EncryptedBallot
    → sys.CredentialSet
    → sys.SecretCredential
    → Result SignedBallot
sign_ballot sys eb set cred = do
  msg ← EncryptedBallot.bytes eb
  sig ← sys.set_sign set cred msg
  ok (record { encrypted_ballot = eb; serial_no = sys.serial_no cred; signature = sig })
