-- ===== src/Voting/Casting/OwnBallot.antt =====
-- voting/structs/ballot.go: `SignedBallot.Verify` on what `EncryptedBallot.Sign` returns.
use pebble_voting_app.Base.{
  ◌≡◌, ◌≢◌, ap, sym, List, Bytes, ok, arith, length, ◌>>=◌, >>=-eq-ok, ok_injective, subst,
}
use pebble_voting_app.Pubkey.{Schemes}
use pebble_voting_app.Anoncred.{CredentialSystem}
use pebble_voting_app.Structs.EncryptedBallot
use pebble_voting_app.Structs.EncryptedBallot.{EncryptedBallot}
use pebble_voting_app.Structs.EncryptedBallot.Sealing.{Ciphers}
use pebble_voting_app.Structs.SignedBallot
use pebble_voting_app.Structs.SignedBallot.{SignedBallot}
use pebble_voting_app.Voting.Election.{verify_ballot}
use pebble_voting_app.Voting.Signing.{sign_ballot}

module _ (sys : CredentialSystem) (schemes : Schemes) (ciphers : Ciphers)
    (iteration : List sys.PublicCredential → List sys.PublicCredential) where
  open sys use {SecretCredential, CredentialSet, serial_no, set_sign, set_verify}

  -- A signature that the set accepts was made for the message that it is checked against.
  abbrev pub BindsMessage : CredentialSet → SecretCredential → Type 0
  BindsMessage set cred =
      (m m' sig : Bytes)
      → set_sign set cred m ≡ ok sig
      → set_verify set (serial_no cred) sig m' ≡ ok tt
      → m ≡ m'

  -- For a credential whose signatures bind their message, a ballot that `EncryptedBallot.Sign`
  -- has signed never passes `SignedBallot.Verify`.
  pub verify_ballot-sign_ballot :
      (eb : EncryptedBallot) (set : CredentialSet) (cred : SecretCredential) (sb : SignedBallot)
      → BindsMessage set cred
      → sign_ballot sys eb set cred ≡ ok sb
      → verify_ballot sys schemes ciphers iteration set sb ≢ ok tt
  unfolding sign_ballot verify_ballot
  verify_ballot-sign_ballot eb set cred sb binds signed passed =
      let (m, written, s1) = >>=-eq-ok (EncryptedBallot.bytes eb) _ signed in
      let (sig, made, s2) = >>=-eq-ok (set_sign set cred m) _ s1 in
      let own : SignedBallot = record {
        encrypted_ballot = eb;
        serial_no = serial_no cred;
        signature = sig;
      } in
      let passed' : (SignedBallot.bytes own >>= λ msg. set_verify set (serial_no cred) sig msg)
          ≡ ok tt =
        subst (λ b. verify_ballot sys schemes ciphers iteration set b ≡ ok tt)
          (sym (ok_injective s2)) passed in
      let (m', written', accepted) = >>=-eq-ok (SignedBallot.bytes own) _ passed' in
      let same : m ≡ m' = binds m m' sig made accepted in
      absurd (
        omega (
          arith,
          SignedBallot.bytes-longer own m m' written written',
          ap (λ (x : Bytes). length x) same,
        ))
