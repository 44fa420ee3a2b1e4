-- ===== src/Anoncred.antt =====
-- pebble-core/anoncred: anonymous credentials.
pub mod Gnark
pub mod AnonCred1
use pebble_voting_app.Base.{ℕ, List, Bytes, Result}

-- The interfaces of anoncred.go: what the election needs of a credential system.
pub record CredentialSystem : Type 1 where
  pub SecretCredential : Type 0
  pub PublicCredential : Type 0
  pub CredentialSet : Type 0
  pub public : SecretCredential → Result PublicCredential
  pub serial_no : SecretCredential → Bytes
  pub public_bytes : PublicCredential → Bytes
  pub read_public_credential : Bytes → Result PublicCredential
  pub make_credential_set : List PublicCredential → Result CredentialSet
  pub set_len : CredentialSet → ℕ
  pub set_sign : CredentialSet → SecretCredential → (msg : Bytes) → Result Bytes
  pub set_verify : CredentialSet → (serial_no sig msg : Bytes) → Result (Unit {0})
