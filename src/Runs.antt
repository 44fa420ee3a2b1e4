-- ===== src/Runs.antt =====
-- Concrete data for the examples: a credential system, keys, ciphers, puzzles and a small election.
pub mod Puzzles
pub mod Formats
pub mod Counts
pub mod Elections
pub mod Servers
pub mod Setups
pub mod Tallies
pub mod Votes
pub mod Turnouts
pub mod Casting
pub mod Denials
pub mod Codes
pub mod Credentials
use pebble_voting_app.Base.{
  ℕ, [], ◌∷◌, ◌++◌, List, Bool, true, false, some, none, Bytes, Result, ok, err, foreign,
  invalid_signature, length, bytes_eq, if◌then◌else◌, replicate,
}
use pebble_voting_app.Base.Int.{pos}
use pebble_voting_app.Vdf.{Vdf, VdfSolution}
use pebble_voting_app.Pubkey.{Schemes}
use pebble_voting_app.Anoncred.{CredentialSystem}
use pebble_voting_app.Structs.CredentialMessage.{CredentialMessage}
use pebble_voting_app.Structs.DecryptionMessage.{DecryptionMessage}
use pebble_voting_app.Structs.EncryptedBallot.{EncryptedBallot}
use pebble_voting_app.Structs.EncryptedBallot.Sealing.{Ciphers}
use pebble_voting_app.Structs.SignedBallot.{SignedBallot}
use pebble_voting_app.Structs.EligibilityList.{EligibilityList, new}
use pebble_voting_app.Methods.Choice.{approval}
use pebble_voting_app.Voting.Params.{ElectionParams, Time, at_second}
use pebble_voting_app.Voting.Message.{Message, of_credential, of_ballot, of_decryption}
use pebble_voting_app.Voting.Election.{Election}

abbrev pub check : Bool → Result (Unit {0})
check true = ok tt
check false = err invalid_signature

-- A credential is its own public part and serial number, and a signature is the serial number.
abbrev pub plain : CredentialSystem
plain = record {
  SecretCredential = Bytes;
  PublicCredential = Bytes;
  CredentialSet = List Bytes;
  public = λ s. ok s;
  serial_no = λ s. s;
  public_bytes = λ p. p;
  read_public_credential = λ p. ok p;
  make_credential_set = λ ps. ok ps;
  set_len = λ set. length set;
  set_sign = λ set s msg. ok s;
  set_verify = λ set serial sig msg. check (bytes_eq serial sig);
}

-- The same, with the message itself as the signature.
abbrev pub binding : CredentialSystem
binding = record plain {
  set_sign = λ set s msg. ok msg;
  set_verify = λ set serial sig msg. check (bytes_eq sig msg);
}

-- An Ed25519 signature is the message; no other scheme works.
abbrev pub keys : Schemes
keys = record {
  TezosKey = Unit {0};
  TezosSecret = Unit {0};
  TezosSignature = Unit {0};
  sha256 = λ b. b;
  ed25519_public_key_size = 1;
  ed25519_generate = ok (7 ∷ [], 7 ∷ []);
  ed25519_sign = λ seed msg. ok msg;
  ed25519_verify = λ key msg sig. bytes_eq msg sig;
  tezos_generate = err foreign;
  tezos_public = λ priv. priv;
  tezos_secret_string = λ priv. [];
  tezos_key_bytes = λ key. [];
  tezos_key_string = λ key. [];
  tezos_unmarshal_text = λ s. err foreign;
  tezos_marshal = λ key. ok [];
  tezos_parse_secret = λ b. err foreign;
  tezos_sign = λ k b. err foreign;
  tezos_decode_key = λ b. err foreign;
  tezos_unmarshal = λ b. err foreign;
  tezos_verify = λ k b s. err foreign;
}

abbrev open_toy : Bytes → Result Bytes
open_toy [] = err foreign
open_toy (b ∷ m) = ok m

-- A sealed text has one byte in front.
abbrev pub toy_ciphers : Ciphers
toy_ciphers = record {
  Block = Bytes;
  Aead = Bytes;
  sha256 = λ b. b;
  new_cipher = λ k. ok k;
  new_gcm = λ b. ok b;
  seal = λ c n m. 0 ∷ m;
  open_sealed = λ c n m. open_toy m;
}

-- A puzzle is its own solution.
abbrev pub toy_vdf : Vdf
toy_vdf = record {
  create = λ seconds. ok (record { input = seconds ∷ []; output = seconds ∷ []; proof = [] });
  solve = λ input. ok (record { input = input; output = input; proof = [] });
  verify = λ sol. check (bytes_eq sol.input sol.output);
}

abbrev pub at : ℕ → Time
at s = at_second (pos s)

abbrev pub params : ElectionParams
params = record {
  version = 0;
  cast_start = at 10;
  tally_start = at 20;
  tally_end = at 30;
  max_vdf_difficulty = 4096;
  voting_method = 65 ∷ [];
  title = 66 ∷ [];
  description = [];
  choices = (97 ∷ []) ∷ (98 ∷ []) ∷ [];
  eligibility_list = new;
}

abbrev pub election : Election
election = record { id = 1 ∷ []; vdf = toy_vdf; method = approval 2; params = params }

abbrev pub credential : CredentialMessage
credential = record { credential = 5 ∷ []; public_key = 1 ∷ 9 ∷ []; signature = 1 ∷ 5 ∷ [] }

-- A ballot for the first choice.
abbrev pub sealed : EncryptedBallot
sealed = record { vdf_input = 3 ∷ []; payload = replicate 12 7 ++ (0 ∷ 1 ∷ 0 ∷ []) }

abbrev pub ballot : SignedBallot
ballot = record { encrypted_ballot = sealed; serial_no = 5 ∷ []; signature = 5 ∷ [] }

abbrev pub decryption : DecryptionMessage
decryption = record { input_hash = 3 ∷ []; output = 3 ∷ []; proof = [] }

-- A decryption whose solution is wrong.
abbrev pub forged : DecryptionMessage
forged = record { input_hash = 3 ∷ []; output = 4 ∷ []; proof = [] }

abbrev pub messages : List Message
messages =
    of_credential credential
    ∷ of_ballot ballot
    ∷ of_decryption forged
    ∷ of_decryption decryption
    ∷ []
