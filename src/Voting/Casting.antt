-- ===== src/Voting/Casting.antt =====
-- pebble-core/voting/election.go, what a voter does: `PostCredential`, `Vote` and the reveal of a
-- puzzle's solution, over a channel and a secrets manager (voting/secrets/manager.go).
pub mod OwnBallot
pub mod Revealed
pub mod Posting
pub mod Voted
pub mod Opened
use pebble_voting_app.Base.{
  ℕ, [], ◌∷◌, List, Bytes, Result, ok, err, wrong_phase, leb, ◌==◌, if◌then◌else◌,
}
use pebble_voting_app.Base.Exec.{Exec, pure, lift, continue, ◌>>=◌, ◌>>◌}
use pebble_voting_app.Util.Slices.{concat}
use pebble_voting_app.Vdf.{Vdf, VdfSolution}
use pebble_voting_app.Pubkey
use pebble_voting_app.Pubkey.{Schemes, PrivateKey}
use pebble_voting_app.Anoncred.{CredentialSystem}
use pebble_voting_app.Structs.CredentialMessage.{CredentialMessage}
use pebble_voting_app.Structs.DecryptionMessage.{create_decryption_message}
use pebble_voting_app.Structs.EncryptedBallot
use pebble_voting_app.Structs.EncryptedBallot.{EncryptedBallot}
use pebble_voting_app.Structs.EncryptedBallot.Sealing.{Ciphers, encrypt}
use pebble_voting_app.Structs.SignedBallot.{SignedBallot}
use pebble_voting_app.Methods.Choice
use pebble_voting_app.Voting.Params.{Time, ElectionParams, phase, number, cred_gen, cast, tally}
use pebble_voting_app.Voting.Message.{Message, of_credential, of_ballot, of_decryption}
use pebble_voting_app.Voting.Election.{Election, get_credential_set}
use pebble_voting_app.Voting.Signing.{sign_credential, sign_ballot}

-- The interface BroadcastChannel.
pub record Channel : Type 1 where
  pub State : Type 0
  pub get : Exec State (List Message)
  pub post : Message → Exec State (Unit {0})

-- The interface SecretsManager.
pub record SecretsManager (sys : CredentialSystem) : Type 1 where
  pub State : Type 0
  pub get_private_key : Exec State PrivateKey
  pub get_secret_credential : Exec State sys.SecretCredential
  pub get_vdf_solution : Exec State VdfSolution
  pub set_vdf_solution : VdfSolution → Exec State (Unit {0})
  pub set_ballot : SignedBallot → Exec State (Unit {0})

-- The election's parts that change.
pub record World (sys : CredentialSystem) (channel : Channel) (manager : SecretsManager sys)
    : Type 0 where
  pub posted : channel.State
  pub kept : manager.State

module _ (sys : CredentialSystem) (schemes : Schemes) (ciphers : Ciphers)
    (iteration : List sys.PublicCredential → List sys.PublicCredential) (channel : Channel)
    (manager : SecretsManager sys) where
  abbrev pub Action {ℓ} : Type ℓ → Type ℓ
  Action A = Exec (World sys channel manager) A

  -- A call of the channel, and one of the secrets manager.
  abbrev pub on_channel {ℓ} : {A : Type ℓ} → Exec channel.State A → Action A
  on_channel m w = let (r, s) = m w.posted in (r, record w { posted = s })

  abbrev pub on_secrets {ℓ} : {A : Type ℓ} → Exec manager.State A → Action A
  on_secrets m w = let (r, s) = m w.kept in (r, record w { kept = s })

  unfoldable pub post_credential : Election → (now : Time) → Action (Unit {0})
  post_credential e now =
      if number (phase now e.params) == number cred_gen
      then (do
        priv ← on_secrets manager.get_private_key
        sec ← on_secrets manager.get_secret_credential
        pub_cred ← lift (sys.public sec)
        msg ← lift (sign_credential schemes priv e.id (sys.public_bytes pub_cred))
        on_channel (channel.post (of_credential msg)))
      else lift (err wrong_phase)

  -- `GetCredentialSet` with its call of the channel.
  unfoldable pub fetch_credential_set : Election → (now : Time) → Action sys.CredentialSet
  fetch_credential_set e now =
      if leb (number (phase now e.params)) (number cred_gen) then lift (err wrong_phase) else (do
        msgs ← on_channel channel.get
        lift (get_credential_set sys schemes ciphers iteration e now (ok msgs)))

  -- `drawn` is the nonce that `Encrypt` draws, and `duration` what the floating-point
  -- `puzzleDuration` gives.
  unfoldable pub vote :
      Election
      → (now later : Time) → (duration : ℕ) → (drawn : Result Bytes) → (choices : List ℕ)
      → Action (Unit {0})
  unfolding fetch_credential_set
  vote e now later duration drawn choices =
      if number (phase now e.params) == number cast
      then (do
        set ← fetch_credential_set e later
        sol ← lift (e.vdf.create duration)
        on_secrets (manager.set_vdf_solution sol)
        sec ← on_secrets manager.get_secret_credential
        ballot ← lift (Choice.vote e.method choices)
        encrypted ← lift (encrypt ciphers drawn ballot sol)
        signed ← lift (sign_ballot sys encrypted set sec)
        on_secrets (manager.set_ballot signed)
        on_channel (channel.post (of_ballot signed)))
      else lift (err wrong_phase)

  unfoldable pub post_ballot_decryption : Election → (now : Time) → VdfSolution → Action (Unit {0})
  post_ballot_decryption e now sol =
      if number (phase now e.params) == number tally
      then on_channel (channel.post (of_decryption (create_decryption_message ciphers.sha256 sol)))
      else lift (err wrong_phase)

  unfoldable pub reveal_ballot_decryption : Election → (now : Time) → Action (Unit {0})
  unfolding post_ballot_decryption
  reveal_ballot_decryption e now = do
    sol ← on_secrets manager.get_vdf_solution
    post_ballot_decryption e now sol
