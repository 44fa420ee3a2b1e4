-- ===== src/Voting/Casting/Posting.antt =====
-- election.go on the channel kept in memory: what its methods append.
use pebble_voting_app.Base.{
  ℕ, ◌≡◌, ◌≢◌, ◌⊎◌, inl, inr, refl, List, Bytes, Result, ok, err, panic, stuck, arith, Bool-cases,
  ◌==◌,
}
use pebble_voting_app.Base.Exec.{Exec, continue}
use pebble_voting_app.Base.{ap}
use pebble_voting_app.Pubkey.{Schemes}
use pebble_voting_app.Anoncred.{CredentialSystem}
use pebble_voting_app.Structs.EncryptedBallot.Sealing.{Ciphers, encrypt}
use pebble_voting_app.Structs.CredentialMessage.{CredentialMessage}
use pebble_voting_app.Structs.DecryptionMessage.{DecryptionMessage, create_decryption_message}
use pebble_voting_app.Structs.SignedBallot.{SignedBallot}
use pebble_voting_app.Methods.Choice
use pebble_voting_app.Voting.Params.{Time, phase, number, cast, cred_gen, tally}
use pebble_voting_app.Voting.Election.{Election}
use pebble_voting_app.Voting.Signing.{sign_ballot, sign_credential}
use pebble_voting_app.Voting.Message.{
  Message, MockBroadcastChannel, get, post, of_ballot, of_credential, of_decryption,
}
use pebble_voting_app.Voting.Casting.{
  Channel, SecretsManager, World, on_channel, on_secrets, fetch_credential_set, vote,
  post_credential, post_ballot_decryption, reveal_ballot_decryption,
}

-- MockBroadcastChannel as a channel: `Get` and `Post` never fail.
abbrev pub mock_channel : Channel
mock_channel = record {
  State = MockBroadcastChannel;
  get = λ bc. (ok (get bc), bc);
  post = λ m bc. (ok tt, post bc m);
}

-- The kinds of messages that voters post.
abbrev pub IsBallot : Message → Type 0
IsBallot m = (b : SignedBallot) × (m ≡ of_ballot b)

abbrev IsCredential : Message → Type 0
IsCredential m = (c : CredentialMessage) × (m ≡ of_credential c)

abbrev IsDecryption : Message → Type 0
IsDecryption m = (d : DecryptionMessage) × (m ≡ of_decryption d)

module _ (sys : CredentialSystem) (schemes : Schemes) (ciphers : Ciphers)
    (iteration : List sys.PublicCredential → List sys.PublicCredential)
    (manager : SecretsManager sys) where
  abbrev pub MockWorld : Type 0
  MockWorld = World sys mock_channel manager

  -- What a method that began with the channel `bc` ends with: no error and one more message of a
  -- kind, or an error or a panic and the channel as it was.
  abbrev pub Posts :
      (Message → Type 0) → MockBroadcastChannel → Result (Unit {0}) × MockWorld → Type 0
  Posts Kind bc q =
      ((q.0 ≡ ok tt) × (m : Message) × Kind m × (q.1.posted ≡ post bc m))
      ⊎ ((q.0 ≢ ok tt) × (q.1.posted ≡ bc))

  -- A step that leaves the channel alone.
  step :
      {A : Type 0} (Kind : Message → Type 0) (bc : MockBroadcastChannel) (r : Result A × MockWorld)
      (f : A → Exec MockWorld (Unit {0}))
      → r.1.posted ≡ bc
      → ((a : A) (w : MockWorld) → w.posted ≡ bc → Posts Kind bc (f a w))
      → Posts Kind bc (continue r f)
  step Kind bc (ok a, w) f h k = k a w h
  step Kind bc (err e, w) f h k = inr (λ p. cc, h)
  step Kind bc (panic, w) f h k = inr (λ p. cc, h)
  step Kind bc (stuck, w) f h k = inr (λ p. cc, h)

  last :
      (Kind : Message → Type 0) (bc : MockBroadcastChannel) (m : Message) (w : MockWorld)
      → Kind m
      → w.posted ≡ bc
      → Posts Kind bc
          (on_channel sys schemes ciphers iteration mock_channel manager (mock_channel.post m) w)
  last Kind bc m w k h = inl (refl, m, k, ap (λ s. post s m) h)

  pub fetch_keeps :
      (e : Election) (now : Time) (w : MockWorld)
      → (fetch_credential_set sys schemes ciphers iteration mock_channel manager e now w).1.posted
        ≡ w.posted
  unfolding fetch_credential_set
  fetch_keeps e now w = ground arith

  -- On the channel kept in memory, `Vote` either returns no error and has appended one message, a
  -- signed ballot, or it fails and has appended nothing.
  pub vote-post :
      (e : Election) (now later : Time) (duration : ℕ) (drawn : Result Bytes) (choices : List ℕ)
      (w : MockWorld)
      → Posts IsBallot w.posted (
          vote sys schemes ciphers iteration mock_channel manager e now later duration drawn choices
            w)
  unfolding vote
  vote-post e now later duration drawn choices w =
      elim (Bool-cases (number (phase now e.params) == number cast)) [
        | inr wrong ↦ rw wrong (inr (λ p. cc, refl))
        | inl right ↦
            let bc = w.posted in
            rw right (
              step IsBallot bc
                (fetch_credential_set sys schemes ciphers iteration mock_channel manager e later w)
                _ (fetch_keeps e later w)
                λ set w1 h1.
                  step IsBallot bc (e.vdf.create duration, w1) _ h1
                    λ sol w2 h2.
                      step IsBallot bc
                        (on_secrets sys schemes ciphers iteration mock_channel manager
                          (manager.set_vdf_solution sol) w2)
                        _ h2
                        λ u3 w3 h3.
                          step IsBallot bc
                            (on_secrets sys schemes ciphers iteration mock_channel manager
                              manager.get_secret_credential w3)
                            _ h3
                            λ sec w4 h4.
                              step IsBallot bc (Choice.vote e.method choices, w4) _ h4
                                λ ballot w5 h5.
                                  step IsBallot bc (encrypt ciphers drawn ballot sol, w5) _ h5
                                    λ encrypted w6 h6.
                                      step IsBallot bc (sign_ballot sys encrypted set sec, w6) _ h6
                                        λ signed w7 h7.
                                          step IsBallot bc
                                            (on_secrets sys schemes ciphers iteration mock_channel
                                              manager (manager.set_ballot signed) w7)
                                            _ h7
                                            λ u8 w8 h8.
                                              last IsBallot bc (of_ballot signed) w8 (signed, refl)
                                                h8)
      ]

  -- On the channel kept in memory, `PostCredential` either returns no error and has appended one
  -- message, a credential, or it fails and has appended nothing.
  post_credential-post :
      (e : Election) (now : Time) (w : MockWorld)
      → Posts IsCredential w.posted
          (post_credential sys schemes ciphers iteration mock_channel manager e now w)
  unfolding post_credential
  post_credential-post e now w =
      elim (Bool-cases (number (phase now e.params) == number cred_gen)) [
        | inr wrong ↦ rw wrong (inr (λ p. cc, refl))
        | inl right ↦
            let bc = w.posted in
            rw right (
              step IsCredential bc
                (on_secrets sys schemes ciphers iteration mock_channel manager
                  manager.get_private_key w)
                _ refl
                λ priv w1 h1.
                  step IsCredential bc
                    (on_secrets sys schemes ciphers iteration mock_channel manager
                      manager.get_secret_credential w1)
                    _ h1
                    λ sec w2 h2.
                      step IsCredential bc (sys.public sec, w2) _ h2
                        λ pub_cred w3 h3.
                          step IsCredential bc
                            (sign_credential schemes priv e.id (sys.public_bytes pub_cred), w3) _ h3
                            λ msg w4 h4. last IsCredential bc (of_credential msg) w4 (msg, refl) h4)
      ]

  -- On the channel kept in memory, `RevealBallotDecryption` either returns no error and has
  -- appended one message, a decryption, or it fails and has appended nothing.
  reveal_ballot_decryption-post :
      (e : Election) (now : Time) (w : MockWorld)
      → Posts IsDecryption w.posted
          (reveal_ballot_decryption sys schemes ciphers iteration mock_channel manager e now w)
  unfolding reveal_ballot_decryption post_ballot_decryption
  reveal_ballot_decryption-post e now w =
      step IsDecryption w.posted
        (on_secrets sys schemes ciphers iteration mock_channel manager manager.get_vdf_solution w) _
        refl
        λ sol w1 h1. elim (Bool-cases (number (phase now e.params) == number tally)) [
          | inr wrong ↦ rw wrong (inr (λ p. cc, h1))
          | inl right ↦ rw right (
              last IsDecryption w.posted
                (of_decryption (create_decryption_message ciphers.sha256 sol)) w1 (_, refl) h1)
        ]
