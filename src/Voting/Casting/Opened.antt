-- ===== src/Voting/Casting/Opened.antt =====
-- election.go from `Vote` through `RevealBallotDecryption` to `decryptBallot`.
use pebble_voting_app.Base.{
  ℕ, ◌≡◌, ◌∙◌, ap, sym, refl, [], ◌∷◌, ◌++◌, List, All, Bytes, Result, ok, length, arith,
  Bool-cases, Option-cases, inl, inr, ◌==◌, append_assoc,
}
use pebble_voting_app.Base.Exec.{continue-ok_holds}
use pebble_voting_app.Vdf.{VdfSolution}
use pebble_voting_app.Pubkey.{Schemes}
use pebble_voting_app.Anoncred.{CredentialSystem}
use pebble_voting_app.Structs.EncryptedBallot.Sealing.{Ciphers}
use pebble_voting_app.Structs.DecryptionMessage.{create_decryption_message}
use pebble_voting_app.Structs.SignedBallot.{SignedBallot}
use pebble_voting_app.Methods.Choice
use pebble_voting_app.Voting.Params.{Time, phase, number, tally}
use pebble_voting_app.Voting.Election.{Election, decryptions, decrypt_ballot}
use pebble_voting_app.Voting.Message.{Message, post, of_ballot, of_decryption}
use pebble_voting_app.Voting.Casting.{
  SecretsManager, on_secrets, vote, post_ballot_decryption, reveal_ballot_decryption,
}
use pebble_voting_app.Voting.Casting.Posting.{mock_channel, MockWorld}
use pebble_voting_app.Voting.Casting.Revealed.{IsDecided, decrypt_ballot-create_decryption_message}
use pebble_voting_app.Voting.Casting.Voted.{Remembers, vote-Voted}

decryptions-append :
    (ms more : List Message) → decryptions (ms ++ more) ≡ decryptions ms ++ decryptions more
unfolding decryptions
decryptions-append [] more = refl
decryptions-append (m ∷ ms) more =
    let rest = decryptions-append ms more in
    elim (Option-cases m.signed_ballot) [
      | inr (b, e) ↦ rw e rest
      | inl e ↦ elim (Option-cases m.decryption) [
        | inr (d, e') ↦ rw (e, e') (ap (λ ds. d ∷ ds) rest)
        | inl e' ↦ rw (e, e') rest
      ]
    ]

module _ (sys : CredentialSystem) (schemes : Schemes) (ciphers : Ciphers)
    (iteration : List sys.PublicCredential → List sys.PublicCredential)
    (manager : SecretsManager sys) (remembers : Remembers manager) where
  revealed_message :
      (e : Election) (now : Time) (w : MockWorld sys schemes ciphers iteration manager)
      → (reveal_ballot_decryption sys schemes ciphers iteration mock_channel manager e now w).0
        ≡ ok tt
      → (reveal_ballot_decryption sys schemes ciphers iteration mock_channel manager e now
          w).1.posted
        ≡ post w.posted
            (of_decryption (create_decryption_message ciphers.sha256 (remembers.stored w.kept)))
  unfolding reveal_ballot_decryption post_ballot_decryption
  revealed_message e now w done =
      continue-ok_holds
        (λ q.
          q.1.posted
          ≡ post w.posted
              (of_decryption (create_decryption_message ciphers.sha256 (remembers.stored w.kept))))
        (on_secrets sys schemes ciphers iteration mock_channel manager manager.get_vdf_solution w) _
        done
        λ sol w1 got done1. elim (Bool-cases (number (phase now e.params) == number tally)) [
          | inr wrong ↦ absurd (ground arith)
          | inl right ↦
              let there = ap (λ q. q.1.posted) (sym got) in
              let same = remembers.get w.kept sol (ap (λ q. q.0) got) in
              rw right (
                ap (λ x. post x (of_decryption (create_decryption_message ciphers.sha256 sol)))
                  there
                ∙ ap
                    (λ x.
                      post w.posted (of_decryption (create_decryption_message ciphers.sha256 x)))
                    same)
        ]

  abbrev pub voted :
      Election
      → (now later : Time) → (duration : ℕ) → (nonce : Bytes) → (choices : List ℕ)
      → MockWorld sys schemes ciphers iteration manager
      → Result (Unit {0}) × MockWorld sys schemes ciphers iteration manager
  voted e now later duration nonce choices =
      vote sys schemes ciphers iteration mock_channel manager e now later duration (ok nonce)
        choices

  abbrev pub revealed :
      Election
      → Time
      → MockWorld sys schemes ciphers iteration manager
      → Result (Unit {0}) × MockWorld sys schemes ciphers iteration manager
  revealed = reveal_ballot_decryption sys schemes ciphers iteration mock_channel manager

  -- On the channel kept in memory, with a secrets manager that remembers: if `Vote` of some choices
  -- returns no error, it has appended a signed ballot for these choices. If then, on a channel with
  -- any messages that meet the condition below, `RevealBallotDecryption` of the same voter returns
  -- no error, `decryptBallot` opens that ballot to what the voting method made of the choices,
  -- whatever is posted later. The condition: for those decryption messages on the channel that have
  -- the hash of this ballot's input, `Verify` on that input returns, with or without an error. The
  -- cipher is assumed to open what it seals, the nonce to have 12 bytes, and `Verify` to accept the
  -- solution that `Create` returned.
  pub decrypt_ballot-vote :
      (e : Election) (now later closed : Time) (duration : ℕ) (nonce : Bytes) (choices : List ℕ)
      (w w2 : MockWorld sys schemes ciphers iteration manager) (more : List Message)
      → ((c : ciphers.Aead) (n m : Bytes) → ciphers.open_sealed c n (ciphers.seal c n m) ≡ ok m)
      → length nonce ≡ 12
      → ((sol : VdfSolution) → e.vdf.create duration ≡ ok sol → e.vdf.verify sol ≡ ok tt)
      → (voted e now later duration nonce choices w).0 ≡ ok tt
      → w2.kept ≡ (voted e now later duration nonce choices w).1.kept
      → (revealed e closed w2).0 ≡ ok tt
      → ((signed : SignedBallot)
          → (voted e now later duration nonce choices w).1.posted ≡ post w.posted (of_ballot signed)
          → All (IsDecided ciphers e.vdf signed.encrypted_ballot) (decryptions w2.posted.messages))
      → (signed : SignedBallot) × (ballot : Bytes) × ((voted e now later duration nonce choices
            w).1.posted
          ≡ post w.posted (of_ballot signed))
        × (Choice.vote e.method choices ≡ ok ballot)
        × (decrypt_ballot ciphers e.vdf signed.encrypted_ballot
              (decryptions ((revealed e closed w2).1.posted.messages ++ more))
            ≡ ok ballot)
  unfolding decryptions
  decrypt_ballot-vote e now later closed duration nonce choices w w2 more opens h creates cast same
        tallied decided =
      let v =
        vote-Voted sys schemes ciphers iteration manager remembers e now later duration nonce
          choices w cast in
      let d = create_decryption_message ciphers.sha256 v.solution in
      let stored : remembers.stored w2.kept ≡ v.solution = ap remembers.stored same ∙ v.kept in
      let there : decryptions ((revealed e closed w2).1.posted.messages ++ more)
          ≡ decryptions w2.posted.messages ++ d ∷ decryptions more =
        ap (λ bc. decryptions (bc.messages ++ more))
          (revealed_message e closed w2 tallied
            ∙ ap
                (λ sol.
                  post w2.posted (of_decryption (create_decryption_message ciphers.sha256 sol)))
                stored)
        ∙ ap decryptions (append_assoc w2.posted.messages (of_decryption d ∷ []) more)
        ∙ decryptions-append w2.posted.messages (of_decryption d ∷ more) in
      (
        v.signed,
        v.ballot,
        v.posted,
        v.chosen,
        ap (decrypt_ballot ciphers e.vdf v.signed.encrypted_ballot) there
            ∙ decrypt_ballot-create_decryption_message ciphers e.vdf nonce v.ballot v.solution
                v.signed.encrypted_ballot (decryptions w2.posted.messages) (decryptions more) opens
                h v.encrypted (creates v.solution v.created) (decided v.signed v.posted),
      )
