-- ===== src/Voting/Election/Denial.antt =====
-- `Progress` of election.go over pietrzak.go: a decryption message that makes it panic.
use pebble_voting_app.Base.{
  ℕ, ◌≡◌, ◌≢◌, ◌∙◌, ◌≤◌, ap, sym, subst, refl, true, [], ◌∷◌, ◌++◌, List, All, Bool, Bytes, Result,
  ok, panic, arith, bytes_eq_refl, replicate, leb, ok_injective, >>=-eq-ok,
}
use pebble_voting_app.Vdf.{Vdf, VdfSolution}
use pebble_voting_app.Vdf.Pietrzak
use pebble_voting_app.Vdf.Pietrzak.{PietrzakVdf}
use pebble_voting_app.Vdf.Pietrzak.Denial.{zero_factor, verify-zero_factor}
use pebble_voting_app.Pubkey.{Schemes}
use pebble_voting_app.Anoncred.{CredentialSystem}
use pebble_voting_app.Structs.DecryptionMessage.{DecryptionMessage}
use pebble_voting_app.Structs.EncryptedBallot.{EncryptedBallot}
use pebble_voting_app.Structs.EncryptedBallot.Sealing.{Ciphers}
use pebble_voting_app.Structs.SignedBallot.{SignedBallot}
use pebble_voting_app.Util.BytesSet
use pebble_voting_app.Voting.Params.{Time, ElectionPhase, phase, number, tally}
use pebble_voting_app.Voting.Message.{Message}
use pebble_voting_app.Voting.Election.{
  Election, ElectionProgress, Counts, no_counts, decrypt_ballot, signed_ballots, decryptions,
  verify_ballot, tally_ballot, count_ballot, count_ballots, get_credential_set, progress,
}
use pebble_voting_app.Voting.Election.Decryption.{Fails, skip}
use pebble_voting_app.Voting.Election.Progress.{count_ballots_step, progress-Basis}

-- Anyone can make it of a posted ballot.
abbrev pub denying : Ciphers → EncryptedBallot → DecryptionMessage
denying ciphers eb = record {
  input_hash = ciphers.sha256 eb.vdf_input;
  output = [];
  proof = replicate 64 0;
}

decrypt_ballot-denying :
    (ciphers : Ciphers) (vdf : Vdf) (eb : EncryptedBallot) (front back : List DecryptionMessage)
    → vdf.verify (zero_factor eb.vdf_input) ≡ panic
    → All (Fails ciphers vdf eb) front
    → decrypt_ballot ciphers vdf eb (front ++ denying ciphers eb ∷ back) ≡ panic
unfolding decrypt_ballot
decrypt_ballot-denying ciphers vdf eb [] back e h =
    rw (bytes_eq_refl (ciphers.sha256 eb.vdf_input), e) refl
decrypt_ballot-denying ciphers vdf eb (d ∷ front) back e h =
    skip ciphers vdf eb d (front ++ denying ciphers eb ∷ back) h.0
    ∙ decrypt_ballot-denying ciphers vdf eb front back e h.1

module _ (sys : CredentialSystem) (schemes : Schemes) (ciphers : Ciphers)
    (iteration : List sys.PublicCredential → List sys.PublicCredential) where
  open sys use {CredentialSet}

  count_ballot-panic :
      (e : Election) (ph : ElectionPhase) (set : CredentialSet) (decs : List DecryptionMessage)
      (c : Counts) (b : SignedBallot)
      → leb (number tally) (number ph) ≡ true
      → verify_ballot sys schemes ciphers iteration set b ≡ ok tt
      → decrypt_ballot ciphers e.vdf b.encrypted_ballot decs ≡ panic
      → count_ballot sys schemes ciphers iteration e ph set decs c b ≡ panic
  unfolding count_ballot tally_ballot
  count_ballot-panic e ph set decs c b late good stops = rw (good, late, stops) refl

  -- A ballot that makes its round panic leaves no result of the loop.
  count_ballots-panic :
      (e : Election) (ph : ElectionPhase) (set : CredentialSet) (decs : List DecryptionMessage)
      (before after : List SignedBallot) (b : SignedBallot) (c c' : Counts)
      → ((c : Counts) → count_ballot sys schemes ciphers iteration e ph set decs c b ≡ panic)
      → count_ballots sys schemes ciphers iteration e ph set decs BytesSet.empty c
          (before ++ b ∷ after)
        ≢ ok c'
  count_ballots-panic e ph set decs [] after b c c' stops h =
      let (c1, h1, h2) =
        >>=-eq-ok (count_ballot sys schemes ciphers iteration e ph set decs c b) _
          (sym (count_ballots_step sys schemes ciphers iteration e ph set decs c b after) ∙ h) in
      absurd (ground (arith, stops c))
  count_ballots-panic e ph set decs (a ∷ before) after b c c' stops h =
      let (c1, h1, h2) =
        >>=-eq-ok (count_ballot sys schemes ciphers iteration e ph set decs c a) _ (
          sym (
            count_ballots_step sys schemes ciphers iteration e ph set decs c a
              (before ++ b ∷ after))
          ∙ h) in
      count_ballots-panic e ph set decs before after b c1 c' stops h2

  -- In an election whose puzzles are those of pietrzak.go, from the tally phase on: if a posted
  -- ballot verifies against the credential set, and its puzzle has some solution that `Verify`
  -- accepts, then one decryption message with the hash of the puzzle's input, no output and 64
  -- zeros for the proof, that follows messages which are about other ballots or refused, keeps
  -- `Progress` from ever returning a progress.
  pub progress-denying :
      (prime : ℕ → Bool) (puzzles : PietrzakVdf) (sha256 : Bytes → Bytes) (e : Election)
      (now later : Time) (first : Result (List Message)) (msgs : List Message) (set : CredentialSet)
      (before after : List SignedBallot) (b : SignedBallot) (front back : List DecryptionMessage)
      (sol : VdfSolution) (p : ElectionProgress)
      → ((s : VdfSolution) → e.vdf.verify s ≡ Pietrzak.verify sha256 prime puzzles s)
      → number tally ≤ number (phase now e.params)
      → get_credential_set sys schemes ciphers iteration e later first ≡ ok set
      → signed_ballots msgs ≡ before ++ b ∷ after
      → verify_ballot sys schemes ciphers iteration set b ≡ ok tt
      → sol.input ≡ b.encrypted_ballot.vdf_input
      → e.vdf.verify sol ≡ ok tt
      → decryptions msgs ≡ front ++ denying ciphers b.encrypted_ballot ∷ back
      → All (Fails ciphers e.vdf b.encrypted_ballot) front
      → progress sys schemes ciphers iteration e now later first (ok msgs) ≢ ok p
  progress-denying prime puzzles sha256 e now later first msgs set before after b front back sol p
        vdf late made ballots good input solved decs fails h =
      let eb = b.encrypted_ballot in
      let zero : e.vdf.verify (zero_factor eb.vdf_input) ≡ panic =
        vdf (zero_factor eb.vdf_input)
        ∙ subst (λ i. Pietrzak.verify sha256 prime puzzles (zero_factor i) ≡ panic) input
            (verify-zero_factor sha256 prime puzzles sol (sym (vdf sol) ∙ solved)) in
      let stops = decrypt_ballot-denying ciphers e.vdf eb front back zero fails in
      let basis =
        progress-Basis sys schemes ciphers iteration e now later first (ok msgs) p
          (omega (arith, late)) h in
      let same_set : basis.set ≡ set = ok_injective (sym basis.made ∙ made) in
      let same_msgs : basis.msgs ≡ msgs = ok_injective (sym basis.fetched) in
      let round : (c : Counts)
          → count_ballot sys schemes ciphers iteration e (phase now e.params) set (decryptions msgs)
              c b
            ≡ panic =
        λ c.
          count_ballot-panic e (phase now e.params) set (decryptions msgs) c b (ground arith) good
            (ap (decrypt_ballot ciphers e.vdf eb) decs ∙ stops) in
      count_ballots-panic e (phase now e.params) set (decryptions msgs) before after b no_counts
        basis.counts round
        (sym (
            ap
              (λ s.
                count_ballots sys schemes ciphers iteration e (phase now e.params) s
                  (decryptions basis.msgs) BytesSet.empty no_counts (signed_ballots basis.msgs))
              same_set
            ∙ ap
                (λ m.
                  count_ballots sys schemes ciphers iteration e (phase now e.params) set
                    (decryptions m) BytesSet.empty no_counts (signed_ballots m))
                same_msgs
            ∙ ap
                (count_ballots sys schemes ciphers iteration e (phase now e.params) set
                  (decryptions msgs) BytesSet.empty no_counts)
                ballots)
          ∙ basis.counted)
