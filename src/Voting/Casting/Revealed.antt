-- ===== src/Voting/Casting/Revealed.antt =====
-- election.go from `Vote` to the tally: the decryption of a ballot whose solution is revealed.
use pebble_voting_app.Util.Buffer.Returned.{returned, returned-cases}
use pebble_voting_app.Base.{
  [], true, bytes_eq, bytes_eq→eq, Bool-cases, inl, inr, ◌≡◌, ◌∙◌, ap, sym, subst, ◌∷◌, ◌++◌, List,
  Bytes, ok, arith, length, All, >>=-eq-ok,
}
use pebble_voting_app.Vdf.{Vdf, VdfSolution}
use pebble_voting_app.Structs.DecryptionMessage.{DecryptionMessage, create_decryption_message}
use pebble_voting_app.Structs.EncryptedBallot.{EncryptedBallot}
use pebble_voting_app.Structs.EncryptedBallot.Sealing.{
  Ciphers, create_cipher, encrypt, decrypt-encrypt,
}
use pebble_voting_app.Voting.Election.{decrypt_ballot}
use pebble_voting_app.Voting.Election.Decryption.{Solves, solution, skip, opens}

module _ (ciphers : Ciphers) (vdf : Vdf) where
  -- If the message is about the ballot, `Verify` returns for its solution.
  abbrev pub IsDecided : EncryptedBallot → DecryptionMessage → Type 0
  IsDecided eb d =
      d.input_hash ≡ ciphers.sha256 eb.vdf_input → returned (vdf.verify (solution eb d)) ≡ true

  encrypt-input :
      (nonce b : Bytes) (sol : VdfSolution) (eb : EncryptedBallot)
      → encrypt ciphers (ok nonce) b sol ≡ ok eb
      → eb.vdf_input ≡ sol.input
  unfolding encrypt
  encrypt-input nonce b sol eb e =
      let (c, made, e') = >>=-eq-ok (create_cipher ciphers sol.input) _ e in ground arith

  revealed :
      (nonce b : Bytes) (sol : VdfSolution) (eb : EncryptedBallot)
      → encrypt ciphers (ok nonce) b sol ≡ ok eb
      → vdf.verify sol ≡ ok tt
      → Solves ciphers vdf eb (create_decryption_message ciphers.sha256 sol)
  unfolding create_decryption_message
  revealed nonce b sol eb e v =
      let same = encrypt-input nonce b sol eb e in
      record {
        hash = ap ciphers.sha256 (sym same);
        verified = subst (λ i. vdf.verify (record sol { input = i }) ≡ ok tt) (sym same) v;
      }

  -- A ballot is opened by every message about it whose solution is accepted, so the first such
  -- message gives the voter's ballot.
  pub decrypt_ballot-create_decryption_message :
      (nonce b : Bytes) (sol : VdfSolution) (eb : EncryptedBallot)
      (front back : List DecryptionMessage)
      → ((c : ciphers.Aead) (n m : Bytes) → ciphers.open_sealed c n (ciphers.seal c n m) ≡ ok m)
      → length nonce ≡ 12
      → encrypt ciphers (ok nonce) b sol ≡ ok eb
      → vdf.verify sol ≡ ok tt
      → All (IsDecided eb) front
      → decrypt_ballot ciphers vdf eb (front ++ create_decryption_message ciphers.sha256 sol ∷ back)
        ≡ ok b
  decrypt_ballot-create_decryption_message nonce b sol eb [] back opened h e v tt =
      opens ciphers vdf eb _ back (revealed nonce b sol eb e v)
      ∙ decrypt-encrypt ciphers nonce b sol eb _ _ opened h e
  decrypt_ballot-create_decryption_message nonce b sol eb (d ∷ front) back opened h e v
        (own, others) =
      let rest = front ++ create_decryption_message ciphers.sha256 sol ∷ back in
      let next =
        decrypt_ballot-create_decryption_message nonce b sol eb front back opened h e v others in
      elim (Bool-cases (bytes_eq d.input_hash (ciphers.sha256 eb.vdf_input))) [
        | inr other ↦ skip ciphers vdf eb d rest (inl other) ∙ next
        | inl same ↦
            elim (returned-cases (vdf.verify (solution eb d)) (own (bytes_eq→eq _ _ same))) [
              | inr refused ↦ skip ciphers vdf eb d rest (inr refused) ∙ next
              | inl (u, accepted) ↦
                  opens ciphers vdf eb d rest
                    (record { hash = bytes_eq→eq _ _ same; verified = accepted })
                  ∙ decrypt-encrypt ciphers nonce b sol eb _ _ opened h e
            ]
      ]
