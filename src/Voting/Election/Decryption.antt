-- ===== src/Voting/Election/Decryption.antt =====
-- `decryptBallot` of election.go: which decryption message opens a ballot.
use pebble_voting_app.Base.{
  ◌≡◌, ◌⊎◌, refl, inl, inr, [], ◌∷◌, ◌++◌, List, false, Bytes, ok, err, Error, arith, bytes_eq,
  bytes_eq→eq, All, Bool-cases, ◌∙◌, ap, sym, Result-cases, bytes_eq_refl,
}
use pebble_voting_app.Vdf.{Vdf, VdfSolution}
use pebble_voting_app.Structs.DecryptionMessage.{DecryptionMessage}
use pebble_voting_app.Structs.EncryptedBallot.{EncryptedBallot}
use pebble_voting_app.Structs.EncryptedBallot.Sealing.{Ciphers, decrypt}
use pebble_voting_app.Voting.Election.{decrypt_ballot}

-- The solution that a decryption message offers for a ballot.
abbrev pub solution : EncryptedBallot → DecryptionMessage → VdfSolution
solution eb d = record { input = eb.vdf_input; output = d.output; proof = d.proof }

module _ (ciphers : Ciphers) (vdf : Vdf) (eb : EncryptedBallot) where
  -- The message is about this ballot, and its solution verifies.
  pub record Solves (d : DecryptionMessage) : Type 0 where
    pub hash : d.input_hash ≡ ciphers.sha256 eb.vdf_input
    pub verified : vdf.verify (solution eb d) ≡ ok tt

  -- The message is about another ballot, or its solution is refused.
  abbrev pub Fails : DecryptionMessage → Type 0
  Fails d =
      (bytes_eq d.input_hash (ciphers.sha256 eb.vdf_input) ≡ false)
      ⊎ ((e : Error) × (vdf.verify (solution eb d) ≡ err e))

  pub skip :
      (d : DecryptionMessage) (ds : List DecryptionMessage)
      → Fails d
      → decrypt_ballot ciphers vdf eb (d ∷ ds) ≡ decrypt_ballot ciphers vdf eb ds
  unfolding decrypt_ballot
  skip d ds (inl other) = ground arith
  skip d ds (inr (e, refused)) = ground arith

  pub opens :
      (d : DecryptionMessage) (ds : List DecryptionMessage)
      → Solves d
      → decrypt_ballot ciphers vdf eb (d ∷ ds) ≡ decrypt ciphers eb (solution eb d)
  unfolding decrypt_ballot
  opens d ds s = rw s.hash (ground (arith, s.verified, bytes_eq_refl (ciphers.sha256 eb.vdf_input)))

  abbrev Opened : List DecryptionMessage → Bytes → Type 0
  Opened ds b =
      (front : List DecryptionMessage) × (d : DecryptionMessage) × (back : List DecryptionMessage)
      × (ds ≡ front ++ d ∷ back)
      × Solves d
      × (decrypt ciphers eb (solution eb d) ≡ ok b)

  Opened-cons :
      (d : DecryptionMessage) (ds : List DecryptionMessage) (b : Bytes)
      → Opened ds b
      → Opened (d ∷ ds) b
  Opened-cons d ds b (front, x, back, e, s, o) = (d ∷ front, x, back, ap (λ l. d ∷ l) e, s, o)

  -- The outcomes of one message that let the loop reach a ballot.
  classify :
      (d : DecryptionMessage) (ds : List DecryptionMessage) (b : Bytes)
      → decrypt_ballot ciphers vdf eb (d ∷ ds) ≡ ok b
      → Solves d ⊎ Fails d
  unfolding decrypt_ballot
  classify d ds b e = elim (Bool-cases (bytes_eq d.input_hash (ciphers.sha256 eb.vdf_input))) [
    | inr other ↦ inr (inl other)
    | inl same ↦ elim (Result-cases (vdf.verify (solution eb d))) [
      | inl (u, v) ↦ inl (record { hash = bytes_eq→eq _ _ same; verified = v })
      | inr (inl (x, v)) ↦ inr (inr (x, v))
      | inr (inr (inl v)) ↦ absurd (ground arith)
      | inr (inr (inr v)) ↦ absurd (ground arith)
    ]
  ]

  -- If `decryptBallot` returns b, some message in the list has the hash of the ballot's puzzle,
  -- its solution verifies, and decrypting with that solution gives b.
  pub decrypt_ballot_sound :
      (ds : List DecryptionMessage) (b : Bytes)
      → decrypt_ballot ciphers vdf eb ds ≡ ok b
      → (front : List DecryptionMessage) × (d : DecryptionMessage) × (back : List DecryptionMessage)
        × (ds ≡ front ++ d ∷ back)
        × Solves d
        × (decrypt ciphers eb (solution eb d) ≡ ok b)
  decrypt_ballot_sound [] b e = absurd (unfold decrypt_ballot in ground arith)
  decrypt_ballot_sound (d ∷ ds) b e = elim (classify d ds b e) [
    | inl solves ↦ ([], d, ds, refl, solves, sym (opens d ds solves) ∙ e)
    | inr fails ↦ Opened-cons d ds b (decrypt_ballot_sound ds b (sym (skip d ds fails) ∙ e))
  ]

  -- If every message in front is about another ballot or has a solution that is refused with an
  -- error, and d is about the ballot and has a solution that verifies, then `decryptBallot` gives
  -- what decrypting with d's solution gives, whatever follows d.
  pub decrypt_ballot_complete :
      (front : List DecryptionMessage) (d : DecryptionMessage) (back : List DecryptionMessage)
      → All Fails front
      → Solves d
      → decrypt_ballot ciphers vdf eb (front ++ d ∷ back) ≡ decrypt ciphers eb (solution eb d)
  decrypt_ballot_complete [] d back h s = opens d back s
  decrypt_ballot_complete (x ∷ front) d back h s =
      skip x (front ++ d ∷ back) h.0 ∙ decrypt_ballot_complete front d back h.1 s
