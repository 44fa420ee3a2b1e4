-- ===== src/Structs/EncryptedBallot/Sealing.antt =====
-- pebble-core/voting/structs/ballot.go: `createCipher`, `Encrypt` and `Decrypt`. SHA-256, AES and
-- GCM are the Go library's, and are parameters.
use pebble_voting_app.Base.{
  ◌≡◌, ◌++◌, [], ◌∷◌, Bytes, Result, ok, err, length, ltb, if◌then◌else◌, bytes_eq, take, drop,
  mismatched_vdf_solution, payload_too_short, ◌>>=◌, bytes_eq_refl, subst, >>=-eq-ok,
}
use pebble_voting_app.Util.Slices.{concat}
use pebble_voting_app.Util.Buffer.Words.{take_exact, drop_exact, long_enough}
use pebble_voting_app.Vdf.{VdfSolution}
use pebble_voting_app.Structs.EncryptedBallot.{Ballot, EncryptedBallot}

-- `cipher.AEAD` over a block cipher; `open_sealed` fails on a text that was tampered with.
pub record Ciphers : Type 1 where
  pub Block : Type 0
  pub Aead : Type 0
  pub sha256 : Bytes → Bytes
  pub new_cipher : Bytes → Result Block
  pub new_gcm : Block → Result Aead
  pub seal : Aead → Bytes → Bytes → Bytes
  pub open_sealed : Aead → Bytes → Bytes → Result Bytes

module _ (ciphers : Ciphers) where
  open ciphers use {Aead, sha256, new_cipher, new_gcm, seal, open_sealed}

  unfoldable pub create_cipher : Bytes → Result Aead
  create_cipher vdf_input = do block ← new_cipher (sha256 vdf_input); new_gcm block

  -- `drawn` is what `io.ReadFull` gives for the nonce.
  unfoldable pub encrypt : (drawn : Result Bytes) → Ballot → VdfSolution → Result EncryptedBallot
  unfolding concat
  encrypt drawn b sol = do
    cipher ← create_cipher sol.input
    nonce ← drawn
    ok (record { vdf_input = sol.input; payload = concat (nonce ∷ seal cipher nonce b ∷ []) })

  unfoldable pub decrypt : EncryptedBallot → VdfSolution → Result Ballot
  decrypt eb sol =
      if bytes_eq sol.input eb.vdf_input
      then (do
        cipher ← create_cipher sol.input
        if ltb (length eb.payload) 12
            then err payload_too_short
            else open_sealed cipher (take 12 eb.payload) (drop 12 eb.payload))
      else err mismatched_vdf_solution

  -- If the cipher opens what it seals, and the drawn nonce has 12 bytes, then what `Encrypt`
  -- returned for a ballot is decrypted to it by the puzzle's input, which stands in the encrypted
  -- ballot, with any output and any proof: the key does not depend on the solution.
  pub decrypt-encrypt :
      (nonce b : Bytes) (sol : VdfSolution) (eb : EncryptedBallot) (output proof : Bytes)
      → ((c : Aead) (n m : Bytes) → open_sealed c n (seal c n m) ≡ ok m)
      → length nonce ≡ 12
      → encrypt (ok nonce) b sol ≡ ok eb
      → decrypt eb (record { input = eb.vdf_input; output = output; proof = proof }) ≡ ok b
  unfolding encrypt decrypt
  decrypt-encrypt nonce b sol eb output proof opens h e =
      let (c, made, e') = >>=-eq-ok (create_cipher sol.input) _ e in
      let body = seal c nonce b in
      let sealed : EncryptedBallot = record { vdf_input = sol.input; payload = nonce ++ body } in
      let same : sealed ≡ eb = unfold concat in cc in
      subst (λ v. decrypt v (record { input = v.vdf_input; output = output; proof = proof }) ≡ ok b)
        same
        (rw
          (
            bytes_eq_refl sol.input,
            made,
            long_enough nonce body 12 h,
            take_exact nonce body 12 h,
            drop_exact nonce body 12 h,
          )
          (opens c nonce b))
