-- ===== src/Anoncred/AnonCred1/Completeness.antt =====
-- anoncred1.go: a signature that `Sign` makes passes `Verify`.
use pebble_voting_app.Base.{
  ℕ, ◌^◌, ◌<◌, ◌≡◌, ◌∙◌, sym, refl, [], List, Bool, Bytes, Result, ok, ◌>>=◌, >>=-eq-ok,
  ok_injective, subst, length, All,
}
use mathlib.Core.List.{Permᴰ}
use pebble_voting_app.Anoncred.Gnark.{Circuit, Gnark, HashesAgree}
use pebble_voting_app.Anoncred.AnonCred1.{
  AnonCred1, AnonCred1Proof, Define, setup_circuit, hash_merkle_tree, prove, verify,
}
use pebble_voting_app.Anoncred.AnonCred1.Levels.{AreBlocks, hash_at}
use pebble_voting_app.Anoncred.AnonCred1.Branch.{
  ancestors, directions, side_hashes, above, length-directions, length-side_hashes,
  directions-AreBits, hash_merkle_tree-first, climb-ancestors, first-ancestors, prove_levels-branch,
}

-- Groth16 is complete: with keys of its own making, a circuit of the compiled shape whose
-- constraints hold has a proof, which is written, read back and accepted.
pub record Complete (g : Gnark) : Type 0 where
  pub proves :
      (depth : ℕ) (cs : g.ConstraintSystem) (pk : g.ProvingKey) (vk : g.VerifyingKey)
      (c : Circuit g.Var)
      → g.compile depth ≡ ok cs
      → g.generate cs ≡ ok (pk, vk)
      → length c.directions ≡ depth
      → length c.side_hashes ≡ depth
      → Define g c
      → (proof : g.Proof) × (bytes : Bytes) × (g.prove cs pk c ≡ ok proof)
        × (g.write_proof proof ≡ ok bytes)
        × (0 < length bytes)
        × (g.read_proof bytes ≡ ok proof)
        × (g.verify proof vk depth c.inputs ≡ ok tt)

-- sort.Sort rearranges the slice, when no comparison that it may make panics.
pub record Sorts (sort : ((a b : Bytes) → Result Bool) → List Bytes → Result (List Bytes))
    : Type 1 where
  pub sorts :
      (test : (a b : Bytes) → Result Bool) (P : Bytes → Type 0) (xs : List Bytes)
      → ((a b : Bytes) → P a → P b → (r : Bool) × (test a b ≡ ok r))
      → All P xs
      → (ys : List Bytes) × (sort test xs ≡ ok ys) × Permᴰ xs ys

pub setup_circuit-keys :
    (g : Gnark) (depth : ℕ) (params : AnonCred1 g)
    → setup_circuit g depth ≡ ok params
    → (g.compile params.depth ≡ ok params.cs) × (g.generate params.cs ≡ ok (params.pk, params.vk))
unfolding setup_circuit
setup_circuit-keys g depth params setup =
    let (cs, compiled, setup') = >>=-eq-ok (g.compile depth) _ setup in
    let ((pk, vk), generated, made) = >>=-eq-ok (g.generate cs) _ setup' in
    let same = ok_injective made in
    (
      subst (λ (ps : AnonCred1 g). g.compile ps.depth ≡ ok ps.cs) same compiled,
      subst (λ (ps : AnonCred1 g). g.generate ps.cs ≡ ok (ps.pk, ps.vk)) same generated,
    )

module _ (g : Gnark) (agree : HashesAgree g) where
  open g use {Var, value}

  -- The circuit with which `prove` calls Groth16.
  abbrev pub assigned :
      (depth : ℕ)
      → (message_hash serial_no secret : Bytes) → (hs : List Bytes) → (k : ℕ) → Circuit Var
  assigned depth message_hash serial_no secret hs k = record {
    inputs = record {
      message_hash = value message_hash;
      serial_no = value serial_no;
      signature = value (agree.node message_hash secret);
      merkle_root = value (hash_at (ancestors g agree depth hs) (above depth k));
    };
    secret = value secret;
    directions = directions g agree depth hs k;
    side_hashes = side_hashes g agree depth hs k;
  }

  assigned-Define :
      (depth : ℕ) (message_hash serial_no secret : Bytes) (hs : List Bytes) (k : ℕ)
      → length message_hash ≡ 32
      → length serial_no ≡ 32
      → length secret ≡ 32
      → AreBlocks hs
      → k < length hs
      → hash_at hs k ≡ agree.node serial_no secret
      → Define g (assigned depth message_hash serial_no secret hs k)
  assigned-Define depth m serial_no secret hs k em es ex h lt leaf = record {
    signature = sym (agree.mimc_vars-value m secret em ex);
    bits = directions-AreBits g agree depth hs k;
    root =
        rw (agree.mimc_vars-value serial_no secret es ex, sym leaf)
          (climb-ancestors g agree depth hs k h lt);
  }

  -- `prove` up to its call of Groth16.
  prove-assigned :
      (params : AnonCred1 g) (p : AnonCred1Proof) (secret : Bytes) (hs : List Bytes) (k : ℕ)
      → length p.message_hash ≡ 32
      → length secret ≡ 32
      → AreBlocks hs
      → k < length hs
      → k < 2 ^ params.depth
      → prove g params p secret k hs ≡ (do
        proof ←
            g.prove params.cs params.pk
              (assigned params.depth p.message_hash p.serial_no secret hs k)
        bytes ← g.write_proof proof
        ok (record p {
          signature = agree.node p.message_hash secret;
          merkle_root = hash_at (ancestors g agree params.depth hs) (above params.depth k);
          proof = bytes;
        }))
  unfolding prove
  prove-assigned params p secret hs k em ex h lt deep =
      rw
        (
          agree.mimc-ok p.message_hash secret em ex,
          prove_levels-branch g agree params.depth
              (record { hashes = hs; index = k; directions = []; side_hashes = [] }) h lt,
          first-ancestors g agree params.depth hs k lt deep,
        )
        refl

  -- When the credential at the place is the public credential of the serial number and the
  -- secret, hash and key parts are single blocks, and the place is below 2 to the depth, `prove`
  -- calls Groth16 with a circuit of the given hash and serial number whose constraints all hold;
  -- its root is the one of `hashMerkleTree`.
  pub prove-Define :
      (params : AnonCred1 g) (p : AnonCred1Proof) (secret : Bytes) (hs : List Bytes) (k : ℕ)
      → length p.message_hash ≡ 32
      → length p.serial_no ≡ 32
      → length secret ≡ 32
      → AreBlocks hs
      → k < length hs
      → k < 2 ^ params.depth
      → hash_at hs k ≡ agree.node p.serial_no secret
      → (c : Circuit Var) × (root : Bytes) × Define g c
        × (c.inputs.message_hash ≡ value p.message_hash)
        × (c.inputs.serial_no ≡ value p.serial_no)
        × (c.inputs.merkle_root ≡ value root)
        × (hash_merkle_tree g hs params.depth ≡ ok root)
        × (prove g params p secret k hs ≡ (do
          proof ← g.prove params.cs params.pk c
          bytes ← g.write_proof proof
          ok (record p {
            signature = agree.node p.message_hash secret;
            merkle_root = root;
            proof = bytes;
          })))
  prove-Define params p secret hs k em es ex h lt deep leaf = (
    assigned params.depth p.message_hash p.serial_no secret hs k,
    hash_at (ancestors g agree params.depth hs) (above params.depth k),
    assigned-Define params.depth p.message_hash p.serial_no secret hs k em es ex h lt leaf,
    refl,
    refl,
    refl,
    hash_merkle_tree-first g agree params.depth hs h
        ∙ first-ancestors g agree params.depth hs k lt deep,
    prove-assigned params p secret hs k em ex h lt deep,
  )

  verify-ok :
      (params : AnonCred1 g) (p : AnonCred1Proof) (proof : g.Proof)
      → g.read_proof p.proof ≡ ok proof
      → g.verify proof params.vk params.depth (record {
        message_hash = value p.message_hash;
        serial_no = value p.serial_no;
        signature = value p.signature;
        merkle_root = value p.merkle_root;
      })
        ≡ ok tt
      → verify g params p ≡ ok tt
  unfolding verify
  verify-ok params p proof parsed accepted = rw (parsed, accepted) refl

  -- A proof by `prove` passes `verify`.
  pub verify-prove :
      Complete g
      → (params : AnonCred1 g) (p : AnonCred1Proof) (secret : Bytes) (hs : List Bytes) (k : ℕ)
      → setup_circuit g params.depth ≡ ok params
      → length p.message_hash ≡ 32
      → length p.serial_no ≡ 32
      → length secret ≡ 32
      → AreBlocks hs
      → k < length hs
      → k < 2 ^ params.depth
      → hash_at hs k ≡ agree.node p.serial_no secret
      → hash_merkle_tree g hs params.depth ≡ ok p.merkle_root
      → (bytes : Bytes) × (0 < length bytes)
        × (prove g params p secret k hs
            ≡ ok (record p { signature = agree.node p.message_hash secret; proof = bytes }))
        × (verify g params
              (record p { signature = agree.node p.message_hash secret; proof = bytes })
            ≡ ok tt)
  verify-prove complete params p secret hs k setup em es ex h lt deep leaf root =
      let (compiled, generated) = setup_circuit-keys g params.depth params setup in
      let tree =
        hash_merkle_tree-first g agree params.depth hs h
        ∙ first-ancestors g agree params.depth hs k lt deep in
      let same = ok_injective (sym tree ∙ root) in
      let (proof, bytes, made, written, some_bytes, parsed, accepted) =
        complete.proves params.depth params.cs params.pk params.vk
          (assigned params.depth p.message_hash p.serial_no secret hs k) compiled generated
          (length-directions g agree params.depth hs k)
          (length-side_hashes g agree params.depth hs k)
          (assigned-Define params.depth p.message_hash p.serial_no secret hs k em es ex h lt
            leaf) in
      (
        bytes,
        some_bytes,
        prove-assigned params p secret hs k em ex h lt deep ∙ rw (made, written, same) refl,
        verify-ok params _ proof parsed (rw (sym same) accepted),
      )
