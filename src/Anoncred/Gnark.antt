-- ===== src/Anoncred/Gnark.antt =====
-- What anoncred1.go uses of gnark and gnark-crypto: circuit variables, MiMC and Groth16. They are
-- parameters.
use pebble_voting_app.Base.{ℕ, ◌≡◌, List, Bytes, Result, ok, length}

-- The public part of anonCred1Circuit.
pub record PublicInputs (Var : Type 0) : Type 0 where
  pub message_hash : Var
  pub serial_no : Var
  pub signature : Var
  pub merkle_root : Var

-- anonCred1Circuit, with every variable assigned.
pub record Circuit (Var : Type 0) : Type 0 where
  pub inputs : PublicInputs Var
  pub secret : Var
  pub directions : List Var
  pub side_hashes : List Var

-- A writer of the library gives bytes, and a reader takes them.
pub record Gnark : Type 1 where
  pub Var : Type 0
  pub bit_zero : Var
  pub bit_one : Var
  pub value : Bytes → Var
  pub select : (bit a b : Var) → Var
  pub mimc_vars : (a b : Var) → Var
  pub mimc : (a b : Bytes) → Result Bytes
  pub mimc_rand : Bytes → Result Bytes
  pub ConstraintSystem : Type 0
  pub ProvingKey : Type 0
  pub VerifyingKey : Type 0
  pub Proof : Type 0
  pub compile : (depth : ℕ) → Result ConstraintSystem
  pub generate : ConstraintSystem → Result (ProvingKey × VerifyingKey)
  pub prove : ConstraintSystem → ProvingKey → Circuit Var → Result Proof
  pub verify : Proof → VerifyingKey → (depth : ℕ) → PublicInputs Var → Result (Unit {0})
  pub write_proof : Proof → Result Bytes
  pub read_proof : Bytes → Result Proof
  pub write_constraints : ConstraintSystem → Result Bytes
  pub read_constraints : Bytes → Result ConstraintSystem
  pub write_proving_key : ProvingKey → Result Bytes
  pub read_proving_key : Bytes → Result ProvingKey
  pub write_verifying_key : VerifyingKey → Result Bytes
  pub read_verifying_key : Bytes → Result VerifyingKey

-- The hash of two circuit variables is the hash of the bytes that they were assigned, on slices of
-- one block, and a selection takes its first value for 1 and its second for 0.
pub record HashesAgree (g : Gnark) : Type 0 where
  pub node : Bytes → Bytes → Bytes
  pub mimc-ok : (a b : Bytes) → length a ≡ 32 → length b ≡ 32 → g.mimc a b ≡ ok (node a b)
  pub length-node : (a b : Bytes) → length (node a b) ≡ 32
  pub mimc_vars-value :
      (a b : Bytes)
      → length a ≡ 32
      → length b ≡ 32
      → g.mimc_vars (g.value a) (g.value b) ≡ g.value (node a b)
  pub select-one : (a b : g.Var) → g.select g.bit_one a b ≡ a
  pub select-zero : (a b : g.Var) → g.select g.bit_zero a b ≡ b
