-- ===== src/Anoncred/AnonCred1.antt =====
-- pebble-core/anoncred/anoncred1.go: credentials in a Merkle tree, and signatures as proofs of
-- knowledge of a leaf.
pub mod Branch
pub mod Completeness
pub mod Contract
pub mod Levels
pub mod Members
pub mod OneVote
pub mod Parameters
pub mod Sets
pub mod Signing
pub mod Serials
pub mod Soundness
use pebble_voting_app.Base.{
  ℕ, zero, suc, ◌+◌, ◌*◌, ◌/◌, ◌%◌, ◌^◌, ◌≡◌, [], ◌∷◌, ◌++◌, List, Bool, true, false, ◌⊎◌, ◌||◌,
  Option, none, some, Bytes, Result, ok, err, panic, stuck, ◌>>=◌, length, take, drop, ltb, leb,
  ◌==◌, if◌then◌else◌, bytes_eq, get_elem?, not, credential_size, credential_missing,
  signature_size,
}
use pebble_voting_app.Util.Slices.{concat}
use pebble_voting_app.Anoncred.Gnark.{PublicInputs, Circuit, Gnark}

-- The credential system's parameters.
pub record AnonCred1 (g : Gnark) : Type 0 where
  pub depth : ℕ
  pub cs : g.ConstraintSystem
  pub pk : g.ProvingKey
  pub vk : g.VerifyingKey

pub record AnonCred1Proof : Type 0 where
  pub message_hash : Bytes
  pub serial_no : Bytes
  pub signature : Bytes
  pub merkle_root : Bytes
  pub proof : Bytes

pub record AnonCred1SecCred : Type 0 where
  pub serial_no : Bytes
  pub secret : Bytes

-- What `prove` keeps from level to level: the hashes of a level, the place of the credential among
-- them, and the witness so far.
pub record Level (g : Gnark) : Type 0 where
  pub hashes : List Bytes
  pub index : ℕ
  pub directions : List g.Var
  pub side_hashes : List g.Var

-- `hashes[0]`
abbrev pub first : List Bytes → Result Bytes
first [] = panic
first (h ∷ hs) = ok h

module _ (g : Gnark) where
  open g use {
    Var, bit_zero, bit_one, value, select, mimc_vars, mimc, mimc_rand, compile, generate,
    write_proof, read_proof,
  }

  -- The loop of `Define`: the sum at the root, and the constraint that each direction is a bit. An
  -- index past the side hashes would panic.
  unfoldable pub climb : (sum : Var) → (directions side_hashes : List Var) → Result Var
  climb sum [] sides = ok sum
  climb sum (d ∷ ds) [] = panic
  climb sum (d ∷ ds) (s ∷ ss) = climb (mimc_vars (select d sum s) (select d s sum)) ds ss

  unfoldable pub AreBits : List Var → Type 0
  AreBits [] = Unit
  AreBits (d ∷ ds) = ((d ≡ bit_zero) ⊎ (d ≡ bit_one)) × AreBits ds

  -- `Define`: the constraints hold of a circuit.
  pub record Define (c : Circuit Var) : Type 0 where
    pub signature : c.inputs.signature ≡ mimc_vars c.inputs.message_hash c.secret
    pub bits : AreBits c.directions
    pub root :
        climb (mimc_vars c.inputs.serial_no c.secret) c.directions c.side_hashes
        ≡ ok c.inputs.merkle_root

  unfoldable pub setup_circuit : (depth : ℕ) → Result (AnonCred1 g)
  setup_circuit depth = do
    cs ← compile depth
    (pk, vk) ← generate cs
    ok (record { depth = depth; cs = cs; pk = pk; vk = vk })

  -- A level of `hashMerkleTree`: pairs are hashed, and a last single hash with itself.
  unfoldable pub next_level : List Bytes → Result (List Bytes)
  next_level [] = ok []
  next_level (a ∷ []) = do h ← mimc a a; ok (h ∷ [])
  next_level (a ∷ b ∷ rest) = do h ← mimc a b; hs ← next_level rest; ok (h ∷ hs)

  unfoldable pub hash_merkle_tree : (hashes : List Bytes) → (depth : ℕ) → Result Bytes
  unfolding next_level
  hash_merkle_tree hashes zero = first hashes
  hash_merkle_tree hashes (suc depth) = do hs ← next_level hashes; hash_merkle_tree hs depth

  -- The witness of one level: the sibling's hash, and on which side the credential stands.
  abbrev pub witnessed : Level g → (direction : Var) → (side : Bytes) → Level g
  witnessed l direction side = record l {
    index = length l.hashes;
    directions = l.directions ++ (direction ∷ []);
    side_hashes = l.side_hashes ++ (value side ∷ []);
  }

  abbrev pub hashed : Level g → Bytes → Level g
  hashed l h = record l { hashes = l.hashes ++ (h ∷ []) }

  -- The inner loop of `prove` from the hash numbered `i` on.
  unfoldable pub prove_level : (idx i : ℕ) → (hashes : List Bytes) → Level g → Result (Level g)
  prove_level idx i [] l = ok l
  prove_level idx i (a ∷ []) l = do
    let l' = if idx == i then witnessed l bit_zero a else l
    h ← mimc a a
    ok (hashed l' h)
  prove_level idx i (a ∷ b ∷ rest) l = do
    let l' =
        if i == idx
        then witnessed l bit_one b
        else if i + 1 == idx
        then witnessed l bit_zero a
        else l
    h ← mimc a b
    prove_level idx (i + 2) rest (hashed l' h)

  unfoldable pub prove_levels : (depth : ℕ) → Level g → Result (Level g)
  unfolding prove_level
  prove_levels zero l = ok l
  prove_levels (suc depth) l = do
    l' ← prove_level l.index 0 l.hashes (record l { hashes = []; index = 0 })
    prove_levels depth l'

  unfoldable pub prove :
      AnonCred1 g
      → AnonCred1Proof
      → (secret : Bytes) → (idx : ℕ) → (credentials : List Bytes) → Result AnonCred1Proof
  unfolding prove_levels
  prove params p secret idx credentials = do
    signature ← mimc p.message_hash secret
    l ←
        prove_levels params.depth
          (record { hashes = credentials; index = idx; directions = []; side_hashes = [] })
    root ← first l.hashes
    proof ← g.prove params.cs params.pk (record {
      inputs = record {
        message_hash = value p.message_hash;
        serial_no = value p.serial_no;
        signature = value signature;
        merkle_root = value root;
      };
      secret = value secret;
      directions = l.directions;
      side_hashes = l.side_hashes;
    })
    bytes ← write_proof proof
    ok (record p { signature = signature; merkle_root = root; proof = bytes })

  unfoldable pub verify : AnonCred1 g → AnonCred1Proof → Result (Unit {0})
  verify params p = do
    proof ← read_proof p.proof
    g.verify proof params.vk params.depth (record {
      message_hash = value p.message_hash;
      serial_no = value p.serial_no;
      signature = value p.signature;
      merkle_root = value p.merkle_root;
    })

  -- `drawn` is what rand.Read gives.
  unfoldable pub generate_random_scalar : (drawn : Result Bytes) → Result Bytes
  generate_random_scalar drawn = do b ← drawn; mimc_rand b

  unfoldable pub generate_secret_credential :
      (drawn1 drawn2 : Result Bytes) → Result AnonCred1SecCred
  unfolding generate_random_scalar
  generate_secret_credential drawn1 drawn2 = do
    serial_no ← generate_random_scalar drawn1
    secret ← generate_random_scalar drawn2
    ok (record { serial_no = serial_no; secret = secret })

  unfoldable pub public : AnonCred1SecCred → Result Bytes
  public cred = mimc cred.serial_no cred.secret

-- AnonCred1SecCred.Bytes and ReadSecretCredential
unfoldable pub secret_bytes : AnonCred1SecCred → Bytes
secret_bytes cred = cred.serial_no ++ cred.secret

unfoldable pub read_secret_credential : Bytes → Result AnonCred1SecCred
read_secret_credential p =
    if length p == 64
    then ok (record { serial_no = take 32 p; secret = drop 32 p })
    else err credential_size

unfoldable pub read_public_credential : Bytes → Result Bytes
read_public_credential p = if length p == 32 then ok p else err credential_size
