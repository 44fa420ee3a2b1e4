-- ===== src/Runs/Votes.antt =====
-- Two holders who sign in a set of two credentials, with proofs that stand for two circuits.
use pebble_voting_app.Base.{
  ℕ, ◌≡◌, ◌≤◌, refl, sym, [], ◌∷◌, ◌++◌, Bool, true, ◌&&◌, ◌||◌, ◌⊎◌, inl, inr, Bytes, ok, length,
  arith, bytes_eq, bytes_eq→eq, bytes_eq_refl, ◌==◌, ==_iff, Bool-cases,
}
use pebble_voting_app.Anoncred.Gnark.{PublicInputs, Circuit, Gnark, HashesAgree}
use pebble_voting_app.Anoncred.AnonCred1.{
  AnonCred1, setup_circuit, climb, AreBits, Define, verify, hash_merkle_tree,
}
use pebble_voting_app.Anoncred.AnonCred1.Sets.{
  AnonCred1Set, make_credential_set, make_sorted, without_repeats, set_verify,
}
use pebble_voting_app.Anoncred.AnonCred1.Soundness.{Collision}
use pebble_voting_app.Anoncred.AnonCred1.OneVote.{Sound, Signed, serials-set_len}
use pebble_voting_app.Runs.{check}
use pebble_voting_app.Runs.Credentials.{toy, digest, hash, holder, leaf, as_given, given}

abbrev pub ballot : Bytes
ballot = 9 ∷ []

abbrev pub root : Bytes
root = digest (leaf 3) (leaf 4)

abbrev pub inputs_of : ℕ → PublicInputs Bytes
inputs_of n = record {
  message_hash = hash ballot;
  serial_no = (holder n).serial_no;
  signature = digest (hash ballot) (holder n).secret;
  merkle_root = root;
}

abbrev pub same_inputs : (i j : PublicInputs Bytes) → Bool
same_inputs i j =
    (bytes_eq i.message_hash j.message_hash && bytes_eq i.serial_no j.serial_no)
    && (bytes_eq i.signature j.signature && bytes_eq i.merkle_root j.merkle_root)

-- A proof of either of the two is accepted, and no other.
abbrev pub strict : Gnark
strict = record toy {
  verify = λ proof vk depth inputs.
      check (depth == 1 && (same_inputs inputs (inputs_of 3) || same_inputs inputs (inputs_of 4)));
}

pub agree : HashesAgree strict
agree = record {
  node = digest;
  mimc-ok = λ a b ea eb. refl;
  length-node = λ a b. refl;
  mimc_vars-value = λ a b ea eb. refl;
  select-one = λ a b. refl;
  select-zero = λ a b. refl;
}

pub same? : Discrete Bytes
same? x y = elim (Bool-cases (bytes_eq x y)) [
  | inl e ↦ yes (bytes_eq→eq x y e)
  | inr e ↦ no (λ p. ground (arith, bytes_eq_refl x))
]

same_inputs→eq : (i j : PublicInputs Bytes) → same_inputs i j ≡ true → j ≡ i
same_inputs→eq i j e =
    let a : i.message_hash ≡ j.message_hash =
      bytes_eq→eq i.message_hash j.message_hash (ground arith) in
    let b : i.serial_no ≡ j.serial_no = bytes_eq→eq i.serial_no j.serial_no (ground arith) in
    let c : i.signature ≡ j.signature = bytes_eq→eq i.signature j.signature (ground arith) in
    let d : i.merkle_root ≡ j.merkle_root =
      bytes_eq→eq i.merkle_root j.merkle_root (ground arith) in
    cc

abbrev first_circuit : Circuit Bytes
first_circuit = record {
  inputs = inputs_of 3;
  secret = (holder 3).secret;
  directions = (1 ∷ []) ∷ [];
  side_hashes = leaf 4 ∷ [];
}

abbrev second_circuit : Circuit Bytes
second_circuit = record {
  inputs = inputs_of 4;
  secret = (holder 4).secret;
  directions = (0 ∷ []) ∷ [];
  side_hashes = leaf 3 ∷ [];
}

first_circuit-Define : Define strict first_circuit
unfolding climb AreBits
first_circuit-Define = record { signature = refl; bits = (inr refl, tt); root = refl }

second_circuit-Define : Define strict second_circuit
unfolding climb AreBits
second_circuit-Define = record { signature = refl; bits = (inl refl, tt); root = refl }

opens :
    (depth : ℕ) (inputs : PublicInputs Bytes)
    → check (depth == 1 && (same_inputs inputs (inputs_of 3) || same_inputs inputs (inputs_of 4)))
      ≡ ok tt
    → (c : Circuit Bytes) × (c.inputs ≡ inputs) × (length c.directions ≡ depth) × Define strict c
opens depth inputs e = elim (Bool-cases (depth == 1)) [
  | inr other ↦ absurd (ground arith)
  | inl one ↦
      let d : 1 ≡ depth = sym ((==_iff depth 1).0 one) in
      elim (Bool-cases (same_inputs inputs (inputs_of 3))) [
        | inl s ↦ (first_circuit, same_inputs→eq inputs (inputs_of 3) s, d, first_circuit-Define)
        | inr n ↦ elim (Bool-cases (same_inputs inputs (inputs_of 4))) [
          | inl s ↦
              (second_circuit, same_inputs→eq inputs (inputs_of 4) s, d, second_circuit-Define)
          | inr m ↦ absurd (ground arith)
        ]
      ]
]

pub sound : Sound strict
sound = record { opens = λ depth cs pk vk proof inputs compiled made e. opens depth inputs e }

abbrev pub one_level : AnonCred1 strict
one_level = record { depth = 1; cs = 1; pk = 1; vk = 1 }

abbrev pub pair : AnonCred1Set strict
pair = record { params = one_level; creds = leaf 3 ∷ leaf 4 ∷ []; root = root }

abbrev signed : ℕ → Signed
signed n = record {
  serial_no = (holder n).serial_no;
  sig = digest (hash ballot) (holder n).secret ++ (7 ∷ []);
  msg = ballot;
}

serials-set_len_example : (length (signed 3 ∷ signed 4 ∷ []) ≤ length pair.creds) ⊎ Collision strict
unfolding setup_circuit make_credential_set make_sorted without_repeats hash_merkle_tree set_verify
    verify
serials-set_len_example =
    serials-set_len strict hash as_given one_level agree same? sound given refl
      (leaf 3 ∷ leaf 4 ∷ []) pair (signed 3 ∷ signed 4 ∷ [])
      (omega arith, (refl, (refl, tt)), omega arith) refl (refl, (refl, tt))
      (((λ e. cc), tt), (tt, tt))
