-- ===== src/Structs/DecryptionMessage.antt =====
-- pebble-core/voting/structs/decryption_msg.go: the wire format of a puzzle's solution.
use pebble_voting_app.Base.{
  refl, true, ◌≤◌, ◌≡◌, ◌∙◌, ◌++◌, [], sym, ap, subst, arith, Bytes, Result, ok, length,
  append_assoc, All, IsByte,
}
use pebble_voting_app.Util.Buffer.{
  Buffer, ◌>>=◌, ◌>>◌, pure, written, run, read32, read_vector, read_remaining, write, write32,
  write_vector, continue-eq-ok,
}
use pebble_voting_app.Util.Buffer.Words.{read32-append, read32_back}
use pebble_voting_app.Util.Buffer.Returned.{
  returned, continue-returned, read_vector-returned, read32-returned,
}
use pebble_voting_app.Util.Buffer.Vectors.{vector, max_vector, write_vector-ok, read_vector-vector}
use pebble_voting_app.Util.Buffer.Canonical.{read_vector_back}
use pebble_voting_app.Vdf.{VdfSolution}

pub record DecryptionMessage : Type 0 where
  pub input_hash : Bytes
  pub output : Bytes
  pub proof : Bytes

-- `hash` is util.Hash, SHA-256.
unfoldable pub create_decryption_message : (hash : Bytes → Bytes) → VdfSolution → DecryptionMessage
create_decryption_message hash sol = record {
  input_hash = hash sol.input;
  output = sol.output;
  proof = sol.proof;
}

unfoldable pub bytes : DecryptionMessage → Result Bytes
bytes d = written ((do write32 d.input_hash; write_vector d.output; write d.proof) [])

fields : Buffer DecryptionMessage
fields = do
  input_hash ← read32
  output ← read_vector
  proof ← read_remaining
  pure (record { input_hash = input_hash; output = output; proof = proof })

unfoldable pub from_bytes : Bytes → Result DecryptionMessage
unfolding fields
from_bytes p = run fields p

pub from_bytes-returned : (p : Bytes) → returned (from_bytes p) ≡ true
unfolding from_bytes fields read_remaining
from_bytes-returned p =
    continue-returned (read32 p) _ (read32-returned p)
      λ h s. continue-returned (read_vector s) _ (read_vector-returned s) λ k s'. refl

-- The hash is a [32]byte, and the output is short enough to be written.
pub record Fits (d : DecryptionMessage) : Type 0 where
  pub input_hash : length d.input_hash ≡ 32
  pub output : length d.output ≤ max_vector

abbrev pub layout : DecryptionMessage → Bytes
layout d = d.input_hash ++ (vector d.output ++ d.proof)

pub bytes-ok : (d : DecryptionMessage) → Fits d → bytes d ≡ ok (layout d)
unfolding bytes write write32
bytes-ok d h = rw (write_vector-ok d.output d.input_hash h.output, append_assoc, append_assoc)

pub from_bytes-layout : (d : DecryptionMessage) → Fits d → from_bytes (layout d) ≡ ok d
unfolding from_bytes read_remaining
from_bytes-layout d h = ground (
  arith,
  read32-append d.input_hash (vector d.output ++ d.proof) h.input_hash,
  read_vector-vector d.output d.proof h.output,
)

reencode :
    (m : DecryptionMessage) (p s : Bytes)
    → Fits m
    → p ≡ m.input_hash ++ s
    → s ≡ vector m.output ++ m.proof
    → bytes m ≡ ok p
reencode m p s h f g = bytes-ok m h ∙ ap ok (sym (f ∙ ap (λ u. m.input_hash ++ u) g))

-- Every accepted message has one encoding: the bytes that it was read from.
pub from_bytes_inverse :
    (p : Bytes) (d : DecryptionMessage) → All IsByte p → from_bytes p ≡ ok d → bytes d ≡ ok p
unfolding from_bytes read_remaining
from_bytes_inverse p d hp e =
    let (hash, s, e1, r1) = continue-eq-ok (read32 p) _ e in
    let (f1, l1, hs) = read32_back p hash s hp e1 in
    let e' = ap (λ r. r.0) (sym r1) ∙ e in
    let (out, t, e2, r2) = continue-eq-ok (read_vector s) _ e' in
    let (f2, l2, ht) = read_vector_back s out t hs e2 in
    let m : DecryptionMessage = record { input_hash = hash; output = out; proof = t } in
    let whole : ok m ≡ ok d = ap (λ r. r.0) (sym r2) ∙ e' in
    let same : m ≡ d = cc in
    subst (λ v. bytes v ≡ ok p) same
      (reencode m p s (record { input_hash = l1; output = l2 }) f1 f2)
