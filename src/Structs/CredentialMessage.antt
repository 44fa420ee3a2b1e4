-- ===== src/Structs/CredentialMessage.antt =====
-- pebble-core/voting/structs/credential_msg.go: the wire format.
use pebble_voting_app.Base.{
  refl, true, ◌≤◌, ◌≡◌, ◌++◌, [], arith, Bytes, Result, ok, length, append_assoc, All, IsByte, ◌∙◌,
  sym, ap, subst,
}
use pebble_voting_app.Util.Buffer.{
  Buffer, ◌>>=◌, ◌>>◌, pure, written, run, read_vector, read_remaining, write, write_vector,
  continue-eq-ok,
}
use pebble_voting_app.Util.Buffer.Returned.{returned, continue-returned, read_vector-returned}
use pebble_voting_app.Util.Buffer.Vectors.{vector, max_vector, write_vector-ok, read_vector-vector}
use pebble_voting_app.Util.Buffer.Canonical.{read_vector_back}

pub record CredentialMessage : Type 0 where
  pub credential : Bytes
  pub public_key : Bytes
  pub signature : Bytes

unfoldable pub bytes : CredentialMessage → Result Bytes
bytes c = written ((do write_vector c.credential; write_vector c.public_key; write c.signature) [])

fields : Buffer CredentialMessage
fields = do
  credential ← read_vector
  public_key ← read_vector
  signature ← read_remaining
  pure (record { credential = credential; public_key = public_key; signature = signature })

unfoldable pub from_bytes : Bytes → Result CredentialMessage
unfolding fields
from_bytes p = run fields p

pub from_bytes-returned : (p : Bytes) → returned (from_bytes p) ≡ true
unfolding from_bytes fields read_remaining
from_bytes-returned p =
    continue-returned (read_vector p) _ (read_vector-returned p)
      λ c s. continue-returned (read_vector s) _ (read_vector-returned s) λ k s'. refl

-- The vectors of the message are short enough to be written.
pub record Fits (c : CredentialMessage) : Type 0 where
  pub credential : length c.credential ≤ max_vector
  pub public_key : length c.public_key ≤ max_vector

abbrev pub layout : CredentialMessage → Bytes
layout c = vector c.credential ++ (vector c.public_key ++ c.signature)

pub bytes-ok : (c : CredentialMessage) → Fits c → bytes c ≡ ok (layout c)
unfolding bytes write
bytes-ok c h = rw (
  write_vector-ok c.credential [] h.credential,
  write_vector-ok c.public_key (vector c.credential) h.public_key,
  append_assoc,
)

pub from_bytes-layout : (c : CredentialMessage) → Fits c → from_bytes (layout c) ≡ ok c
unfolding from_bytes read_remaining
from_bytes-layout c h = ground (
  arith,
  read_vector-vector c.credential (vector c.public_key ++ c.signature) h.credential,
  read_vector-vector c.public_key c.signature h.public_key,
)

reencode :
    (m : CredentialMessage) (p s : Bytes)
    → Fits m
    → p ≡ vector m.credential ++ s
    → s ≡ vector m.public_key ++ m.signature
    → bytes m ≡ ok p
reencode m p s h f g = bytes-ok m h ∙ ap ok (sym (f ∙ ap (λ u. vector m.credential ++ u) g))

-- Every accepted message has one encoding: the bytes that it was read from.
pub from_bytes_inverse :
    (p : Bytes) (c : CredentialMessage) → All IsByte p → from_bytes p ≡ ok c → bytes c ≡ ok p
unfolding from_bytes read_remaining
from_bytes_inverse p c hp e =
    let (cred, s, e1, r1) = continue-eq-ok (read_vector p) _ e in
    let (f1, l1, hs) = read_vector_back p cred s hp e1 in
    let e' = ap (λ r. r.0) (sym r1) ∙ e in
    let (pk, t, e2, r2) = continue-eq-ok (read_vector s) _ e' in
    let (f2, l2, ht) = read_vector_back s pk t hs e2 in
    let m : CredentialMessage = record { credential = cred; public_key = pk; signature = t } in
    let whole : ok m ≡ ok c = ap (λ r. r.0) (sym r2) ∙ e' in
    let same : m ≡ c = cc in
    subst (λ v. bytes v ≡ ok p) same
      (reencode m p s (record { credential = l1; public_key = l2 }) f1 f2)
