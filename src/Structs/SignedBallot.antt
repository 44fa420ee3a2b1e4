-- ===== src/Structs/SignedBallot.antt =====
-- pebble-core/voting/structs/ballot.go: signed ballots and their wire format.
use pebble_voting_app.Base.{
  refl, true, ◌≤◌, ◌≡◌, ◌++◌, [], ◌∙◌, ap, sym, ◌<◌, arith, Bytes, Result, ok, err, panic, stuck,
  short_buffer, length, append_assoc, length-append,
}
use pebble_voting_app.Util.Buffer.{
  Buffer, ◌>>=◌, ◌>>◌, pure, lift, continue-eq-ok, written-eq-ok, written, run, read_vector,
  read_remaining, write, write_vector,
}
use pebble_voting_app.Util.Buffer.Returned.{returned, continue-returned, read_vector-returned}
use pebble_voting_app.Util.Buffer.Vectors.{
  write_vector-grows, vector, max_vector, write_vector-ok, read_vector-vector,
}
use pebble_voting_app.Structs.EncryptedBallot
use pebble_voting_app.Structs.EncryptedBallot.{EncryptedBallot}

pub record SignedBallot : Type 0 where
  pub encrypted_ballot : EncryptedBallot
  pub serial_no : Bytes
  pub signature : Bytes

unfoldable pub bytes : SignedBallot → Result Bytes
bytes b = written (
    (do
      write_vector b.serial_no
      write_vector b.signature
      encrypted ← lift (EncryptedBallot.bytes b.encrypted_ballot)
      write encrypted)
      [])

-- The error of the inner `FromBytes` is dropped: both fields are then empty.
abbrev pub or_empty : Result EncryptedBallot → Result EncryptedBallot
or_empty (ok b) = ok b
or_empty (err e) = ok (record { vdf_input = []; payload = [] })
or_empty panic = panic
or_empty stuck = stuck

fields : Buffer SignedBallot
fields = do
  serial_no ← read_vector
  signature ← read_vector
  rest ← read_remaining
  encrypted_ballot ← lift (or_empty (EncryptedBallot.from_bytes rest))
  pure
      (record { encrypted_ballot = encrypted_ballot; serial_no = serial_no; signature = signature })

unfoldable pub from_bytes : Bytes → Result SignedBallot
unfolding fields
from_bytes p = run fields p

or_empty-returned : (r : Result EncryptedBallot) → returned r ≡ true → returned (or_empty r) ≡ true
or_empty-returned (ok b) h = refl
or_empty-returned (err e) h = refl
or_empty-returned panic h = h
or_empty-returned stuck h = h

pub from_bytes-returned : (p : Bytes) → returned (from_bytes p) ≡ true
unfolding from_bytes fields read_remaining
from_bytes-returned p = continue-returned (read_vector p) _ (read_vector-returned p) λ n s.
    continue-returned (read_vector s) _ (read_vector-returned s) λ g s'.
      continue-returned (or_empty (EncryptedBallot.from_bytes s'), []) _
        (or_empty-returned _ (EncryptedBallot.from_bytes-returned s')) λ b s''. refl

pub record Fits (b : SignedBallot) : Type 0 where
  pub vdf_input : length b.encrypted_ballot.vdf_input ≤ max_vector
  pub serial_no : length b.serial_no ≤ max_vector
  pub signature : length b.signature ≤ max_vector

abbrev pub layout : SignedBallot → Bytes
layout b = vector b.serial_no ++ (vector b.signature ++ EncryptedBallot.layout b.encrypted_ballot)

pub bytes-ok : (b : SignedBallot) → Fits b → bytes b ≡ ok (layout b)
unfolding bytes write
bytes-ok b h = rw (
  write_vector-ok b.serial_no [] h.serial_no,
  write_vector-ok b.signature (vector b.serial_no) h.signature,
  EncryptedBallot.bytes-ok b.encrypted_ballot h.vdf_input,
  append_assoc,
)

pub from_bytes-layout : (b : SignedBallot) → Fits b → from_bytes (layout b) ≡ ok b
unfolding from_bytes read_remaining
from_bytes-layout b h = ground (
  arith,
  read_vector-vector b.serial_no (vector b.signature ++ EncryptedBallot.layout b.encrypted_ballot)
      h.serial_no,
  read_vector-vector b.signature (EncryptedBallot.layout b.encrypted_ballot) h.signature,
  EncryptedBallot.from_bytes-layout b.encrypted_ballot h.vdf_input,
)

-- If the two leading vectors are short enough and the rest is refused as an encrypted ballot for
-- its length, `SignedBallot.FromBytes` still succeeds, with an empty encrypted ballot.
from_bytes-cut :
    (serial signature rest : Bytes)
    → length serial ≤ max_vector
    → length signature ≤ max_vector
    → EncryptedBallot.from_bytes rest ≡ err short_buffer
    → from_bytes (vector serial ++ (vector signature ++ rest))
      ≡ ok (record {
        encrypted_ballot = record { vdf_input = []; payload = [] };
        serial_no = serial;
        signature = signature;
      })
unfolding from_bytes read_remaining
from_bytes-cut serial signature rest h k e = ground (
  arith,
  e,
  read_vector-vector serial (vector signature ++ rest) h,
  read_vector-vector signature rest k,
)

-- What is written for a signed ballot is longer than what is written for its encrypted part.
pub bytes-longer :
    (b : SignedBallot) (inner outer : Bytes)
    → EncryptedBallot.bytes b.encrypted_ballot ≡ ok inner
    → bytes b ≡ ok outer
    → length inner < length outer
unfolding bytes write
bytes-longer b inner outer hi ho =
    let e = written-eq-ok _ ho in
    let (u1, w1, e1, r1) = continue-eq-ok (write_vector b.serial_no []) _ (ap (λ q. q.0) e) in
    let e' = sym r1 ∙ e in
    let (u2, w2, e2, r2) = continue-eq-ok (write_vector b.signature w1) _ (ap (λ q. q.0) e') in
    let whole : outer ≡ w2 ++ inner = ground (arith, hi, sym r2 ∙ e') in
    let longer : length w1 < length w2 = omega (arith, write_vector-grows b.signature w1 w2 e2) in
    omega (arith, ap (λ (x : Bytes). length x) whole, length-append w2 inner, longer)
