-- ===== src/Structs/EncryptedBallot.antt =====
-- pebble-core/voting/structs/ballot.go: time-locked ballots.
pub mod Sealing
use pebble_voting_app.Base.{
  refl, true, ◌≤◌, ◌≡◌, ◌++◌, [], arith, Bytes, Result, ok, err, length, ltb, if◌then◌else◌,
  bytes_eq, take, drop, mismatched_vdf_solution, payload_too_short, ◌∷◌,
}
use pebble_voting_app.Util.Buffer.{
  Buffer, ◌>>=◌, ◌>>◌, pure, written, run, read_vector, read_remaining, write, write_vector,
}
use pebble_voting_app.Util.Buffer.Returned.{returned, continue-returned, read_vector-returned}
use pebble_voting_app.Util.Buffer.Vectors.{vector, max_vector, write_vector-ok, read_vector-vector}
use pebble_voting_app.Util.Slices.{concat}
use pebble_voting_app.Vdf.{VdfSolution}

-- A Ballot is a byte slice.
abbrev pub Ballot : Type 0
Ballot = Bytes

pub record EncryptedBallot : Type 0 where
  pub vdf_input : Bytes
  pub payload : Bytes

unfoldable pub bytes : EncryptedBallot → Result Bytes
bytes b = written ((do write_vector b.vdf_input; write b.payload) [])

fields : Buffer EncryptedBallot
fields = do
  vdf_input ← read_vector
  payload ← read_remaining
  pure (record { vdf_input = vdf_input; payload = payload })

unfoldable pub from_bytes : Bytes → Result EncryptedBallot
unfolding fields
from_bytes p = run fields p

pub from_bytes-returned : (p : Bytes) → returned (from_bytes p) ≡ true
unfolding from_bytes fields read_remaining
from_bytes-returned p = continue-returned (read_vector p) _ (read_vector-returned p) λ k s. refl

abbrev pub layout : EncryptedBallot → Bytes
layout b = vector b.vdf_input ++ b.payload

pub bytes-ok : (b : EncryptedBallot) → length b.vdf_input ≤ max_vector → bytes b ≡ ok (layout b)
unfolding bytes write
bytes-ok b h = rw (write_vector-ok b.vdf_input [] h)

pub from_bytes-layout :
    (b : EncryptedBallot) → length b.vdf_input ≤ max_vector → from_bytes (layout b) ≡ ok b
unfolding from_bytes read_remaining
from_bytes-layout b h = ground (arith, read_vector-vector b.vdf_input b.payload h)
