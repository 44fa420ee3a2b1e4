-- ===== src/Voting/Invitation.antt =====
-- pebble-core/voting/invitation.go: invitations as base-32 strings.
pub mod RoundTrip
use pebble_voting_app.Base.{
  ℕ, ◌%◌, [], ◌∷◌, List, Bytes, Result, ok, err, length, ◌==◌, if◌then◌else◌,
  unknown_invitation_version,
}
use pebble_voting_app.Util.Buffer.{
  Buffer, ◌>>=◌, ◌>>◌, pure, lift, written, run, read_uint32, read_vector, read_byte, write_uint32,
  write_vector, write_byte,
}
use pebble_voting_app.Base32.Check.{check_encode, check_decode}
use pebble_voting_app.Voting.Params.{write_vectors, read_vectors}

abbrev pub invitation_version : ℕ
invitation_version = 0x1b68c700

pub record Invitation : Type 0 where
  pub network : Bytes
  pub address : Bytes
  pub servers : List Bytes

-- What `String` writes before it is encoded. The network is not written.
unfoldable pub payload : Invitation → Result Bytes
payload inv = written (
    (do
      write_uint32 invitation_version
      write_vector inv.address
      write_byte (length inv.servers % 256)
      write_vectors inv.servers)
      [])

fields : Buffer Invitation
fields = do
  v ← read_uint32
  (if v == invitation_version then pure tt else lift (err unknown_invitation_version))
  address ← read_vector
  num_servers ← read_byte
  servers ← read_vectors num_servers
  pure (record { network = []; address = address; servers = servers })

unfoldable pub parse : Bytes → Result Invitation
unfolding fields
parse p = run fields p

unfoldable pub string : (sha256 : Bytes → Bytes) → Invitation → Result Bytes
string sha256 inv = run (do p ← lift (payload inv); pure (check_encode sha256 p)) []

unfoldable pub decode_invitation : (sha256 : Bytes → Bytes) → Bytes → Result Invitation
decode_invitation sha256 s = run (do p ← lift (check_decode sha256 s); lift (parse p)) []
