-- ===== src/Voting/Invitation/RoundTrip.antt =====
-- invitation.go: `DecodeInvitation` after `String`.
use pebble_voting_app.Base.{
  ◌%◌, ◌<◌, ◌≤◌, ◌≡◌, refl, [], ◌∷◌, ◌++◌, List, Bytes, ok, length, arith, All, IsByte,
  append_assoc, ◌>>=◌, append-nil, subst,
}
use pebble_voting_app.Util.Buffer.{run_step, read_byte, write_byte, write_uint32, be32}
use pebble_voting_app.Util.Buffer.Words.{read_uint32-be32}
use pebble_voting_app.Util.Buffer.Vectors.{
  header, vector, max_vector, write_vector-ok, read_vector-vector,
}
use pebble_voting_app.Base32.Check.{check_decode-check_encode, All-append}
use pebble_voting_app.Voting.Params.{read_vectors}
use pebble_voting_app.Voting.Params.RoundTrip.{vectors, write_vectors-ok, read_vectors-vectors}
use pebble_voting_app.Voting.Invitation.{
  Invitation, invitation_version, payload, parse, string, decode_invitation,
}

-- What the wire format can carry.
pub record Fits (inv : Invitation) : Type 0 where
  pub address : length inv.address ≤ max_vector
  pub num_servers : length inv.servers < 256
  pub servers : All (λ c. length c ≤ max_vector) inv.servers
  pub address_bytes : All IsByte inv.address
  pub servers_bytes : All (All IsByte) inv.servers

abbrev layout : Invitation → Bytes
layout inv =
    be32 invitation_version ++ (vector inv.address ++ (length inv.servers ∷ vectors inv.servers))

payload-ok : (inv : Invitation) → Fits inv → payload inv ≡ ok (layout inv)
unfolding payload write_byte write_uint32
payload-ok inv h =
    let small : length inv.servers % 256 ≡ length inv.servers = omega (arith, h.num_servers) in
    simp (
      small,
      λ (w : Bytes). write_vector-ok inv.address w h.address,
      λ (w : Bytes). write_vectors-ok inv.servers w h.servers,
      append_assoc,
    )

vector-IsByte : (p : Bytes) → length p ≤ max_vector → All IsByte p → All IsByte (vector p)
vector-IsByte p h b = All-append (header (length p)) p (ground arith) b

vectors-IsByte :
    (ps : List Bytes)
    → All (λ c. length c ≤ max_vector) ps
    → All (All IsByte) ps
    → All IsByte (vectors ps)
vectors-IsByte [] h b = tt
vectors-IsByte (p ∷ ps) h b =
    All-append (vector p) (vectors ps) (vector-IsByte p h.0 b.0) (vectors-IsByte ps h.1 b.1)

layout-IsByte : (inv : Invitation) → Fits inv → All IsByte (layout inv)
layout-IsByte inv h = (
  omega arith,
  (
    omega arith,
    (
      omega arith,
      (
        omega arith,
        All-append (vector inv.address) (length inv.servers ∷ vectors inv.servers)
            (vector-IsByte inv.address h.address h.address_bytes)
            (h.num_servers, vectors-IsByte inv.servers h.servers h.servers_bytes),
      ),
    ),
  ),
)

parse-layout : (inv : Invitation) → Fits inv → parse (layout inv) ≡ ok (record inv { network = [] })
unfolding parse read_byte
parse-layout inv h =
    let more = length inv.servers ∷ vectors inv.servers in
    let all : read_vectors (length inv.servers) (vectors inv.servers) ≡ (ok inv.servers, []) =
      subst (λ s. read_vectors (length inv.servers) s ≡ (ok inv.servers, []))
        (append-nil (vectors inv.servers)) (read_vectors-vectors inv.servers [] h.servers) in
    run_step _ (read_uint32-be32 invitation_version (vector inv.address ++ more) (omega arith))
      (run_step _ (read_vector-vector inv.address more h.address) (run_step _ all refl))

-- If the hash function gives 32 bytes: an invitation within the sizes of the wire format is
-- written as a string, and `DecodeInvitation` gives it back with an empty network.
pub decode_invitation-string :
    (sha256 : Bytes → Bytes) (inv : Invitation)
    → ((b : Bytes) → length (sha256 b) ≡ 32)
    → ((b : Bytes) → All IsByte (sha256 b))
    → Fits inv
    → (string sha256 inv >>= decode_invitation sha256) ≡ ok (record inv { network = [] })
unfolding string decode_invitation
decode_invitation-string sha256 inv wide bytes h =
    rw
      (
        payload-ok inv h,
        check_decode-check_encode sha256 (layout inv) wide bytes (layout-IsByte inv h),
      )
      (parse-layout inv h)
