-- ===== src/Runs/Codes.antt =====
-- The theorems on the base-32 code at short slices.
use pebble_voting_app.Base.{
  ℕ, zero, suc, ◌≡◌, refl, arith, [], ◌∷◌, ◌++◌, ◌⊎◌, ◌*◌, ◌/◌, length, Bytes, ok, replicate, All,
  IsByte, codes,
}
use pebble_voting_app.Base.{◌>>=◌}
use pebble_voting_app.Runs.{keys}
use pebble_voting_app.Pubkey.{new_public_key}
use pebble_voting_app.Pubkey.Text
use pebble_voting_app.Pubkey.Text.{parse-string}
use pebble_voting_app.Voting.Invitation.{Invitation, string, decode_invitation}
use pebble_voting_app.Voting.Invitation.RoundTrip.{Fits, decode_invitation-string}
use pebble_voting_app.Base32.{encode, decode, place_of}
use pebble_voting_app.Base32.Accepted.{decode_accepted}

abbrev with_zero : Bytes
with_zero = codes "EPK080"

with_zero-ok : decode with_zero ≡ ok (238 ∷ 78 ∷ 128 ∷ [])
unfolding decode place_of
with_zero-ok = refl

decode_accepted_example :
    All IsByte (238 ∷ 78 ∷ 128 ∷ [])
    × (3 ≡ 5 * length with_zero / 8)
    × ((with_zero ≡ encode (238 ∷ 78 ∷ 128 ∷ []))
        ⊎ (with_zero ≡ encode (238 ∷ 78 ∷ 128 ∷ []) ++ codes "0"))
decode_accepted_example = decode_accepted with_zero (238 ∷ 78 ∷ 128 ∷ []) with_zero-ok

abbrev pub constant : Bytes → Bytes
constant b = replicate 32 7

pub sevens : (n : ℕ) → All IsByte (replicate n 7)
sevens zero = tt
sevens (suc n) = (omega arith, sevens n)

abbrev invitation : Invitation
invitation = record { network = []; address = 7 ∷ []; servers = (104 ∷ []) ∷ (105 ∷ []) ∷ [] }

short_invitation : Fits invitation
short_invitation = record {
  address = omega arith;
  num_servers = omega arith;
  servers = (omega arith, (omega arith, tt));
  address_bytes = (omega arith, tt);
  servers_bytes = ((omega arith, tt), ((omega arith, tt), tt));
}

decode_invitation-string_example :
    (string constant invitation >>= decode_invitation constant)
    ≡ ok (record invitation { network = [] })
decode_invitation-string_example =
    decode_invitation-string constant invitation (λ b. refl) (λ b. sevens 32) short_invitation

parse-string_example :
    (let schemes = record keys { sha256 = constant } in
      (s : Bytes) × (Text.string schemes (1 ∷ 5 ∷ 6 ∷ []) ≡ ok s)
      × (Text.parse schemes s ≡ ok (1 ∷ 5 ∷ 6 ∷ [])))
unfolding new_public_key
parse-string_example =
    parse-string (record keys { sha256 = constant }) 5 (6 ∷ []) (λ b. refl) (λ b. sevens 32)
      (omega arith, (omega arith, tt))
