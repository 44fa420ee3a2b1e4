-- ===== src/Voting/Client/Reading.antt =====
-- server_bc.go: the loop of `Get` ends.
use pebble_voting_app.Base.{
  ℕ, zero, suc, ◌≤◌, ◌≡◌, ◌⊎◌, refl, true, [], ◌∷◌, List, Bytes, Error, Result, ok, err, length,
  arith, inl, inr, ◌==◌, Bool-cases, ◌>>=◌,
}
use pebble_voting_app.Util.Buffer.{read_byte, read_vector}
use pebble_voting_app.Util.Buffer.Returned.{
  continue-returned, continue-returned_within, returned, returned-cases, read_vector-returned,
  read_vector-shorter,
}
use pebble_voting_app.Structs.CredentialMessage
use pebble_voting_app.Structs.SignedBallot
use pebble_voting_app.Structs.DecryptionMessage
use pebble_voting_app.Voting.Params.{number, cred_gen, cast, tally}
use pebble_voting_app.Voting.Message.{Message}
use pebble_voting_app.Voting.Election.{caught}
use pebble_voting_app.Voting.Client.{appended, decoded, read_messages, get}

caught-returned :
    {A : Type 0} (of : A → Message) (r : Result A)
    → returned r ≡ true
    → returned (caught r >>= λ a. ok (appended of a)) ≡ true
caught-returned of r h = elim (returned-cases r h) [
  | inl (a, e) ↦ rw e refl
  | inr (x, e) ↦ rw e refl
]

decoded-returned : (kind : ℕ) (m : Bytes) → returned (decoded kind m) ≡ true
unfolding decoded
decoded-returned kind m = elim (Bool-cases (kind == number cred_gen)) [
  | inl c ↦ rw c (caught-returned _ _ (CredentialMessage.from_bytes-returned m))
  | inr c' ↦ elim (Bool-cases (kind == number cast)) [
    | inl b ↦ rw (c', b) (caught-returned _ _ (SignedBallot.from_bytes-returned m))
    | inr b' ↦ elim (Bool-cases (kind == number tally)) [
      | inl d ↦ rw (c', b', d) (caught-returned _ _ (DecryptionMessage.from_bytes-returned m))
      | inr d' ↦ rw (c', b', d') refl
    ]
  ]
]

read_messages-returned :
    (fuel : ℕ) (s : Bytes) → length s ≤ fuel → returned (read_messages fuel s).0 ≡ true
unfolding read_messages read_byte
read_messages-returned fuel [] le = refl
read_messages-returned zero (b ∷ s) le = absurd (omega arith)
read_messages-returned (suc fuel) (b ∷ s) le =
    continue-returned_within fuel (read_vector s) _ (read_vector-returned s)
      (omega (arith, read_vector-shorter s))
      λ m s2 le2.
        continue-returned_within fuel (decoded b m, s2) _ (decoded-returned b m) le2
          λ msgs s3 le3.
            continue-returned (read_messages fuel s3) _ (read_messages-returned fuel s3 le3)
              λ rest s4. refl

-- `Get` ends for every body: it returns messages or an error, and neither panics nor runs on.
pub get-returned :
    (body : Bytes)
    → ((msgs : List Message) × (get (ok body) ≡ ok msgs)) ⊎ ((e : Error) × (get (ok body) ≡ err e))
unfolding get
get-returned body =
    returned-cases (get (ok body)) (read_messages-returned (length body) body (omega arith))
