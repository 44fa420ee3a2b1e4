-- ===== src/Voting/Client.antt =====
-- pebble-core/voting/server_bc.go: the client of a server that keeps the channel. What the server
-- answers is an argument: an error, or the body that was read.
pub mod Reading
use pebble_voting_app.Base.{
  ℕ, zero, suc, [], ◌∷◌, ◌++◌, List, Option, none, some, Bytes, Result, ok, err, panic, stuck,
  length, map, ◌==◌, if◌then◌else◌,
}
use pebble_voting_app.Base.{◌>>=◌}
use pebble_voting_app.Util.Buffer
use pebble_voting_app.Util.Buffer.{Buffer, continue, run, read_byte, read_vector}
use pebble_voting_app.Structs.CredentialMessage
use pebble_voting_app.Structs.SignedBallot
use pebble_voting_app.Structs.DecryptionMessage
use pebble_voting_app.Voting.Params
use pebble_voting_app.Voting.Params.{ElectionParams, number, cred_gen, cast, tally}
use pebble_voting_app.Voting.Message
use pebble_voting_app.Voting.Message.{Message, of_credential, of_ballot, of_decryption}
use pebble_voting_app.Voting.Election.{caught}

unfoldable pub params : (answer : Result Bytes) → Result ElectionParams
params answer = do buf ← answer; Params.from_bytes buf

-- `msgs = append(msgs, ...)` if there was no error.
abbrev pub appended {ℓ} : {A : Type ℓ} → (A → Message) → Option A → List Message
appended of none = []
appended of (some a) = of a ∷ []

-- The switch on the kind: no message for any other kind.
unfoldable pub decoded : (kind : ℕ) → Bytes → Result (List Message)
decoded kind m =
    if kind == number cred_gen
    then (do c ← caught (CredentialMessage.from_bytes m); ok (appended of_credential c))
    else if kind == number cast
    then (do b ← caught (SignedBallot.from_bytes m); ok (appended of_ballot b))
    else if kind == number tally
    then (do d ← caught (DecryptionMessage.from_bytes m); ok (appended of_decryption d))
    else ok []

-- The loop of `Get`. A round takes two bytes at least, so the length of the body is enough fuel.
unfoldable pub read_messages : ℕ → Buffer (List Message)
unfolding decoded
read_messages fuel [] = (ok [], [])
read_messages zero (b ∷ s) = (stuck, b ∷ s)
read_messages (suc fuel) (b ∷ s) = continue (read_byte (b ∷ s)) λ kind s1.
    continue (read_vector s1) λ m s2.
      continue (decoded kind m, s2)
        λ msgs s3. continue (read_messages fuel s3) λ rest s4. (ok (msgs ++ rest), s4)

unfoldable pub get : (answer : Result Bytes) → Result (List Message)
unfolding read_messages
get answer = do buf ← answer; run (read_messages (length buf)) buf

-- `send` is the request: an error, or the close of the answer's body.
unfoldable pub post : (send : Bytes → Result (Unit {0})) → Message → Result (Unit {0})
post send m = do body ← Message.bytes m; send body
