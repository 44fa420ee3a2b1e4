-- ===== src/Voting/Election.antt =====
-- pebble-core/voting/election.go, what an observer computes from the channel: the credential set,
-- decrypted ballots and the progress. Times and the answers of `channel.Get` are arguments, one
-- for each call, since both change while an election runs.
pub mod Collecting
pub mod Credentials
pub mod Decryption
pub mod Progress
pub mod Reports
pub mod Openings
pub mod Tallying
pub mod Readable
pub mod Turnout
pub mod Eligibility
pub mod Denial
use pebble_voting_app.Base.{
  ℕ, zero, suc, ◌+◌, ◌-◌, [], ◌∷◌, ◌++◌, List, Option, none, some, Bool, true, false, Bytes, Result,
  ok, err, panic, stuck, Error, wrong_phase, decryption_not_found, leb, ltb, ◌==◌, bytes_eq,
  if◌then◌else◌, ◌>>=◌, map,
}
use pebble_voting_app.Util.Slices.{concat}
use pebble_voting_app.Util.BytesSet
use pebble_voting_app.Util.BytesSet.{BytesSet}
use pebble_voting_app.Vdf.{Vdf, VdfSolution}
use pebble_voting_app.Pubkey
use pebble_voting_app.Pubkey.{Schemes}
use pebble_voting_app.Anoncred.{CredentialSystem}
use pebble_voting_app.Structs.CredentialMessage.{CredentialMessage}
use pebble_voting_app.Structs.DecryptionMessage.{DecryptionMessage}
use pebble_voting_app.Structs.EncryptedBallot.{EncryptedBallot}
use pebble_voting_app.Structs.EncryptedBallot.Sealing.{Ciphers, decrypt}
use pebble_voting_app.Structs.SignedBallot
use pebble_voting_app.Structs.SignedBallot.{SignedBallot}
use pebble_voting_app.Methods.{Tally}
use pebble_voting_app.Methods.Choice
use pebble_voting_app.Methods.Choice.{VotingMethod}
use pebble_voting_app.Voting.Params.{
  Time, ElectionParams, ElectionPhase, phase, number, cred_gen, cast, tally, end,
}
use pebble_voting_app.Voting.Message.{Message}

-- The election's own fields; its credential system, channel and secrets are section parameters.
pub record Election : Type 0 where
  pub id : Bytes
  pub vdf : Vdf
  pub method : VotingMethod
  pub params : ElectionParams

pub record ElectionProgress : Type 0 where
  pub phase : ElectionPhase
  pub count : ℕ
  pub total : ℕ
  pub tally : Tally

-- A call whose error is dropped by `continue`: no value, but a panic goes on.
abbrev pub caught {ℓ} : {A : Type ℓ} → Result A → Result (Option A)
caught (ok a) = ok (some a)
caught (err e) = ok none
caught panic = panic
caught stuck = stuck

-- `creds[key] = cred`
unfoldable pub insert {ℓ} : {A : Type ℓ} → Bytes → A → List (Bytes × A) → List (Bytes × A)
insert k v [] = (k, v) ∷ []
insert k v ((j, w) ∷ m) = if bytes_eq j k then (k, v) ∷ m else (j, w) ∷ insert k v m

-- The two lists that `Progress` sorts the messages into.
unfoldable pub signed_ballots : List Message → List SignedBallot
signed_ballots [] = []
signed_ballots (m ∷ ms) = elim m.signed_ballot [
  | none ↦ signed_ballots ms
  | some b ↦ b ∷ signed_ballots ms
]

unfoldable pub decryptions : List Message → List DecryptionMessage
decryptions [] = []
decryptions (m ∷ ms) = elim m.signed_ballot [
  | some b ↦ decryptions ms
  | none ↦ elim m.decryption [ none ↦ decryptions ms | some d ↦ d ∷ decryptions ms ]
]

-- structs.CredentialMessage.Verify
unfoldable pub verify_credential : Schemes → Bytes → CredentialMessage → Result (Unit {0})
verify_credential schemes eid c =
    Pubkey.verify schemes c.public_key (concat (eid ∷ c.credential ∷ [])) c.signature

-- The loop of `decryptBallot`.
unfoldable pub decrypt_ballot :
    Ciphers → Vdf → EncryptedBallot → List DecryptionMessage → Result Bytes
decrypt_ballot ciphers vdf eb [] = err decryption_not_found
decrypt_ballot ciphers vdf eb (d ∷ ds) =
    let rest = decrypt_ballot ciphers vdf eb ds in
    let sol : VdfSolution = record { input = eb.vdf_input; output = d.output; proof = d.proof } in
    if bytes_eq d.input_hash (ciphers.sha256 eb.vdf_input)
    then (do
      verified ← caught (vdf.verify sol)
      elim verified [ none ↦ rest | some u ↦ decrypt ciphers eb sol ])
    else rest

-- The counters of `Progress`.
pub record Counts : Type 0 where
  pub signed : ℕ
  pub decrypted : ℕ
  pub invalid : ℕ
  pub ballots : List Bytes

abbrev pub no_counts : Counts
no_counts = record { signed = 0; decrypted = 0; invalid = 0; ballots = [] }

abbrev is_not_found : Error → Bool
is_not_found decryption_not_found = true
is_not_found e = false

-- What a round does with the result of `decryptBallot`.
unfoldable pub tally_ballot : Counts → Result Bytes → Result Counts
tally_ballot c (ok b) =
    ok (record c { decrypted = c.decrypted + 1; ballots = c.ballots ++ (b ∷ []) })
tally_ballot c (err e) = ok (if is_not_found e then c else record c { invalid = c.invalid + 1 })
tally_ballot c panic = panic
tally_ballot c stuck = stuck

-- `sys` is the credential system; `iteration` is the order in which Go ranges over a map.
module _ (sys : CredentialSystem) (schemes : Schemes) (ciphers : Ciphers)
    (iteration : List sys.PublicCredential → List sys.PublicCredential) where
  open sys use {
    PublicCredential, CredentialSet, read_public_credential, make_credential_set, set_len,
    set_verify,
  }

  abbrev pub Creds : Type 0
  Creds = List (Bytes × PublicCredential)

  -- One round of the loop in `GetCredentialSet` on a credential message.
  unfoldable pub collect_credential : Bytes → Creds → CredentialMessage → Result Creds
  collect_credential eid creds c = do
    verified ← caught (verify_credential schemes eid c)
    elim verified [
      | none ↦ ok creds
      | some u ↦ do
        read ← caught (read_public_credential c.credential)
        elim read [
          | none ↦ ok creds
          | some cred ↦ ok (insert (ciphers.sha256 c.public_key) cred creds)
        ]
    ]

  unfoldable pub collect : Bytes → Creds → List Message → Result Creds
  unfolding collect_credential
  collect eid creds [] = ok creds
  collect eid creds (m ∷ ms) = do
    creds' ← elim m.credential [ none ↦ ok creds | some c ↦ collect_credential eid creds c ]
    collect eid creds' ms

  unfoldable pub get_credential_set :
      Election → (now : Time) → Result (List Message) → Result CredentialSet
  unfolding collect
  get_credential_set e now messages =
      if leb (number (phase now e.params)) (number cred_gen) then err wrong_phase else (do
        msgs ← messages
        creds ← collect e.id [] msgs
        make_credential_set (iteration (map (λ (p : Bytes × PublicCredential). p.1) creds)))

  -- structs.SignedBallot.Verify
  unfoldable pub verify_ballot : CredentialSet → SignedBallot → Result (Unit {0})
  verify_ballot set b = do msg ← SignedBallot.bytes b; set_verify set b.serial_no b.signature msg

  -- One round of the loop over the signed ballots, after the set of serial numbers was asked.
  unfoldable pub count_ballot :
      Election
      → ElectionPhase
      → CredentialSet
      → List DecryptionMessage
      → Counts
      → SignedBallot
      → Result Counts
  unfolding verify_ballot tally_ballot
  count_ballot e ph set decs c b = do
    verified ← caught (verify_ballot set b)
    elim verified [
      | none ↦ ok c
      | some u ↦
          let c' : Counts = record c { signed = c.signed + 1 } in
          if leb (number tally) (number ph)
          then tally_ballot c' (decrypt_ballot ciphers e.vdf b.encrypted_ballot decs)
          else ok c'
    ]

  -- The loop itself. `serial_nos` is asked, and nothing is put into it.
  unfoldable pub count_ballots :
      Election
      → ElectionPhase
      → CredentialSet
      → List DecryptionMessage
      → BytesSet
      → Counts
      → List SignedBallot
      → Result Counts
  unfolding count_ballot
  count_ballots e ph set decs serial_nos c [] = ok c
  count_ballots e ph set decs serial_nos c (b ∷ bs) = do
    seen ← BytesSet.contains serial_nos b.serial_no
    c' ← (if seen then ok c else count_ballot e ph set decs c b)
    count_ballots e ph set decs serial_nos c' bs

  -- The three ways in which the counters are reported.
  unfoldable pub report :
      Election → ElectionPhase → CredentialSet → Counts → Result ElectionProgress
  report e cast set c =
      ok (record { phase = cast; count = c.signed; total = set_len set; tally = [] })
  report e tally set c = do
    counted ← Choice.tally e.method c.ballots
    ok (record {
      phase = tally;
      count = c.decrypted;
      total = c.signed - c.invalid;
      tally = counted;
    })
  report e ph set c = do
    counted ← Choice.tally e.method c.ballots
    ok (record { phase = ph; count = c.decrypted; total = c.signed; tally = counted })

  -- `now` and `later` are the clock at the two calls of `Phase`, `first` and `second` what the two
  -- calls of `Get` answer.
  unfoldable pub progress :
      Election
      → (now later : Time) → (first second : Result (List Message)) → Result ElectionProgress
  unfolding count_ballots report signed_ballots decryptions
  progress e now later first second =
      let ph = phase now e.params in
      if leb (number ph) (number cred_gen)
      then ok (record { phase = ph; count = 0; total = 0; tally = [] })
      else (do
        set ← get_credential_set e later first
        msgs ← second
        c ← count_ballots e ph set (decryptions msgs) BytesSet.empty no_counts (signed_ballots msgs)
        report e ph set c)
