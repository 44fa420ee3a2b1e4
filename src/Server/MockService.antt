-- ===== src/Server/MockService.antt =====
-- pebble-core/server/mock_service.go: elections kept in memory, each with its own channel. The two
-- maps are association lists.
pub mod Invariant
pub mod Reachable
pub mod Log
pub mod Posting
pub mod Creating
use pebble_voting_app.Base.{
  ℕ, [], ◌∷◌, List, Bool, Option, none, some, Bytes, Result, ok, err, panic, stuck, election_exists,
  election_not_found, codes, bytes_eq, if◌then◌else◌, true, ◌==◌, ◌&&◌, not, length,
}
use pebble_voting_app.Base.Exec.{Exec, lift, ◌>>=◌}
use pebble_voting_app.Base32.{encode}
use pebble_voting_app.Pubkey.{Schemes}
use pebble_voting_app.Vdf.{Vdf}
use pebble_voting_app.Vdf.Pietrzak.{PietrzakVdf}
use pebble_voting_app.Voting.Params.{ElectionParams, Time}
use pebble_voting_app.Voting.Message
use pebble_voting_app.Voting.Message.{Message, MockBroadcastChannel, new_mock}
use pebble_voting_app.Voting.Election.{Election, insert}
use pebble_voting_app.Voting.Creation.{new_election}
use pebble_voting_app.Voting.Invitation.{Invitation}
use pebble_voting_app.Voting.Invitation
use pebble_voting_app.Server.{
  SetupStatus, setup_error, setup_done, SetupInfo, ElectionService, Server,
}
use pebble_voting_app.Server.SetupParams.{ElectionSetupParams, params}

-- An election and its channel.
pub record Entry : Type 0 where
  pub election : Election
  pub channel : MockBroadcastChannel

pub record MockService : Type 0 where
  pub elections : List (Bytes × Entry)
  pub ids : List (Bytes × Bytes)
  pub url : Bytes

unfoldable pub find {ℓ} : {A : Type ℓ} → Bytes → List (Bytes × A) → Option A
find k [] = none
find k ((j, v) ∷ m) = let rest = find k m in if bytes_eq j k then some v else rest

abbrev not_found : SetupInfo
not_found = record {
  status = setup_error;
  error = codes "Election not found";
  backend_id = [];
  invitation = [];
}

abbrev invited : (backend_id : Bytes) → Result Bytes → Result SetupInfo
invited backend_id (ok invitation) =
    ok
      (record { status = setup_done; error = []; backend_id = backend_id; invitation = invitation })
invited backend_id (err e) = err e
invited backend_id panic = panic
invited backend_id stuck = stuck

unfoldable pub invitation_of : MockService → (backend_id : Bytes) → Invitation
invitation_of s backend_id = record {
  network = codes "mock";
  address = backend_id;
  servers = s.url ∷ [];
}

unfoldable pub setup :
    (sha256 : Bytes → Bytes) → (admin_id : Bytes) → MockService → Result SetupInfo
unfolding invitation_of
setup sha256 admin_id s = elim (find admin_id s.ids) [
  | none ↦ ok not_found
  | some backend_id ↦ elim (find backend_id s.elections) [
    | none ↦ ok not_found
    | some e ↦ invited backend_id (Invitation.string sha256 (invitation_of s backend_id))
  ]
]

-- A pointer to an election is its id and what the map holds under it; `current` follows it.
abbrev pub Ref : Type 0
Ref = Bytes × Entry

unfoldable pub election : (id : Bytes) → MockService → Result Ref
election id s = elim (find id s.elections) [ none ↦ err election_not_found | some e ↦ ok (id, e) ]

abbrev pub current : Ref → MockService → Entry
current ref s = elim (find ref.0 s.elections) [ none ↦ ref.1 | some e ↦ e ]

unfoldable pub post : Ref → Message → Exec MockService (Unit {0})
post ref m s = elim (find ref.0 s.elections) [
  | none ↦ (ok tt, s)
  | some e ↦ (
    ok tt,
    record s {
      elections = insert ref.0 (record e { channel = Message.post e.channel m }) s.elections;
    },
  )
]

-- `NewMockServer`: a hash of another length than that of SHA-256 panics.
unfoldable pub new_mock_server : (url pass_hash : Bytes) → Result (Server × MockService)
new_mock_server url pass_hash =
    if not (length pass_hash == 0) && not (length pass_hash == 32)
    then panic
    else ok (
      record { pass_hash = pass_hash; create = true; post = true },
      record { elections = []; ids = []; url = url },
    )

-- `loaded`, `conversion` and `methods` are the arguments of `new_election`.
module _ (schemes : Schemes) (parse_time : Bytes → Result Time) (loaded : Bool)
    (conversion : ElectionParams → ℕ) (methods : PietrzakVdf → Vdf) where
  -- `Create` for a new administrator's id; `drawn` is what RandomId gives.
  unfoldable pub create_new :
      (drawn : Result Bytes) → ElectionSetupParams → Exec MockService (Unit {0})
  create_new drawn spar = do
    epar ← lift (params schemes parse_time spar)
    id ← lift drawn
    let bc = new_mock id epar
    election ← lift (new_election loaded conversion methods id (ok bc.params))
    λ s. (
      ok tt,
      record s {
        elections = insert (encode id) (record { election = election; channel = bc }) s.elections;
        ids = insert spar.admin_id (encode id) s.ids;
      },
    )

  unfoldable pub create : (drawn : Result Bytes) → ElectionSetupParams → Exec MockService (Unit {0})
  unfolding create_new
  create drawn spar s = elim (find spar.admin_id s.ids) [
    | some backend_id ↦ (err election_exists, s)
    | none ↦ create_new drawn spar s
  ]

  abbrev pub mock_service : (drawn : Result Bytes) → ElectionService
  mock_service drawn = record {
    State = MockService;
    Ref = Ref;
    create = create drawn;
    setup = setup schemes.sha256;
    election = election;
    value = λ ref s. (current ref s).election;
    get = λ ref s. ok (Message.get (current ref s).channel);
    post = post;
  }
