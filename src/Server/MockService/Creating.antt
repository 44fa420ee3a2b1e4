-- ===== src/Server/MockService/Creating.antt =====
-- mock_service.go: an election that was created, and what its administrator is told.
use pebble_voting_app.Base.{
  ℕ, [], ◌∷◌, Bool, none, some, ◌≡◌, ◌∙◌, ap, refl, Bytes, Result, ok, length, All, IsByte,
  >>=-eq-ok,
}
use pebble_voting_app.Base32.{encode}
use pebble_voting_app.Pubkey.{Schemes}
use pebble_voting_app.Vdf.{Vdf}
use pebble_voting_app.Vdf.Pietrzak.{PietrzakVdf}
use pebble_voting_app.Voting.Params.{ElectionParams, Time}
use pebble_voting_app.Voting.Message.{new_mock}
use pebble_voting_app.Voting.Election.{Election, insert}
use pebble_voting_app.Voting.Creation.{new_election}
use pebble_voting_app.Voting.Invitation
use pebble_voting_app.Voting.Invitation.{Invitation, decode_invitation}
use pebble_voting_app.Voting.Invitation.RoundTrip.{Fits, decode_invitation-string}
use pebble_voting_app.Server.{setup_done}
use pebble_voting_app.Server.SetupParams.{ElectionSetupParams, params}
use pebble_voting_app.Server.MockService.{
  MockService, Entry, find, create, create_new, setup, invitation_of, election,
}
use pebble_voting_app.Server.MockService.Invariant.{find-insert}

-- The state after an election was created.
abbrev pub created : MockService → (admin_id id : Bytes) → Election → ElectionParams → MockService
created s admin_id id e epar = record s {
  elections = insert (encode id) (record { election = e; channel = new_mock id epar }) s.elections;
  ids = insert admin_id (encode id) s.ids;
}

setup-done :
    (sha256 : Bytes → Bytes) (admin_id id invitation : Bytes) (e : Entry) (s : MockService)
    → find admin_id s.ids ≡ some id
    → find id s.elections ≡ some e
    → Invitation.string sha256 (invitation_of s id) ≡ ok invitation
    → setup sha256 admin_id s
      ≡ ok (record { status = setup_done; error = []; backend_id = id; invitation = invitation })
unfolding setup
setup-done sha256 admin_id id invitation e s at there written = rw (setup, at, there, written) refl

election-found :
    (id : Bytes) (e : Entry) (s : MockService)
    → find id s.elections ≡ some e
    → election id s ≡ ok (id, e)
unfolding election
election-found id e s there = rw (election, there) refl

module _ (schemes : Schemes) (parse_time : Bytes → Result Time) (loaded : Bool)
    (conversion : ElectionParams → ℕ) (methods : PietrzakVdf → Vdf) where
  create-created :
      (spar : ElectionSetupParams) (s : MockService) (id : Bytes) (epar : ElectionParams)
      (e : Election)
      → find spar.admin_id s.ids ≡ none
      → params schemes parse_time spar ≡ ok epar
      → new_election loaded conversion methods id (ok epar) ≡ ok e
      → create schemes parse_time loaded conversion methods (ok id) spar s
        ≡ (ok tt, created s spar.admin_id id e epar)
  unfolding create create_new
  create-created spar s id epar e unused parsed made =
      rw (create, unused, create_new, parsed, made) refl

  -- `Create` for an administrator's id that is not in use, when the parameters parse and
  -- NewElection returns an election, returns no error. `Setup` of the administrator's id then
  -- answers SetupDone with the election's id and an invitation, which `DecodeInvitation` reads as
  -- that id and the server's address, and `Election` of the id finds the election with an empty
  -- channel. SHA-256 is assumed to give 32 bytes, and the invitation to fit its wire format.
  pub create-setup :
      (spar : ElectionSetupParams) (s : MockService) (id : Bytes) (epar : ElectionParams)
      (e : Election)
      → ((b : Bytes) → length (schemes.sha256 b) ≡ 32)
      → ((b : Bytes) → All IsByte (schemes.sha256 b))
      → Fits (invitation_of s (encode id))
      → find spar.admin_id s.ids ≡ none
      → params schemes parse_time spar ≡ ok epar
      → new_election loaded conversion methods id (ok epar) ≡ ok e
      → (let r = create schemes parse_time loaded conversion methods (ok id) spar s in
          (invitation : Bytes) × (r.0 ≡ ok tt)
          × (setup schemes.sha256 spar.admin_id r.1
              ≡ ok (record {
                status = setup_done;
                error = [];
                backend_id = encode id;
                invitation = invitation;
              }))
          × (decode_invitation schemes.sha256 invitation
              ≡ ok (record { network = []; address = encode id; servers = s.url ∷ [] }))
          × (election (encode id) r.1
              ≡ ok (encode id, record { election = e; channel = new_mock id epar })))
  unfolding invitation_of
  create-setup spar s id epar e wide bytes fits unused parsed made =
      let step = create-created spar s id epar e unused parsed made in
      let entry : Entry = record { election = e; channel = new_mock id epar } in
      let there = find-insert (encode id) entry s.elections in
      let (invitation, written, read) =
        >>=-eq-ok (Invitation.string schemes.sha256 (invitation_of s (encode id))) _
          (decode_invitation-string schemes.sha256 (invitation_of s (encode id)) wide bytes fits) in
      let done =
        setup-done schemes.sha256 spar.admin_id (encode id) invitation entry
          (created s spar.admin_id id e epar) (find-insert spar.admin_id (encode id) s.ids) there
          written in
      (
        invitation,
        ap (λ (r : Result (Unit {0}) × MockService). r.0) step,
        ap (λ (r : Result (Unit {0}) × MockService). setup schemes.sha256 spar.admin_id r.1) step
            ∙ done,
        read,
        ap (λ (r : Result (Unit {0}) × MockService). election (encode id) r.1) step
            ∙ election-found (encode id) entry (created s spar.admin_id id e epar) there,
      )
