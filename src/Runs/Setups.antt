-- ===== src/Runs/Setups.antt =====
-- Examples for the set-up of an election on a mock server, and for the client.
use pebble_voting_app.Base.{
  [], ◌∷◌, List, none, some, bytes_eq, true, ◌≡◌, ◌⊎◌, refl, Bytes, Error, ok, err, arith, codes,
}
use pebble_voting_app.Base.Int.{to_int64, to_uint64}
use pebble_voting_app.Base32.{encode, symbol}
use pebble_voting_app.Base32.Check.{check_encode}
use pebble_voting_app.Methods.Choice.{approval, get}
use pebble_voting_app.Structs.EligibilityList.{new, contains}
use pebble_voting_app.Structs.EligibilityList.Invariant.{IsValid}
use pebble_voting_app.Voting.Params.{ElectionParams, phase}
use pebble_voting_app.Voting.Message.{Message, new_mock}
use pebble_voting_app.Voting.Election.{Election, insert}
use pebble_voting_app.Voting.Creation.{new_election}
use pebble_voting_app.Voting.Durations.{total, sub, mul64, add}
use pebble_voting_app.Voting.Invitation.{decode_invitation}
use pebble_voting_app.Voting.Client
use pebble_voting_app.Voting.Client.Reading.{get-returned}
use pebble_voting_app.Command.{printed, listening, line, main}
use pebble_voting_app.Command.Passwords.{main-passwords}
use pebble_voting_app.Server.{setup_done, Server, Request, post_method}
use pebble_voting_app.Server.Responses.{authorized}
use pebble_voting_app.Server.SetupParams.{
  ElectionSetupVoter, ElectionSetupParams, add_voters, params,
}
use pebble_voting_app.Server.SetupParams.Schedule.{scheduled, phase-params}
use pebble_voting_app.Server.SetupParams.Eligible.{is_voter, params-voters}
use pebble_voting_app.Server.MockService.{find, create, setup, election, invitation_of}
use pebble_voting_app.Server.MockService.Creating.{create-setup}
use pebble_voting_app.Server.MockService.{MockService, new_mock_server}
use pebble_voting_app.Server.Handler.{serve_http}
use pebble_voting_app.Server.Responses.{Outside, handled}
use pebble_voting_app.Server.MockService.Invariant.{IsConsistent}
use pebble_voting_app.Server.MockService.Reachable.{Reachable, serve_mock, Reachable-IsConsistent}
use pebble_voting_app.Runs.Credentials.{toy}
use pebble_voting_app.Runs.{plain, toy_ciphers, toy_vdf, at}
use pebble_voting_app.Runs.Codes.{constant, sevens}
use pebble_voting_app.Runs.Servers.{every, server, to_create, outside, schemes, parse, running}

-- Ten and twenty characters stand for the seconds 10 and 20.
abbrev wanted : ElectionSetupParams
wanted = record {
  admin_id = 8 ∷ [];
  title = codes "T";
  description = [];
  vote_start = codes "1234567890";
  vote_end = codes "12345678901234567890";
  vdf_difficulty = codes "1000";
  voting_method = codes "Approval";
  choices = codes "a" ∷ codes "b" ∷ [];
  voters = [];
}

abbrev made : ElectionParams
made = record {
  version = 0;
  cast_start = at 10;
  tally_start = at 20;
  tally_end = at 1020;
  max_vdf_difficulty = 0;
  voting_method = codes "Approval";
  title = codes "T";
  description = [];
  choices = codes "a" ∷ codes "b" ∷ [];
  eligibility_list = new;
}

abbrev started : Election
started = record { id = 2 ∷ []; vdf = toy_vdf; method = approval 2; params = made }

create-setup_example :
    (let r = create schemes parse true (λ p. 1) (λ v. toy_vdf) (ok (2 ∷ [])) wanted running in
      (invitation : Bytes) × (r.0 ≡ ok tt)
      × (setup constant (8 ∷ []) r.1
          ≡ ok (record {
            status = setup_done;
            error = [];
            backend_id = encode (2 ∷ []);
            invitation = invitation;
          }))
      × (decode_invitation constant invitation
          ≡ ok (record { network = []; address = encode (2 ∷ []); servers = codes "a" ∷ [] }))
      × (election (encode (2 ∷ [])) r.1
          ≡ ok (encode (2 ∷ []), record { election = started; channel = new_mock (2 ∷ []) made })))
unfolding find params add_voters sub mul64 add new_election get invitation_of encode symbol to_int64
    to_uint64
create-setup_example =
    create-setup schemes parse true (λ p. 1) (λ v. toy_vdf) wanted running (2 ∷ []) made started
      (λ b. refl) (λ b. sevens 32)
      (record {
        address = omega arith;
        num_servers = omega arith;
        servers = (omega arith, tt);
        address_bytes = (omega arith, (omega arith, tt));
        servers_bytes = ((omega arith, tt), tt);
      })
      refl refl refl

-- A new server is asked to create the election.
abbrev empty_server : MockService
empty_server = record { elections = []; ids = []; url = codes "a" }

abbrev creating : Outside
creating = record outside { decode = λ body. ok wanted }

abbrev created : MockService
created =
    (serve_mock creating schemes parse true (λ p. 1) (λ v. toy_vdf) plain toy_ciphers every toy
      (at 0) (at 0) (ok (2 ∷ [])) to_create server empty_server).1

has_one :
    find (encode (2 ∷ [])) created.elections
    ≡ some (record { election = started; channel = new_mock (2 ∷ []) made })
unfolding serve_mock find serve_http handled create params new_election get insert encode symbol add
    mul64 to_int64 to_uint64 sub
has_one = refl

Reachable-IsConsistent_example : IsConsistent created
unfolding new_mock_server
Reachable-IsConsistent_example =
    Reachable-IsConsistent creating schemes parse true (λ p. 1) (λ v. toy_vdf) plain toy_ciphers
      every toy server created
      (Reachable.request (at 0) (at 0) (ok (2 ∷ [])) to_create server empty_server
        (Reachable.start (codes "a") [] server empty_server refl))

-- One key that parses, and one that does not.
abbrev voters : List ElectionSetupVoter
voters =
    record { id = codes "x"; key = check_encode constant (238 ∷ 78 ∷ 5 ∷ 6 ∷ []) }
    ∷ record { id = codes "y"; key = codes "EPK!" }
    ∷ []

params-voters_example :
    (epar : ElectionParams) × (params schemes parse (record wanted { voters = voters }) ≡ ok epar)
    × IsValid epar.eligibility_list
    × ((h : Bytes) → contains epar.eligibility_list h ≡ is_voter schemes voters h)
params-voters_example =
    params-voters schemes parse (record wanted { voters = voters }) (at 10) (at 20) (λ s. refl)
      (λ k. refl) refl refl

get-returned_example :
    ((msgs : List Message) × (Client.get (ok (2 ∷ 3 ∷ 1 ∷ [])) ≡ ok msgs))
    ⊎ ((e : Error) × (Client.get (ok (2 ∷ 3 ∷ 1 ∷ [])) ≡ err e))
get-returned_example = get-returned (2 ∷ 3 ∷ 1 ∷ [])

-- Ten seconds of votes give a thousand seconds of tally.
phase-params_example : phase (at 500) made ≡ scheduled (total (at 10)) 10000000000 (total (at 500))
unfolding params add_voters sub mul64 add to_int64 to_uint64
phase-params_example =
    phase-params schemes parse wanted (at 10) (at 20) (at 500) 10000000000 made (omega arith)
      (omega arith) (omega arith) refl (omega arith) refl refl refl

abbrev password : Bytes
password = codes "secret"

-- A request to `/create` with the password.
abbrev with_password : Request
with_password = record {
  method = post_method;
  path = codes "/create";
  password = some password;
  body = ok [];
}

main-passwords_example :
    (text : Bytes) × (srv : Server) × (main outside
        (record { pass_hash = []; args = codes "hash" ∷ [] })
        (some password)
        (some password)
        none
      ≡ ok (
          printed (codes "Input: ")
          ∷ printed (10 ∷ codes "Confirm: ")
          ∷ printed (line [])
          ∷ printed (line text)
          ∷ []))
    × (main outside
          (record { pass_hash = text; args = codes "mock" ∷ codes ":80" ∷ [] })
          none
          none
          none
        ≡ ok (
            printed (line (codes "Starting mock server..."))
            ∷ listening (codes ":80") srv (record { elections = []; ids = []; url = codes ":80" })
            ∷ []))
    × (authorized outside srv with_password ≡ bytes_eq (constant password) (constant password))
main-passwords_example =
    main-passwords outside password (codes ":80") [] [] none none none none with_password
      (λ b. refl) (λ b. sevens 32)
