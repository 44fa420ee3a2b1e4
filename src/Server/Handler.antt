-- ===== src/Server/Handler.antt =====
-- pebble-core/server/server.go: `ServeHTTP`, one function for each path.
pub mod Access
pub mod Messages
use pebble_voting_app.Base.{
  ℕ, [], ◌∷◌, ◌++◌, List, Bool, true, false, not, Option, none, some, Bytes, Result, Error, ok, err,
  panic, stuck, length, codes, bytes_eq, ◌==◌, if◌then◌else◌,
}
use pebble_voting_app.Base.Int.{ℤ, pos, negsuc}
use pebble_voting_app.Base.Exec.{Exec, pure, lift}
use pebble_voting_app.Util.Slices.{get_suffix}
use pebble_voting_app.Pubkey.{Schemes}
use pebble_voting_app.Anoncred.{CredentialSystem}
use pebble_voting_app.Anoncred.Gnark.{Gnark}
use pebble_voting_app.Anoncred.AnonCred1.{AnonCred1, setup_circuit}
use pebble_voting_app.Anoncred.AnonCred1.Parameters.{proving_key_to_bytes, verifying_key_to_bytes}
use pebble_voting_app.Structs.EncryptedBallot.Sealing.{Ciphers}
use pebble_voting_app.Voting.Params
use pebble_voting_app.Voting.Params.{Time, setup, cred_gen, cast, tally, end}
use pebble_voting_app.Voting.Message
use pebble_voting_app.Voting.Election.{ElectionProgress, progress}
use pebble_voting_app.Server.{
  ElectionService, Server, SetupInfo, setup_error, setup_in_progress, setup_done, Request, Method,
  get_method, post_method, other_method, Response, respond_text,
}
use pebble_voting_app.Server.Frames.{frames}
use pebble_voting_app.Server.SetupParams.{ElectionSetupParams}
use pebble_voting_app.Server.Responses.{
  Json, keys_json, Outside, not_allowed, is_get, is_post, unauthorized, setup_response,
  progress_response, circuit_of, authorized, marshalled, respond_json, handled, called, respond,
}

module _ (outside : Outside) where
  open outside use {marshal, atoi}

  -- `g` makes the parameters of `/user-init/`; `now` and `later` are the clock at the two calls of
  -- `Phase`.
  module _ (service : ElectionService) (sys : CredentialSystem) (schemes : Schemes)
      (ciphers : Ciphers) (iteration : List sys.PublicCredential → List sys.PublicCredential)
      (g : Gnark) where
    open service use {State}

    abbrev pub Endpoint : Type 0
    Endpoint = Server → Request → Exec State Response

    unfoldable pub create_endpoint : Endpoint
    unfolding authorized
    create_endpoint srv req s =
        if not (is_post req.method)
        then respond 405 not_allowed s
        else if not srv.create
        then respond 403 (codes "Server does not create elections") s
        else if not (authorized outside srv req)
        then (ok unauthorized, s)
        else handled outside 400 [] (outside.decode req.body, s)
            λ params s1.
              handled outside 500 [] (service.create params s1)
                λ u s2. respond 200 (codes "Election creation enqueued") s2

    unfoldable pub setup_endpoint : (admin_id : Bytes) → Endpoint
    unfolding authorized setup_response respond_json
    setup_endpoint admin_id srv req s =
        if not (is_get req.method)
        then respond 405 not_allowed s
        else if not srv.create
        then respond 403 (codes "Server does not create elections") s
        else if not (authorized outside srv req)
        then (ok unauthorized, s)
        else handled outside 500 [] (service.setup admin_id s, s)
            λ info s1. (respond_json outside (setup_response info), s1)

    unfoldable pub election_endpoint : (backend_id : Bytes) → (now later : Time) → Endpoint
    unfolding progress_response respond_json
    election_endpoint backend_id now later srv req s =
        if not (is_get req.method)
        then respond 405 not_allowed s
        else handled outside 500 [] (service.election backend_id s, s)
            λ ref s1.
              handled outside 500 []
                (
                  progress sys schemes ciphers iteration (service.value ref s1) now later
                      (service.get ref s1) (service.get ref s1),
                  s1,
                )
                λ prog s2. (respond_json outside (progress_response prog), s2)

    unfoldable pub params_endpoint : (backend_id : Bytes) → Endpoint
    params_endpoint backend_id srv req s =
        if not (is_get req.method)
        then respond 405 not_allowed s
        else handled outside 500 [] (service.election backend_id s, s)
            λ ref s1.
              called (Params.bytes (service.value ref s1).params, s1)
                λ body s2. (
                  ok (record {
                    status = 200;
                    content_type = none;
                    content_length = some (length body);
                    authenticate = false;
                    body = body;
                  }),
                  s2,
                )

    unfoldable pub get_messages : service.Ref → Exec State Response
    get_messages ref s =
        handled outside 500 [] (service.get ref s, s)
          λ msgs s1.
            called (frames msgs, s1)
              λ body s2. (
                ok (record {
                  status = 200;
                  content_type = none;
                  content_length = none;
                  authenticate = false;
                  body = body;
                }),
                s2,
              )

    unfoldable pub post_message : service.Ref → Endpoint
    post_message ref srv req s =
        if not srv.post
        then respond 403 (codes "Server does not post messages") s
        else handled outside 400 [] (req.body, s)
            λ p s1.
              handled outside 400 [] (Message.from_bytes p, s1)
                λ msg s2.
                  handled outside 500 [] (service.post ref msg s2)
                    λ u s3. respond 200 (codes "Message posted") s3

    unfoldable pub messages_endpoint : (backend_id : Bytes) → Endpoint
    unfolding get_messages post_message
    messages_endpoint backend_id srv req s =
        handled outside 500 [] (service.election backend_id s, s)
          λ ref s1.
            if is_get req.method
            then get_messages ref s1
            else if is_post req.method
            then post_message ref srv req s1
            else respond 405 not_allowed s1

    unfoldable pub user_init_endpoint : (depth_str : Bytes) → Endpoint
    user_init_endpoint depth_str srv req s =
        if not (is_get req.method)
        then respond 405 not_allowed s
        else handled outside 400 (codes "Invalid depth value: ") (atoi depth_str, s)
            λ depth s1.
              handled outside 500 (codes "Failed to setup circuit: ") (circuit_of g depth, s1)
                λ params s2.
                  handled outside 500 (codes "Failed to serialize ProvingKey: ")
                    (proving_key_to_bytes g params, s2)
                    λ pk s3.
                      handled outside 500 (codes "Failed to serialize VerifyingKey: ")
                        (verifying_key_to_bytes g params, s3)
                        λ vk s4.
                          handled outside 500 (codes "Failed to serialize keys to JSON: ")
                            (marshal (keys_json pk vk), s4)
                            λ body s5. (marshalled outside (ok body), s5)

    -- The ladder of paths.
    unfoldable pub serve_http : (now later : Time) → Endpoint
    unfolding create_endpoint setup_endpoint election_endpoint params_endpoint messages_endpoint
        user_init_endpoint
    serve_http now later srv req s =
        let path = req.path in
        let (admin_id, is_setup) = get_suffix path (codes "/setup/") in
        let (election_id, is_election) = get_suffix path (codes "/election/") in
        let (params_id, is_params) = get_suffix path (codes "/params/") in
        let (messages_id, is_messages) = get_suffix path (codes "/messages/") in
        let (depth_str, is_user_init) = get_suffix path (codes "/user-init/") in
        if bytes_eq path (codes "/create")
        then create_endpoint srv req s
        else if is_setup
        then setup_endpoint admin_id srv req s
        else if is_election
        then election_endpoint election_id now later srv req s
        else if is_params
        then params_endpoint params_id srv req s
        else if is_messages
        then messages_endpoint messages_id srv req s
        else if is_user_init
        then user_init_endpoint depth_str srv req s
        else respond 404 (codes "Endpoint not found --> Default handler") s
