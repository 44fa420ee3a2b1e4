-- ===== src/Server/Handler/Messages.antt =====
-- server.go: the two requests to the messages of an election, over any service that answers.
use pebble_voting_app.Base.{
  ◌++◌, List, true, false, Option, none, ◌≡◌, refl, Bytes, Result, ok, codes,
}
use pebble_voting_app.Util.Slices.{get_suffix}
use pebble_voting_app.Pubkey.{Schemes}
use pebble_voting_app.Anoncred.{CredentialSystem}
use pebble_voting_app.Anoncred.Gnark.{Gnark}
use pebble_voting_app.Structs.EncryptedBallot.Sealing.{Ciphers}
use pebble_voting_app.Voting.Params.{Time}
use pebble_voting_app.Voting.Message
use pebble_voting_app.Voting.Message.{Message}
use pebble_voting_app.Server.{
  ElectionService, Server, Method, Request, Response, get_method, post_method, respond_text,
}
use pebble_voting_app.Server.Frames.{frames}
use pebble_voting_app.Server.Handler.{serve_http, messages_endpoint, get_messages, post_message}
use pebble_voting_app.Server.Responses.{Outside, handled, called}

-- The two requests to the messages of an election.
abbrev pub posting : (id : Bytes) → (password : Option Bytes) → (body : Bytes) → Request
posting id password body = record {
  method = post_method;
  path = codes "/messages/" ++ id;
  password = password;
  body = ok body;
}

abbrev pub getting : (id : Bytes) → (password : Option Bytes) → (body : Result Bytes) → Request
getting id password body = record {
  method = get_method;
  path = codes "/messages/" ++ id;
  password = password;
  body = body;
}

-- The response that lists the messages.
abbrev pub listing : (body : Bytes) → Response
listing body = record {
  status = 200;
  content_type = none;
  content_length = none;
  authenticate = false;
  body = body;
}

module _ (outside : Outside) (service : ElectionService) (sys : CredentialSystem)
    (schemes : Schemes) (ciphers : Ciphers)
    (iteration : List sys.PublicCredential → List sys.PublicCredential) (g : Gnark) where
  open service use {State, Ref}

  -- The path leads to the messages of the election.
  pub to_messages :
      (now later : Time) (method : Method) (id : Bytes) (password : Option Bytes)
      (body : Result Bytes) (srv : Server) (s : State)
      → (let req : Request = record {
        method = method;
        path = codes "/messages/" ++ id;
        password = password;
        body = body;
      } in
          serve_http outside service sys schemes ciphers iteration g now later srv req s
          ≡ messages_endpoint outside service sys schemes ciphers iteration g id srv req s)
  unfolding serve_http get_suffix
  to_messages now later method id password body srv s = refl

  pub post_message-ok :
      (srv : Server) (req : Request) (s s' : State) (ref : Ref) (p : Bytes) (m : Message)
      → srv.post ≡ true
      → req.body ≡ ok p
      → Message.from_bytes p ≡ ok m
      → service.post ref m s ≡ (ok tt, s')
      → post_message outside service sys schemes ciphers iteration g ref srv req s
        ≡ (ok (respond_text 200 (codes "Message posted")), s')
  unfolding post_message handled
  post_message-ok srv req s s' ref p m posts read parsed posted =
      rw (posts, read, parsed, posted) refl

  pub get_messages-ok :
      (s : State) (ref : Ref) (ms : List Message) (body : Bytes)
      → service.get ref s ≡ ok ms
      → frames ms ≡ ok body
      → get_messages outside service sys schemes ciphers iteration g ref s ≡ (ok (listing body), s)
  unfolding get_messages handled called
  get_messages-ok s ref ms body got framed = rw (got, framed) refl

  pub messages-post :
      (id : Bytes) (srv : Server) (req : Request) (s : State) (ref : Ref)
      → service.election id s ≡ ok ref
      → req.method ≡ post_method
      → messages_endpoint outside service sys schemes ciphers iteration g id srv req s
        ≡ post_message outside service sys schemes ciphers iteration g ref srv req s
  unfolding messages_endpoint handled
  messages-post id srv req s ref there method = rw (there, method) refl

  pub messages-get :
      (id : Bytes) (srv : Server) (req : Request) (s : State) (ref : Ref)
      → service.election id s ≡ ok ref
      → req.method ≡ get_method
      → messages_endpoint outside service sys schemes ciphers iteration g id srv req s
        ≡ get_messages outside service sys schemes ciphers iteration g ref s
  unfolding messages_endpoint handled
  messages-get id srv req s ref there method = rw (there, method) refl
