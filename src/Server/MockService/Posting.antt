-- ===== src/Server/MockService/Posting.antt =====
-- mock_service.go and server.go: a message that was posted, and what a later request is answered.
use pebble_voting_app.Base.{
  ℕ, [], ◌∷◌, ◌++◌, List, Bool, true, Option, some, ◌≡◌, ◌∙◌, ap, refl, Bytes, Result, ok, codes,
  length, All,
}
use pebble_voting_app.Pubkey.{Schemes}
use pebble_voting_app.Anoncred.{CredentialSystem}
use pebble_voting_app.Anoncred.Gnark.{Gnark}
use pebble_voting_app.Structs.EncryptedBallot.Sealing.{Ciphers}
use pebble_voting_app.Vdf.{Vdf}
use pebble_voting_app.Vdf.Pietrzak.{PietrzakVdf}
use pebble_voting_app.Voting.Params.{read_vectors, ElectionParams, Time}
use pebble_voting_app.Voting.Message
use pebble_voting_app.Voting.Message.{Message}
use pebble_voting_app.Voting.Election.{insert}
use pebble_voting_app.Server.{Server, Request, Response, get_method, post_method, respond_text}
use pebble_voting_app.Server.Frames.{frames, IsShort, read_each, frames-read_vectors}
use pebble_voting_app.Server.Responses.{Outside}
use pebble_voting_app.Server.MockService.{
  MockService, Entry, find, post, election, current, mock_service,
}
use pebble_voting_app.Server.MockService.Invariant.{find-insert}
use pebble_voting_app.Server.MockService.Reachable.{serve_mock}
use pebble_voting_app.Server.Handler.Messages.{
  posting, getting, listing, to_messages, post_message-ok, get_messages-ok, messages-post,
  messages-get,
}

election-find :
    (id : Bytes) (s : MockService) (e : Entry)
    → find id s.elections ≡ some e
    → election id s ≡ ok (id, e)
unfolding election
election-find id s e there = rw (election, there) refl

current-find :
    (id : Bytes) (s : MockService) (e w : Entry)
    → find id s.elections ≡ some e
    → current (id, w) s ≡ e
current-find id s e w there = rw (current, there) refl

-- The state after a message was posted to an entry.
abbrev pub posted : MockService → (id : Bytes) → Entry → Message → MockService
posted s id e m = record s {
  elections = insert id (record e { channel = Message.post e.channel m }) s.elections;
}

post-find :
    (id : Bytes) (s : MockService) (e w : Entry) (m : Message)
    → find id s.elections ≡ some e
    → post (id, w) m s ≡ (ok tt, posted s id e m)
unfolding post
post-find id s e w m there = rw (post, there) refl

module _ (outside : Outside) (schemes : Schemes) (parse_time : Bytes → Result Time) (loaded : Bool)
    (conversion : ElectionParams → ℕ) (methods : PietrzakVdf → Vdf) (sys : CredentialSystem)
    (ciphers : Ciphers) (iteration : List sys.PublicCredential → List sys.PublicCredential)
    (g : Gnark) where
  abbrev serve :
      (now later : Time)
      → (drawn : Result Bytes) → Request
      → Server
      → MockService
      → Result Response × MockService
  serve = serve_mock outside schemes parse_time loaded conversion methods sys ciphers iteration g

  serve-posting :
      (now later : Time) (drawn : Result Bytes) (id : Bytes) (password : Option Bytes)
      (body : Bytes) (srv : Server) (s : MockService) (e : Entry) (m : Message)
      → find id s.elections ≡ some e
      → srv.post ≡ true
      → Message.from_bytes body ≡ ok m
      → serve now later drawn (posting id password body) srv s
        ≡ (ok (respond_text 200 (codes "Message posted")), posted s id e m)
  unfolding serve_mock
  serve-posting now later drawn id password body srv s e m there posts parsed =
      let service = mock_service schemes parse_time loaded conversion methods drawn in
      to_messages outside service sys schemes ciphers iteration g now later post_method id password
        (ok body) srv s
      ∙ messages-post outside service sys schemes ciphers iteration g id srv
          (posting id password body) s (id, e) (election-find id s e there) refl
      ∙ post_message-ok outside service sys schemes ciphers iteration g srv
          (posting id password body) s (posted s id e m) (id, e) body m posts refl parsed
          (post-find id s e e m there)

  serve-getting :
      (now later : Time) (drawn : Result Bytes) (id : Bytes) (password : Option Bytes)
      (req_body : Result Bytes) (srv : Server) (s : MockService) (e : Entry) (body : Bytes)
      → find id s.elections ≡ some e
      → frames e.channel.messages ≡ ok body
      → serve now later drawn (getting id password req_body) srv s ≡ (ok (listing body), s)
  unfolding serve_mock
  serve-getting now later drawn id password req_body srv s e body there framed =
      let service = mock_service schemes parse_time loaded conversion methods drawn in
      to_messages outside service sys schemes ciphers iteration g now later get_method id password
        req_body srv s
      ∙ messages-get outside service sys schemes ciphers iteration g id srv
          (getting id password req_body) s (id, e) (election-find id s e there) refl
      ∙ get_messages-ok outside service sys schemes ciphers iteration g s (id, e) e.channel.messages
          body (ap (λ (x : Entry). ok x.channel.messages) (current-find id s e e there)) framed

  -- On a server that posts messages, a POST of the bytes of a message to an election answers 200,
  -- and a GET after it answers a body from which `ReadVector` and `MessageFromBytes` read the
  -- messages of before and then the posted one, when each of them, the posted one included, is a
  -- credential, a ballot or a decryption within the sizes of the wire format, and at most 0x7FFF
  -- bytes long.
  pub serve_mock-posted :
      (now later now' later' : Time) (drawn drawn' : Result Bytes) (id : Bytes)
      (password password' : Option Bytes) (body : Bytes) (req_body : Result Bytes) (srv : Server)
      (s : MockService) (e : Entry) (m : Message)
      → find id s.elections ≡ some e
      → srv.post ≡ true
      → Message.from_bytes body ≡ ok m
      → All IsShort (e.channel.messages ++ (m ∷ []))
      → (let serve_one =
            serve_mock outside schemes parse_time loaded conversion methods sys ciphers iteration
              g in
          let first = serve_one now later drawn (posting id password body) srv s in
          let second = serve_one now' later' drawn' (getting id password' req_body) srv first.1 in
          (answer : Bytes) × (ps : List Bytes) × (first.0
            ≡ ok (respond_text 200 (codes "Message posted")))
          × (second.0 ≡ ok (listing answer))
          × (read_vectors (length (e.channel.messages ++ (m ∷ []))) answer ≡ (ok ps, []))
          × (read_each ps ≡ ok (e.channel.messages ++ (m ∷ []))))
  serve_mock-posted now later now' later' drawn drawn' id password password' body req_body srv s e m
        there posts parsed short =
      let step = serve-posting now later drawn id password body srv s e m there posts parsed in
      let (answer, ps, framed, taken, each) =
        frames-read_vectors (e.channel.messages ++ (m ∷ [])) short in
      let entry : Entry = record e { channel = Message.post e.channel m } in
      let after =
        serve-getting now' later' drawn' id password' req_body srv (posted s id e m) entry answer
          (find-insert id entry s.elections) framed in
      (
        answer,
        ps,
        ap (λ (r : Result Response × MockService). r.0) step,
        ap
              (λ (r : Result Response × MockService).
                (serve now' later' drawn' (getting id password' req_body) srv r.1).0)
              step
            ∙ ap (λ (r : Result Response × MockService). r.0) after,
        taken,
        each,
      )
