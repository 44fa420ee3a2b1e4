-- ===== src/Server/MockService/Reachable.antt =====
-- mock_service.go and server.go: the states that a mock server comes to.
use pebble_voting_app.Base.{ℕ, List, Bool, ◌≡◌, Bytes, Result, ok}
use pebble_voting_app.Base.Exec.{Exec}
use pebble_voting_app.Pubkey.{Schemes}
use pebble_voting_app.Anoncred.{CredentialSystem}
use pebble_voting_app.Anoncred.Gnark.{Gnark}
use pebble_voting_app.Structs.EncryptedBallot.Sealing.{Ciphers}
use pebble_voting_app.Vdf.{Vdf}
use pebble_voting_app.Vdf.Pietrzak.{PietrzakVdf}
use pebble_voting_app.Voting.Params.{ElectionParams, Time}
use pebble_voting_app.Server.{Server, Request, Response}
use pebble_voting_app.Server.Handler.{serve_http}
use pebble_voting_app.Server.Responses.{Outside}
use pebble_voting_app.Server.Handler.Access.{serve_http-holds}
use pebble_voting_app.Server.MockService.{MockService, mock_service, new_mock_server}
use pebble_voting_app.Server.MockService.Invariant.{
  IsConsistent, new_mock_server-IsConsistent, create-IsConsistent, post-IsConsistent,
}

module _ (outside : Outside) (schemes : Schemes) (parse_time : Bytes → Result Time) (loaded : Bool)
    (conversion : ElectionParams → ℕ) (methods : PietrzakVdf → Vdf) (sys : CredentialSystem)
    (ciphers : Ciphers) (iteration : List sys.PublicCredential → List sys.PublicCredential)
    (g : Gnark) where
  -- A request to the mock service; `drawn` is what RandomId would give to `Create`.
  unfoldable pub serve_mock :
      (now later : Time) → (drawn : Result Bytes) → Request → Server → Exec MockService Response
  serve_mock now later drawn req srv s =
      serve_http outside (mock_service schemes parse_time loaded conversion methods drawn) sys
        schemes ciphers iteration g now later srv req s

  -- A mock server starts, and then answers one request after the other. With each come what the
  -- clock and the random source give.
  pub data Reachable : Server → MockService → Type 0 where
    start :
        (url pass_hash : Bytes) (srv : Server) (s : MockService)
        → new_mock_server url pass_hash ≡ ok (srv, s)
        → Reachable srv s
    request :
        (now later : Time) (drawn : Result Bytes) (req : Request) (srv : Server) (s : MockService)
        → Reachable srv s
        → Reachable srv (serve_mock now later drawn req srv s).1

  -- In every state that a mock server reaches, each election stands under the code of its
  -- channel's id, with the channel's parameters, and each administrator's id that is in use leads
  -- to an election.
  pub Reachable-IsConsistent : (srv : Server) (s : MockService) → Reachable srv s → IsConsistent s
  unfolding serve_mock
  Reachable-IsConsistent srv s (start url pass_hash _ _ made) =
      new_mock_server-IsConsistent url pass_hash srv s made
  Reachable-IsConsistent srv _ (request now later drawn req _ s r) =
      serve_http-holds outside (mock_service schemes parse_time loaded conversion methods drawn) sys
        schemes ciphers iteration g IsConsistent IsConsistent (λ s' h. h) srv req now later s
        (λ may params s' h.
          create-IsConsistent schemes parse_time loaded conversion methods drawn params s' h)
        (λ may ref m s' h. post-IsConsistent ref m s' h) (Reachable-IsConsistent srv s r)
