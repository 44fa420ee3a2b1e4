-- ===== src/Runs/Servers.antt =====
-- Examples for the server and its client: a mock server with one election.
use pebble_voting_app.Base.{
  [], ◌∷◌, List, true, false, none, some, ◌≡◌, ◌>>=◌, refl, ap, subst, ok_injective, bytes_eq_refl,
  Bytes, Result, ok, err, foreign, arith, replicate, length, codes,
}
use pebble_voting_app.Base32.{encode, symbol}
use pebble_voting_app.Pubkey.{Schemes}
use pebble_voting_app.Structs.CredentialMessage
use pebble_voting_app.Structs.CredentialMessage.{CredentialMessage}
use pebble_voting_app.Voting.Params.{Time, read_vectors}
use pebble_voting_app.Voting.Message.{tagged, of_credential, new_mock, bytes, from_bytes}
use pebble_voting_app.Voting.Message.RoundTrip.{Postable}
use pebble_voting_app.Server.{Server, Request, respond_text, post_method}
use pebble_voting_app.Server.Frames.{read_each}
use pebble_voting_app.Server.Handler.{serve_http}
use pebble_voting_app.Server.Responses.{Outside, authorized}
use pebble_voting_app.Server.Handler.Access.{serve_http-keeps}
use pebble_voting_app.Server.MockService.{MockService, Entry, mock_service, find}
use pebble_voting_app.Server.MockService.Reachable.{serve_mock}
use pebble_voting_app.Server.MockService.Log.{Grows, serve_mock-Grows}
use pebble_voting_app.Server.Handler.Messages.{posting, getting, listing}
use pebble_voting_app.Server.MockService.Posting.{serve_mock-posted}
use pebble_voting_app.Runs.{plain, keys, toy_ciphers, toy_vdf, params, election, at}
use pebble_voting_app.Runs.Codes.{constant}
use pebble_voting_app.Runs.Credentials.{toy}

abbrev pub schemes : Schemes
schemes = record keys { sha256 = constant }

-- A password that is not 32 sevens, as `constant` gives, is no password.
abbrev pub outside : Outside
outside = record {
  error_text = λ e. [];
  marshal = λ o. ok [];
  decode = λ body. err foreign;
  atoi = λ s. err foreign;
  sha256 = constant;
}

abbrev pub parse : Bytes → Result Time
parse s = ok (at (length s))

abbrev id : Bytes
id = encode (1 ∷ [])

-- A server with one election, which has no message yet.
abbrev pub server : Server
server = record { pass_hash = []; create = true; post = true }

abbrev pub entry : Entry
entry = record { election = election; channel = new_mock (1 ∷ []) params }

abbrev pub running : MockService
running = record { elections = (id, entry) ∷ []; ids = (7 ∷ [], id) ∷ []; url = codes "a" }

abbrev pub every : List Bytes → List Bytes
every ps = ps

-- A credential message with empty vectors.
abbrev body : Bytes
body = 1 ∷ 0 ∷ 0 ∷ []

abbrev locked : Server
locked = record { pass_hash = replicate 32 8; create = true; post = false }

abbrev pub to_create : Request
to_create = record {
  method = post_method;
  path = codes "/create";
  password = some (1 ∷ []);
  body = ok [];
}

serve_http-keeps_example :
    (serve_http outside
      (mock_service schemes parse true (λ p. 1) (λ v. toy_vdf) (ok (2 ∷ [])))
      plain
      schemes
      toy_ciphers
      every
      toy
      (at 0)
      (at 0)
      locked
      to_create
      running).1
    ≡ running
unfolding authorized
serve_http-keeps_example =
    serve_http-keeps outside (mock_service schemes parse true (λ p. 1) (λ v. toy_vdf) (ok (2 ∷ [])))
      plain schemes toy_ciphers every toy (at 0) (at 0) locked to_create running refl

abbrev nothing : CredentialMessage
nothing = record { credential = []; public_key = []; signature = [] }

short : CredentialMessage.Fits nothing
short = record { credential = omega arith; public_key = omega arith }

parsed_one : from_bytes body ≡ ok (of_credential nothing)
unfolding from_bytes
parsed_one =
    ap (λ (r : Result CredentialMessage). r >>= λ m. ok (of_credential m))
      (CredentialMessage.from_bytes-layout nothing short)

written_one : bytes (of_credential nothing) ≡ ok body
unfolding bytes
written_one = ap (tagged 1) (CredentialMessage.bytes-ok nothing short)

abbrev posting_one : Request
posting_one = posting id none body

serve_mock-Grows_example :
    Grows running
      (serve_mock outside schemes parse true
        (λ p. 1)
        (λ v. toy_vdf)
        plain
        toy_ciphers
        every
        toy
        (at 0)
        (at 0)
        (ok (2 ∷ []))
        posting_one
        server
        running).1
unfolding find encode symbol
serve_mock-Grows_example =
    serve_mock-Grows schemes parse true (λ p. 1) (λ v. toy_vdf) outside plain toy_ciphers every toy
      (at 0) (at 0) (ok (2 ∷ [])) posting_one server running
      λ i e. subst (λ x. find (encode x) running.elections ≡ none) (ok_injective e) refl

serve_mock-posted_example :
    (let serve_one =
        serve_mock outside schemes parse true
          (λ p. 1)
          (λ v. toy_vdf)
          plain
          toy_ciphers
          every
          toy
          (at 0)
          (at 0)
          (ok (2 ∷ [])) in
      let first = serve_one posting_one server running in
      let second = serve_one (getting id none (ok [])) server first.1 in
      let m = of_credential nothing in
      (answer : Bytes) × (ps : List Bytes) × (first.0
        ≡ ok (respond_text 200 (codes "Message posted")))
      × (second.0 ≡ ok (listing answer))
      × (read_vectors 1 answer ≡ (ok ps, []))
      × (read_each ps ≡ ok (m ∷ [])))
unfolding find
serve_mock-posted_example =
    serve_mock-posted outside schemes parse true (λ p. 1) (λ v. toy_vdf) plain toy_ciphers every toy
      (at 0) (at 0) (at 0) (at 0) (ok (2 ∷ [])) (ok (2 ∷ [])) id none none body (ok []) server
      running entry (of_credential nothing) (rw (find, bytes_eq_refl) refl) refl parsed_one
      ((Postable.credential nothing short, body, written_one, omega arith), tt)
