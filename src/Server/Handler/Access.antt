-- ===== src/Server/Handler/Access.antt =====
-- server.go: which requests can change the service's state.
use pebble_voting_app.Base.{
  ℕ, [], List, Bool, true, false, not, ◌&&◌, ◌||◌, ◌≡◌, refl, Bytes, Result, ok, err, panic, stuck,
  arith, codes, bytes_eq, if◌then◌else◌,
}
use pebble_voting_app.Base.Exec.{Exec}
use pebble_voting_app.Util.Slices.{get_suffix}
use pebble_voting_app.Pubkey.{Schemes}
use pebble_voting_app.Anoncred.{CredentialSystem}
use pebble_voting_app.Anoncred.Gnark.{Gnark}
use pebble_voting_app.Structs.EncryptedBallot.Sealing.{Ciphers}
use pebble_voting_app.Voting.Params.{Time}
use pebble_voting_app.Voting.Message.{Message}
use pebble_voting_app.Server.{ElectionService, Server, Request, Response}
use pebble_voting_app.Server.SetupParams.{ElectionSetupParams}
use pebble_voting_app.Server.Handler.{
  create_endpoint, setup_endpoint, election_endpoint, params_endpoint, get_messages, post_message,
  messages_endpoint, user_init_endpoint, serve_http,
}
use pebble_voting_app.Server.Responses.{Outside, is_get, is_post, handled, called, authorized}

-- `P` holds before a step, and `Q` is wanted after it.
module _ (outside : Outside) {S : Type 0} (P Q : S → Type 0) (keep : (s : S) → P s → Q s) where
  handled-holds :
      {A : Type 0} (status : ℕ) (prefix : Bytes) (r : Result A × S) (k : A → Exec S Response)
      → P r.1
      → ((a : A) (s : S) → P s → Q (k a s).1)
      → Q (handled outside status prefix r k).1
  unfolding handled
  handled-holds status prefix (ok a, s) k p h = h a s p
  handled-holds status prefix (err e, s) k p h = keep s p
  handled-holds status prefix (panic, s) k p h = keep s p
  handled-holds status prefix (stuck, s) k p h = keep s p

  called-holds :
      {A : Type 0} (r : Result A × S) (k : A → Exec S Response)
      → P r.1
      → ((a : A) (s : S) → P s → Q (k a s).1)
      → Q (called r k).1
  unfolding called
  called-holds (ok a, s) k p h = h a s p
  called-holds (err e, s) k p h = keep s p
  called-holds (panic, s) k p h = keep s p
  called-holds (stuck, s) k p h = keep s p

either_holds :
    {S : Type 0} (Q : S → Type 0) (b : Bool) (x y : Result Response × S)
    → (b ≡ true → Q x.1)
    → (b ≡ false → Q y.1)
    → Q (if b then x else y).1
either_holds Q true x y hx hy = hx refl
either_holds Q false x y hx hy = hy refl

module _ (outside : Outside) (service : ElectionService) (sys : CredentialSystem)
    (schemes : Schemes) (ciphers : Ciphers)
    (iteration : List sys.PublicCredential → List sys.PublicCredential) (g : Gnark) where
  open service use {State}

  -- May a request create an election, and may it post?
  abbrev pub may_create : Server → Request → Bool
  may_create srv req = is_post req.method && (srv.create && authorized outside srv req)

  abbrev pub may_post : Server → Request → Bool
  may_post srv req = is_post req.method && srv.post

  module _ (P Q : State → Type 0) (keep : (s : State) → P s → Q s) (srv : Server)
      (req : Request) where
    create_holds :
        (s : State)
        → (may_create srv req ≡ true
            → (params : ElectionSetupParams) (s' : State) → P s'
            → Q (service.create params s').1)
        → P s
        → Q (create_endpoint outside service sys schemes ciphers iteration g srv req s).1
    unfolding create_endpoint
    create_holds s h p =
        either_holds Q (not (is_post req.method)) _ _ (λ no. keep s p)
          λ is.
            either_holds Q (not srv.create) _ _ (λ no. keep s p)
              λ creates.
                either_holds Q (not (authorized outside srv req)) _ _ (λ no. keep s p)
                  λ auth. handled-holds outside P Q keep 400 [] _ _ p λ params s1 p1.
                    handled-holds outside Q Q (λ x q. q) 500 [] _ _ (h (ground arith) params s1 p1)
                      λ u s2 q. q

    setup_holds :
        (admin_id : Bytes) (s : State)
        → P s
        → Q (setup_endpoint outside service sys schemes ciphers iteration g admin_id srv req s).1
    unfolding setup_endpoint
    setup_holds admin_id s p =
        either_holds Q (not (is_get req.method)) _ _ (λ no. keep s p)
          λ is.
            either_holds Q (not srv.create) _ _ (λ no. keep s p)
              λ creates.
                either_holds Q (not (authorized outside srv req)) _ _ (λ no. keep s p)
                  λ auth. handled-holds outside P Q keep 500 [] _ _ p λ info s1 p1. keep s1 p1

    election_holds :
        (id : Bytes) (now later : Time) (s : State)
        → P s
        → Q
            (election_endpoint outside service sys schemes ciphers iteration g id now later srv req
              s).1
    unfolding election_endpoint
    election_holds id now later s p =
        either_holds Q (not (is_get req.method)) _ _ (λ no. keep s p)
          λ is.
            handled-holds outside P Q keep 500 [] _ _ p
              λ ref s1 p1. handled-holds outside P Q keep 500 [] _ _ p1 λ prog s2 p2. keep s2 p2

    params_holds :
        (id : Bytes) (s : State)
        → P s
        → Q (params_endpoint outside service sys schemes ciphers iteration g id srv req s).1
    unfolding params_endpoint
    params_holds id s p =
        either_holds Q (not (is_get req.method)) _ _ (λ no. keep s p)
          λ is.
            handled-holds outside P Q keep 500 [] _ _ p
              λ ref s1 p1. called-holds outside P Q keep _ _ p1 λ body s2 p2. keep s2 p2

    messages_holds :
        (id : Bytes) (s : State)
        → (may_post srv req ≡ true
            → (ref : service.Ref) (m : Message) (s' : State) → P s'
            → Q (service.post ref m s').1)
        → P s
        → Q (messages_endpoint outside service sys schemes ciphers iteration g id srv req s).1
    unfolding messages_endpoint get_messages post_message
    messages_holds id s h p = handled-holds outside P Q keep 500 [] _ _ p λ ref s1 p1.
        either_holds Q (is_get req.method) _ _
          (λ is.
            handled-holds outside P Q keep 500 [] _ _ p1
              λ msgs s2 p2. called-holds outside P Q keep _ _ p2 λ body s3 p3. keep s3 p3)
          λ other.
            either_holds Q (is_post req.method) _ _
              (λ is.
                either_holds Q (not srv.post) _ _ (λ no. keep s1 p1)
                  λ posts. handled-holds outside P Q keep 400 [] _ _ p1 λ b s2 p2.
                    handled-holds outside P Q keep 400 [] _ _ p2 λ m s3 p3.
                      handled-holds outside Q Q (λ x q. q) 500 [] _ _ (h (ground arith) ref m s3 p3)
                        λ u s4 q. q)
              λ no. keep s1 p1

    user_init_holds :
        (depth_str : Bytes) (s : State)
        → P s
        → Q
            (user_init_endpoint outside service sys schemes ciphers iteration g depth_str srv req
              s).1
    unfolding user_init_endpoint
    user_init_holds depth_str s p =
        either_holds Q (not (is_get req.method)) _ _ (λ no. keep s p)
          λ is. handled-holds outside P Q keep 400 _ _ _ p λ depth s1 p1.
            handled-holds outside P Q keep 500 _ _ _ p1 λ params s2 p2.
              handled-holds outside P Q keep 500 _ _ _ p2 λ pk s3 p3.
                handled-holds outside P Q keep 500 _ _ _ p3
                  λ vk s4 p4. handled-holds outside P Q keep 500 _ _ _ p4 λ body s5 p5. keep s5 p5

    -- What `Create` and `Post` keep where they may be called, a request keeps.
    pub serve_http-holds :
        (now later : Time) (s : State)
        → (bytes_eq req.path (codes "/create") && may_create srv req ≡ true
            → (params : ElectionSetupParams) (s' : State) → P s'
            → Q (service.create params s').1)
        → (may_post srv req ≡ true
            → (ref : service.Ref) (m : Message) (s' : State) → P s'
            → Q (service.post ref m s').1)
        → P s
        → Q (serve_http outside service sys schemes ciphers iteration g now later srv req s).1
    unfolding serve_http
    serve_http-holds now later s hc hp p =
        let path = req.path in
        either_holds Q (bytes_eq path (codes "/create")) _ _
          (λ at. create_holds s (λ may. hc (ground arith)) p)
          λ not_create.
            either_holds Q (get_suffix path (codes "/setup/")).1 _ _ (λ at. setup_holds _ s p)
              λ n1.
                either_holds Q (get_suffix path (codes "/election/")).1 _ _
                  (λ at. election_holds _ now later s p)
                  λ n2.
                    either_holds Q (get_suffix path (codes "/params/")).1 _ _
                      (λ at. params_holds _ s p)
                      λ n3.
                        either_holds Q (get_suffix path (codes "/messages/")).1 _ _
                          (λ at. messages_holds _ s hp p)
                          λ n4.
                            either_holds Q (get_suffix path (codes "/user-init/")).1 _ _
                              (λ at. user_init_holds _ s p) λ n5. keep s p

  -- A request changes the service's state only if it is a POST, and either its path is /create,
  -- the server creates elections and the request is authorized, or the server posts messages.
  pub serve_http-keeps :
      (now later : Time) (srv : Server) (req : Request) (s : State)
      → ((bytes_eq req.path (codes "/create") && may_create srv req) || may_post srv req) ≡ false
      → (serve_http outside service sys schemes ciphers iteration g now later srv req s).1 ≡ s
  serve_http-keeps now later srv req s h =
      serve_http-holds (λ s'. s' ≡ s) (λ s'. s' ≡ s) (λ s' e. e) srv req now later s
        (λ may. absurd (ground arith)) (λ may. absurd (ground arith)) refl
