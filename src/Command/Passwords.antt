-- ===== src/Command/Passwords.antt =====
-- main.go and server.go: the password hash from the mode `hash` to the mode `mock`.
use pebble_voting_app.Base.{
  ◌≡◌, refl, arith, [], ◌∷◌, List, Bool, true, false, Option, none, some, Error, Bytes, ok, All,
  IsByte, length, bytes_eq, bytes_eq_refl, codes, ◌==◌,
}
use pebble_voting_app.Command.Hex
use pebble_voting_app.Command.{
  printed, listening, Flags, line, farewell, hash_mode, mock_mode, main,
}
use pebble_voting_app.Server.{Server, Request}
use pebble_voting_app.Server.Responses.{Outside, authorized}
use pebble_voting_app.Server.MockService.{new_mock_server}

new_mock_server-hashed :
    (url pass_hash : Bytes)
    → length pass_hash ≡ 32
    → new_mock_server url pass_hash
      ≡ ok (
        record { pass_hash = pass_hash; create = true; post = true },
        record { elections = []; ids = []; url = url },
      )
unfolding new_mock_server
new_mock_server-hashed url pass_hash wide = rw wide refl

length-encode : (bs : Bytes) → length bs ≡ 32 → (length (Hex.encode_to_string bs) == 0) ≡ false
unfolding Hex.encode_to_string
length-encode [] h = absurd (omega (arith, h))
length-encode (b ∷ bs) h = ground arith

module _ (outside : Outside) where
  main-hash :
      (f : Flags) (rest : List Bytes) (input : Bytes) (stopped : Option Error)
      → f.pass_hash ≡ []
      → f.args ≡ codes "hash" ∷ rest
      → main outside f (some input) (some input) stopped
        ≡ ok (
            printed (codes "Input: ")
            ∷ printed (10 ∷ codes "Confirm: ")
            ∷ printed (line [])
            ∷ printed (line (Hex.encode_to_string (outside.sha256 input)))
            ∷ [])
  unfolding main hash_mode
  main-hash f rest input stopped no_flag args = rw (no_flag, args, bytes_eq_refl input) refl

  main-mock :
      (pass_hash endpoint : Bytes) (rest : List Bytes) (input confirm : Option Bytes)
      (stopped : Option Error)
      → length pass_hash ≡ 32
      → All IsByte pass_hash
      → main outside
          (record {
            pass_hash = Hex.encode_to_string pass_hash;
            args = codes "mock" ∷ endpoint ∷ rest;
          })
          input
          confirm
          stopped
        ≡ ok (
            printed (line (codes "Starting mock server..."))
            ∷ listening endpoint
                (record { pass_hash = pass_hash; create = true; post = true })
                (record { elections = []; ids = []; url = endpoint })
            ∷ farewell outside stopped)
  unfolding main mock_mode
  main-mock pass_hash endpoint rest input confirm stopped wide bytes =
      rw
        (
          length-encode pass_hash wide,
          Hex.decode_string-encode_to_string pass_hash bytes,
          new_mock_server-hashed endpoint pass_hash wide,
        )
        refl

  authorized-hashed :
      (h : Bytes) (create post : Bool) (req : Request)
      → length h ≡ 32
      → authorized outside (record { pass_hash = h; create = create; post = post }) req
        ≡ elim req.password [ none ↦ false | some pass ↦ bytes_eq (outside.sha256 pass) h ]
  unfolding authorized
  authorized-hashed h create post req wide = rw wide refl

  -- The mode `hash` prints a text for a password that is typed twice. The mode `mock` with that
  -- text for the flag starts a server without elections at the endpoint, and the server takes a
  -- request as authorized exactly if it has a password with the same SHA-256 hash. SHA-256 is
  -- assumed to give 32 bytes.
  pub main-passwords :
      (input endpoint : Bytes) (hash_rest mock_rest : List Bytes) (typed typed' : Option Bytes)
      (stopped stopped' : Option Error) (req : Request)
      → ((b : Bytes) → length (outside.sha256 b) ≡ 32)
      → ((b : Bytes) → All IsByte (outside.sha256 b))
      → (text : Bytes) × (srv : Server) × (main outside
            (record { pass_hash = []; args = codes "hash" ∷ hash_rest })
            (some input)
            (some input)
            stopped
          ≡ ok (
              printed (codes "Input: ")
              ∷ printed (10 ∷ codes "Confirm: ")
              ∷ printed (line [])
              ∷ printed (line text)
              ∷ []))
        × (main outside
              (record { pass_hash = text; args = codes "mock" ∷ endpoint ∷ mock_rest })
              typed
              typed'
              stopped'
            ≡ ok (
                printed (line (codes "Starting mock server..."))
                ∷ listening endpoint srv (record { elections = []; ids = []; url = endpoint })
                ∷ farewell outside stopped'))
        × (authorized outside srv req ≡ elim req.password [
          | none ↦ false
          | some pass ↦ bytes_eq (outside.sha256 pass) (outside.sha256 input)
        ])
  main-passwords input endpoint hash_rest mock_rest typed typed' stopped stopped' req wide bytes =
      let h = outside.sha256 input in
      let srv : Server = record { pass_hash = h; create = true; post = true } in
      (
        Hex.encode_to_string h,
        srv,
        main-hash _ hash_rest input stopped refl refl,
        main-mock h endpoint mock_rest typed typed' stopped' (wide input) (bytes input),
        authorized-hashed h true true req (wide input),
      )
