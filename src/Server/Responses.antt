-- ===== src/Server/Responses.antt =====
-- pebble-core/server/server.go: what `ServeHTTP` answers with, and the calls outside the repository.
use pebble_voting_app.Base.{
  ℕ, [], ◌++◌, List, Bool, true, false, Option, none, some, Bytes, Result, Error, ok, err, panic,
  stuck, length, codes, bytes_eq, ◌==◌, if◌then◌else◌,
}
use pebble_voting_app.Base.Int.{ℤ, pos, negsuc}
use pebble_voting_app.Base.Exec.{Exec}
use pebble_voting_app.Anoncred.Gnark.{Gnark}
use pebble_voting_app.Anoncred.AnonCred1.{AnonCred1, setup_circuit}
use pebble_voting_app.Voting.Params.{setup, cred_gen, cast, tally, end}
use pebble_voting_app.Voting.Election.{ElectionProgress}
use pebble_voting_app.Server.{
  Server, SetupInfo, setup_error, setup_in_progress, setup_done, Request, Method, get_method,
  post_method, Response, respond_text,
}
use pebble_voting_app.Server.SetupParams.{ElectionSetupParams}

-- The objects that are marshalled, with the fields that are set.
pub data Json : Type 0 where
  setup_json : (status message backend_id invitation : Bytes) → Json
  status_json : (status : Bytes) → Json
  progress_json : (status : Bytes) → (progress total : ℕ) → Json
  tally_json : (status : Bytes) → (progress total : ℕ) → (counts : Option (List ℕ)) → Json
  end_json : (status : Bytes) → (valid total : ℕ) → (counts : Option (List ℕ)) → Json
  keys_json : (proving_key verifying_key : Bytes) → Json

-- What the handler calls outside the repository: the text of an error, encoding/json,
-- strconv.Atoi and SHA-256.
pub record Outside : Type 0 where
  pub error_text : Error → Bytes
  pub marshal : Json → Result Bytes
  pub decode : (body : Result Bytes) → Result ElectionSetupParams
  pub atoi : Bytes → Result ℤ
  pub sha256 : Bytes → Bytes

abbrev pub not_allowed : Bytes
not_allowed = codes "Method not allowed"

abbrev pub is_get : Method → Bool
is_get get_method = true
is_get m = false

abbrev pub is_post : Method → Bool
is_post post_method = true
is_post m = false

-- The response of `authorized` when it returns false.
abbrev pub unauthorized : Response
unauthorized = record (respond_text 401 (codes "Unauthorized")) { authenticate = true }

-- The objects of `/setup/` and `/election/`. The fields that are not set are zero, and a nil map
-- of counts.
unfoldable pub setup_response : SetupInfo → Json
setup_response info = elim info.status [
  | setup_error ↦ setup_json (codes "SetupError") info.error [] []
  | setup_in_progress ↦ setup_json (codes "InProgress") [] [] []
  | setup_done ↦ setup_json (codes "Done") [] info.backend_id info.invitation
]

unfoldable pub progress_response : ElectionProgress → Json
progress_response prog = elim prog.phase [
  | setup ↦ status_json (codes "Setup")
  | cred_gen ↦ status_json (codes "CredGen")
  | cast ↦ progress_json (codes "Cast") prog.count prog.total
  | tally ↦ tally_json (codes "Tally") 0 0 none
  | end ↦ end_json (codes "End") 0 0 none
]

-- A negative depth makes `make` panic.
abbrev pub circuit_of : (g : Gnark) → ℤ → Result (AnonCred1 g)
circuit_of g (pos depth) = setup_circuit g depth
circuit_of g (negsuc n) = panic

module _ {S : Type 0} where
  -- A `Bytes` method, which returns no error.
  unfoldable pub called {ℓ} :
      {A : Type ℓ} → Result A × S → (A → Exec S Response) → Result Response × S
  called (ok a, s) k = k a s
  called (err e, s) k = (err e, s)
  called (panic, s) k = (panic, s)
  called (stuck, s) k = (stuck, s)

  abbrev pub respond : (status : ℕ) → (body : Bytes) → Exec S Response
  respond status body s = (ok (respond_text status body), s)

module _ (outside : Outside) where
  open outside use {error_text, marshal, atoi, sha256}

  unfoldable pub authorized : Server → Request → Bool
  authorized srv req =
      if length srv.pass_hash == 0
      then true
      else elim req.password [ none ↦ false | some pass ↦ bytes_eq (sha256 pass) srv.pass_hash ]

  abbrev pub marshalled : Result Bytes → Result Response
  marshalled (ok content) = ok (record {
    status = 200;
    content_type = some (codes "application/json");
    content_length = some (length content);
    authenticate = false;
    body = content;
  })
  marshalled (err e) = ok (respond_text 500 (error_text e))
  marshalled panic = panic
  marshalled stuck = stuck

  unfoldable pub respond_json : Json → Result Response
  respond_json o = marshalled (marshal o)

  module _ {S : Type 0} where
    -- A call whose error is answered with a status code; `prefix` stands in front of its text.
    unfoldable pub handled {ℓ} :
        {A : Type ℓ}
        → (status : ℕ) → (prefix : Bytes) → Result A × S
        → (A → Exec S Response)
        → Result Response × S
    handled status prefix (ok a, s) k = k a s
    handled status prefix (err e, s) k = (ok (respond_text status (prefix ++ error_text e)), s)
    handled status prefix (panic, s) k = (panic, s)
    handled status prefix (stuck, s) k = (stuck, s)
