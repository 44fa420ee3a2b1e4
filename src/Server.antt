-- ===== src/Server.antt =====
-- pebble-core/server: the HTTP server of elections. Requests are handled one after the other, each
-- from the service's state to a new one, beside the response or a panic.
pub mod Frames
pub mod SetupParams
pub mod MockService
pub mod Responses
pub mod Handler
use pebble_voting_app.Base.{
  ℕ, [], ◌∷◌, List, Option, none, some, Bool, Bytes, Result, Error, length, codes, true, false,
}
use pebble_voting_app.Base.Exec.{Exec}
use pebble_voting_app.Server.SetupParams.{ElectionSetupParams}
use pebble_voting_app.Voting.Message.{Message}
use pebble_voting_app.Voting.Election.{Election}

pub data SetupStatus : Type 0 where
  setup_error setup_in_progress setup_done : SetupStatus

pub record SetupInfo : Type 0 where
  pub status : SetupStatus
  pub error : Bytes
  pub backend_id : Bytes
  pub invitation : Bytes

-- The interface ElectionService, with the channels of its elections: `Ref` is a pointer to an
-- election. Reading a channel changes nothing.
pub record ElectionService : Type 1 where
  pub State : Type 0
  pub Ref : Type 0
  pub create : ElectionSetupParams → Exec State (Unit {0})
  pub setup : (admin_id : Bytes) → State → Result SetupInfo
  pub election : (backend_id : Bytes) → State → Result Ref
  pub value : Ref → State → Election
  pub get : Ref → State → Result (List Message)
  pub post : Ref → Message → Exec State (Unit {0})

pub record Server : Type 0 where
  pub pass_hash : Bytes
  pub create : Bool
  pub post : Bool

-- The parts of a request that are looked at: the password of a basic authentication, and what
-- io.ReadAll gives of the body.
pub data Method : Type 0 where
  get_method post_method other_method : Method

pub record Request : Type 0 where
  pub method : Method
  pub path : Bytes
  pub password : Option Bytes
  pub body : Result Bytes

-- A response with the headers that are set. `authenticate` stands for WWW-Authenticate.
pub record Response : Type 0 where
  pub status : ℕ
  pub content_type : Option Bytes
  pub content_length : Option ℕ
  pub authenticate : Bool
  pub body : Bytes

unfoldable pub respond_text : (status_code : ℕ) → (body : Bytes) → Response
respond_text status_code body = record {
  status = status_code;
  content_type = some (codes "text/plain");
  content_length = some (length body);
  authenticate = false;
  body = body;
}
