-- ===== src/Command.antt =====
-- pebble-core/cmd/server/main.go: the command, as the list of what it prints and starts.
pub mod Hex
pub mod Passwords
use pebble_voting_app.Base.{
  [], ◌∷◌, ◌++◌, List, not, Option, none, some, Error, Bytes, Result, ok, err, panic, stuck, codes,
  bytes_eq, if◌then◌else◌, ◌==◌, ◌>>=◌, length,
}
use pebble_voting_app.Command.Hex
use pebble_voting_app.Server.{Server}
use pebble_voting_app.Server.Responses.{Outside}
use pebble_voting_app.Server.MockService.{MockService, new_mock_server}

pub data Action : Type 0 where
  printed : (text : Bytes) → Action
  listening : (endpoint : Bytes) → Server → MockService → Action

-- The flag and the arguments; `flag.Arg` of a missing one is empty.
pub record Flags : Type 0 where
  pub pass_hash : Bytes
  pub args : List Bytes

abbrev pub line : Bytes → Bytes
line text = text ++ (10 ∷ [])

abbrev pub arg_0 : List Bytes → Bytes
arg_0 [] = []
arg_0 (a ∷ rest) = a

abbrev pub arg_1 : List Bytes → Bytes
arg_1 [] = []
arg_1 (a ∷ rest) = arg_0 rest

module _ (outside : Outside) where
  -- The mode `hash`; `input` and `confirm` are what the terminal gives, none with an error.
  unfoldable pub hash_mode : (input confirm : Option Bytes) → List Action
  hash_mode none confirm = printed (codes "Input: ") ∷ []
  hash_mode (some i) none = printed (codes "Input: ") ∷ printed (10 ∷ codes "Confirm: ") ∷ []
  hash_mode (some i) (some c) =
      printed (codes "Input: ")
      ∷ printed (10 ∷ codes "Confirm: ")
      ∷ printed (line [])
      ∷ printed (
          if not (bytes_eq i c)
          then line (codes "Inputs don't match")
          else line (Hex.encode_to_string (outside.sha256 i)))
      ∷ []

  -- What is printed when ListenAndServe returns.
  abbrev pub farewell : (stopped : Option Error) → List Action
  farewell none = []
  farewell (some e) = printed (line (outside.error_text e)) ∷ []

  unfoldable pub mock_mode :
      (endpoint pass_hash : Bytes) → (stopped : Option Error) → Result (List Action)
  unfolding new_mock_server
  mock_mode endpoint pass_hash stopped = do
    (handler, service) ← new_mock_server endpoint pass_hash
    ok (
        printed (line (codes "Starting mock server..."))
        ∷ listening endpoint handler service
        ∷ farewell stopped)

  -- The flag as bytes.
  abbrev pub decode_hash : Flags → Result Bytes
  decode_hash f = if length f.pass_hash == 0 then ok [] else Hex.decode_string f.pass_hash

  abbrev pub in_mode :
      (args : List Bytes)
      → (input confirm : Option Bytes) → (stopped : Option Error) → Result Bytes
      → Result (List Action)
  in_mode args input confirm stopped panic = panic
  in_mode args input confirm stopped stuck = stuck
  in_mode args input confirm stopped (err e) =
      ok (printed (line (codes "Error decoding password hash:  " ++ outside.error_text e)) ∷ [])
  in_mode args input confirm stopped (ok pass_hash) =
      if bytes_eq (arg_0 args) (codes "hash")
      then ok (hash_mode input confirm)
      else if bytes_eq (arg_0 args) (codes "mock")
      then mock_mode (arg_1 args) pass_hash stopped
      else ok []

  unfoldable pub main :
      Flags → (input confirm : Option Bytes) → (stopped : Option Error) → Result (List Action)
  unfolding hash_mode mock_mode
  main f input confirm stopped = in_mode f.args input confirm stopped (decode_hash f)
