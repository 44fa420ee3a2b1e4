-- ===== src/Voting/Params.antt =====
-- pebble-core/voting/election_params.go: the phases of an election, and the wire format of its
-- parameters. A string is the slice of its bytes.
pub mod Phases
pub mod RoundTrip
use pebble_voting_app.Base.{
  ℕ, zero, suc, ◌%◌, [], ◌∷◌, List, Bool, false, ◌&&◌, ◌||◌, Bytes, Result, ok, err, length, ltb,
  if◌then◌else◌, ◌==◌, unknown_version,
}
use pebble_voting_app.Base.Int.{ℤ, ltb_ℤ, to_uint64, to_int64}
use pebble_voting_app.Util.Buffer.{
  Buffer, ◌>>=◌, ◌>>◌, pure, lift, written, run, read_uint32, read_uint64, read_vector, read_byte,
  read_remaining, write, write_uint32, write_uint64, write_vector, write_byte,
}
use pebble_voting_app.Structs.EligibilityList
use pebble_voting_app.Structs.EligibilityList.{EligibilityList}

-- `time.Time`: the seconds since the Unix epoch, and the nanoseconds within the second.
pub record Time : Type 0 where
  pub unix : ℤ
  pub nanos : ℕ

-- t.Before(u)
unfoldable pub before : Time → Time → Bool
before t u = ltb_ℤ t.unix u.unix || (if ltb_ℤ u.unix t.unix then false else ltb t.nanos u.nanos)

-- time.Unix(s, 0)
abbrev pub at_second : ℤ → Time
at_second s = record { unix = s; nanos = 0 }

pub data ElectionPhase : Type 0 where
  setup cred_gen cast tally end : ElectionPhase

-- The constants are numbered in this order.
abbrev pub number : ElectionPhase → ℕ
number setup = 0
number cred_gen = 1
number cast = 2
number tally = 3
number end = 4

pub record ElectionParams : Type 0 where
  pub version : ℕ
  pub cast_start : Time
  pub tally_start : Time
  pub tally_end : Time
  pub max_vdf_difficulty : ℕ
  pub voting_method : Bytes
  pub title : Bytes
  pub description : Bytes
  pub choices : List Bytes
  pub eligibility_list : EligibilityList

-- `now` is what `time.Now()` gives.
unfoldable pub phase : (now : Time) → ElectionParams → ElectionPhase
phase now p =
    if before now p.cast_start
    then cred_gen
    else if before now p.tally_start
    then cast
    else if before now p.tally_end
    then tally
    else end

-- The loop over the choices.
unfoldable pub write_vectors : List Bytes → Buffer (Unit {0})
write_vectors [] = pure tt
write_vectors (c ∷ cs) = do write_vector c; write_vectors cs

unfoldable pub bytes : ElectionParams → Result Bytes
bytes p = written (
    (do
      write_uint32 p.version
      write_uint64 (to_uint64 p.cast_start.unix)
      write_uint64 (to_uint64 p.tally_start.unix)
      write_uint64 (to_uint64 p.tally_end.unix)
      write_uint64 p.max_vdf_difficulty
      write_vector p.voting_method
      write_vector p.title
      write_vector p.description
      write_byte (length p.choices % 256)
      write_vectors p.choices
      write (EligibilityList.bytes p.eligibility_list))
      [])

-- The loop that fills a slice of n strings.
unfoldable pub read_vectors : ℕ → Buffer (List Bytes)
read_vectors zero = pure []
read_vectors (suc n) = do c ← read_vector; cs ← read_vectors n; pure (c ∷ cs)

abbrev pub check_version : ℕ → Buffer (Unit {0})
check_version v = if v == 0 then pure tt else lift (err unknown_version)

fields : Buffer ElectionParams
fields = do
  version ← read_uint32
  check_version version
  cast_start ← read_uint64
  tally_start ← read_uint64
  tally_end ← read_uint64
  max_vdf_difficulty ← read_uint64
  voting_method ← read_vector
  title ← read_vector
  description ← read_vector
  num_choices ← read_byte
  choices ← read_vectors num_choices
  rest ← read_remaining
  eligibility_list ← lift (EligibilityList.from_bytes rest)
  pure (record {
    version = version;
    cast_start = at_second (to_int64 cast_start);
    tally_start = at_second (to_int64 tally_start);
    tally_end = at_second (to_int64 tally_end);
    max_vdf_difficulty = max_vdf_difficulty;
    voting_method = voting_method;
    title = title;
    description = description;
    choices = choices;
    eligibility_list = eligibility_list;
  })

unfoldable pub from_bytes : Bytes → Result ElectionParams
unfolding fields
from_bytes b = run fields b
