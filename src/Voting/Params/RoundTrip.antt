-- ===== src/Voting/Params/RoundTrip.antt =====
-- election_params.go: `FromBytes` after `Bytes`.
use pebble_voting_app.Base.{
  ℕ, ◌%◌, ◌^◌, ◌≤◌, ◌<◌, ◌≡◌, refl, [], ◌∷◌, ◌++◌, List, arith, Bytes, ok, length, All,
  append_assoc, ◌>>=◌, append-nil,
}
use pebble_voting_app.Base.Int.{to_uint64, IsInt64, to_int64-to_uint64, to_uint64-lt}
use pebble_voting_app.Util.Buffer.{
  run_step, read_byte, be32, be64, write, write_byte, write_uint32, write_uint64, read_remaining,
}
use pebble_voting_app.Util.Buffer.Words.{read_uint32-be32, read_uint64-be64}
use pebble_voting_app.Util.Buffer.Vectors.{vector, max_vector, write_vector-ok, read_vector-vector}
use pebble_voting_app.Structs.EligibilityList
use pebble_voting_app.Structs.EligibilityList.{EligibilityList}
use pebble_voting_app.Voting.Params.{
  check_version, ElectionParams, at_second, write_vectors, read_vectors, bytes, from_bytes,
}

-- What the wire format can carry.
pub record Fits (p : ElectionParams) : Type 0 where
  pub version : p.version ≡ 0
  pub cast_start : IsInt64 p.cast_start.unix
  pub tally_start : IsInt64 p.tally_start.unix
  pub tally_end : IsInt64 p.tally_end.unix
  pub max_vdf_difficulty : p.max_vdf_difficulty < 2 ^ 64
  pub voting_method : length p.voting_method ≤ max_vector
  pub title : length p.title ≤ max_vector
  pub description : length p.description ≤ max_vector
  pub num_choices : length p.choices < 256
  pub choices : All (λ c. length c ≤ max_vector) p.choices

abbrev pub vectors : List Bytes → Bytes
vectors [] = []
vectors (c ∷ cs) = vector c ++ vectors cs

pub write_vectors-ok :
    (cs : List Bytes) (w : Bytes)
    → All (λ c. length c ≤ max_vector) cs
    → write_vectors cs w ≡ (ok tt, w ++ vectors cs)
unfolding write_vectors
write_vectors-ok [] w h = rw append-nil
write_vectors-ok (c ∷ cs) w h =
    rw (write_vector-ok c w h.0, write_vectors-ok cs (w ++ vector c) h.1, append_assoc)

pub read_vectors-vectors :
    (cs : List Bytes) (rest : Bytes)
    → All (λ c. length c ≤ max_vector) cs
    → read_vectors (length cs) (vectors cs ++ rest) ≡ (ok cs, rest)
unfolding read_vectors
read_vectors-vectors [] rest h = refl
read_vectors-vectors (c ∷ cs) rest h = rw (
  append_assoc (vector c) (vectors cs) rest,
  read_vector-vector c (vectors cs ++ rest) h.0,
  read_vectors-vectors cs rest h.1,
)

-- The part of the format behind the dates.
abbrev tail : ElectionParams → Bytes
tail p =
    vector p.voting_method
    ++ (vector p.title
        ++ (vector p.description
            ++ (length p.choices
                ∷ (vectors p.choices ++ EligibilityList.bytes p.eligibility_list))))

abbrev pub layout : ElectionParams → Bytes
layout p =
    be32 p.version
    ++ (be64 (to_uint64 p.cast_start.unix)
        ++ (be64 (to_uint64 p.tally_start.unix)
            ++ (be64 (to_uint64 p.tally_end.unix) ++ (be64 p.max_vdf_difficulty ++ tail p))))

pub bytes-ok : (p : ElectionParams) → Fits p → bytes p ≡ ok (layout p)
unfolding bytes write write_byte write_uint32 write_uint64
bytes-ok p h =
    let small : length p.choices % 256 ≡ length p.choices = omega (arith, h.num_choices) in
    simp (
      small,
      λ (w : Bytes). write_vector-ok p.voting_method w h.voting_method,
      λ (w : Bytes). write_vector-ok p.title w h.title,
      λ (w : Bytes). write_vector-ok p.description w h.description,
      λ (w : Bytes). write_vectors-ok p.choices w h.choices,
      append_assoc,
    )

version_passes : (v : ℕ) (s : Bytes) → v ≡ 0 → check_version v s ≡ (ok tt, s)
version_passes v s h = rw h

-- The dates without their nanoseconds.
abbrev pub truncated : ElectionParams → EligibilityList → ElectionParams
truncated p list = record p {
  cast_start = at_second p.cast_start.unix;
  tally_start = at_second p.tally_start.unix;
  tally_end = at_second p.tally_end.unix;
  eligibility_list = list;
}

pub from_bytes-layout :
    (p : ElectionParams)
    → Fits p
    → from_bytes (layout p) ≡ (
        EligibilityList.from_bytes (EligibilityList.bytes p.eligibility_list) >>= λ list.
        ok (truncated p list))
unfolding from_bytes read_byte read_remaining
from_bytes-layout p h =
    let list = EligibilityList.bytes p.eligibility_list in
    let l5 = vectors p.choices ++ list in
    let l4 = vector p.description ++ (length p.choices ∷ l5) in
    let l3 = vector p.title ++ l4 in
    let l2 = be64 p.max_vdf_difficulty ++ tail p in
    let l1 = be64 (to_uint64 p.tally_end.unix) ++ l2 in
    let l0 = be64 (to_uint64 p.tally_start.unix) ++ l1 in
    let dates = be64 (to_uint64 p.cast_start.unix) ++ l0 in
    run_step _ (read_uint32-be32 p.version dates (omega (arith, h.version))) (
      run_step _ (version_passes p.version dates h.version) (
        run_step _
          (read_uint64-be64 (to_uint64 p.cast_start.unix) l0 (to_uint64-lt p.cast_start.unix))
          (run_step _
            (read_uint64-be64 (to_uint64 p.tally_start.unix) l1 (to_uint64-lt p.tally_start.unix))
            (run_step _
              (read_uint64-be64 (to_uint64 p.tally_end.unix) l2 (to_uint64-lt p.tally_end.unix))
              (run_step _ (read_uint64-be64 p.max_vdf_difficulty (tail p) h.max_vdf_difficulty) (
                run_step _ (read_vector-vector p.voting_method l3 h.voting_method) (
                  run_step _ (read_vector-vector p.title l4 h.title) (
                    run_step _
                      (read_vector-vector p.description (length p.choices ∷ l5) h.description)
                      (run_step _ (read_vectors-vectors p.choices list h.choices) (
                        ground (
                          arith,
                          to_int64-to_uint64 p.cast_start.unix h.cast_start,
                          to_int64-to_uint64 p.tally_start.unix h.tally_start,
                          to_int64-to_uint64 p.tally_end.unix h.tally_end,
                        )))))))))))
