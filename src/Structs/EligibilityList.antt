-- ===== src/Structs/EligibilityList.antt =====
-- pebble-core/voting/structs/eligibility_list.go: the keys that may vote. The map from a key's hash
-- to the voter's id commitment is an association list; `none` is Go's nil map.
pub mod Invariant
pub mod Decoding
use pebble_voting_app.Base.{
  ℕ, zero, suc, [], ◌∷◌, ◌++◌, List, Option, none, some, Bool, true, false, Bytes, Result, ok, err,
  panic, stuck, length, bytes_eq, if◌then◌else◌, ◌==◌, duplicate_key, unknown_magic, replicate,
  ◌>>=◌,
}
use pebble_voting_app.Util.Buffer.{Buffer, read_uint32, read32, be32, continue, run}

abbrev pub ell_magic : ℕ
ell_magic = 0x454c4c01

abbrev pub IdMap : Type 0
IdMap = List (Bytes × Bytes)

pub record EligibilityList : Type 0 where
  pub public_key_hashes : List Bytes
  pub id_commitments : Option IdMap

abbrev pub new : EligibilityList
new = record { public_key_hashes = []; id_commitments = some [] }

unfoldable pub lookup : Bytes → IdMap → Option Bytes
lookup k [] = none
lookup k ((j, v) ∷ m) = if bytes_eq j k then some v else lookup k m

-- Reading a nil map finds nothing.
abbrev pub get : Option IdMap → Bytes → Option Bytes
get none k = none
get (some m) k = lookup k m

-- Writing to a nil map panics. The key is new, so the entry goes in front.
abbrev pub put : Option IdMap → Bytes → Bytes → Result (Option IdMap)
put none k v = panic
put (some m) k v = ok (some ((k, v) ∷ m))

abbrev pub add_if_new :
    EligibilityList → Bytes → Bytes → Option Bytes → Result (EligibilityList × Bool)
add_if_new list pkh id_com (some old) = ok (list, false)
add_if_new list pkh id_com none = do
  m ← put list.id_commitments pkh id_com
  ok (record { public_key_hashes = list.public_key_hashes ++ (pkh ∷ []); id_commitments = m }, true)

unfoldable pub add : EligibilityList → Bytes → Bytes → Result (EligibilityList × Bool)
add list pkh id_com = add_if_new list pkh id_com (get list.id_commitments pkh)

-- The zero HashValue stands beside a false `ok`.
abbrev pub or_zero : Option Bytes → Bytes × Bool
or_zero none = (replicate 32 0, false)
or_zero (some v) = (v, true)

unfoldable pub id_commitment : EligibilityList → Bytes → Bytes × Bool
id_commitment list pkh = or_zero (get list.id_commitments pkh)

unfoldable pub contains : EligibilityList → Bytes → Bool
contains list pkh = (or_zero (get list.id_commitments pkh)).1

-- One round of the loop in `Bytes` for each key.
unfoldable pub entries : EligibilityList → List Bytes → Bytes
entries list [] = []
entries list (pkh ∷ rest) = pkh ++ ((id_commitment list pkh).0 ++ entries list rest)

unfoldable pub bytes : EligibilityList → Bytes
bytes list = be32 ell_magic ++ entries list list.public_key_hashes

added : Result (EligibilityList × Bool) → Result EligibilityList
added (ok (list, true)) = ok list
added (ok (list, false)) = err duplicate_key
added (err e) = err e
added panic = panic
added stuck = stuck

-- The loop of `FromBytes`. A round takes 64 bytes, so the length of the input is enough fuel.
unfoldable pub read_entries : ℕ → EligibilityList → Buffer EligibilityList
unfolding added
read_entries fuel list [] = (ok list, [])
read_entries zero list (b ∷ s) = (stuck, b ∷ s)
read_entries (suc fuel) list (b ∷ s) = continue (read32 (b ∷ s)) λ pkh s1.
    continue (read32 s1)
      λ id_com s2. continue (added (add list pkh id_com), s2) λ list' s3. read_entries fuel list' s3

-- `FromBytes` drops what the receiver held, and leaves it with a nil map.
abbrev pub cleared : EligibilityList
cleared = record { public_key_hashes = []; id_commitments = none }

unfoldable pub from_bytes : Bytes → Result EligibilityList
from_bytes p =
    run
      (λ s0.
        continue (read_uint32 s0) λ m s.
          if m == ell_magic then read_entries (length s) cleared s else (err unknown_magic, s))
      p
