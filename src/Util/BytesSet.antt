-- ===== src/Util/BytesSet.antt =====
-- pebble-core/util/bytes_set.go: a set of byte slices in an open-addressing table.
pub mod Membership
pub mod Vacancies
pub mod Filling
pub mod Resizing
pub mod Sets
use Prim.Native.Nat.{bit_and, bit_xor}
use mathlib.Core.List.{foldl}
use pebble_voting_app.Base.{
  ℕ, zero, suc, ◌+◌, ◌-◌, ◌*◌, ◌/◌, ◌%◌, ◌^◌, [], ◌∷◌, List, Bool, true, false, not, ◌||◌, Bytes,
  Result, ok, panic, stuck, none, some, length, get_elem?, set, replicate, bytes_eq, ltb, leb, ◌==◌,
  if◌then◌else◌, ◌>>=◌,
}

pub record Bucket : Type 0 where
  pub value : Bytes
  pub filled : Bool

pub record BytesSet : Type 0 where
  pub v : List Bucket
  pub len : ℕ

-- The zero value.
abbrev pub empty : BytesSet
empty = record { v = []; len = 0 }

-- Clear
abbrev pub clear : BytesSet → BytesSet
clear s = record s { v = []; len = 0 }

abbrev pub vacant : Bucket
vacant = record { value = []; filled = false }

-- An int is its 64-bit pattern, and `h >> 24` keeps the sign.
abbrev shift_right_24 : ℕ → ℕ
shift_right_24 h = if ltb h (2 ^ 63) then h / 2 ^ 24 else h / 2 ^ 24 + (2 ^ 64 - 2 ^ 40)

abbrev mix : ℕ → ℕ → ℕ
mix h b = let g = (h + b) * 16777619 % 2 ^ 64 in bit_xor g (shift_right_24 g)

unfoldable pub hash_bytes : Bytes → ℕ
hash_bytes p = foldl mix 12345 p

-- The probe of `Contains`. The table has a vacant bucket, so its length is enough fuel.
unfoldable pub probe : ℕ → List Bucket → Bytes → ℕ → Result Bool
probe zero v p i = stuck
probe (suc fuel) v p i =
    let rest = probe fuel v p (bit_and (i + 1) (length v - 1)) in
    elim (get_elem? v i) [
      | none ↦ panic
      | some b ↦
          if not b.filled || not (hash_bytes b.value == hash_bytes p)
          then ok false
          else if bytes_eq p b.value
          then ok true
          else rest
    ]

unfoldable pub contains : BytesSet → Bytes → Result Bool
unfolding probe
contains s p =
    if s.len == 0
    then ok false
    else probe (suc (length s.v)) s.v p (bit_and (hash_bytes p) (length s.v - 1))

-- The loop of `Put`: the first vacant bucket takes the value.
unfoldable pub place : ℕ → BytesSet → Bytes → ℕ → Result BytesSet
place zero s p i = stuck
place (suc fuel) s p i =
    let rest = place fuel s p (bit_and (i + 1) (length s.v - 1)) in
    elim (get_elem? s.v i) [
      | none ↦ panic
      | some b ↦
          if b.filled
          then rest
          else ok (record { v = set s.v i (record { value = p; filled = true }); len = s.len + 1 })
    ]

-- `Put` where no resize is due.
unfoldable pub put_here : BytesSet → Bytes → Result BytesSet
unfolding place
put_here s p = place (suc (length s.v)) s p (bit_and (hash_bytes p) (length s.v - 1))

-- `Put` as the loop of `resize` calls it. The new table is twice as long, so that no further resize
-- is due; the model is `stuck` if one were.
unfoldable pub put_again : BytesSet → Bytes → Result BytesSet
unfolding put_here
put_again s p = if leb (length s.v) (s.len * 2) then stuck else put_here s p

-- The loop of `resize` over the old table.
unfoldable pub rehash : List Bucket → BytesSet → Result BytesSet
unfolding put_again
rehash [] s = ok s
rehash (b ∷ bs) s = do s' ← (if b.filled then put_again s b.value else ok s); rehash bs s'

unfoldable pub resize : BytesSet → Result BytesSet
unfolding rehash
resize s =
    if length s.v == 0
    then ok (record { v = replicate 16 vacant; len = 0 })
    else rehash s.v (record { v = replicate (length s.v * 2) vacant; len = 0 })

unfoldable pub put : BytesSet → Bytes → Result BytesSet
unfolding resize put_here
put s p = do s' ← (if leb (length s.v) (s.len * 2) then resize s else ok s); put_here s' p
