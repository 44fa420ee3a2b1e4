-- ===== src/Base32.antt =====
-- pebble-core/base32c/base32.go: the base-32 code. A string is the list of its code points.
pub mod Digits
pub mod RoundTrip
pub mod Pending
pub mod Completed
pub mod Accepted
pub mod Check
use Prim.Native.Nat.{bit_and, bit_or}
use pebble_voting_app.Base.{
  ℕ, zero, suc, ◌+◌, ◌-◌, ◌*◌, ◌/◌, ◌%◌, ◌^◌, [], ◌∷◌, ◌++◌, List, Option, none, some, Bytes,
  Result, ok, err, invalid_char, nonzero_padding, get_elem?, leb, ltb, ◌==◌, if◌then◌else◌, codes,
}

abbrev pub alpha : Bytes
alpha = codes "0123456789ABCDEFGHJKLMNPQRTVWXYZ"

-- `alpha[d]` for a d that `& 31` keeps in range.
unfoldable pub symbol : ℕ → ℕ
symbol d = elim (get_elem? alpha d) [ none ↦ 0 | some c ↦ c ]

-- `decodeMap[c]`: the place in the alphabet, counted from `i`.
unfoldable pub place_of : Bytes → (i c : ℕ) → Option ℕ
place_of [] i c = none
place_of (a ∷ more) i c = let rest = place_of more (i + 1) c in if a == c then some i else rest

-- `u |= uint(b) << n`, on a 64-bit word.
abbrev pub join : (u n b : ℕ) → ℕ
join u n b = bit_or u (b * 2 ^ n % 2 ^ 64)

-- `for ; n >= 5; n -= 5`: n rounds are enough. The rest of the encoding is `k` at what is left.
unfoldable pub drain : ℕ → (u n : ℕ) → (k : ℕ → ℕ → Bytes) → Bytes
drain zero u n k = k u n
drain (suc fuel) u n k =
    let rest = drain fuel (u / 32) (n - 5) k in
    if leb 5 n then symbol (bit_and u 31) ∷ rest else k u n

-- `for ; n > 0; n -= 5`, whose n may end below 0.
unfoldable pub flush : ℕ → (u n : ℕ) → Bytes
flush zero u n = []
flush (suc fuel) u n =
    let rest = flush fuel (u / 32) (n - 5) in if ltb 0 n then symbol (bit_and u 31) ∷ rest else []

unfoldable pub encode_loop : (u n : ℕ) → Bytes → Bytes
encode_loop u n [] = flush n u n
encode_loop u n (b ∷ p) = drain (n + 8) (join u n b) (n + 8) (λ u' n'. encode_loop u' n' p)

unfoldable pub encode : Bytes → Bytes
unfolding encode_loop drain flush
encode p = encode_loop 0 0 p

-- `for ; n >= 8; n -= 8`, with the bytes appended to `buf`.
unfoldable pub fill :
    ℕ → (u n : ℕ) → (buf : Bytes) → (k : ℕ → ℕ → Bytes → Result Bytes) → Result Bytes
fill zero u n buf k = k u n buf
fill (suc fuel) u n buf k =
    let rest = fill fuel (u / 256) (n - 8) (buf ++ (u % 256 ∷ [])) k in
    if leb 8 n then rest else k u n buf

unfoldable pub decode_loop : (u n : ℕ) → (buf : Bytes) → Bytes → Result Bytes
decode_loop u n buf [] = if u == 0 then ok buf else err nonzero_padding
decode_loop u n buf (c ∷ s) = elim (place_of alpha 0 c) [
  | none ↦ err invalid_char
  | some d ↦ fill (n + 5) (join u n d) (n + 5) buf (λ u' n' buf'. decode_loop u' n' buf' s)
]

unfoldable pub decode : Bytes → Result Bytes
unfolding decode_loop fill
decode s = decode_loop 0 0 [] s
