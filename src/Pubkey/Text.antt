-- ===== src/Pubkey/Text.antt =====
-- pebble-core/pubkey/pubkey.go: public keys as strings.
use pebble_voting_app.Base.{
  ℕ, zero, suc, ◌+◌, ◌-◌, ◌/◌, ◌%◌, leb, Bool-cases, Option-cases, inl, inr, ◌≡◌, refl, [], ◌∷◌,
  ◌++◌, true, ◌||◌, not, Bytes, Result, ok, err, length, take, ◌==◌, if◌then◌else◌, ◌>>=◌, All,
  IsByte, arith, codes, invalid_key_length, unknown_key_type,
}
use pebble_voting_app.Util.Slices.{has_prefix}
use pebble_voting_app.Util.Buffer.Returned.{returned, >>=-returned, if-returned}
use pebble_voting_app.Base32.{
  alpha, place_of, join, fill, decode_loop, decode, symbol, drain, encode_loop, encode,
}
use pebble_voting_app.Base32.Check.{check_encode, check_decode, check_decode-check_encode}
use pebble_voting_app.Pubkey.{Schemes, key_type_ed25519, key_type_tezos, new_public_key}

-- `Parse` behind `CheckDecode`: two bytes in front of at least one more.
abbrev pub ed25519_key : Bytes → Result Bytes
ed25519_key (a ∷ b ∷ c ∷ key) =
    if not (a == 238) || not (b == 78)
    then err unknown_key_type
    else ok (new_public_key key_type_ed25519 (c ∷ key))
ed25519_key p = err unknown_key_type

module _ (schemes : Schemes) where
  open schemes use {sha256, tezos_decode_key, tezos_key_string, tezos_unmarshal_text, tezos_marshal}

  unfoldable pub string : Bytes → Result Bytes
  string [] = err invalid_key_length
  string (t ∷ key) =
      if t == key_type_ed25519
      then ok (check_encode sha256 (238 ∷ 78 ∷ key))
      else if t == key_type_tezos
      then (do k ← tezos_decode_key key; ok (tezos_key_string k))
      else err unknown_key_type

  unfoldable pub parse : Bytes → Result Bytes
  parse s =
      if has_prefix s (codes "EPK")
      then (do p ← check_decode sha256 s; ed25519_key p)
      else if has_prefix s (codes "tz")
      then (do
        key ← tezos_unmarshal_text s
        bytes ← tezos_marshal key
        ok (new_public_key key_type_tezos bytes))
      else err unknown_key_type

-- The two bytes are chosen so that the code of what they begin begins with EPK.
encode-prefix : (p : Bytes) → has_prefix (encode (238 ∷ 78 ∷ p)) (codes "EPK") ≡ true
unfolding encode encode_loop drain symbol
encode-prefix p = refl

check_encode-prefix :
    (sha256 : Bytes → Bytes) (p : Bytes)
    → has_prefix (check_encode sha256 (238 ∷ 78 ∷ p)) (codes "EPK") ≡ true
unfolding check_encode
check_encode-prefix sha256 p = encode-prefix (p ++ take 4 (sha256 (238 ∷ 78 ∷ p)))

-- If the hash function gives 32 bytes, `String` of an Ed25519 key that is not empty gives a string
-- from which `Parse` reads the key back.
pub parse-string :
    (schemes : Schemes) (c : ℕ) (key : Bytes)
    → ((b : Bytes) → length (schemes.sha256 b) ≡ 32)
    → ((b : Bytes) → All IsByte (schemes.sha256 b))
    → All IsByte (c ∷ key)
    → (s : Bytes) × (string schemes (new_public_key key_type_ed25519 (c ∷ key)) ≡ ok s)
      × (parse schemes s ≡ ok (new_public_key key_type_ed25519 (c ∷ key)))
unfolding string parse new_public_key
parse-string schemes c key wide bytes h = (
  check_encode schemes.sha256 (238 ∷ 78 ∷ c ∷ key),
  refl,
  rw
      (
        check_encode-prefix schemes.sha256 (c ∷ key),
        check_decode-check_encode schemes.sha256 (238 ∷ 78 ∷ c ∷ key) wide bytes
            (omega arith, (omega arith, h)),
      )
      refl,
)

fill-returned :
    (fuel u n : ℕ) (buf : Bytes) (k : ℕ → ℕ → Bytes → Result Bytes)
    → ((u' n' : ℕ) (buf' : Bytes) → returned (k u' n' buf') ≡ true)
    → returned (fill fuel u n buf k) ≡ true
unfolding fill
fill-returned zero u n buf k h = h u n buf
fill-returned (suc fuel) u n buf k h = elim (Bool-cases (leb 8 n)) [
  | inl more ↦ rw more (fill-returned fuel (u / 256) (n - 8) (buf ++ (u % 256 ∷ [])) k h)
  | inr done ↦ rw done (h u n buf)
]

decode_loop-returned : (u n : ℕ) (buf s : Bytes) → returned (decode_loop u n buf s) ≡ true
unfolding decode_loop
decode_loop-returned u n buf [] = elim (Bool-cases (u == 0)) [
  | inl e ↦ rw e refl
  | inr e ↦ rw e refl
]
decode_loop-returned u n buf (c ∷ s) = elim (Option-cases (place_of alpha 0 c)) [
  | inl missing ↦ rw (decode_loop, missing) refl
  | inr (d, there) ↦
      rw (decode_loop, there)
        (fill-returned (n + 5) (join u n d) (n + 5) buf (λ u' n' buf'. decode_loop u' n' buf' s)
          λ u' n' buf'. decode_loop-returned u' n' buf' s)
]

check_decode-returned :
    (sha256 : Bytes → Bytes) (s : Bytes) → returned (check_decode sha256 s) ≡ true
unfolding check_decode decode
check_decode-returned sha256 s =
    >>=-returned (decode_loop 0 0 [] s) _ (decode_loop-returned 0 0 [] s) λ b. ground arith

ed25519_key-returned : (p : Bytes) → returned (ed25519_key p) ≡ true
ed25519_key-returned [] = refl
ed25519_key-returned (a ∷ []) = refl
ed25519_key-returned (a ∷ b ∷ []) = refl
ed25519_key-returned (a ∷ b ∷ c ∷ key) = ground arith

-- `Parse` returns if the library's two calls do.
pub parse-returned :
    (schemes : Schemes)
    → ((s : Bytes) → returned (schemes.tezos_unmarshal_text s) ≡ true)
    → ((k : schemes.TezosKey) → returned (schemes.tezos_marshal k) ≡ true)
    → (s : Bytes) → returned (parse schemes s) ≡ true
unfolding parse
parse-returned schemes hu hm s =
    if-returned (has_prefix s (codes "EPK")) _ _
      (>>=-returned (check_decode schemes.sha256 s) _ (check_decode-returned schemes.sha256 s)
        ed25519_key-returned)
      (if-returned (has_prefix s (codes "tz")) _ _
        (>>=-returned (schemes.tezos_unmarshal_text s) _ (hu s)
          λ k. >>=-returned (schemes.tezos_marshal k) _ (hm k) λ b. refl)
        refl)
