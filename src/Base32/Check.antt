-- ===== src/Base32/Check.antt =====
-- pebble-core/base32c/base32check.go: the code with a checksum. SHA-256 is a parameter.
use pebble_voting_app.Base.{
  ℕ, zero, suc, ◌-◌, ◌≡◌, refl, [], ◌∷◌, ◌++◌, Bytes, Result, ok, err, invalid_length,
  invalid_checksum, ◌>>=◌, length, take, drop, length-append, length-take, ltb, if◌then◌else◌,
  bytes_eq, bytes_eq_refl, le→ltb, arith, All, IsByte,
}
use pebble_voting_app.Util.Buffer.Words.{take_exact, drop_exact}
use pebble_voting_app.Base32.{encode, decode}
use pebble_voting_app.Base32.RoundTrip.{decode-encode}

module _ (sha256 : Bytes → Bytes) where
  unfoldable pub check_encode : Bytes → Bytes
  check_encode p = encode (p ++ take 4 (sha256 p))

  unfoldable pub check_decode : Bytes → Result Bytes
  check_decode s = do
    b ← decode s
    if ltb (length b) 4
        then err invalid_length
        else (let p = take (length b - 4) b in
            if bytes_eq (take 4 (sha256 p)) (drop (length p) b) then ok p else err invalid_checksum)

All-take : (n : ℕ) (p : Bytes) → All IsByte p → All IsByte (take n p)
All-take zero p h = tt
All-take (suc n) [] h = tt
All-take (suc n) (b ∷ p) h = (h.0, All-take n p h.1)

pub All-append : (p q : Bytes) → All IsByte p → All IsByte q → All IsByte (p ++ q)
All-append [] q h g = g
All-append (b ∷ p) q h g = (h.0, All-append p q h.1 g)

-- If the hash function gives 32 bytes, `CheckDecode` of what `CheckEncode` gives for any bytes
-- returns the bytes.
pub check_decode-check_encode :
    (sha256 : Bytes → Bytes) (p : Bytes)
    → ((b : Bytes) → length (sha256 b) ≡ 32)
    → ((b : Bytes) → All IsByte (sha256 b))
    → All IsByte p
    → check_decode sha256 (check_encode sha256 p) ≡ ok p
unfolding check_encode check_decode
check_decode-check_encode sha256 p wide bytes h =
    let c = take 4 (sha256 p) in
    let four : length c ≡ 4 = omega (arith, length-take 4 (sha256 p), wide p) in
    let whole = length-append p c in
    let back : length p ≡ length (p ++ c) - 4 = omega (arith, whole, four) in
    rw (
      decode-encode (p ++ c) (All-append p c h (All-take 4 (sha256 p) (bytes p))),
      le→ltb (length (p ++ c)) 4 (omega (arith, whole, four)),
      take_exact p c (length (p ++ c) - 4) back,
      drop_exact p c (length p) refl,
      bytes_eq_refl c,
    )
