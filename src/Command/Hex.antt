-- ===== src/Command/Hex.antt =====
-- What main.go uses of encoding/hex.
use pebble_voting_app.Base.{
  ℕ, ◌+◌, ◌-◌, ◌*◌, ◌/◌, ◌%◌, ◌<◌, ◌≡◌, refl, arith, [], ◌∷◌, ◌&&◌, Bool, true, false, Option, none,
  some, Bytes, Result, ok, err, foreign, ◌>>=◌, All, IsByte, ltb, leb, ◌==◌, if◌then◌else◌,
  Option-cases, inl, inr,
}
use pebble_voting_app.Base.Bits.{holds_under, holds_under_at}

unfoldable digit : ℕ → ℕ
digit d = if ltb d 10 then 48 + d else 87 + d

-- Digits, and letters of both cases.
unfoldable value_of : ℕ → Option ℕ
value_of c =
    if leb 48 c && leb c 57
    then some (c - 48)
    else if leb 97 c && leb c 102
    then some (c - 87)
    else if leb 65 c && leb c 70
    then some (c - 55)
    else none

-- EncodeToString
unfoldable pub encode_to_string : Bytes → Bytes
unfolding digit
encode_to_string [] = []
encode_to_string (b ∷ bs) = digit (b / 16) ∷ digit (b % 16) ∷ encode_to_string bs

unfoldable nibble : ℕ → Result ℕ
unfolding value_of
nibble c = elim (value_of c) [ none ↦ err foreign | some d ↦ ok d ]

-- DecodeString
unfoldable pub decode_string : Bytes → Result Bytes
unfolding nibble
decode_string [] = ok []
decode_string (c ∷ []) = err foreign
decode_string (c ∷ d ∷ cs) = do
  high ← nibble c
  low ← nibble d
  rest ← decode_string cs
  ok ((high * 16 + low) ∷ rest)

abbrev reads : ℕ → Bool
reads d = elim (value_of (digit d)) [ none ↦ false | some e ↦ e == d ]

digit_table : holds_under reads 16 ≡ true
unfolding holds_under value_of digit
digit_table = refl

nibble-digit : (d : ℕ) → d < 16 → nibble (digit d) ≡ ok d
unfolding nibble
nibble-digit d h = elim (Option-cases (value_of (digit d))) [
  | inl missing ↦ absurd (ground (arith, holds_under_at reads 16 d h digit_table))
  | inr (e, there) ↦ ground (arith, holds_under_at reads 16 d h digit_table)
]

pub decode_string-encode_to_string :
    (bs : Bytes) → All IsByte bs → decode_string (encode_to_string bs) ≡ ok bs
unfolding decode_string encode_to_string
decode_string-encode_to_string [] h = refl
decode_string-encode_to_string (b ∷ bs) h =
    let byte : b < 256 = h.0 in
    let whole : b / 16 * 16 + b % 16 ≡ b = omega arith in
    rw
      (
        nibble-digit (b / 16) (omega (arith, byte)),
        nibble-digit (b % 16) (omega arith),
        decode_string-encode_to_string bs h.1,
        whole,
      )
      refl
