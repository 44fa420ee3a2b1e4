-- ===== src/Base32/Accepted.antt =====
-- base32.go: the texts that `Decode` accepts.
use Prim.Native.Nat.{bit_and}
use pebble_voting_app.Base.{
  ℕ, All, IsByte, length, codes, ◌⊎◌, ◌+◌, ◌-◌, ◌*◌, ◌/◌, ◌%◌, ◌^◌, ◌<◌, ◌≤◌, ◌≡◌, ◌∙◌, ap, sym,
  refl, subst, [], ◌∷◌, ◌++◌, inl, inr, none, Bytes, ok, ltb, ◌==◌, ==_iff, arith, err,
  invalid_char, append_assoc, append-nil, Option-cases, Bool-cases,
}
use native.Mathlib.Nat.{mul-le-mul_right, pow-le-pow_right}
use pebble_voting_app.Base.Power.{pow-add}
use pebble_voting_app.Base32.{
  alpha, symbol, place_of, join, flush, encode_loop, encode, decode_loop, decode,
}
use pebble_voting_app.Base32.Digits.{join-lem, read_symbol, fill_short, fill_long}
use pebble_voting_app.Base32.RoundTrip.{write_0}
use pebble_voting_app.Base32.Pending.{digit_symbol, Extends, Gives, more_bits}
use pebble_voting_app.Base32.Completed.{
  Completing, full_of, full_byte, three, four, five, six, seven,
}

-- The bound on a word of `m` bits and one symbol.
word_bound : (m v d : ℕ) → v < 2 ^ m → d < 32 → v + d * 2 ^ m < 2 ^ m * 2 ^ 5
word_bound m v d hv hd =
    let most : d * 2 ^ m ≤ 31 * 2 ^ m = mul-le-mul_right (2 ^ m) (omega (arith, hd)) in
    omega (arith, hv, most)

word_small : (m x : ℕ) → m < 8 → x < 2 ^ m * 2 ^ 5 → x < 4096
word_small m x h lt =
    let seven : m ≤ 7 = omega (arith, h) in
    let most : 2 ^ m ≤ 2 ^ 7 = pow-le-pow_right (omega arith) seven in omega (arith, lt, most)

byte_left : {m : ℕ} → Completing m → (x : ℕ) → x < 2 ^ m * 2 ^ 5 → x / 256 < 2 ^ (m - 3)
byte_left three x h = omega (arith, h)
byte_left four x h = omega (arith, h)
byte_left five x h = omega (arith, h)
byte_left six x h = omega (arith, h)
byte_left seven x h = omega (arith, h)

no_symbol :
    (m v c : ℕ) (buf s : Bytes)
    → place_of alpha 0 c ≡ none
    → decode_loop v m buf (c ∷ s) ≡ err invalid_char
unfolding decode_loop
no_symbol m v c buf s e = rw (decode_loop, e)

at_end : (m v : ℕ) (buf p : Bytes) → decode_loop v m buf [] ≡ ok p → (v ≡ 0) × (p ≡ buf)
unfolding decode_loop
at_end m v buf p e = elim (Bool-cases (v == 0)) [
  | inl z ↦ ((==_iff v 0).0 z, ground arith)
  | inr nz ↦ absurd (ground arith)
]

-- The bytes that `m` pending bits and the symbols `s` fill.
abbrev Fill : (m : ℕ) → (s rest : Bytes) → Type 0
Fill m s rest = (m + 5 * length s) / 8 ≡ length rest

-- The rest of an accepted text.
decode_loop-Gives :
    (m v : ℕ) (buf s p : Bytes)
    → m < 8
    → v < 2 ^ m
    → decode_loop v m buf s ≡ ok p
    → (rest : Bytes) × (p ≡ buf ++ rest) × Gives m v s rest × All IsByte rest × Fill m s rest
unfolding decode_loop
decode_loop-Gives m v buf [] p h hv e =
    let (zero_left, same) = at_end m v buf p e in
    ([], same ∙ sym (append-nil buf), (zero_left, inl refl), tt, omega (arith, h))
decode_loop-Gives m v buf (c ∷ s) p h hv e = elim (Option-cases (place_of alpha 0 c)) [
  | inl missing ↦ absurd (ground (arith, no_symbol m v c buf s missing))
  | inr (d, there) ↦
      let (hd, same) = digit_symbol c d there in
      let x = v + d * 2 ^ m in
      let bound : x < 2 ^ m * 2 ^ 5 = word_bound m v d hv hd in
      let small : x < 4096 = word_small m x h bound in
      let word : join v m d ≡ x = join-lem m v d h hv small in
      let read = read_symbol m v c d buf s there in
      elim (Bool-cases (ltb m 3)) [
        | inl below ↦
            let short : m < 3 = ground (arith, below) in
            let e' : decode_loop x (m + 5) buf s ≡ ok p =
              sym (
                read
                ∙ fill_short (m + 5) _ (m + 5) buf _ (omega (arith, short))
                ∙ ap (λ w. decode_loop w (m + 5) buf s) word)
              ∙ e in
            let (rest, eq, g, bytes, filled) =
              decode_loop-Gives (m + 5) x buf s p (omega (arith, short))
                (subst (λ b. x < b) (sym (pow-add 2 m 5)) bound) e' in
            (
              rest,
              eq,
              subst (λ c'. Gives m v (c' ∷ s) rest) (sym same)
                  (more_bits m v d s rest short hv hd g),
              bytes,
              omega (arith, filled),
            )
        | inr above ↦
            let long : 2 < m = ground (arith, above) in
            let e' : decode_loop (x / 256) (m + 5 - 8) (buf ++ (x % 256 ∷ [])) s ≡ ok p =
              sym (
                read
                ∙ fill_long (m + 5) _ (m + 5) buf _ (omega arith) (omega (arith, long))
                    (omega (arith, h))
                ∙ ap (λ w. decode_loop (w / 256) (m + 5 - 8) (buf ++ (w % 256 ∷ [])) s) word)
              ∙ e in
            let down : m + 5 - 8 ≡ m - 3 = omega (arith, long) in
            let full = full_of m long h in
            let (rest, eq, g, bytes, filled) =
              decode_loop-Gives (m - 3) (x / 256) (buf ++ (x % 256 ∷ [])) s p (omega (arith, h))
                (byte_left full x bound)
                (subst (λ n. decode_loop (x / 256) n (buf ++ (x % 256 ∷ [])) s ≡ ok p) down e') in
            (
              x % 256 ∷ rest,
              eq ∙ append_assoc buf (x % 256 ∷ []) rest,
              subst (λ c'. Gives m v (c' ∷ s) (x % 256 ∷ rest)) (sym same)
                  (full_byte full x v d s rest hv hd refl g),
              (omega arith, bytes),
              omega (arith, filled, long),
            )
      ]
]

whole_text : (s p : Bytes) → Gives 0 0 s p → Extends s (encode p)
unfolding encode encode_loop flush
whole_text s [] (zero_left, inl e) = inl e
whole_text s [] (zero_left, inr (less, e)) = inr e
whole_text s (b ∷ p) (byte, low, ext) =
    subst (Extends s)
      (ap (λ z. symbol (bit_and z 31) ∷ encode_loop (z / 32) 3 p) (omega arith)
        ∙ sym (
            write_0 0 b b p
              (join-lem 0 0 b (omega arith) (omega arith) (omega (arith, byte)) ∙ omega arith)))
      ext

-- A text that Decode accepts with the result `p` is the text that Encode gives for `p`, or that
-- text with one more 0 at its end. The result is a slice of bytes, and its length is 5 / 8 of the
-- length of the text, rounded down.
pub decode_accepted :
    (s p : Bytes)
    → decode s ≡ ok p
    → All IsByte p × (length p ≡ 5 * length s / 8) × ((s ≡ encode p) ⊎ (s ≡ encode p ++ codes "0"))
unfolding decode encode
decode_accepted s p e =
    let (rest, same, g, bytes, filled) =
      decode_loop-Gives 0 0 [] s p (omega arith) (omega arith) e in
    subst (λ q. All IsByte q × (length q ≡ 5 * length s / 8) × Extends s (encode q)) (sym same)
      (bytes, omega (arith, filled), whole_text s rest g)
