-- ===== src/Base32/Pending.antt =====
-- base32.go: what the decoder gives for the rest of a text, and a symbol that completes no byte.
use Prim.Native.Nat.{bit_and}
use pebble_voting_app.Base.{
  ℕ, zero, suc, ◌+◌, ◌-◌, ◌*◌, ◌/◌, ◌%◌, ◌^◌, ◌<◌, ◌≡◌, ◌∙◌, ap, sym, refl, subst, [], ◌∷◌, ◌++◌,
  ◌⊎◌, inl, inr, some, Bytes, length, get_elem?, leb, ◌==◌, ==_iff, if◌then◌else◌, arith,
  Bool-cases,
}
use pebble_voting_app.Base.Mask.{bit_and-mask}
use pebble_voting_app.Base32.{alpha, symbol, place_of, encode_loop}

-- A place in the alphabet holds its symbol.
place_of-get :
    (cs : Bytes) (i c d : ℕ)
    → place_of cs i c ≡ some d
    → (k : ℕ) × (d ≡ i + k) × (k < length cs) × (get_elem? cs k ≡ some c)
unfolding place_of
place_of-get [] i c d e = absurd (ground arith)
place_of-get (a ∷ cs) i c d e = elim (Bool-cases (a == c)) [
  | inl same ↦ (0, ground arith, omega arith, ap some ((==_iff a c).0 same))
  | inr other ↦
      let rest : place_of cs (i + 1) c ≡ some d = ground arith in
      let (k, at, lt, there) = place_of-get cs (i + 1) c d rest in
      (suc k, omega (arith, at), omega (arith, lt), there)
]

pub digit_symbol : (c d : ℕ) → place_of alpha 0 c ≡ some d → (d < 32) × (c ≡ symbol d)
unfolding symbol
digit_symbol c d e =
    let (k, at, lt, there) = place_of-get alpha 0 c d e in
    let same : k ≡ d = omega (arith, at) in
    let found : get_elem? alpha d ≡ some c = subst (λ j. get_elem? alpha j ≡ some c) same there in
    (omega (arith, at, lt), rw (symbol, found) refl)

-- The text, or the text with one more zero.
abbrev pub Extends : (s t : Bytes) → Type 0
Extends s t = (s ≡ t) ⊎ (s ≡ t ++ (48 ∷ []))

pub Extends-cons : (c d : ℕ) (s t : Bytes) → c ≡ d → Extends s t → Extends (c ∷ s) (d ∷ t)
Extends-cons c d s t e (inl p) = inl (rw (e, p) refl)
Extends-cons c d s t e (inr p) = inr (rw (e, p) refl)

-- The encoding from the byte `b` on, whose `m` low bits are written.
abbrev pub remaining : (m b : ℕ) → Bytes → Bytes
remaining m b p =
    if leb m 3
    then symbol (bit_and (b / 2 ^ m) 31) ∷ encode_loop (b / 2 ^ m / 32) (3 - m) p
    else encode_loop (b / 2 ^ m) (8 - m) p

-- What the decoder gives for the rest of a text, with `m` bits `v` pending.
abbrev pub Gives : (m v : ℕ) → (s rest : Bytes) → Type 0
Gives m v s [] = (v ≡ 0) × ((s ≡ []) ⊎ ((m < 3) × (s ≡ 48 ∷ [])))
Gives m v s (b ∷ p) = (b < 256) × (v ≡ b % 2 ^ m) × Extends s (remaining m b p)

low_five : (x : ℕ) → bit_and x 31 ≡ x % 32
low_five x = bit_and-mask 5 x

pub symbol_of : (d x : ℕ) → d ≡ x % 32 → symbol d ≡ symbol (bit_and x 31)
symbol_of d x e = ap symbol (e ∙ sym (low_five x))

zero_symbol : symbol 0 ≡ 48
unfolding symbol
zero_symbol = refl

step :
    (d x u n : ℕ) (s p : Bytes)
    → d ≡ x % 32
    → u ≡ x / 32
    → Extends s (encode_loop u n p)
    → Extends (symbol d ∷ s) (symbol (bit_and x 31) ∷ encode_loop (x / 32) n p)
step d x u n s p e f ext =
    Extends-cons _ _ s _ (symbol_of d x e) (subst (λ w. Extends s (encode_loop w n p)) f ext)

last_zero : (m v d : ℕ) (s : Bytes) → m < 3 → v ≡ 0 → d ≡ 0 → s ≡ [] → Gives m v (symbol d ∷ s) []
last_zero m v d s lt v0 d0 e = (v0, inr (lt, rw (d0, e, zero_symbol) refl))

-- A symbol that completes no byte.
pub more_bits :
    (m v d : ℕ) (s rest : Bytes)
    → m < 3
    → v < 2 ^ m
    → d < 32
    → Gives (m + 5) (v + d * 2 ^ m) s rest
    → Gives m v (symbol d ∷ s) rest
more_bits m v d s [] lt hv hd (zero_in, inr (less, e)) = absurd (omega (arith, less))
more_bits zero v d s [] lt hv hd (zero_in, inl e) =
    last_zero 0 v d s lt (omega (arith, zero_in)) (omega (arith, zero_in)) e
more_bits (suc zero) v d s [] lt hv hd (zero_in, inl e) =
    last_zero 1 v d s lt (omega (arith, zero_in)) (omega (arith, zero_in)) e
more_bits (suc (suc zero)) v d s [] lt hv hd (zero_in, inl e) =
    last_zero 2 v d s lt (omega (arith, zero_in)) (omega (arith, zero_in)) e
more_bits zero v d s (b ∷ p) lt hv hd (byte, low, ext) = (
  byte,
  omega (arith, low, hv),
  step d (b / 1) (b / 32) 3 s p (omega (arith, low, hv, hd, byte)) (omega arith) ext,
)
more_bits (suc zero) v d s (b ∷ p) lt hv hd (byte, low, ext) = (
  byte,
  omega (arith, low, hv),
  step d (b / 2) (b / 64) 2 s p (omega (arith, low, hv, hd, byte)) (omega arith) ext,
)
more_bits (suc (suc zero)) v d s (b ∷ p) lt hv hd (byte, low, ext) = (
  byte,
  omega (arith, low, hv),
  step d (b / 4) (b / 128) 1 s p (omega (arith, low, hv, hd, byte)) (omega arith) ext,
)
more_bits (suc (suc (suc m))) v d s (b ∷ p) lt hv hd g = absurd (omega (arith, lt))
more_bits (suc (suc (suc m))) v d s [] lt hv hd g = absurd (omega (arith, lt))
