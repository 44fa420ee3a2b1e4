-- ===== src/Base32/Completed.antt =====
-- base32.go: a symbol that completes a byte for the decoder.
use Prim.Native.Nat.{bit_and}
use pebble_voting_app.Base.{
  ℕ, zero, suc, ◌+◌, ◌-◌, ◌*◌, ◌/◌, ◌%◌, ◌^◌, ◌<◌, ◌≡◌, ◌∙◌, ap, sym, refl, subst, [], ◌∷◌, inl,
  inr, Bytes, arith,
}
use pebble_voting_app.Base32.{symbol, join, flush, encode_loop}
use pebble_voting_app.Base32.Digits.{join-lem}
use pebble_voting_app.Base32.RoundTrip.{write_0, write_1, write_2, write_3, write_4}
use pebble_voting_app.Base32.Pending.{Extends, Extends-cons, remaining, Gives, symbol_of}

-- The numbers of pending bits at which the next symbol completes a byte.
pub data Completing : ℕ → Type 0 where
  three : Completing 3
  four : Completing 4
  five : Completing 5
  six : Completing 6
  seven : Completing 7

pub full_of : (m : ℕ) → 2 < m → m < 8 → Completing m
full_of zero l h = absurd (omega (arith, l))
full_of (suc zero) l h = absurd (omega (arith, l))
full_of (suc (suc zero)) l h = absurd (omega (arith, l))
full_of (suc (suc (suc zero))) l h = three
full_of (suc (suc (suc (suc zero)))) l h = four
full_of (suc (suc (suc (suc (suc zero))))) l h = five
full_of (suc (suc (suc (suc (suc (suc zero)))))) l h = six
full_of (suc (suc (suc (suc (suc (suc (suc zero))))))) l h = seven
full_of (suc (suc (suc (suc (suc (suc (suc (suc m)))))))) l h = absurd (omega (arith, h))

-- The last symbol of the text.
last_symbol :
    {m : ℕ}
    → Completing m
    → (d a : ℕ) → d < 32
    → a < 256
    → d ≡ a / 2 ^ m
    → remaining m a [] ≡ symbol d ∷ []
unfolding encode_loop flush
last_symbol three d a hd byte e =
    ap (λ t. t ∷ []) (sym (symbol_of d (a / 8) (omega (arith, e, hd))))
last_symbol four d a hd byte e =
    ap (λ t. t ∷ []) (sym (symbol_of d (a / 16) (omega (arith, e, hd))))
last_symbol five d a hd byte e =
    ap (λ t. t ∷ []) (sym (symbol_of d (a / 32) (omega (arith, e, hd))))
last_symbol six d a hd byte e = ap (λ t. t ∷ []) (sym (symbol_of d (a / 64) (omega (arith, e, hd))))
last_symbol seven d a hd byte e =
    ap (λ t. t ∷ []) (sym (symbol_of d (a / 128) (omega (arith, e, hd))))

two_symbols :
    (d x y n : ℕ) (p : Bytes)
    → d ≡ x % 32
    → x / 32 ≡ y
    → symbol (bit_and x 31) ∷ symbol (bit_and (x / 32) 31) ∷ encode_loop (x / 32 / 32) n p
      ≡ symbol d ∷ symbol (bit_and y 31) ∷ encode_loop (y / 32) n p
two_symbols d x y n p e f =
    ap (λ c. c ∷ symbol (bit_and (x / 32) 31) ∷ encode_loop (x / 32 / 32) n p)
      (sym (symbol_of d x e))
    ∙ ap (λ z. symbol d ∷ symbol (bit_and z 31) ∷ encode_loop (z / 32) n p) f

-- The last bits of `a` and the first ones of `b` in one word.
joined :
    (m a b : ℕ)
    → 0 < m
    → m < 8
    → a / 2 ^ m < 2 ^ (8 - m)
    → a / 2 ^ m + b * 2 ^ (8 - m) < 4096
    → join (a / 2 ^ m) (8 - m) b ≡ a / 2 ^ m + b * 2 ^ (8 - m)
joined m a b l h lt fits = join-lem (8 - m) (a / 2 ^ m) b (omega (arith, l, h)) lt fits

-- The symbol between two bytes.
next_symbol :
    {m : ℕ}
    → Completing m
    → (d a b : ℕ) (p : Bytes) → a < 256
    → b < 256
    → d ≡ (a / 2 ^ m + b * 2 ^ (8 - m)) % 32
    → remaining m a (b ∷ p) ≡ symbol d ∷ remaining (m - 3) b p
next_symbol three d a b p ha hb e =
    ap (λ t. symbol (bit_and (a / 8) 31) ∷ t)
      (ap (λ u. encode_loop u 0 (b ∷ p)) (omega (arith, ha))
        ∙ write_0 0 b b p
            (join-lem 0 0 b (omega arith) (omega arith) (omega (arith, hb)) ∙ omega arith)
        ∙ ap (λ z. symbol (bit_and z 31) ∷ encode_loop (z / 32) 3 p) (omega arith))
    ∙ ap (λ c. c ∷ remaining 0 b p) (sym (symbol_of d (a / 8) (omega (arith, e, ha))))
next_symbol four d a b p ha hb e =
    write_4 (a / 16) (a / 16 + b * 16) b p
      (joined 4 a b (omega arith) (omega arith) (omega (arith, ha)) (omega (arith, ha, hb)))
    ∙ two_symbols d (a / 16 + b * 16) (b / 2) 2 p (omega (arith, e)) (omega (arith, ha))
next_symbol five d a b p ha hb e =
    write_3 (a / 32) (a / 32 + b * 8) b p
      (joined 5 a b (omega arith) (omega arith) (omega (arith, ha)) (omega (arith, ha, hb)))
    ∙ two_symbols d (a / 32 + b * 8) (b / 4) 1 p (omega (arith, e)) (omega (arith, ha))
next_symbol six d a b p ha hb e =
    write_2 (a / 64) (a / 64 + b * 4) b p
      (joined 6 a b (omega arith) (omega arith) (omega (arith, ha)) (omega (arith, ha, hb)))
    ∙ two_symbols d (a / 64 + b * 4) (b / 8) 0 p (omega (arith, e)) (omega (arith, ha))
next_symbol seven d a b p ha hb e =
    write_1 (a / 128) (a / 128 + b * 2) b p
      (joined 7 a b (omega arith) (omega arith) (omega (arith, ha)) (omega (arith, ha, hb)))
    ∙ ap (λ c. c ∷ encode_loop ((a / 128 + b * 2) / 32) 4 p)
        (sym (symbol_of d (a / 128 + b * 2) (omega (arith, e))))
    ∙ ap (λ u. symbol d ∷ encode_loop u 4 p) (omega (arith, ha))

completed :
    {m : ℕ}
    → Completing m
    → (x v d : ℕ) (s rest : Bytes) → d < 32
    → v ≡ x % 256 % 2 ^ m
    → (x / 256 ≡ 0 → d ≡ x % 256 / 2 ^ m)
    → ((b : ℕ) → x / 256 ≡ b % 2 ^ (m - 3) → d ≡ (x % 256 / 2 ^ m + b * 2 ^ (8 - m)) % 32)
    → Gives (m - 3) (x / 256) s rest
    → Gives m v (symbol d ∷ s) (x % 256 ∷ rest)
completed full x v d s [] hd hv last next (zero_in, tail) = (
  omega arith,
  hv,
  subst (Extends (symbol d ∷ s))
      (sym (last_symbol full d (x % 256) hd (omega arith) (last zero_in)))
      (elim tail [
        | inl e ↦ inl (ap (λ t. symbol d ∷ t) e)
        | inr (less, e) ↦ inr (ap (λ t. symbol d ∷ t) e)
      ]),
)
completed full x v d s (b ∷ p) hd hv last next (byte, low, ext) = (
  omega arith,
  hv,
  subst (Extends (symbol d ∷ s))
      (sym (next_symbol full d (x % 256) b p (omega arith) byte (next b low)))
      (Extends-cons _ _ s _ refl ext),
)

-- A symbol that completes a byte.
pub full_byte :
    {m : ℕ}
    → Completing m
    → (x v d : ℕ) (s rest : Bytes) → v < 2 ^ m
    → d < 32
    → x ≡ v + d * 2 ^ m
    → Gives (m - 3) (x / 256) s rest
    → Gives m v (symbol d ∷ s) (x % 256 ∷ rest)
full_byte three x v d s rest hv hd e g =
    completed three x v d s rest hd (omega (arith, e, hv)) (λ z. omega (arith, e, hv, hd, z))
      (λ b low. omega (arith, e, hv, hd, low)) g
full_byte four x v d s rest hv hd e g =
    completed four x v d s rest hd (omega (arith, e, hv)) (λ z. omega (arith, e, hv, hd, z))
      (λ b low. omega (arith, e, hv, hd, low)) g
full_byte five x v d s rest hv hd e g =
    completed five x v d s rest hd (omega (arith, e, hv)) (λ z. omega (arith, e, hv, hd, z))
      (λ b low. omega (arith, e, hv, hd, low)) g
full_byte six x v d s rest hv hd e g =
    completed six x v d s rest hd (omega (arith, e, hv)) (λ z. omega (arith, e, hv, hd, z))
      (λ b low. omega (arith, e, hv, hd, low)) g
full_byte seven x v d s rest hv hd e g =
    completed seven x v d s rest hd (omega (arith, e, hv)) (λ z. omega (arith, e, hv, hd, z))
      (λ b low. omega (arith, e, hv, hd, low)) g
