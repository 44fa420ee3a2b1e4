-- ===== src/Base32/Digits.antt =====
-- base32.go: what the decoder does with one symbol that stands for a digit of the encoder.
use Prim.Native.Nat.{bit_and}
use native.Mathlib.Nat.{add-mul-mod_self_right, mod-eq_of_lt, add-mul-div_right, div-eq_of_lt}
use pebble_voting_app.Base.{
  ℕ, zero, suc, ◌+◌, ◌-◌, ◌*◌, ◌/◌, ◌%◌, ◌^◌, ◌<◌, ◌≡◌, ◌∙◌, ap, sym, refl, [], ◌∷◌, ◌++◌, Bool,
  true, false, none, some, Bytes, Result, leb, ◌==◌, arith, ==_iff, Option-cases, inl, inr,
}
use pebble_voting_app.Base.Bits.{holds_under, holds_under_at}
use pebble_voting_app.Base32.{alpha, symbol, place_of, join, fill, decode_loop}

abbrev joins : ℕ → ℕ → Bool
joins n x = join (x % 2 ^ n) n (x / 2 ^ n) == x

join_table : holds_under (λ n. holds_under (joins n) 4096) 8 ≡ true
unfolding holds_under
join_table = refl

-- The new bits stand above the old ones.
pub join-lem : (n u b : ℕ) → n < 8 → u < 2 ^ n → u + b * 2 ^ n < 4096 → join u n b ≡ u + b * 2 ^ n
join-lem n u b h lt small =
    let x = u + b * 2 ^ n in
    let low : x % 2 ^ n ≡ u = add-mul-mod_self_right u b (2 ^ n) ∙ mod-eq_of_lt lt in
    let high : x / 2 ^ n ≡ b =
      add-mul-div_right u b (omega (arith, lt)) ∙ ap (λ q. q + b) (div-eq_of_lt lt) ∙ omega arith in
    let t : joins n x ≡ true =
      holds_under_at (joins n) 4096 x small (holds_under_at _ 8 n h join_table) in
    sym (ap (λ l. join l n (x / 2 ^ n)) low ∙ ap (λ q. join u n q) high) ∙ (==_iff _ x).0 t

-- A digit and its symbol.
digit_table :
    holds_under
      (λ d. elim (place_of alpha 0 (symbol (bit_and d 31))) [ none ↦ false | some e ↦ e == d % 32 ])
      4096
    ≡ true
unfolding holds_under place_of symbol
digit_table = refl

place_of-symbol : (x : ℕ) → x < 4096 → place_of alpha 0 (symbol (bit_and x 31)) ≡ some (x % 32)
place_of-symbol x h = elim (Option-cases (place_of alpha 0 (symbol (bit_and x 31)))) [
  | inl missing ↦ absurd (ground (arith, holds_under_at _ 4096 x h digit_table))
  | inr (e, there) ↦ ground (arith, holds_under_at _ 4096 x h digit_table)
]

-- The decoder reads a symbol that stands for the digit `d`.
pub read_symbol :
    (n u c d : ℕ) (buf s : Bytes)
    → place_of alpha 0 c ≡ some d
    → decode_loop u n buf (c ∷ s)
      ≡ fill (n + 5) (join u n d) (n + 5) buf (λ u' n' buf'. decode_loop u' n' buf' s)
unfolding decode_loop
read_symbol n u c d buf s e = rw (decode_loop, e)

-- With fewer than 8 bits it goes on, and from 8 bits on it puts out a byte.
pub fill_short :
    (fuel u n : ℕ) (buf : Bytes) (k : ℕ → ℕ → Bytes → Result Bytes)
    → n < 8
    → fill fuel u n buf k ≡ k u n buf
unfolding fill
fill_short zero u n buf k h = refl
fill_short (suc fuel) u n buf k h = let e : leb 8 n ≡ false = ground arith in rw e

pub fill_long :
    (fuel u n : ℕ) (buf : Bytes) (k : ℕ → ℕ → Bytes → Result Bytes)
    → 0 < fuel
    → 7 < n
    → n < 16
    → fill fuel u n buf k ≡ k (u / 256) (n - 8) (buf ++ (u % 256 ∷ []))
unfolding fill
fill_long zero u n buf k p l h = absurd (omega arith)
fill_long (suc fuel) u n buf k p l h =
    let e : leb 8 n ≡ true = ground arith in
    rw e (fill_short fuel (u / 256) (n - 8) (buf ++ (u % 256 ∷ [])) k (omega arith))

pub read_short :
    (n u x : ℕ) (buf s : Bytes)
    → n < 3
    → u < 2 ^ n
    → x < 4096
    → u + x % 32 * 2 ^ n < 4096
    → decode_loop u n buf (symbol (bit_and x 31) ∷ s)
      ≡ decode_loop (u + x % 32 * 2 ^ n) (n + 5) buf s
read_short n u x buf s h lt small fits =
    read_symbol n u _ (x % 32) buf s (place_of-symbol x small)
    ∙ fill_short (n + 5) _ (n + 5) buf _ (omega arith)
    ∙ ap (λ v. decode_loop v (n + 5) buf s) (join-lem n u (x % 32) (omega arith) lt fits)

pub read_long :
    (n u x : ℕ) (buf s : Bytes)
    → 2 < n
    → n < 8
    → u < 2 ^ n
    → x < 4096
    → u + x % 32 * 2 ^ n < 4096
    → decode_loop u n buf (symbol (bit_and x 31) ∷ s)
      ≡ decode_loop
          ((u + x % 32 * 2 ^ n) / 256)
          (n + 5 - 8)
          (buf ++ ((u + x % 32 * 2 ^ n) % 256 ∷ []))
          s
read_long n u x buf s more h lt small fits =
    read_symbol n u _ (x % 32) buf s (place_of-symbol x small)
    ∙ fill_long (n + 5) _ (n + 5) buf _ (omega arith) (omega arith) (omega arith)
    ∙ ap (λ v. decode_loop (v / 256) (n + 5 - 8) (buf ++ (v % 256 ∷ [])) s)
        (join-lem n u (x % 32) h lt fits)
