-- ===== src/Base/Mask.antt =====
-- A mask of the low bits, as a remainder.
use Prim.Native.Nat.{
  ℕ, zero, suc, ◌+◌, ◌-◌, ◌*◌, ◌/◌, ◌%◌, ◌^◌, ◌≤◌, ◌<◌, min, digits, bit_and, bit_and-bitwise,
}
use mathlib.Core.Path.{◌≡◌, refl, sym, ap, ◌∙◌}
use native.Mathlib.Omega.{arith}
use native.Mathlib.Nat.{
  pow-suc, mod-eq_of_lt, add-mul-mod_self_right, div-add-mod, mod-lt, mul_comm, mul_assoc,
}
use pebble_voting_app.Base.Power.{pow_two_pos}

-- The lowest binary digit taken off a remainder.
mod-half : (x p : ℕ) → 0 < p → x % (2 * p) ≡ (x / 2 % p) * 2 + x % 2
mod-half x p some_p =
    let q = x / 2 / p in
    let r = x / 2 % p in
    let small : r < p = mod-lt (x / 2) some_p in
    let split : p * q + r ≡ x / 2 = div-add-mod (x / 2) p in
    let low = r * 2 + x % 2 in
    let twice : q * (2 * p) ≡ 2 * (p * q) = mul_comm q (2 * p) ∙ mul_assoc 2 p q in
    let whole : x ≡ low + q * (2 * p) = omega (arith, split, twice) in
    ap (λ y. y % (2 * p)) whole
    ∙ add-mul-mod_self_right low q (2 * p)
    ∙ mod-eq_of_lt (omega (arith, small))

abbrev masked : (fuel x m : ℕ) → ℕ
masked fuel x m = digits (λ b. zero) min fuel x m

masked-zero : (fuel x : ℕ) → masked fuel x 0 ≡ 0
masked-zero zero x = refl
masked-zero (suc n) zero = refl
masked-zero (suc n) (suc a) = omega (arith, masked-zero n (suc a / 2))

masked-mod : (k fuel x : ℕ) → x ≤ fuel → masked fuel x (2 ^ k - 1) ≡ x % 2 ^ k
masked-mod zero fuel x le = masked-zero fuel x ∙ omega arith
masked-mod (suc k) zero zero le = sym (mod-eq_of_lt (pow_two_pos (suc k)))
masked-mod (suc k) zero (suc x) le = absurd (omega arith)
masked-mod (suc k) (suc n) zero le = sym (mod-eq_of_lt (pow_two_pos (suc k)))
masked-mod (suc k) (suc n) (suc a) le =
    let pos = pow_two_pos k in
    let two = pow-suc 2 k in
    let half : (2 ^ suc k - 1) / 2 ≡ 2 ^ k - 1 = omega (arith, pos, two) in
    let odd : (2 ^ suc k - 1) % 2 ≡ 1 = omega (arith, pos, two) in
    let double : 2 ^ suc k ≡ 2 * 2 ^ k = omega (arith, two) in
    let ih = masked-mod k n (suc a / 2) (omega arith) in
    let split = mod-half (suc a) (2 ^ k) pos in rw (half, odd, ih, double) (omega (arith, split))

pub bit_and-mask : (k x : ℕ) → bit_and x (2 ^ k - 1) ≡ x % 2 ^ k
bit_and-mask k x = simp bit_and-bitwise (masked-mod k x x (omega arith))
