-- ===== src/Base/Power.antt =====
-- Powers and remainders: the laws of `^`, and arithmetic modulo a number.
use Prim.Native.Nat.{ℕ, zero, suc, ◌+◌, ◌*◌, ◌/◌, ◌%◌, ◌^◌, ◌<◌}
use mathlib.Core.Path.{◌≡◌, sym, ap, ◌∙◌, ◌≡⟨◌⟩◌, ◌∎}
use native.Mathlib.Omega.{arith}
use native.Mathlib.Nat.{
  add-zero, add-suc, mul-zero, mul-suc, pow-zero, pow-suc, mul_assoc, mul_comm, mul-one,
  mul-mul-mul_comm, mul-add-mod_self_left, div-add-mod,
}

pub pow-add : (a m n : ℕ) → a ^ (m + n) ≡ a ^ m * a ^ n
pow-add a m zero = rw (add-zero, pow-zero, mul-one)
pow-add a m (suc n) = rw (add-suc, pow-suc, pow-suc, pow-add a m n, mul_assoc)

pub pow_two_pos : (n : ℕ) → 0 < 2 ^ n
pow_two_pos zero = omega arith
pow_two_pos (suc n) = omega (arith, pow_two_pos n)

pub pow-mul : (a m n : ℕ) → a ^ (m * n) ≡ (a ^ m) ^ n
pow-mul a m zero = rw (mul-zero, pow-zero, pow-zero)
pow-mul a m (suc n) = rw (mul-suc, pow-add, pow-suc (a ^ m), pow-mul a m n)

pub mul-pow : (a b n : ℕ) → (a * b) ^ n ≡ a ^ n * b ^ n
mul-pow a b zero = rw (pow-zero, pow-zero, pow-zero)
mul-pow a b (suc n) =
    rw (pow-suc (a * b), pow-suc a, pow-suc b, mul-pow a b n) (mul-mul-mul_comm (a ^ n) (b ^ n) a b)

-- One factor may be reduced first.
pub mod-mul : (a b n : ℕ) → (a % n * b) % n ≡ (a * b) % n
mod-mul a b n =
    let split : n * (a / n * b) + a % n * b ≡ a * b =
      omega (arith, ap (λ (t : ℕ). t * b) (div-add-mod a n)) in
    sym (mul-add-mod_self_left n (a / n * b) (a % n * b)) ∙ ap (λ t. t % n) split

pub mul-mod : (a b n : ℕ) → (a * (b % n)) % n ≡ (a * b) % n
mul-mod a b n = rw (mul_comm a (b % n), mul_comm a b) (mod-mul b a n)

pub mod-pow : (a k n : ℕ) → (a % n) ^ k % n ≡ a ^ k % n
mod-pow a zero n = rw (pow-zero, pow-zero)
mod-pow a (suc k) n =
    (a % n) ^ suc k % n
    ≡⟨ (rw pow-suc) ⟩ ((a % n) ^ k * (a % n)) % n
    ≡⟨ mul-mod ((a % n) ^ k) a n ⟩ ((a % n) ^ k * a) % n
    ≡⟨ sym (mod-mul ((a % n) ^ k) a n) ⟩ ((a % n) ^ k % n * a) % n
    ≡⟨ ap (λ t. (t * a) % n) (mod-pow a k n) ⟩ (a ^ k % n * a) % n
    ≡⟨ mod-mul (a ^ k) a n ⟩ (a ^ k * a) % n
    ≡⟨ (rw pow-suc) ⟩ a ^ suc k % n ∎

-- Both factors of a product of powers, reduced at any stage.
pub mod-mul_both : (a b n : ℕ) → (a % n * (b % n)) % n ≡ (a * b) % n
mod-mul_both a b n = mul-mod (a % n) b n ∙ mod-mul a b n
