-- ===== src/Vdf/Pietrzak/Rounds.antt =====
-- pietrzak.go: one round of the halving protocol.
use native.Mathlib.Nat.{mod-lt}
use pebble_voting_app.Base.{
  ℕ, ◌+◌, ◌-◌, ◌*◌, ◌/◌, ◌%◌, ◌^◌, ◌≤◌, ◌<◌, ◌≡◌, ◌∙◌, ap, sym, arith, ◌==◌, Bool-cases, inl, inr,
  ==_iff,
}
use pebble_voting_app.Base.Power.{pow-add, pow-mul, mod-mul, mul-mod, mod-pow, mod-mul_both}
use pebble_voting_app.Vdf.Pietrzak.{eval, exp_and_mul, even_step}
use pebble_voting_app.Vdf.Pietrzak.Squaring.{eval_lem, exp_and_mul_lem}

-- x is reduced, and y is its t-fold square.
pub record Claim (n x y t : ℕ) : Type 0 where
  pub reduced : x < n
  pub squared : y ≡ x ^ 2 ^ t % n

square-twice : (x n t : ℕ) → (x ^ 2 ^ t % n) * (x ^ 2 ^ t % n) % n ≡ x ^ 2 ^ (t + 1) % n
square-twice x n t =
    mod-mul_both (x ^ 2 ^ t) (x ^ 2 ^ t) n
    ∙ ap (λ s. s % n) (sym (pow-add x (2 ^ t) (2 ^ t)))
    ∙ ap (λ e. x ^ e % n)
        (let e : 2 ^ t + 2 ^ t ≡ 2 ^ (t + 1) = simp (pow-add 2 t 1) (omega arith) in e)

-- An odd t is raised by one, with one more squaring.
pub even_step_lem :
    (n x y t : ℕ)
    → Claim n x y t
    → t + 1 < 2 ^ 64
    → (t2 : ℕ) × (y1 : ℕ) × (even_step n t y ≡ (t2 + t2, y1))
      × Claim n x y1 (t2 + t2)
      × (t ≤ t2 + t2)
      × (t2 + t2 ≤ t + 1)
even_step_lem n x y t c h = elim (Bool-cases (t % 2 == 0)) [
  | inl even ↦
      let z : t % 2 ≡ 0 = (==_iff (t % 2) 0).0 even in
      let half : t / 2 + t / 2 ≡ t = omega (arith, z) in
      (
        t / 2,
        y,
        rw (even, half),
        record { reduced = c.reduced; squared = rw (half, c.squared) },
        omega (arith, half),
        omega (arith, half),
      )
  | inr odd ↦
      let z : t % 2 ≡ 1 = ground arith in
      let half : (t + 1) / 2 + (t + 1) / 2 ≡ t + 1 = omega (arith, z) in
      let fits : (t + 1) % 2 ^ 64 ≡ t + 1 = omega arith in
      (
        (t + 1) / 2,
        y * y % n,
        rw (odd, half, fits),
        record { reduced = c.reduced; squared = rw (half, c.squared) (square-twice x n t) },
        omega (arith, half),
        omega (arith, half),
      )
]

-- The square of the root that the prover sends is the midpoint.
pub midpoint : (n x t : ℕ) → x < n → 0 < t → eval n x (t - 1) * eval n x (t - 1) % n ≡ x ^ 2 ^ t % n
midpoint n x t h p =
    let back : t - 1 + 1 ≡ t = omega arith in
    rw (eval_lem n x (t - 1) h) (square-twice x n (t - 1) ∙ ap (λ e. x ^ 2 ^ e % n) back)

-- For n above 0: if mu is x ^ (2 ^ t) mod n, and y is x ^ (2 ^ (2 t)) mod n, then for any
-- challenge r the x' and y' that `expAndMul` makes of them satisfy the claim for t: x' is below
-- n, and y' is x' ^ (2 ^ t) mod n.
pub fold_lem :
    (n x y t r mu : ℕ)
    → 0 < n
    → mu ≡ x ^ 2 ^ t % n
    → y ≡ x ^ 2 ^ (t + t) % n
    → Claim n (exp_and_mul x r mu n) (exp_and_mul mu r y n) t
fold_lem n x y t r mu pos m c = record {
  reduced = rw (exp_and_mul_lem x r mu n) (mod-lt (x ^ r * mu) pos);
  squared =
      exp_and_mul_lem mu r y n
      ∙ left
      ∙ ap (λ e. x ^ e % n) exponents
      ∙ sym right
      ∙ ap (λ s. s ^ 2 ^ t % n) (sym (exp_and_mul_lem x r mu n));
}
  where
    exponents : 2 ^ t * r + 2 ^ (t + t) ≡ (r + 2 ^ t) * 2 ^ t
    exponents = omega (arith, pow-add 2 t t)

    left : (mu ^ r * y) % n ≡ x ^ (2 ^ t * r + 2 ^ (t + t)) % n
    left =
        ap (λ s. (s ^ r * y) % n) m
        ∙ ap (λ s. ((x ^ 2 ^ t % n) ^ r * s) % n) c
        ∙ mul-mod ((x ^ 2 ^ t % n) ^ r) (x ^ 2 ^ (t + t)) n
        ∙ sym (mod-mul ((x ^ 2 ^ t % n) ^ r) (x ^ 2 ^ (t + t)) n)
        ∙ ap (λ s. (s * x ^ 2 ^ (t + t)) % n) (mod-pow (x ^ 2 ^ t) r n)
        ∙ mod-mul ((x ^ 2 ^ t) ^ r) (x ^ 2 ^ (t + t)) n
        ∙ ap (λ s. (s * x ^ 2 ^ (t + t)) % n) (sym (pow-mul x (2 ^ t) r))
        ∙ ap (λ s. s % n) (sym (pow-add x (2 ^ t * r) (2 ^ (t + t))))

    right : ((x ^ r * mu) % n) ^ 2 ^ t % n ≡ x ^ ((r + 2 ^ t) * 2 ^ t) % n
    right =
        ap (λ s. ((x ^ r * s) % n) ^ 2 ^ t % n) m
        ∙ ap (λ s. s ^ 2 ^ t % n) (mul-mod (x ^ r) (x ^ 2 ^ t) n)
        ∙ mod-pow (x ^ r * x ^ 2 ^ t) (2 ^ t) n
        ∙ ap (λ s. s ^ 2 ^ t % n) (sym (pow-add x r (2 ^ t)))
        ∙ ap (λ s. s % n) (sym (pow-mul x (r + 2 ^ t) (2 ^ t)))
