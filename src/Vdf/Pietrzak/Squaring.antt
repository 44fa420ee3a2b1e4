-- ===== src/Vdf/Pietrzak/Squaring.antt =====
-- pietrzak.go: the squarers and `expAndMul` as powers.
use native.Mathlib.Nat.{pow-zero, pow-suc, mod-mod, mod-eq_of_lt}
use pebble_voting_app.Base.{
  ℕ, zero, suc, ◌+◌, ◌-◌, ◌*◌, ◌%◌, ◌^◌, ◌≤◌, ◌<◌, ◌≡◌, ◌∙◌, ap, sym, arith, ltb, ◌==◌, Bool-cases,
  inl, inr, ltb→le, ==_iff,
}
use pebble_voting_app.Base.Power.{pow-add, pow-mul, mod-mul, mod-pow}
use pebble_voting_app.Vdf.BigInt.{mod_exp}
use pebble_voting_app.Vdf.Pietrzak.{delta, eval_loop, eval, exp_and_mul}

pow-one : (r : ℕ) → r ^ 1 ≡ r
pow-one r = pow-suc r zero ∙ ap (λ s. s * r) (pow-zero r) ∙ omega arith

-- Squaring a times, and then b times.
square-add : (r a b n : ℕ) → (r ^ 2 ^ a % n) ^ 2 ^ b % n ≡ r ^ 2 ^ (a + b) % n
square-add r a b n =
    mod-pow (r ^ 2 ^ a) (2 ^ b) n
    ∙ ap (λ s. s % n) (sym (pow-mul r (2 ^ a) (2 ^ b)) ∙ ap (λ e. r ^ e) (sym (pow-add 2 a b)))

delta-pos : 0 < delta
unfolding delta
delta-pos = omega arith

eval_loop_lem : (fuel n r t : ℕ) → t < fuel → r % n ≡ r → eval_loop fuel n r t ≡ r ^ 2 ^ t % n
unfolding eval_loop mod_exp
eval_loop_lem zero n r t h g = absurd (omega arith)
eval_loop_lem (suc fuel) n r t h g = elim (Bool-cases (ltb t delta)) [
  | inl small ↦ elim (Bool-cases (t == 0)) [
    | inl done ↦
        let z : t ≡ 0 = (==_iff t 0).0 done in
        rw (small, done, z) (sym g ∙ ap (λ s. s % n) (sym (pow-one r)))
    | inr more ↦ rw (small, more)
  ]
  | inr large ↦
      let d : delta ≤ t = ltb→le t delta large in
      let back : delta + (t - delta) ≡ t = omega (arith, d) in
      rw large (
        eval_loop_lem fuel n (r ^ 2 ^ delta % n) (t - delta) (omega (arith, d, delta-pos, h))
          (mod-mod (r ^ 2 ^ delta) n)
        ∙ square-add r delta (t - delta) n
        ∙ ap (λ e. r ^ 2 ^ e % n) back)
]

-- For x below n, the loop of `repeatedSquarer.Eval` gives x ^ (2 ^ t) mod n.
pub eval_lem : (n x t : ℕ) → x < n → eval n x t ≡ x ^ 2 ^ t % n
unfolding eval
eval_lem n x t h = eval_loop_lem (suc t) n x t (omega arith) (mod-eq_of_lt h)

pub exp_and_mul_lem : (a b c n : ℕ) → exp_and_mul a b c n ≡ (a ^ b * c) % n
unfolding exp_and_mul mod_exp
exp_and_mul_lem a b c n = mod-mul (a ^ b) c n
