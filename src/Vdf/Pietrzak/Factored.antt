-- ===== src/Vdf/Pietrzak/Factored.antt =====
-- pietrzak.go: `Verify` on what `Create` returns.
use native.Mathlib.Nat.{
  mod-lt, mod-eq_of_lt, mul-div_right, mul-mod_right, mul-lt-mul_of_pos_left,
  mul-lt-mul_of_pos_right,
}
use pebble_voting_app.Base.{
  ℕ, ◌*◌, ◌/◌, ◌%◌, ◌^◌, ◌≤◌, ◌<◌, ◌≡◌, ◌≢◌, ◌∙◌, sym, arith, Bytes, Bool, Result, ok, err,
  vdf_odd_difficulty, length, lt→ltb, leb, ◌==◌, if◌then◌else◌, subst, true, false, ==_refl,
  Bool-cases, inl, inr,
}
use pebble_voting_app.Vdf.{VdfSolution}
use pebble_voting_app.Vdf.BigInt.{
  to_be, set_bytes, length-to_be, set_bytes-to_be, fill_bytes-ok, mod_exp,
}
use pebble_voting_app.Vdf.Pietrzak.{
  int_bytes, PietrzakVdf, trapdoor_eval, verify_factor, verify_parsed, verify, difficulty, create,
}
use pebble_voting_app.Vdf.Pietrzak.Completeness.{IsShort}
use pebble_voting_app.Vdf.Pietrzak.Accepted.{puzzle, parsed-puzzle, lt→leb}

-- Two different odd primes of modulusBits / 2 bits, as the primality test sees them.
pub record Factors (probably_prime : ℕ → Bool) (p q : ℕ) : Type 0 where
  pub left : 2 < p
  pub right : 2 < q
  pub different : p ≢ q
  pub short_left : p < 256 ^ 64
  pub short_right : q < 256 ^ 64
  pub prime_left : probably_prime p ≡ true
  pub prime_right : probably_prime q ≡ true

verify_factor-ok :
    (probably_prime : ℕ → Bool) (t n p q x : ℕ) (proof : Bytes)
    → set_bytes proof ≡ p
    → n / p ≡ q
    → n % p ≡ 0
    → Factors probably_prime p q
    → verify_factor probably_prime t n x (trapdoor_eval p q x t) proof ≡ ok tt
unfolding verify_factor
verify_factor-ok probably_prime t n p q x proof e1 e2 e3 f =
    let nonzero : (p == 0) ≡ false = ground (arith, f.left) in
    let distinct : (p == q) ≡ false = ground (arith, f.different) in
    rw (
      e1,
      e2,
      e3,
      nonzero,
      distinct,
      lt→ltb 2 p f.left,
      lt→ltb 2 q f.right,
      f.prime_left,
      f.prime_right,
      ==_refl (trapdoor_eval p q x t),
    )

pub product_short : (a b m : ℕ) → 0 < a → a < m → b < m → a * b < m * m
product_short a b m pos ha hb = omega (
  arith,
  mul-lt-mul_of_pos_left hb pos,
  mul-lt-mul_of_pos_right ha (let more : 0 < m = omega arith in more),
)

pub trapdoor_reduced : (p q x t : ℕ) → 0 < p * q → trapdoor_eval p q x t < p * q
unfolding trapdoor_eval mod_exp
trapdoor_reduced p q x t pos = mod-lt _ pos

pub difficulty_bound :
    (vdf : PietrzakVdf) (seconds : ℕ) → difficulty vdf seconds ≤ vdf.max_difficulty
difficulty_bound vdf seconds = ground arith

-- What `Create` makes of its draws.
pub create-ok :
    (vdf : PietrzakVdf) (seconds p q x : ℕ) (below : ℕ → Result ℕ)
    → 0 < p
    → p < 256 ^ 64
    → q < 256 ^ 64
    → below (p * q) ≡ ok x
    → x < p * q
    → create vdf seconds (ok p) (ok q) below
      ≡ ok (record {
        input = puzzle (difficulty vdf seconds) (p * q) x;
        output = to_be int_bytes (trapdoor_eval p q x (difficulty vdf seconds));
        proof = to_be 64 p;
      })
unfolding create
create-ok vdf seconds p q x below pos short_p short_q drawn h =
    let t = difficulty vdf seconds in
    let hn : IsShort (p * q) = product_short p q (256 ^ 64) pos short_p short_q in
    let hy : trapdoor_eval p q x t < p * q = trapdoor_reduced p q x t (omega (arith, h)) in
    rw (
      drawn,
      fill_bytes-ok int_bytes (p * q) hn,
      fill_bytes-ok int_bytes x (omega (arith, h, hn)),
      fill_bytes-ok int_bytes (trapdoor_eval p q x t) (omega (arith, hy, hn)),
      fill_bytes-ok 64 p short_p,
    )

module _ (sha256 : Bytes → Bytes) where
  verify_parsed-factor :
      (probably_prime : ℕ → Bool) (output proof : Bytes) (t n x0 : ℕ)
      → (n == 0) ≡ false
      → leb n (set_bytes output) ≡ false
      → length proof ≡ 64
      → verify_factor probably_prime t n (x0 % n) (set_bytes output) proof ≡ ok tt
      → verify_parsed sha256 probably_prime output proof t n x0
        ≡ (if t % 2 == 0 then ok tt else err vdf_odd_difficulty)
  unfolding verify_parsed
  verify_parsed-factor probably_prime output proof t n x0 e1 e2 e3 e4 =
      elim (Bool-cases (t % 2 == 0)) [ inl even ↦ rw (even, e1, e2, e3, e4) | inr odd ↦ rw (odd) ]

  -- For a largest difficulty below 2 ^ 63, two different primes p and q above 2, as the
  -- primality test sees them, that fit 64 bytes, and a drawn x below p q: `Create` returns a
  -- solution, and `Verify` accepts it if the difficulty is even, and refuses it as not even if it
  -- is odd.
  pub verify-create :
      (probably_prime : ℕ → Bool) (vdf : PietrzakVdf) (seconds p q x : ℕ) (below : ℕ → Result ℕ)
      → vdf.max_difficulty < 2 ^ 63
      → Factors probably_prime p q
      → below (p * q) ≡ ok x
      → x < p * q
      → (sol : VdfSolution) × (create vdf seconds (ok p) (ok q) below ≡ ok sol)
        × (verify sha256 probably_prime vdf sol
            ≡ (if difficulty vdf seconds % 2 == 0 then ok tt else err vdf_odd_difficulty))
  unfolding verify
  verify-create probably_prime vdf seconds p q x below w f drawn h =
      let t = difficulty vdf seconds in
      let n = p * q in
      let y = trapdoor_eval p q x t in
      let pos : 0 < n = omega (arith, h) in
      let hn : IsShort n =
        product_short p q (256 ^ 64) (omega (arith, f.left)) f.short_left f.short_right in
      let hy : y < n = trapdoor_reduced p q x t pos in
      let short_y : IsShort y = omega (arith, hy, hn) in
      let back : set_bytes (to_be int_bytes y) ≡ y = set_bytes-to_be int_bytes y short_y in
      let output = to_be int_bytes y in
      let proof = to_be 64 p in
      (
        record { input = puzzle t n x; output = output; proof = proof },
        create-ok vdf seconds p q x below (omega (arith, f.left)) f.short_left f.short_right drawn
            h,
        parsed-puzzle vdf.max_difficulty t n x (verify_parsed sha256 probably_prime output proof)
              (difficulty_bound vdf seconds) (omega (arith, w)) hn (omega (arith, h, hn))
            ∙ verify_parsed-factor probably_prime output proof t n x (ground (arith, pos))
                (subst (λ y. leb n y ≡ false) (sym back) (lt→leb y n hy)) (length-to_be 64 p)
                (subst (λ y. verify_factor probably_prime t n (x % n) y proof ≡ ok tt) (sym back)
                  (subst (λ x. verify_factor probably_prime t n x y proof ≡ ok tt)
                    (sym (mod-eq_of_lt h))
                    (verify_factor-ok probably_prime t n p q x proof
                      (set_bytes-to_be 64 p f.short_left) (mul-div_right q (omega (arith, f.left)))
                      (mul-mod_right p q) f))),
      )
