-- ===== src/Vdf/Pietrzak/Shortcut.antt =====
-- pietrzak.go: `Solve` on the puzzle that `Create` made with the factors of the modulus.
use native.Mathlib.Nat.{pow-zero, pow-suc, mod-eq_of_lt, div-add-mod}
use pebble_voting_app.Base.{
  ℕ, zero, suc, ◌-◌, ◌*◌, ◌/◌, ◌%◌, ◌^◌, ◌<◌, ◌≡◌, ◌∙◌, ap, sym, arith, [], Bytes, Bool, Result, ok,
  >>=-eq-ok, ok_injective, ◌==◌, Bool-cases, inl, inr,
}
use pebble_voting_app.Base.Power.{pow-add, pow-mul, mod-mul, mod-pow}
use pebble_voting_app.Vdf.{VdfSolution}
use pebble_voting_app.Vdf.BigInt.{to_be, fill_bytes, fill_bytes-ok, mod_exp}
use pebble_voting_app.Vdf.Pietrzak.{
  int_bytes, PietrzakVdf, eval, trapdoor_eval, opening, solve_loop, solve_parsed, solve, verify,
  difficulty, create,
}
use pebble_voting_app.Vdf.Pietrzak.Squaring.{eval_lem}
use pebble_voting_app.Vdf.Pietrzak.Completeness.{IsShort}
use pebble_voting_app.Vdf.Pietrzak.Accepted.{puzzle, parsed-puzzle, verify-solve}
use pebble_voting_app.Vdf.Pietrzak.Factored.{
  Factors, product_short, trapdoor_reduced, difficulty_bound, create-ok,
}

one-pow : (k n : ℕ) → 1 ^ k % n ≡ 1 % n
one-pow zero n = ap (λ a. a % n) (pow-zero 1)
one-pow (suc k) n = ap (λ a. a % n) (pow-suc 1 k ∙ omega arith) ∙ one-pow k n

-- Where x to the phi is 1, an exponent counts modulo phi.
reduced_exponent : (x n phi e : ℕ) → x ^ phi % n ≡ 1 % n → x ^ (e % phi) % n ≡ x ^ e % n
reduced_exponent x n phi e h =
    let k = e / phi in
    let r = e % phi in
    let ones : x ^ (phi * k) % n ≡ 1 % n =
      ap (λ a. a % n) (pow-mul x phi k)
      ∙ sym (mod-pow (x ^ phi) k n)
      ∙ ap (λ a. a ^ k % n) h
      ∙ mod-pow 1 k n
      ∙ one-pow k n in
    sym (
      ap (λ a. x ^ a % n) (sym (div-add-mod e phi))
      ∙ ap (λ a. a % n) (pow-add x (phi * k) r)
      ∙ sym (mod-mul (x ^ (phi * k)) (x ^ r) n)
      ∙ ap (λ a. (a * x ^ r) % n) ones
      ∙ mod-mul 1 (x ^ r) n
      ∙ ap (λ a. a % n) (omega arith))

-- The shortcut over phi is the repeated squaring.
trapdoor_eval-eval :
    (p q x t : ℕ)
    → x < p * q
    → x ^ ((p - 1) * (q - 1)) % (p * q) ≡ 1 % (p * q)
    → trapdoor_eval p q x t ≡ eval (p * q) x t
unfolding trapdoor_eval mod_exp
trapdoor_eval-eval p q x t h euler =
    reduced_exponent x (p * q) ((p - 1) * (q - 1)) (2 ^ t) euler ∙ sym (eval_lem (p * q) x t h)

module _ (sha256 : Bytes → Bytes) where
  solve_parsed-fields :
      (input : Bytes) (t n x0 : ℕ) (sol : VdfSolution)
      → solve_parsed sha256 input t n x0 ≡ ok sol
      → (sol.input ≡ input) × (fill_bytes int_bytes (eval n (x0 % n) t) ≡ ok sol.output)
  unfolding solve_parsed
  solve_parsed-fields input t n x0 sol h = elim (Bool-cases (n == 0)) [
    | inl z ↦ absurd (ground arith)
    | inr nz ↦
        let x = x0 % n in
        let y = eval n x t in
        let (output, filled, h1) = >>=-eq-ok (fill_bytes int_bytes y) _ (rw nz at h) in
        let (hash, opened, h2) = >>=-eq-ok (opening sha256 t n x y) _ h1 in
        let (proof, proved, h3) = >>=-eq-ok (solve_loop sha256 64 hash n x y t []) _ h2 in
        let same = ok_injective h3 in
        (
          ap (λ (s : VdfSolution). s.input) (sym same),
          filled ∙ ap (λ (s : VdfSolution). ok s.output) same,
        )
  ]

  -- For an even difficulty, a largest one below 2 ^ 63, two different primes p and q above 2, as
  -- the primality test sees them, that fit 64 bytes, and a drawn x below p q whose power to
  -- (p - 1) (q - 1) is 1 modulo p q: `Create` returns a solution, and `Solve` of its input alone
  -- returns one with the same output, which `Verify` accepts.
  pub solve-create :
      (probably_prime : ℕ → Bool) (vdf : PietrzakVdf) (seconds p q x : ℕ) (below : ℕ → Result ℕ)
      → vdf.max_difficulty < 2 ^ 63
      → difficulty vdf seconds % 2 ≡ 0
      → Factors probably_prime p q
      → below (p * q) ≡ ok x
      → x < p * q
      → x ^ ((p - 1) * (q - 1)) % (p * q) ≡ 1 % (p * q)
      → (made : VdfSolution) × (solved : VdfSolution) × (create vdf seconds (ok p) (ok q) below
          ≡ ok made)
        × (solve sha256 vdf made.input ≡ ok solved)
        × (solved.input ≡ made.input)
        × (solved.output ≡ made.output)
        × (verify sha256 probably_prime vdf solved ≡ ok tt)
  unfolding solve
  solve-create probably_prime vdf seconds p q x below w even f drawn h euler =
      let t = difficulty vdf seconds in
      let n = p * q in
      let hn : IsShort n =
        product_short p q (256 ^ 64) (omega (arith, f.left)) f.short_left f.short_right in
      let hx : IsShort x = omega (arith, h, hn) in
      let hy : IsShort (trapdoor_eval p q x t) =
        omega (arith, trapdoor_reduced p q x t (omega (arith, h)), hn) in
      let in_range = difficulty_bound vdf seconds in
      let (solved, found, accepted) =
        verify-solve sha256 probably_prime vdf t n x (omega (arith, w)) in_range even
          (omega (arith, h)) hn hx in
      let parse =
        parsed-puzzle vdf.max_difficulty t n x (solve_parsed sha256 (puzzle t n x)) in_range
          (omega (arith, w)) hn hx in
      let (same, filled) = solve_parsed-fields (puzzle t n x) t n x solved (sym parse ∙ found) in
      let agree : trapdoor_eval p q x t ≡ eval n (x % n) t =
        trapdoor_eval-eval p q x t h euler ∙ ap (λ a. eval n a t) (sym (mod-eq_of_lt h)) in
      let output : solved.output ≡ to_be int_bytes (trapdoor_eval p q x t) = ok_injective (
        sym filled
        ∙ ap (fill_bytes int_bytes) (sym agree)
        ∙ fill_bytes-ok int_bytes (trapdoor_eval p q x t) hy) in
      (
        record {
          input = puzzle t n x;
          output = to_be int_bytes (trapdoor_eval p q x t);
          proof = to_be 64 p;
        },
        solved,
        create-ok vdf seconds p q x below (omega (arith, f.left)) f.short_left f.short_right drawn
            h,
        found,
        same,
        output,
        accepted,
      )
