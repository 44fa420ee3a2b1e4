-- ===== src/Runs/Puzzles.antt =====
-- The theorems on puzzles at a small modulus.
use pebble_voting_app.Base.{
  ℕ, ◌%◌, ◌≡◌, refl, arith, [], ◌∷◌, Bytes, Bool, true, ok, err, vdf_odd_difficulty, ◌==◌,
  if◌then◌else◌,
}
use pebble_voting_app.Vdf.{VdfSolution}
use pebble_voting_app.Vdf.Pietrzak.{PietrzakVdf, solve, verify, create, difficulty}
use pebble_voting_app.Vdf.Pietrzak.Accepted.{puzzle, verify-solve}
use pebble_voting_app.Vdf.Pietrzak.Factored.{Factors, verify-create}
use pebble_voting_app.Vdf.Pietrzak.Shortcut.{solve-create}

-- A stand-in for SHA-256, and one for the primality test.
abbrev hash : Bytes → Bytes
hash b = 3 ∷ []

abbrev prime : ℕ → Bool
prime n = true

abbrev settings : PietrzakVdf
settings = record { max_difficulty = 10000; difficulty_conversion = 100 }

-- A puzzle of two rounds.
verify-solve_example :
    (sol : VdfSolution) × (solve hash settings (puzzle 9000 35 2) ≡ ok sol)
    × (verify hash prime settings sol ≡ ok tt)
verify-solve_example =
    verify-solve hash prime settings 9000 35 2 (omega arith) (omega arith) refl (omega arith)
      (omega arith) (omega arith)

five_seven : Factors prime 5 7
five_seven = record {
  left = omega arith;
  right = omega arith;
  different = λ e. omega arith;
  short_left = omega arith;
  short_right = omega arith;
  prime_left = refl;
  prime_right = refl;
}

verify-create_example :
    (sol : VdfSolution) × (create settings 3 (ok 5) (ok 7) (λ n. ok 2) ≡ ok sol)
    × (verify hash prime settings sol
        ≡ (if difficulty settings 3 % 2 == 0 then ok tt else err vdf_odd_difficulty))
verify-create_example =
    verify-create hash prime settings 3 5 7 2 (λ n. ok 2) (omega arith) five_seven refl
      (omega arith)

solve-create_example :
    (made : VdfSolution) × (solved : VdfSolution) × (create settings 3 (ok 5) (ok 7) (λ n. ok 2)
      ≡ ok made)
    × (solve hash settings made.input ≡ ok solved)
    × (solved.input ≡ made.input)
    × (solved.output ≡ made.output)
    × (verify hash prime settings solved ≡ ok tt)
solve-create_example =
    solve-create hash prime settings 3 5 7 2 (λ n. ok 2) (omega arith) refl five_seven refl
      (omega arith) refl
