-- ===== src/Vdf/Pietrzak/Denial.antt =====
-- pietrzak.go: `Verify` on a factor that is 0.
use pebble_voting_app.Base.{
  ℕ, ◌%◌, ◌≡◌, refl, arith, [], Bytes, Bool, false, Result, ok, panic, Bool-cases, Option-cases,
  inl, inr, ltb, leb, ◌==◌, replicate,
}
use pebble_voting_app.Vdf.{VdfSolution}
use pebble_voting_app.Vdf.BigInt.{set_bytes}
use pebble_voting_app.Vdf.Pietrzak.{
  PietrzakVdf, read_uint64, read_int, parsed, verify_factor, verify_parsed, verify,
}

-- A solution with an empty output and 64 zeros for the factor.
abbrev pub zero_factor : (input : Bytes) → VdfSolution
zero_factor input = record { input = input; output = []; proof = replicate 64 0 }

-- If the input parses for one continuation, it parses for another.
parsed_again :
    {A : Type 0} (max : ℕ) (input : Bytes) (k k' : (t n x : ℕ) → Result A) (a : A) (r : Result A)
    → parsed max input k ≡ ok a
    → ((t n x : ℕ) → k t n x ≡ ok a → k' t n x ≡ r)
    → parsed max input k' ≡ r
parsed_again max input k k' a r h next =
    let (t, s1) = read_uint64 input in
    let (on, s2) = read_int s1 in
    elim (Bool-cases (ltb max t)) [
      | inl over ↦ absurd (ground arith)
      | inr within ↦ elim (Option-cases on) [
        | inl none_left ↦ absurd (ground arith)
        | inr (n, e) ↦ elim (Option-cases (read_int s2).0) [
          | inl none_left ↦ absurd (ground arith)
          | inr (x, e') ↦ ground (arith, next t n x)
        ]
      ]
    ]

zero_factor-panic :
    (sha256 : Bytes → Bytes) (prime : ℕ → Bool) (output proof : Bytes) (t n x : ℕ)
    → verify_parsed sha256 prime output proof t n x ≡ ok tt
    → verify_parsed sha256 prime [] (replicate 64 0) t n x ≡ panic
unfolding verify_parsed verify_factor set_bytes
zero_factor-panic sha256 prime output proof t n x h = elim (Bool-cases (t % 2 == 0)) [
  | inr odd ↦ absurd (ground arith)
  | inl even ↦ elim (Bool-cases (n == 0)) [
    | inl z ↦ absurd (ground arith)
    | inr nz ↦ let above : leb n 0 ≡ false = ground arith in rw (even, nz, above) refl
  ]
]

-- `Verify` panics on the input of any solution that it accepts, with no output and a factor 0.
pub verify-zero_factor :
    (sha256 : Bytes → Bytes) (prime : ℕ → Bool) (vdf : PietrzakVdf) (sol : VdfSolution)
    → verify sha256 prime vdf sol ≡ ok tt
    → verify sha256 prime vdf (zero_factor sol.input) ≡ panic
unfolding verify
verify-zero_factor sha256 prime vdf sol h =
    parsed_again vdf.max_difficulty sol.input _ _ tt panic h
      λ t n x. zero_factor-panic sha256 prime sol.output sol.proof t n x
