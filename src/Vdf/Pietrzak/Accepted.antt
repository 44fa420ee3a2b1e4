-- ===== src/Vdf/Pietrzak/Accepted.antt =====
-- pietrzak.go: `Verify` on what `Solve` returns.
use native.Mathlib.Nat.{mod-lt}
use pebble_voting_app.Base.{
  ℕ, ◌%◌, ◌^◌, ◌≤◌, ◌<◌, ◌≡◌, ◌∙◌, ap, arith, [], ◌++◌, append-nil, Bytes, Bool, Result, ok, length,
  some, le→ltb, ltb, leb, ◌==◌, ==_iff, subst, true, false,
}
use pebble_voting_app.Util.Buffer.{be64}
use pebble_voting_app.Vdf.{VdfSolution}
use pebble_voting_app.Vdf.BigInt.{to_be, fill_bytes, set_bytes, set_bytes-to_be, fill_bytes-ok}
use pebble_voting_app.Vdf.Pietrzak.{
  delta, int_bytes, PietrzakVdf, read_uint64, read_int, start, eval, opening, solve_loop,
  verify_loop, parsed, solve_parsed, solve, verify_parsed, verify,
}
use pebble_voting_app.Vdf.Pietrzak.Squaring.{eval_lem}
use pebble_voting_app.Vdf.Pietrzak.Rounds.{Claim}
use pebble_voting_app.Vdf.Pietrzak.Completeness.{
  IsShort, read_int-to_be, add-ok, IsAccepted, complete,
}

-- The input that `Create` writes.
abbrev pub puzzle : (t n x : ℕ) → Bytes
puzzle t n x = be64 t ++ (to_be int_bytes n ++ to_be int_bytes x)

read_uint64-be64 : (t : ℕ) (rest : Bytes) → t < 2 ^ 64 → read_uint64 (be64 t ++ rest) ≡ (t, rest)
unfolding read_uint64
read_uint64-be64 t rest h = ap (λ v. (v, rest)) (omega arith)

-- The three reads of an input.
unfoldable Reads : Bytes → (s1 s2 s3 : Bytes) → (t n x : ℕ) → Type 0
Reads input s1 s2 s3 t n x =
    (read_uint64 input ≡ (t, s1)) × (read_int s1 ≡ (some n, s2)) × (read_int s2 ≡ (some x, s3))

parsed_lem {ℓ} :
    {A : Type ℓ} (max : ℕ) (input s1 s2 s3 : Bytes) (t n x : ℕ) (k : (t n x : ℕ) → Result A)
    → Reads input s1 s2 s3 t n x
    → ltb max t ≡ false
    → parsed max input k ≡ k t n x
unfolding Reads
parsed_lem max input s1 s2 s3 t n x k (e1, e2, e3) h = ground arith

pub parsed-puzzle {ℓ} :
    {A : Type ℓ} (max t n x : ℕ) (k : (t n x : ℕ) → Result A)
    → t ≤ max
    → max < 2 ^ 64
    → IsShort n
    → IsShort x
    → parsed max (puzzle t n x) k ≡ k t n x
unfolding Reads
parsed-puzzle max t n x k m w hn hx =
    let u : read_uint64 (puzzle t n x) ≡ (t, to_be int_bytes n ++ to_be int_bytes x) =
      read_uint64-be64 t (to_be int_bytes n ++ to_be int_bytes x) (omega arith) in
    let e : read_int (to_be int_bytes x) ≡ (some x, []) =
      subst (λ s. read_int s ≡ (some x, [])) (append-nil (to_be int_bytes x))
        (read_int-to_be x [] hx) in
    parsed_lem max (puzzle t n x) _ _ _ t n x k (u, read_int-to_be n (to_be int_bytes x) hn, e)
      (le→ltb max t m)

-- A proof of whole roots is not taken for a factor.
not_64 : (l : ℕ) → l % int_bytes ≡ 0 → (l == 64) ≡ false
not_64 l h = ground arith

pub lt→leb : (y n : ℕ) → y < n → leb n y ≡ false
lt→leb y n h = ground arith

module _ (sha256 : Bytes → Bytes) where
  opening-ok :
      (t n x y : ℕ)
      → IsShort n
      → IsShort x
      → IsShort y
      → (h : Bytes) × (opening sha256 t n x y ≡ ok h)
  unfolding opening
  opening-ok t n x y hn hx hy =
      let (h1, e1) = add-ok sha256 (start sha256 t) n hn in
      let (h2, e2) = add-ok sha256 h1 x hx in
      let (h3, e3) = add-ok sha256 h2 y hy in (h3, rw (e1, e2, e3))

  solve_parsed-ok :
      (input b hash proof : Bytes) (t n x0 : ℕ)
      → (n == 0) ≡ false
      → fill_bytes int_bytes (eval n (x0 % n) t) ≡ ok b
      → opening sha256 t n (x0 % n) (eval n (x0 % n) t) ≡ ok hash
      → solve_loop sha256 64 hash n (x0 % n) (eval n (x0 % n) t) t [] ≡ ok proof
      → solve_parsed sha256 input t n x0 ≡ ok (record { input = input; output = b; proof = proof })
  unfolding solve_parsed
  solve_parsed-ok input b hash proof t n x0 e0 e1 e2 e3 = rw (e0, e1, e2, e3)

  verify_parsed-ok :
      (probably_prime : ℕ → Bool) (output hash proof : Bytes) (t n x0 y : ℕ)
      → (t % 2 == 0) ≡ true
      → (n == 0) ≡ false
      → set_bytes output ≡ y
      → leb n y ≡ false
      → (length proof == 64) ≡ false
      → opening sha256 t n (x0 % n) y ≡ ok hash
      → verify_loop sha256 64 hash n (x0 % n) y t proof ≡ ok tt
      → verify_parsed sha256 probably_prime output proof t n x0 ≡ ok tt
  unfolding verify_parsed
  verify_parsed-ok probably_prime output hash proof t n x0 y e0 e1 e2 e3 e4 e5 e6 =
      rw (e0, e1, e2, e3, e4, e5, e6)

  -- For an even t up to the largest difficulty, a uint64, and n and x that fit 128 bytes, n not
  -- 0: `Solve` returns a solution on the input made of t, n and x, and `Verify` accepts it,
  -- whatever the hash function and the primality test are.
  pub verify-solve :
      (probably_prime : ℕ → Bool) (vdf : PietrzakVdf) (t n x : ℕ)
      → vdf.max_difficulty < 2 ^ 64
      → t ≤ vdf.max_difficulty
      → t % 2 ≡ 0
      → 0 < n
      → IsShort n
      → IsShort x
      → (sol : VdfSolution) × (solve sha256 vdf (puzzle t n x) ≡ ok sol)
        × (verify sha256 probably_prime vdf sol ≡ ok tt)
  unfolding solve verify IsAccepted delta
  verify-solve probably_prime vdf t n x0 w m even pos hn hx =
      let x = x0 % n in
      let y = eval n x t in
      let red : x < n = mod-lt x0 pos in
      let claim : Claim n x y t = record { reduced = red; squared = eval_lem n x t red } in
      let hy : y < n = rw (eval_lem n x t red) (mod-lt (x ^ 2 ^ t) pos) in
      let (hash, eo) = opening-ok t n x y hn (omega (arith, red, hn)) (omega (arith, hy, hn)) in
      let (proof, es, el, ev) =
        complete sha256 52 64 n pos hn (omega arith) hash [] x y t claim (omega arith)
          (omega (arith, even)) in
      let nonzero : (n == 0) ≡ false = ground arith in
      let output = to_be int_bytes y in
      let short_y : IsShort y = omega (arith, hy, hn) in
      (
        record { input = puzzle t n x0; output = output; proof = proof },
        parsed-puzzle vdf.max_difficulty t n x0 (solve_parsed sha256 (puzzle t n x0)) m w hn hx
            ∙ solve_parsed-ok (puzzle t n x0) output hash proof t n x0 nonzero
                (fill_bytes-ok int_bytes y short_y) eo es,
        parsed-puzzle vdf.max_difficulty t n x0 (verify_parsed sha256 probably_prime output proof) m
              w hn hx
            ∙ verify_parsed-ok probably_prime output hash proof t n x0 y ((==_iff (t % 2) 0).1 even)
                nonzero (set_bytes-to_be int_bytes y short_y) (lt→leb y n hy)
                (not_64 (length proof) el) eo
                (subst (λ p. verify_loop sha256 64 hash n x y t p ≡ ok tt) (append-nil proof)
                  (ev [])),
      )
