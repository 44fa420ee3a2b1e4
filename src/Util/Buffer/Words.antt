-- ===== src/Util/Buffer/Words.antt =====
-- Fixed-width parts of buffer_reader_writer.go: the readers after the writers.
use pebble_voting_app.Base.{
  ℕ, ◌^◌, ◌<◌, ◌≡◌, ap, subst, ◌++◌, arith, Bytes, ok, length, le→ltb, ltb, take-append,
  drop-append, length-append, length-take, take-append-drop, All, IsByte, All-append_right, take,
  drop, if◌then◌else◌, Result, err, short_buffer, false,
}
use pebble_voting_app.Util.Buffer.{read32, read_uint32, read_uint64, be32, be64}

pub read_uint32-be32 :
    (n : ℕ) (rest : Bytes) → n < 2 ^ 32 → read_uint32 (be32 n ++ rest) ≡ (ok n, rest)
unfolding read_uint32
read_uint32-be32 n rest h = ap (λ v. (ok v, rest)) (omega arith)

pub read_uint64-be64 :
    (n : ℕ) (rest : Bytes) → n < 2 ^ 64 → read_uint64 (be64 n ++ rest) ≡ (ok n, rest)
unfolding read_uint64
read_uint64-be64 n rest h = ap (λ v. (ok v, rest)) (omega arith)

pub take_exact : (p rest : Bytes) (n : ℕ) → length p ≡ n → take n (p ++ rest) ≡ p
take_exact p rest n h = subst (λ k. take k (p ++ rest) ≡ p) h (take-append p rest)

pub drop_exact : (p rest : Bytes) (n : ℕ) → length p ≡ n → drop n (p ++ rest) ≡ rest
drop_exact p rest n h = subst (λ k. drop k (p ++ rest) ≡ rest) h (drop-append p rest)

pub long_enough : (p rest : Bytes) (n : ℕ) → length p ≡ n → ltb (length (p ++ rest)) n ≡ false
long_enough p rest n h = le→ltb _ _ (omega (arith, length-append p rest))

-- A slice of the length that is asked for comes back whole.
pub take_front :
    (p rest : Bytes) (n : ℕ)
    → length p ≡ n
    → ◌≡◌ {A = Result Bytes × Bytes}
        (if ltb (length (p ++ rest)) n
          then (err short_buffer, p ++ rest)
          else (ok (take n (p ++ rest)), drop n (p ++ rest)))
        (ok p, rest)
take_front p rest n h = rw (long_enough p rest n h, take_exact p rest n h, drop_exact p rest n h)

pub read32-append : (p rest : Bytes) → length p ≡ 32 → read32 (p ++ rest) ≡ (ok p, rest)
unfolding read32
read32-append p rest h = take_front p rest 32 h

-- What `Read32` has taken, on any input.
pub read32_back :
    (s p t : Bytes)
    → All IsByte s
    → read32 s ≡ (ok p, t)
    → (s ≡ p ++ t) × (length p ≡ 32) × All IsByte t
unfolding read32
read32_back s p t hs e =
    let f : s ≡ p ++ t = ground (arith, take-append-drop 32 s) in
    (f, ground (arith, length-take 32 s), All-append_right IsByte p t (subst (All IsByte) f hs))
