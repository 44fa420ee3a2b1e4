-- ===== src/Vdf/BigInt.antt =====
-- What pebble-core/vdf uses of math/big: `FillBytes` and `SetBytes`, on numbers that are not
-- negative, and `Exp`.
use mathlib.Core.List.{foldl, foldl-append}
use pebble_voting_app.Base.{
  ℕ, zero, suc, ◌+◌, ◌*◌, ◌/◌, ◌%◌, ◌^◌, ◌<◌, ◌≡◌, refl, [], ◌∷◌, ◌++◌, Bytes, Result, ok, panic,
  length, length-append, ltb, if◌then◌else◌, arith, lt→ltb,
}
use native.Mathlib.Nat.{pow-suc, pow-zero}

-- The `k` bytes of a number, highest first.
unfoldable pub to_be : ℕ → ℕ → Bytes
to_be zero x = []
to_be (suc k) x = to_be k (x / 256) ++ (x % 256 ∷ [])

-- x.FillBytes(make([]byte, k)) panics when the number does not fit.
unfoldable pub fill_bytes : ℕ → ℕ → Result Bytes
fill_bytes k x = if ltb x (256 ^ k) then ok (to_be k x) else panic

-- SetBytes
unfoldable pub set_bytes : Bytes → ℕ
set_bytes p = foldl (λ acc b. acc * 256 + b) 0 p

-- Exp(x, e, n), which does not reduce when n is 0.
unfoldable pub mod_exp : ℕ → ℕ → ℕ → ℕ
mod_exp x e n = x ^ e % n

pub length-to_be : (k x : ℕ) → length (to_be k x) ≡ k
unfolding to_be
length-to_be zero x = refl
length-to_be (suc k) x =
    omega (arith, length-append (to_be k (x / 256)) (x % 256 ∷ []), length-to_be k (x / 256))

pub set_bytes-to_be : (k x : ℕ) → x < 256 ^ k → set_bytes (to_be k x) ≡ x
unfolding set_bytes to_be
set_bytes-to_be zero x h = omega (arith, pow-zero 256)
set_bytes-to_be (suc k) x h =
    rw (foldl-append) (omega (arith, set_bytes-to_be k (x / 256) (omega (arith, pow-suc 256 k))))

pub fill_bytes-ok : (k x : ℕ) → x < 256 ^ k → fill_bytes k x ≡ ok (to_be k x)
unfolding fill_bytes
fill_bytes-ok k x h = rw (lt→ltb x (256 ^ k) h)
