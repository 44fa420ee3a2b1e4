-- ===== src/Util/Buffer.antt =====
-- pebble-core/util/buffer_reader_writer.go. A BufferReader is the slice that is left to read, a
-- BufferWriter the slice written so far; a method takes its buffer and gives the new one back,
-- also beside an error.
pub mod Words
pub mod Vectors
pub mod Canonical
pub mod Returned
pub use pebble_voting_app.Base.Exec.{pure, lift, continue, ◌>>=◌, ◌>>◌, continue-eq-ok, run_step}
use pebble_voting_app.Base.Exec.{Exec}
use Prim.Native.Nat.{bit_and, bit_or}
use pebble_voting_app.Base.{
  ℕ, ◌+◌, ◌*◌, ◌/◌, ◌%◌, ◌^◌, List, [], ◌∷◌, ◌++◌, Option, none, some, ltb, leb, if◌then◌else◌,
  Bytes, length, take, drop, Result, ok, err, panic, stuck, short_buffer, non_canonical_vector,
  ◌==◌, ◌≡◌, refl, ap, ◌∙◌, arith,
}

abbrev pub Buffer {ℓ} : Type ℓ → Type ℓ
Buffer A = Exec Bytes A

-- A `Bytes()` method fills a fresh writer and returns its slice.
abbrev pub written : Result (Unit {0}) × Bytes → Result Bytes
written (ok u, w) = ok w
written (err e, w) = err e
written (panic, w) = panic
written (stuck, w) = stuck

pub written-eq-ok : (r : Result (Unit {0}) × Bytes) {w : Bytes} → written r ≡ ok w → r ≡ (ok tt, w)
written-eq-ok (ok u, w) e = ground arith
written-eq-ok (err x, w) e = absurd (ground arith)
written-eq-ok (panic, w) e = absurd (ground arith)
written-eq-ok (stuck, w) e = absurd (ground arith)

-- A `FromBytes(p)` method reads from `p` and drops the reader.
abbrev pub run {ℓ} : {A : Type ℓ} → Buffer A → Bytes → Result A
run m p = (m p).0

-- `Read(p)` for a `p` of n bytes: what was copied, and the error beside it. A short buffer is
-- copied and used up all the same.
abbrev pub read : ℕ → Bytes → (Bytes × Option (Result Bytes)) × Bytes
read n buf =
    ((take n buf, if ltb (length buf) n then some (err short_buffer) else none), drop n buf)

unfoldable pub read_bytes : ℕ → Buffer Bytes
read_bytes n buf =
    if ltb (length buf) n then (err short_buffer, buf) else (ok (take n buf), drop n buf)

unfoldable pub read32 : Buffer Bytes
read32 buf =
    if ltb (length buf) 32 then (err short_buffer, buf) else (ok (take 32 buf), drop 32 buf)

unfoldable pub read_remaining : Buffer Bytes
read_remaining buf = (ok buf, [])

unfoldable pub read_byte : Buffer ℕ
read_byte [] = (err short_buffer, [])
read_byte (b ∷ buf) = (ok b, buf)

-- `ReadVector` after its first byte `b`, and after the length `l` is known.
unfoldable pub read_vector_body : ℕ → Buffer Bytes
unfolding read_bytes
read_vector_body l = if l == 0 then pure [] else read_bytes l

unfoldable pub read_vector_length : ℕ → Buffer ℕ
unfolding read_byte
read_vector_length b =
    if ltb 127 b
    then (do
      c ← read_byte
      let l = bit_and b 127 * 256 + c
      if leb l 127 then lift (err non_canonical_vector) else pure l)
    else pure b

unfoldable pub read_vector : Buffer Bytes
unfolding read_byte read_vector_length read_vector_body
read_vector = do b ← read_byte; l ← read_vector_length b; read_vector_body l

-- `(n << 8) + uint(b)` on a word of `m = 2 ^ w` values.
abbrev pub shift_in : ℕ → ℕ → ℕ → ℕ
shift_in m n b = (n * 256 % m + b) % m

unfoldable pub read_uint16 : Buffer ℕ
read_uint16 (a ∷ b ∷ buf) = (ok (shift_in (2 ^ 16) a b), buf)
read_uint16 buf = (err short_buffer, buf)

unfoldable pub read_uint32 : Buffer ℕ
read_uint32 (a ∷ b ∷ c ∷ d ∷ buf) =
    let m = 2 ^ 32 in (ok (shift_in m (shift_in m (shift_in m a b) c) d), buf)
read_uint32 buf = (err short_buffer, buf)

unfoldable pub read_uint64 : Buffer ℕ
read_uint64 (a ∷ b ∷ c ∷ d ∷ e ∷ f ∷ g ∷ h ∷ buf) =
    let m = 2 ^ 64 in
    let high = shift_in m (shift_in m (shift_in m a b) c) d in
    (ok (shift_in m (shift_in m (shift_in m (shift_in m high e) f) g) h), buf)
read_uint64 buf = (err short_buffer, buf)

unfoldable pub write : Bytes → Buffer (Unit {0})
write p w = (ok tt, w ++ p)

-- A [32]byte is a slice of length 32.
unfoldable pub write32 : Bytes → Buffer (Unit {0})
write32 p w = (ok tt, w ++ p)

abbrev pub write_all : List Bytes → Buffer (Unit {0})
write_all [] w = (ok tt, w)
write_all (p ∷ ps) w = write_all ps (w ++ p)

unfoldable pub write_byte : ℕ → Buffer (Unit {0})
write_byte c w = (ok tt, w ++ (c ∷ []))

unfoldable pub write_vector : Bytes → Buffer (Unit {0})
write_vector p w =
    let l = length p in
    if ltb 127 l
    then (if ltb 0x7FFF l
        then (panic, w)
        else (ok tt, (w ++ (bit_or (l / 256) 128 % 256 ∷ l % 256 ∷ [])) ++ p))
    else (ok tt, (w ++ (l % 256 ∷ [])) ++ p)

unfoldable pub write_uint16 : ℕ → Buffer (Unit {0})
write_uint16 n w = (ok tt, w ++ (n / 2 ^ 8 % 256 ∷ n % 256 ∷ []))

-- The four bytes of a uint32, highest first.
abbrev pub be32 : ℕ → Bytes
be32 n = n / 2 ^ 24 % 256 ∷ n / 2 ^ 16 % 256 ∷ n / 2 ^ 8 % 256 ∷ n % 256 ∷ []

unfoldable pub write_uint32 : ℕ → Buffer (Unit {0})
write_uint32 n w = (ok tt, w ++ be32 n)

-- The eight bytes of a uint64, highest first.
abbrev pub be64 : ℕ → Bytes
be64 n =
    n / 2 ^ 56 % 256
    ∷ n / 2 ^ 48 % 256
    ∷ n / 2 ^ 40 % 256
    ∷ n / 2 ^ 32 % 256
    ∷ n / 2 ^ 24 % 256
    ∷ n / 2 ^ 16 % 256
    ∷ n / 2 ^ 8 % 256
    ∷ n % 256
    ∷ []

unfoldable pub write_uint64 : ℕ → Buffer (Unit {0})
write_uint64 n w = (ok tt, w ++ be64 n)
