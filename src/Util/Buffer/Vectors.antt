-- ===== src/Util/Buffer/Vectors.antt =====
-- Length-prefixed vectors of buffer_reader_writer.go: `ReadVector` after `WriteVector`.
use Prim.Native.Nat.{bit_or}
use pebble_voting_app.Base.{
  length-append, ℕ, suc, ◌==◌, ◌+◌, ◌/◌, ◌%◌, ◌≤◌, ◌<◌, ◌≡◌, refl, [], ◌∷◌, ◌++◌, arith, Bytes, ok,
  panic, length, append_assoc, ltb, le→ltb, lt→ltb, if◌then◌else◌, Bool-cases, inl, inr, false,
  tests,
}
use pebble_voting_app.Base.Bits.{low_seven, set_top}
use pebble_voting_app.Util.Buffer.{
  continue, read_byte, read_bytes, read_vector, read_vector_length, read_vector_body, write_vector,
}
use pebble_voting_app.Util.Buffer.Words.{take_front}

-- The largest vector that `WriteVector` accepts.
abbrev pub max_vector : ℕ
max_vector = 0x7FFF

-- The length prefix in plain arithmetic.
abbrev pub header : ℕ → Bytes
header l = if ltb 127 l then (l / 256 + 128) ∷ l % 256 ∷ [] else l ∷ []

abbrev pub vector : Bytes → Bytes
vector p = header (length p) ++ p

pub write_vector-ok :
    (p w : Bytes) → length p ≤ max_vector → write_vector p w ≡ (ok tt, w ++ vector p)
unfolding write_vector
write_vector-ok p w h = elim (Bool-cases (ltb 127 (length p))) [
  | inl long ↦
      let top : (length p / 256 + 128) % 256 ≡ length p / 256 + 128 = omega arith in
      rw (long, le→ltb 0x7FFF _ h, set_top (length p / 256) (omega arith), top, append_assoc)
  | inr short ↦ let low : length p % 256 ≡ length p = omega (tests) in rw (short, low, append_assoc)
]

-- A longer slice makes `WriteVector` panic.
pub write_vector-panic : (p w : Bytes) → max_vector < length p → write_vector p w ≡ (panic, w)
unfolding write_vector
write_vector-panic p w h = rw (lt→ltb 127 (length p) (omega arith), lt→ltb 0x7FFF _ h)

read_vector_length-header :
    (l : ℕ) (rest : Bytes)
    → l ≤ max_vector
    → continue (read_byte (header l ++ rest)) read_vector_length ≡ (ok l, rest)
unfolding read_byte read_vector_length
read_vector_length-header l rest h = elim (Bool-cases (ltb 127 l)) [
  | inl long ↦ rw long (ground (arith, low_seven (l / 256 + 128)))
  | inr short ↦ rw (short, read_vector_length, short)
]

read_vector_body-front : (p rest : Bytes) → read_vector_body (length p) (p ++ rest) ≡ (ok p, rest)
unfolding read_vector_body read_bytes
read_vector_body-front [] rest = refl
read_vector_body-front (x ∷ p) rest =
    let more : (suc (length p) == 0) ≡ false = ground arith in
    rw (read_vector_body, more) (take_front (x ∷ p) rest (suc (length p)) refl)

-- `read_vector` regrouped: the length first, then the body.
pub read_vector-phases :
    (s : Bytes)
    → read_vector s ≡ continue (continue (read_byte s) read_vector_length) read_vector_body
unfolding read_vector
read_vector-phases [] = refl
read_vector-phases (b ∷ s) = refl

-- `ReadVector` takes back what `WriteVector` appends for a slice of up to 0x7FFF bytes, and leaves
-- whatever follows it.
pub read_vector-vector :
    (p rest : Bytes) → length p ≤ max_vector → read_vector (vector p ++ rest) ≡ (ok p, rest)
read_vector-vector p rest h =
    rw
      (
        read_vector-phases,
        append_assoc (header (length p)) p rest,
        read_vector_length-header (length p) (p ++ rest) h,
      )
      (read_vector_body-front p rest)

-- A vector that is written makes the buffer longer, by its length and a byte at least.
pub write_vector-grows :
    (p w w' : Bytes) → write_vector p w ≡ (ok tt, w') → length w + length p < length w'
unfolding write_vector
write_vector-grows p w w' e = ground (
  arith,
  length-append (w ++ (bit_or (length p / 256) 128 % 256 ∷ length p % 256 ∷ [])) p,
  length-append w (bit_or (length p / 256) 128 % 256 ∷ length p % 256 ∷ []),
  length-append (w ++ (length p % 256 ∷ [])) p,
  length-append w (length p % 256 ∷ []),
)
