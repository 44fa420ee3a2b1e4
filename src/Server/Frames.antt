-- ===== src/Server/Frames.antt =====
-- server.go: how the messages of a channel are written into one response.
use Prim.Native.Nat.{bit_or}
use pebble_voting_app.Base.{
  ℕ, suc, ◌/◌, ◌%◌, ◌≤◌, ◌≡◌, ◌∙◌, sym, subst, ap, refl, [], ◌∷◌, ◌++◌, List, Bytes, Result, ok,
  length, ltb, if◌then◌else◌, ◌>>=◌, arith, false, true, Bool-cases, inl, inr, tests, All,
  append-nil,
}
use pebble_voting_app.Base.Bits.{set_top}
use pebble_voting_app.Util.Buffer.Vectors.{vector, max_vector}
use pebble_voting_app.Voting.Params.{read_vectors}
use pebble_voting_app.Voting.Params.RoundTrip.{vectors, read_vectors-vectors}
use pebble_voting_app.Voting.Message
use pebble_voting_app.Voting.Message.{Message}
use pebble_voting_app.Voting.Message.RoundTrip.{Postable, from_bytes-bytes}

-- One round of the loop: the length in one byte or two, and the message.
unfoldable pub frame : Bytes → Bytes
frame p =
    let l = length p in if ltb l 128 then l % 256 ∷ p else bit_or (l / 256 % 256) 128 ∷ l % 256 ∷ p

-- A message that cannot be written makes the handler panic.
unfoldable pub frames : List Message → Result Bytes
unfolding frame
frames [] = ok []
frames (m ∷ ms) = do p ← Message.bytes m; rest ← frames ms; ok (frame p ++ rest)

-- A frame is what `WriteVector` writes.
frame-vector : (p : Bytes) → length p ≤ max_vector → frame p ≡ vector p
unfolding frame
frame-vector p le = elim (Bool-cases (ltb (length p) 128)) [
  | inl short ↦
      let low : length p % 256 ≡ length p = omega (tests) in
      let e : ltb 127 (length p) ≡ false = ground arith in rw (short, e, low) refl
  | inr long ↦
      let e : ltb 127 (length p) ≡ true = ground arith in
      let high : length p / 256 % 256 ≡ length p / 256 = omega arith in
      rw (long, e, high, set_top (length p / 256) (omega arith)) refl
]

-- `MessageFromBytes` of each slice.
abbrev pub read_each : List Bytes → Result (List Message)
read_each [] = ok []
read_each (p ∷ ps) = do m ← Message.from_bytes p; ms ← read_each ps; ok (m ∷ ms)

-- The message can be sent: it is read back, and written in at most 0x7FFF bytes.
abbrev pub IsShort : Message → Type 0
IsShort m = Postable m × (p : Bytes) × (Message.bytes m ≡ ok p) × (length p ≤ max_vector)

framed :
    (ms : List Message)
    → All IsShort ms
    → (ps : List Bytes) × (frames ms ≡ ok (vectors ps))
      × All (λ p. length p ≤ max_vector) ps
      × (length ps ≡ length ms)
      × (read_each ps ≡ ok ms)
unfolding frames
framed [] h = ([], refl, tt, refl, refl)
framed (m ∷ ms) (own, others) =
    let (fits, p, written, le) = own in
    let (ps, rest, short, size, each) = framed ms others in
    let back =
      ap (λ (r : Result Bytes). r >>= Message.from_bytes) (sym written) ∙ from_bytes-bytes fits in
    (
      p ∷ ps,
      rw (written, rest, frame-vector p le) refl,
      (le, short),
      ap suc size,
      rw (back, each) refl,
    )

read_vectors_end :
    (ps : List Bytes) (n : ℕ)
    → All (λ p. length p ≤ max_vector) ps
    → length ps ≡ n
    → read_vectors n (vectors ps) ≡ (ok ps, [])
read_vectors_end ps n short size =
    subst (λ k. read_vectors k (vectors ps) ≡ (ok ps, [])) size
      (subst (λ b. read_vectors (length ps) b ≡ (ok ps, [])) (append-nil (vectors ps))
        (read_vectors-vectors ps [] short))

-- What is written for messages of at most 0x7FFF bytes each is a sequence of vectors, from which
-- `ReadVector` and `MessageFromBytes` read exactly these messages in their order.
pub frames-read_vectors :
    (ms : List Message)
    → All IsShort ms
    → (body : Bytes) × (ps : List Bytes) × (frames ms ≡ ok body)
      × (read_vectors (length ms) body ≡ (ok ps, []))
      × (read_each ps ≡ ok ms)
frames-read_vectors ms h =
    let (ps, written, short, size, each) = framed ms h in
    (vectors ps, ps, written, read_vectors_end ps (length ms) short size, each)
