-- ===== src/Util/Buffer/Canonical.antt =====
-- `ReadVector` of buffer_reader_writer.go on any input.
use pebble_voting_app.Base.{
  ℕ, ◌≤◌, ◌≡◌, ◌∙◌, ap, [], ◌∷◌, ◌++◌, arith, Bytes, ok, length, append_assoc, All,
  All-append_right, subst, length-take, take-append-drop, IsByte, sym,
}
use pebble_voting_app.Base.Bits.{low_seven}
use pebble_voting_app.Util.Buffer.{
  continue-eq-ok, read_byte, read_bytes, read_vector, read_vector_length, read_vector_body,
  continue,
}
use pebble_voting_app.Util.Buffer.Vectors.{header, vector, max_vector, read_vector-phases}

-- What a length prefix that is accepted looks like.
read_vector_length-eq :
    (b l : ℕ) (s t : Bytes)
    → IsByte b
    → All IsByte s
    → read_vector_length b s ≡ (ok l, t)
    → (b ∷ s ≡ header l ++ t) × (l ≤ max_vector)
unfolding read_vector_length read_byte
read_vector_length-eq b l [] t hb hs e = ground arith
read_vector_length-eq b l (c ∷ s) t hb hs e = ground (arith, low_seven b hb)

take_back : (n : ℕ) (s p t : Bytes) → read_bytes n s ≡ (ok p, t) → (s ≡ p ++ t) × (length p ≡ n)
unfolding read_bytes
take_back n s p t e = ground (arith, take-append-drop n s, length-take n s)

read_vector_body-eq :
    (n : ℕ) (s p t : Bytes) → read_vector_body n s ≡ (ok p, t) → (s ≡ p ++ t) × (length p ≡ n)
unfolding read_vector_body
read_vector_body-eq n s p t e = ground (arith, take_back n s p t)

rejoin :
    (l : ℕ) (s u p t : Bytes) → s ≡ header l ++ u → u ≡ p ++ t → length p ≡ l → s ≡ vector p ++ t
rejoin l s u p t f g h = rw (append_assoc, ← g, h) f

-- If `ReadVector` returns p on a slice of bytes and leaves t, the slice is what `WriteVector`
-- writes for p, followed by t, and p is not longer than the largest vector.
pub read_vector_inverse :
    (s p t : Bytes)
    → All IsByte s
    → read_vector s ≡ (ok p, t)
    → (s ≡ vector p ++ t) × (length p ≤ max_vector)
unfolding read_byte
read_vector_inverse [] p t hs e = absurd (unfold read_vector in ground (arith, ap (λ q. q.0) e))
read_vector_inverse (b ∷ s) p t hs e =
    let c : continue (read_vector_length b s) read_vector_body ≡ (ok p, t) =
      sym (read_vector-phases (b ∷ s)) ∙ e in
    let (l, u, e1, e2) =
      continue-eq-ok (read_vector_length b s) read_vector_body (ap (λ r. r.0) c) in
    let (f1, f2) = read_vector_length-eq b l s u hs.0 hs.1 e1 in
    let (g1, g2) = read_vector_body-eq l u p t (sym e2 ∙ c) in
    (rejoin l (b ∷ s) u p t f1 g1 g2, omega (arith, g2, f2))

-- The same, with what the next reads need.
pub read_vector_back :
    (s p t : Bytes)
    → All IsByte s
    → read_vector s ≡ (ok p, t)
    → (s ≡ vector p ++ t) × (length p ≤ max_vector) × All IsByte t
read_vector_back s p t hs e =
    let (f, g) = read_vector_inverse s p t hs e in
    (f, g, All-append_right IsByte (vector p) t (subst (All IsByte) f hs))
