-- ===== src/Anoncred/AnonCred1/Parameters/RoundTrip.antt =====
-- anoncred1.go: parameters that are written and read back.
use pebble_voting_app.Base.{
  ℕ, ◌+◌, ◌-◌, ◌%◌, ◌^◌, ◌<◌, ◌≤◌, ◌≡◌, ◌∙◌, ap, sym, refl, false, [], ◌++◌, Bytes, ok, >>=-eq-ok,
  ok_injective, subst, append-nil, length, drop, ltb, arith, length-append, append_assoc,
  take-append, drop-append,
}
use pebble_voting_app.Anoncred.Gnark.{Gnark}
use pebble_voting_app.Anoncred.AnonCred1.{AnonCred1}
use pebble_voting_app.Anoncred.AnonCred1.Parameters.{
  append_uint32, get_uint32, slice, header, joined, to_bytes, from_bytes,
}

get_uint32-append_uint32 :
    (n : ℕ) (rest : Bytes) → n < 2 ^ 32 → get_uint32 (append_uint32 [] (n % 2 ^ 32) ++ rest) ≡ ok n
unfolding get_uint32 append_uint32
get_uint32-append_uint32 n rest small = ap ok (omega arith)

slice-append :
    (a b c : Bytes) (i j : ℕ) → i ≡ length a → j ≡ i + length b → slice (a ++ (b ++ c)) i j ≡ ok b
slice-append a b c i j at to =
    let e : ltb j i ≡ false = ground arith in
    let l1 = length-append a (b ++ c) in
    let l2 = length-append b c in
    let f : ltb (length (a ++ (b ++ c))) j ≡ false = ground (arith, l1, l2, at, to) in
    let size : j - i ≡ length b = omega arith in rw (e, f, size, at, drop-append, take-append) refl

-- The readers of the library take back what the writers gave.
pub record Reads (g : Gnark) : Type 0 where
  pub constraints :
      (cs : g.ConstraintSystem) (b : Bytes)
      → g.write_constraints cs ≡ ok b
      → g.read_constraints b ≡ ok cs
  pub proving_key :
      (pk : g.ProvingKey) (b : Bytes) → g.write_proving_key pk ≡ ok b → g.read_proving_key b ≡ ok pk
  pub verifying_key :
      (vk : g.VerifyingKey) (b : Bytes)
      → g.write_verifying_key vk ≡ ok b
      → g.read_verifying_key b ≡ ok vk

module _ (g : Gnark) where
  parsed :
      (b cs pk vk : Bytes) (params : AnonCred1 g)
      → 16 ≤ length b
      → get_uint32 b ≡ ok params.depth
      → get_uint32 (drop 4 b) ≡ ok (length cs)
      → get_uint32 (drop 8 b) ≡ ok (length pk)
      → get_uint32 (drop 12 b) ≡ ok (length vk)
      → slice b 16 (16 + length cs) ≡ ok cs
      → slice b (16 + length cs) (16 + length cs + length pk) ≡ ok pk
      → slice b (16 + length cs + length pk) (16 + length cs + length pk + length vk) ≡ ok vk
      → g.read_constraints cs ≡ ok params.cs
      → g.read_proving_key pk ≡ ok params.pk
      → g.read_verifying_key vk ≡ ok params.vk
      → from_bytes g b ≡ ok params
  unfolding from_bytes
  parsed b cs pk vk params long d c p v sc sp sv rc rp rv =
      let e4 : ltb (length b) 4 ≡ false = ground arith in
      let e8 : ltb (length b) 8 ≡ false = ground arith in
      let e12 : ltb (length b) 12 ≡ false = ground arith in
      rw (e4, e8, e12, d, c, p, v, sc, rc, sp, rp, sv, rv) refl

  -- The parts of a joined slice start where the lengths before them end.
  parts :
      (h cs pk vk : Bytes)
      → length h ≡ 16
      → (slice (((h ++ cs) ++ pk) ++ vk) 16 (16 + length cs) ≡ ok cs)
        × (slice (((h ++ cs) ++ pk) ++ vk) (16 + length cs) (16 + length cs + length pk) ≡ ok pk)
        × (slice
              (((h ++ cs) ++ pk) ++ vk)
              (16 + length cs + length pk)
              (16 + length cs + length pk + length vk)
            ≡ ok vk)
  parts h cs pk vk size =
      let first : ((h ++ cs) ++ pk) ++ vk ≡ h ++ (cs ++ (pk ++ vk)) =
        append_assoc (h ++ cs) pk vk ∙ append_assoc h cs (pk ++ vk) in
      let l1 = length-append h cs in
      let l2 = length-append (h ++ cs) pk in
      (
        rw first (slice-append h cs (pk ++ vk) _ _ (omega arith) refl),
        rw (append_assoc (h ++ cs) pk vk) (slice-append (h ++ cs) pk vk _ _ (omega arith) refl),
        (let last =
              slice-append ((h ++ cs) ++ pk) vk [] (16 + length cs + length pk)
                (16 + length cs + length pk + length vk) (omega arith) refl in
            rw (append-nil vk) at last),
      )

  joined-parsed :
      (cs pk vk : Bytes) (params : AnonCred1 g)
      → params.depth < 2 ^ 32
      → length (joined params.depth cs pk vk) < 2 ^ 32
      → g.read_constraints cs ≡ ok params.cs
      → g.read_proving_key pk ≡ ok params.pk
      → g.read_verifying_key vk ≡ ok params.vk
      → from_bytes g (joined params.depth cs pk vk) ≡ ok params
  unfolding append_uint32
  joined-parsed cs pk vk params small fits rc rp rv =
      let h = header params.depth (length cs) (length pk) (length vk) in
      let l1 = length-append h cs in
      let l2 = length-append (h ++ cs) pk in
      let l3 = length-append ((h ++ cs) ++ pk) vk in
      let (sc, sp, sv) = parts h cs pk vk (omega arith) in
      parsed (joined params.depth cs pk vk) cs pk vk params (omega arith)
        (get_uint32-append_uint32 params.depth _ small)
        (get_uint32-append_uint32 (length cs) _ (omega arith))
        (get_uint32-append_uint32 (length pk) _ (omega arith))
        (get_uint32-append_uint32 (length vk) _ (omega arith)) sc sp sv rc rp rv

  -- Parameters that `ToBytes` writes in less than 2 to the 32 bytes, of a depth below 2 to the 32,
  -- are what `FromBytes` reads back, when the library's readers take back what its writers gave.
  pub from_bytes-to_bytes :
      Reads g
      → (params : AnonCred1 g) (b : Bytes) → params.depth < 2 ^ 32
      → to_bytes g params ≡ ok b
      → length b < 2 ^ 32
      → from_bytes g b ≡ ok params
  unfolding to_bytes
  from_bytes-to_bytes reads params b small written fits =
      let (cs, wc, t1) = >>=-eq-ok (g.write_constraints params.cs) _ written in
      let (pk, wp, t2) = >>=-eq-ok (g.write_proving_key params.pk) _ t1 in
      let (vk, wv, t3) = >>=-eq-ok (g.write_verifying_key params.vk) _ t2 in
      let same = ok_injective t3 in
      subst (λ x. from_bytes g x ≡ ok params) same
        (joined-parsed cs pk vk params small
          (subst (λ (x : Bytes). length x < 2 ^ 32) (sym same) fits)
          (reads.constraints params.cs cs wc) (reads.proving_key params.pk pk wp)
          (reads.verifying_key params.vk vk wv))
