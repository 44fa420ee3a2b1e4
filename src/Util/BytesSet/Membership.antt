-- ===== src/Util/BytesSet/Membership.antt =====
-- bytes_set.go: what `Contains` finds.
use pebble_voting_app.Base.{
  ℕ, zero, suc, ◌+◌, ◌-◌, ◌≡◌, [], ◌∷◌, List, Bool, true, false, ◌&&◌, ◌||◌, Bytes, ok, some,
  length, get_elem?, bytes_eq, arith, Option-cases, inl, inr,
}
use Prim.Native.Nat.{bit_and}
use pebble_voting_app.Util.BytesSet.{Bucket, BytesSet, hash_bytes, probe, contains}

-- Is the slice in a filled bucket?
abbrev pub holds : List Bucket → Bytes → Bool
holds [] p = false
holds (b ∷ v) p = (b.filled && bytes_eq p b.value) || holds v p

pub found :
    (v : List Bucket) (i : ℕ) (b : Bucket) (p : Bytes)
    → get_elem? v i ≡ some b
    → b.filled ≡ true
    → bytes_eq p b.value ≡ true
    → holds v p ≡ true
found [] i b p e f g = cc
found (a ∷ v) zero b p e f g = ground arith
found (a ∷ v) (suc i) b p e f g = ground (arith, found v i b p e f g)

probe_sound :
    (fuel : ℕ) (v : List Bucket) (p : Bytes) (i : ℕ) → probe fuel v p i ≡ ok true → holds v p ≡ true
unfolding probe
probe_sound zero v p i e = absurd (ground arith)
probe_sound (suc fuel) v p i e = elim (Option-cases (get_elem? v i)) [
  | inl missing ↦ absurd (ground arith)
  | inr (b, there) ↦
      ground (arith, found v i b p there, probe_sound fuel v p (bit_and (i + 1) (length v - 1)))
]

-- If `Contains` returns true for a slice, some filled bucket of the table holds that slice.
pub contains_sound : (s : BytesSet) (p : Bytes) → contains s p ≡ ok true → holds s.v p ≡ true
unfolding contains
contains_sound s p e =
    ground (arith, probe_sound (suc (length s.v)) s.v p (bit_and (hash_bytes p) (length s.v - 1)))
