-- ===== src/Structs/EligibilityList/Decoding.antt =====
-- eligibility_list.go: `FromBytes` on any input.
use pebble_voting_app.Base.{
  ◌*◌, ◌≤◌, ◌≡◌, ◌∙◌, ap, sym, subst, refl, [], ◌∷◌, ◌++◌, arith, Bytes, Result, ok, err, panic,
  length, ltb, if◌then◌else◌, short_buffer, length-drop, length-append, All, le→ltb, List,
}
use pebble_voting_app.Util.Buffer.{read_uint32, read32, be32}
use pebble_voting_app.Structs.EligibilityList.{
  EligibilityList, cleared, add, ell_magic, read_entries, from_bytes, bytes, entries, id_commitment,
}

-- What the input after the magic number leads to.
abbrev pub outcome : Bytes → Result EligibilityList
outcome [] = ok cleared
outcome (b ∷ s) = if ltb (length (b ∷ s)) 64 then err short_buffer else panic

read_entries-cleared : (s : Bytes) → (read_entries (length s) cleared s).0 ≡ outcome s
unfolding read_entries read32 add
read_entries-cleared [] = refl
read_entries-cleared (b ∷ s) = ground (arith, length-drop 32 (b ∷ s))

-- After the right magic number, `FromBytes` gives an empty list if nothing follows, a
-- short-buffer error if 1 to 63 bytes follow, and a panic if 64 bytes or more follow.
pub from_bytes-magic : (s : Bytes) → from_bytes (be32 ell_magic ++ s) ≡ outcome s
unfolding from_bytes read_uint32
from_bytes-magic s = read_entries-cleared s

length-entries :
    (list : EligibilityList) (ks : List Bytes)
    → All (λ k. length k ≡ 32) ks
    → ((k : Bytes) → length (id_commitment list k).0 ≡ 32)
    → length (entries list ks) ≡ 64 * length ks
unfolding entries
length-entries list [] h g = omega arith
length-entries list (k ∷ ks) h g = omega (
  arith,
  length-append k ((id_commitment list k).0 ++ entries list ks),
  length-append (id_commitment list k).0 (entries list ks),
  length-entries list ks h.1 g,
  g k,
  h.0,
)

outcome-panic : (s : Bytes) → 64 ≤ length s → outcome s ≡ panic
outcome-panic [] h = absurd (omega arith)
outcome-panic (b ∷ s) h = rw (le→ltb (length (b ∷ s)) 64 h)

-- `FromBytes` panics on the bytes of a list that has a key, if its keys and commitments are 32
-- bytes long.
pub from_bytes-bytes_panic :
    (list : EligibilityList) (k : Bytes) (ks : List Bytes)
    → list.public_key_hashes ≡ k ∷ ks
    → All (λ h. length h ≡ 32) (k ∷ ks)
    → ((h : Bytes) → length (id_commitment list h).0 ≡ 32)
    → from_bytes (bytes list) ≡ panic
unfolding bytes
from_bytes-bytes_panic list k ks e h g =
    let hs = list.public_key_hashes in
    let sizes : All (λ j. length j ≡ 32) hs = subst (All (λ j. length j ≡ 32)) (sym e) h in
    from_bytes-magic (entries list hs)
    ∙ outcome-panic (entries list hs)
        (omega (arith, length-entries list hs sizes g, ap (λ (js : List Bytes). length js) e))
