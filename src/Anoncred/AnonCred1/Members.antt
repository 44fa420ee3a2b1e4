-- ===== src/Anoncred/AnonCred1/Members.antt =====
-- anoncred1.go: what `MakeCredentialSet` keeps of the credentials, and where `Sign` finds one.
use pebble_voting_app.Base.{
  ℕ, zero, suc, ◌+◌, ◌<◌, ◌≤◌, ◌≡◌, ◌∙◌, refl, sym, [], ◌∷◌, List, Bool, true, false, some, Bytes,
  ok, length, leb, arith, inl, inr, bytes_eq, bytes_eq→eq, Bool-cases, if◌then◌else◌,
}
use mathlib.Core.List.{Permᴰ}
use mathlib.Core.List.Permᴰ.{nil, cons, swap, trans}
use pebble_voting_app.Anoncred.AnonCred1.Sets.{without_repeats, less_bytes, less, index_of}
use pebble_voting_app.Anoncred.AnonCred1.Levels.{hash_at, AreBlocks}

-- Is the credential in the list?
abbrev pub member : List Bytes → Bytes → Bool
member [] c = false
member (b ∷ bs) c = if bytes_eq b c then true else member bs c

less_bytes-total :
    (n : ℕ) (a b : Bytes) → length a ≡ n → length b ≡ n → (r : Bool) × (less_bytes n a b ≡ ok r)
unfolding less_bytes
less_bytes-total zero a b ea eb = (true, refl)
less_bytes-total (suc n) [] b ea eb = absurd (omega arith)
less_bytes-total (suc n) (x ∷ a) [] ea eb = absurd (omega arith)
less_bytes-total (suc n) (x ∷ a) (y ∷ b) ea eb = elim (Bool-cases (leb y x)) [
  | inl below ↦ (false, rw below refl)
  | inr above ↦
      let (r, rest) = less_bytes-total n a b (omega arith) (omega arith) in (r, rw above rest)
]

pub less-total : (a b : Bytes) → length a ≡ 32 → length b ≡ 32 → (r : Bool) × (less a b ≡ ok r)
unfolding less
less-total a b ea eb = less_bytes-total 32 a b ea eb

pub index_of-member :
    (bs : List Bytes) (i : ℕ) (c : Bytes)
    → member bs c ≡ true
    → (k : ℕ) × (index_of bs i c ≡ some (i + k)) × (k < length bs) × (hash_at bs k ≡ c)
unfolding index_of
index_of-member [] i c m = absurd (ground arith)
index_of-member (b ∷ bs) i c m = elim (Bool-cases (bytes_eq b c)) [
  | inl same ↦ (0, ground arith, omega arith, bytes_eq→eq b c same)
  | inr other ↦
      let behind : member bs c ≡ true = ground arith in
      let (k, at, lt, there) = index_of-member bs (i + 1) c behind in
      let place : i + 1 + k ≡ i + suc k = omega arith in
      (suc k, rw (other, sym place) at, omega (arith, lt), there)
]

pub without_repeats-member :
    (last : Bytes) (cs : List Bytes) (c : Bytes)
    → member (last ∷ cs) c ≡ true
    → member (last ∷ without_repeats last cs) c ≡ true
unfolding without_repeats
without_repeats-member last [] c m = m
without_repeats-member last (b ∷ bs) c m = elim (Bool-cases (bytes_eq last c)) [
  | inl first ↦ rw first refl
  | inr later ↦
      let behind : member (b ∷ bs) c ≡ true = ground arith in
      let rest = without_repeats-member b bs c behind in
      elim (Bool-cases (bytes_eq last b)) [
        | inl same ↦ rw (same, bytes_eq→eq last b same) rest
        | inr other ↦ rw (later, other) rest
      ]
]

pub without_repeats-AreBlocks :
    (last : Bytes) (cs : List Bytes) → AreBlocks cs → AreBlocks (without_repeats last cs)
unfolding without_repeats
without_repeats-AreBlocks last [] h = tt
without_repeats-AreBlocks last (b ∷ bs) h = elim (Bool-cases (bytes_eq last b)) [
  | inl same ↦ rw same (without_repeats-AreBlocks b bs h.1)
  | inr other ↦ rw other (h.0, without_repeats-AreBlocks b bs h.1)
]

pub length-without_repeats :
    (last : Bytes) (cs : List Bytes) → length (without_repeats last cs) ≤ length cs
unfolding without_repeats
length-without_repeats last [] = omega arith
length-without_repeats last (b ∷ bs) = ground (arith, length-without_repeats b bs)

either :
    (p q r : Bool)
    → (if p then true else (if q then true else r)) ≡ (if q then true else (if p then true else r))
either true true r = refl
either true false r = refl
either false true r = refl
either false false r = refl

pub Perm-member : {xs ys : List Bytes} (c : Bytes) → Permᴰ xs ys → member xs c ≡ member ys c
Perm-member c nil = refl
Perm-member c (cons {a} {b} e p) = rw (e, Perm-member c p)
Perm-member c (swap {a' = a'} {b' = b'} {l = l} e f) =
    rw (e, f) (either (bytes_eq b' c) (bytes_eq a' c) (member l c))
Perm-member c (trans p q) = Perm-member c p ∙ Perm-member c q

pub Perm-length : {xs ys : List Bytes} → Permᴰ xs ys → length xs ≡ length ys
Perm-length nil = refl
Perm-length (cons e p) = omega (arith, Perm-length p)
Perm-length (swap e f) = omega arith
Perm-length (trans p q) = Perm-length p ∙ Perm-length q

pub Perm-AreBlocks : {xs ys : List Bytes} → Permᴰ xs ys → AreBlocks xs → AreBlocks ys
Perm-AreBlocks nil h = tt
Perm-AreBlocks (cons e p) h = (rw (sym e) h.0, Perm-AreBlocks p h.1)
Perm-AreBlocks (swap e f) h = (rw (sym f) h.1.0, (rw (sym e) h.0, h.1.1))
Perm-AreBlocks (trans p q) h = Perm-AreBlocks q (Perm-AreBlocks p h)
