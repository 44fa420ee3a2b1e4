-- ===== src/Voting/Election/Readable.antt =====
-- `GetCredentialSet` of election.go over anoncred1.go: the map of credentials has single blocks.
use pebble_voting_app.Base.{
  ℕ, suc, ◌+◌, ◌-◌, ◌≤◌, ◌<◌, ◌≡◌, ◌∙◌, sym, ap, [], ◌∷◌, List, inl, inr, Bytes, ok, length, map,
  arith, All, ◌==◌, Bool-cases, bytes_eq, ==_iff,
}
use pebble_voting_app.Anoncred.AnonCred1.{read_public_credential}
use pebble_voting_app.Anoncred.AnonCred1.Levels.{AreBlocks}
use pebble_voting_app.Voting.Election.{insert}

-- A map of credentials, each a block, with no more than `n` entries.
abbrev pub AreRead : ℕ → List (Bytes × Bytes) → Type 0
AreRead n m = All (λ (p : Bytes × Bytes). length p.1 ≡ 32) m × (length m ≤ n)

insert-All :
    (k v : Bytes) (m : List (Bytes × Bytes))
    → length v ≡ 32
    → All (λ (p : Bytes × Bytes). length p.1 ≡ 32) m
    → All (λ (p : Bytes × Bytes). length p.1 ≡ 32) (insert k v m)
unfolding insert
insert-All k v [] b h = (b, tt)
insert-All k v ((j, w) ∷ m) b h = elim (Bool-cases (bytes_eq j k)) [
  | inl same ↦ rw same (b, h.1)
  | inr other ↦ rw other (h.0, insert-All k v m b h.1)
]

length-insert : (k v : Bytes) (m : List (Bytes × Bytes)) → length (insert k v m) ≤ length m + 1
unfolding insert
length-insert k v [] = omega arith
length-insert k v ((j, w) ∷ m) = ground (arith, length-insert k v m)

read-IsBlock : (c v : Bytes) → read_public_credential c ≡ ok v → length v ≡ 32
unfolding read_public_credential
read-IsBlock c v e = elim (Bool-cases (length c == 32)) [
  | inl wide ↦
      let same : c ≡ v = ground arith in ap length (sym same) ∙ (==_iff (length c) 32).0 wide
  | inr other ↦ absurd (ground arith)
]

pub insert-AreRead :
    (n : ℕ) (k c v : Bytes) (m : List (Bytes × Bytes))
    → read_public_credential c ≡ ok v
    → AreRead n m
    → AreRead (suc n) (insert k v m)
insert-AreRead n k c v m e h =
    (insert-All k v m (read-IsBlock c v e) h.0, omega (arith, length-insert k v m, h.1))

pub values-AreBlocks :
    (n : ℕ) (m : List (Bytes × Bytes))
    → AreRead n m
    → AreBlocks (map (λ (p : Bytes × Bytes). p.1) m)
      × (length (map (λ (p : Bytes × Bytes). p.1) m) ≤ n)
values-AreBlocks n [] h = (tt, omega arith)
values-AreBlocks n (p ∷ m) h =
    let some_n : 0 < n = omega (arith, h.1) in
    let (blocks, small) = values-AreBlocks (n - 1) m (h.0.1, omega (arith, h.1)) in
    ((h.0.0, blocks), omega (arith, small, some_n))
