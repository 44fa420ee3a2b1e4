-- ===== src/Anoncred/AnonCred1/Levels.antt =====
-- anoncred1.go: one level of the Merkle tree, in `hashMerkleTree` and in `prove`.
use pebble_voting_app.Base.{
  ℕ, zero, suc, ◌+◌, ◌/◌, ◌<◌, ◌≡◌, ◌∙◌, ap, refl, [], ◌∷◌, ◌++◌, List, true, false, ◌⊎◌, inl, inr,
  Bytes, Result, ok, length, length-append, arith, All, append_assoc, ◌==◌, append-nil,
}
use pebble_voting_app.Anoncred.Gnark.{Gnark, HashesAgree}
use pebble_voting_app.Anoncred.AnonCred1.{Level, next_level, prove_level}

-- Every hash is one block.
abbrev pub AreBlocks : List Bytes → Type 0
AreBlocks = All (λ h. length h ≡ 32)

-- The hash at a place; empty where there is none.
abbrev pub hash_at : List Bytes → ℕ → Bytes
hash_at [] k = []
hash_at (h ∷ hs) zero = h
hash_at (h ∷ hs) (suc k) = hash_at hs k

pub hash_at-IsBlock :
    (hs : List Bytes) (k : ℕ) → AreBlocks hs → k < length hs → length (hash_at hs k) ≡ 32
hash_at-IsBlock [] k h lt = absurd (omega arith)
hash_at-IsBlock (a ∷ hs) zero h lt = h.0
hash_at-IsBlock (a ∷ hs) (suc k) h lt = hash_at-IsBlock hs k h.1 (omega arith)

module _ (g : Gnark) (agree : HashesAgree g) where
  open g use {Var, bit_zero, bit_one, value, select, mimc_vars}

  -- The next level, its hashes computed by `node`.
  abbrev pub parents : List Bytes → List Bytes
  parents [] = []
  parents (a ∷ []) = agree.node a a ∷ []
  parents (a ∷ b ∷ hs) = agree.node a b ∷ parents hs

  pub next_level-ok : (hs : List Bytes) → AreBlocks hs → next_level g hs ≡ ok (parents hs)
  unfolding next_level
  next_level-ok [] h = refl
  next_level-ok (a ∷ []) h = rw (agree.mimc-ok a a h.0 h.0)
  next_level-ok (a ∷ b ∷ hs) h = rw (agree.mimc-ok a b h.0 h.1.0, next_level-ok hs h.1.1)

  pub parents-AreBlocks : (hs : List Bytes) → AreBlocks (parents hs)
  parents-AreBlocks [] = tt
  parents-AreBlocks (a ∷ []) = (agree.length-node a a, tt)
  parents-AreBlocks (a ∷ b ∷ hs) = (agree.length-node a b, parents-AreBlocks hs)

  pub length-parents : (hs : List Bytes) → length (parents hs) ≡ (length hs + 1) / 2
  length-parents [] = omega arith
  length-parents (a ∷ []) = omega arith
  length-parents (a ∷ b ∷ hs) = omega (arith, length-parents hs)

  -- The direction and the sibling of the hash at a place.
  abbrev pub direction : List Bytes → ℕ → Var
  direction [] k = bit_zero
  direction (a ∷ []) k = bit_zero
  direction (a ∷ b ∷ hs) zero = bit_one
  direction (a ∷ b ∷ hs) (suc zero) = bit_zero
  direction (a ∷ b ∷ hs) (suc (suc k)) = direction hs k

  abbrev pub sibling : List Bytes → ℕ → Bytes
  sibling [] k = []
  sibling (a ∷ []) k = a
  sibling (a ∷ b ∷ hs) zero = b
  sibling (a ∷ b ∷ hs) (suc zero) = a
  sibling (a ∷ b ∷ hs) (suc (suc k)) = sibling hs k

  pub direction-bit :
      (hs : List Bytes) (k : ℕ) → (direction hs k ≡ bit_zero) ⊎ (direction hs k ≡ bit_one)
  direction-bit [] k = inl refl
  direction-bit (a ∷ []) k = inl refl
  direction-bit (a ∷ b ∷ hs) zero = inr refl
  direction-bit (a ∷ b ∷ hs) (suc zero) = inl refl
  direction-bit (a ∷ b ∷ hs) (suc (suc k)) = direction-bit hs k

  -- What the circuit computes from them is the parent.
  pub mimc_vars-sibling :
      (hs : List Bytes) (k : ℕ)
      → AreBlocks hs
      → k < length hs
      → (let d = direction hs k in
          let s = value (sibling hs k) in
          let x = value (hash_at hs k) in
          mimc_vars (select d x s) (select d s x) ≡ value (hash_at (parents hs) (k / 2)))
  mimc_vars-sibling [] k h lt = absurd (omega arith)
  mimc_vars-sibling (a ∷ []) zero h lt = rw agree.select-zero (agree.mimc_vars-value a a h.0 h.0)
  mimc_vars-sibling (a ∷ []) (suc k) h lt = absurd (omega arith)
  mimc_vars-sibling (a ∷ b ∷ hs) zero h lt =
      rw (agree.select-one, agree.select-one) (agree.mimc_vars-value a b h.0 h.1.0)
  mimc_vars-sibling (a ∷ b ∷ hs) (suc zero) h lt =
      rw (agree.select-zero, agree.select-zero) (agree.mimc_vars-value a b h.0 h.1.0)
  mimc_vars-sibling (a ∷ b ∷ hs) (suc (suc k)) h lt =
      let half : suc (suc k) / 2 ≡ suc (k / 2) = omega arith in
      rw half (mimc_vars-sibling hs k h.1.1 (omega arith))

  -- The inner loop of `prove` behind the credential only hashes.
  prove_level-past :
      (idx i : ℕ) (hs : List Bytes) (l : Level g)
      → idx < i
      → AreBlocks hs
      → prove_level g idx i hs l ≡ ok (record l { hashes = l.hashes ++ parents hs })
  unfolding prove_level
  prove_level-past idx i [] l lt h = rw append-nil
  prove_level-past idx i (a ∷ []) l lt h =
      let e : (idx == i) ≡ false = ground arith in rw (e, agree.mimc-ok a a h.0 h.0)
  prove_level-past idx i (a ∷ b ∷ hs) l lt h =
      let e : (i == idx) ≡ false = ground arith in
      let f : (i + 1 == idx) ≡ false = ground arith in
      rw (e, f, agree.mimc-ok a b h.0 h.1.0)
        (prove_level-past idx (i + 2) hs _ (omega arith) h.1.1 ∙ ap ok (rw append_assoc))

  -- From the credential's place on it also keeps direction, sibling and the next place.
  abbrev pub passed : Level g → List Bytes → ℕ → Level g
  passed l hs k = record {
    hashes = l.hashes ++ parents hs;
    index = length l.hashes + k / 2;
    directions = l.directions ++ (direction hs k ∷ []);
    side_hashes = l.side_hashes ++ (value (sibling hs k) ∷ []);
  }

  ok-level :
      {hs hs' : List Bytes} {k k' : ℕ} {ds ss : List Var}
      → hs ≡ hs'
      → k ≡ k'
      → (let level : List Bytes → ℕ → Result (Level g) =
            λ xs j. ok (record { hashes = xs; index = j; directions = ds; side_hashes = ss }) in
          level hs k ≡ level hs' k')
  ok-level p q = rw (p, q)

  pub prove_level-passed :
      (idx i k : ℕ) (hs : List Bytes) (l : Level g)
      → idx ≡ i + k
      → k < length hs
      → AreBlocks hs
      → prove_level g idx i hs l ≡ ok (passed l hs k)
  unfolding prove_level
  prove_level-passed idx i k [] l at lt h = absurd (omega arith)
  prove_level-passed idx i zero (a ∷ []) l at lt h =
      let e : (idx == i) ≡ true = ground arith in
      rw (e, agree.mimc-ok a a h.0 h.0) (ok-level refl (omega arith))
  prove_level-passed idx i (suc k) (a ∷ []) l at lt h = absurd (omega arith)
  prove_level-passed idx i zero (a ∷ b ∷ hs) l at lt h =
      let e : (i == idx) ≡ true = ground arith in
      rw (e, agree.mimc-ok a b h.0 h.1.0)
        (prove_level-past idx (i + 2) hs _ (omega arith) h.1.1
          ∙ ok-level (append_assoc l.hashes _ _) (omega arith))
  prove_level-passed idx i (suc zero) (a ∷ b ∷ hs) l at lt h =
      let e : (i == idx) ≡ false = ground arith in
      let f : (i + 1 == idx) ≡ true = ground arith in
      rw (e, f, agree.mimc-ok a b h.0 h.1.0)
        (prove_level-past idx (i + 2) hs _ (omega arith) h.1.1
          ∙ ok-level (append_assoc l.hashes _ _) (omega arith))
  prove_level-passed idx i (suc (suc k)) (a ∷ b ∷ hs) l at lt h =
      let e : (i == idx) ≡ false = ground arith in
      let f : (i + 1 == idx) ≡ false = ground arith in
      rw (e, f, agree.mimc-ok a b h.0 h.1.0)
        (prove_level-passed idx (i + 2) k hs _ (omega arith) (omega arith) h.1.1
          ∙ ok-level (append_assoc l.hashes _ _)
              (omega (arith, length-append l.hashes (agree.node a b ∷ []))))
