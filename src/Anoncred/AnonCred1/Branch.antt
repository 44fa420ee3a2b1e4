-- ===== src/Anoncred/AnonCred1/Branch.antt =====
-- anoncred1.go: the branch of the Merkle tree that `prove` gives to the circuit.
use pebble_voting_app.Base.{
  ℕ, zero, suc, ◌+◌, ◌/◌, ◌^◌, ◌<◌, ◌≡◌, ◌∙◌, refl, [], ◌∷◌, ◌++◌, List, Bytes, ok, length, arith,
  append_assoc, append-nil,
}
use pebble_voting_app.Base.Power.{pow_two_pos}
use pebble_voting_app.Anoncred.Gnark.{Gnark, HashesAgree}
use pebble_voting_app.Anoncred.AnonCred1.{
  Level, AreBits, climb, first, hash_merkle_tree, prove_levels,
}
use pebble_voting_app.Anoncred.AnonCred1.Levels.{
  AreBlocks, hash_at, parents, next_level-ok, parents-AreBlocks, length-parents, direction,
  direction-bit, sibling, mimc_vars-sibling, prove_level-passed,
}

-- The place of the ancestor.
abbrev pub above : (depth k : ℕ) → ℕ
above zero k = k
above (suc depth) k = above depth (k / 2)

pub above-zero : (depth k : ℕ) → k < 2 ^ depth → above depth k ≡ 0
above-zero zero k lt = omega arith
above-zero (suc depth) k lt = above-zero depth (k / 2) (omega arith)

module _ (g : Gnark) (agree : HashesAgree g) where
  open g use {Var, value}

  abbrev pub ancestors : (depth : ℕ) → List Bytes → List Bytes
  ancestors zero hs = hs
  ancestors (suc depth) hs = ancestors depth (parents g agree hs)

  abbrev pub directions : (depth : ℕ) → List Bytes → ℕ → List Var
  directions zero hs k = []
  directions (suc depth) hs k =
      direction g agree hs k ∷ directions depth (parents g agree hs) (k / 2)

  abbrev pub side_hashes : (depth : ℕ) → List Bytes → ℕ → List Var
  side_hashes zero hs k = []
  side_hashes (suc depth) hs k =
      value (sibling g agree hs k) ∷ side_hashes depth (parents g agree hs) (k / 2)

  pub length-directions :
      (depth : ℕ) (hs : List Bytes) (k : ℕ) → length (directions depth hs k) ≡ depth
  length-directions zero hs k = refl
  length-directions (suc depth) hs k =
      omega (arith, length-directions depth (parents g agree hs) (k / 2))

  pub length-side_hashes :
      (depth : ℕ) (hs : List Bytes) (k : ℕ) → length (side_hashes depth hs k) ≡ depth
  length-side_hashes zero hs k = refl
  length-side_hashes (suc depth) hs k =
      omega (arith, length-side_hashes depth (parents g agree hs) (k / 2))

  pub directions-AreBits : (depth : ℕ) (hs : List Bytes) (k : ℕ) → AreBits g (directions depth hs k)
  unfolding AreBits
  directions-AreBits zero hs k = tt
  directions-AreBits (suc depth) hs k =
      (direction-bit g agree hs k, directions-AreBits depth (parents g agree hs) (k / 2))

  pub hash_merkle_tree-first :
      (depth : ℕ) (hs : List Bytes)
      → AreBlocks hs
      → hash_merkle_tree g hs depth ≡ first (ancestors depth hs)
  unfolding hash_merkle_tree
  hash_merkle_tree-first zero hs h = refl
  hash_merkle_tree-first (suc depth) hs h =
      rw (next_level-ok g agree hs h)
        (hash_merkle_tree-first depth (parents g agree hs) (parents-AreBlocks g agree hs))

  above-ancestors :
      (depth : ℕ) (hs : List Bytes) (k : ℕ)
      → k < length hs
      → above depth k < length (ancestors depth hs)
  above-ancestors zero hs k lt = lt
  above-ancestors (suc depth) hs k lt =
      above-ancestors depth (parents g agree hs) (k / 2) (omega (arith, length-parents g agree hs))

  -- The circuit climbs from the hash to its ancestor.
  pub climb-ancestors :
      (depth : ℕ) (hs : List Bytes) (k : ℕ)
      → AreBlocks hs
      → k < length hs
      → climb g (value (hash_at hs k)) (directions depth hs k) (side_hashes depth hs k)
        ≡ ok (value (hash_at (ancestors depth hs) (above depth k)))
  unfolding climb
  climb-ancestors zero hs k h lt = refl
  climb-ancestors (suc depth) hs k h lt = rw (mimc_vars-sibling g agree hs k h lt) (
      climb-ancestors depth (parents g agree hs) (k / 2) (parents-AreBlocks g agree hs)
        (omega (arith, length-parents g agree hs)))

  first-hash_at : (hs : List Bytes) → 0 < length hs → first hs ≡ ok (hash_at hs 0)
  first-hash_at [] lt = absurd (omega arith)
  first-hash_at (h ∷ hs) lt = refl

  -- In a tree that is deep enough for the place, the ancestor is the root.
  pub first-ancestors :
      (depth : ℕ) (hs : List Bytes) (k : ℕ)
      → k < length hs
      → k < 2 ^ depth
      → first (ancestors depth hs) ≡ ok (hash_at (ancestors depth hs) (above depth k))
  first-ancestors depth hs k lt deep =
      let at = above-zero depth k deep in
      let some_root = above-ancestors depth hs k lt in
      rw at (first-hash_at (ancestors depth hs) (omega (arith, at, some_root)))

  -- A tree over some hashes has a root.
  pub hash_merkle_tree-total :
      (depth : ℕ) (hs : List Bytes)
      → 0 < length hs
      → AreBlocks hs
      → (root : Bytes) × (hash_merkle_tree g hs depth ≡ ok root)
  hash_merkle_tree-total depth hs lt h = (
    hash_at (ancestors depth hs) (above depth 0),
    hash_merkle_tree-first depth hs h ∙ first-ancestors depth hs 0 lt (pow_two_pos depth),
  )

  pub prove_levels-branch :
      (depth : ℕ) (l : Level g)
      → AreBlocks l.hashes
      → l.index < length l.hashes
      → prove_levels g depth l
        ≡ ok (record {
          hashes = ancestors depth l.hashes;
          index = above depth l.index;
          directions = l.directions ++ directions depth l.hashes l.index;
          side_hashes = l.side_hashes ++ side_hashes depth l.hashes l.index;
        })
  unfolding prove_levels
  prove_levels-branch zero l h lt = rw (append-nil l.directions, append-nil l.side_hashes)
  prove_levels-branch (suc depth) l h lt =
      let place : 0 + l.index / 2 ≡ l.index / 2 = omega arith in
      rw (prove_level-passed g agree l.index 0 l.index l.hashes _ (omega arith) lt h) (
        prove_levels-branch depth _ (parents-AreBlocks g agree l.hashes)
          (omega (arith, length-parents g agree l.hashes))
        ∙ rw
            (
              place,
              append_assoc l.directions (direction g agree l.hashes l.index ∷ [])
                  (directions depth (parents g agree l.hashes) (l.index / 2)),
              append_assoc l.side_hashes (value (sibling g agree l.hashes l.index) ∷ [])
                  (side_hashes depth (parents g agree l.hashes) (l.index / 2)),
            )
            refl)
