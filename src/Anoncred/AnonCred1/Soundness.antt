-- ===== src/Anoncred/AnonCred1/Soundness.antt =====
-- anoncred1.go: what the constraints of `Define` say of the leaves of the tree.
use pebble_voting_app.Base.{
  ℕ, zero, suc, ◌<◌, ◌≡◌, ◌∙◌, sym, ap, refl, subst, [], ◌∷◌, List, ◌⊎◌, inl, inr, Bytes, ok,
  ok_injective, length, arith,
}
use pebble_voting_app.Anoncred.Gnark.{Gnark, HashesAgree}
use pebble_voting_app.Anoncred.AnonCred1.{AreBits, climb}
use pebble_voting_app.Anoncred.AnonCred1.Levels.{
  AreBlocks, hash_at, hash_at-IsBlock, parents, parents-AreBlocks,
}
use pebble_voting_app.Anoncred.AnonCred1.Branch.{ancestors}

-- Two different pairs of circuit variables with one hash.
pub record Collision (g : Gnark) : Type 0 where
  pub left : g.Var
  pub right : g.Var
  pub left' : g.Var
  pub right' : g.Var
  pub differ : ¬ ((left ≡ left') × (right ≡ right'))
  pub meets : g.mimc_vars left right ≡ g.mimc_vars left' right'

module _ (g : Gnark) (agree : HashesAgree g) (same? : Discrete g.Var) where
  open g use {Var, bit_zero, bit_one, value, select, mimc_vars}

  -- A parent is the hash of two hashes of the level.
  pub parent-node :
      (hs : List Bytes) (k : ℕ)
      → k < length (parents g agree hs)
      → (i : ℕ) × (j : ℕ) × (i < length hs)
        × (j < length hs)
        × (hash_at (parents g agree hs) k ≡ agree.node (hash_at hs i) (hash_at hs j))
  parent-node [] k lt = absurd (omega arith)
  parent-node (a ∷ []) zero lt = (0, 0, omega arith, omega arith, refl)
  parent-node (a ∷ []) (suc k) lt = absurd (omega arith)
  parent-node (a ∷ b ∷ hs) zero lt = (0, 1, omega arith, omega arith, refl)
  parent-node (a ∷ b ∷ hs) (suc k) lt =
      let (i, j, li, lj, e) = parent-node hs k (omega arith) in
      (suc (suc i), suc (suc j), omega arith, omega arith, e)

  -- Either two pairs with one hash are the same, or they collide.
  same-pair :
      (x y x' y' : Var) → mimc_vars x y ≡ mimc_vars x' y' → ((x ≡ x') × (y ≡ y')) ⊎ Collision g
  same-pair x y x' y' e = elim (same? x x') [
    | no other ↦ inr (record {
      left = x;
      right = y;
      left' = x';
      right' = y';
      differ = λ p. other p.0;
      meets = e;
    })
    | yes p ↦ elim (same? y y') [
      | no other ↦ inr (record {
        left = x;
        right = y;
        left' = x';
        right' = y';
        differ = λ q. other q.1;
        meets = e;
      })
      | yes q ↦ inl (p, q)
    ]
  ]

  abbrev pub IsLeaf : (hs : List Bytes) → Var → Type 0
  IsLeaf hs x = (k : ℕ) × (k < length hs) × (x ≡ value (hash_at hs k))

  -- One level down.
  descend :
      (hs : List Bytes) (d sum s : Var)
      → AreBlocks hs
      → (d ≡ bit_zero) ⊎ (d ≡ bit_one)
      → IsLeaf (parents g agree hs) (mimc_vars (select d sum s) (select d s sum))
      → IsLeaf hs sum ⊎ Collision g
  descend hs d sum s h bit (k, lt, e) =
      let (i, j, li, lj, node) = parent-node hs k lt in
      let a = hash_at hs i in
      let b = hash_at hs j in
      let hashed =
        sym (agree.mimc_vars-value a b (hash_at-IsBlock hs i h li) (hash_at-IsBlock hs j h lj)) in
      elim (same-pair (select d sum s) (select d s sum) (value a) (value b)
        (e ∙ ap value node ∙ hashed)) [
          | inr clash ↦ inr clash
          | inl (p, q) ↦ elim bit [
            | inl off ↦
                let right : sum ≡ value b =
                  sym (agree.select-zero s sum) ∙ subst (λ x. select x s sum ≡ value b) off q in
                inl (j, lj, right)
            | inr on ↦
                let left : sum ≡ value a =
                  sym (agree.select-one sum s) ∙ subst (λ x. select x sum s ≡ value a) on p in
                inl (i, li, left)
          ]
        ]

  pub climb-IsLeaf :
      (depth : ℕ) (hs : List Bytes) (sum top : Var) (ds ss : List Var)
      → AreBlocks hs
      → length ds ≡ depth
      → AreBits g ds
      → climb g sum ds ss ≡ ok top
      → IsLeaf (ancestors g agree depth hs) top
      → IsLeaf hs sum ⊎ Collision g
  unfolding climb AreBits
  climb-IsLeaf zero hs sum top [] ss h n bits e leaf =
      inl (subst (IsLeaf hs) (sym (ok_injective e)) leaf)
  climb-IsLeaf zero hs sum top (d ∷ ds) ss h n bits e leaf = absurd (omega (arith, n))
  climb-IsLeaf (suc depth) hs sum top [] ss h n bits e leaf = absurd (omega (arith, n))
  climb-IsLeaf (suc depth) hs sum top (d ∷ ds) [] h n bits e leaf = absurd (ground arith)
  climb-IsLeaf (suc depth) hs sum top (d ∷ ds) (s ∷ ss) h n bits e leaf =
      elim (climb-IsLeaf depth (parents g agree hs) (mimc_vars (select d sum s) (select d s sum))
        top ds ss (parents-AreBlocks g agree hs) (omega (arith, n)) bits.1 e leaf) [
          | inl up ↦ descend hs d sum s h bits.0 up
          | inr clash ↦ inr clash
        ]
