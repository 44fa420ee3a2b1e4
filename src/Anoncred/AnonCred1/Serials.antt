-- ===== src/Anoncred/AnonCred1/Serials.antt =====
-- anoncred1.go: how many serial numbers the credentials of a set can sign for.
use pebble_voting_app.Base.{
  ℕ, ◌<◌, ◌≤◌, ◌≡◌, ◌≢◌, ◌∙◌, sym, ap, refl, [], ◌∷◌, List, true, ◌⊎◌, inl, inr, Bytes, ok,
  ok_injective, length, arith, All, map, ◌==◌, ==_iff, Bool-cases,
}
use pebble_voting_app.Base.Distinct.{has, AreDistinct, length-AreDistinct}
use pebble_voting_app.Anoncred.Gnark.{Circuit, Gnark, HashesAgree}
use pebble_voting_app.Anoncred.AnonCred1.{Define, first, hash_merkle_tree}
use pebble_voting_app.Anoncred.AnonCred1.Levels.{AreBlocks, hash_at}
use pebble_voting_app.Anoncred.AnonCred1.Branch.{ancestors, hash_merkle_tree-first}
use pebble_voting_app.Anoncred.AnonCred1.Soundness.{Collision, IsLeaf, climb-IsLeaf}

-- Any two of the values differ.
abbrev pub Differ {ℓ} : {A : Type ℓ} → List A → Type ℓ
Differ [] = Unit
Differ (x ∷ xs) = All (λ y. x ≢ y) xs × Differ xs

first-hash_at :
    (hs : List Bytes) (r : Bytes) → first hs ≡ ok r → (0 < length hs) × (r ≡ hash_at hs 0)
first-hash_at [] r e = absurd (ground arith)
first-hash_at (h ∷ hs) r e = (omega arith, sym (ok_injective e))

-- A circuit for a tree: its constraints hold, and its root is the tree's.
pub record IsOpening (g : Gnark) (depth : ℕ) (root : Bytes) (c : Circuit g.Var) : Type 0 where
  pub holds : Define g c
  pub levels : length c.directions ≡ depth
  pub rooted : c.inputs.merkle_root ≡ g.value root

module _ (g : Gnark) (agree : HashesAgree g) (same? : Discrete g.Var) where
  open g use {Var, value, mimc_vars}

  -- The credential of its serial number and secret is a leaf.
  pub IsOpening-IsLeaf :
      (depth : ℕ) (hs : List Bytes) (root : Bytes) (c : Circuit Var)
      → AreBlocks hs
      → hash_merkle_tree g hs depth ≡ ok root
      → IsOpening g depth root c
      → IsLeaf g agree same? hs (mimc_vars c.inputs.serial_no c.secret) ⊎ Collision g
  IsOpening-IsLeaf depth hs root c h tree opening =
      let (some_top, top) =
        first-hash_at (ancestors g agree depth hs) root
          (sym (hash_merkle_tree-first g agree depth hs h) ∙ tree) in
      climb-IsLeaf g agree same? depth hs (mimc_vars c.inputs.serial_no c.secret)
        c.inputs.merkle_root c.directions c.side_hashes h opening.levels opening.holds.bits
        opening.holds.root (0, some_top, opening.rooted ∙ ap value top)

  -- Places of leaves for the serial numbers.
  abbrev Places : (hs : List Bytes) → List Var → List ℕ → Type 0
  Places hs [] [] = Unit
  Places hs [] (k ∷ ks) = ⊥
  Places hs (s ∷ ss) [] = ⊥
  Places hs (s ∷ ss) (k ∷ ks) =
      ((x : Var) × (mimc_vars s x ≡ value (hash_at hs k))) × Places hs ss ks

  -- Two serial numbers that differ have no leaf in common without a collision.
  clash :
      (hs : List Bytes) (s x : Var) (k : ℕ) (ss : List Var) (ks : List ℕ)
      → mimc_vars s x ≡ value (hash_at hs k)
      → All (λ t. s ≢ t) ss
      → Places hs ss ks
      → has k ks ≡ true
      → Collision g
  clash hs s x k [] [] e d p at = absurd (ground arith)
  clash hs s x k [] (j ∷ ks) e d p at = absurd p
  clash hs s x k (t ∷ ss) [] e d p at = absurd p
  clash hs s x k (t ∷ ss) (j ∷ ks) e d p at = elim (Bool-cases (j == k)) [
    | inl same ↦
        let (y, f) = p.0 in
        let place : j ≡ k = (==_iff j k).0 same in
        record {
          left = s;
          right = x;
          left' = t;
          right' = y;
          differ = λ q. d.0 q.0;
          meets = e ∙ ap (λ i. value (hash_at hs i)) (sym place) ∙ sym f;
        }
    | inr other ↦ clash hs s x k ss ks e d.1 p.1 (ground arith)
  ]

  placed :
      (depth : ℕ) (hs : List Bytes) (root : Bytes) (cs : List (Circuit Var))
      → AreBlocks hs
      → hash_merkle_tree g hs depth ≡ ok root
      → All (IsOpening g depth root) cs
      → Differ (map (λ (c : Circuit Var). c.inputs.serial_no) cs)
      → ((ks : List ℕ) × (length ks ≡ length cs)
          × All (λ k. k < length hs) ks
          × AreDistinct ks
          × Places hs (map (λ (c : Circuit Var). c.inputs.serial_no) cs) ks)
        ⊎ Collision g
  placed depth hs root [] h tree os d = inl ([], refl, tt, tt, tt)
  placed depth hs root (c ∷ cs) h tree os d = elim (IsOpening-IsLeaf depth hs root c h tree os.0) [
    | inr collision ↦ inr collision
    | inl (k, lt, leaf) ↦ elim (placed depth hs root cs h tree os.1 d.1) [
      | inr collision ↦ inr collision
      | inl (ks, n, small, distinct, places) ↦ elim (Bool-cases (has k ks)) [
        | inl at ↦ inr (
            clash hs c.inputs.serial_no c.secret k
              (map (λ (c : Circuit Var). c.inputs.serial_no) cs) ks leaf d.0 places at)
        | inr new ↦
            inl (k ∷ ks, omega (arith, n), (lt, small), (new, distinct), ((c.secret, leaf), places))
      ]
    ]
  ]

  -- Circuits for one tree whose serial numbers differ are no more than the credentials.
  pub length-openings :
      (depth : ℕ) (hs : List Bytes) (root : Bytes) (cs : List (Circuit Var))
      → AreBlocks hs
      → hash_merkle_tree g hs depth ≡ ok root
      → All (IsOpening g depth root) cs
      → Differ (map (λ (c : Circuit Var). c.inputs.serial_no) cs)
      → (length cs ≤ length hs) ⊎ Collision g
  length-openings depth hs root cs h tree os d = elim (placed depth hs root cs h tree os d) [
    | inr collision ↦ inr collision
    | inl (ks, n, small, distinct, places) ↦
        inl (omega (arith, n, length-AreDistinct (length hs) ks small distinct))
  ]
