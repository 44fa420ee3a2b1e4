-- ===== src/Anoncred/AnonCred1/Signing.antt =====
-- anoncred1.go: what `MakeCredentialSet` makes, and that `Sign` and `Verify` agree on it.
use pebble_voting_app.Base.{
  ℕ, ◌+◌, ◌^◌, ◌<◌, ◌≤◌, ◌≡◌, ◌∙◌, ap, sym, refl, [], ◌∷◌, ◌++◌, List, Bool, true, false, some,
  Bytes, Result, ok, ok_injective, length, leb, ◌==◌, take-append, drop-append, length-append,
  arith,
}
use pebble_voting_app.Util.Slices.{concat, concat-two}
use pebble_voting_app.Anoncred.Gnark.{Gnark, HashesAgree}
use pebble_voting_app.Anoncred.AnonCred1.{
  AnonCred1, AnonCred1Proof, AnonCred1SecCred, setup_circuit, hash_merkle_tree, prove, verify,
  public,
}
use pebble_voting_app.Anoncred.AnonCred1.Sets.{
  AnonCred1Set, less, make_sorted, make_credential_set, set_sign, sign_at, set_verify, index_of,
  without_repeats,
}
use pebble_voting_app.Anoncred.AnonCred1.Levels.{AreBlocks}
use pebble_voting_app.Anoncred.AnonCred1.Members.{
  member, less-total, index_of-member, without_repeats-member, without_repeats-AreBlocks,
  length-without_repeats, Perm-member, Perm-length, Perm-AreBlocks,
}
use pebble_voting_app.Anoncred.AnonCred1.Branch.{hash_merkle_tree-total}
use pebble_voting_app.Anoncred.AnonCred1.Completeness.{Complete, Sorts, verify-prove}

-- A set of single blocks under their own root, as many as the tree has places for at most.
pub record IsTree {g : Gnark} (set : AnonCred1Set g) : Type 0 where
  pub blocks : AreBlocks set.creds
  pub fits : length set.creds ≤ 2 ^ set.params.depth
  pub root : hash_merkle_tree g set.creds set.params.depth ≡ ok set.root

module _ (g : Gnark) (agree : HashesAgree g)
    (sort : ((a b : Bytes) → Result Bool) → List Bytes → Result (List Bytes)) where
  make_sorted-IsTree :
      (params : AnonCred1 g) (cs : List Bytes)
      → 0 < length cs
      → AreBlocks cs
      → length cs ≤ 2 ^ params.depth
      → (set : AnonCred1Set g) × (make_sorted g sort params cs ≡ ok set)
        × IsTree set
        × (set.params ≡ params)
        × ((c : Bytes) → member cs c ≡ true → member set.creds c ≡ true)
  unfolding make_sorted
  make_sorted-IsTree params [] some_cs h fits = absurd (omega arith)
  make_sorted-IsTree params (c ∷ cs) some_cs h fits =
      let creds = c ∷ without_repeats c cs in
      let blocks : AreBlocks creds = (h.0, without_repeats-AreBlocks c cs h.1) in
      let (root, made) = hash_merkle_tree-total g agree params.depth creds (omega arith) blocks in
      (
        record { params = params; creds = creds; root = root },
        rw made refl,
        record { blocks = blocks; fits = omega (arith, length-without_repeats c cs); root = made },
        refl,
        without_repeats-member c cs,
      )

  -- Of some credentials, 32 bytes each and at most 2 to the depth of them, `MakeCredentialSet`
  -- makes a set: its root is that of the tree over its credentials, and it has each of the given
  -- credentials.
  pub make_credential_set-IsTree :
      Sorts sort
      → (params : AnonCred1 g) (cs : List Bytes) → 0 < length cs
      → AreBlocks cs
      → length cs ≤ 2 ^ params.depth
      → (set : AnonCred1Set g) × (make_credential_set g sort params cs ≡ ok set)
        × IsTree set
        × (set.params ≡ params)
        × ((c : Bytes) → member cs c ≡ true → member set.creds c ≡ true)
  unfolding make_credential_set
  make_credential_set-IsTree sorting params [] some_cs h fits = absurd (omega arith)
  make_credential_set-IsTree sorting params (c ∷ cs) some_cs h fits =
      let (sorted, e, perm) = sorting.sorts less (λ b. length b ≡ 32) (c ∷ cs) less-total h in
      let same = Perm-length perm in
      let (set, made, tree, own, keeps) =
        make_sorted-IsTree params sorted (omega (arith, same)) (Perm-AreBlocks perm h)
          (omega (arith, same, fits)) in
      (set, rw (e, made) refl, tree, own, λ b m. keeps b (rw (sym (Perm-member b perm)) m))

module _ (g : Gnark) (agree : HashesAgree g) (sha256 : Bytes → Bytes) where
  set_verify-verify :
      (set : AnonCred1Set g) (serial_no signature proof msg : Bytes)
      → length serial_no ≡ 32
      → length signature ≡ 32
      → 0 < length proof
      → set_verify g sha256 set serial_no (concat (signature ∷ proof ∷ [])) msg
        ≡ verify g set.params (record {
          message_hash = sha256 msg;
          serial_no = serial_no;
          signature = signature;
          merkle_root = set.root;
          proof = proof;
        })
  unfolding set_verify
  set_verify-verify set serial_no signature proof msg es eg some_proof =
      let size = length-append signature proof in
      let e : (length serial_no == 32) ≡ true = ground arith in
      let f : leb (length (signature ++ proof)) 32 ≡ false = ground (arith, size, eg, some_proof) in
      rw (concat-two, e, f, sym eg, take-append, drop-append) refl

  set_sign-prove :
      (set : AnonCred1Set g) (sec : AnonCred1SecCred) (c msg : Bytes) (k : ℕ) (p : AnonCred1Proof)
      → public g sec ≡ ok c
      → index_of set.creds 0 c ≡ some k
      → prove g set.params
          (record {
            message_hash = sha256 msg;
            serial_no = sec.serial_no;
            signature = [];
            merkle_root = set.root;
            proof = [];
          })
          sec.secret
          k
          set.creds
        ≡ ok p
      → set_sign g sha256 set sec msg ≡ ok (concat (p.signature ∷ p.proof ∷ []))
  unfolding set_sign sign_at
  set_sign-prove set sec c msg k p pub_eq at proved = rw (pub_eq, at, proved) refl

  -- On such a set, with keys from `SetupCircuit`, `Sign` signs every message for a holder whose
  -- credential is in the set, and `Verify` accepts the signature for the holder's serial number.
  pub set_verify-set_sign :
      Complete g
      → ((m : Bytes) → length (sha256 m) ≡ 32)
      → (set : AnonCred1Set g) (sec : AnonCred1SecCred) (c msg : Bytes)
      → setup_circuit g set.params.depth ≡ ok set.params
      → IsTree set
      → length sec.serial_no ≡ 32
      → length sec.secret ≡ 32
      → public g sec ≡ ok c
      → member set.creds c ≡ true
      → (sig : Bytes) × (set_sign g sha256 set sec msg ≡ ok sig)
        × (set_verify g sha256 set sec.serial_no sig msg ≡ ok tt)
  unfolding public
  set_verify-set_sign complete blocks set sec c msg setup tree es ex pub_eq mem =
      let hashed = agree.mimc-ok sec.serial_no sec.secret es ex in
      let own = ok_injective (sym pub_eq ∙ hashed) in
      let (k, at, lt, there) = index_of-member set.creds 0 c mem in
      let place : 0 + k ≡ k = omega arith in
      let (bytes, some_bytes, proved, accepted) =
        verify-prove g agree complete set.params
          (record {
            message_hash = sha256 msg;
            serial_no = sec.serial_no;
            signature = [];
            merkle_root = set.root;
            proof = [];
          })
          sec.secret set.creds k setup (blocks msg) es ex tree.blocks lt
          (omega (arith, lt, tree.fits)) (there ∙ own) tree.root in
      (
        concat (agree.node (sha256 msg) sec.secret ∷ bytes ∷ []),
        set_sign-prove set sec c msg k _ pub_eq (at ∙ ap some place) proved,
        set_verify-verify set sec.serial_no (agree.node (sha256 msg) sec.secret) bytes msg es
              (agree.length-node _ _) some_bytes
            ∙ accepted,
      )
