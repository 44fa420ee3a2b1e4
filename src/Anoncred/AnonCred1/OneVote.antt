-- ===== src/Anoncred/AnonCred1/OneVote.antt =====
-- anoncred1.go: the signatures that `Verify` accepts, by serial number.
use pebble_voting_app.Base.{
  ℕ, ◌≤◌, ◌≡◌, ◌∙◌, sym, ap, refl, subst, [], ◌∷◌, List, Bool, ◌⊎◌, inl, inr, Bytes, Result, ok,
  ok_injective, >>=-eq-ok, length, take, drop, leb, ◌==◌, arith, All, map, Bool-cases,
}
use pebble_voting_app.Anoncred.Gnark.{PublicInputs, Circuit, Gnark, HashesAgree}
use pebble_voting_app.Anoncred.AnonCred1.{AnonCred1, AnonCred1Proof, Define, setup_circuit, verify}
use pebble_voting_app.Anoncred.AnonCred1.Sets.{AnonCred1Set, set_verify}
use pebble_voting_app.Anoncred.AnonCred1.Completeness.{Sorts, setup_circuit-keys}
use pebble_voting_app.Anoncred.AnonCred1.Signing.{IsTree, make_credential_set-IsTree}
use pebble_voting_app.Anoncred.AnonCred1.Contract.{anoncred1, Fit}
use pebble_voting_app.Anoncred.AnonCred1.Soundness.{Collision}
use pebble_voting_app.Anoncred.AnonCred1.Serials.{Differ, IsOpening, length-openings}

-- Groth16 is sound: with keys of its own making, a proof that is accepted has a circuit of the
-- compiled shape with the same public part, whose constraints hold.
pub record Sound (g : Gnark) : Type 0 where
  pub opens :
      (depth : ℕ) (cs : g.ConstraintSystem) (pk : g.ProvingKey) (vk : g.VerifyingKey)
      (proof : g.Proof) (inputs : PublicInputs g.Var)
      → g.compile depth ≡ ok cs
      → g.generate cs ≡ ok (pk, vk)
      → g.verify proof vk depth inputs ≡ ok tt
      → (c : Circuit g.Var) × (c.inputs ≡ inputs) × (length c.directions ≡ depth) × Define g c

-- A message with a serial number and a signature.
pub record Signed : Type 0 where
  pub serial_no : Bytes
  pub sig : Bytes
  pub msg : Bytes

module _ (g : Gnark) (sha256 : Bytes → Bytes) (sound : Sound g) where
  open g use {Var, value}

  verify-IsOpening :
      (params : AnonCred1 g) (p : AnonCred1Proof)
      → setup_circuit g params.depth ≡ ok params
      → verify g params p ≡ ok tt
      → (c : Circuit Var) × IsOpening g params.depth p.merkle_root c
        × (c.inputs.serial_no ≡ value p.serial_no)
  unfolding verify
  verify-IsOpening params p setup passed =
      let (compiled, generated) = setup_circuit-keys g params.depth params setup in
      let (proof, parsed, accepted) = >>=-eq-ok (g.read_proof p.proof) _ passed in
      let (c, same, levels, holds) =
        sound.opens params.depth params.cs params.pk params.vk proof _ compiled generated
          accepted in
      (
        c,
        record {
          holds = holds;
          levels = levels;
          rooted = ap (λ (i : PublicInputs Var). i.merkle_root) same;
        },
        ap (λ (i : PublicInputs Var). i.serial_no) same,
      )

  set_verify-verify :
      (set : AnonCred1Set g) (serial_no sig msg : Bytes)
      → set_verify g sha256 set serial_no sig msg ≡ ok tt
      → verify g set.params (record {
        message_hash = sha256 msg;
        serial_no = serial_no;
        signature = take 32 sig;
        merkle_root = set.root;
        proof = drop 32 sig;
      })
        ≡ ok tt
  unfolding set_verify
  set_verify-verify set serial_no sig msg e = elim (Bool-cases (length serial_no == 32)) [
    | inr other ↦ absurd (ground arith)
    | inl wide ↦ elim (Bool-cases (leb (length sig) 32)) [
      | inl short ↦ absurd (ground arith)
      | inr long ↦ ground arith
    ]
  ]

  -- A circuit for each signature that is accepted.
  opened :
      (set : AnonCred1Set g) (ss : List Signed)
      → setup_circuit g set.params.depth ≡ ok set.params
      → All (λ s. set_verify g sha256 set s.serial_no s.sig s.msg ≡ ok tt) ss
      → (cs : List (Circuit Var)) × All (IsOpening g set.params.depth set.root) cs
        × (length cs ≡ length ss)
        × (map (λ (c : Circuit Var). c.inputs.serial_no) cs
            ≡ map (λ (s : Signed). value s.serial_no) ss)
  opened set [] setup passed = ([], tt, refl, refl)
  opened set (s ∷ ss) setup passed =
      let (c, opening, serial) =
        verify-IsOpening set.params _ setup
          (set_verify-verify set s.serial_no s.sig s.msg passed.0) in
      let (cs, openings, n, serials) = opened set ss setup passed.1 in
      (c ∷ cs, (opening, openings), omega (arith, n), rw (serial, serials) refl)

-- When MiMC agrees with its circuit, Groth16 is sound, sort.Sort rearranges, and the parameters
-- come from `SetupCircuit`: in a set that `MakeCredentialSet` makes from some credentials of 32
-- bytes, at most 2 to the depth of them, the signatures that `Verify` accepts for serial numbers
-- that are different field elements are no more than the credentials of the set, or else there is
-- a collision of MiMC. Equality of field elements is assumed to be decidable.
pub serials-set_len :
    (g : Gnark) (sha256 : Bytes → Bytes)
    (sort : ((a b : Bytes) → Result Bool) → List Bytes → Result (List Bytes)) (params : AnonCred1 g)
    → HashesAgree g
    → Discrete g.Var
    → Sound g
    → Sorts sort
    → setup_circuit g params.depth ≡ ok params
    → (creds : List Bytes) (set : AnonCred1Set g) (ss : List Signed) → Fit params creds
    → (let sys = anoncred1 g sha256 sort params in sys.make_credential_set creds ≡ ok set)
    → All
        (λ s.
          let sys = anoncred1 g sha256 sort params in
          sys.set_verify set s.serial_no s.sig s.msg ≡ ok tt)
        ss
    → Differ (map (λ (s : Signed). g.value s.serial_no) ss)
    → (let sys = anoncred1 g sha256 sort params in (length ss ≤ sys.set_len set) ⊎ Collision g)
serials-set_len g sha256 sort params agree same? sound sorting setup creds set ss fit made passed
      differ =
    let (set', made', tree, same, keeps) =
      make_credential_set-IsTree g agree sort sorting params creds fit.0 fit.1 fit.2 in
    let one : set' ≡ set = ok_injective (sym made' ∙ made) in
    let tree' : IsTree set = subst (λ (s : AnonCred1Set g). IsTree s) one tree in
    let same' : set.params ≡ params = subst (λ (s : AnonCred1Set g). s.params ≡ params) one same in
    let setup' = subst (λ (p : AnonCred1 g). setup_circuit g p.depth ≡ ok p) (sym same') setup in
    let (cs, openings, n, serials) = opened g sha256 sound set ss setup' passed in
    elim (length-openings g agree same? set.params.depth set.creds set.root cs tree'.blocks
      tree'.root openings (subst Differ (sym serials) differ)) [
        | inl le ↦ inl (omega (arith, n, le))
        | inr collision ↦ inr collision
      ]
