-- ===== src/Anoncred/AnonCred1/Contract.antt =====
-- anoncred1.go: `AnonCred1` as a credential system, and that it keeps the election's contract.
use mathlib.Core.List.{Memᴰ}
use mathlib.Core.List.Memᴰ.{head, tail}
use pebble_voting_app.Base.{
  ◌^◌, ◌<◌, ◌≤◌, ◌≡◌, subst, sym, refl, List, Bool, true, Bytes, Result, ok, length, arith,
  bytes_eq_refl,
}
use pebble_voting_app.Anoncred.{CredentialSystem}
use pebble_voting_app.Anoncred.Gnark.{Gnark, HashesAgree}
use pebble_voting_app.Anoncred.AnonCred1.{
  AnonCred1, AnonCred1SecCred, setup_circuit, public, read_public_credential,
}
use pebble_voting_app.Anoncred.AnonCred1.Sets.{
  AnonCred1Set, make_credential_set, set_sign, set_verify,
}
use pebble_voting_app.Anoncred.AnonCred1.Levels.{AreBlocks}
use pebble_voting_app.Anoncred.AnonCred1.Members.{member}
use pebble_voting_app.Anoncred.AnonCred1.Completeness.{Complete, Sorts}
use pebble_voting_app.Anoncred.AnonCred1.Signing.{make_credential_set-IsTree, set_verify-set_sign}

module _ (g : Gnark) (sha256 : Bytes → Bytes)
    (sort : ((a b : Bytes) → Result Bool) → List Bytes → Result (List Bytes))
    (params : AnonCred1 g) where
  -- A public credential is its bytes.
  abbrev pub anoncred1 : CredentialSystem
  anoncred1 = record {
    SecretCredential = AnonCred1SecCred;
    PublicCredential = Bytes;
    CredentialSet = AnonCred1Set g;
    public = public g;
    serial_no = λ sec. sec.serial_no;
    public_bytes = λ cred. cred;
    read_public_credential = read_public_credential;
    make_credential_set = make_credential_set g sort params;
    set_len = λ set. length set.creds;
    set_sign = set_sign g sha256;
    set_verify = set_verify g sha256;
  }

-- Some credentials, 32 bytes each, for which the tree has places.
abbrev pub Fit : {g : Gnark} → AnonCred1 g → List Bytes → Type 0
Fit params creds = (0 < length creds) × AreBlocks creds × (length creds ≤ 2 ^ params.depth)

-- Both parts of the secret credential are 32 bytes.
abbrev pub IsHolder : AnonCred1SecCred → Type 0
IsHolder sec = (length sec.serial_no ≡ 32) × (length sec.secret ≡ 32)

Memᴰ-member : (c : Bytes) {cs : List Bytes} → Memᴰ c cs → member cs c ≡ true
Memᴰ-member c (head {x} {xs} e) = rw (sym e, bytes_eq_refl) refl
Memᴰ-member c (tail {x} {xs} m) = ground (arith, Memᴰ-member c m)

-- When SHA-256 digests are 32 bytes, MiMC agrees with its circuit, Groth16 is complete, sort.Sort
-- rearranges, and the parameters come from `SetupCircuit`: from some credentials of 32 bytes, at
-- most 2 to the depth of them, `MakeCredentialSet` makes a set, in which everyone whose public
-- credential is among them, and whose serial number and secret are 32 bytes each, can sign any
-- message with `Sign`, so that `Verify` accepts the signature for the signer's serial number.
pub set_verify-make_credential_set :
    (g : Gnark) (sha256 : Bytes → Bytes)
    (sort : ((a b : Bytes) → Result Bool) → List Bytes → Result (List Bytes)) (params : AnonCred1 g)
    → HashesAgree g
    → Complete g
    → Sorts sort
    → ((m : Bytes) → length (sha256 m) ≡ 32)
    → setup_circuit g params.depth ≡ ok params
    → (creds : List Bytes) (sec : AnonCred1SecCred) (cred msg : Bytes) → Fit params creds
    → IsHolder sec
    → public g sec ≡ ok cred
    → Memᴰ cred creds
    → (let sys = anoncred1 g sha256 sort params in
        (set : AnonCred1Set g) × (sys.make_credential_set creds ≡ ok set)
        × (sig : Bytes) × (sys.set_sign set sec msg ≡ ok sig)
        × (sys.set_verify set (sys.serial_no sec) sig msg ≡ ok tt))
set_verify-make_credential_set g sha256 sort params agree complete sorting blocks setup creds sec
      cred msg fit holder own mem =
    let (set, made, tree, same, keeps) =
      make_credential_set-IsTree g agree sort sorting params creds fit.0 fit.1 fit.2 in
    let setup' = subst (λ (p : AnonCred1 g). setup_circuit g p.depth ≡ ok p) (sym same) setup in
    let (sig, signed, passed) =
      set_verify-set_sign g agree sha256 complete blocks set sec cred msg setup' tree holder.0
        holder.1 own (keeps cred (Memᴰ-member cred mem)) in
    (set, made, sig, signed, passed)
