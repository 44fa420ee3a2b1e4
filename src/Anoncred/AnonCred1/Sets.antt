-- ===== src/Anoncred/AnonCred1/Sets.antt =====
-- anoncred1.go: credential sets, and signing in one.
use pebble_voting_app.Base.{
  ℕ, zero, suc, ◌+◌, [], ◌∷◌, List, Bool, true, false, Option, none, some, Bytes, Result, ok, err,
  panic, stuck, ◌>>=◌, length, take, drop, leb, ◌==◌, if◌then◌else◌, bytes_eq, not,
  credential_missing, signature_size,
}
use pebble_voting_app.Util.Slices.{concat}
use pebble_voting_app.Anoncred.Gnark.{Gnark}
use pebble_voting_app.Anoncred.AnonCred1.{
  AnonCred1, AnonCred1SecCred, hash_merkle_tree, prove, verify, public,
}

pub record AnonCred1Set (g : Gnark) : Type 0 where
  pub params : AnonCred1 g
  pub creds : List Bytes
  pub root : Bytes

-- A call whose nil result is used before its error is looked at.
abbrev pub or_panic {ℓ} : {A : Type ℓ} → Result A → Result A
or_panic (ok a) = ok a
or_panic (err e) = panic
or_panic panic = panic
or_panic stuck = stuck

-- The loop of `MakeCredentialSet` that skips a credential that equals the one before it.
unfoldable pub without_repeats : (last : Bytes) → List Bytes → List Bytes
without_repeats last [] = []
without_repeats last (c ∷ cs) =
    let rest = without_repeats c cs in if bytes_eq last c then rest else c ∷ rest

-- Less(i, j) at the credentials of the two positions: each byte is below. A credential that is
-- shorter than 32 bytes would panic.
unfoldable pub less_bytes : ℕ → (a b : Bytes) → Result Bool
less_bytes zero a b = ok true
less_bytes (suc n) (x ∷ a) (y ∷ b) =
    let rest = less_bytes n a b in if leb y x then ok false else rest
less_bytes (suc n) a b = panic

unfoldable pub less : (a b : Bytes) → Result Bool
unfolding less_bytes
less a b = less_bytes 32 a b

-- Where in the set the credential stands first.
unfoldable pub index_of : List Bytes → (i : ℕ) → Bytes → Option ℕ
index_of [] i c = none
index_of (b ∷ bs) i c = let rest = index_of bs (i + 1) c in if bytes_eq b c then some i else rest

-- `sort` is sort.Sort at a test.
module _ (g : Gnark) (sort : ((a b : Bytes) → Result Bool) → List Bytes → Result (List Bytes)) where
  unfoldable pub make_sorted : AnonCred1 g → (sorted : List Bytes) → Result (AnonCred1Set g)
  make_sorted params [] = panic
  make_sorted params (c ∷ cs) = do
    let creds = c ∷ without_repeats c cs
    root ← hash_merkle_tree g creds params.depth
    ok (record { params = params; creds = creds; root = root })

  unfoldable pub make_credential_set :
      AnonCred1 g → (credentials : List Bytes) → Result (AnonCred1Set g)
  unfolding make_sorted
  make_credential_set params [] = ok (record { params = params; creds = []; root = [] })
  make_credential_set params (c ∷ cs) = do sorted ← sort less (c ∷ cs); make_sorted params sorted

-- `sha256` is the hash of a message.
module _ (g : Gnark) (sha256 : Bytes → Bytes) where
  -- `Sign` behind its search for the credential.
  unfoldable pub sign_at :
      AnonCred1Set g → AnonCred1SecCred → (msg : Bytes) → Option ℕ → Result Bytes
  sign_at set sec msg none = err credential_missing
  sign_at set sec msg (some idx) = do
    p ←
        prove g set.params
          (record {
            message_hash = sha256 msg;
            serial_no = sec.serial_no;
            signature = [];
            merkle_root = set.root;
            proof = [];
          })
          sec.secret idx set.creds
    ok (concat (p.signature ∷ p.proof ∷ []))

  unfoldable pub set_sign : AnonCred1Set g → AnonCred1SecCred → (msg : Bytes) → Result Bytes
  unfolding sign_at
  set_sign set sec msg = do
    pub_bytes ← or_panic (public g sec)
    sign_at set sec msg (index_of set.creds 0 pub_bytes)

  unfoldable pub set_verify : AnonCred1Set g → (serial_no sig msg : Bytes) → Result (Unit {0})
  set_verify set serial_no sig msg =
      if not (length serial_no == 32)
      then err signature_size
      else if leb (length sig) 32
      then err signature_size
      else verify g set.params (record {
        message_hash = sha256 msg;
        serial_no = serial_no;
        signature = take 32 sig;
        merkle_root = set.root;
        proof = drop 32 sig;
      })
