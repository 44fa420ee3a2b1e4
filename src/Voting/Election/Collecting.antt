-- ===== src/Voting/Election/Collecting.antt =====
-- The loop of `GetCredentialSet` of election.go: the map of credentials while it grows.
use pebble_voting_app.Base.{
  ℕ, suc, ◌+◌, ◌≡◌, sym, ap, refl, subst, [], ◌∷◌, List, ◌⊎◌, Option, none, some, Bytes, Result, ok,
  err, panic, stuck, >>=-eq-ok, ◌>>=◌, ok_injective, bytes_eq, bytes_eq→eq, bytes_eq_refl,
  if◌then◌else◌, arith, Result-cases, Bool-cases, Option-cases, inl, inr,
}
use pebble_voting_app.Pubkey.{Schemes}
use pebble_voting_app.Anoncred.{CredentialSystem}
use pebble_voting_app.Structs.CredentialMessage.{CredentialMessage}
use pebble_voting_app.Structs.EncryptedBallot.Sealing.{Ciphers}
use pebble_voting_app.Voting.Message.{Message}
use pebble_voting_app.Voting.Election.{
  insert, verify_credential, Creds, collect_credential, collect,
}

-- The value under a key.
abbrev pub value_at {ℓ} : {A : Type ℓ} → Bytes → List (Bytes × A) → Option A
value_at k [] = none
value_at k ((j, v) ∷ m) = if bytes_eq j k then some v else value_at k m

pub value_at-insert {ℓ} :
    {A : Type ℓ} (j k : Bytes) (v : A) (m : List (Bytes × A))
    → value_at k (insert j v m) ≡ (if bytes_eq j k then some v else value_at k m)
unfolding insert
value_at-insert j k v [] = refl
value_at-insert j k v ((i, w) ∷ m) = elim (Bool-cases (bytes_eq i j)) [
  | inl same ↦ rw (same, bytes_eq→eq i j same) (ground arith)
  | inr other ↦ rw other (
      ground (
        arith,
        value_at-insert j k v m,
        bytes_eq→eq i k,
        bytes_eq→eq j k,
        bytes_eq_refl k,
        bytes_eq→eq i j,
      ))
]

abbrev kept {ℓ} : {A : Type ℓ} → Result A → Option A
kept (ok a) = some a
kept (err e) = none
kept panic = none
kept stuck = none

abbrev pub or_else {ℓ} : {A : Type ℓ} → Option A → Option A → Option A
or_else none b = b
or_else (some a) b = some a

-- How many credentials are posted.
abbrev pub num_posted : List Message → ℕ
num_posted [] = 0
num_posted (m ∷ ms) = elim m.credential [ none ↦ num_posted ms | some c ↦ suc (num_posted ms) ]

module _ (sys : CredentialSystem) (schemes : Schemes) (ciphers : Ciphers)
    (iteration : List sys.PublicCredential → List sys.PublicCredential) where
  open sys use {PublicCredential, CredentialSet, read_public_credential, make_credential_set}

  -- The credential of a message, if it verifies and can be read.
  abbrev pub credential_in : (eid : Bytes) → CredentialMessage → Option PublicCredential
  credential_in eid c = elim (kept (verify_credential schemes eid c)) [
    | none ↦ none
    | some u ↦ kept (read_public_credential c.credential)
  ]

  -- What a message says of the key with the hash `k`.
  abbrev pub said_of : (eid k : Bytes) → Message → Option PublicCredential
  said_of eid k m = elim m.credential [
    | none ↦ none
    | some c ↦ if bytes_eq (ciphers.sha256 c.public_key) k then credential_in eid c else none
  ]

  -- The last credential that the messages have for the key with the hash `k`.
  abbrev pub last_of : (eid k : Bytes) → List Message → Option PublicCredential
  last_of eid k [] = none
  last_of eid k (m ∷ ms) = or_else (last_of eid k ms) (said_of eid k m)

  collect_credential_lem :
      (eid k : Bytes) (creds creds' : Creds sys schemes ciphers iteration) (c : CredentialMessage)
      → collect_credential sys schemes ciphers iteration eid creds c ≡ ok creds'
      → value_at k creds'
        ≡ or_else
            (if bytes_eq (ciphers.sha256 c.public_key) k then credential_in eid c else none)
            (value_at k creds)
  unfolding collect_credential
  collect_credential_lem eid k creds creds' c e =
      elim (Result-cases (verify_credential schemes eid c)) [
        | inl (u, good) ↦ elim (Result-cases (read_public_credential c.credential)) [
          | inl (cred, read) ↦
              ground (arith, value_at-insert (ciphers.sha256 c.public_key) k cred creds)
          | inr (inl (x, bad)) ↦ ground arith
          | inr (inr (inl bad)) ↦ absurd (ground arith)
          | inr (inr (inr bad)) ↦ absurd (ground arith)
        ]
        | inr (inl (x, bad)) ↦ ground arith
        | inr (inr (inl bad)) ↦ absurd (ground arith)
        | inr (inr (inr bad)) ↦ absurd (ground arith)
      ]

  pub collect-value_at :
      (eid k : Bytes) (creds creds' : Creds sys schemes ciphers iteration) (ms : List Message)
      → collect sys schemes ciphers iteration eid creds ms ≡ ok creds'
      → value_at k creds' ≡ or_else (last_of eid k ms) (value_at k creds)
  unfolding collect
  collect-value_at eid k creds creds' [] e = ap (value_at k) (sym (ok_injective e))
  collect-value_at eid k creds creds' (m ∷ ms) e = elim (Option-cases m.credential) [
    | inl other ↦
        let rest : collect sys schemes ciphers iteration eid creds ms ≡ ok creds' = ground arith in
        ground (arith, collect-value_at eid k creds creds' ms rest)
    | inr (c, there) ↦
        let whole : (collect_credential sys schemes ciphers iteration eid creds c >>= λ r.
        collect sys schemes ciphers iteration eid r ms)
            ≡ ok creds' =
          ground arith in
        let (creds1, e1, e2) =
          >>=-eq-ok (collect_credential sys schemes ciphers iteration eid creds c) _ whole in
        ground (
          arith,
          collect_credential_lem eid k creds creds1 c e1,
          collect-value_at eid k creds1 creds' ms e2,
        )
  ]

  collect_credential_cases :
      (eid : Bytes) (creds creds' : Creds sys schemes ciphers iteration) (c : CredentialMessage)
      → collect_credential sys schemes ciphers iteration eid creds c ≡ ok creds'
      → (creds ≡ creds')
        ⊎ ((k : Bytes) × (v : PublicCredential) × (read_public_credential c.credential ≡ ok v)
            × (creds' ≡ insert k v creds))
  unfolding collect_credential
  collect_credential_cases eid creds creds' c e =
      elim (Result-cases (verify_credential schemes eid c)) [
        | inl (u, good) ↦ elim (Result-cases (read_public_credential c.credential)) [
          | inl (cred, read) ↦ inr (ciphers.sha256 c.public_key, cred, read, ground arith)
          | inr (inl (x, bad)) ↦ inl (ground arith)
          | inr (inr (inl bad)) ↦ absurd (ground arith)
          | inr (inr (inr bad)) ↦ absurd (ground arith)
        ]
        | inr (inl (x, bad)) ↦ inl (ground arith)
        | inr (inr (inl bad)) ↦ absurd (ground arith)
        | inr (inr (inr bad)) ↦ absurd (ground arith)
      ]

  -- What holds of the map while it grows by credentials that were read, `n` counting the messages.
  pub collect-keeps :
      (P : ℕ → Creds sys schemes ciphers iteration → Type 0)
      → ((n : ℕ) (k c : Bytes) (v : PublicCredential) (creds : Creds sys schemes ciphers iteration)
          → read_public_credential c ≡ ok v
          → P n creds
          → P (suc n) (insert k v creds))
      → ((n : ℕ) (creds : Creds sys schemes ciphers iteration) → P n creds → P (suc n) creds)
      → (eid : Bytes) (n : ℕ) (creds creds' : Creds sys schemes ciphers iteration)
        (ms : List Message)
      → P n creds
      → collect sys schemes ciphers iteration eid creds ms ≡ ok creds'
      → P (num_posted ms + n) creds'
  unfolding collect
  collect-keeps P grows stays eid n creds creds' [] h e =
      let count : n ≡ 0 + n = omega arith in
      subst (λ i. P i creds') count (subst (P n) (ok_injective e) h)
  collect-keeps P grows stays eid n creds creds' (m ∷ ms) h e = elim (Option-cases m.credential) [
    | inl other ↦
        let rest : collect sys schemes ciphers iteration eid creds ms ≡ ok creds' = ground arith in
        rw other (collect-keeps P grows stays eid n creds creds' ms h rest)
    | inr (c, there) ↦
        let whole : (collect_credential sys schemes ciphers iteration eid creds c >>= λ r.
        collect sys schemes ciphers iteration eid r ms)
            ≡ ok creds' =
          ground arith in
        let (creds1, e1, e2) =
          >>=-eq-ok (collect_credential sys schemes ciphers iteration eid creds c) _ whole in
        let h1 : P (suc n) creds1 = elim (collect_credential_cases eid creds creds1 c e1) [
          | inl same ↦ subst (P (suc n)) same (stays n creds h)
          | inr (k, v, read, put) ↦
              subst (P (suc n)) (sym put) (grows n k c.credential v creds read h)
        ] in
        let count : num_posted ms + suc n ≡ suc (num_posted ms) + n = omega arith in
        rw there (
          subst (λ i. P i creds') count
            (collect-keeps P grows stays eid (suc n) creds1 creds' ms h1 e2))
  ]
