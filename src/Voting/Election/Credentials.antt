-- ===== src/Voting/Election/Credentials.antt =====
-- `GetCredentialSet` of election.go: which credentials the set is made of.
use pebble_voting_app.Base.{
  ◌≡◌, ◌∙◌, sym, refl, [], ◌∷◌, List, Option, none, some, Bytes, ok, >>=-eq-ok, ◌>>=◌, bytes_eq,
  bytes_eq→eq, bytes_eq_refl, map, arith, Bool-cases, inl, inr, leb,
}
use pebble_voting_app.Pubkey.{Schemes}
use pebble_voting_app.Anoncred.{CredentialSystem}
use pebble_voting_app.Structs.EncryptedBallot.Sealing.{Ciphers}
use pebble_voting_app.Voting.Params.{Time, phase, number, cred_gen}
use pebble_voting_app.Voting.Message.{Message}
use pebble_voting_app.Voting.Election.{Election, insert, Creds, collect, get_credential_set}
use pebble_voting_app.Voting.Election.Collecting.{
  value_at, value_at-insert, or_else, last_of, collect-value_at, collect-keeps,
}

module _ (sys : CredentialSystem) (schemes : Schemes) (ciphers : Ciphers)
    (iteration : List sys.PublicCredential → List sys.PublicCredential) where
  open sys use {PublicCredential, CredentialSet, read_public_credential, make_credential_set}

  -- No key stands twice.
  abbrev pub NoRepeats : Creds sys schemes ciphers iteration → Type 0
  NoRepeats [] = Unit
  NoRepeats ((k, v) ∷ m) = (value_at k m ≡ none) × NoRepeats m

  insert-NoRepeats :
      (k : Bytes) (v : PublicCredential) (m : Creds sys schemes ciphers iteration)
      → NoRepeats m
      → NoRepeats (insert k v m)
  unfolding insert
  insert-NoRepeats k v [] h = (refl, tt)
  insert-NoRepeats k v ((j, w) ∷ m) h = elim (Bool-cases (bytes_eq j k)) [
    | inl same ↦ rw (same, sym (bytes_eq→eq j k same)) h
    | inr other ↦
        let fresh : value_at j (insert k v m) ≡ none =
          ground (arith, value_at-insert k j v m, bytes_eq→eq k j, bytes_eq_refl k, h.0) in
        rw other (fresh, insert-NoRepeats k v m h.1)
  ]

  -- What `GetCredentialSet` makes its set of.
  pub get_credential_set-collect :
      (e : Election) (now : Time) (msgs : List Message) (set : CredentialSet)
      → get_credential_set sys schemes ciphers iteration e now (ok msgs) ≡ ok set
      → (creds : Creds sys schemes ciphers iteration) × (collect sys schemes ciphers iteration e.id
            [] msgs
          ≡ ok creds)
        × (make_credential_set (iteration (map (λ (p : Bytes × PublicCredential). p.1) creds))
            ≡ ok set)
  unfolding get_credential_set
  get_credential_set-collect e now msgs set h =
      elim (Bool-cases (leb (number (phase now e.params)) (number cred_gen))) [
        | inl early ↦ absurd (ground arith)
        | inr past ↦
            let whole : (collect sys schemes ciphers iteration e.id [] msgs >>= λ creds.
            make_credential_set (iteration (map (λ (p : Bytes × PublicCredential). p.1) creds)))
                ≡ ok set =
              ground arith in
            let (creds, e1, e2) =
              >>=-eq-ok (collect sys schemes ciphers iteration e.id [] msgs) _ whole in
            (creds, e1, e2)
      ]

  -- If `GetCredentialSet` returns a set, it is made of one credential for each hash of a public
  -- key, in the order in which Go ranges over the map: the credential of the last posted message
  -- with that key whose signature verifies and whose credential can be read.
  pub get_credential_set-last :
      (e : Election) (now : Time) (msgs : List Message) (set : CredentialSet)
      → get_credential_set sys schemes ciphers iteration e now (ok msgs) ≡ ok set
      → (creds : Creds sys schemes ciphers iteration) × NoRepeats creds
        × ((k : Bytes) → value_at k creds ≡ last_of sys schemes ciphers iteration e.id k msgs)
        × (make_credential_set (iteration (map (λ (p : Bytes × PublicCredential). p.1) creds))
            ≡ ok set)
  get_credential_set-last e now msgs set h =
      let (creds, collected, made) = get_credential_set-collect e now msgs set h in
      (
        creds,
        collect-keeps sys schemes ciphers iteration (λ n m. NoRepeats m)
            (λ n k c v m read. insert-NoRepeats k v m) (λ n m distinct. distinct) e.id 0 [] creds
            msgs tt collected,
        λ k.
            collect-value_at sys schemes ciphers iteration e.id k [] creds msgs collected
            ∙ or_else-none (last_of sys schemes ciphers iteration e.id k msgs),
        made,
      )
    where
      or_else-none : (o : Option PublicCredential) → or_else o none ≡ o
      or_else-none none = refl
      or_else-none (some c) = refl
