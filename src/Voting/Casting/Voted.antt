-- ===== src/Voting/Casting/Voted.antt =====
-- election.go, `Vote` and `RevealBallotDecryption` on the channel kept in memory: what a call that
-- returns no error has done.
use pebble_voting_app.Base.{
  ℕ, ◌≡◌, ◌∙◌, ap, sym, List, Bytes, Result, ok, arith, Bool-cases, inl, inr, ◌==◌, >>=-eq-ok,
}
use pebble_voting_app.Base.Exec.{Exec, lift, continue-ok_holds}
use pebble_voting_app.Vdf.{VdfSolution}
use pebble_voting_app.Pubkey.{Schemes}
use pebble_voting_app.Anoncred.{CredentialSystem}
use pebble_voting_app.Structs.EncryptedBallot
use pebble_voting_app.Structs.EncryptedBallot.{EncryptedBallot}
use pebble_voting_app.Structs.EncryptedBallot.Sealing.{Ciphers, encrypt}
use pebble_voting_app.Structs.SignedBallot.{SignedBallot}
use pebble_voting_app.Methods.Choice
use pebble_voting_app.Voting.Params.{Time, phase, number, cast}
use pebble_voting_app.Voting.Election.{Election}
use pebble_voting_app.Voting.Signing.{sign_ballot}
use pebble_voting_app.Voting.Message.{MockBroadcastChannel, post, of_ballot}
use pebble_voting_app.Voting.Casting.{SecretsManager, on_secrets, fetch_credential_set, vote}
use pebble_voting_app.Voting.Casting.Posting.{mock_channel, MockWorld, fetch_keeps}

-- A secrets manager that returns the solution that was stored last.
pub record Remembers {sys : CredentialSystem} (manager : SecretsManager sys) : Type 0 where
  pub stored : manager.State → VdfSolution
  pub set :
      (sol : VdfSolution) (s : manager.State)
      → (manager.set_vdf_solution sol s).0 ≡ ok tt
      → stored (manager.set_vdf_solution sol s).1 ≡ sol
  pub credential : (s : manager.State) → stored (manager.get_secret_credential s).1 ≡ stored s
  pub ballot : (b : SignedBallot) (s : manager.State) → stored (manager.set_ballot b s).1 ≡ stored s
  pub get :
      (s : manager.State) (sol : VdfSolution)
      → (manager.get_vdf_solution s).0 ≡ ok sol
      → sol ≡ stored s

module _ (sys : CredentialSystem) (schemes : Schemes) (ciphers : Ciphers)
    (iteration : List sys.PublicCredential → List sys.PublicCredential)
    (manager : SecretsManager sys) (remembers : Remembers manager) where
  -- What `Vote` has made of the choices, and what it leaves.
  pub record Voted (e : Election) (nonce : Bytes) (choices : List ℕ) (duration : ℕ)
      (bc : MockBroadcastChannel) (w : MockWorld sys schemes ciphers iteration manager)
      : Type 0 where
    pub solution : VdfSolution
    pub ballot : Bytes
    pub signed : SignedBallot
    pub created : e.vdf.create duration ≡ ok solution
    pub chosen : Choice.vote e.method choices ≡ ok ballot
    pub encrypted : encrypt ciphers (ok nonce) ballot solution ≡ ok signed.encrypted_ballot
    pub posted : w.posted ≡ post bc (of_ballot signed)
    pub kept : remembers.stored w.kept ≡ solution

  encrypted_of : Result SignedBallot → EncryptedBallot → EncryptedBallot
  encrypted_of (ok sb) eb = sb.encrypted_ballot
  encrypted_of r eb = eb

  signed-encrypted :
      (eb : EncryptedBallot) (set : sys.CredentialSet) (cred : sys.SecretCredential)
      (sb : SignedBallot)
      → sign_ballot sys eb set cred ≡ ok sb
      → eb ≡ sb.encrypted_ballot
  unfolding sign_ballot encrypted_of
  signed-encrypted eb set cred sb e =
      let (msg, written, e1) = >>=-eq-ok (EncryptedBallot.bytes eb) _ e in
      let (sig, made, e2) = >>=-eq-ok (sys.set_sign set cred msg) _ e1 in
      ap (λ (r : Result SignedBallot). encrypted_of r eb) e2

  abbrev secrets {ℓ} :
      {A : Type ℓ} → Exec manager.State A → Exec (MockWorld sys schemes ciphers iteration manager) A
  secrets = on_secrets sys schemes ciphers iteration mock_channel manager

  -- A step that leaves the channel and the stored solution alone.
  abbrev Keeps : (w w' : MockWorld sys schemes ciphers iteration manager) → Type 0
  Keeps w w' = (w'.posted ≡ w.posted) × (remembers.stored w'.kept ≡ remembers.stored w.kept)

  then-Keeps :
      {w v u : MockWorld sys schemes ciphers iteration manager} → Keeps w v → Keeps v u → Keeps w u
  then-Keeps (p, k) (p', k') = (p' ∙ p, k' ∙ k)

  lifted :
      {A : Type 0} {r : Result A} {a : A} {w w' : MockWorld sys schemes ciphers iteration manager}
      → lift r w ≡ (ok a, w')
      → (r ≡ ok a) × Keeps w w'
  lifted e =
      (ap (λ q. q.0) e, (ap (λ q. q.1.posted) (sym e), ap (λ q. remembers.stored q.1.kept) (sym e)))

  -- A call of the secrets manager.
  called :
      {A : Type 0} (m : Exec manager.State A) {a : A}
      {w w' : MockWorld sys schemes ciphers iteration manager}
      → secrets m w ≡ (ok a, w')
      → (m w.kept ≡ (ok a, w'.kept)) × (w'.posted ≡ w.posted)
  called m e = (ap (λ q. (q.0, q.1.kept)) e, ap (λ q. q.1.posted) (sym e))

  called-Keeps :
      {A : Type 0} (m : Exec manager.State A) {a : A}
      {w w' : MockWorld sys schemes ciphers iteration manager}
      → ((s : manager.State) → remembers.stored (m s).1 ≡ remembers.stored s)
      → secrets m w ≡ (ok a, w')
      → Keeps w w'
  called-Keeps m {w = w} k e =
      let (same, there) = called m e in
      (there, sym (ap (λ q. remembers.stored q.1) same) ∙ k w.kept)

  -- The solution is stored.
  storing :
      (sol : VdfSolution) {u : Unit {0}} {w w' : MockWorld sys schemes ciphers iteration manager}
      → secrets (manager.set_vdf_solution sol) w ≡ (ok u, w')
      → (w'.posted ≡ w.posted) × (remembers.stored w'.kept ≡ sol)
  storing sol {w = w} e =
      let (same, there) = called (manager.set_vdf_solution sol) e in
      (
        there,
        sym (ap (λ q. remembers.stored q.1) same) ∙ remembers.set sol w.kept (ap (λ q. q.0) same),
      )

  assemble :
      (e : Election) (duration : ℕ) {nonce ballot : Bytes} {choices : List ℕ}
      {bc : MockBroadcastChannel} {sol : VdfSolution} {eb : EncryptedBallot}
      {signing : Result SignedBallot} {signed : SignedBallot}
      {w1 w2 w3 w4 w5 w6 w7 w8 : MockWorld sys schemes ciphers iteration manager}
      → w1.posted ≡ bc
      → (e.vdf.create duration ≡ ok sol) × Keeps w1 w2
      → (w3.posted ≡ w2.posted) × (remembers.stored w3.kept ≡ sol)
      → Keeps w3 w4
      → (Choice.vote e.method choices ≡ ok ballot) × Keeps w4 w5
      → (encrypt ciphers (ok nonce) ballot sol ≡ ok eb) × Keeps w5 w6
      → (signing ≡ ok signed → eb ≡ signed.encrypted_ballot)
      → (signing ≡ ok signed) × Keeps w6 w7
      → Keeps w7 w8
      → Voted e nonce choices duration bc (record w8 { posted = post w8.posted (of_ballot signed) })
  assemble e duration {ballot = ballot} {sol = sol} {signed = signed} start (created, k2)
        (same, stored) k4 (chosen, k5) (sealed, k6) own (made, k7) k8 =
      let k = then-Keeps k4 (then-Keeps k5 (then-Keeps k6 (then-Keeps k7 k8))) in
      record {
        solution = sol;
        ballot = ballot;
        signed = signed;
        created = created;
        chosen = chosen;
        encrypted = sealed ∙ ap ok (own made);
        posted = ap (λ bc. post bc (of_ballot signed)) (k.0 ∙ same ∙ k2.0 ∙ start);
        kept = k.1 ∙ stored;
      }

  abbrev Ends :
      Election
      → (nonce : Bytes) → (choices : List ℕ) → (duration : ℕ) → MockBroadcastChannel
      → Result (Unit {0}) × MockWorld sys schemes ciphers iteration manager
      → Type 0
  Ends e nonce choices duration bc q = Voted e nonce choices duration bc q.1

  pub vote-Voted :
      (e : Election) (now later : Time) (duration : ℕ) (nonce : Bytes) (choices : List ℕ)
      (w : MockWorld sys schemes ciphers iteration manager)
      → (vote sys schemes ciphers iteration mock_channel manager e now later duration
          (ok nonce)
          choices
          w).0
        ≡ ok tt
      → Voted e nonce choices duration w.posted
          (vote sys schemes ciphers iteration mock_channel manager e now later duration
            (ok nonce)
            choices
            w).1
  unfolding vote
  vote-Voted e now later duration nonce choices w done =
      elim (Bool-cases (number (phase now e.params) == number cast)) [
        | inr wrong ↦ absurd (ground arith)
        | inl right ↦ rw right (
            continue-ok_holds (Ends e nonce choices duration w.posted)
              (fetch_credential_set sys schemes ciphers iteration mock_channel manager e later w) _
              (rw right at done)
              λ set w1 s1 done1.
                continue-ok_holds (Ends e nonce choices duration w.posted)
                  (e.vdf.create duration, w1) _ done1
                  λ sol w2 s2 done2.
                    continue-ok_holds (Ends e nonce choices duration w.posted)
                      (secrets (manager.set_vdf_solution sol) w2) _ done2
                      λ u3 w3 s3 done3.
                        continue-ok_holds (Ends e nonce choices duration w.posted)
                          (secrets manager.get_secret_credential w3) _ done3
                          λ sec w4 s4 done4.
                            continue-ok_holds (Ends e nonce choices duration w.posted)
                              (Choice.vote e.method choices, w4) _ done4
                              λ ballot w5 s5 done5.
                                continue-ok_holds (Ends e nonce choices duration w.posted)
                                  (encrypt ciphers (ok nonce) ballot sol, w5) _ done5
                                  λ encrypted w6 s6 done6.
                                    continue-ok_holds (Ends e nonce choices duration w.posted)
                                      (sign_ballot sys encrypted set sec, w6) _ done6
                                      λ signed w7 s7 done7.
                                        continue-ok_holds (Ends e nonce choices duration w.posted)
                                          (secrets (manager.set_ballot signed) w7) _ done7
                                          λ u8 w8 s8 done8.
                                            let start =
                                              ap (λ q. q.1.posted) (sym s1)
                                              ∙ fetch_keeps sys schemes ciphers iteration manager e
                                                  later w in
                                            assemble e duration start (lifted s2) (storing sol s3)
                                              (called-Keeps manager.get_secret_credential
                                                remembers.credential s4)
                                              (lifted s5) (lifted s6)
                                              (signed-encrypted encrypted set sec signed)
                                              (lifted s7)
                                              (called-Keeps (manager.set_ballot signed)
                                                (remembers.ballot signed) s8))
      ]
