-- ===== src/Voting/Election/Openings.antt =====
-- `Progress` of election.go: the ballots that are accepted, and what the counters gain by them.
use pebble_voting_app.Base.{
  ℕ, ◌+◌, ◌≡◌, ◌∙◌, sym, ap, refl, subst, [], ◌∷◌, ◌++◌, List, Bool, true, false, Bytes, Result, ok,
  err, panic, stuck, ok_injective, >>=-eq-ok, arith, length, length-append, leb, if◌then◌else◌,
  append_assoc, append-nil, Result-cases, inl, inr,
}
use pebble_voting_app.Util.BytesSet
use pebble_voting_app.Pubkey.{Schemes}
use pebble_voting_app.Anoncred.{CredentialSystem}
use pebble_voting_app.Structs.DecryptionMessage.{DecryptionMessage}
use pebble_voting_app.Structs.EncryptedBallot.Sealing.{Ciphers}
use pebble_voting_app.Structs.SignedBallot.{SignedBallot}
use pebble_voting_app.Voting.Params.{ElectionPhase, number, tally}
use pebble_voting_app.Voting.Election.{
  Election, Counts, is_not_found, tally_ballot, decrypt_ballot, verify_ballot, count_ballot,
  count_ballots,
}
use pebble_voting_app.Voting.Election.Progress.{count_ballots_step}

abbrev pub is_ok : Result (Unit {0}) → Bool
is_ok (ok u) = true
is_ok (err e) = false
is_ok panic = false
is_ok stuck = false

-- What a decryption adds to the ballots, and whether it makes a ballot invalid.
abbrev pub contents : Result Bytes → List Bytes
contents (ok b) = b ∷ []
contents (err e) = []
contents panic = []
contents stuck = []

abbrev pub spoils : Result Bytes → ℕ
spoils (ok b) = 0
spoils (err e) = if is_not_found e then 0 else 1
spoils panic = 0
spoils stuck = 0

module _ (ciphers : Ciphers) where
  -- What can be opened of some ballots with the decryption messages, and how many cannot be decrypted with
  -- a solution that is there.
  abbrev pub opened : Election → List DecryptionMessage → List SignedBallot → List Bytes
  opened e decs [] = []
  opened e decs (b ∷ bs) =
      contents (decrypt_ballot ciphers e.vdf b.encrypted_ballot decs) ++ opened e decs bs

  abbrev pub spoiled : Election → List DecryptionMessage → List SignedBallot → ℕ
  spoiled e decs [] = 0
  spoiled e decs (b ∷ bs) =
      spoils (decrypt_ballot ciphers e.vdf b.encrypted_ballot decs) + spoiled e decs bs

  -- The counters once some ballots that verify have been counted.
  pub record Adds (e : Election) (decs : List DecryptionMessage) (c c' : Counts)
      (bs : List SignedBallot) : Type 0 where
    pub signed : c'.signed ≡ c.signed + length bs
    pub decrypted : c'.decrypted ≡ c.decrypted + length (opened e decs bs)
    pub invalid : c'.invalid ≡ c.invalid + spoiled e decs bs
    pub ballots : c'.ballots ≡ c.ballots ++ opened e decs bs

  tally_ballot-Adds :
      (e : Election) (decs : List DecryptionMessage) (c c' : Counts) (b : SignedBallot)
      (r : Result Bytes)
      → decrypt_ballot ciphers e.vdf b.encrypted_ballot decs ≡ r
      → tally_ballot (record c { signed = c.signed + 1 }) r ≡ ok c'
      → Adds e decs c c' (b ∷ [])
  unfolding tally_ballot
  tally_ballot-Adds e decs c c' b (ok m) d h = record {
    signed = ground arith;
    decrypted = ground arith;
    invalid = ground arith;
    ballots = ground arith;
  }
  tally_ballot-Adds e decs c c' b (err x) d h = record {
    signed = ground arith;
    decrypted = ground arith;
    invalid = ground arith;
    ballots = ground (arith, append-nil c.ballots);
  }
  tally_ballot-Adds e decs c c' b panic d h = absurd (ground arith)
  tally_ballot-Adds e decs c c' b stuck d h = absurd (ground arith)

  Adds-none : (e : Election) (decs : List DecryptionMessage) (c : Counts) → Adds e decs c c []
  Adds-none e decs c = record {
    signed = omega arith;
    decrypted = omega arith;
    invalid = omega arith;
    ballots = sym (append-nil c.ballots);
  }

  Adds-trans :
      (e : Election) (decs : List DecryptionMessage) (c c1 c2 : Counts) (b : SignedBallot)
      (bs : List SignedBallot)
      → Adds e decs c c1 (b ∷ [])
      → Adds e decs c1 c2 bs
      → Adds e decs c c2 (b ∷ bs)
  Adds-trans e decs c c1 c2 b bs p q =
      let r = contents (decrypt_ballot ciphers e.vdf b.encrypted_ballot decs) in
      let one : r ++ [] ≡ r = append-nil r in
      record {
        signed = omega (arith, p.signed, q.signed);
        decrypted = omega (
          arith,
          p.decrypted,
          q.decrypted,
          ap (length {A = Bytes}) one,
          length-append r (opened e decs bs),
        );
        invalid = omega (arith, p.invalid, q.invalid);
        ballots =
            q.ballots
            ∙ ap (λ x. x ++ opened e decs bs) (p.ballots ∙ ap (λ x. c.ballots ++ x) one)
            ∙ append_assoc c.ballots r (opened e decs bs);
      }

module _ (sys : CredentialSystem) (schemes : Schemes) (ciphers : Ciphers)
    (iteration : List sys.PublicCredential → List sys.PublicCredential) where
  open sys use {CredentialSet}

  -- The signed ballots that verify, in their order.
  abbrev pub accepted : CredentialSet → List SignedBallot → List SignedBallot
  accepted set [] = []
  accepted set (b ∷ bs) =
      if is_ok (verify_ballot sys schemes ciphers iteration set b)
      then b ∷ accepted set bs
      else accepted set bs

  count_ballot-Adds :
      (e : Election) (ph : ElectionPhase) (set : CredentialSet) (decs : List DecryptionMessage)
      (c c' : Counts) (b : SignedBallot)
      → leb (number tally) (number ph) ≡ true
      → count_ballot sys schemes ciphers iteration e ph set decs c b ≡ ok c'
      → Adds ciphers e decs c c' (accepted set (b ∷ []))
  unfolding count_ballot
  count_ballot-Adds e ph set decs c c' b late h =
      elim (Result-cases (verify_ballot sys schemes ciphers iteration set b)) [
        | inl (u, good) ↦ rw good (
            tally_ballot-Adds ciphers e decs c c' b
              (decrypt_ballot ciphers e.vdf b.encrypted_ballot decs) refl (ground arith))
        | inr (inl (x, bad)) ↦
            let same : c ≡ c' = ground arith in
            rw bad (subst (λ d. Adds ciphers e decs c d []) same (Adds-none ciphers e decs c))
        | inr (inr (inl bad)) ↦ absurd (ground arith)
        | inr (inr (inr bad)) ↦ absurd (ground arith)
      ]

  pub count_ballots-Adds :
      (e : Election) (ph : ElectionPhase) (set : CredentialSet) (decs : List DecryptionMessage)
      (c c' : Counts) (bs : List SignedBallot)
      → leb (number tally) (number ph) ≡ true
      → count_ballots sys schemes ciphers iteration e ph set decs BytesSet.empty c bs ≡ ok c'
      → Adds ciphers e decs c c' (accepted set bs)
  count_ballots-Adds e ph set decs c c' [] late h =
      let same : c ≡ c' = unfold count_ballots in ok_injective h in
      subst (λ d. Adds ciphers e decs c d []) same (Adds-none ciphers e decs c)
  count_ballots-Adds e ph set decs c c' (b ∷ bs) late h =
      let (c1, h1, h2) =
        >>=-eq-ok (count_ballot sys schemes ciphers iteration e ph set decs c b) _
          (sym (count_ballots_step sys schemes ciphers iteration e ph set decs c b bs) ∙ h) in
      let first = count_ballot-Adds e ph set decs c c1 b late h1 in
      let rest = count_ballots-Adds e ph set decs c1 c' bs late h2 in
      joined (is_ok (verify_ballot sys schemes ciphers iteration set b)) c1 first rest
    where
      joined :
          (good : Bool) (c1 : Counts)
          → Adds ciphers e decs c c1 (if good then b ∷ [] else [])
          → Adds ciphers e decs c1 c' (accepted set bs)
          → Adds ciphers e decs c c' (if good then b ∷ accepted set bs else accepted set bs)
      joined true c1 p q = Adds-trans ciphers e decs c c1 c' b (accepted set bs) p q
      joined false c1 p q = record {
        signed = omega (arith, p.signed, q.signed);
        decrypted = omega (arith, p.decrypted, q.decrypted);
        invalid = omega (arith, p.invalid, q.invalid);
        ballots =
            q.ballots
            ∙ ap (λ x. x ++ opened ciphers e decs (accepted set bs))
                (p.ballots ∙ append-nil c.ballots);
      }
