-- ===== src/Voting/Election/Progress.antt =====
-- `Progress` of election.go: the counters that a report is made from.
use pebble_voting_app.Base.{
  ℕ, ◌+◌, ◌≤◌, ◌≡◌, ◌∙◌, refl, sym, [], ◌∷◌, List, false, Bytes, Result, ok, err, panic, stuck,
  arith, length, ◌>>=◌, >>=-eq-ok, leb, length-append, Result-cases, inl, inr, Bool-cases,
}
use pebble_voting_app.Util.BytesSet
use pebble_voting_app.Util.BytesSet.{BytesSet}
use pebble_voting_app.Pubkey.{Schemes}
use pebble_voting_app.Anoncred.{CredentialSystem}
use pebble_voting_app.Structs.DecryptionMessage.{DecryptionMessage}
use pebble_voting_app.Structs.EncryptedBallot.Sealing.{Ciphers}
use pebble_voting_app.Structs.SignedBallot.{SignedBallot}
use pebble_voting_app.Voting.Params.{Time, ElectionPhase, phase, number, cast, tally}
use pebble_voting_app.Voting.Message.{Message}
use pebble_voting_app.Voting.Election.{
  Election, ElectionProgress, Counts, no_counts, tally_ballot, decrypt_ballot, signed_ballots,
  decryptions, verify_ballot, count_ballot, count_ballots, report, progress, get_credential_set,
}

-- The counters fit together.
pub record IsConsistent (c : Counts) : Type 0 where
  pub split : c.decrypted + c.invalid ≤ c.signed
  pub kept : length c.ballots ≡ c.decrypted

-- The counters once a ballot that verifies has been counted.
one_more : Counts → Counts
one_more c = record c { signed = c.signed + 1 }

tally_ballot-IsConsistent :
    (c : Counts) (r : Result Bytes) (c' : Counts)
    → IsConsistent c
    → tally_ballot (one_more c) r ≡ ok c'
    → IsConsistent c' × (c'.signed ≡ c.signed + 1)
unfolding tally_ballot one_more
tally_ballot-IsConsistent c (ok b) c' v e = ground (arith, length-append c.ballots (b ∷ []))
tally_ballot-IsConsistent c (err x) c' v e = ground arith
tally_ballot-IsConsistent c panic c' v e = absurd (ground arith)
tally_ballot-IsConsistent c stuck c' v e = absurd (ground arith)

lt_leb : (n : ℕ) → 2 ≤ n → leb n 1 ≡ false
lt_leb n h = ground arith

-- 1 for a ballot whose verification returns no error.
abbrev pub one_if_ok : Result (Unit {0}) → ℕ
one_if_ok (ok u) = 1
one_if_ok (err e) = 0
one_if_ok panic = 0
one_if_ok stuck = 0

module _ (sys : CredentialSystem) (schemes : Schemes) (ciphers : Ciphers)
    (iteration : List sys.PublicCredential → List sys.PublicCredential) where
  open sys use {CredentialSet, set_len}

  -- How many of the ballots verify, a ballot that is posted twice counted twice.
  abbrev pub verified : CredentialSet → List SignedBallot → ℕ
  verified set [] = 0
  verified set (b ∷ bs) =
      one_if_ok (verify_ballot sys schemes ciphers iteration set b) + verified set bs

  count_ballot_lem :
      (e : Election) (ph : ElectionPhase) (set : CredentialSet) (decs : List DecryptionMessage)
      (c c' : Counts) (b : SignedBallot)
      → IsConsistent c
      → count_ballot sys schemes ciphers iteration e ph set decs c b ≡ ok c'
      → IsConsistent c'
        × (c'.signed ≡ c.signed + one_if_ok (verify_ballot sys schemes ciphers iteration set b))
  unfolding count_ballot one_more
  count_ballot_lem e ph set decs c c' b v h =
      elim (Result-cases (verify_ballot sys schemes ciphers iteration set b)) [
        | inl (u, good) ↦ elim (Bool-cases (leb (number tally) (number ph))) [
          | inl late ↦
              let t =
                tally_ballot-IsConsistent c (decrypt_ballot ciphers e.vdf b.encrypted_ballot decs)
                  c' v (ground arith) in
              ground (arith, t)
          | inr early ↦ ground arith
        ]
        | inr (inl (x, bad)) ↦ ground arith
        | inr (inr (inl bad)) ↦ absurd (ground arith)
        | inr (inr (inr bad)) ↦ absurd (ground arith)
      ]

  pub count_ballots_step :
      (e : Election) (ph : ElectionPhase) (set : CredentialSet) (decs : List DecryptionMessage)
      (c : Counts) (b : SignedBallot) (bs : List SignedBallot)
      → count_ballots sys schemes ciphers iteration e ph set decs BytesSet.empty c (b ∷ bs) ≡ (
          count_ballot sys schemes ciphers iteration e ph set decs c b >>= λ c'.
          count_ballots sys schemes ciphers iteration e ph set decs BytesSet.empty c' bs)
  unfolding count_ballots BytesSet.contains
  count_ballots_step e ph set decs c b bs = refl

  count_ballots_lem :
      (e : Election) (ph : ElectionPhase) (set : CredentialSet) (decs : List DecryptionMessage)
      (c c' : Counts) (bs : List SignedBallot)
      → IsConsistent c
      → count_ballots sys schemes ciphers iteration e ph set decs BytesSet.empty c bs ≡ ok c'
      → IsConsistent c' × (c'.signed ≡ c.signed + verified set bs)
  count_ballots_lem e ph set decs c c' [] v h = unfold count_ballots in ground arith
  count_ballots_lem e ph set decs c c' (b ∷ bs) v h =
      let (c1, h1, h2) =
        >>=-eq-ok (count_ballot sys schemes ciphers iteration e ph set decs c b) _
          (sym (count_ballots_step e ph set decs c b bs) ∙ h) in
      let (v1, n1) = count_ballot_lem e ph set decs c c1 b v h1 in
      let (v2, n2) = count_ballots_lem e ph set decs c1 c' bs v1 h2 in (v2, omega (arith, n1, n2))

  -- What a progress report was computed from.
  pub record Basis (e : Election) (now later : Time) (first second : Result (List Message))
      (p : ElectionProgress) : Type 0 where
    pub set : CredentialSet
    pub msgs : List Message
    pub counts : Counts
    pub made : get_credential_set sys schemes ciphers iteration e later first ≡ ok set
    pub fetched : second ≡ ok msgs
    pub counted :
        count_ballots sys schemes ciphers iteration e
          (phase now e.params)
          set
          (decryptions msgs)
          BytesSet.empty
          no_counts
          (signed_ballots msgs)
        ≡ ok counts
    pub consistent : IsConsistent counts
    pub signed : counts.signed ≡ verified set (signed_ballots msgs)
    pub reported : report sys schemes ciphers iteration e (phase now e.params) set counts ≡ ok p

  pub progress-Basis :
      (e : Election) (now later : Time) (first second : Result (List Message))
      (p : ElectionProgress)
      → number cast ≤ number (phase now e.params)
      → progress sys schemes ciphers iteration e now later first second ≡ ok p
      → Basis e now later first second p
  unfolding progress
  progress-Basis e now later first second p past h =
      let h0 = rw (lt_leb (number (phase now e.params)) past) at h in
      let (set, made, h1) =
        >>=-eq-ok (get_credential_set sys schemes ciphers iteration e later first) _ h0 in
      let (msgs, fetched, h2) = >>=-eq-ok second _ h1 in
      let (c, counted, h3) =
        >>=-eq-ok
          (count_ballots sys schemes ciphers iteration e (phase now e.params) set (decryptions msgs)
            BytesSet.empty no_counts (signed_ballots msgs))
          _ h2 in
      let (v, n) =
        count_ballots_lem e (phase now e.params) set (decryptions msgs) no_counts c
          (signed_ballots msgs) (record { split = omega arith; kept = refl }) counted in
      record {
        set = set;
        msgs = msgs;
        counts = c;
        made = made;
        fetched = fetched;
        counted = counted;
        consistent = v;
        signed = omega (arith, n);
        reported = h3;
      }
