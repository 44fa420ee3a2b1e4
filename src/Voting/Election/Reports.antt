-- ===== src/Voting/Election/Reports.antt =====
-- `Progress` of election.go: what the reported numbers count, phase by phase.
use pebble_voting_app.Base.{
  ◌+◌, ◌-◌, ◌≤◌, ◌≡◌, ◌∙◌, sym, ap, [], ◌∷◌, ◌++◌, List, Result, ok, arith, ok_injective, >>=-eq-ok,
  subst, refl,
}
use pebble_voting_app.Pubkey.{Schemes}
use pebble_voting_app.Anoncred.{CredentialSystem}
use pebble_voting_app.Structs.EncryptedBallot.Sealing.{Ciphers}
use pebble_voting_app.Structs.SignedBallot.{SignedBallot}
use pebble_voting_app.Methods.Choice
use pebble_voting_app.Voting.Params.{Time, ElectionPhase, phase, number, cast, tally}
use pebble_voting_app.Voting.Message.{Message, of_ballot}
use pebble_voting_app.Voting.Election.{
  Election, ElectionProgress, Counts, signed_ballots, verify_ballot, report, progress,
  get_credential_set,
}
use pebble_voting_app.Voting.Election.Progress.{IsConsistent, verified, progress-Basis, one_if_ok}

signed_ballots-append :
    (ms : List Message) (b : SignedBallot)
    → signed_ballots (ms ++ (of_ballot b ∷ [])) ≡ signed_ballots ms ++ (b ∷ [])
unfolding signed_ballots
signed_ballots-append [] b = refl
signed_ballots-append (m ∷ ms) b = ground (arith, signed_ballots-append ms b)

module _ (sys : CredentialSystem) (schemes : Schemes) (ciphers : Ciphers)
    (iteration : List sys.PublicCredential → List sys.PublicCredential) where
  open sys use {CredentialSet, set_len}

  -- What a report says of the counters in each phase.
  abbrev Says : ElectionPhase → CredentialSet → Counts → ElectionProgress → Type 0
  Says cast set c p = (p.count ≡ c.signed) × (p.total ≡ set_len set)
  Says tally set c p = (p.count ≡ c.decrypted) × (p.total ≡ c.signed - c.invalid)
  Says ph set c p = (p.count ≡ c.decrypted) × (p.total ≡ c.signed)

  report-Says :
      (e : Election) (ph : ElectionPhase) (set : CredentialSet) (c : Counts) (p : ElectionProgress)
      → report sys schemes ciphers iteration e ph set c ≡ ok p
      → Says ph set c p
  unfolding report
  report-Says e cast set c p r = ground arith
  report-Says e tally set c p r =
      let (t, counted, same) = >>=-eq-ok (Choice.tally e.method c.ballots) _ r in ground arith
  report-Says e _ set c p r =
      let (t, counted, same) = >>=-eq-ok (Choice.tally e.method c.ballots) _ r in ground arith

  Says-bounds :
      (ph : ElectionPhase) (set : CredentialSet) (c : Counts) (p : ElectionProgress)
      → number tally ≤ number ph
      → IsConsistent c
      → Says ph set c p
      → p.count ≤ p.total
  Says-bounds cast set c p l v s = absurd (omega (arith, l))
  Says-bounds tally set c p l v s = omega (arith, v.split, s.0, s.1)
  Says-bounds _ set c p l v s = omega (arith, v.split, s.0, s.1)

  -- From the tally phase on, a progress that is returned never counts more decrypted ballots than
  -- its total.
  progress_bounds :
      (e : Election) (now later : Time) (first second : Result (List Message))
      (p : ElectionProgress)
      → number tally ≤ number (phase now e.params)
      → progress sys schemes ciphers iteration e now later first second ≡ ok p
      → p.count ≤ p.total
  progress_bounds e now later first second p late h =
      let b =
        progress-Basis sys schemes ciphers iteration e now later first second p
          (omega (arith, late)) h in
      Says-bounds (phase now e.params) b.set b.counts p late b.consistent
        (report-Says e (phase now e.params) b.set b.counts p b.reported)

  -- In the casting phase, a progress that is returned counts the posted signed ballots that
  -- verify against the credential set, copies included, and its total is the size of the set.
  pub progress-cast :
      (e : Election) (now later : Time) (first : Result (List Message)) (msgs : List Message)
      (set : CredentialSet) (p : ElectionProgress)
      → phase now e.params ≡ cast
      → get_credential_set sys schemes ciphers iteration e later first ≡ ok set
      → progress sys schemes ciphers iteration e now later first (ok msgs) ≡ ok p
      → (p.count ≡ verified sys schemes ciphers iteration set (signed_ballots msgs))
        × (p.total ≡ set_len set)
  progress-cast e now later first msgs set p ph made h =
      let in_cast : 2 ≤ number (phase now e.params) = rw ph (omega arith) in
      let b =
        progress-Basis sys schemes ciphers iteration e now later first (ok msgs) p in_cast h in
      let r =
        subst (λ q. report sys schemes ciphers iteration e q b.set b.counts ≡ ok p) ph b.reported in
      let (counted, total) = report-Says e cast b.set b.counts p r in
      let same_set : b.set ≡ set = ok_injective (sym b.made ∙ made) in
      let same_msgs : b.msgs ≡ msgs = ok_injective (sym b.fetched) in
      (
        counted
            ∙ b.signed
            ∙ ap (λ s. verified sys schemes ciphers iteration s (signed_ballots b.msgs)) same_set
            ∙ ap (λ m. verified sys schemes ciphers iteration set (signed_ballots m)) same_msgs,
        total ∙ ap set_len same_set,
      )

  verified-append :
      (set : CredentialSet) (bs : List SignedBallot) (b : SignedBallot)
      → verified sys schemes ciphers iteration set (bs ++ (b ∷ []))
        ≡ verified sys schemes ciphers iteration set bs
          + one_if_ok (verify_ballot sys schemes ciphers iteration set b)
  verified-append set [] b = omega arith
  verified-append set (x ∷ bs) b = omega (arith, verified-append set bs b)

  -- In the casting phase, if the progress is returned for the messages and for the messages with
  -- one more signed ballot that verifies, the second count is the first plus one, also if the
  -- same ballot, or one with its serial number, is among the messages already.
  pub progress-append :
      (e : Election) (now later : Time) (first : Result (List Message)) (msgs : List Message)
      (b : SignedBallot) (set : CredentialSet) (p q : ElectionProgress)
      → phase now e.params ≡ cast
      → get_credential_set sys schemes ciphers iteration e later first ≡ ok set
      → verify_ballot sys schemes ciphers iteration set b ≡ ok tt
      → progress sys schemes ciphers iteration e now later first (ok msgs) ≡ ok p
      → progress sys schemes ciphers iteration e now later first (ok (msgs ++ (of_ballot b ∷ [])))
        ≡ ok q
      → q.count ≡ p.count + 1
  progress-append e now later first msgs b set p q ph made good hp hq =
      let (n, _) = progress-cast e now later first msgs set p ph made hp in
      let (m, _) = progress-cast e now later first (msgs ++ (of_ballot b ∷ [])) set q ph made hq in
      m
      ∙ ap (verified sys schemes ciphers iteration set) (signed_ballots-append msgs b)
      ∙ verified-append set (signed_ballots msgs) b
      ∙ rw (good, n)
