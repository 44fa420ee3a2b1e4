-- ===== src/Voting/Election/Tallying.antt =====
-- `Progress` of election.go in the phases Tally and End, against what the messages hold.
use pebble_voting_app.Base.{
  ℕ, ◌-◌, ◌%◌, ◌^◌, ◌≤◌, ◌≡◌, ◌∙◌, sym, ap, subst, List, Result, ok, ok_injective, >>=-eq-ok, arith,
  length, ◌==◌, if◌then◌else◌,
}
use pebble_voting_app.Pubkey.{Schemes}
use pebble_voting_app.Anoncred.{CredentialSystem}
use pebble_voting_app.Structs.EncryptedBallot.Sealing.{Ciphers}
use pebble_voting_app.Methods.{count_at}
use pebble_voting_app.Methods.Choice
use pebble_voting_app.Methods.Choice.{approval}
use pebble_voting_app.Methods.Approval.Counting.{support, count_at-tally_approval}
use pebble_voting_app.Voting.Params.{
  Time, ElectionPhase, phase, number, setup, cred_gen, cast, tally, end,
}
use pebble_voting_app.Voting.Message.{Message}
use pebble_voting_app.Voting.Election.{
  Election, ElectionProgress, Counts, no_counts, signed_ballots, decryptions, report, progress,
  get_credential_set,
}
use pebble_voting_app.Voting.Election.Progress.{progress-Basis}
use pebble_voting_app.Voting.Election.Openings.{accepted, opened, spoiled, Adds, count_ballots-Adds}

module _ (sys : CredentialSystem) (schemes : Schemes) (ciphers : Ciphers)
    (iteration : List sys.PublicCredential → List sys.PublicCredential) where
  open sys use {CredentialSet}

  -- The report of a phase from Tally on.
  report-late :
      (e : Election) (ph : ElectionPhase) (set : CredentialSet) (c : Counts) (p : ElectionProgress)
      → number tally ≤ number ph
      → report sys schemes ciphers iteration e ph set c ≡ ok p
      → (Choice.tally e.method c.ballots ≡ ok p.tally)
        × (p.count ≡ c.decrypted)
        × (p.total ≡ c.signed - (if number ph == number tally then c.invalid else 0))
  unfolding report
  report-late e setup set c p late r = absurd (omega (arith, late))
  report-late e cred_gen set c p late r = absurd (omega (arith, late))
  report-late e cast set c p late r = absurd (omega (arith, late))
  report-late e tally set c p late r =
      let (t, counted, same) = >>=-eq-ok (Choice.tally e.method c.ballots) _ r in
      (counted ∙ ground arith, ground arith, ground arith)
  report-late e end set c p late r =
      let (t, counted, same) = >>=-eq-ok (Choice.tally e.method c.ballots) _ r in
      (counted ∙ ground arith, ground arith, ground arith)

  -- From the tally phase on, let `Progress` return p, and look at the posted signed ballots,
  -- copies included, that verify against the credential set. Then p's tally is the method's tally of what the posted
  -- decryption messages open of them, in their order, and p counts how many are opened. Its total
  -- is how many they are, in the phase Tally without those whose solution is there and that do
  -- not decrypt.
  pub progress-tally :
      (e : Election) (now later : Time) (first : Result (List Message)) (msgs : List Message)
      (set : CredentialSet) (p : ElectionProgress)
      → number tally ≤ number (phase now e.params)
      → get_credential_set sys schemes ciphers iteration e later first ≡ ok set
      → progress sys schemes ciphers iteration e now later first (ok msgs) ≡ ok p
      → (let acc = accepted sys schemes ciphers iteration set (signed_ballots msgs) in
          let decs = decryptions msgs in
          (Choice.tally e.method (opened ciphers e decs acc) ≡ ok p.tally)
          × (p.count ≡ length (opened ciphers e decs acc))
          × (p.total
              ≡ length acc
                - (if number (phase now e.params) == number tally
                    then spoiled ciphers e decs acc
                    else 0)))
  progress-tally e now later first msgs set p late made h =
      let b =
        progress-Basis sys schemes ciphers iteration e now later first (ok msgs) p
          (omega (arith, late)) h in
      let same_set : b.set ≡ set = ok_injective (sym b.made ∙ made) in
      let same_msgs : b.msgs ≡ msgs = ok_injective (sym b.fetched) in
      let a =
        subst
          (λ s.
            Adds ciphers e (decryptions b.msgs) no_counts b.counts
              (accepted sys schemes ciphers iteration s (signed_ballots b.msgs)))
          same_set
          (count_ballots-Adds sys schemes ciphers iteration e (phase now e.params) b.set
            (decryptions b.msgs) no_counts b.counts (signed_ballots b.msgs) (ground arith)
            b.counted) in
      let a' =
        subst
          (λ m.
            Adds ciphers e (decryptions m) no_counts b.counts
              (accepted sys schemes ciphers iteration set (signed_ballots m)))
          same_msgs a in
      let (tallied, count, total) =
        report-late e (phase now e.params) b.set b.counts p late b.reported in
      (
        ap (Choice.tally e.method) (sym a'.ballots) ∙ tallied,
        omega (arith, count, a'.decrypted),
        total ∙ ground (arith, a'.signed, a'.invalid),
      )

  -- In an election by approval voting, from the tally phase on, let `Progress` return p. Its count
  -- of choice i is modulo 2 ^ 64 the number of approvals of i in those ballots, copies
  -- included, that are posted, verify against the credential set, are opened by the posted decryption messages, and have one
  -- entry, 0 or 1, for each choice.
  pub progress-approval :
      (e : Election) (n : ℕ) (now later : Time) (first : Result (List Message))
      (msgs : List Message) (set : CredentialSet) (p : ElectionProgress) (i : ℕ)
      → e.method ≡ approval n
      → number tally ≤ number (phase now e.params)
      → get_credential_set sys schemes ciphers iteration e later first ≡ ok set
      → progress sys schemes ciphers iteration e now later first (ok msgs) ≡ ok p
      → count_at p.tally i
        ≡ support n i (
            opened ciphers e
              (decryptions msgs)
              (accepted sys schemes ciphers iteration set (signed_ballots msgs)))
          % 2 ^ 64
  unfolding Choice.tally
  progress-approval e n now later first msgs set p i method late made h =
      let (tallied, count, total) = progress-tally e now later first msgs set p late made h in
      let votes =
        opened ciphers e (decryptions msgs)
          (accepted sys schemes ciphers iteration set (signed_ballots msgs)) in
      let same = ok_injective (sym (ap (λ m. Choice.tally m votes) method) ∙ tallied) in
      ap (λ t. count_at t i) (sym same) ∙ count_at-tally_approval n votes i
