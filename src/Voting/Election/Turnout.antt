-- ===== src/Voting/Election/Turnout.antt =====
-- election.go over anoncred1.go: how many ballots `Progress` can count in the phase Cast.
use mathlib.Core.List.{Permᴰ}
use pebble_voting_app.Base.{
  ◌+◌, ◌^◌, ◌≤◌, ◌<◌, ◌≡◌, sym, ap, refl, subst, [], ◌∷◌, List, Bool, ◌⊎◌, inl, inr, Bytes, Result,
  ok, ok_injective, >>=-eq-ok, length, map, arith, All, Result-cases,
}
use pebble_voting_app.Pubkey.{Schemes}
use pebble_voting_app.Anoncred.Gnark.{Gnark, HashesAgree}
use pebble_voting_app.Anoncred.AnonCred1.{AnonCred1, setup_circuit}
use pebble_voting_app.Anoncred.AnonCred1.Sets.{AnonCred1Set, make_credential_set, set_verify}
use pebble_voting_app.Anoncred.AnonCred1.Members.{Perm-length, Perm-AreBlocks}
use pebble_voting_app.Anoncred.AnonCred1.Completeness.{Sorts}
use pebble_voting_app.Anoncred.AnonCred1.Contract.{anoncred1, Fit}
use pebble_voting_app.Anoncred.AnonCred1.Soundness.{Collision}
use pebble_voting_app.Anoncred.AnonCred1.Serials.{Differ}
use pebble_voting_app.Anoncred.AnonCred1.OneVote.{Sound, Signed, serials-set_len}
use pebble_voting_app.Structs.EncryptedBallot.Sealing.{Ciphers}
use pebble_voting_app.Structs.SignedBallot
use pebble_voting_app.Structs.SignedBallot.{SignedBallot}
use pebble_voting_app.Voting.Params.{Time, phase, cast}
use pebble_voting_app.Voting.Message.{Message}
use pebble_voting_app.Voting.Election.{
  Election, ElectionProgress, signed_ballots, verify_ballot, get_credential_set, progress,
}
use pebble_voting_app.Voting.Election.Collecting.{num_posted, collect-keeps}
use pebble_voting_app.Voting.Election.Credentials.{get_credential_set-collect}
use pebble_voting_app.Voting.Election.Openings.{accepted}
use pebble_voting_app.Voting.Election.Progress.{verified}
use pebble_voting_app.Voting.Election.Reports.{progress-cast}
use pebble_voting_app.Voting.Election.Readable.{AreRead, insert-AreRead, values-AreBlocks}

module _ (g : Gnark) (sha256 : Bytes → Bytes)
    (sort : ((a b : Bytes) → Result Bool) → List Bytes → Result (List Bytes)) (params : AnonCred1 g)
    (schemes : Schemes) (ciphers : Ciphers) (iteration : List Bytes → List Bytes) where
  set_of_none :
      (cs : List Bytes) (set : AnonCred1Set g)
      → make_credential_set g sort params cs ≡ ok set
      → 0 < length set.creds
      → 0 < length cs
  unfolding make_credential_set
  set_of_none [] set e lt =
      let none_in : length set.creds ≡ 0 =
        ap (λ (s : AnonCred1Set g). length s.creds) (sym (ok_injective e)) in
      absurd (omega (arith, none_in, lt))
  set_of_none (c ∷ cs) set e lt = omega arith

  -- The credentials of a set from the channel.
  set-Fit :
      ((cs : List Bytes) → Permᴰ cs (iteration cs))
      → (e : Election) (now : Time) (msgs : List Message) (set : AnonCred1Set g)
      → num_posted msgs ≤ 2 ^ params.depth
      → 0 < length set.creds
      → get_credential_set
          (anoncred1 g sha256 sort params)
          schemes
          ciphers
          iteration
          e
          now
          (ok msgs)
        ≡ ok set
      → (cs : List Bytes) × Fit params cs × (make_credential_set g sort params cs ≡ ok set)
  set-Fit iterates e now msgs set few some_creds h =
      let sys = anoncred1 g sha256 sort params in
      let (m, collected, made) =
        get_credential_set-collect sys schemes ciphers iteration e now msgs set h in
      let cs = map (λ (p : Bytes × Bytes). p.1) m in
      let read =
        collect-keeps sys schemes ciphers iteration AreRead insert-AreRead
          (λ n m r. (r.0, omega (arith, r.1))) e.id 0 [] m msgs (tt, omega arith) collected in
      let (blocks, small) = values-AreBlocks (num_posted msgs + 0) m read in
      let perm = iterates cs in
      let n = Perm-length perm in
      (
        iteration cs,
        (
          set_of_none (iteration cs) set made some_creds,
          Perm-AreBlocks perm blocks,
          omega (arith, n, small, few),
        ),
        made,
      )

  -- The message of a ballot that verifies.
  signed_message :
      (set : AnonCred1Set g) (b : SignedBallot) {u : Unit {0}}
      → verify_ballot (anoncred1 g sha256 sort params) schemes ciphers iteration set b ≡ ok u
      → (msg : Bytes) × (SignedBallot.bytes b ≡ ok msg)
        × (set_verify g sha256 set b.serial_no b.signature msg ≡ ok u)
  unfolding verify_ballot
  signed_message set b good = >>=-eq-ok (SignedBallot.bytes b) _ good

  -- A signature for each accepted ballot.
  accepted-Signed :
      (set : AnonCred1Set g) (bs : List SignedBallot)
      → (let acc = accepted (anoncred1 g sha256 sort params) schemes ciphers iteration set bs in
          (ss : List Signed) × All
            (λ (s : Signed). set_verify g sha256 set s.serial_no s.sig s.msg ≡ ok tt)
            ss
          × (length ss ≡ length acc)
          × (map (λ (s : Signed). g.value s.serial_no) ss
              ≡ map (λ (b : SignedBallot). g.value b.serial_no) acc)
          × (verified (anoncred1 g sha256 sort params) schemes ciphers iteration set bs
              ≡ length acc))
  accepted-Signed set [] = ([], tt, refl, refl, refl)
  accepted-Signed set (b ∷ bs) =
      let sys = anoncred1 g sha256 sort params in
      let (ss, passed, n, serials, count) = accepted-Signed set bs in
      elim (Result-cases (verify_ballot sys schemes ciphers iteration set b)) [
        | inl (u, good) ↦
            let (msg, written, accepted_sig) = signed_message set b good in
            let s : Signed = record { serial_no = b.serial_no; sig = b.signature; msg = msg } in
            rw good (
              s ∷ ss,
              (accepted_sig, passed),
              omega (arith, n),
              ap (λ vs. g.value b.serial_no ∷ vs) serials,
              omega (arith, count),
            )
        | inr (inl (x, bad)) ↦ rw bad (ss, passed, n, serials, omega (arith, count))
        | inr (inr (inl bad)) ↦ rw bad (ss, passed, n, serials, omega (arith, count))
        | inr (inr (inr bad)) ↦ rw bad (ss, passed, n, serials, omega (arith, count))
      ]

  -- In the phase Cast, let `Progress` return p for an election over anoncred1.go, with parameters
  -- from `SetupCircuit`, a credential set that is not empty, and no more credentials posted than
  -- the tree has places. If the posted ballots that verify have serial numbers that are different
  -- field elements, p counts no more ballots than its total, or there is a collision of MiMC. That
  -- MiMC agrees with its circuit, Groth16 is sound, sort.Sort rearranges, Go ranges over each entry
  -- of a map once and equality of field elements is decidable is assumed.
  pub progress_turnout :
      HashesAgree g
      → Discrete g.Var
      → Sound g
      → Sorts sort
      → setup_circuit g params.depth ≡ ok params
      → ((cs : List Bytes) → Permᴰ cs (iteration cs))
      → (e : Election) (now later : Time) (known msgs : List Message) (set : AnonCred1Set g)
        (p : ElectionProgress)
      → phase now e.params ≡ cast
      → num_posted known ≤ 2 ^ params.depth
      → 0 < length set.creds
      → get_credential_set
          (anoncred1 g sha256 sort params)
          schemes
          ciphers
          iteration
          e
          later
          (ok known)
        ≡ ok set
      → progress
          (anoncred1 g sha256 sort params)
          schemes
          ciphers
          iteration
          e
          now
          later
          (ok known)
          (ok msgs)
        ≡ ok p
      → Differ (
          map
            (λ (b : SignedBallot). g.value b.serial_no)
            (accepted
              (anoncred1 g sha256 sort params)
              schemes
              ciphers
              iteration
              set
              (signed_ballots msgs)))
      → (p.count ≤ p.total) ⊎ Collision g
  progress_turnout agree same? sound sorting setup iterates e now later known msgs set p ph few
        some_creds made h differ =
      let sys = anoncred1 g sha256 sort params in
      let (counted, total) =
        progress-cast sys schemes ciphers iteration e now later (ok known) msgs set p ph made h in
      let (cs, fit, built) = set-Fit iterates e later known set few some_creds made in
      let (ss, passed, n, serials, count) = accepted-Signed set (signed_ballots msgs) in
      elim (serials-set_len g sha256 sort params agree same? sound sorting setup cs set ss fit built
        passed (subst Differ (sym serials) differ)) [
          | inl le ↦ inl (omega (arith, le, n, count, counted, total))
          | inr collision ↦ inr collision
        ]
