-- ===== src/Runs/Denials.antt =====
-- A decryption message that makes Progress panic, at a small election with a small puzzle.
use pebble_voting_app.Base.{
  ℕ, ◌≤◌, ◌≡◌, ◌≢◌, refl, arith, [], ◌∷◌, List, Bytes, Bool, true, ok, err, vdf_final,
}
use pebble_voting_app.Util.Slices.{concat}
use pebble_voting_app.Util.Buffer.{write, write_vector}
use pebble_voting_app.Vdf.{Vdf, VdfSolution}
use pebble_voting_app.Vdf.BigInt.{set_bytes, fill_bytes, to_be, mod_exp}
use pebble_voting_app.Vdf.Pietrzak.{
  PietrzakVdf, verify, verify_parsed, verify_loop, eval, opening, add, delta, read_uint64, read_int,
}
use pebble_voting_app.Vdf.Pietrzak.Accepted.{puzzle}
use pebble_voting_app.Pubkey
use pebble_voting_app.Structs.EncryptedBallot
use pebble_voting_app.Structs.EncryptedBallot.{EncryptedBallot}
use pebble_voting_app.Structs.SignedBallot
use pebble_voting_app.Structs.SignedBallot.{SignedBallot}
use pebble_voting_app.Voting.Params.{before, phase, number, tally}
use pebble_voting_app.Voting.Message.{Message, of_credential, of_ballot, of_decryption}
use pebble_voting_app.Voting.Election.{
  Election, ElectionProgress, insert, signed_ballots, decryptions, verify_credential, verify_ballot,
  collect, collect_credential, get_credential_set, progress,
}
use pebble_voting_app.Voting.Election.Denial.{denying, progress-denying}
use pebble_voting_app.Runs.{
  params, plain, keys, toy_ciphers, toy_vdf, at, election, credential, ballot,
}

abbrev same_order : List Bytes → List Bytes
same_order ps = ps

-- A stand-in for SHA-256, and one for the primality test.
abbrev hash : Bytes → Bytes
hash b = 3 ∷ []

abbrev prime : ℕ → Bool
prime n = true

abbrev settings : PietrzakVdf
settings = record { max_difficulty = 10000; difficulty_conversion = 100 }

abbrev pub puzzles : Vdf
puzzles = record toy_vdf { verify = verify hash prime settings }

abbrev locked : Election
locked = record election { vdf = puzzles }

-- Squared four times, 2 is 16 modulo 35.
abbrev pub sixteen : VdfSolution
sixteen = record { input = puzzle 4 35 2; output = 16 ∷ []; proof = [] }

pub sixteen-ok : puzzles.verify sixteen ≡ ok tt
unfolding verify read_uint64 read_int to_be verify_parsed set_bytes opening add fill_bytes
    verify_loop delta eval mod_exp
sixteen-ok = refl

-- A wrong output.
abbrev pub seventeen : VdfSolution
seventeen = record sixteen { output = 17 ∷ [] }

pub seventeen-refused : puzzles.verify seventeen ≡ err vdf_final
unfolding verify read_uint64 read_int to_be verify_parsed set_bytes opening add fill_bytes
    verify_loop delta eval mod_exp
seventeen-refused = refl

abbrev closed : SignedBallot
closed = record ballot { encrypted_ballot = record { vdf_input = puzzle 4 35 2; payload = [] } }

abbrev posted : List Message
posted =
    of_credential credential
    ∷ of_ballot closed
    ∷ of_decryption (denying toy_ciphers closed.encrypted_ballot)
    ∷ []

set_made :
    get_credential_set plain keys toy_ciphers same_order locked (at 25) (ok posted)
    ≡ ok ((5 ∷ []) ∷ [])
unfolding get_credential_set collect collect_credential phase before verify_credential insert
    Pubkey.verify concat
set_made = refl

closed_verifies : verify_ballot plain keys toy_ciphers same_order ((5 ∷ []) ∷ []) closed ≡ ok tt
unfolding verify_ballot SignedBallot.bytes EncryptedBallot.bytes write_vector write to_be
closed_verifies = refl

one_ballot : signed_ballots posted ≡ closed ∷ []
unfolding signed_ballots
one_ballot = refl

one_decryption : decryptions posted ≡ denying toy_ciphers closed.encrypted_ballot ∷ []
unfolding decryptions
one_decryption = refl

in_tally : number tally ≤ number (phase (at 25) params)
unfolding phase before
in_tally = omega arith

abbrev nobody : ElectionProgress
nobody = record { phase = phase (at 25) locked.params; count = 0; total = 0; tally = [] }

progress-denying_example :
    progress plain keys toy_ciphers same_order locked (at 25) (at 25) (ok posted) (ok posted)
    ≢ ok nobody
progress-denying_example =
    progress-denying plain keys toy_ciphers same_order prime settings hash locked (at 25) (at 25)
      (ok posted) posted ((5 ∷ []) ∷ []) [] [] closed [] [] sixteen nobody (λ s. refl) in_tally
      set_made one_ballot closed_verifies refl sixteen-ok one_decryption tt
