-- ===== src/Runs/Casting.antt =====
-- The theorems on what a voter does, at a small election.
use pebble_voting_app.Base.{
  ap, All, true, subst, sym, ok_injective, Result, ◌≡◌, refl, [], ◌∷◌, ◌++◌, List, Bytes, ok,
  replicate,
}
use pebble_voting_app.Structs.EncryptedBallot.Sealing.{create_cipher}
use pebble_voting_app.Voting.Election.{Election, decrypt_ballot, decryptions, get_credential_set}
use pebble_voting_app.Base.Exec.{pure}
use pebble_voting_app.Vdf.{VdfSolution}
use pebble_voting_app.Structs.EncryptedBallot.Sealing.{encrypt}
use pebble_voting_app.Structs.EncryptedBallot
use pebble_voting_app.Structs.SignedBallot.{SignedBallot}
use pebble_voting_app.Methods.Choice
use pebble_voting_app.Methods.Approval
use pebble_voting_app.Util.Buffer.{write_vector, write}
use pebble_voting_app.Util.Buffer.Returned.{returned}
use pebble_voting_app.Voting.Params.{phase, before}
use pebble_voting_app.Voting.Signing.{sign_ballot}
use pebble_voting_app.Voting.Message.{new_mock, post, of_ballot, of_decryption}
use pebble_voting_app.Voting.Casting.{
  SecretsManager, vote, reveal_ballot_decryption, post_ballot_decryption,
}
use pebble_voting_app.Voting.Casting.Voted.{Remembers}
use pebble_voting_app.Voting.Casting.Revealed.{IsDecided}
use pebble_voting_app.Vdf.BigInt.{to_be}
use pebble_voting_app.Structs.DecryptionMessage.{DecryptionMessage}
use pebble_voting_app.Voting.Casting.Opened.{voted, revealed, decrypt_ballot-vote}
use pebble_voting_app.Voting.Casting.Posting.{mock_channel, MockWorld, Posts, IsBallot, vote-post}
use pebble_voting_app.Runs.Denials.{puzzles, sixteen, sixteen-ok, seventeen, seventeen-refused}
use pebble_voting_app.Runs.{plain, keys, toy_ciphers, at, election, params}

abbrev same_order : List Bytes → List Bytes
same_order ps = ps

abbrev solved : VdfSolution
solved = record { input = 3 ∷ []; output = 3 ∷ []; proof = [] }

-- The secrets of one voter: the state is the stored solution.
abbrev voter : SecretsManager plain
voter = record {
  State = VdfSolution;
  get_private_key = pure (record { public = 1 ∷ 9 ∷ []; secret = [] });
  get_secret_credential = pure (5 ∷ []);
  get_vdf_solution = λ s. (ok s, s);
  set_vdf_solution = λ sol s. (ok tt, sol);
  set_ballot = λ b s. (ok tt, s);
}

abbrev begun : MockWorld plain keys toy_ciphers same_order voter
begun = record { posted = new_mock (1 ∷ []) params; kept = solved }

vote-post_example : Posts plain keys toy_ciphers same_order voter IsBallot begun.posted (
    vote plain keys toy_ciphers same_order mock_channel voter election
      (at 15)
      (at 15)
      3
      (ok (replicate 12 7))
      (1 ∷ [])
      begun)
vote-post_example =
    vote-post plain keys toy_ciphers same_order voter election (at 15) (at 15) 3
      (ok (replicate 12 7)) (1 ∷ []) begun

voter-Remembers : Remembers voter
voter-Remembers = record {
  stored = λ s. s;
  set = λ sol s e. refl;
  credential = λ s. refl;
  ballot = λ b s. refl;
  get = λ s sol e. sym (ok_injective e);
}

-- The puzzles of pietrzak.go, of which one is drawn.
abbrev timed : Election
timed = record election { vdf = record puzzles { create = λ seconds. ok sixteen } }

abbrev cast_once : Result (Unit {0}) × MockWorld plain keys toy_ciphers same_order voter
cast_once =
    voted plain keys toy_ciphers same_order voter voter-Remembers timed (at 15) (at 15) 3
      (replicate 12 7) (1 ∷ []) begun

cast_once-ok : cast_once.0 ≡ ok tt
unfolding vote phase before get_credential_set Choice.vote Approval.vote encrypt create_cipher
    sign_ballot EncryptedBallot.bytes write_vector write to_be
cast_once-ok = refl

-- Someone posts a wrong solution of the voter's puzzle before the reveal.
abbrev wrong : DecryptionMessage
wrong = record { input_hash = sixteen.input; output = seventeen.output; proof = [] }

abbrev tallying : MockWorld plain keys toy_ciphers same_order voter
tallying = record cast_once.1 { posted = post cast_once.1.posted (of_decryption wrong) }

abbrev told : Result (Unit {0}) × MockWorld plain keys toy_ciphers same_order voter
told = revealed plain keys toy_ciphers same_order voter voter-Remembers timed (at 25) tallying

told-ok : told.0 ≡ ok tt
unfolding vote phase before get_credential_set Choice.vote Approval.vote encrypt create_cipher
    sign_ballot EncryptedBallot.bytes write_vector write to_be reveal_ballot_decryption
    post_ballot_decryption
told-ok = refl

wrong-IsDecided :
    (signed : SignedBallot)
    → All
        (IsDecided toy_ciphers timed.vdf signed.encrypted_ballot)
        (decryptions tallying.posted.messages)
unfolding vote phase before get_credential_set Choice.vote Approval.vote encrypt create_cipher
    sign_ballot EncryptedBallot.bytes write_vector write to_be decryptions
wrong-IsDecided signed = (
  λ same.
      subst (λ i. returned (puzzles.verify (record seventeen { input = i })) ≡ true) same
        (ap (returned {A = Unit {0}}) seventeen-refused),
  tt,
)

decrypt_ballot-vote_example :
    (signed : SignedBallot) × (b : Bytes) × (cast_once.1.posted
      ≡ post begun.posted (of_ballot signed))
    × (Choice.vote timed.method (1 ∷ []) ≡ ok b)
    × (decrypt_ballot toy_ciphers timed.vdf signed.encrypted_ballot
          (decryptions (told.1.posted.messages ++ []))
        ≡ ok b)
decrypt_ballot-vote_example =
    decrypt_ballot-vote plain keys toy_ciphers same_order voter voter-Remembers timed (at 15)
      (at 15) (at 25) 3 (replicate 12 7) (1 ∷ []) begun tallying [] (λ c n m. refl) refl
      (λ sol made. subst (λ s. puzzles.verify s ≡ ok tt) (ok_injective made) sixteen-ok)
      cast_once-ok refl told-ok (λ signed there. wrong-IsDecided signed)
