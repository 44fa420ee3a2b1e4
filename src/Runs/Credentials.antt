-- ===== src/Runs/Credentials.antt =====
-- Examples for anoncred1.go: a hash that sums bytes and proofs that repeat their public inputs.
use mathlib.Core.List.Permᴰ
use mathlib.Core.List.Memᴰ.{head, tail}
use pebble_voting_app.Base.{
  ℕ, ◌+◌, ◌*◌, ◌%◌, ◌≡◌, refl, [], ◌∷◌, ◌++◌, List, Bool, Bytes, Result, ok, err, foreign, arith,
  replicate, bytes_eq, bytes_eq_refl, if◌then◌else◌, ok_injective, sym,
}
use pebble_voting_app.Runs.{check}
use pebble_voting_app.Anoncred.Gnark.{PublicInputs, Gnark, HashesAgree}
use pebble_voting_app.Anoncred.AnonCred1.{AnonCred1, AnonCred1SecCred, setup_circuit, public}
use pebble_voting_app.Anoncred.AnonCred1.Completeness.{Complete, Sorts}
use pebble_voting_app.Anoncred.AnonCred1.Contract.{anoncred1, set_verify-make_credential_set}
use pebble_voting_app.Anoncred.AnonCred1.Parameters.{append_uint32, to_bytes, from_bytes}
use pebble_voting_app.Anoncred.AnonCred1.Parameters.RoundTrip.{Reads, from_bytes-to_bytes}

abbrev pub sum : Bytes → ℕ
sum [] = 0
sum (b ∷ bs) = b + sum bs

-- 32 bytes, of which only the first depends on the slices.
abbrev pub digest : Bytes → Bytes → Bytes
digest a b = (sum a + 3 * sum b) % 256 ∷ replicate 31 0

abbrev pub shown : PublicInputs Bytes → Bytes
shown c = 1 ∷ (c.message_hash ++ (c.serial_no ++ (c.signature ++ c.merkle_root)))

abbrev pub number : Bytes → Result ℕ
number [] = err foreign
number (n ∷ b) = ok n

abbrev pub toy : Gnark
toy = record {
  Var = Bytes;
  bit_zero = 0 ∷ [];
  bit_one = 1 ∷ [];
  value = λ b. b;
  select = λ bit a b. if bytes_eq bit (1 ∷ []) then a else b;
  mimc_vars = digest;
  mimc = λ a b. ok (digest a b);
  mimc_rand = λ b. ok (digest b b);
  ConstraintSystem = ℕ;
  ProvingKey = ℕ;
  VerifyingKey = ℕ;
  Proof = Bytes;
  compile = λ depth. ok depth;
  generate = λ cs. ok (cs, cs);
  prove = λ cs pk c. ok (shown c.inputs);
  verify = λ proof vk depth inputs. check (bytes_eq proof (shown inputs));
  write_proof = λ proof. ok proof;
  read_proof = λ b. ok b;
  write_constraints = λ cs. ok (cs ∷ []);
  read_constraints = number;
  write_proving_key = λ pk. ok (pk ∷ 7 ∷ []);
  read_proving_key = number;
  write_verifying_key = λ vk. ok (vk ∷ 8 ∷ 9 ∷ []);
  read_verifying_key = number;
}

abbrev agree : HashesAgree toy
agree = record {
  node = digest;
  mimc-ok = λ a b ea eb. refl;
  length-node = λ a b. refl;
  mimc_vars-value = λ a b ea eb. refl;
  select-one = λ a b. refl;
  select-zero = λ a b. refl;
}

complete : Complete toy
complete = record {
  proves = λ depth cs pk vk c compiled made ld ls holds.
      (shown c.inputs, shown c.inputs, refl, refl, omega arith, refl, rw bytes_eq_refl refl);
}

abbrev pub as_given : ((a b : Bytes) → Result Bool) → List Bytes → Result (List Bytes)
as_given test xs = ok xs

pub given : Sorts as_given
given = record { sorts = λ test P xs total h. (xs, refl, Permᴰ.refl xs) }

abbrev pub hash : Bytes → Bytes
hash m = digest m m

-- The holders' secret credentials, and parameters for four leaves.
abbrev pub holder : ℕ → AnonCred1SecCred
holder n = record { serial_no = n ∷ replicate 31 1; secret = n ∷ replicate 31 2 }

abbrev pub leaf : ℕ → Bytes
leaf n = digest (holder n).serial_no (holder n).secret

abbrev two_levels : AnonCred1 toy
two_levels = record { depth = 2; cs = 2; pk = 2; vk = 2 }

abbrev leaves : List Bytes
leaves = leaf 3 ∷ leaf 3 ∷ leaf 4 ∷ leaf 5 ∷ []

set_verify-make_credential_set_example :
    (let sys = anoncred1 toy hash as_given two_levels in
      (set : sys.CredentialSet) × (sys.make_credential_set leaves ≡ ok set)
      × (sig : Bytes) × (sys.set_sign set (holder 5) (9 ∷ []) ≡ ok sig)
      × (sys.set_verify set (sys.serial_no (holder 5)) sig (9 ∷ []) ≡ ok tt))
unfolding setup_circuit public
set_verify-make_credential_set_example =
    set_verify-make_credential_set toy hash as_given two_levels agree complete given (λ m. refl)
      refl leaves (holder 5) (leaf 5) (9 ∷ [])
      (omega arith, (refl, (refl, (refl, (refl, tt)))), omega arith) (refl, refl) refl
      (tail (tail (tail (head refl))))

reads : Reads toy
reads = record {
  constraints = λ cs b e. rw (sym (ok_injective e)) refl;
  proving_key = λ pk b e. rw (sym (ok_injective e)) refl;
  verifying_key = λ vk b e. rw (sym (ok_injective e)) refl;
}

from_bytes-to_bytes_example :
    from_bytes toy
      (2 ∷ 0 ∷ 0 ∷ 0 ∷ 1 ∷ 0 ∷ 0 ∷ 0 ∷ 2 ∷ 0 ∷ 0 ∷ 0 ∷ 3 ∷ 0 ∷ 0 ∷ 0 ∷ 2 ∷ 2 ∷ 7 ∷ 2 ∷ 8 ∷ 9 ∷ [])
    ≡ ok two_levels
unfolding to_bytes append_uint32
from_bytes-to_bytes_example =
    from_bytes-to_bytes toy reads two_levels _ (omega arith) refl (omega arith)
