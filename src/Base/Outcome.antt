-- ===== src/Base/Outcome.antt =====
-- Go's error results. A call returns a value, returns an error, or panics. `stuck` is no outcome
-- of the code: a loop of the model has run out of fuel.
use mathlib.Core.Path.{◌≡◌, refl}
use mathlib.Core.Logic.{◌⊎◌, inl, inr}
use native.Mathlib.Omega.{arith}

-- The error values of the packages; `foreign` is an error of code outside the repository.
pub data Error : Type 0 where
  short_buffer non_canonical_vector : Error
  duplicate_key unknown_magic unknown_version : Error
  invalid_message_type invalid_message_size : Error
  mismatched_vdf_solution payload_too_short : Error
  wrong_phase decryption_not_found unknown_voting_method : Error
  unknown_invitation_version : Error
  invalid_char nonzero_padding invalid_length invalid_checksum : Error
  invalid_key_length unknown_key_type invalid_signature : Error
  vdf_parse vdf_odd_difficulty vdf_output_range vdf_factor vdf_trapdoor vdf_proof vdf_final : Error
  incompatible_credential credential_size credential_missing signature_size : Error
  instance_missing election_not_found election_exists : Error
  foreign : Error

pub data Result {ℓ} (A : Type ℓ) : Type ℓ where
  panic stuck : Result A
  err : Error → Result A
  ok : A → Result A

infixl 5 ◌>>=◌
abbrev pub ◌>>=◌ {ℓ κ} : {A : Type ℓ} {B : Type κ} → Result A → (A → Result B) → Result B
panic >>= next = panic
stuck >>= next = stuck
err why >>= next = err why
ok value >>= next = next value

-- A bind returns only if both of its parts do.
pub >>=-eq-ok {ℓ κ} :
    {A : Type ℓ} {B : Type κ} (r : Result A) (next : A → Result B) {out : B}
    → (r >>= next) ≡ ok out
    → (value : A) × (r ≡ ok value) × (next value ≡ ok out)
>>=-eq-ok panic next e = absurd (ground arith)
>>=-eq-ok stuck next e = absurd (ground arith)
>>=-eq-ok (err why) next e = absurd (ground arith)
>>=-eq-ok (ok value) next e = (value, refl, e)

-- To split on a computed result and keep the equation.
pub Result-cases {ℓ} :
    {A : Type ℓ} (r : Result A)
    → ((a : A) × (r ≡ ok a)) ⊎ (((e : Error) × (r ≡ err e)) ⊎ ((r ≡ panic) ⊎ (r ≡ stuck)))
Result-cases (ok a) = inl (a, refl)
Result-cases (err e) = inr (inl (e, refl))
Result-cases panic = inr (inr (inl refl))
Result-cases stuck = inr (inr (inr refl))

pub ok_injective {ℓ} : {A : Type ℓ} {a b : A} → ok a ≡ ok b → a ≡ b
ok_injective e = cc
