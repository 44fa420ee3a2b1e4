-- ===== src/Base/Exec.antt =====
-- Methods that change a state: the state comes back beside the outcome, also beside an error.
use mathlib.Core.Path.{◌≡◌, refl, ap, ◌∙◌}
use native.Mathlib.Omega.{arith}
use pebble_voting_app.Base.Outcome.{Result, ok, err, panic, stuck}

abbrev pub Exec {ℓ} : Type 0 → Type ℓ → Type ℓ
Exec S A = S → Result A × S

abbrev pub pure {ℓ} : {S : Type 0} {A : Type ℓ} → A → Exec S A
pure a s = (ok a, s)

-- A result that leaves the state alone: an error, or what another method returns.
abbrev pub lift {ℓ} : {S : Type 0} {A : Type ℓ} → Result A → Exec S A
lift r s = (r, s)

module _ {ℓ} {S : Type 0} {A B : Type ℓ} where
  abbrev pub continue : Result A × S → (A → Exec S B) → Result B × S
  continue (ok a, s) f = f a s
  continue (err e, s) f = (err e, s)
  continue (panic, s) f = (panic, s)
  continue (stuck, s) f = (stuck, s)

  infixl 5 ◌>>=◌
  abbrev pub ◌>>=◌ : Exec S A → (A → Exec S B) → Exec S B
  ◌>>=◌ m f s = continue (m s) f

  -- Inversion of a bind that succeeds.
  pub continue-eq-ok :
      (r : Result A × S) (f : A → Exec S B) {b : B}
      → (continue r f).0 ≡ ok b
      → (a : A) × (s : S) × (r ≡ (ok a, s)) × (continue r f ≡ f a s)
  continue-eq-ok (ok a, s) f h = (a, s, refl, refl)
  continue-eq-ok (err e, s) f h = absurd (ground arith)
  continue-eq-ok (panic, s) f h = absurd (ground arith)
  continue-eq-ok (stuck, s) f h = absurd (ground arith)

  -- What holds of the state after a step, and after the rest where the step returned a value, holds
  -- after both.
  pub continue-holds :
      (P : S → Type 0) (r : Result A × S) (f : A → Exec S B)
      → P r.1
      → ((a : A) → r.0 ≡ ok a → P (f a r.1).1)
      → P (continue r f).1
  continue-holds P (ok a, s) f h k = k a refl
  continue-holds P (err e, s) f h k = h
  continue-holds P (panic, s) f h k = h
  continue-holds P (stuck, s) f h k = h

  -- What is to be shown of a block that succeeds is shown of its rest after the first step.
  pub continue-ok_holds :
      (P : Result B × S → Type 0) (r : Result A × S) (f : A → Exec S B) {b : B}
      → (continue r f).0 ≡ ok b
      → ((a : A) (s : S) → r ≡ (ok a, s) → (f a s).0 ≡ ok b → P (f a s))
      → P (continue r f)
  continue-ok_holds P (ok a, s) f h k = k a s refl h
  continue-ok_holds P (err e, s) f h k = absurd (ground arith)
  continue-ok_holds P (panic, s) f h k = absurd (ground arith)
  continue-ok_holds P (stuck, s) f h k = absurd (ground arith)

  -- One step that is known to succeed; the rest of the block follows.
  pub run_step :
      {r : Result A × S} {a : A} {s : S} {b : Result B} (f : A → Exec S B)
      → r ≡ (ok a, s)
      → (f a s).0 ≡ b
      → (continue r f).0 ≡ b
  run_step f e k = ap (λ q. (continue q f).0) e ∙ k

module _ {S : Type 0} {B : Type 0} where
  infixl 5 ◌>>◌
  abbrev pub ◌>>◌ : Exec S (Unit {0}) → Exec S B → Exec S B
  m >> k = m >>= λ _. k
