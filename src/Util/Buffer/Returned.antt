-- ===== src/Util/Buffer/Returned.antt =====
-- buffer_reader_writer.go: every read returns, with a value or an error, and takes nothing back.
use pebble_voting_app.Base.{
  ℕ, ◌≤◌, ◌≡◌, ◌⊎◌, refl, true, false, Bool, [], ◌∷◌, Bytes, Error, Result, ok, err, panic, stuck,
  length, length-drop, arith, inl, inr, ◌>>=◌, if◌then◌else◌,
}
use pebble_voting_app.Util.Buffer.{
  continue, read_byte, read_bytes, read32, read_vector, read_vector_length, read_vector_body,
}

-- The call returned: a value or an error.
abbrev pub returned {ℓ} : {A : Type ℓ} → Result A → Bool
returned (ok a) = true
returned (err e) = true
returned panic = false
returned stuck = false

pub returned-cases {ℓ} :
    {A : Type ℓ} (r : Result A)
    → returned r ≡ true
    → ((a : A) × (r ≡ ok a)) ⊎ ((e : Error) × (r ≡ err e))
returned-cases (ok a) h = inl (a, refl)
returned-cases (err e) h = inr (e, refl)
returned-cases panic h = absurd (ground arith)
returned-cases stuck h = absurd (ground arith)

pub >>=-returned :
    {A B : Type 0} (r : Result A) (f : A → Result B)
    → returned r ≡ true
    → ((a : A) → returned (f a) ≡ true)
    → returned (r >>= f) ≡ true
>>=-returned (ok a) f h k = k a
>>=-returned (err e) f h k = refl
>>=-returned panic f h k = h
>>=-returned stuck f h k = h

pub if-returned :
    {A : Type 0} (b : Bool) (x y : Result A)
    → returned x ≡ true
    → returned y ≡ true
    → returned (if b then x else y) ≡ true
if-returned true x y hx hy = hx
if-returned false x y hx hy = hy

pub continue-returned :
    {S A B : Type 0} (r : Result A × S) (f : A → S → Result B × S)
    → returned r.0 ≡ true
    → ((a : A) (s : S) → returned (f a s).0 ≡ true)
    → returned (continue r f).0 ≡ true
continue-returned (ok a, s) f h k = k a s
continue-returned (err e, s) f h k = refl
continue-returned (panic, s) f h k = h
continue-returned (stuck, s) f h k = h

-- The same, where no more than n bytes are left.
pub continue-returned_within :
    {A B : Type 0} (n : ℕ) (r : Result A × Bytes) (f : A → Bytes → Result B × Bytes)
    → returned r.0 ≡ true
    → length r.1 ≤ n
    → ((a : A) (s : Bytes) → length s ≤ n → returned (f a s).0 ≡ true)
    → returned (continue r f).0 ≡ true
continue-returned_within n (ok a, s) f h le k = k a s le
continue-returned_within n (err e, s) f h le k = refl
continue-returned_within n (panic, s) f h le k = h
continue-returned_within n (stuck, s) f h le k = h

pub read_vector-returned : (s : Bytes) → returned (read_vector s).0 ≡ true
unfolding read_vector read_byte read_vector_length read_vector_body read_bytes
read_vector-returned s = ground arith

pub read32-returned : (s : Bytes) → returned (read32 s).0 ≡ true
unfolding read32
read32-returned s = ground arith

read_vector_body-shorter : (l : ℕ) (s : Bytes) → length (read_vector_body l s).1 ≤ length s
unfolding read_vector_body read_bytes
read_vector_body-shorter l s = ground (arith, length-drop l s)

read_vector_length-shorter : (b : ℕ) (s : Bytes) → length (read_vector_length b s).1 ≤ length s
unfolding read_vector_length read_byte
read_vector_length-shorter b [] = ground arith
read_vector_length-shorter b (c ∷ s) = ground arith

continue-shorter :
    {A B : Type 0} (n : ℕ) (r : Result A × Bytes) (f : A → Bytes → Result B × Bytes)
    → length r.1 ≤ n
    → ((a : A) (s : Bytes) → length (f a s).1 ≤ length s)
    → length (continue r f).1 ≤ n
continue-shorter n (ok a, s) f h k = omega (arith, h, k a s)
continue-shorter n (err e, s) f h k = h
continue-shorter n (panic, s) f h k = h
continue-shorter n (stuck, s) f h k = h

pub read_vector-shorter : (s : Bytes) → length (read_vector s).1 ≤ length s
unfolding read_vector read_byte
read_vector-shorter [] = omega arith
read_vector-shorter (b ∷ s) =
    continue-shorter (length (b ∷ s)) (read_vector_length b s) read_vector_body
      (omega (arith, read_vector_length-shorter b s)) read_vector_body-shorter
