-- ===== src/Util/BytesSet/Resizing.antt =====
-- bytes_set.go: the invariant of a table, and what `resize` keeps of it.
use pebble_voting_app.Base.{
  ℕ, zero, suc, ◌+◌, ◌*◌, ◌^◌, ◌≤◌, ◌<◌, ◌≡◌, ◌∙◌, sym, refl, [], ◌∷◌, List, true, false, ◌||◌, ◌⊎◌,
  inl, inr, Bytes, ok, length, replicate, leb, ◌==◌, arith, Bool-cases,
}
use pebble_voting_app.Base.Power.{pow_two_pos}
use pebble_voting_app.Util.BytesSet.{
  Bucket, BytesSet, empty, vacant, put_here, put_again, rehash, resize,
}
use pebble_voting_app.Util.BytesSet.Membership.{holds}
use pebble_voting_app.Util.BytesSet.Vacancies.{num_filled}
use pebble_voting_app.Util.BytesSet.Filling.{put_here-Fills}

-- `len` counts the filled buckets, at most half of the table, whose length is 0 or a power of 2.
pub record IsValid (s : BytesSet) : Type 0 where
  pub counted : num_filled s.v ≡ s.len
  pub sized : (length s.v ≡ 0) ⊎ ((k : ℕ) × (length s.v ≡ 2 ^ suc k))
  pub half : s.len * 2 ≤ length s.v

pub empty-IsValid : IsValid empty
empty-IsValid = record { counted = refl; sized = inl refl; half = omega arith }

-- A table of a known size with the values `old` and those of `s`.
record Joined (s s' : BytesSet) (old : List Bucket) : Type 0 where
  counted : num_filled s'.v ≡ s'.len
  size : length s'.v ≡ length s.v
  len : s'.len ≡ s.len + num_filled old
  members : (q : Bytes) → holds s'.v q ≡ (holds old q || holds s.v q)

rehash-free :
    (b : Bucket) (old : List Bucket) (s : BytesSet)
    → b.filled ≡ false
    → rehash (b ∷ old) s ≡ rehash old s
unfolding rehash
rehash-free b old s free = rw free refl

rehash-taken :
    (b : Bucket) (old : List Bucket) (s s1 : BytesSet)
    → b.filled ≡ true
    → leb (length s.v) (s.len * 2) ≡ false
    → put_here s b.value ≡ ok s1
    → rehash (b ∷ old) s ≡ rehash old s1
unfolding rehash put_again
rehash-taken b old s s1 taken room put1 = rw (taken, room, put1) refl

rehash-Joined :
    (old : List Bucket) (s : BytesSet) (k : ℕ)
    → length s.v ≡ 2 ^ k
    → num_filled s.v ≡ s.len
    → (s.len + num_filled old) * 2 < length s.v
    → (s' : BytesSet) × (rehash old s ≡ ok s') × Joined s s' old
rehash-Joined [] s k sized counted room = (
  s,
  unfold rehash in refl,
  record { counted = counted; size = refl; len = omega arith; members = λ q. refl },
)
rehash-Joined (b ∷ old) s k sized counted room = elim (Bool-cases b.filled) [
  | inr free ↦
      let (s', e, r) = rehash-Joined old s k sized counted (ground (arith, free)) in
      (
        s',
        rehash-free b old s free ∙ e,
        record {
          counted = r.counted;
          size = r.size;
          len = ground (arith, r.len, free);
          members = λ q. ground (arith, r.members q, free);
        },
      )
  | inl taken ↦
      let roomy : (s.len + 1 + num_filled old) * 2 < length s.v = ground (arith, taken) in
      let (s1, put1, n1, f1) = put_here-Fills s b.value k sized (omega (arith, counted, roomy)) in
      let (s', e, r) =
        rehash-Joined old s1 k (f1.size ∙ sized) (omega (arith, f1.filled, counted, n1))
          (omega (arith, roomy, n1, f1.size)) in
      let open_room : leb (length s.v) (s.len * 2) ≡ false = ground (arith, roomy) in
      (
        s',
        rehash-taken b old s s1 taken open_room put1 ∙ e,
        record {
          counted = r.counted;
          size = r.size ∙ f1.size;
          len = ground (arith, r.len, n1, taken);
          members = λ q. ground (arith, r.members q, f1.members q, taken);
        },
      )
]

num_filled-vacant : (n : ℕ) → num_filled (replicate n vacant) ≡ 0
num_filled-vacant zero = refl
num_filled-vacant (suc n) = omega (arith, num_filled-vacant n)

holds-vacant : (n : ℕ) (q : Bytes) → holds (replicate n vacant) q ≡ false
holds-vacant zero q = refl
holds-vacant (suc n) q = holds-vacant n q

length-replicate : (n : ℕ) → length (replicate n vacant) ≡ n
length-replicate zero = refl
length-replicate (suc n) = omega (arith, length-replicate n)

-- A table with room for one more value and the same values.
pub record Roomy (s s' : BytesSet) : Type 0 where
  pub k : ℕ
  pub sized : length s'.v ≡ 2 ^ suc k
  pub counted : num_filled s'.v ≡ s'.len
  pub len : s'.len ≡ s.len
  pub room : s'.len * 2 < length s'.v
  pub members : (q : Bytes) → holds s'.v q ≡ holds s.v q

holds-nil : (v : List Bucket) (q : Bytes) → length v ≡ 0 → holds v q ≡ false
holds-nil [] q e = refl
holds-nil (b ∷ v) q e = absurd (omega (arith, e))

pub resize-Roomy : (s : BytesSet) → IsValid s → (s' : BytesSet) × (resize s ≡ ok s') × Roomy s s'
unfolding resize
resize-Roomy s h = elim h.sized [
  | inl none_yet ↦
      let first : (length s.v == 0) ≡ true = ground arith in
      (
        record { v = replicate 16 vacant; len = 0 },
        rw first refl,
        record {
          k = 3;
          sized = refl;
          counted = refl;
          len = omega (arith, h.half, none_yet);
          room = omega arith;
          members = λ q. sym (holds-nil s.v q none_yet);
        },
      )
  | inr (k, sized) ↦
      let later : (length s.v == 0) ≡ false = ground (arith, pow_two_pos (suc k), sized) in
      let n = length s.v * 2 in
      let fresh : BytesSet = record { v = replicate n vacant; len = 0 } in
      let double : length fresh.v ≡ 2 ^ suc (suc k) = length-replicate n ∙ omega (arith, sized) in
      let (s', e, r) =
        rehash-Joined s.v fresh (suc (suc k)) double (num_filled-vacant n)
          (omega (arith, h.counted, h.half, length-replicate n, pow_two_pos (suc k), sized)) in
      (
        s',
        rw later e,
        record {
          k = suc k;
          sized = r.size ∙ double;
          counted = r.counted;
          len = omega (arith, r.len, h.counted);
          room = omega (
            arith,
            r.len,
            h.counted,
            h.half,
            r.size,
            length-replicate n,
            pow_two_pos (suc k),
            sized,
          );
          members = λ q. ground (arith, r.members q, holds-vacant n q);
        },
      )
]
