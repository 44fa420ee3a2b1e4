-- ===== src/Util/BytesSet/Filling.antt =====
-- bytes_set.go: the loops of `Put` and `Contains` end at a vacant bucket.
use Prim.Native.Nat.{bit_and}
use native.Mathlib.Nat.{mod-lt}
use pebble_voting_app.Base.{
  ℕ, zero, suc, ◌+◌, ◌-◌, ◌^◌, ◌<◌, ◌≡◌, ◌∙◌, refl, List, Bool, true, false, ◌||◌, inl, inr, Bytes,
  Result, ok, some, length, get_elem?, set, bytes_eq, arith, Bool-cases, not, ◌==◌,
}
use pebble_voting_app.Base.Power.{pow_two_pos}
use pebble_voting_app.Util.BytesSet.{Bucket, BytesSet, hash_bytes, probe, place, put_here}
use pebble_voting_app.Util.BytesSet.Membership.{found}
use pebble_voting_app.Util.BytesSet.Vacancies.{
  num_filled, Fills, set-Fills, bucket_at, Vacancy, vacancy, Ahead, Ahead-start, next-mod, next-lt,
  Ahead-next, Ahead-filled,
}

-- What `Put` leaves behind.
abbrev pub Grown : (s : BytesSet) → (p : Bytes) → Result BytesSet → Type 0
Grown s p r = (s' : BytesSet) × (r ≡ ok s') × (s'.len ≡ s.len + 1) × Fills s.v s'.v p

place-vacant :
    (fuel i : ℕ) (s : BytesSet) (p : Bytes) (b : Bucket)
    → get_elem? s.v i ≡ some b
    → b.filled ≡ false
    → Grown s p (place (suc fuel) s p i)
unfolding place
place-vacant fuel i s p b there vacant = (
  record { v = set s.v i (record { value = p; filled = true }); len = s.len + 1 },
  rw (place, there, vacant) refl,
  refl,
  set-Fills s.v i b p there vacant,
)

place-taken :
    (fuel i : ℕ) (s : BytesSet) (p : Bytes) (b : Bucket)
    → get_elem? s.v i ≡ some b
    → b.filled ≡ true
    → place (suc fuel) s p i ≡ place fuel s p (bit_and (i + 1) (length s.v - 1))
unfolding place
place-taken fuel i s p b there taken = rw (place, there, taken) refl

-- `Put` into a table with a vacant bucket ahead.
place-Fills :
    (fuel i j d : ℕ) (s : BytesSet) (p : Bytes) (k : ℕ)
    → length s.v ≡ 2 ^ k
    → i < length s.v
    → Vacancy s.v j
    → Ahead (length s.v) i j d
    → d < fuel
    → Grown s p (place fuel s p i)
place-Fills zero i j d s p k sized li free a lt = absurd (omega arith)
place-Fills (suc fuel) i j zero s p k sized li free a lt =
    let (b, there) = bucket_at s.v i li in
    elim (Bool-cases b.filled) [
      | inr vacant ↦ place-vacant fuel i s p b there vacant
      | inl taken ↦ absurd (Ahead-filled s.v k sized i j b li there taken free a)
    ]
place-Fills (suc fuel) i j (suc d) s p k sized li free a lt =
    let (b, there) = bucket_at s.v i li in
    elim (Bool-cases b.filled) [
      | inr vacant ↦ place-vacant fuel i s p b there vacant
      | inl taken ↦
          let (s', e, n, fills) =
            place-Fills fuel (bit_and (i + 1) (length s.v - 1)) j d s p k sized
              (next-lt s.v k sized i) free (Ahead-next s.v k sized i j d li free.0 a)
              (omega (arith, lt)) in
          (s', place-taken fuel i s p b there taken ∙ e, n, fills)
    ]

-- `Put` where no resize is due.
pub put_here-Fills :
    (s : BytesSet) (p : Bytes) (k : ℕ)
    → length s.v ≡ 2 ^ k
    → num_filled s.v < length s.v
    → Grown s p (put_here s p)
unfolding put_here
put_here-Fills s p k sized room =
    let i = bit_and (hash_bytes p) (length s.v - 1) in
    let li : i < length s.v =
      rw (next-mod s.v k sized (hash_bytes p), sized) (mod-lt (hash_bytes p) (pow_two_pos k)) in
    let (j, free) = vacancy s.v room in
    let (d, lt, ahead) = Ahead-start (length s.v) i j li free.0 in
    place-Fills (suc (length s.v)) i j d s p k sized li free ahead (omega (arith, lt))

-- The probe of `Contains` in a table with a vacant bucket ahead.
probe-returned :
    (fuel i j d : ℕ) (v : List Bucket) (p : Bytes) (k : ℕ)
    → length v ≡ 2 ^ k
    → i < length v
    → Vacancy v j
    → Ahead (length v) i j d
    → d < fuel
    → (b : Bool) × (probe fuel v p i ≡ ok b)
unfolding probe
probe-returned zero i j d v p k sized li free a lt = absurd (omega arith)
probe-returned (suc fuel) i j zero v p k sized li free a lt =
    let (b, there) = bucket_at v i li in
    elim (Bool-cases b.filled) [
      | inr vacant ↦ (false, rw (probe, there, vacant) refl)
      | inl taken ↦ absurd (Ahead-filled v k sized i j b li there taken free a)
    ]
probe-returned (suc fuel) i j (suc d) v p k sized li free a lt =
    let (b, there) = bucket_at v i li in
    let (found, e) =
      probe-returned fuel (bit_and (i + 1) (length v - 1)) j d v p k sized (next-lt v k sized i)
        free (Ahead-next v k sized i j d li free.0 a) (omega (arith, lt)) in
    elim (Bool-cases (not b.filled || not (hash_bytes b.value == hash_bytes p))) [
      | inl stop ↦ (false, rw (probe, there, stop) refl)
      | inr on ↦ elim (Bool-cases (bytes_eq p b.value)) [
        | inl same ↦ (true, rw (probe, there, on, same) refl)
        | inr other ↦ (found, rw (probe, there, on, other) e)
      ]
    ]

pub probe_home-returned :
    (v : List Bucket) (p : Bytes) (k : ℕ)
    → length v ≡ 2 ^ k
    → num_filled v < length v
    → (b : Bool) × (probe (suc (length v)) v p (bit_and (hash_bytes p) (length v - 1)) ≡ ok b)
probe_home-returned v p k sized room =
    let i = bit_and (hash_bytes p) (length v - 1) in
    let li : i < length v =
      rw (next-mod v k sized (hash_bytes p), sized) (mod-lt (hash_bytes p) (pow_two_pos k)) in
    let (j, free) = vacancy v room in
    let (d, lt, ahead) = Ahead-start (length v) i j li free.0 in
    probe-returned (suc (length v)) i j d v p k sized li free ahead (omega (arith, lt))
