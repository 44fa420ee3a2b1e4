-- ===== src/Util/BytesSet/Sets.antt =====
-- bytes_set.go: `Put` and `Contains` on a table that keeps it.
use pebble_voting_app.Base.{
  suc, ◌+◌, ◌*◌, ◌≡◌, ◌∙◌, ap, refl, [], ◌∷◌, List, Bool, true, false, ◌||◌, ◌⊎◌, inl, inr, Bytes,
  Result, ok, length, bytes_eq, leb, ◌==◌, if◌then◌else◌, arith, Bool-cases, ◌>>=◌,
}
use pebble_voting_app.Base.Power.{pow_two_pos}
use pebble_voting_app.Util.BytesSet.{BytesSet, empty, contains, resize, put}
use pebble_voting_app.Util.BytesSet.Membership.{holds, contains_sound}
use pebble_voting_app.Util.BytesSet.Filling.{put_here-Fills, probe_home-returned}
use pebble_voting_app.Util.BytesSet.Resizing.{IsValid, empty-IsValid, Roomy, resize-Roomy}

-- What `Put` does before its loop.
making_room :
    (s : BytesSet)
    → IsValid s
    → (s' : BytesSet) × ((if leb (length s.v) (s.len * 2) then resize s else ok s) ≡ ok s')
      × Roomy s s'
making_room s h = elim (Bool-cases (leb (length s.v) (s.len * 2))) [
  | inl full ↦ let (s', e, r) = resize-Roomy s h in (s', rw full e, r)
  | inr space ↦ elim h.sized [
    | inl none_yet ↦ absurd (ground (arith, space, none_yet))
    | inr (k, sized) ↦ (
      s,
      rw space refl,
      record {
        k = k;
        sized = sized;
        counted = h.counted;
        len = refl;
        room = ground (arith, space);
        members = λ q. refl;
      },
    )
  ]
]

-- `Put` returns, keeps the invariant, and adds the value and no other.
pub put-IsValid :
    (s : BytesSet) (p : Bytes)
    → IsValid s
    → (s' : BytesSet) × (put s p ≡ ok s')
      × IsValid s'
      × (s'.len ≡ s.len + 1)
      × ((q : Bytes) → holds s'.v q ≡ (bytes_eq q p || holds s.v q))
unfolding put
put-IsValid s p h =
    let (s1, made, r) = making_room s h in
    let (s2, e, n, f) = put_here-Fills s1 p (suc r.k) r.sized (omega (arith, r.counted, r.room)) in
    (
      s2,
      rw made e,
      record {
        counted = omega (arith, f.filled, r.counted, n);
        sized = inr (r.k, f.size ∙ r.sized);
        half = omega (arith, n, f.size, r.room, r.sized);
      },
      omega (arith, n, r.len),
      λ q. f.members q ∙ ap (λ b. bytes_eq q p || b) (r.members q),
    )

-- `Contains` returns.
pub contains-IsValid : (s : BytesSet) (p : Bytes) → IsValid s → (b : Bool) × (contains s p ≡ ok b)
unfolding contains
contains-IsValid s p h = elim (Bool-cases (s.len == 0)) [
  | inl none_yet ↦ (false, rw none_yet refl)
  | inr some_len ↦ elim h.sized [
    | inl none_yet ↦ absurd (ground (arith, h.half, none_yet))
    | inr (k, sized) ↦
        let (b, e) =
          probe_home-returned s.v p (suc k) sized
            (omega (arith, h.counted, h.half, pow_two_pos (suc k), sized)) in
        (b, rw some_len e)
  ]
]

-- The values one after the other.
abbrev pub put_all : BytesSet → List Bytes → Result BytesSet
put_all s [] = ok s
put_all s (p ∷ ps) = do s' ← put s p; put_all s' ps

abbrev pub is_among : List Bytes → Bytes → Bool
is_among [] q = false
is_among (p ∷ ps) q = bytes_eq q p || is_among ps q

put_all-IsValid :
    (s : BytesSet) (ps : List Bytes)
    → IsValid s
    → (s' : BytesSet) × (put_all s ps ≡ ok s')
      × IsValid s'
      × (s'.len ≡ s.len + length ps)
      × ((q : Bytes) → holds s'.v q ≡ (is_among ps q || holds s.v q))
put_all-IsValid s [] h = (s, refl, h, omega arith, λ q. refl)
put_all-IsValid s (p ∷ ps) h =
    let (s1, e1, h1, n1, f1) = put-IsValid s p h in
    let (s2, e2, h2, n2, f2) = put_all-IsValid s1 ps h1 in
    (s2, rw e1 e2, h2, omega (arith, n1, n2), λ q. ground (arith, f1 q, f2 q))

-- Any values that are put one after the other into the empty set, of whatever hashes, are put
-- without a panic or an endless loop. The set then has as many entries as there are values, its
-- filled buckets hold exactly the values, and `Contains` answers for any slice, true only for one
-- of the values.
pub put_all-contains :
    (ps : List Bytes)
    → (s : BytesSet) × (put_all empty ps ≡ ok s)
      × (s.len ≡ length ps)
      × ((q : Bytes) → holds s.v q ≡ is_among ps q)
      × ((q : Bytes)
          → (contains s q ≡ ok false) ⊎ ((contains s q ≡ ok true) × (is_among ps q ≡ true)))
put_all-contains ps =
    let (s, e, h, n, f) = put_all-IsValid empty ps empty-IsValid in
    (
      s,
      e,
      omega (arith, n),
      λ q. ground (arith, f q),
      λ q.
          let (b, r) = contains-IsValid s q h in
          elim (Bool-cases b) [
            | inl yes_b ↦
                let here = r ∙ ap ok yes_b in
                inr (here, ground (arith, f q, contains_sound s q here))
            | inr no_b ↦ inl (r ∙ ap ok no_b)
          ],
    )
