-- ===== src/Structs/EligibilityList/Invariant.antt =====
-- eligibility_list.go: the slice of keys and the map, and what `Add` does to them.
use pebble_voting_app.Base.{
  ◌≡◌, refl, [], ◌∷◌, ◌++◌, List, Option, none, some, Bool, true, false, ◌||◌, arith, Bytes, ok,
  bytes_eq, bytes_eq→eq, bytes_eq_refl, if◌then◌else◌, ◌≢◌, not, Option-cases, inl, inr,
}
use pebble_voting_app.Structs.EligibilityList.{
  EligibilityList, IdMap, new, lookup, add, id_commitment, contains,
}

-- Is the hash among the keys?
abbrev pub has_key : List Bytes → Bytes → Bool
has_key [] k = false
has_key (j ∷ js) k = bytes_eq j k || has_key js k

abbrev pub NoRepeats : List Bytes → Type 0
NoRepeats [] = Unit
NoRepeats (k ∷ ks) = (has_key ks k ≡ false) × NoRepeats ks

pub record IsValid (list : EligibilityList) : Type 0 where
  pub made : list.id_commitments ≢ none
  pub agree : (k : Bytes) → contains list k ≡ has_key list.public_key_hashes k
  pub distinct : NoRepeats list.public_key_hashes

has_key-append :
    (js : List Bytes) (j k : Bytes) → has_key (js ++ (j ∷ [])) k ≡ (bytes_eq j k || has_key js k)
has_key-append [] j k = refl
has_key-append (i ∷ js) j k = ground (arith, has_key-append js j k)

bytes_eq_sym : (x y : Bytes) → bytes_eq x y ≡ bytes_eq y x
bytes_eq_sym x y = ground (arith, bytes_eq→eq x y, bytes_eq→eq y x, bytes_eq_refl x)

NoRepeats-append :
    (js : List Bytes) (j : Bytes) → NoRepeats js → has_key js j ≡ false → NoRepeats (js ++ (j ∷ []))
NoRepeats-append [] j h g = (refl, tt)
NoRepeats-append (i ∷ js) j h g = (
  ground (arith, has_key-append js j i, bytes_eq_sym i j),
  NoRepeats-append js j h.1 (ground arith),
)

pub new-IsValid : IsValid new
unfolding contains lookup
new-IsValid = record { made = λ e. cc; agree = λ k. refl; distinct = tt }

-- The two branches of `Add`, on a list with a map.
module _ (ks : List Bytes) (m : IdMap) (pkh id_com : Bytes) where
  abbrev before : EligibilityList
  before = record { public_key_hashes = ks; id_commitments = some m }

  abbrev after : EligibilityList
  after = record { public_key_hashes = ks ++ (pkh ∷ []); id_commitments = some ((pkh, id_com) ∷ m) }

  after-IsValid : IsValid before → lookup pkh m ≡ none → IsValid after
  unfolding contains lookup
  after-IsValid v e = record {
    made = λ p. cc;
    agree = λ k. ground (arith, v.agree k, has_key-append ks pkh k);
    distinct = NoRepeats-append ks pkh v.distinct (ground (arith, v.agree pkh));
  }

  add-IsValid_some :
      IsValid before
      → (list' : EligibilityList) × (add before pkh id_com ≡ ok (list', not (contains before pkh)))
        × IsValid list'
  unfolding add contains
  add-IsValid_some v = elim (Option-cases (lookup pkh m)) [
    | inl new_key ↦ (after, ground arith, after-IsValid v new_key)
    | inr (old, found) ↦ (before, ground arith, v)
  ]

add-IsValid_cases :
    (ks : List Bytes) (ids : Option IdMap) (pkh id_com : Bytes)
    → IsValid (record { public_key_hashes = ks; id_commitments = ids })
    → (list' : EligibilityList) × (add
          (record { public_key_hashes = ks; id_commitments = ids })
          pkh
          id_com
        ≡ ok (list', not (contains (record { public_key_hashes = ks; id_commitments = ids }) pkh)))
      × IsValid list'
add-IsValid_cases ks none pkh id_com v = absurd (v.made refl)
add-IsValid_cases ks (some m) pkh id_com v = add-IsValid_some ks m pkh id_com v

-- On a valid list `Add` returns, reports whether the key was new, and leaves a valid list.
pub add-IsValid :
    (list : EligibilityList) (pkh id_com : Bytes)
    → IsValid list
    → (list' : EligibilityList) × (add list pkh id_com ≡ ok (list', not (contains list pkh)))
      × IsValid list'
add-IsValid list pkh id_com v =
    add-IsValid_cases list.public_key_hashes list.id_commitments pkh id_com v

-- After an `Add` that reports true, the key has the commitment that was added, and every other
-- key has the answer that it had.
id_commitment-add :
    (list list' : EligibilityList) (pkh id_com k : Bytes)
    → add list pkh id_com ≡ ok (list', true)
    → id_commitment list' k ≡ (if bytes_eq pkh k then (id_com, true) else id_commitment list k)
unfolding add id_commitment lookup
id_commitment-add list list' pkh id_com k e = ground arith

-- Afterwards the list has the added key, and the others that it had.
pub contains-add :
    (list list' : EligibilityList) (pkh id_com k : Bytes) (b : Bool)
    → add list pkh id_com ≡ ok (list', b)
    → contains list' k ≡ (bytes_eq pkh k || contains list k)
unfolding add contains lookup
contains-add list list' pkh id_com k b e = ground (arith, bytes_eq→eq pkh k)
