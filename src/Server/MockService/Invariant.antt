-- ===== src/Server/MockService/Invariant.antt =====
-- mock_service.go: the two maps of the service belong together.
use pebble_voting_app.Base.{
  ℕ, [], ◌∷◌, List, Bool, false, some, ◌≡◌, ◌∙◌, sym, subst, refl, Bytes, Result, ok, arith,
  bytes_eq, bytes_eq_refl, bytes_eq→eq, Bool-cases, Option-cases, inl, inr, ◌⊎◌,
}
use pebble_voting_app.Base32.{encode}
use pebble_voting_app.Pubkey.{Schemes}
use pebble_voting_app.Vdf.{Vdf}
use pebble_voting_app.Vdf.Pietrzak.{PietrzakVdf}
use pebble_voting_app.Voting.Params.{ElectionParams, Time}
use pebble_voting_app.Voting.Creation.{new_election, new_election-fields}
use pebble_voting_app.Server.SetupParams.{ElectionSetupParams, params}
use pebble_voting_app.Base.Exec.{continue-holds}
use pebble_voting_app.Voting.Message.{Message, new_mock}
use pebble_voting_app.Voting.Election.{insert}
use pebble_voting_app.Server.MockService.{
  Entry, MockService, find, post, create_new, create, new_mock_server,
}
use pebble_voting_app.Server.{Server}

module _ {ℓ} {A : Type ℓ} where
  pub find-insert : (k : Bytes) (v : A) (m : List (Bytes × A)) → find k (insert k v m) ≡ some v
  unfolding find insert
  find-insert k v [] = rw bytes_eq_refl refl
  find-insert k v ((j, w) ∷ m) = elim (Bool-cases (bytes_eq j k)) [
    | inl same ↦ rw (same, bytes_eq_refl) refl
    | inr other ↦ rw (other, other) (find-insert k v m)
  ]

  pub find-insert_other :
      (k j : Bytes) (v : A) (m : List (Bytes × A))
      → bytes_eq k j ≡ false
      → find j (insert k v m) ≡ find j m
  unfolding find insert
  find-insert_other k j v [] h = rw h refl
  find-insert_other k j v ((i, w) ∷ m) h = elim (Bool-cases (bytes_eq i k)) [
    | inl same ↦
        let no : bytes_eq i j ≡ false =
          subst (λ x. bytes_eq x j ≡ false) (sym (bytes_eq→eq i k same)) h in
        rw (same, h, no) refl
    | inr other ↦ rw (other, find-insert_other k j v m h) refl
  ]

  -- What is found after an insertion is the new value under its key, or was there before.
  pub find-insert_cases :
      (k j : Bytes) (v w : A) (m : List (Bytes × A))
      → find j (insert k v m) ≡ some w
      → ((k ≡ j) × (v ≡ w)) ⊎ ((bytes_eq k j ≡ false) × (find j m ≡ some w))
  find-insert_cases k j v w m e = elim (Bool-cases (bytes_eq k j)) [
    | inl same ↦
        let at = bytes_eq→eq k j same in
        let here : some v ≡ some w =
          sym (find-insert k v m) ∙ subst (λ x. find x (insert k v m) ≡ some w) (sym at) e in
        inl (at, cc)
    | inr other ↦ inr (other, sym (find-insert_other k j v m other) ∙ e)
  ]

-- An entry belongs under its id: the id of its channel, encoded, which is also the election's.
pub record Belongs (id : Bytes) (e : Entry) : Type 0 where
  pub key : encode e.channel.id ≡ id
  pub same_id : e.election.id ≡ e.channel.id
  pub same_params : e.election.params ≡ e.channel.params

-- Every entry belongs under its key, and every administrator's id leads to an entry.
pub record IsConsistent (s : MockService) : Type 0 where
  pub entries : (id : Bytes) (e : Entry) → find id s.elections ≡ some e → Belongs id e
  pub ids :
      (admin_id id : Bytes)
      → find admin_id s.ids ≡ some id
      → (e : Entry) × (find id s.elections ≡ some e)

-- Inserting an entry where it belongs.
insert-IsConsistent :
    (s : MockService) (id : Bytes) (e : Entry)
    → IsConsistent s
    → Belongs id e
    → IsConsistent (record s { elections = insert id e s.elections })
insert-IsConsistent s id e h own = record {
  entries = λ j w there. elim (find-insert_cases id j e w s.elections there) [
    | inl (at, same) ↦ subst (λ x. Belongs x w) at (subst (λ x. Belongs id x) same own)
    | inr (other, old) ↦ h.entries j w old
  ];
  ids = λ admin_id j there. elim (Bool-cases (bytes_eq id j)) [
    | inl same ↦ (
      e,
      subst (λ x. find x (insert id e s.elections) ≡ some e) (bytes_eq→eq id j same)
          (find-insert id e s.elections),
    )
    | inr other ↦
        let (w, old) = h.ids admin_id j there in
        (w, find-insert_other id j e s.elections other ∙ old)
  ];
}

insert_id-IsConsistent :
    (s : MockService) (admin_id id : Bytes) (e : Entry)
    → IsConsistent s
    → find id s.elections ≡ some e
    → IsConsistent (record s { ids = insert admin_id id s.ids })
insert_id-IsConsistent s admin_id id e h there = record {
  entries = h.entries;
  ids = λ a j at. elim (find-insert_cases admin_id a id j s.ids at) [
    | inl (same, here) ↦ (e, subst (λ x. find x s.elections ≡ some e) here there)
    | inr (other, old) ↦ h.ids a j old
  ];
}

pub post-IsConsistent :
    (ref : Bytes × Entry) (m : Message) (s : MockService)
    → IsConsistent s
    → IsConsistent (post ref m s).1
unfolding post
post-IsConsistent ref m s h = elim (Option-cases (find ref.0 s.elections)) [
  | inl none_there ↦ rw (post, none_there) h
  | inr (e, there) ↦
      let own = h.entries ref.0 e there in
      rw (post, there)
        (insert-IsConsistent s ref.0 _ h
          (record { key = own.key; same_id = own.same_id; same_params = own.same_params }))
]

module _ (schemes : Schemes) (parse_time : Bytes → Result Time) (loaded : Bool)
    (conversion : ElectionParams → ℕ) (methods : PietrzakVdf → Vdf) where
  create_new-IsConsistent :
      (drawn : Result Bytes) (spar : ElectionSetupParams) (s : MockService)
      → IsConsistent s
      → IsConsistent (create_new schemes parse_time loaded conversion methods drawn spar s).1
  unfolding create_new
  create_new-IsConsistent drawn spar s h =
      continue-holds IsConsistent (params schemes parse_time spar, s) _ h
        λ epar parsed.
          continue-holds IsConsistent (drawn, s) _ h
            λ id drew.
              continue-holds IsConsistent (new_election loaded conversion methods id (ok epar), s) _
                h
                λ e made.
                  let (same_id, same_params) =
                    new_election-fields loaded conversion methods id epar e made in
                  let entry : Entry = record { election = e; channel = new_mock id epar } in
                  let own : Belongs (encode id) entry = record {
                    key = refl;
                    same_id = same_id;
                    same_params = same_params;
                  } in
                  insert_id-IsConsistent _ spar.admin_id (encode id) entry
                    (insert-IsConsistent s (encode id) entry h own)
                    (find-insert (encode id) entry s.elections)

  pub create-IsConsistent :
      (drawn : Result Bytes) (spar : ElectionSetupParams) (s : MockService)
      → IsConsistent s
      → IsConsistent (create schemes parse_time loaded conversion methods drawn spar s).1
  unfolding create
  create-IsConsistent drawn spar s h = elim (Option-cases (find spar.admin_id s.ids)) [
    | inl fresh ↦ rw (create, fresh) (create_new-IsConsistent drawn spar s h)
    | inr (old, there) ↦ rw (create, there) h
  ]

no_elections-IsConsistent :
    (url : Bytes) → IsConsistent (record { elections = []; ids = []; url = url })
unfolding find
no_elections-IsConsistent url = record {
  entries = λ id e there. absurd (ground arith);
  ids = λ admin_id id there. absurd (ground arith);
}

pub new_mock_server-IsConsistent :
    (url pass_hash : Bytes) (srv : Server) (s : MockService)
    → new_mock_server url pass_hash ≡ ok (srv, s)
    → IsConsistent s
unfolding new_mock_server
new_mock_server-IsConsistent url pass_hash srv s made =
    let empty : MockService = record { elections = []; ids = []; url = url } in
    let same : empty ≡ s = ground arith in subst IsConsistent same (no_elections-IsConsistent url)
