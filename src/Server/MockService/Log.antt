-- ===== src/Server/MockService/Log.antt =====
-- mock_service.go and server.go: the channel of an election is a log that requests only append to.
use pebble_voting_app.Base.{
  ℕ, [], ◌∷◌, ◌++◌, List, Bool, false, none, some, ◌≡◌, ◌∙◌, sym, subst, ap, refl, ◌⊎◌, inl, inr,
  Bytes, Result, ok, bytes_eq, bytes_eq→eq, Bool-cases, Option-cases,
}
use pebble_voting_app.Base32.{encode}
use pebble_voting_app.Base.Exec.{continue-holds}
use pebble_voting_app.Pubkey.{Schemes}
use pebble_voting_app.Anoncred.{CredentialSystem}
use pebble_voting_app.Anoncred.Gnark.{Gnark}
use pebble_voting_app.Structs.EncryptedBallot.Sealing.{Ciphers}
use pebble_voting_app.Vdf.{Vdf}
use pebble_voting_app.Vdf.Pietrzak.{PietrzakVdf}
use pebble_voting_app.Voting.Params.{ElectionParams, Time}
use pebble_voting_app.Voting.Message
use pebble_voting_app.Voting.Message.{Message, new_mock}
use pebble_voting_app.Voting.Election.{insert}
use pebble_voting_app.Voting.Creation.{new_election}
use pebble_voting_app.Server.{Server, Request}
use pebble_voting_app.Server.SetupParams.{ElectionSetupParams, params}
use pebble_voting_app.Server.Responses.{Outside}
use pebble_voting_app.Server.Handler.Access.{serve_http-holds}
use pebble_voting_app.Server.MockService.{
  MockService, Entry, mock_service, find, create, create_new, post,
}
use pebble_voting_app.Server.MockService.Invariant.{find-insert, find-insert_other}
use pebble_voting_app.Server.MockService.Reachable.{serve_mock}

-- The messages of one entry after a request: as before, or one more at the end.
abbrev pub Appended : (before after : List Message) → Type 0
Appended before after = (after ≡ before) ⊎ ((m : Message) × (after ≡ before ++ (m ∷ [])))

-- Every election of `s` is in `s'`, the same but for what was appended to its messages.
abbrev pub Grows : (s s' : MockService) → Type 0
Grows s s' =
    (id : Bytes) (e : Entry)
    → find id s.elections ≡ some e
    → (e' : Entry) × (find id s'.elections ≡ some e')
      × (e'.election ≡ e.election)
      × Appended e.channel.messages e'.channel.messages

Grows-refl : (s : MockService) → Grows s s
Grows-refl s id e there = (e, there, refl, inl refl)

some_injective : {a b : Entry} → some a ≡ some b → a ≡ b
some_injective e = cc

post-Grows : (ref : Bytes × Entry) (m : Message) (s : MockService) → Grows s (post ref m s).1
unfolding post
post-Grows ref m s id e there = elim (Option-cases (find ref.0 s.elections)) [
  | inl none_there ↦ rw (post, none_there) (e, there, refl, inl refl)
  | inr (w, at) ↦ elim (Bool-cases (bytes_eq ref.0 id)) [
    | inr other ↦
        rw (post, at) (e, find-insert_other ref.0 id _ s.elections other ∙ there, refl, inl refl)
    | inl same ↦
        let key = bytes_eq→eq ref.0 id same in
        let here : w ≡ e =
          some_injective (sym at ∙ subst (λ x. find x s.elections ≡ some e) (sym key) there) in
        let posted : Entry = record w { channel = Message.post w.channel m } in
        rw (post, at)
          (
            posted,
            subst (λ x. find x (insert ref.0 posted s.elections) ≡ some posted) key
                (find-insert ref.0 posted s.elections),
            ap (λ (x : Entry). x.election) here,
            inr (m, ap (λ (x : Entry). x.channel.messages ++ (m ∷ [])) here),
          )
  ]
]

-- The drawn id is not in use yet.
abbrev pub Fresh : Result Bytes → MockService → Type 0
Fresh drawn s = (id : Bytes) → drawn ≡ ok id → find (encode id) s.elections ≡ none

fresh_key :
    (id key : Bytes) (e : Entry) (m : List (Bytes × Entry))
    → find key m ≡ none
    → find id m ≡ some e
    → bytes_eq key id ≡ false
fresh_key id key e m unused there = elim (Bool-cases (bytes_eq key id)) [
  | inr other ↦ other
  | inl same ↦
      let both = subst (λ x. find x m ≡ none) (bytes_eq→eq key id same) unused in
      absurd (cc (both, there))
]

module _ (schemes : Schemes) (parse_time : Bytes → Result Time) (loaded : Bool)
    (conversion : ElectionParams → ℕ) (methods : PietrzakVdf → Vdf) where
  create-Grows :
      (drawn : Result Bytes) (spar : ElectionSetupParams) (s : MockService)
      → Fresh drawn s
      → Grows s (create schemes parse_time loaded conversion methods drawn spar s).1
  unfolding create create_new
  create-Grows drawn spar s fresh = elim (Option-cases (find spar.admin_id s.ids)) [
    | inr (old, there) ↦ rw (create, there) (Grows-refl s)
    | inl unused ↦
        rw (create, unused)
          (continue-holds (Grows s) (params schemes parse_time spar, s) _ (Grows-refl s)
            λ epar parsed.
              continue-holds (Grows s) (drawn, s) _ (Grows-refl s)
                λ id drew.
                  continue-holds (Grows s) (new_election loaded conversion methods id (ok epar), s)
                    _ (Grows-refl s)
                    λ made e1. λ j e there. (
                      e,
                      find-insert_other (encode id) j _ s.elections
                            (fresh_key j (encode id) e s.elections (fresh id drew) there)
                          ∙ there,
                      refl,
                      inl refl,
                    ))
  ]

  -- Unless RandomId draws an id that is in use, a request to a mock server keeps every election,
  -- and keeps the messages on its channel in their order, with at most one more at the end.
  pub serve_mock-Grows :
      (outside : Outside) (sys : CredentialSystem) (ciphers : Ciphers)
      (iteration : List sys.PublicCredential → List sys.PublicCredential) (g : Gnark)
      (now later : Time) (drawn : Result Bytes) (req : Request) (srv : Server) (s : MockService)
      → Fresh drawn s
      → Grows s
          (serve_mock outside schemes parse_time loaded conversion methods sys ciphers iteration g
            now later drawn req srv s).1
  unfolding serve_mock
  serve_mock-Grows outside sys ciphers iteration g now later drawn req srv s fresh =
      serve_http-holds outside (mock_service schemes parse_time loaded conversion methods drawn) sys
        schemes ciphers iteration g (λ s'. s' ≡ s) (Grows s) (λ s' e. rw e (Grows-refl s)) srv req
        now later s (λ may spar s' e. rw e (create-Grows drawn spar s fresh))
        (λ may ref m s' e. rw e (post-Grows ref m s)) refl
